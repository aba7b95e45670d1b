-- ===== src/System/Waiting.antt =====
-- What `mysystem` of system_function/main.cpp returns.
use learning_directory.Base.{
  ℕ, zero, suc, ◌≡◌, ◌≢◌, refl, ap, ◌∙◌, List, ◌∷◌, ◌++◌, Bool, Option, none, some, Bytes,
  replicate,
}
use learning_directory.Base.Int.{ℤ, pos, minus_one}
use learning_directory.System.Kernel.{Wait, reaped, interrupted, refused}
use learning_directory.System.Command.{wait_loop, mysystem, returns}

-- The value that stands for an answer other than EINTR.
abbrev pub outcome : Wait → Option ℤ
outcome (reaped status) = some status
outcome interrupted = none
outcome refused = some minus_one

waits_through : (k : ℕ) (ws : List Wait) → wait_loop (replicate k interrupted ++ ws) ≡ wait_loop ws
unfolding wait_loop
waits_through zero ws = refl
waits_through (suc k) ws = waits_through k ws

answered : (w : Wait) (ws : List Wait) → w ≢ interrupted → wait_loop (w ∷ ws) ≡ outcome w
unfolding wait_loop
answered (reaped status) ws h = refl
answered interrupted ws h = absurd (h refl)
answered refused ws h = refl

-- After a successful `fork`, `mysystem` returns in the parent what the first `waitpid` not
-- interrupted by a signal gives, after any number of interruptions: the status of the child, or -1
-- for another error.
pub mysystem_waits :
    (cmdstring : Bytes) (p k : ℕ) (w : Wait) (ws : List Wait) (executed : Bool)
    → w ≢ interrupted
    → mysystem (some cmdstring) (pos (suc p)) executed (replicate k interrupted ++ w ∷ ws)
      ≡ returns (outcome w)
unfolding mysystem
mysystem_waits cmdstring p k w ws executed h =
    ap returns (waits_through k (w ∷ ws) ∙ answered w ws h)
