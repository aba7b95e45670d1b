-- ===== src/System/Stolen.antt =====
-- `mysystem` of system_function/main.cpp in a process that has installed `sigchld_handler`.
use mathlib.Core.Path.{subst}
use mathlib.Core.List.{Mem, not-mem-nil}
use learning_directory.Base.{
  ℕ, suc, ◌≡◌, ap, List, ◌∷◌, Bool, Option, none, some, Bytes, length, arith,
}
use learning_directory.Base.Int.{ℤ, pos, minus_one}
use learning_directory.System.Kernel.{Kernel, Wait}
use learning_directory.System.Command.{mysystem, Course, returns}
use learning_directory.System.Handler.{sigchld_handler, Reaps, handler-Reaps}

module _ (K : Kernel) where
  open K use {State, ended, running, wait_for}

  -- The handler runs, and then the parent's `waitpid`.
  abbrev pub after_handler : Bytes → ℕ → Bool → List Wait → Option (List ℤ × State) → Option Course
  after_handler cmdstring pid executed ws none = none
  after_handler cmdstring pid executed ws (some (printed, s)) =
      some (mysystem (some cmdstring) (pos pid) executed ((wait_for pid s).0 ∷ ws))

  -- If `sigchld_handler` runs when the child of `mysystem` is no longer running and before its
  -- `waitpid`, `mysystem` returns -1, whatever the child's status was.
  pub status_stolen :
      (s : State) (cmdstring : Bytes) (p : ℕ) (executed : Bool) (ws : List Wait)
      → ¬ Mem (suc p) (running s)
      → after_handler cmdstring (suc p) executed ws (sigchld_handler K (suc (length (ended s))) s)
        ≡ some (returns (some minus_one))
  unfolding mysystem
  status_stolen s cmdstring p executed ws gone =
      stolen (sigchld_handler K (suc (length (ended s))) s)
        (handler-Reaps K (suc (length (ended s))) s (omega arith))
    where
      stolen :
          (o : Option (List ℤ × State))
          → Reaps K (ended s) s o
          → after_handler cmdstring (suc p) executed ws o ≡ some (returns (some minus_one))
      stolen none h = absurd h
      stolen (some (printed, s')) h =
          ap (λ w. some (mysystem (some cmdstring) (pos (suc p)) executed (w ∷ ws)))
            (K.wait_for_stranger s' (suc p) (λ m. not-mem-nil (subst (Mem (suc p)) h.1 m))
              (λ m. gone (subst (Mem (suc p)) h.2 m)))
