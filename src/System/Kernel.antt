-- ===== src/System/Kernel.antt =====
-- What system_function/main.cpp relies on of `waitpid`: a kernel as a record of its calls, with what
-- their documentation says of a child that has ended, and of a process that is no child.
use mathlib.Core.List.{Mem}
use learning_directory.Base.{ℕ, ◌≡◌, ◌<◌, List, [], ◌∷◌, false, All}
use learning_directory.Base.Int.{ℤ, pos, ltb_ℤ}

-- One answer of `waitpid(pid, &status, 0)`: the status, -1 with EINTR, or -1 with another `errno`.
pub data Wait : Type 0 where
  reaped : ℤ → Wait
  interrupted : Wait
  refused : Wait

-- `ended` are the children that have ended and are not yet waited for, in the order in which
-- `waitpid(-1, ...)` gives them; `running` are the others.
pub record Kernel : Type 1 where
  pub State : Type 0
  pub ended : State → List ℕ
  pub running : State → List ℕ
  pub wait_any : State → ℤ × State  -- `waitpid(-1, &state, WNOHANG)`
  pub wait_for : ℕ → State → Wait × State  -- `waitpid(pid, &status, 0)`
  pub ended_positive : (s : State) → All (λ p. 0 < p) (ended s)
  pub wait_any-ended :
      (s : State) (p : ℕ) (ps : List ℕ)
      → ended s ≡ p ∷ ps
      → ((wait_any s).0 ≡ pos p)
        × (ended (wait_any s).1 ≡ ps)
        × (running (wait_any s).1 ≡ running s)
  pub wait_any_none :
      (s : State) → ended s ≡ [] → (ltb_ℤ (pos 0) (wait_any s).0 ≡ false) × ((wait_any s).1 ≡ s)
  pub wait_for_stranger :
      (s : State) (p : ℕ) → ¬ Mem p (ended s) → ¬ Mem p (running s) → (wait_for p s).0 ≡ refused
