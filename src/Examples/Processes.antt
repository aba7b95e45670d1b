-- ===== src/Examples/Processes.antt =====
-- Runs of system_function/main.cpp, over a kernel that keeps two lists of processes.
use mathlib.Core.List.{Mem, mem-cons_self, mem-cons_of_mem, not-mem-nil}
use learning_directory.Base.{
  ℕ, suc, ◌≡◌, ◌<◌, refl, ap, List, [], ◌∷◌, arith, All, some, codes, Bool, true, false,
  if◌then◌else◌, ◌==◌, nat_eq, ◌||◌, inl, inr, Bool-cases, map,
}
use learning_directory.Base.Int.{ℤ, pos, minus_one, ltb_ℤ}
use learning_directory.System.Kernel.{Wait, reaped, interrupted, refused, Kernel}
use learning_directory.System.Command.{mysystem, returns}
use learning_directory.System.Handler.{sigchld_handler, Reaps, handler-Reaps}
use learning_directory.System.Waiting.{mysystem_waits}
use learning_directory.System.Stolen.{after_handler, status_stolen}

abbrev has : ℕ → List ℕ → Bool
has p [] = false
has p (q ∷ qs) = q == p || has p qs

mem-has : (p : ℕ) (qs : List ℕ) → ¬ Mem p qs → has p qs ≡ false
mem-has p [] h = refl
mem-has p (q ∷ qs) h = elim (Bool-cases (q == p)) [
  | inl same ↦ absurd (h (rw ((nat_eq.eqb_iff q p).0 same) mem-cons_self))
  | inr other ↦ rw other (mem-has p qs (λ m. h (mem-cons_of_mem q m)))
]

positives : (ps : List ℕ) → All (λ p. 0 < p) (map suc ps)
positives [] = tt
positives (p ∷ ps) = (omega arith, positives ps)

-- The numbers of the children, less one: those that have ended, and the others.
abbrev Table : Type 0
Table = List ℕ × List ℕ

abbrev wait_any : Table → ℤ × Table
wait_any ([], rs) = (pos 0, ([], rs))
wait_any (p ∷ ps, rs) = (pos (suc p), (ps, rs))

abbrev wait_for : ℕ → Table → Wait × Table
wait_for p t =
    if has p (map suc t.0)
    then (reaped (pos 0), t)
    else if has p (map suc t.1)
    then (interrupted, t)
    else (refused, t)

wait_any-ended :
    (t : Table) (p : ℕ) (ps : List ℕ)
    → map suc t.0 ≡ p ∷ ps
    → ((wait_any t).0 ≡ pos p)
      × (map suc (wait_any t).1.0 ≡ ps)
      × (map suc (wait_any t).1.1 ≡ map suc t.1)
wait_any-ended ([], rs) p ps e = cc
wait_any-ended (q ∷ qs, rs) p ps e = (ap pos (cc), cc, refl)

wait_any_none :
    (t : Table) → map suc t.0 ≡ [] → (ltb_ℤ (pos 0) (wait_any t).0 ≡ false) × ((wait_any t).1 ≡ t)
wait_any_none ([], rs) e = (refl, refl)
wait_any_none (q ∷ qs, rs) e = cc

wait_for_stranger :
    (t : Table) (p : ℕ) → ¬ Mem p (map suc t.0) → ¬ Mem p (map suc t.1) → (wait_for p t).0 ≡ refused
wait_for_stranger t p e r = rw (mem-has p (map suc t.0) e, mem-has p (map suc t.1) r)

abbrev tables : Kernel
tables = record {
  State = Table;
  ended = λ t. map suc t.0;
  running = λ t. map suc t.1;
  wait_any = wait_any;
  wait_for = wait_for;
  ended_positive = λ t. positives t.0;
  wait_any-ended = wait_any-ended;
  wait_any_none = wait_any_none;
  wait_for_stranger = wait_for_stranger;
}

handler-Reaps_example :
    Reaps tables (6 ∷ 8 ∷ []) (5 ∷ 7 ∷ [], []) (sigchld_handler tables 3 (5 ∷ 7 ∷ [], []))
handler-Reaps_example = handler-Reaps tables 3 (5 ∷ 7 ∷ [], []) (omega arith)

mysystem_waits_example :
    mysystem (some (codes "ls")) (pos 6) true (interrupted ∷ interrupted ∷ reaped (pos 256) ∷ [])
    ≡ returns (some (pos 256))
mysystem_waits_example = mysystem_waits (codes "ls") 5 2 (reaped (pos 256)) [] true (λ e. cc)

status_stolen_example :
    after_handler tables (codes "ls") 6 true [] (sigchld_handler tables 2 (5 ∷ [], []))
    ≡ some (returns (some minus_one))
status_stolen_example = status_stolen tables (5 ∷ [], []) (codes "ls") 5 true [] not-mem-nil
