-- ===== src/Http/Protocol.antt =====
-- What httpserver/main.cpp may do to one descriptor, as an automaton over the calls of the kernel: it
-- is accepted, then watched, written and shut down in any order, and closed.
use mathlib.Core.Path.{subst}
use learning_directory.Base.{
  ℕ, ◌≡◌, refl, sym, ap, ◌∙◌, List, [], ◌∷◌, ◌++◌, Bool, true, false, Option, none, some,
  if◌then◌else◌, ◌==◌, Bool-cases, inl, inr, All,
}
use learning_directory.Base.Int.{ℤ, int_eq}
use learning_directory.Base.Assoc.{lookup, assign, lookup-assign}
use learning_directory.Http.State.{
  ClientT, Call, accepted, watch_input, watch_output, unwatch, shut, closed, wrote, Web,
}

pub data Phase : Type 0 where
  idle : Phase
  open_for : Phase

abbrev pub when_open : Phase → Phase → Option Phase
when_open idle p = none
when_open open_for p = some p

abbrev pub when_idle : Phase → Phase → Option Phase
when_idle idle p = some p
when_idle open_for p = none

-- The descriptor of a call, and where it leads to; `none` where it is not allowed.
abbrev pub fd_of : Call → ℤ
fd_of (accepted j) = j
fd_of (watch_input j) = j
fd_of (watch_output j) = j
fd_of (unwatch j) = j
fd_of (shut j) = j
fd_of (closed j) = j
fd_of (wrote j bs) = j

abbrev pub allowed : Call → Phase → Option Phase
allowed (accepted j) p = when_idle p open_for
allowed (watch_input j) p = when_open p open_for
allowed (watch_output j) p = when_open p open_for
allowed (unwatch j) p = when_open p open_for
allowed (shut j) p = when_open p open_for
allowed (closed j) p = when_open p idle
allowed (wrote j bs) p = when_open p open_for

abbrev pub and_then : Option Phase → (Phase → Option Phase) → Option Phase
and_then none f = none
and_then (some p) f = f p

-- One call, as the descriptor `k` sees it.
abbrev pub advance : ℤ → Call → Phase → Option Phase
advance k c p = if fd_of c == k then allowed c p else some p

-- Calls, newest first.
abbrev pub replay : ℤ → List Call → Option Phase → Option Phase
replay k [] p = p
replay k (c ∷ cs) p = and_then (replay k cs p) (advance k c)

pub replay-append :
    (k : ℤ) (xs ys : List Call) (p : Option Phase)
    → replay k (xs ++ ys) p ≡ replay k xs (replay k ys p)
replay-append k [] ys p = refl
replay-append k (c ∷ xs) ys p = ap (λ o. and_then o (advance k c)) (replay-append k xs ys p)

-- The phase that an entry of `fds` stands for.
abbrev pub phase_of : Option (Option ClientT) → Phase
phase_of (some (some c)) = open_for
phase_of (some none) = idle
phase_of none = idle

-- The calls obey the automaton, and lead to the phases that `fds` stands for.
pub record Refines (w : Web) : Type 0 where
  pub phases : (k : ℤ) → replay k w.calls (some idle) ≡ some (phase_of (lookup k w.fds))

pub assign-Refines :
    (w : Web) (fd : ℤ) (o : Option ClientT) (made : List Call) (locked : Bool) (count : ℕ)
    (exp : Option ℤ)
    → Refines w
    → ((k : ℤ)
        → replay k made (some (phase_of (lookup k w.fds)))
          ≡ some (phase_of (if fd == k then some o else lookup k w.fds)))
    → Refines (record {
      fds = assign fd o w.fds;
      locked = locked;
      countacp = count;
      expiring = exp;
      calls = made ++ w.calls;
    })
assign-Refines w fd o made locked count exp h obeys = record {
  phases = λ k.
      replay-append k made w.calls (some idle)
      ∙ ap (replay k made) (h.phases k)
      ∙ obeys k
      ∙ ap (λ e. some (phase_of e)) (sym (lookup-assign fd k o w.fds));
}

-- Calls on one descriptor, as it sees them and as the others do.
abbrev pub play : List Call → Option Phase → Option Phase
play [] p = p
play (c ∷ cs) p = and_then (play cs p) (allowed c)

abbrev pub AllOn : ℤ → List Call → Type 0
AllOn fd = All (λ c. fd_of c ≡ fd)

and_then_id : (o : Option Phase) → and_then o some ≡ o
and_then_id none = refl
and_then_id (some p) = refl

pub replay_on :
    (fd k : ℤ) (made : List Call) (p : Option Phase)
    → (fd == k) ≡ true
    → AllOn fd made
    → replay k made p ≡ play made p
replay_on fd k [] p same on = refl
replay_on fd k (c ∷ cs) p same on =
    (λ i. and_then (replay_on fd k cs p same on.1 i) (advance k c))
    ∙ (λ i. and_then (play cs p) (λ q. if hit i then allowed c q else some q))
  where
    hit : (fd_of c == k) ≡ true
    hit = ap (λ j. j == k) on.0 ∙ same

pub replay_off :
    (fd k : ℤ) (made : List Call) (p : Option Phase)
    → (fd == k) ≡ false
    → AllOn fd made
    → replay k made p ≡ p
replay_off fd k [] p other on = refl
replay_off fd k (c ∷ cs) p other on =
    (λ i. and_then (replay_off fd k cs p other on.1 i) (advance k c))
    ∙ (λ i. and_then p (λ q. if miss i then allowed c q else some q))
    ∙ and_then_id p
  where
    miss : (fd_of c == k) ≡ false
    miss = ap (λ j. j == k) on.0 ∙ other

-- The calls are on `fd`, whose entry stands for the phase `p`.
module _ (w : Web) (fd : ℤ) (p : Phase) (there : phase_of (lookup fd w.fds) ≡ p) where
  phase_at : (k : ℤ) → (fd == k) ≡ true → phase_of (lookup k w.fds) ≡ p
  phase_at k same = subst (λ j. phase_of (lookup j w.fds) ≡ p) ((int_eq.eqb_iff fd k).0 same) there

  pub obeys_at :
      (o : Option ClientT) (made : List Call)
      → AllOn fd made
      → play made (some p) ≡ some (phase_of (some o))
      → (k : ℤ)
      → replay k made (some (phase_of (lookup k w.fds)))
        ≡ some (phase_of (if fd == k then some o else lookup k w.fds))
  obeys_at o made on plays k = elim (Bool-cases (fd == k)) [
    | inl same ↦
        replay_on fd k made (some (phase_of (lookup k w.fds))) same on
        ∙ ap (λ x. play made (some x)) (phase_at k same)
        ∙ plays
        ∙ ap (λ b. some (phase_of (if b then some o else lookup k w.fds))) (sym same)
    | inr other ↦
        replay_off fd k made (some (phase_of (lookup k w.fds))) other on
        ∙ ap (λ b. some (phase_of (if b then some o else lookup k w.fds))) (sym other)
  ]

  -- Calls that come back to the phase.
  pub returns_to :
      (made : List Call)
      → AllOn fd made
      → play made (some p) ≡ some p
      → (k : ℤ)
      → replay k made (some (phase_of (lookup k w.fds))) ≡ some (phase_of (lookup k w.fds))
  returns_to made on plays k = elim (Bool-cases (fd == k)) [
    | inl same ↦
        replay_on fd k made (some (phase_of (lookup k w.fds))) same on
        ∙ ap (λ x. play made (some x)) (phase_at k same)
        ∙ plays
        ∙ ap some (sym (phase_at k same))
    | inr other ↦ replay_off fd k made (some (phase_of (lookup k w.fds))) other on
  ]
