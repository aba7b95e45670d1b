-- ===== src/Http/Balance.antt =====
-- The descriptors of httpserver/main.cpp: how often each is accepted and closed, and which a client
-- in `fds` holds.
use mathlib.Core.Path.{subst}
use learning_directory.Base.{
  ℕ, ◌+◌, ◌%◌, ◌^◌, ◌≡◌, refl, List, [], ◌∷◌, ◌++◌, Bool, true, false, Option, none, some,
  if◌then◌else◌, ◌==◌, nat_eq, arith, Bool-cases, if_case, inl, inr,
}
use learning_directory.Base.Int.{ℤ, pos, minus_one, ltb_ℤ, int_eq}
use learning_directory.Base.Assoc.{lookup, assign, lookup-assign}
use learning_directory.Http.State.{
  ClientT, Call, accepted, watch_input, watch_output, unwatch, shut, closed, wrote, Web, Ending,
}
use learning_directory.Http.Transfer.{set_fl}
use learning_directory.Http.Handlers.{Accept, handle_accept, refused, new_client}

-- How often the descriptor `k` has been accepted, and closed.
abbrev pub accepts_of : ℤ → List Call → ℕ
accepts_of k [] = 0
accepts_of k (accepted j ∷ cs) = (if j == k then 1 else 0) + accepts_of k cs
accepts_of k (watch_input j ∷ cs) = accepts_of k cs
accepts_of k (watch_output j ∷ cs) = accepts_of k cs
accepts_of k (unwatch j ∷ cs) = accepts_of k cs
accepts_of k (shut j ∷ cs) = accepts_of k cs
accepts_of k (closed j ∷ cs) = accepts_of k cs
accepts_of k (wrote j bs ∷ cs) = accepts_of k cs

abbrev pub closes_of : ℤ → List Call → ℕ
closes_of k [] = 0
closes_of k (accepted j ∷ cs) = closes_of k cs
closes_of k (watch_input j ∷ cs) = closes_of k cs
closes_of k (watch_output j ∷ cs) = closes_of k cs
closes_of k (unwatch j ∷ cs) = closes_of k cs
closes_of k (shut j ∷ cs) = closes_of k cs
closes_of k (closed j ∷ cs) = (if j == k then 1 else 0) + closes_of k cs
closes_of k (wrote j bs ∷ cs) = closes_of k cs

-- 1 for an entry that holds a client.
abbrev pub held : Option (Option ClientT) → ℕ
held (some (some c)) = 1
held (some none) = 0
held none = 0

-- The client of an entry knows its descriptor.
abbrev pub Knows : ℤ → Option (Option ClientT) → Type 0
Knows k (some (some c)) = c.fd ≡ k
Knows k (some none) = Unit
Knows k none = Unit

pub record IsBalanced (w : Web) : Type 0 where
  pub balance : (k : ℤ) → accepts_of k w.calls ≡ closes_of k w.calls + held (lookup k w.fds)
  pub knows : (k : ℤ) → Knows k (lookup k w.fds)

-- The kernel accepts only a descriptor that is closed.
abbrev pub IsFresh : ℤ → Web → Type 0
IsFresh k w = accepts_of k w.calls ≡ closes_of k w.calls

accepts_of-append :
    (k : ℤ) (xs ys : List Call) → accepts_of k (xs ++ ys) ≡ accepts_of k xs + accepts_of k ys
accepts_of-append k [] ys = omega arith
accepts_of-append k (accepted j ∷ xs) ys = omega (arith, accepts_of-append k xs ys)
accepts_of-append k (watch_input j ∷ xs) ys = accepts_of-append k xs ys
accepts_of-append k (watch_output j ∷ xs) ys = accepts_of-append k xs ys
accepts_of-append k (unwatch j ∷ xs) ys = accepts_of-append k xs ys
accepts_of-append k (shut j ∷ xs) ys = accepts_of-append k xs ys
accepts_of-append k (closed j ∷ xs) ys = accepts_of-append k xs ys
accepts_of-append k (wrote j bs ∷ xs) ys = accepts_of-append k xs ys

closes_of-append :
    (k : ℤ) (xs ys : List Call) → closes_of k (xs ++ ys) ≡ closes_of k xs + closes_of k ys
closes_of-append k [] ys = omega arith
closes_of-append k (accepted j ∷ xs) ys = closes_of-append k xs ys
closes_of-append k (watch_input j ∷ xs) ys = closes_of-append k xs ys
closes_of-append k (watch_output j ∷ xs) ys = closes_of-append k xs ys
closes_of-append k (unwatch j ∷ xs) ys = closes_of-append k xs ys
closes_of-append k (shut j ∷ xs) ys = closes_of-append k xs ys
closes_of-append k (closed j ∷ xs) ys = omega (arith, closes_of-append k xs ys)
closes_of-append k (wrote j bs ∷ xs) ys = closes_of-append k xs ys

-- Writing an entry, with calls that account for it.
pub assign-IsBalanced :
    (w : Web) (fd : ℤ) (o : Option ClientT) (made : List Call) (locked : Bool) (count : ℕ)
    (exp : Option ℤ)
    → IsBalanced w
    → ((k : ℤ)
        → accepts_of k made + held (lookup k w.fds)
          ≡ closes_of k made + held (if fd == k then some o else lookup k w.fds))
    → Knows fd (some o)
    → IsBalanced (record {
      fds = assign fd o w.fds;
      locked = locked;
      countacp = count;
      expiring = exp;
      calls = made ++ w.calls;
    })
assign-IsBalanced w fd o made locked count exp h accounts knows = record {
  balance = λ k. rw (lookup-assign fd k o w.fds) (
      omega (
        arith,
        accepts_of-append k made w.calls,
        closes_of-append k made w.calls,
        h.balance k,
        accounts k,
      ));
  knows = λ k. rw (lookup-assign fd k o w.fds) (elim (Bool-cases (fd == k)) [
    | inl same ↦ rw same (subst (λ j. Knows j (some o)) ((int_eq.eqb_iff fd k).0 same) knows)
    | inr other ↦ rw other (h.knows k)
  ]);
}

-- Calls that open and close a descriptor in turn.
pub record-IsBalanced :
    (w : Web) (made : List Call) (locked : Bool) (exp : Option ℤ)
    → IsBalanced w
    → ((k : ℤ) → accepts_of k made ≡ closes_of k made)
    → IsBalanced (record w { locked = locked; expiring = exp; calls = made ++ w.calls })
record-IsBalanced w made locked exp h even = record {
  balance = λ k. omega (
    arith,
    accepts_of-append k made w.calls,
    closes_of-append k made w.calls,
    h.balance k,
    even k,
  );
  knows = h.knows;
}

refused-IsBalanced :
    (w : Web) (fd : ℤ) → IsBalanced w → IsBalanced (refused w (closed fd ∷ accepted fd ∷ [])).1
refused-IsBalanced w fd h =
    record-IsBalanced w (closed fd ∷ accepted fd ∷ []) true w.expiring h (λ k. omega arith)

pub if_keeps :
    (b : Bool) (r s : Ending × Web)
    → (b ≡ true → IsBalanced r.1)
    → (b ≡ false → IsBalanced s.1)
    → IsBalanced (if b then r else s).1
if_keeps = if_case (λ p. IsBalanced p.1)

-- A fresh descriptor has no client yet.
fresh_held : (fd : ℤ) (w : Web) → IsFresh fd w → IsBalanced w → held (lookup fd w.fds) ≡ 0
fresh_held fd w fresh h = omega (arith, h.balance fd)

new_accounts :
    (fd k : ℤ) (c : ClientT) (w : Web)
    → IsFresh fd w
    → IsBalanced w
    → accepts_of k (watch_input fd ∷ accepted fd ∷ []) + held (lookup k w.fds)
      ≡ closes_of k (watch_input fd ∷ accepted fd ∷ [])
        + held (if fd == k then some (some c) else lookup k w.fds)
new_accounts fd k c w fresh h = elim (Bool-cases (fd == k)) [
  | inl same ↦
      let unheld : held (lookup k w.fds) ≡ 0 =
        subst (λ j. held (lookup j w.fds) ≡ 0) ((int_eq.eqb_iff fd k).0 same)
          (fresh_held fd w fresh h) in
      rw (same, unheld)
  | inr other ↦ rw other (omega arith)
]

pub handle_accept-IsBalanced :
    (a : Accept) (w : Web) → IsFresh a.conn_sock w → IsBalanced w → IsBalanced (handle_accept a w).1
unfolding handle_accept
handle_accept-IsBalanced a w fresh h =
    if_keeps w.locked _ _ (λ _. h)
      λ _.
        if_keeps (a.conn_sock == minus_one) _ _
          (λ _. record-IsBalanced w [] true w.expiring h (λ k. refl))
          λ _.
            if_keeps (ltb_ℤ (set_fl a.getfl a.setfl) (pos 0)) _ _
              (λ _. refused-IsBalanced w a.conn_sock h)
              λ _.
                if_keeps (a.added == minus_one) _ _ (λ _. refused-IsBalanced w a.conn_sock h)
                  λ _.
                    assign-IsBalanced w a.conn_sock (some (new_client a))
                      (watch_input a.conn_sock ∷ accepted a.conn_sock ∷ []) w.locked
                      ((w.countacp + 1) % 2 ^ 64) w.expiring h
                      (λ k. new_accounts a.conn_sock k (new_client a) w fresh h) refl
