-- ===== src/Base/Decimal.antt =====
-- How `ostream << n` and `sprintf("%d", n)` write a number that is not negative. Twenty rounds are
-- enough for every number of 64 bits.
use Prim.Native.Nat.{ℕ, zero, suc, ◌+◌, ◌-◌, ◌*◌, ◌/◌, ◌%◌, ◌^◌, ◌≤◌, ◌<◌}
use mathlib.Core.Path.{◌≡◌, ap, ◌∙◌}
use mathlib.Core.Logic.{inl, inr}
use mathlib.Core.List.{[], ◌∷◌}
use native.Mathlib.Omega.{arith}
use native.Mathlib.Nat.{pow-suc}
use learning_directory.Base.Tests.{Bytes, ◌==◌, nat_eq, if◌then◌else◌, Bool-cases}
use learning_directory.Base.Lists.{length}

unfoldable pub emit : ℕ → ℕ → Bytes → Bytes
emit zero n out = out
emit (suc f) n out =
    let rest = emit f (n / 10) ((b'0' + n % 10) ∷ out) in
    if n / 10 == 0 then (b'0' + n % 10) ∷ out else rest

unfoldable pub decimal : ℕ → Bytes
unfolding emit
decimal n = emit 20 n []

-- The number that digits spell behind `n`.
abbrev pub value : ℕ → Bytes → ℕ
value n [] = n
value n (c ∷ s) = value (n * 10 + (c - b'0')) s

value-emit : (f n : ℕ) (out : Bytes) → n < 10 ^ f → value 0 (emit f n out) ≡ value n out
unfolding emit
value-emit zero n out h = let e : n ≡ 0 = omega arith in rw e
value-emit (suc f) n out h = elim (Bool-cases (n / 10 == 0)) [
  | inl last ↦
      let small : n / 10 ≡ 0 = (nat_eq.eqb_iff _ _).0 last in
      rw last (ap (λ m. value m out) (omega arith))
  | inr more ↦ rw more (
      value-emit f (n / 10) ((b'0' + n % 10) ∷ out) (omega (arith, pow-suc 10 f))
      ∙ ap (λ m. value m out) (omega arith))
]

pub value-decimal : (n : ℕ) → n < 2 ^ 64 → value 0 (decimal n) ≡ n
unfolding decimal
value-decimal n h = value-emit 20 n [] (omega arith)

abbrev pub AllDigits : Bytes → Type 0
AllDigits [] = Unit
AllDigits (c ∷ s) = (b'0' ≤ c) × (c ≤ b'9') × AllDigits s

emit-AllDigits : (f n : ℕ) (out : Bytes) → AllDigits out → AllDigits (emit f n out)
unfolding emit
emit-AllDigits zero n out h = h
emit-AllDigits (suc f) n out h = ground (arith, emit-AllDigits f (n / 10) ((b'0' + n % 10) ∷ out))

pub decimal-AllDigits : (n : ℕ) → AllDigits (decimal n)
unfolding decimal
decimal-AllDigits n = emit-AllDigits 20 n [] tt

pub length-decimal_five : (n : ℕ) → 10000 ≤ n → n < 100000 → length (decimal n) ≡ 5
unfolding decimal
length-decimal_five n h k = ground arith

pub length-decimal_bound : (n : ℕ) → n < 2 ^ 16 → length (decimal n) ≤ 5
unfolding decimal
length-decimal_bound n h = ground arith

pub length-decimal_short : (n : ℕ) → n < 10000 → length (decimal n) ≤ 4
unfolding decimal
length-decimal_short n h = ground arith
