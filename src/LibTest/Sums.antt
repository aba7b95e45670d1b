-- ===== src/LibTest/Sums.antt =====
-- What `main` of libtest/source/main.c prints for two numbers.
use learning_directory.Base.{
  ℕ, suc, ◌+◌, ◌-◌, ◌*◌, ◌^◌, ◌≡◌, ◌<◌, refl, ap, ◌∙◌, List, [], ◌∷◌, ◌++◌, Bool, true, false, ◌&&◌,
  none, some, Bytes, codes, if◌then◌else◌, ltb, length, nat_eq, arith,
}
use learning_directory.Base.Int.{ℤ, pos, negsuc, sub_ℕ, ◌-ℤ◌, ◌+ℤ◌}
use learning_directory.Base.Decimal.{decimal, value, value-decimal, AllDigits, decimal-AllDigits}
use learning_directory.LibTest.{
  fits_int, int_of, add, sub, skip_spaces, digits, signed, atoi, show_int, Run, exits, undefined,
  hello, results, calculated, libtest_main,
}

digits-value : (n : ℕ) (s : Bytes) → AllDigits s → digits n s ≡ value n s
unfolding digits
digits-value n [] h = refl
digits-value n (c ∷ s) h = ground (arith, digits-value (n * 10 + (c - b'0')) s h.2)

signed-value : (s : Bytes) → AllDigits s → signed (skip_spaces s) ≡ pos (value 0 s)
unfolding skip_spaces signed
signed-value [] h = refl
signed-value (c ∷ s) h = ground (arith, digits-value 0 (c ∷ s) h)

fits-small : (z : ℤ) → fits_int z ≡ true → int_of z ≡ some z
fits-small z h = rw h

atoi-show_int : (z : ℤ) → fits_int z ≡ true → atoi (show_int z) ≡ some z
unfolding atoi show_int skip_spaces signed
atoi-show_int (pos n) h =
    let small : n < 2 ^ 64 = ground arith in
    ap int_of (signed-value (decimal n) (decimal-AllDigits n) ∙ ap pos (value-decimal n small))
    ∙ fits-small (pos n) h
atoi-show_int (negsuc n) h =
    let small : suc n < 2 ^ 64 = ground arith in
    ap (λ m. int_of (sub_ℕ 0 m))
      (digits-value 0 (decimal (suc n)) (decimal-AllDigits (suc n)) ∙ value-decimal (suc n) small)
    ∙ ap int_of below
    ∙ fits-small (negsuc n) h
  where
    below : sub_ℕ 0 (suc n) ≡ negsuc n
    below = ground arith

abbrev usage : Run
usage = exits 1 (codes "usage: <./libtest int1 int2>\n" ∷ [])

-- What is printed for the sum and the difference.
abbrev pub printed : ℤ → ℤ → Run
printed s d = exits 0 (
    codes "Greetings: "
    ∷ hello
    ∷ (codes "add result: " ++ show_int s)
    ∷ (codes "sub result: " ++ show_int d)
    ∷ [])

results-printed :
    (x y : Bool) (s d : ℤ)
    → results (if x then some s else none) (if y then some d else none)
      ≡ (if x && y then printed s d else undefined)
results-printed true true s d = refl
results-printed true false s d = refl
results-printed false y s d = refl

-- `main` of libtest, called with two numbers that are values of an `int` as `printf` writes them,
-- and any further arguments: it greets and prints their sum and their difference if both are values
-- of an `int`; otherwise the addition or the subtraction overflows. With one number alone it gives
-- `atoi` a NULL pointer; with none it prints its usage and exits with 1.
pub libtest_main_lem :
    (prog : Bytes) (a b : ℤ) (more : List Bytes)
    → fits_int a ≡ true
    → fits_int b ≡ true
    → (libtest_main (prog ∷ show_int a ∷ show_int b ∷ more)
        ≡ (if fits_int (a +ℤ b) && fits_int (a -ℤ b) then printed (a +ℤ b) (a -ℤ b) else undefined))
      × (libtest_main (prog ∷ show_int a ∷ []) ≡ undefined)
      × (libtest_main (prog ∷ []) ≡ exits 1 (codes "usage: <./libtest int1 int2>\n" ∷ []))
unfolding libtest_main add sub
libtest_main_lem prog a b more ha hb = (
  ap (λ few. if few then usage else calculated (atoi (show_int a)) (atoi (show_int b))) enough
      ∙ (λ i. calculated (atoi-show_int a ha i) (atoi-show_int b hb i))
      ∙ results-printed (fits_int (a +ℤ b)) (fits_int (a -ℤ b)) (a +ℤ b) (a -ℤ b),
  ap (λ o. calculated o none) (atoi-show_int a ha),
  refl,
)
  where
    enough : ltb (length (prog ∷ show_int a ∷ show_int b ∷ more)) 2 ≡ false
    enough = ground arith
