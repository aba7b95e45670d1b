-- ===== src/Base/Slices.antt =====
-- Fixed-width fields of a buffer.
use Prim.Native.Nat.{ℕ, zero, suc, ◌+◌, ◌-◌}
use mathlib.Core.Path.{◌≡◌, refl, ap, ◌∙◌}
use mathlib.Core.List.{List, [], ◌∷◌, ◌++◌, append-nil}
use native.Mathlib.Omega.{arith}
use learning_directory.Base.Lists.{
  length, take, drop, replicate, length-append, length-take, length-replicate, take_all,
}

module _ {ℓ} {A : Type ℓ} where
  -- The `n` elements from index `i` on.
  abbrev pub slice : ℕ → ℕ → List A → List A
  slice i n xs = take n (drop i xs)

  pub take_exact : (xs ys : List A) (k : ℕ) → length xs ≡ k → take k (xs ++ ys) ≡ xs
  take_exact [] ys zero h = refl
  take_exact [] ys (suc k) h = absurd (omega arith)
  take_exact (x ∷ xs) ys zero h = absurd (omega arith)
  take_exact (x ∷ xs) ys (suc k) h = ap (◌∷◌ x) (take_exact xs ys k (omega arith))

  pub drop_exact : (xs ys : List A) (k : ℕ) → length xs ≡ k → drop k (xs ++ ys) ≡ ys
  drop_exact [] ys zero h = refl
  drop_exact [] ys (suc k) h = absurd (omega arith)
  drop_exact (x ∷ xs) ys zero h = absurd (omega arith)
  drop_exact (x ∷ xs) ys (suc k) h = drop_exact xs ys k (omega arith)

  drop-drop : (m n : ℕ) (xs : List A) → drop (m + n) xs ≡ drop n (drop m xs)
  drop-drop zero n xs = let e : zero + n ≡ n = omega arith in rw e
  drop-drop (suc m) zero [] = let e : suc m + zero ≡ suc m = omega arith in rw e
  drop-drop (suc m) (suc n) [] = let e : suc m + suc n ≡ suc (m + suc n) = omega arith in rw e
  drop-drop (suc m) n (x ∷ xs) =
      let e : suc m + n ≡ suc (m + n) = omega arith in rw e (drop-drop m n xs)

  -- A field of width `w` at offset `i`, and what stands behind it.
  pub slice_field :
      (i w : ℕ) (buf xs ys : List A) → drop i buf ≡ xs ++ ys → length xs ≡ w → slice i w buf ≡ xs
  slice_field i w buf xs ys at h = rw at (take_exact xs ys w h)

  pub drop_field :
      (i w : ℕ) (buf xs ys : List A) → drop i buf ≡ xs ++ ys → length xs ≡ w → drop (i + w) buf ≡ ys
  drop_field i w buf xs ys at h = drop-drop i w buf ∙ ap (drop w) at ∙ drop_exact xs ys w h

-- A zeroed buffer of `n` bytes into which a call has put the bytes `xs`.
abbrev pub buffer : ℕ → List ℕ → List ℕ
buffer n xs = take n xs ++ replicate (n - length xs) 0

pub length-buffer : (n : ℕ) (xs : List ℕ) → length (buffer n xs) ≡ n
length-buffer n xs = omega (
  arith,
  length-append {0} (take n xs) (replicate (n - length xs) 0),
  length-take {0} n xs,
  length-replicate {A = ℕ} (n - length xs) 0,
)

pub buffer_full : (n : ℕ) (xs : List ℕ) → length xs ≡ n → buffer n xs ≡ xs
buffer_full n xs h =
    let none_left : n - length xs ≡ 0 = omega arith in
    rw (none_left, append-nil (take n xs)) (take_all n xs (omega arith))
