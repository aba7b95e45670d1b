-- ===== src/Base/Lists.antt =====
-- Lists measured and indexed by native numbers, under the library's names.
use Prim.Native.Nat.{ℕ, zero, suc, ◌+◌, ◌-◌, ◌≤◌, min}
use mathlib.Core.Logic.{◌≢◌}
use mathlib.Core.Path.{◌≡◌, refl, sym, ap, subst}
use mathlib.Core.List.{List, [], ◌∷◌, ◌++◌, map, Mem, mem-cons_self, mem-cons_of_mem}
use mathlib.Core.Option.{Option, none, some, some-injective}
use native.Mathlib.Omega.{arith}

module _ {ℓ} {A : Type ℓ} where
  abbrev pub length : List A → ℕ
  length [] = 0
  length (x ∷ xs) = suc (length xs)

  abbrev pub take : ℕ → List A → List A
  take zero xs = []
  take (suc n) [] = []
  take (suc n) (x ∷ xs) = x ∷ take n xs

  abbrev pub drop : ℕ → List A → List A
  drop zero xs = xs
  drop (suc n) [] = []
  drop (suc n) (x ∷ xs) = drop n xs

  abbrev pub replicate : ℕ → A → List A
  replicate zero a = []
  replicate (suc n) a = a ∷ replicate n a

  -- The last element: `queue::back`, undefined on an empty queue.
  abbrev pub back : List A → Option A
  back [] = none
  back (x ∷ []) = some x
  back (x ∷ y ∷ ys) = back (y ∷ ys)

  pub length-append : (xs ys : List A) → length (xs ++ ys) ≡ length xs + length ys
  length-append [] ys = omega arith
  length-append (x ∷ xs) ys = omega (arith, length-append xs ys)

  pub length-replicate : (n : ℕ) (a : A) → length (replicate n a) ≡ n
  length-replicate zero a = refl
  length-replicate (suc n) a = ap suc (length-replicate n a)

  pub length-take : (n : ℕ) (xs : List A) → length (take n xs) ≡ min n (length xs)
  length-take zero xs = omega arith
  length-take (suc n) [] = omega arith
  length-take (suc n) (x ∷ xs) = omega (arith, length-take n xs)

  pub length-drop : (n : ℕ) (xs : List A) → length (drop n xs) ≡ length xs - n
  length-drop zero xs = omega arith
  length-drop (suc n) [] = omega arith
  length-drop (suc n) (x ∷ xs) = omega (arith, length-drop n xs)

  pub take-append-drop : (n : ℕ) (xs : List A) → take n xs ++ drop n xs ≡ xs
  take-append-drop zero xs = refl
  take-append-drop (suc n) [] = refl
  take-append-drop (suc n) (x ∷ xs) = rw (take-append-drop n xs)

  pub take_all : (n : ℕ) (xs : List A) → length xs ≤ n → take n xs ≡ xs
  take_all zero [] h = refl
  take_all zero (x ∷ xs) h = absurd (omega arith)
  take_all (suc n) [] h = refl
  take_all (suc n) (x ∷ xs) h = ap (◌∷◌ x) (take_all n xs (omega arith))

  pub back-append : (xs : List A) (x : A) → back (xs ++ x ∷ []) ≡ some x
  back-append [] x = refl
  back-append (y ∷ []) x = refl
  back-append (y ∷ z ∷ ys) x = back-append (z ∷ ys) x

module _ {ℓ} {A : Type ℓ} where
  abbrev pub get_elem? : List A → ℕ → Option A
  get_elem? [] i = none
  get_elem? (x ∷ xs) zero = some x
  get_elem? (x ∷ xs) (suc i) = get_elem? xs i

  -- A write out of bounds changes nothing.
  abbrev pub set : List A → ℕ → A → List A
  set [] i v = []
  set (x ∷ xs) zero v = v ∷ xs
  set (x ∷ xs) (suc i) v = x ∷ set xs i v

  pub length-set : (xs : List A) (i : ℕ) (v : A) → length (set xs i v) ≡ length xs
  length-set [] i v = refl
  length-set (x ∷ xs) zero v = refl
  length-set (x ∷ xs) (suc i) v = ap suc (length-set xs i v)

module _ {ℓ κ} {A : Type ℓ} (P : A → Type κ) where
  abbrev pub All : List A → Type κ
  All [] = Unit
  All (x ∷ xs) = P x × All xs

  pub All-append : (xs ys : List A) → All xs → All ys → All (xs ++ ys)
  All-append [] ys hx hy = hy
  All-append (x ∷ xs) ys hx hy = (hx.0, All-append xs ys hx.1 hy)

  pub All-set : (xs : List A) (i : ℕ) (v : A) → All xs → P v → All (set xs i v)
  All-set [] i v h p = tt
  All-set (x ∷ xs) zero v h p = (p, h.1)
  All-set (x ∷ xs) (suc i) v h p = (h.0, All-set xs i v h.1 p)

  pub All-get_elem? : (xs : List A) (i : ℕ) (v : A) → All xs → get_elem? xs i ≡ some v → P v
  All-get_elem? [] i v h e = cc
  All-get_elem? (x ∷ xs) zero v h e = subst P (some-injective _ _ e) h.0
  All-get_elem? (x ∷ xs) (suc i) v h e = All-get_elem? xs i v h.1 e

module _ {ℓ κ τ} {A : Type ℓ} (P : A → Type κ) (Q : A → Type τ) (f : (a : A) → P a → Q a) where
  pub All-mono : (xs : List A) → All P xs → All Q xs
  All-mono [] h = tt
  All-mono (x ∷ xs) h = (f x h.0, All-mono xs h.1)

module _ {ℓ} {A : Type ℓ} where
  pub mem-back : (xs : List A) (v : A) → back xs ≡ some v → Mem v xs
  mem-back [] v e = absurd (cc)
  mem-back (x ∷ []) v e = rw (some-injective _ _ e) mem-cons_self
  mem-back (x ∷ y ∷ ys) v e = mem-cons_of_mem x (mem-back (y ∷ ys) v e)

  pub get_elem?-append_length :
      (xs : List A) (x : A) (ys : List A) → get_elem? (xs ++ x ∷ ys) (length xs) ≡ some x
  get_elem?-append_length [] x ys = refl
  get_elem?-append_length (z ∷ xs) x ys = get_elem?-append_length xs x ys

  pub set-append_length :
      (xs : List A) (x y : A) (ys : List A) → set (xs ++ x ∷ ys) (length xs) y ≡ xs ++ y ∷ ys
  set-append_length [] x y ys = refl
  set-append_length (z ∷ xs) x y ys = ap (◌∷◌ z) (set-append_length xs x y ys)

module _ {ℓ} {A : Type ℓ} where
  pub get_elem?-set :
      (xs : List A) (i : ℕ) (x y : A) → get_elem? xs i ≡ some x → get_elem? (set xs i y) i ≡ some y
  get_elem?-set [] i x y e = cc
  get_elem?-set (z ∷ xs) zero x y e = refl
  get_elem?-set (z ∷ xs) (suc i) x y e = get_elem?-set xs i x y e

  pub set-set : (xs : List A) (i : ℕ) (x y : A) → set (set xs i x) i y ≡ set xs i y
  set-set [] i x y = refl
  set-set (z ∷ xs) zero x y = refl
  set-set (z ∷ xs) (suc i) x y = ap (◌∷◌ z) (set-set xs i x y)

  pub get_elem?-set_other :
      (xs : List A) (i j : ℕ) (y : A) → i ≢ j → get_elem? (set xs i y) j ≡ get_elem? xs j
  get_elem?-set_other [] i j y h = refl
  get_elem?-set_other (z ∷ xs) zero zero y h = absurd (h refl)
  get_elem?-set_other (z ∷ xs) zero (suc j) y h = refl
  get_elem?-set_other (z ∷ xs) (suc i) zero y h = refl
  get_elem?-set_other (z ∷ xs) (suc i) (suc j) y h =
      get_elem?-set_other xs i j y (λ e. h (ap suc e))

  pub set_comm :
      (xs : List A) (i j : ℕ) (x y : A) → i ≢ j → set (set xs i x) j y ≡ set (set xs j y) i x
  set_comm [] i j x y h = refl
  set_comm (z ∷ xs) zero zero x y h = absurd (h refl)
  set_comm (z ∷ xs) zero (suc j) x y h = refl
  set_comm (z ∷ xs) (suc i) zero x y h = refl
  set_comm (z ∷ xs) (suc i) (suc j) x y h = ap (◌∷◌ z) (set_comm xs i j x y (λ e. h (ap suc e)))

  pub set_same : (xs : List A) (i : ℕ) (x : A) → get_elem? xs i ≡ some x → set xs i x ≡ xs
  set_same [] i x e = refl
  set_same (z ∷ xs) zero x e = ap (λ y. y ∷ xs) (some-injective _ _ (sym e))
  set_same (z ∷ xs) (suc i) x e = ap (◌∷◌ z) (set_same xs i x e)

module _ {ℓ κ} {A : Type ℓ} {B : Type κ} (f : A → B) where
  pub length-map : (xs : List A) → length (map f xs) ≡ length xs
  length-map [] = refl
  length-map (x ∷ xs) = ap suc (length-map xs)

  pub get_elem?-map :
      (xs : List A) (i : ℕ) (x : A) → get_elem? xs i ≡ some x → get_elem? (map f xs) i ≡ some (f x)
  get_elem?-map [] i x e = cc
  get_elem?-map (z ∷ xs) zero x e = ap (λ y. some (f y)) (some-injective _ _ e)
  get_elem?-map (z ∷ xs) (suc i) x e = get_elem?-map xs i x e

  pub map-set : (xs : List A) (i : ℕ) (x : A) → map f (set xs i x) ≡ set (map f xs) i (f x)
  map-set [] i x = refl
  map-set (z ∷ xs) zero x = refl
  map-set (z ∷ xs) (suc i) x = ap (◌∷◌ (f z)) (map-set xs i x)

-- The sum of the weights of the elements.
abbrev pub weigh {ℓ} : {A : Type ℓ} → (A → ℕ) → List A → ℕ
weigh f [] = 0
weigh f (t ∷ ts) = f t + weigh f ts

module _ {ℓ} {A : Type ℓ} (f : A → ℕ) where
  pub weigh-append : (ts : List A) (t : A) → weigh f (ts ++ t ∷ []) ≡ weigh f ts + f t
  weigh-append [] t = omega arith
  weigh-append (u ∷ ts) t = omega (arith, weigh-append ts t)

  pub weigh-set :
      (ts : List A) (i : ℕ) (t u : A)
      → get_elem? ts i ≡ some t
      → weigh f (set ts i u) + f t ≡ weigh f ts + f u
  weigh-set [] i t u e = cc
  weigh-set (v ∷ ts) zero t u e = let q : v ≡ t = some-injective _ _ e in rw q (omega arith)
  weigh-set (v ∷ ts) (suc i) t u e = omega (arith, weigh-set ts i t u e)

  pub weigh-get : (ts : List A) (i : ℕ) (t : A) → get_elem? ts i ≡ some t → f t ≤ weigh f ts
  weigh-get [] i t e = cc
  weigh-get (v ∷ ts) zero t e = let q : v ≡ t = some-injective _ _ e in rw q (omega arith)
  weigh-get (v ∷ ts) (suc i) t e = omega (arith, weigh-get ts i t e)
