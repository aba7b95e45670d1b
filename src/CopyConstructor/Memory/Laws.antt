-- ===== src/CopyConstructor/Memory/Laws.antt =====
-- The heap of copy-constructor/main.cpp: what each command does to a live block.
use learning_directory.Base.{
  ℕ, zero, suc, ◌≡◌, ◌≢◌, ◌≤◌, ◌<◌, refl, ap, ◌∙◌, List, [], ◌∷◌, ◌++◌, Bool, true, false, Option,
  none, some, Bytes, if◌then◌else◌, nat_eq, leb, length, drop, map, get_elem?, set, arith, All,
  beq_ne,
}
use learning_directory.CopyConstructor.Memory.{
  Block, overflow, Memory, Run, ok, fault, strcpy, read_cells, read_string, string_of, delete_block,
  if_live,
}

-- The cells of a block of which the string `s` has been written over `cells`.
abbrev pub holding : Bytes → List (Option ℕ) → List (Option ℕ)
holding s cells = map some s ++ some 0 ∷ drop (suc (length s)) cells

abbrev pub live_block : List (Option ℕ) → Block
live_block cells = record { cells = cells; live = true }

abbrev pub dead_block : List (Option ℕ) → Block
dead_block cells = record { cells = cells; live = false }

pub get_elem?-append_left {ℓ} :
    {A : Type ℓ} (xs ys : List A) (p : ℕ) (x : A)
    → get_elem? xs p ≡ some x
    → get_elem? (xs ++ ys) p ≡ some x
get_elem?-append_left [] ys p x e = cc
get_elem?-append_left (z ∷ xs) ys zero x e = e
get_elem?-append_left (z ∷ xs) ys (suc p) x e = get_elem?-append_left xs ys p x e

module _ (s : Bytes) (p : ℕ) (cells : List (Option ℕ)) (m : Memory)
    (there : get_elem? m p ≡ some (live_block cells)) where
  abbrev writes : Bool → Run (Unit {0})
  writes fits = if fits then ok tt (set m p (live_block (holding s cells))) else fault overflow

  pub strcpy_fits :
      length s < length cells → strcpy (some p) s m ≡ ok tt (set m p (live_block (holding s cells)))
  unfolding strcpy
  strcpy_fits h =
      (λ i. if_live (there i) λ c.
        if leb (suc (length s)) (length c)
        then ok tt (set m p (live_block (holding s c)))
        else fault overflow)
      ∙ ap writes fits
    where
      fits : leb (suc (length s)) (length cells) ≡ true
      fits = ground arith

  pub strcpy_overflows : length cells ≤ length s → strcpy (some p) s m ≡ fault overflow
  unfolding strcpy
  strcpy_overflows h =
      (λ i. if_live (there i) λ c.
        if leb (suc (length s)) (length c)
        then ok tt (set m p (live_block (holding s c)))
        else fault overflow)
      ∙ ap writes overflows
    where
      overflows : leb (suc (length s)) (length cells) ≡ false
      overflows = ground arith

  pub delete_live : delete_block (some p) m ≡ ok tt (set m p (dead_block cells))
  unfolding delete_block
  delete_live i = if_live (there i) λ c. ok tt (set m p (dead_block c))

pub read_cells-holding :
    (s : Bytes) (rest : List (Option ℕ))
    → All (λ c. c ≢ 0) s
    → read_cells (map some s ++ some 0 ∷ rest) ≡ some s
unfolding read_cells
read_cells-holding [] rest h = refl
read_cells-holding (c ∷ cs) rest h =
    rw (beq_ne c 0 h.0)
      (ap (λ o. elim o [ none ↦ none | some s ↦ some (c ∷ s) ]) (read_cells-holding cs rest h.1))

pub read_string-holding :
    (s : Bytes) (p : ℕ) (cells : List (Option ℕ)) (m : Memory)
    → get_elem? m p ≡ some (live_block (holding s cells))
    → All (λ c. c ≢ 0) s
    → read_string (some p) m ≡ ok s m
unfolding read_string
read_string-holding s p cells m e h =
    (λ i. if_live (e i) λ c. string_of (read_cells c) m)
    ∙ ap (λ o. string_of o m) (read_cells-holding s (drop (suc (length s)) cells) h)
