-- ===== src/CopyConstructor/Copies.antt =====
-- The two objects of copy-constructor/main.cpp after the copy constructor.
use learning_directory.Base.{
  ℕ, ◌≡◌, ◌≢◌, ◌<◌, sym, ap, ◌∙◌, [], ◌∷◌, ◌++◌, Option, none, some, Bytes, length, replicate,
  length-replicate, length-append, get_elem?, set, get_elem?-set_other, get_elem?-append_length,
  set-append_length, arith, All,
}
use learning_directory.CopyConstructor.Memory.{
  Block, Memory, ok, Cmd, and_then, ◌>>=◌, ◌>>◌, new_chars, strcpy, read_string, delete_block,
}
use learning_directory.CopyConstructor.Memory.Laws.{
  holding, live_block, dead_block, get_elem?-append_left, strcpy_fits, delete_live,
  read_string-holding,
}
use learning_directory.CopyConstructor.TestClass.{TestClass, pure, construct, copy_construct, show}

-- The block of an object of size `n` that holds `s`.
abbrev block : ℕ → Bytes → Block
block n s = live_block (holding s (replicate n none))

abbrev pub object : ℕ → ℕ → TestClass
object n p = record { a = n; str = some p }

-- `strcpy` into a new block.
fills :
    (n : ℕ) (s : Bytes) (m : Memory)
    → length s < n
    → strcpy (some (length m)) s (m ++ live_block (replicate n none) ∷ [])
      ≡ ok tt (m ++ block n s ∷ [])
fills n s m h =
    strcpy_fits s (length m) (replicate n none) (m ++ live_block (replicate n none) ∷ [])
      (get_elem?-append_length m (live_block (replicate n none)) [])
      (let l = length-replicate {A = Option ℕ} n none in omega arith)
    ∙ ap (ok tt) (set-append_length m (live_block (replicate n none)) (block n s) [])

constructs :
    (n : ℕ) (s : Bytes) (m : Memory)
    → length s < n
    → construct n s m ≡ ok (object n (length m)) (m ++ block n s ∷ [])
unfolding construct new_chars
constructs n s m h = ap (λ r. and_then r λ _. pure (object n (length m))) (fills n s m h)

copies :
    (n p : ℕ) (s : Bytes) (m : Memory)
    → length s < n
    → All (λ c. c ≢ 0) s
    → get_elem? m p ≡ some (block n s)
    → copy_construct (object n p) m ≡ ok (object n (length m)) (m ++ block n s ∷ [])
unfolding copy_construct new_chars
copies n p s m h z e =
    ap
      (λ r.
        and_then r
          λ cstr m'. and_then (strcpy (some (length m)) cstr m') λ _. pure (object n (length m)))
      (read_string-holding s p (replicate n none) (m ++ live_block (replicate n none) ∷ [])
        (get_elem?-append_left m (live_block (replicate n none) ∷ []) p (block n s) e) z)
    ∙ ap (λ r. and_then r λ _. pure (object n (length m))) (fills n s m h)

-- One object's block is deleted, and the other object is shown.
shows_other :
    (n p q : ℕ) (s : Bytes) (m : Memory)
    → p ≢ q
    → All (λ c. c ≢ 0) s
    → get_elem? m p ≡ some (block n s)
    → get_elem? m q ≡ some (block n s)
    → (delete_block (some p) >> show (object n q)) m
      ≡ ok s (set m p (dead_block (holding s (replicate n none))))
unfolding show
shows_other n p q s m other z ep eq =
    ap (λ r. and_then r λ _. read_string (some q))
      (delete_live [] p (holding s (replicate n none)) m ep)
    ∙ read_string-holding s q (replicate n none)
        (set m p (dead_block (holding s (replicate n none))))
        (get_elem?-set_other m p q (dead_block (holding s (replicate n none))) other ∙ eq) z

module _ (n : ℕ) (s : Bytes) (m : Memory) where
  abbrev pub both : Memory
  both = (m ++ block n s ∷ []) ++ block n s ∷ []

  abbrev pub second : ℕ
  second = length (m ++ block n s ∷ [])

module _ (n : ℕ) (s : Bytes) (m : Memory) (h : length s < n) (z : All (λ c. c ≢ 0) s) where
  abbrev here : Memory
  here = both n s m

  abbrev next : ℕ
  next = second n s m

  pub two_objects :
      {A : Type 0} (k : TestClass → TestClass → Cmd A)
      → (do x ← construct n s; y ← copy_construct x; k x y) m
        ≡ k (object n (length m)) (object n next) here
  two_objects k =
      ap (λ r. and_then r λ x m'. and_then (copy_construct x m') λ y. k x y) (constructs n s m h)
      ∙ ap (λ r. and_then r λ y. k (object n (length m)) y)
          (copies n (length m) s (m ++ block n s ∷ []) h z
            (get_elem?-append_length m (block n s) []))

  first_there : get_elem? here (length m) ≡ some (block n s)
  first_there =
      get_elem?-append_left (m ++ block n s ∷ []) (block n s ∷ []) (length m) (block n s)
        (get_elem?-append_length m (block n s) [])

  pub second_there : get_elem? here next ≡ some (block n s)
  second_there = get_elem?-append_length (m ++ block n s ∷ []) (block n s) []

  apart : length m ≢ next
  apart e = omega (arith, length-append m (block n s ∷ []))

  -- An object made from a string without zeros that is shorter than its block, and its copy: when
  -- the block of either one is deleted, the other is still shown as the string.
  pub deep_copy :
      ((m' : Memory) × ((do x ← construct n s; y ← copy_construct x; delete_block x.str; show y) m
          ≡ ok s m'))
      × ((m' : Memory) × ((do x ← construct n s; y ← copy_construct x; delete_block y.str; show x) m
            ≡ ok s m'))
  deep_copy = (
    (
      set here (length m) (dead_block (holding s (replicate n none))),
      two_objects (λ x y. delete_block x.str >> show y)
          ∙ shows_other n (length m) next s here apart z first_there second_there,
    ),
    (
      set here next (dead_block (holding s (replicate n none))),
      two_objects (λ x y. delete_block y.str >> show x)
          ∙ shows_other n next (length m) s here (λ e. apart (sym e)) z second_there first_there,
    ),
  )
