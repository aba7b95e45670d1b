-- ===== src/CopyConstructor/Faults.antt =====
-- The undefined behaviour of copy-constructor/main.cpp.
use learning_directory.Base.{
  ℕ, ◌≡◌, ◌≤◌, refl, ap, ◌∙◌, List, [], ◌∷◌, ◌++◌, true, false, Option, none, some, Bytes, length,
  replicate, length-replicate, get_elem?, set, get_elem?-set, get_elem?-append_length, arith,
  Option-cases, Bool-cases, inl, inr,
}
use learning_directory.CopyConstructor.Memory.{
  overflow, dangling, Memory, Run, ok, fault, and_then, Ptr, new_chars, read_string, delete_block,
  if_live, string_of, read_cells,
}
use learning_directory.CopyConstructor.Memory.Laws.{
  strcpy_overflows, live_block, dead_block, delete_live,
}
use learning_directory.CopyConstructor.TestClass.{TestClass, pure, construct, delete_str}

pub construct_overflows :
    (b : ℕ) (cstr : Bytes) (m : Memory) → b ≤ length cstr → construct b cstr m ≡ fault overflow
unfolding construct new_chars
construct_overflows b cstr m h =
    ap (λ r. and_then r λ _. pure (record { a = b; str = some (length m) }))
      (strcpy_overflows cstr (length m) (replicate b none)
        (m ++ record { cells = replicate b none; live = true } ∷ [])
        (get_elem?-append_length m (record { cells = replicate b none; live = true }) [])
        (let l = length-replicate {A = Option ℕ} b none in omega arith))

-- Any use of a block that is not live.
read_dead :
    (p : ℕ) (m : Memory) (cells : List (Option ℕ))
    → get_elem? m p ≡ some (record { cells = cells; live = false })
    → read_string (some p) m ≡ fault dangling
unfolding read_string
read_dead p m cells e i = if_live (e i) λ cells. string_of (read_cells cells) m

-- What follows the `delete`.
abbrev print_it : Ptr → ℕ → Run (Unit {0}) → Run (Bytes × TestClass)
print_it p n r =
    and_then r λ _ m. and_then (read_string p m) λ shown. pure (shown, record { a = n; str = none })

-- A block that is dead already, or live, or no block at all.
delete_dead :
    (n p : ℕ) (m : Memory) (cells : List (Option ℕ))
    → get_elem? m p ≡ some (dead_block cells)
    → print_it (some p) n (delete_block (some p) m) ≡ fault dangling
unfolding delete_block
delete_dead n p m cells e =
    ap (print_it (some p) n) (λ i. if_live (e i) λ c. ok tt (set m p (dead_block c)))

delete_nothing :
    (n p : ℕ) (m : Memory)
    → get_elem? m p ≡ none
    → print_it (some p) n (delete_block (some p) m) ≡ fault dangling
unfolding delete_block
delete_nothing n p m e =
    ap (print_it (some p) n) (λ i. if_live (e i) λ c. ok tt (set m p (dead_block c)))

delete_alive :
    (n p : ℕ) (m : Memory) (cells : List (Option ℕ))
    → get_elem? m p ≡ some (live_block cells)
    → print_it (some p) n (delete_block (some p) m) ≡ fault dangling
delete_alive n p m cells e =
    ap (print_it (some p) n) (delete_live [] p cells m e)
    ∙ ap (λ r. and_then r λ shown. pure (shown, record { a = n; str = none }))
        (read_dead p (set m p (dead_block cells)) cells
          (get_elem?-set m p (live_block cells) (dead_block cells) e))

delete_at : (o : Ptr) (n : ℕ) (m : Memory) → print_it o n (delete_block o m) ≡ fault dangling
unfolding delete_block read_string
delete_at none n m = refl
delete_at (some p) n m = elim (Option-cases (get_elem? m p)) [
  | inl e ↦ delete_nothing n p m e
  | inr (b, e) ↦ elim (Bool-cases b.live) [
    | inl l ↦ delete_alive n p m b.cells (e ∙ λ i. some (record { cells = b.cells; live = l i }))
    | inr l ↦ delete_dead n p m b.cells (e ∙ λ i. some (record { cells = b.cells; live = l i }))
  ]
]

-- `Delete` always uses a block that is no longer there, whatever the object and the heap.
pub delete_faults : (t : TestClass) (m : Memory) → delete_str t m ≡ fault dangling
unfolding delete_str
delete_faults t m = delete_at t.str t.a m
