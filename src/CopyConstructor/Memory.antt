-- ===== src/CopyConstructor/Memory.antt =====
-- The heap of copy-constructor/main.cpp: `new char[n]`, `strcpy`, the printing of a string, `delete`. A
-- fault stands for what the language leaves undefined.
pub mod Laws
use learning_directory.Base.{
  ℕ, suc, ◌+◌, List, [], ◌∷◌, ◌++◌, Bool, true, false, Option, none, some, Bytes, if◌then◌else◌,
  ◌==◌, nat_eq, leb, length, replicate, drop, map, get_elem?, set,
}

-- A byte that has not been written is `none`.
pub record Block : Type 0 where
  pub cells : List (Option ℕ)
  pub live : Bool

pub data Fault : Type 0 where
  overflow : Fault  -- a write behind the end of a block
  dangling : Fault  -- a use of a block that has been deleted, or of no block
  unreadable : Fault  -- a read of a byte that was not written, or behind the end

-- The block at each address.
abbrev pub Memory : Type 0
Memory = List Block

pub data Run (A : Type 0) : Type 0 where
  ok : A → Memory → Run A
  fault : Fault → Run A

abbrev pub Cmd : Type 0 → Type 0
Cmd A = Memory → Run A

abbrev pub and_then : {A B : Type 0} → Run A → (A → Cmd B) → Run B
and_then (ok a m) k = k a m
and_then (fault f) k = fault f

infixl 5 ◌>>=◌ ◌>>◌
abbrev pub ◌>>=◌ : {A B : Type 0} → Cmd A → (A → Cmd B) → Cmd B
c >>= k = λ m. and_then (c m) k

abbrev pub ◌>>◌ : {B : Type 0} → Cmd (Unit {0}) → Cmd B → Cmd B
c >> k = c >>= λ _. k

-- `NULL` is `none`.
abbrev pub Ptr : Type 0
Ptr = Option ℕ

unfoldable pub new_chars : ℕ → Cmd Ptr
new_chars n m = ok (some (length m)) (m ++ record { cells = replicate n none; live = true } ∷ [])

abbrev pub if_live : {A : Type 0} → Option Block → (List (Option ℕ) → Run A) → Run A
if_live none k = fault dangling
if_live (some b) k = if b.live then k b.cells else fault dangling

abbrev pub at : {A : Type 0} → Ptr → (ℕ → List (Option ℕ) → Cmd A) → Cmd A
at none k m = fault dangling
at (some p) k m = if_live (get_elem? m p) λ cells. k p cells m

-- The bytes of `s` and a zero, at the start of the block.
unfoldable pub strcpy : Ptr → Bytes → Cmd (Unit {0})
strcpy dst s = at dst λ p cells m.
    if leb (suc (length s)) (length cells)
    then ok tt (
        set m p
          (record { cells = map some s ++ some 0 ∷ drop (suc (length s)) cells; live = true }))
    else fault overflow

-- The bytes before the first zero.
unfoldable pub read_cells : List (Option ℕ) → Option Bytes
read_cells [] = none
read_cells (none ∷ cs) = none
read_cells (some c ∷ cs) =
    if c == 0 then some [] else elim (read_cells cs) [ none ↦ none | some s ↦ some (c ∷ s) ]

abbrev pub string_of : Option Bytes → Cmd Bytes
string_of none m = fault unreadable
string_of (some s) m = ok s m

unfoldable pub read_string : Ptr → Cmd Bytes
unfolding read_cells
read_string src = at src λ p cells. string_of (read_cells cells)

-- `delete` of NULL does nothing.
unfoldable pub delete_block : Ptr → Cmd (Unit {0})
delete_block none m = ok tt m
delete_block (some p) m =
    if_live (get_elem? m p) λ cells. ok tt (set m p (record { cells = cells; live = false }))
