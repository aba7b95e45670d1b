-- ===== src/CStr.antt =====
-- c_str/main.c: a string between two pointers, and its copy.
pub mod Copying
use learning_directory.Base.{
  ℕ, suc, ◌+◌, ◌-◌, ◌^◌, ◌%◌, ◌≡◌, ◌≢◌, ◌≤◌, ◌<◌, refl, sym, ap, ◌∙◌, List, [], ◌∷◌, ◌++◌, Bool,
  true, false, Option, none, some, Bytes, codes, length, get_elem?, ltb, leb, take, drop, replicate,
  map, if◌then◌else◌, ◌&&◌, All, arith,
}
use learning_directory.CopyConstructor.Memory.{read_cells}

-- The bytes of a string constant, with the zero behind them.
abbrev pub constant : Bytes → List (Option ℕ)
constant s = map some s ++ some 0 ∷ []

-- `memcpy(dst, src, size)` from the start of one array to that of another; `none`: `size` is more than
-- either of them has.
unfoldable pub memcpy : List (Option ℕ) → List (Option ℕ) → ℕ → Option (List (Option ℕ))
memcpy dst src size =
    if leb size (length src) && leb size (length dst)
    then some (take size src ++ drop size dst)
    else none

-- What `main` prints: the bytes at `start` and at `end`, the string twice, the size and the copy.
pub record Printed : Type 0 where
  pub at_start : ℕ
  pub at_end : ℕ
  pub content_string : Bytes
  pub start_string : Bytes
  pub size : ℕ
  pub temp_string : Bytes

-- What the language leaves undefined ends the sequence.
infixl 5 ◌>>=◌
abbrev pub ◌>>=◌ : {A B : Type 0} → Option A → (A → Option B) → Option B
none >>= k = none
some a >>= k = k a

-- The byte at an index, if it is there and has been written.
abbrev pub byte_at : List (Option ℕ) → ℕ → Option ℕ
byte_at cells i = get_elem? cells i >>= λ c. c

-- `main` with the string as an argument.
unfoldable pub c_str_main : Bytes → Option Printed
unfolding memcpy read_cells
c_str_main content = do
  let cells = constant content
  s ← read_cells cells
  let end = length s
  at_start ← byte_at cells 0
  at_end ← byte_at cells end
  let size = (end + 1) % 2 ^ 32
  temp ← memcpy (replicate 1024 none) cells size
  copy ← read_cells temp
  some (record {
    at_start = at_start;
    at_end = at_end;
    content_string = s;
    start_string = s;
    size = size;
    temp_string = copy;
  })
