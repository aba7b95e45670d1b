-- ===== src/LibTest.antt =====
-- libtest/source: `main`, and `add`, `sub` and `hello` of the shared libraries.
pub mod Sums
use learning_directory.Base.{
  ℕ, zero, suc, ◌+◌, ◌-◌, ◌*◌, ◌^◌, ◌%◌, ◌≡◌, ◌≤◌, ◌<◌, refl, sym, ap, ◌∙◌, List, [], ◌∷◌, ◌++◌,
  Bool, true, false, ◌&&◌, ◌||◌, Option, none, some, Bytes, codes, length, get_elem?, ltb, leb,
  if◌then◌else◌, ◌==◌, nat_eq, arith,
}
use learning_directory.Base.Int.{ℤ, pos, negsuc, sub_ℕ, ◌-ℤ◌, ◌+ℤ◌}
use learning_directory.Base.Decimal.{decimal, value, value-decimal, AllDigits, decimal-AllDigits}

-- An `int` has 32 bits; `none`: what the language leaves undefined.
abbrev pub fits_int : ℤ → Bool
fits_int (pos n) = ltb n (2 ^ 31)
fits_int (negsuc n) = ltb n (2 ^ 31)

abbrev pub int_of : ℤ → Option ℤ
int_of z = if fits_int z then some z else none

unfoldable pub add : ℤ → ℤ → Option ℤ
add a b = int_of (a +ℤ b)

unfoldable pub sub : ℤ → ℤ → Option ℤ
sub a b = int_of (a -ℤ b)

-- `isspace` and `isdigit`.
abbrev pub is_space : ℕ → Bool
is_space c = (c == b' ') || (leb 9 c && leb c 13)

abbrev pub is_digit : ℕ → Bool
is_digit c = leb b'0' c && leb c b'9'

-- `atoi`: the spaces, a sign, and the digits up to the first other byte. A number that is no `int` is
-- undefined.
pub skip_spaces : Bytes → Bytes
skip_spaces [] = []
skip_spaces (c ∷ s) = if is_space c then skip_spaces s else c ∷ s

pub digits : ℕ → Bytes → ℕ
digits n [] = n
digits n (c ∷ s) = if is_digit c then digits (n * 10 + (c - b'0')) s else n

pub signed : Bytes → ℤ
unfolding digits
signed [] = pos 0
signed (c ∷ s) =
    if c == b'-'
    then sub_ℕ 0 (digits 0 s)
    else if c == b'+'
    then pos (digits 0 s)
    else pos (digits 0 (c ∷ s))

unfoldable pub atoi : Bytes → Option ℤ
unfolding skip_spaces signed
atoi s = int_of (signed (skip_spaces s))

-- `printf("%d", z)`.
unfoldable pub show_int : ℤ → Bytes
show_int (pos n) = decimal n
show_int (negsuc n) = b'-' ∷ decimal (suc n)

-- How the program ends, and what it has printed.
pub data Run : Type 0 where
  exits : ℕ → List Bytes → Run
  undefined : Run

unfoldable pub hello : Bytes
hello = codes "hello world!\n"

abbrev pub results : Option ℤ → Option ℤ → Run
results (some s) (some d) = exits 0 (
    codes "Greetings: "
    ∷ hello
    ∷ (codes "add result: " ++ show_int s)
    ∷ (codes "sub result: " ++ show_int d)
    ∷ [])
results (some s) none = undefined
results none d = undefined

-- `argv[argc]` is NULL, which `atoi` must not be given.
abbrev pub atoi_arg : Option Bytes → Option ℤ
atoi_arg none = none
atoi_arg (some s) = atoi s

abbrev pub calculated : Option ℤ → Option ℤ → Run
calculated (some a) (some b) = results (add a b) (sub a b)
calculated (some a) none = undefined
calculated none b = undefined

unfoldable pub libtest_main : List Bytes → Run
unfolding add sub atoi show_int hello
libtest_main argv =
    if ltb (length argv) 2
    then exits 1 (codes "usage: <./libtest int1 int2>\n" ∷ [])
    else calculated (atoi_arg (get_elem? argv 1)) (atoi_arg (get_elem? argv 2))
