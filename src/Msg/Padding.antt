-- ===== src/Msg/Padding.antt =====
-- The paddings of socket/netapi/msg.cpp against the loop that reads a field up to its first `#`.
use Prim.Native.Nat.{max}
use native.Mathlib.Decide.{dec_le}
use learning_directory.Base.{
  ap, ℕ, zero, suc, ◌-◌, ◌^◌, ◌≤◌, ◌<◌, ◌≡◌, ◌≢◌, refl, sym, [], ◌∷◌, ◌++◌, append_assoc,
  append-nil, Bytes, length, replicate, length-append, length-replicate, arith, ◌==◌, nat_eq,
  if◌then◌else◌,
}
use learning_directory.Msg.{hash, pad_loop, pad}

-- `for (...) { if (buf[i] == '#') break; out << buf[i]; }`
unfoldable pub until_hash : Bytes → Bytes
until_hash [] = []
until_hash (c ∷ s) = if c == hash then [] else c ∷ until_hash s

abbrev pub LacksHash : Bytes → Type 0
LacksHash [] = Unit
LacksHash (c ∷ s) = (c ≢ hash) × LacksHash s

pad_loop-append : (n : ℕ) (s : Bytes) → pad_loop n s ≡ s ++ replicate n hash
unfolding pad_loop
pad_loop-append zero s = sym (append-nil s)
pad_loop-append (suc n) s = simp (pad_loop-append n, append_assoc)

pub pad_short :
    (w : ℕ) (s : Bytes) → length s ≤ w → w < 2 ^ 31 → pad w s ≡ s ++ replicate (w - length s) hash
unfolding pad
pad_short w s h k = ground (arith, pad_loop-append (w - length s) s, append-nil s)

pub pad_long : (w : ℕ) (s : Bytes) → w ≤ length s → length s < 2 ^ 31 → pad w s ≡ s
unfolding pad
pad_long w s h k = ground arith

pub length-pad : (w : ℕ) (s : Bytes) → length s ≤ w → w < 2 ^ 31 → length (pad w s) ≡ w
length-pad w s h k = rw (pad_short w s h k) (
    omega (
      arith,
      length-append s (replicate (w - length s) hash),
      length-replicate (w - length s) hash,
    ))

pub until_hash-append : (s t : Bytes) → LacksHash s → until_hash (s ++ hash ∷ t) ≡ s
unfolding until_hash
until_hash-append [] t h = refl
until_hash-append (c ∷ s) t h = ground (arith, until_hash-append s t h.1)

pub until_hash_all : (s : Bytes) → LacksHash s → until_hash s ≡ s
unfolding until_hash
until_hash_all [] h = refl
until_hash_all (c ∷ s) h = ground (arith, until_hash_all s h.1)

until_hash-replicate : (s : Bytes) (n : ℕ) → LacksHash s → until_hash (s ++ replicate n hash) ≡ s
until_hash-replicate s zero h = rw append-nil (until_hash_all s h)
until_hash-replicate s (suc n) h = until_hash-append s (replicate n hash) h

-- A field without `#` that fits its width is read back from its padded form.
pub until_hash-pad :
    (w : ℕ) (s : Bytes) → length s ≤ w → w < 2 ^ 31 → LacksHash s → until_hash (pad w s) ≡ s
until_hash-pad w s h k l = rw (pad_short w s h k) (until_hash-replicate s (w - length s) l)

-- A field that is too long stays as it is: the width of a padded field is the greater of the two.
pub length-pad-max :
    (w : ℕ) (s : Bytes) → w < 2 ^ 31 → length s < 2 ^ 31 → length (pad w s) ≡ max w (length s)
length-pad-max w s h k = elim (dec_le (length s) w) [
  | yes fits ↦ omega (arith, length-pad w s fits h)
  | no long ↦ omega (arith, ap length (pad_long w s (omega arith) k))
]
