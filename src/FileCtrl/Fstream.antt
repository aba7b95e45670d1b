-- ===== src/FileCtrl/Fstream.antt =====
-- What api/file_ctrl.cpp uses of `fstream`: a file's bytes, the position, and the two bits of the state.
use learning_directory.Base.{
  ℕ, ◌+◌, Bool, true, false, Option, none, some, Bytes, if◌then◌else◌, ◌||◌, length, get_elem?,
}
use learning_directory.Base.Int.{ℤ, pos, minus_one}

pub record Stream : Type 0 where
  pub content : Bytes
  pub at : ℕ
  pub eof : Bool
  pub fail : Bool

abbrev pub opened : Bytes → Stream
opened content = record { content = content; at = 0; eof = false; fail = false }

-- Reading functions fail on a stream that is not good.
unfoldable pub tellg : Stream → ℤ × Stream
tellg s = if s.eof || s.fail then (minus_one, record s { fail = true }) else (pos s.at, s)

abbrev pub peeked : Option ℕ → Stream → Option ℕ × Stream
peeked none s = (none, record s { eof = true })
peeked (some c) s = (some c, s)

unfoldable pub peek : Stream → Option ℕ × Stream
peek s =
    if s.eof || s.fail
    then (none, record s { fail = true })
    else peeked (get_elem? s.content s.at) s

abbrev pub got_char : Option ℕ → Stream → Option ℕ × Stream
got_char none s = (none, record s { eof = true; fail = true })
got_char (some c) s = (some c, record s { at = s.at + 1 })

-- `read(buff, 1)`.
unfoldable pub read_one : Stream → Option ℕ × Stream
read_one s =
    if s.eof || s.fail
    then (none, record s { fail = true })
    else got_char (get_elem? s.content s.at) s

-- `seekg(offset, way)`: the end is forgotten, also where the new position is behind the end.
abbrev pub seek_to : ℕ → Stream → Stream
seek_to to s = if s.fail then record s { eof = false } else record s { at = to; eof = false }

unfoldable pub seekg_beg : Stream → Stream
seekg_beg s = seek_to 0 s

unfoldable pub seekg_end : Stream → Stream
seekg_end s = seek_to (length s.content) s

unfoldable pub seekg_cur : ℕ → Stream → Stream
seekg_cur offset s = seek_to (s.at + offset) s
