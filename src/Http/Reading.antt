-- ===== src/Http/Reading.antt =====
-- `readn` of httpserver/main.cpp, which stores the comparison `read(...) < 0` in `nread`.
use learning_directory.Base.{ℕ, suc, ◌≡◌, List, [], ◌∷◌, some, Bytes, take, arith, nat_eq}
use learning_directory.Base.Int.{pos}
use learning_directory.Http.Transfer.{Read, bytes, failed, readn}

-- One successful `read`, of any number of bytes, ends the loop with 0.
pub readn-bytes :
    (n : ℕ) (bs : Bytes) (rs : List Read)
    → readn (suc n) (bytes bs ∷ rs) ≡ some (record { count = pos 0; filled = take (suc n) bs })
unfolding readn
readn-bytes n bs rs = ground arith

-- A failed `read` gives 1.
pub readn_failed :
    (n : ℕ) (rs : List Read)
    → readn (suc n) (failed ∷ rs) ≡ some (record { count = pos 1; filled = [] })
unfolding readn
readn_failed n rs = ground arith
