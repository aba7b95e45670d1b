-- ===== src/Http/Transfer.antt =====
-- The transfer loops of httpserver/main.cpp. What the successive calls of `read` and `write` return
-- is an argument; where it ends, the call is still waiting, and the result is `none`.
use learning_directory.Base.{
  not, zero, suc, ℕ, ◌-◌, List, [], ◌∷◌, ◌++◌, Option, none, some, Bytes, if◌then◌else◌, ◌==◌,
  nat_eq, length, take, drop,
}
use learning_directory.Base.Int.{ℤ, pos, negsuc, ltb_ℤ, minus_one, int_eq}
use learning_directory.Base.Decimal.{decimal}

-- The bytes handed to the kernel, and the value returned.
pub record Written : Type 0 where
  pub sent : Bytes
  pub value : ℤ

abbrev pub more : Bytes → Option Written → Option Written
more bs none = none
more bs (some r) = some (record r { sent = bs ++ r.sent })

-- The loop of `writen`: `left` are the bytes from `ptr` on, `n` the number asked for. `write` takes
-- no more bytes than it is given.
unfoldable pub writen_loop : ℕ → Bytes → List ℤ → Option Written
writen_loop n [] rs = some (record { sent = []; value = pos n })
writen_loop n (c ∷ cs) [] = none
writen_loop n (c ∷ cs) (negsuc e ∷ rs) = some (record { sent = []; value = negsuc e })
writen_loop n (c ∷ cs) (pos zero ∷ rs) = some (record { sent = []; value = pos 0 })
writen_loop n (c ∷ cs) (pos (suc k) ∷ rs) =
    more (take (suc k) (c ∷ cs)) (writen_loop n (drop (suc k) (c ∷ cs)) rs)

unfoldable pub writen : Bytes → List ℤ → Option Written
unfolding writen_loop
writen vptr rs = writen_loop (length vptr) vptr rs

-- What one `read` returns: some bytes, none of them at the end of the input, or -1.
pub data Read : Type 0 where
  bytes : Bytes → Read
  failed : Read

-- `read(fd, ptr, nleft) < 0`, the value that `readn` stores in `nread`.
abbrev pub nread_of : Read → ℕ
nread_of (bytes bs) = 0
nread_of failed = 1

-- What a read leaves in the buffer, which holds `nleft` bytes from `ptr` on.
abbrev pub fill : ℕ → Bytes → Read → Bytes
fill nleft filled (bytes bs) = take nleft bs
fill nleft filled failed = filled

-- The value that `readn` returns, and the bytes that it has put into its buffer.
pub record Received : Type 0 where
  pub count : ℤ
  pub filled : Bytes

-- The loop of `readn`.
unfoldable pub readn_loop : ℕ → ℕ → Bytes → List Read → Option Received
readn_loop n nleft buf [] =
    if nleft == 0 then some (record { count = pos (n - nleft); filled = buf }) else none
readn_loop n nleft buf (r ∷ rs) =
    let nread = nread_of r in
    let buf' = fill nleft buf r in
    let rest = readn_loop n (nleft - nread) buf' rs in
    if nleft == 0
    then some (record { count = pos (n - nleft); filled = buf })
    else if not (nread == 0)
    then some (record { count = pos nread; filled = buf' })
    else if nread == 0
    then some (record { count = pos (n - nleft); filled = buf' })
    else rest

unfoldable pub readn : ℕ → List Read → Option Received
unfolding readn_loop
readn n rs = readn_loop n n [] rs

-- The results of the two calls of `fcntl`.
unfoldable pub set_fl : ℤ → ℤ → ℤ
set_fl getfl setfl =
    if ltb_ℤ getfl (pos 0) then minus_one else if ltb_ℤ setfl (pos 0) then minus_one else pos 0

-- `init_servsock`, with the results of `socket`, `bind` and `listen`; that of `setsockopt` is only
-- printed.
unfoldable pub init_servsock : ℤ → ℤ → ℤ → ℤ
init_servsock fd bound listening =
    if ltb_ℤ fd (pos 0)
    then minus_one
    else if ltb_ℤ bound (pos 0)
    then minus_one
    else if listening == pos 0
    then fd
    else minus_one

-- `sprintf("%d", i)`.
unfoldable pub int2str : ℤ → Bytes
int2str (pos n) = decimal n
int2str (negsuc n) = b'-' ∷ decimal (suc n)
