-- ===== src/Cs/Sending.antt =====
-- cs/send/main.cpp. What the kernel answers is an argument: the results of `socket` and `connect`, and
-- those of the successive calls of `send`; where they end, the call is still waiting.
use learning_directory.Base.{
  ℕ, zero, suc, ◌+◌, ◌%◌, ◌^◌, List, [], ◌∷◌, ◌++◌, Bytes, codes, if◌then◌else◌, ◌==◌, ltb, take,
}
use learning_directory.Base.Int.{ℤ, pos, negsuc, minus_one, int_eq}

-- The process has ended by `exit(-1)`, waits in `send`, or has left the loop.
pub data Ending : Type 0 where
  exited : Ending
  waiting : Ending
  finished : Ending

-- `sent` is what the kernel has taken.
pub record Sent : Type 0 where
  pub msg_count : ℕ
  pub sent : Bytes
  pub ending : Ending

abbrev pub msg_amount : ℕ
msg_amount = 10000

abbrev pub message : Bytes
message = codes "Hello server!!\0"

abbrev pub result : ℕ → Bytes → Ending → Sent
result msg_count sent ending = record { msg_count = msg_count; sent = sent; ending = ending }

-- The loop, from the count and the bytes so far.
unfoldable pub send_messages : List ℤ → ℕ → Bytes → Sent
send_messages [] n out = if ltb n msg_amount then result n out waiting else result n out finished
send_messages (negsuc e ∷ rs) n out =
    let rest = send_messages rs n out in
    if ltb n msg_amount
    then if negsuc e == minus_one then result n out exited else rest
    else result n out finished
send_messages (pos zero ∷ rs) n out =
    let rest = send_messages rs n out in if ltb n msg_amount then rest else result n out finished
send_messages (pos (suc k) ∷ rs) n out =
    let rest = send_messages rs ((n + 1) % 2 ^ 32) (out ++ take (suc k) message) in
    if ltb n msg_amount then rest else result n out finished

unfoldable pub send_main : ℤ → ℤ → List ℤ → Sent
unfolding send_messages
send_main localsock connected rs =
    if localsock == minus_one
    then result 0 [] exited
    else if connected == minus_one
    then result 0 [] exited
    else send_messages rs 0 []
