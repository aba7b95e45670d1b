-- ===== src/Talk/Start.antt =====
-- The start of `main` in socket/talk/chatchit/client.cpp and socket/talk/chitchat/client.cpp, up to the
-- two loops.
use learning_directory.Base.{ℕ, Bool, Option, none, some, if◌then◌else◌, ◌==◌}
use learning_directory.Base.Int.{ℤ, pos, minus_one, int_eq}

-- What the kernel answers, in the order of the calls; `rerr_id` is the result of `pthread_create`:
-- 0, or the positive number of an error, which the test does not see.
pub record Answers : Type 0 where
  pub local_listening_sock : ℤ
  pub bound : ℤ
  pub listening : ℤ
  pub sending_sock : ℤ
  pub connected : ℤ
  pub receiving_sock : ℤ
  pub rerr_id : ℤ

-- The addresses that the calls are given, and what the threads get.
pub record Talking : Type 0 where
  pub local_port : ℕ
  pub peer_port : ℕ
  pub recv_sock : ℤ
  pub sending_sock : ℤ
  pub receiving : Bool  -- whether `pthread_create` has made the receiving thread

-- `none`: the process has ended by `exit(-1)`. A failed `accept` is only printed: `recv_sock`
-- is -1 then.
unfoldable pub establish : ℕ → ℕ → Answers → Option Talking
establish local_port peer_port a =
    if a.local_listening_sock == minus_one
    then none
    else if a.bound == minus_one
    then none
    else if a.listening == minus_one
    then none
    else if a.sending_sock == minus_one
    then none
    else if a.connected == minus_one
    then none
    else if a.rerr_id == minus_one
    then none
    else some (record {
      local_port = local_port;
      peer_port = peer_port;
      recv_sock = a.receiving_sock;
      sending_sock = a.sending_sock;
      receiving = a.rerr_id == pos 0;
    })

unfoldable pub chatchit : Answers → Option Talking
unfolding establish
chatchit = establish 5000 7000

unfoldable pub chitchat : Answers → Option Talking
unfolding establish
chitchat = establish 7000 5000
