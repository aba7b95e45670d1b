-- ===== src/Cs/Receiving.antt =====
-- cs/recv/main.cpp. What the kernel answers is an argument, as in Cs.Sending; a failed `accept` is only
-- printed.
use learning_directory.Base.{ℕ, ◌+◌, ◌%◌, ◌^◌, List, [], ◌∷◌, if◌then◌else◌, ◌==◌}
use learning_directory.Base.Int.{ℤ, minus_one, int_eq}
use learning_directory.Netapi.State.{Recv, got, failed}
use learning_directory.Cs.Sending.{Ending, exited, waiting}

-- The loop: the count of messages, and how it ends. `recv` puts at most 15 bytes into `buf`, and
-- returns 0 at the end of the stream.
unfoldable pub recv_messages : List Recv → ℕ → ℕ × Ending
recv_messages [] msg_count = (msg_count, waiting)
recv_messages (failed ∷ rs) msg_count = (msg_count, exited)
recv_messages (got [] ∷ rs) msg_count = recv_messages rs msg_count
recv_messages (got (c ∷ cs) ∷ rs) msg_count = recv_messages rs ((msg_count + 1) % 2 ^ 32)

unfoldable pub recv_main : ℤ → ℤ → ℤ → List Recv → ℕ × Ending
unfolding recv_messages
recv_main localsock bound listening rs =
    if localsock == minus_one
    then (0, exited)
    else if bound == minus_one
    then (0, exited)
    else if listening == minus_one
    then (0, exited)
    else recv_messages rs 0
