-- ===== src/Examples/Senders.antt =====
-- Runs of socket/sdr/my_sdr.cpp and socket/rcvr/my_rcvr.cpp.
use learning_directory.Base.{
  ◌≡◌, ◌≢◌, ◌≤◌, refl, List, [], ◌∷◌, ◌++◌, true, false, codes, arith, inr, All,
}
use learning_directory.Base.Int.{pos, minus_one}
use learning_directory.Netapi.State.{got}
use learning_directory.Threading.Control.{init, thread_creating_info, thread_creating_permit}
use learning_directory.Threading.Sender.{
  Sender, start, returned, sending_thread, main_thread, Turn, main_turn, thread_turn, turn, turns,
}
use learning_directory.Threading.Copy.{Answers, file_sent}
use learning_directory.Threading.Receiver.{
  Receiver, receiving, thread_move, main_move, begin, moves,
}
use learning_directory.Threading.Bound.{IsBounded, receivers-IsBounded}
use learning_directory.Netapi.Startup.{SocketApi}
use learning_directory.Examples.Nets.{kernel}
use learning_directory.Threading.Startup.{sender_main, receiver_main, programs_transfer}
use learning_directory.Threading.Transfer.{reception}
use learning_directory.Threading.Peek.{peek_loses}
use learning_directory.Threading.Messages.{ObeysAll}
use learning_directory.Threading.Limit.{ten_messages}
use learning_directory.Threading.Queue.{IsQueued, queue_defined}

-- The first thread is created; it sends two bytes, and finds the end of the file.
abbrev creation : List Turn
creation =
    main_turn 1 (pos 0) ∷ main_turn 1 (pos 0) ∷ main_turn 1 (pos 0) ∷ main_turn 1 (pos 0) ∷ []

abbrev two_bytes : List Turn
two_bytes =
    creation
    ++ thread_turn 0 (pos 1)
      ∷ thread_turn 0 (pos 1)
      ∷ thread_turn 0 (pos 1)
      ∷ main_turn 2 (pos 0)
      ∷ []

two_bytes-Answers : All Answers two_bytes
two_bytes-Answers =
    (tt, (tt, (tt, (tt, (inr (0, refl), (inr (0, refl), (inr (0, refl), (tt, tt))))))))

two_bytes_returned : (turns true two_bytes (start true (codes "ab"))).main ≡ returned
unfolding turns turn start init main_thread sending_thread thread_creating_info
    thread_creating_permit
two_bytes_returned = refl

file_sent_example : (turns true two_bytes (start true (codes "ab"))).sent ≡ codes "ab"
file_sent_example = file_sent (codes "ab") two_bytes two_bytes-Answers two_bytes_returned

-- Two threads; the first closes the socket, and the second one's `send` fails.
abbrev two_messages : List Turn
two_messages =
    creation
    ++ (creation
        ++ thread_turn 0 (pos 15)
          ∷ thread_turn 0 (pos 0)
          ∷ thread_turn 0 (pos 0)
          ∷ thread_turn 1 minus_one
          ∷ [])

two_messages-ObeysAll : ObeysAll two_messages (start false [])
unfolding turn start init main_thread sending_thread thread_creating_info thread_creating_permit
two_messages-ObeysAll = (
  tt,
  (
    tt,
    (tt, (tt, (tt, (tt, (tt, (tt, (λ c e. cc, (λ c e. cc, (λ c e. cc, (λ c e. refl, tt)))))))))),
  ),
)

ten_messages_example :
    ((turns false two_messages (start false [])).msg_count ≤ 10)
    × ((turns false two_messages (start false [])).main ≢ returned)
ten_messages_example = ten_messages [] two_messages two_messages-ObeysAll

receivers-IsBounded_example :
    IsBounded 1 (moves true (reception 3 (pos 5) (codes "ab")) (begin true))
receivers-IsBounded_example = receivers-IsBounded true (reception 3 (pos 5) (codes "ab"))

-- The sender that has sent them, and the receiver that has received them.
abbrev sent_two : Sender
sent_two = turns true two_bytes (start true (codes "ab"))

abbrev received_two : Receiver
received_two = moves true (reception 3 (pos 5) sent_two.sent) (begin true)

-- A kernel whose calls succeed.
abbrev willing : SocketApi
willing = record kernel { bind = λ sockfd addr. pos 0 }

programs_transfer_example : (received_two.written ≡ codes "ab") × (received_two.filefinished ≡ true)
unfolding sender_main receiver_main
programs_transfer_example =
    programs_transfer willing willing (codes "ab") two_bytes sent_two 3 (pos 5) received_two
      two_bytes-Answers refl two_bytes_returned refl

-- A thread has received one byte when `main` looks at the file.
abbrev one_byte : Receiver
one_byte = record (begin true) {
  ctrl = record (begin true).ctrl { threadqueue = 3 ∷ []; max_thread = 1 };
  written = codes "a";
  jobs = receiving (pos 5) ∷ [];
}

peek_loses_example :
    (moves true
      (main_move 4 (pos 0) true ∷ thread_move 0 (pos 5) (got (codes "b")) ∷ [])
      one_byte).written
    ≡ codes "a"
unfolding begin
peek_loses_example =
    peek_loses true 4 (pos 0) (thread_move 0 (pos 5) (got (codes "b")) ∷ []) one_byte refl refl
      (omega arith)

queue_defined_example : IsQueued (turns false two_messages (start false (codes "ab")))
queue_defined_example = queue_defined false (codes "ab") two_messages
