-- ===== src/Threading/Startup.antt =====
-- `main` of socket/sdr/my_sdr.cpp and of socket/rcvr/my_rcvr.cpp from their start on, over the socket
-- interface.
use learning_directory.Base.{
  ℕ, ◌≡◌, sym, ap, ◌∙◌, List, Bool, true, Option, none, some, Bytes, codes, replicate, All,
  if◌then◌else◌, ◌==◌, arith,
}
use learning_directory.Base.Int.{ℤ, minus_one, int_eq}
use learning_directory.Netapi.Startup.{SockAddr, SocketApi}
use learning_directory.Threading.Sender.{Turn, Sender, start, returned, turns}
use learning_directory.Threading.Copy.{Answers}
use learning_directory.Threading.Receiver.{Receiver, Move, begin, moves}
use learning_directory.Threading.Transfer.{reception, file_transferred}

-- `to_addr` of the sender, and `local_addr` of the receiver.
unfoldable pub file_addr : SocketApi → SockAddr
file_addr K = record {
  sin_family = K.af_inet;
  s_addr = K.inet_addr (codes "127.0.0.1");
  sin_port = K.htons 5000;
  sin_zero = replicate 8 0;
}

-- `none`: the process has ended by `exit(-1)` before its loop.
unfoldable pub sender_main : SocketApi → Bool → Bytes → List Turn → Option Sender
unfolding file_addr
sender_main K fileflag content ts =
    if K.socket == minus_one
    then none
    else if K.connect K.socket (file_addr K) == minus_one
    then none
    else some (turns fileflag ts (start fileflag content))

unfoldable pub receiver_main : SocketApi → Bool → List Move → Option Receiver
unfolding file_addr
receiver_main K fileflag ms =
    if K.socket == minus_one
    then none
    else if K.bind K.socket (file_addr K) == minus_one
    then none
    else if K.listen K.socket 20 == minus_one
    then none
    else some (moves fileflag ms (begin fileflag))

sender_runs :
    (K : SocketApi) (fileflag : Bool) (content : Bytes) (ts : List Turn) (s : Sender)
    → sender_main K fileflag content ts ≡ some s
    → turns fileflag ts (start fileflag content) ≡ s
unfolding sender_main
sender_runs K fileflag content ts s e = ground arith

receiver_runs :
    (K : SocketApi) (fileflag : Bool) (ms : List Move) (v : Receiver)
    → receiver_main K fileflag ms ≡ some v
    → moves fileflag ms (begin fileflag) ≡ v
unfolding receiver_main
receiver_runs K fileflag ms v e = ground arith

-- With FILEFLAG 1 on both sides, each program from the start of its `main`: suppose that both come
-- to their loops, and `main` of the sender has returned, after turns in which each `send` failed or
-- took at least one byte. If the receiver starts a thread whose connection delivers the sent bytes
-- one by one and then ends, and its `main` does not look at the file meanwhile, then it has written
-- the content of the sender's file and set `filefinished`.
pub programs_transfer :
    (K L : SocketApi) (content : Bytes) (ts : List Turn) (s : Sender) (id : ℕ) (sock : ℤ)
    (v : Receiver)
    → All Answers ts
    → sender_main K true content ts ≡ some s
    → s.main ≡ returned
    → receiver_main L true (reception id sock s.sent) ≡ some v
    → (v.written ≡ content) × (v.filefinished ≡ true)
programs_transfer K L content ts s id sock v a sends r receives =
    let e = sender_runs K true content ts s sends in
    let w = receiver_runs L true (reception id sock s.sent) v receives in
    let h = file_transferred content ts id sock a (ap (λ (x : Sender). x.main) e ∙ r) in
    let same = ap (λ (x : Sender). moves true (reception id sock x.sent) (begin true)) e ∙ w in
    (
      ap (λ (x : Receiver). x.written) (sym same) ∙ h.0,
      ap (λ (x : Receiver). x.filefinished) (sym same) ∙ h.1,
    )
