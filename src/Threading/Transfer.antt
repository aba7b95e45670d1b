-- ===== src/Threading/Transfer.antt =====
-- A file from the sender of socket/sdr/my_sdr.cpp to the receiver of socket/rcvr/my_rcvr.cpp, over one
-- connection that hands on the bytes in their order and then ends.
use learning_directory.Base.{
  ℕ, ◌≡◌, sym, ap, ◌∙◌, List, [], ◌∷◌, ◌++◌, append_assoc, append-nil, true, false, Bytes, All, map,
}
use learning_directory.Base.Int.{ℤ, pos}
use learning_directory.Netapi.State.{got, failed}
use learning_directory.Threading.Control.{init, thread_creating_info}
use learning_directory.Threading.Sender.{Turn, start, returned, turns}
use learning_directory.Threading.Copy.{Answers, file_sent}
use learning_directory.Threading.Receiver.{
  Job, receiving, Receiver, running, begin, receiving_thread, listening, Move, main_move,
  thread_move, move, moves,
}

-- `recv` of one byte.
abbrev pub deliver : ℤ → ℕ → Move
deliver sock c = thread_move 0 sock (got (c ∷ []))

deliver_all :
    (sock s : ℤ) (bs : Bytes) (rest : List Move) (v : Receiver) (js : List Job)
    → moves true
        (map (deliver sock) bs ++ rest)
        (record v { status = running; good = true; jobs = receiving s ∷ js })
      ≡ moves true rest (record v {
        status = running;
        good = true;
        jobs = receiving s ∷ js;
        written = v.written ++ bs;
      })
unfolding moves move receiving_thread
deliver_all sock s [] rest v js = λ i. moves true rest (record v {
  status = running;
  good = true;
  jobs = receiving s ∷ js;
  written = sym (append-nil v.written) i;
})
deliver_all sock s (c ∷ bs) rest v js =
    deliver_all sock s bs rest (record v { written = v.written ++ c ∷ [] }) js ∙ λ i.
    moves true rest (record v {
      status = running;
      good = true;
      jobs = receiving s ∷ js;
      written = append_assoc v.written (c ∷ []) bs i;
    })

-- A thread is created, accepts the connection, receives the bytes and the end of the input, and
-- reports the file.
abbrev pub reception : ℕ → ℤ → Bytes → List Move
reception id sock bs =
    main_move id (pos 0) false
      ∷ main_move id (pos 0) false
      ∷ thread_move 0 sock failed
      ∷ map (deliver sock) bs
    ++ thread_move 0 sock (got []) ∷ thread_move 0 sock failed ∷ []

file_received :
    (id : ℕ) (sock : ℤ) (bs : Bytes)
    → ((moves true (reception id sock bs) (begin true)).written ≡ bs)
      × ((moves true (reception id sock bs) (begin true)).filefinished ≡ true)
unfolding moves move receiving_thread listening begin init thread_creating_info
file_received id sock bs = (ap (λ v. v.written) all, ap (λ v. v.filefinished) all)
  where
    rest : List Move
    rest = thread_move 0 sock (got []) ∷ thread_move 0 sock failed ∷ []

    accepted : Receiver
    accepted =
        moves true
          (main_move id (pos 0) false ∷ main_move id (pos 0) false ∷ thread_move 0 sock failed ∷ [])
          (begin true)

    all :
        moves true (reception id sock bs) (begin true)
        ≡ moves true rest (record accepted { written = bs })
    all = deliver_all sock sock bs rest accepted []

-- With FILEFLAG 1 on both sides: suppose `main` of the sender has returned, after turns in which
-- each `send` failed or took at least one byte. If the receiver starts a thread whose connection
-- delivers the sent bytes one by one and then ends, and its `main` does not look at the file
-- meanwhile, then it has written the content of the sender's file and set `filefinished`.
pub file_transferred :
    (content : Bytes) (ts : List Turn) (id : ℕ) (sock : ℤ)
    → All Answers ts
    → (turns true ts (start true content)).main ≡ returned
    → ((moves true
          (reception id sock (turns true ts (start true content)).sent)
          (begin true)).written
        ≡ content)
      × ((moves true
            (reception id sock (turns true ts (start true content)).sent)
            (begin true)).filefinished
          ≡ true)
file_transferred content ts id sock a r =
    let h = file_received id sock (turns true ts (start true content)).sent in
    (h.0 ∙ file_sent content ts a r, h.1)
