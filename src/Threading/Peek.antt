-- ===== src/Threading/Peek.antt =====
-- The `peek` in `main` of socket/rcvr/my_rcvr.cpp, on the stream that a thread writes to.
use learning_directory.Base.{
  ℕ, ◌≡◌, ◌≤◌, refl, ap, ◌∙◌, List, [], ◌∷◌, Bool, true, false, Option, none, some, Bytes,
  if◌then◌else◌, arith, length, get_elem?, if_case, ltb,
}
use learning_directory.Base.Int.{ℤ}
use learning_directory.Netapi.State.{Recv, got, failed}
use learning_directory.Threading.Control.{ThreadingCtrl, thread_exiting_info}
use learning_directory.Threading.Receiver.{
  Job, accepting, receiving, reporting, closing, leaving, ended, Status, running, exited, undefined,
  Receiver, receive, report, quit, receiving_thread, listening, Move, main_move, thread_move,
  while_running, move, moves,
}

-- The stream is not good, and `bs` has been written.
abbrev pub Stuck : Bytes → Receiver → Type 0
Stuck bs v = (v.good ≡ false) × (v.written ≡ bs)

module _ (bs : Bytes) where
  receive-Stuck :
      (fileflag : Bool) (i : ℕ) (s : ℤ) (r : Recv) (v : Receiver)
      → Stuck bs v
      → Stuck bs (receive fileflag i s r v)
  receive-Stuck fileflag i s failed v h = h
  receive-Stuck true i s (got []) v h = h
  receive-Stuck true i s (got (c ∷ cs)) v h = (h.0, rw h.0 h.1)
  receive-Stuck false i s (got cs) v h = h

  report-Stuck :
      (fileflag : Bool) (i : ℕ) (s : ℤ) (cs : Bytes) (v : Receiver)
      → Stuck bs v
      → Stuck bs (report fileflag i s cs v)
  report-Stuck true i s cs v h = h
  report-Stuck false i s cs v h = h

  quit-Stuck :
      (i : ℕ) (o : Option ThreadingCtrl) (v : Receiver) → Stuck bs v → Stuck bs (quit i o v)
  quit-Stuck i none v h = h
  quit-Stuck i (some c) v h = h

  receiving_thread-Stuck :
      (fileflag : Bool) (i : ℕ) (sock : ℤ) (r : Recv) (o : Option Job) (v : Receiver)
      → Stuck bs v
      → Stuck bs (receiving_thread fileflag i sock r o v)
  unfolding receiving_thread
  receiving_thread-Stuck fileflag i sock r (some accepting) v h = h
  receiving_thread-Stuck fileflag i sock r (some (receiving s)) v h =
      receive-Stuck fileflag i s r v h
  receiving_thread-Stuck fileflag i sock r (some (reporting s cs)) v h =
      report-Stuck fileflag i s cs v h
  receiving_thread-Stuck fileflag i sock r (some (closing s)) v h = h
  receiving_thread-Stuck fileflag i sock r (some leaving) v h =
      quit-Stuck i (thread_exiting_info v.ctrl) v h
  receiving_thread-Stuck fileflag i sock r (some ended) v h = h
  receiving_thread-Stuck fileflag i sock r none v h = h

  listening-Stuck :
      (id : ℕ) (err : ℤ) (at_end b : Bool) (v : Receiver)
      → Stuck bs v
      → Stuck bs (listening id err at_end b v)
  unfolding listening
  listening-Stuck id err at_end false v h =
      if_case (Stuck bs) (ltb (length v.ctrl.threadqueue) v.ctrl.max_thread) _ _ (λ _. h)
        λ _. (if_case (λ g. g ≡ false) at_end false v.good (λ _. refl) (λ _. h.0), h.1)
  listening-Stuck id err at_end true v h = h

  while-Stuck :
      (o : Status) (v w : Receiver) → Stuck bs v → Stuck bs w → Stuck bs (while_running o v w)
  while-Stuck running v w hv hw = hw
  while-Stuck exited v w hv hw = hv
  while-Stuck undefined v w hv hw = hv

  move-Stuck :
      (fileflag : Bool) (m : Move) (v : Receiver) → Stuck bs v → Stuck bs (move fileflag m v)
  unfolding move
  move-Stuck fileflag (main_move id err at_end) v h =
      while-Stuck v.status v (listening id err at_end v.creating v) h
        (listening-Stuck id err at_end v.creating v h)
  move-Stuck fileflag (thread_move i sock r) v h =
      while-Stuck v.status v (receiving_thread fileflag i sock r (get_elem? v.jobs i) v) h
        (receiving_thread-Stuck fileflag i sock r (get_elem? v.jobs i) v h)

  moves-Stuck :
      (fileflag : Bool) (ms : List Move) (v : Receiver)
      → Stuck bs v
      → Stuck bs (moves fileflag ms v)
  unfolding moves
  moves-Stuck fileflag [] v h = h
  moves-Stuck fileflag (m ∷ ms) v h =
      moves-Stuck fileflag ms (move fileflag m v) (move-Stuck fileflag m v h)

-- If `main` of the receiver finds the queue full and its `peek` meets the end of the file, then
-- nothing is written from there on, whatever turns the threads take and whatever they receive.
pub peek_loses :
    (fileflag : Bool) (id : ℕ) (err : ℤ) (ms : List Move) (v : Receiver)
    → v.status ≡ running
    → v.creating ≡ false
    → v.ctrl.max_thread ≤ length v.ctrl.threadqueue
    → (moves fileflag (main_move id err true ∷ ms) v).written ≡ v.written
unfolding moves move listening
peek_loses fileflag id err ms v r c full =
    ap (λ u. (moves fileflag ms u).written) looked
    ∙ (moves-Stuck v.written fileflag ms (record v { good = false }) (refl, refl)).1
  where
    busy : ltb (length v.ctrl.threadqueue) v.ctrl.max_thread ≡ false
    busy = ground arith

    looked : move fileflag (main_move id err true) v ≡ record v { good = false }
    looked =
        (λ i. while_running (r i) v (listening id err true (c i) v))
        ∙ ap (λ b. if b then record v { creating = true } else record v { good = false }) busy
