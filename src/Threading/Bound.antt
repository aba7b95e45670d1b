-- ===== src/Threading/Bound.antt =====
-- The number of threads of socket/rcvr/my_rcvr.cpp.
use learning_directory.Base.{
  weigh, weigh-append, weigh-set, weigh-get, ℕ, ◌≡◌, ◌≢◌, ◌≤◌, ◌<◌, inl, inr, refl, ap, ◌∙◌, List,
  [], ◌∷◌, ◌++◌, Bool, true, false, Option, none, some, Bytes, if◌then◌else◌, ◌==◌, arith, length,
  length-append, get_elem?, set, if_case, Bool-cases, ltb,
}
use learning_directory.Base.Int.{ℤ, pos, int_eq}
use learning_directory.Netapi.State.{Recv, got, failed}
use learning_directory.Threading.Control.{init, thread_exiting_info, pop}
use learning_directory.Threading.Receiver.{
  Job, accepting, receiving, reporting, closing, leaving, ended, Status, running, exited, undefined,
  Receiver, begin, receive, report, quit, receiving_thread, listening, Move, main_move, thread_move,
  while_running, move, moves,
}
use learning_directory.Threading.Queue.{info_queue, info_limit}

-- A thread that is still in the queue.
abbrev pub live : Job → ℕ
live accepting = 1
live (receiving s) = 1
live (reporting s bs) = 1
live (closing s) = 1
live leaving = 1
live ended = 0

pub record IsBounded (n : ℕ) (v : Receiver) : Type 0 where
  pub queue : length v.ctrl.threadqueue ≡ weigh live v.jobs
  pub bound : weigh live v.jobs ≤ n
  pub room : v.creating ≡ true → weigh live v.jobs < n
  pub limit : v.ctrl.max_thread ≡ n
  pub defined : v.status ≢ undefined

module _ (n : ℕ) where
  -- A thread goes on without leaving the queue.
  moved :
      (v : Receiver) (i : ℕ) (t u : Job) (count : ℕ) (fin : Bool) (bs : Bytes) (out : List Bytes)
      (cl : List ℤ)
      → get_elem? v.jobs i ≡ some t
      → live t ≡ live u
      → IsBounded n v
      → IsBounded n (record v {
        msg_count = count;
        filefinished = fin;
        written = bs;
        shown = out;
        closed = cl;
        jobs = set v.jobs i u;
      })
  moved v i t u count fin bs out cl e same h =
      let w = weigh-set live v.jobs i t u e in
      record {
        queue = omega (arith, w, same, h.queue);
        bound = omega (arith, w, same, h.bound);
        room = λ c. omega (arith, w, same, h.room c);
        limit = h.limit;
        defined = h.defined;
      }

  receive-IsBounded :
      (fileflag : Bool) (i : ℕ) (s : ℤ) (r : Recv) (v : Receiver)
      → get_elem? v.jobs i ≡ some (receiving s)
      → IsBounded n v
      → IsBounded n (receive fileflag i s r v)
  receive-IsBounded fileflag i s failed v e h = record {
    queue = h.queue;
    bound = h.bound;
    room = h.room;
    limit = h.limit;
    defined = λ q. cc;
  }
  receive-IsBounded true i s (got []) v e h =
      moved v i (receiving s) (reporting s []) v.msg_count v.filefinished v.written v.shown v.closed
        e refl h
  receive-IsBounded true i s (got (c ∷ cs)) v e h = record {
    queue = h.queue;
    bound = h.bound;
    room = h.room;
    limit = h.limit;
    defined = h.defined;
  }
  receive-IsBounded false i s (got bs) v e h =
      moved v i (receiving s) (reporting s bs) v.msg_count v.filefinished v.written v.shown v.closed
        e refl h

  report-IsBounded :
      (fileflag : Bool) (i : ℕ) (s : ℤ) (bs : Bytes) (v : Receiver)
      → get_elem? v.jobs i ≡ some (reporting s bs)
      → IsBounded n v
      → IsBounded n (report fileflag i s bs v)
  report-IsBounded true i s bs v e h =
      moved v i (reporting s bs) (closing s) v.msg_count true v.written v.shown v.closed e refl h
  report-IsBounded false i s bs v e h =
      moved v i (reporting s bs) (closing s) _ v.filefinished v.written _ v.closed e refl h

  quit-IsBounded :
      (i : ℕ) (v : Receiver) (q : List ℕ)
      → get_elem? v.jobs i ≡ some leaving
      → length q ≡ weigh live v.jobs
      → IsBounded n v
      → IsBounded n (quit i (pop q v.ctrl) v)
  quit-IsBounded i v [] e same h = absurd (omega (arith, weigh-get live v.jobs i leaving e))
  quit-IsBounded i v (front ∷ q) e same h =
      let w = weigh-set live v.jobs i leaving ended e in
      record {
        queue = omega (arith, w, same);
        bound = omega (arith, w, h.bound);
        room = λ c. omega (arith, w, h.room c);
        limit = h.limit;
        defined = h.defined;
      }

  receiving_thread-IsBounded :
      (fileflag : Bool) (i : ℕ) (sock : ℤ) (r : Recv) (o : Option Job) (v : Receiver)
      → get_elem? v.jobs i ≡ o
      → IsBounded n v
      → IsBounded n (receiving_thread fileflag i sock r o v)
  unfolding receiving_thread thread_exiting_info
  receiving_thread-IsBounded fileflag i sock r (some accepting) v e h =
      moved v i accepting (receiving sock) v.msg_count v.filefinished v.written v.shown v.closed e
        refl h
  receiving_thread-IsBounded fileflag i sock r (some (receiving s)) v e h =
      receive-IsBounded fileflag i s r v e h
  receiving_thread-IsBounded fileflag i sock r (some (reporting s bs)) v e h =
      report-IsBounded fileflag i s bs v e h
  receiving_thread-IsBounded fileflag i sock r (some (closing s)) v e h =
      moved v i (closing s) leaving v.msg_count v.filefinished v.written v.shown
        (v.closed ++ s ∷ []) e refl h
  receiving_thread-IsBounded fileflag i sock r (some leaving) v e h =
      quit-IsBounded i v v.ctrl.threadqueue e h.queue h
  receiving_thread-IsBounded fileflag i sock r (some ended) v e h = h
  receiving_thread-IsBounded fileflag i sock r none v e h = h

  created-IsBounded :
      (id : ℕ) (err : ℤ) (at_end : Bool) (v : Receiver)
      → v.creating ≡ true
      → IsBounded n v
      → IsBounded n (listening id err at_end true v)
  unfolding listening
  created-IsBounded id err at_end v c h = elim (Bool-cases (err == pos 0)) [
    | inl made ↦
        let w = weigh-append live v.jobs accepting in
        record {
          queue =
              ap length (info_queue id err v.ctrl)
              ∙ rw made (omega (arith, w, h.queue, length-append v.ctrl.threadqueue (id ∷ [])));
          bound = rw made (omega (arith, w, h.room c));
          room = λ k. cc;
          limit = info_limit id err v.ctrl ∙ h.limit;
          defined = h.defined;
        }
    | inr failing ↦ record {
      queue = ap length (info_queue id err v.ctrl) ∙ rw failing h.queue;
      bound = rw failing h.bound;
      room = λ k. cc;
      limit = info_limit id err v.ctrl ∙ h.limit;
      defined = h.defined;
    }
  ]

  listening-IsBounded :
      (id : ℕ) (err : ℤ) (at_end b : Bool) (v : Receiver)
      → v.creating ≡ b
      → IsBounded n v
      → IsBounded n (listening id err at_end b v)
  unfolding listening
  listening-IsBounded id err at_end false v e h =
      if_case (IsBounded n) (ltb (length v.ctrl.threadqueue) v.ctrl.max_thread) _ _
        (λ less. record {
          queue = h.queue;
          bound = h.bound;
          room = λ _. ground (arith, less, h.queue, h.limit);
          limit = h.limit;
          defined = h.defined;
        })
        λ _. record {
          queue = h.queue;
          bound = h.bound;
          room = h.room;
          limit = h.limit;
          defined = h.defined;
        }
  listening-IsBounded id err at_end true v e h = created-IsBounded id err at_end v e h

  while-IsBounded :
      (o : Status) (v w : Receiver)
      → IsBounded n v
      → IsBounded n w
      → IsBounded n (while_running o v w)
  while-IsBounded running v w hv hw = hw
  while-IsBounded exited v w hv hw = hv
  while-IsBounded undefined v w hv hw = hv

  move-IsBounded :
      (fileflag : Bool) (m : Move) (v : Receiver) → IsBounded n v → IsBounded n (move fileflag m v)
  unfolding move
  move-IsBounded fileflag (main_move id err at_end) v h =
      while-IsBounded v.status v (listening id err at_end v.creating v) h
        (listening-IsBounded id err at_end v.creating v refl h)
  move-IsBounded fileflag (thread_move i sock r) v h =
      while-IsBounded v.status v (receiving_thread fileflag i sock r (get_elem? v.jobs i) v) h
        (receiving_thread-IsBounded fileflag i sock r (get_elem? v.jobs i) v refl h)

  moves-IsBounded :
      (fileflag : Bool) (ms : List Move) (v : Receiver)
      → IsBounded n v
      → IsBounded n (moves fileflag ms v)
  unfolding moves
  moves-IsBounded fileflag [] v h = h
  moves-IsBounded fileflag (m ∷ ms) v h =
      moves-IsBounded fileflag ms (move fileflag m v) (move-IsBounded fileflag m v h)

abbrev pub most : Bool → ℕ
most fileflag = if fileflag then 1 else 10

begin-IsBounded : (fileflag : Bool) → IsBounded (most fileflag) (begin fileflag)
unfolding begin init
begin-IsBounded fileflag = record {
  queue = refl;
  bound = omega arith;
  room = λ c. cc;
  limit = refl;
  defined = λ e. cc;
}

-- With either FILEFLAG of the receiver, however the threads take turns and whatever the kernel
-- answers: the threads that have not left the queue are at most `max_thread`, 1 for a file and 10
-- for messages, and one less while `main` is about to create one; the queue has as many entries as
-- there are such threads, and none of them pops an empty queue.
pub receivers-IsBounded :
    (fileflag : Bool) (ms : List Move)
    → IsBounded (most fileflag) (moves fileflag ms (begin fileflag))
receivers-IsBounded fileflag ms =
    moves-IsBounded (most fileflag) fileflag ms (begin fileflag) (begin-IsBounded fileflag)
