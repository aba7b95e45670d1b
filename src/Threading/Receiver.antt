-- ===== src/Threading/Receiver.antt =====
-- socket/rcvr/my_rcvr.cpp: `main`, once it listens, and the threads of `receiving_thread`. `fileflag`
-- stands for the macro FILEFLAG. A turn is one step of one thread, with what `pthread_create`, `accept`
-- or `recv` answers in it; the code under `mutex` is one step.
use learning_directory.Base.{
  ℕ, ◌+◌, ◌%◌, ◌^◌, List, [], ◌∷◌, ◌++◌, Bool, true, false, Option, none, some, Bytes,
  if◌then◌else◌, ◌==◌, ltb, length, get_elem?, set, buffer,
}
use learning_directory.Base.Int.{ℤ, pos, int_eq}
use learning_directory.Netapi.State.{Recv, got, failed}
use learning_directory.Threading.Control.{
  ThreadingCtrl, init, thread_creating_info, thread_exiting_info,
}

-- Where a thread of `receiving_thread` stands: before `accept`; with `thread_sock`, before a `recv`;
-- with what it has received, before it sets `filefinished` or counts; before `close`; before
-- `thread_exiting_info`; or past it.
pub data Job : Type 0 where
  accepting : Job
  receiving : ℤ → Job
  reporting : ℤ → Bytes → Job
  closing : ℤ → Job
  leaving : Job
  ended : Job

-- The process runs, has ended by `exit(-1)`, or has popped an empty queue.
pub data Status : Type 0 where
  running : Status
  exited : Status
  undefined : Status

-- `good` is the state of the stream `filecontent`, which is lost when a `peek` finds the end of the
-- file: a stream that is not good writes nothing. `written` is what has been written to
-- `filecontent`, `shown` the buffers printed (each up to its first zero), oldest first; `creating`
-- tells that `main` has passed the test for a new thread.
pub record Receiver : Type 0 where
  pub ctrl : ThreadingCtrl
  pub msg_count : ℕ
  pub filefinished : Bool
  pub good : Bool
  pub written : Bytes
  pub shown : List Bytes
  pub closed : List ℤ
  pub creating : Bool
  pub status : Status
  pub jobs : List Job

unfoldable pub begin : Bool → Receiver
unfolding init
begin fileflag = record {
  ctrl = init fileflag (record {
    threadqueue = [];
    msg_amount = 0;
    max_thread = 0;
    file_thread_start_count = 0;
    file_thread_fail_count = 0;
    isfile = false;
  });
  msg_count = 0;
  filefinished = false;
  good = true;
  written = [];
  shown = [];
  closed = [];
  creating = false;
  status = running;
  jobs = [];
}

-- The result of `recv`, of at most one byte for a file.
abbrev pub receive : Bool → ℕ → ℤ → Recv → Receiver → Receiver
receive fileflag i sock failed v = record v { status = exited }
receive true i sock (got []) v = record v { jobs = set v.jobs i (reporting sock []) }
receive true i sock (got (c ∷ cs)) v = record v {
  written = if v.good then v.written ++ c ∷ [] else v.written;
}
receive false i sock (got bs) v = record v { jobs = set v.jobs i (reporting sock bs) }

abbrev pub report : Bool → ℕ → ℤ → Bytes → Receiver → Receiver
report true i sock bs v = record v { filefinished = true; jobs = set v.jobs i (closing sock) }
report false i sock bs v = record v {
  msg_count = (v.msg_count + 1) % 2 ^ 32;
  shown = v.shown ++ buffer 80 bs ∷ [];
  jobs = set v.jobs i (closing sock);
}

abbrev pub quit : ℕ → Option ThreadingCtrl → Receiver → Receiver
quit i none v = record v { status = undefined }
quit i (some c) v = record v { ctrl = c; jobs = set v.jobs i ended }

-- One step of the thread `i`. A failed `accept` is only printed.
unfoldable pub receiving_thread : Bool → ℕ → ℤ → Recv → Option Job → Receiver → Receiver
unfolding thread_exiting_info
receiving_thread fileflag i sock r (some accepting) v = record v {
  jobs = set v.jobs i (receiving sock);
}
receiving_thread fileflag i sock r (some (receiving s)) v = receive fileflag i s r v
receiving_thread fileflag i sock r (some (reporting s bs)) v = report fileflag i s bs v
receiving_thread fileflag i sock r (some (closing s)) v = record v {
  closed = v.closed ++ s ∷ [];
  jobs = set v.jobs i leaving;
}
receiving_thread fileflag i sock r (some leaving) v = quit i (thread_exiting_info v.ctrl) v
receiving_thread fileflag i sock r (some ended) v = v
receiving_thread fileflag i sock r none v = v

-- One step of the loop of `main`; `at_end` is `peek() == EOF`. The report on the file changes nothing.
unfoldable pub listening : ℕ → ℤ → Bool → Bool → Receiver → Receiver
unfolding thread_creating_info
listening thread_id err_id at_end false v =
    if ltb (length v.ctrl.threadqueue) v.ctrl.max_thread
    then record v { creating = true }
    else record v { good = if at_end then false else v.good }
listening thread_id err_id at_end true v = record v {
  ctrl = thread_creating_info thread_id err_id v.ctrl;
  jobs = if err_id == pos 0 then v.jobs ++ accepting ∷ [] else v.jobs;
  creating = false;
}

pub data Move : Type 0 where
  main_move : ℕ → ℤ → Bool → Move
  thread_move : ℕ → ℤ → Recv → Move

abbrev pub while_running : Status → Receiver → Receiver → Receiver
while_running running v w = w
while_running exited v w = v
while_running undefined v w = v

unfoldable pub move : Bool → Move → Receiver → Receiver
unfolding receiving_thread listening
move fileflag (main_move thread_id err_id at_end) v =
    while_running v.status v (listening thread_id err_id at_end v.creating v)
move fileflag (thread_move i sock r) v =
    while_running v.status v (receiving_thread fileflag i sock r (get_elem? v.jobs i) v)

unfoldable pub moves : Bool → List Move → Receiver → Receiver
moves fileflag [] v = v
moves fileflag (m ∷ ms) v = moves fileflag ms (move fileflag m v)
