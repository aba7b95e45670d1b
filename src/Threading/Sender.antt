-- ===== src/Threading/Sender.antt =====
-- socket/sdr/my_sdr.cpp: `main`, after the connection has been made, and the threads of
-- `sending_thread`. `fileflag` stands for the macro FILEFLAG. A turn is one step of one thread, with
-- what `pthread_create` or `send` answers in it; the code under `mutex` is one step. A byte
-- of the file is read and sent in one step. The `peek` and the `tellg` that `main` makes on the stream
-- between two reads are left out.
use learning_directory.Base.{
  ℕ, ◌+◌, ◌%◌, ◌^◌, List, [], ◌∷◌, ◌++◌, Bool, true, false, not, Option, none, some, Bytes, codes,
  if◌then◌else◌, ◌==◌, ltb, take, get_elem?, set,
}
use learning_directory.Base.Int.{ℤ, pos, minus_one, int_eq, pos_part}
use learning_directory.Threading.Control.{
  ThreadingCtrl, init, thread_creating_info, thread_exiting_info, thread_creating_permit,
}

-- Where `main` stands: before the test of the loop, before it reads `msg_count` for the call of
-- `thread_creating_permit`, in that call, before `pthread_create`; or the process has ended, by a
-- return, by `exit(-1)`, or by a `pop` of an empty queue.
pub data Main : Type 0 where
  looping : Main
  calling : Main
  asking : ℕ → Main
  creating : Main
  returned : Main
  failed : Main
  undefined : Main

-- Where a thread of `sending_thread` stands: before a `send`, before the count, before `close`, before
-- `thread_exiting_info`, or past it.
pub data Task : Type 0 where
  sending : Task
  reporting : Task
  closing : Task
  leaving : Task
  ended : Task

-- `filecontent` is what the file holds from the read position on; `sent` is what the kernel has
-- taken; `connected` tells whether `localsock` is open.
pub record Sender : Type 0 where
  pub ctrl : ThreadingCtrl
  pub msg_count : ℕ
  pub filefinished : Bool
  pub filecontent : Bytes
  pub connected : Bool
  pub sent : Bytes
  pub main : Main
  pub threads : List Task

unfoldable pub start : Bool → Bytes → Sender
unfolding init
start fileflag content = record {
  ctrl = init fileflag (record {
    threadqueue = [];
    msg_amount = 0;
    max_thread = 0;
    file_thread_start_count = 0;
    file_thread_fail_count = 0;
    isfile = false;
  });
  msg_count = 0;
  filefinished = false;
  filecontent = content;
  connected = true;
  sent = [];
  main = looping;
  threads = [];
}

abbrev pub message : Bytes
message = codes "Hello server!!\0"

abbrev pub send_file : ℕ → ℤ → Bytes → Sender → Sender
send_file i r [] s = record s { filefinished = true; threads = set s.threads i closing }
send_file i r (c ∷ cs) s =
    if r == minus_one
    then record s {
      filecontent = cs;
      ctrl = record s.ctrl {
        file_thread_fail_count = (s.ctrl.file_thread_fail_count + 1) % 2 ^ 32;
      };
      main = failed;
    }
    else record s { filecontent = cs; sent = s.sent ++ take (pos_part r) (c ∷ []) }

abbrev pub send_message : ℕ → ℤ → Sender → Sender
send_message i r s = if r == minus_one then record s { main = failed } else record s {
  sent = s.sent ++ take (pos_part r) message;
  threads = set s.threads i reporting;
}

abbrev pub leave : ℕ → Option ThreadingCtrl → Sender → Sender
leave i none s = record s { main = undefined }
leave i (some c) s = record s { ctrl = c; threads = set s.threads i ended }

-- One step of the thread `i`, which stands where the option says.
unfoldable pub sending_thread : Bool → ℕ → ℤ → Option Task → Sender → Sender
unfolding thread_exiting_info
sending_thread fileflag i r (some sending) s =
    if fileflag then send_file i r s.filecontent s else send_message i r s
sending_thread fileflag i r (some reporting) s = record s {
  msg_count = (s.msg_count + 1) % 2 ^ 32;
  threads = set s.threads i closing;
}
sending_thread fileflag i r (some closing) s = record s {
  connected = false;
  threads = set s.threads i leaving;
}
sending_thread fileflag i r (some leaving) s = leave i (thread_exiting_info s.ctrl) s
sending_thread fileflag i r (some ended) s = s
sending_thread fileflag i r none s = s

abbrev pub loop_test : Bool → Sender → Bool
loop_test true s = not s.filefinished
loop_test false s = ltb s.msg_count 100

-- One step of the loop of `main`, with the results of `pthread_create`.
unfoldable pub main_thread : Bool → ℕ → ℤ → Main → Sender → Sender
unfolding thread_creating_info thread_creating_permit
main_thread fileflag thread_id err_id looping s =
    if loop_test fileflag s then record s { main = calling } else record s { main = returned }
main_thread fileflag thread_id err_id calling s = record s { main = asking s.msg_count }
main_thread fileflag thread_id err_id (asking n) s =
    if thread_creating_permit n s.ctrl
    then record s { main = creating }
    else record s { main = looping }
main_thread fileflag thread_id err_id creating s = record s {
  ctrl = thread_creating_info thread_id err_id s.ctrl;
  threads = if err_id == pos 0 then s.threads ++ sending ∷ [] else s.threads;
  main = looping;
}
main_thread fileflag thread_id err_id returned s = s
main_thread fileflag thread_id err_id failed s = s
main_thread fileflag thread_id err_id undefined s = s

pub data Turn : Type 0 where
  main_turn : ℕ → ℤ → Turn
  thread_turn : ℕ → ℤ → Turn

abbrev pub over : Main → Bool
over looping = false
over calling = false
over (asking n) = false
over creating = false
over returned = true
over failed = true
over undefined = true

-- Nothing runs once the process has ended.
unfoldable pub turn : Bool → Turn → Sender → Sender
unfolding sending_thread main_thread
turn fileflag (main_turn thread_id err_id) s = main_thread fileflag thread_id err_id s.main s
turn fileflag (thread_turn i r) s =
    if over s.main then s else sending_thread fileflag i r (get_elem? s.threads i) s

unfoldable pub turns : Bool → List Turn → Sender → Sender
turns fileflag [] s = s
turns fileflag (t ∷ ts) s = turns fileflag ts (turn fileflag t s)
