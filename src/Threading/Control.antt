-- ===== src/Threading/Control.antt =====
-- The class `threadingctrl` of api/threading_ctrl.cpp.
use learning_directory.Base.{
  ℕ, ◌+◌, ◌-◌, ◌%◌, ◌^◌, List, [], ◌∷◌, ◌++◌, Bool, not, ◌&&◌, ◌||◌, Option, none, some,
  if◌then◌else◌, ◌==◌, ltb, leb, length,
}
use learning_directory.Base.Int.{ℤ, pos, int_eq}

-- The counters are of 32 bits. `threadqueue` has its front first.
pub record ThreadingCtrl : Type 0 where
  pub threadqueue : List ℕ
  pub msg_amount : ℕ
  pub max_thread : ℕ
  pub file_thread_start_count : ℕ
  pub file_thread_fail_count : ℕ
  pub isfile : Bool

unfoldable pub init : Bool → ThreadingCtrl → ThreadingCtrl
init fileflag c = record c {
  msg_amount = 100;
  file_thread_start_count = 0;
  file_thread_fail_count = 0;
  isfile = fileflag;
  max_thread = if fileflag then 1 else 10;
}

unfoldable pub thread_creating_info : ℕ → ℤ → ThreadingCtrl → ThreadingCtrl
thread_creating_info th_id err_id c =
    if err_id == pos 0
    then if c.isfile
      then record c {
        threadqueue = c.threadqueue ++ th_id ∷ [];
        file_thread_start_count = (c.file_thread_start_count + 1) % 2 ^ 32;
      }
      else record c { threadqueue = c.threadqueue ++ th_id ∷ [] }
    else c

-- `none`: `pop` of an empty queue, which is undefined.
abbrev pub pop : List ℕ → ThreadingCtrl → Option ThreadingCtrl
pop [] c = none
pop (front ∷ q) c = some (record c { threadqueue = q })

unfoldable pub thread_exiting_info : ThreadingCtrl → Option ThreadingCtrl
thread_exiting_info c = pop c.threadqueue c

-- `msg_count + threadqueue.size()` is of 64 bits, the difference of the counters of 32.
unfoldable pub thread_creating_permit : ℕ → ThreadingCtrl → Bool
thread_creating_permit msg_count c =
    if not c.isfile
    then ltb ((msg_count + length c.threadqueue) % 2 ^ 64) c.msg_amount
      && ltb (length c.threadqueue) c.max_thread
    else ltb c.file_thread_start_count c.max_thread
      || (leb c.max_thread c.file_thread_start_count
          && ltb ((c.file_thread_start_count + 2 ^ 32 - c.file_thread_fail_count) % 2 ^ 32)
              c.max_thread)
