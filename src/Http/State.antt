-- ===== src/Http/State.antt =====
-- The state of httpserver/main.cpp. `calls` lists the system calls that took effect, newest first.
-- The members `stat` and `is_timeout` of a client are left out: nothing reads them.
use learning_directory.Base.{ℕ, List, Bool, Option, Bytes}
use learning_directory.Base.Int.{ℤ}

-- `client_t`.
pub record ClientT : Type 0 where
  pub fd : ℤ
  pub ip : Bytes
  pub read_buf : Bytes
  pub write_buf : Bytes
  pub last_alive_time : ℕ

pub data Call : Type 0 where
  accepted : ℤ → Call
  watch_input : ℤ → Call  -- EPOLL_CTL_ADD with EPOLLIN
  watch_output : ℤ → Call  -- EPOLL_CTL_MOD with EPOLLOUT
  unwatch : ℤ → Call  -- EPOLL_CTL_DEL
  shut : ℤ → Call
  closed : ℤ → Call
  wrote : ℤ → Bytes → Call

-- `fds` maps a descriptor to a client or to NULL; `locked` tells whether an event of the main thread
-- has ended with `fds_mutex` locked; `expiring` is the entry whose client the timeout thread has
-- found too old and has not yet removed.
pub record Web : Type 0 where
  pub fds : List (ℤ × Option ClientT)
  pub locked : Bool
  pub countacp : ℕ
  pub expiring : Option ℤ
  pub calls : List Call

-- `deadlocked`: the thread waits for a lock that it holds itself, or that is never released.
-- `crashed`: the code followed a NULL pointer. `waiting`: a call of the kernel has not answered.
pub data Ending : Type 0 where
  returned : Ending
  deadlocked : Ending
  crashed : Ending
  waiting : Ending
