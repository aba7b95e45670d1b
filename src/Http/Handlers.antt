-- ===== src/Http/Handlers.antt =====
-- The three branches of the event loop in `main` of httpserver/main.cpp, and `check_time_out`.
use learning_directory.Base.{
  ℕ, ◌+◌, ◌%◌, ◌^◌, List, [], ◌∷◌, ◌++◌, Bool, true, Option, none, some, Bytes, codes,
  if◌then◌else◌, ◌==◌, nat_eq, leb, ◌||◌, buffer, length,
}
use learning_directory.Base.Int.{ℤ, pos, minus_one, ltb_ℤ, int_eq}
use learning_directory.Base.Assoc.{lookup, assign}
use learning_directory.Http.State.{
  ClientT, Call, accepted, watch_input, watch_output, unwatch, shut, closed, wrote, Web, Ending,
  returned, deadlocked, crashed, waiting,
}
use learning_directory.Http.Transfer.{Written, writen, Read, Received, readn, set_fl, int2str}

-- An event, with what the kernel answers to the calls that the branch makes.
pub record Accept : Type 0 where
  pub conn_sock : ℤ
  pub ip : Bytes
  pub getfl : ℤ
  pub setfl : ℤ
  pub added : ℤ  -- the result of `epoll_ctl`
  pub now : ℕ

abbrev pub refused : Web → List Call → Ending × Web
refused w made = (returned, record w { locked = true; calls = made ++ w.calls })

abbrev pub new_client : Accept → ClientT
new_client a = record {
  fd = a.conn_sock;
  ip = a.ip;
  read_buf = [];
  write_buf = [];
  last_alive_time = a.now;
}

-- The branch for the listening socket. Its three early exits leave the mutex locked.
unfoldable pub handle_accept : Accept → Web → Ending × Web
handle_accept a w =
    if w.locked
    then (deadlocked, w)
    else if a.conn_sock == minus_one
    then refused w []
    else if ltb_ℤ (set_fl a.getfl a.setfl) (pos 0)
    then refused w (closed a.conn_sock ∷ accepted a.conn_sock ∷ [])
    else if a.added == minus_one
    then refused w (closed a.conn_sock ∷ accepted a.conn_sock ∷ [])
    else (
      returned,
      record w {
        fds = assign a.conn_sock (some (new_client a)) w.fds;
        countacp = (w.countacp + 1) % 2 ^ 64;
        calls = watch_input a.conn_sock ∷ accepted a.conn_sock ∷ w.calls;
      },
    )

-- `BUFSIZE` bytes: what was read, and zeros.
unfoldable pub whole_buffer : Bytes → Bytes
whole_buffer bs = buffer 8192 bs

-- `fds[fd]->...`, where `fds[fd]` may be missing or NULL.
abbrev pub with_client : Option (Option ClientT) → Web → (ClientT → Ending × Web) → Ending × Web
with_client (some (some c)) w k = k c
with_client (some none) w k = (crashed, w)
with_client none w k = (crashed, w)

-- The branch for EPOLLIN after the data has been appended: `n >= 0`, or an error, of which `again`
-- says whether `errno` is EAGAIN. The error path follows `fds[fd]` after it has set it to NULL.
abbrev pub after_append : ℤ → Bool → ℕ → ℤ → ClientT → Web → Ending × Web
after_append fd again now n c w =
    if ltb_ℤ n (pos 0)
    then if again then (returned, record w { fds = assign fd (some c) w.fds; locked = true }) else (
      crashed,
      record w { fds = assign fd none w.fds; calls = closed c.fd ∷ shut c.fd ∷ w.calls },
    )
    else (
      returned,
      record w {
        fds = assign fd (some (record c { last_alive_time = now })) w.fds;
        calls = watch_output fd ∷ w.calls;
      },
    )

abbrev pub after_read : ℤ → Bool → ℕ → Option Received → Web → Ending × Web
after_read fd again now none w = (waiting, w)
after_read fd again now (some r) w =
    if w.locked
    then (deadlocked, w)
    else with_client (lookup fd w.fds) w λ c.
      after_append fd again now r.count
        (record c { read_buf = c.read_buf ++ whole_buffer r.filled }) w

unfoldable pub handle_readable : ℤ → List Read → Bool → ℕ → Web → Ending × Web
handle_readable fd rs again now w = after_read fd again now (readn 8192 rs) w

abbrev pub page : Bytes
page = codes "<html><head><title>hello world</title></head><body>hello world!!!</body></html>"

-- The bytes of `write_buf`.
unfoldable pub response : Bytes → Bytes
unfolding int2str
response wb =
    codes "HTTP/1.1 200 Ok\r\n"
    ++ (codes "Content-Type: text/html\r\n"
        ++ (codes "Content-Length: " ++ (int2str (pos (length wb)) ++ (codes "\r\n\r\n" ++ wb))))

-- The branch for EPOLLOUT after `writen`.
abbrev pub after_write : ℤ → ℕ → Bytes → ClientT → Option Written → Web → Ending × Web
after_write fd now buf c none w = (waiting, w)
after_write fd now buf c (some r) w =
    if r.value == pos (length buf) || ltb_ℤ r.value (pos 0)
    then (
      returned,
      record w {
        fds = assign fd none w.fds;
        calls = closed fd ∷ shut fd ∷ unwatch fd ∷ wrote fd r.sent ∷ w.calls;
      },
    )
    else (
      returned,
      record w {
        fds = assign fd (some (record c { write_buf = buf; last_alive_time = now })) w.fds;
        calls = wrote fd r.sent ∷ w.calls;
      },
    )

unfoldable pub handle_writable : ℤ → List ℤ → ℕ → Web → Ending × Web
handle_writable fd rs now w =
    if w.locked
    then (deadlocked, w)
    else with_client (lookup fd w.fds) w
        λ c. after_write fd now (response page) c (writen (response page) rs) w

-- `check_time_out` at the entry `k`, at the time `tm`: the test, which takes no lock.
abbrev pub note_old : ℤ → ℕ → Option (Option ClientT) → Web → Ending × Web
note_old k tm (some (some c)) w =
    if leb (c.last_alive_time + 30) tm
    then (returned, record w { expiring = some k })
    else (returned, w)
note_old k tm (some none) w = (returned, w)
note_old k tm none w = (returned, w)

abbrev pub unless_expiring : Option ℤ → Web → Ending × Web → Ending × Web
unless_expiring none w r = r
unless_expiring (some k) w r = (returned, w)

-- The thread makes no other test before it has removed the entry that it found too old.
unfoldable pub check_timeout : ℤ → ℕ → Web → Ending × Web
check_timeout k tm w = unless_expiring w.expiring w (note_old k tm (lookup k w.fds) w)

-- What it does with an entry that passed the test, under the lock.
abbrev pub remove_client : ℤ → Web → Ending × Web
remove_client k w =
    if w.locked
    then (deadlocked, w)
    else with_client (lookup k w.fds) w λ c. (
      returned,
      record w {
        fds = assign k none w.fds;
        expiring = none;
        calls = closed c.fd ∷ shut c.fd ∷ unwatch c.fd ∷ w.calls;
      },
    )

abbrev pub remove_noted : Option ℤ → Web → Ending × Web
remove_noted none w = (returned, w)
remove_noted (some k) w = remove_client k w

unfoldable pub expire : Web → Ending × Web
expire w = remove_noted w.expiring w

pub data WebEvent : Type 0 where
  on_accept : Accept → WebEvent
  on_readable : ℤ → List Read → Bool → ℕ → WebEvent
  on_writable : ℤ → List ℤ → ℕ → WebEvent
  on_check : ℤ → ℕ → WebEvent
  on_expire : WebEvent

unfoldable pub web_step : WebEvent → Web → Ending × Web
web_step (on_accept a) w = handle_accept a w
web_step (on_readable fd rs again now) w = handle_readable fd rs again now w
web_step (on_writable fd rs now) w = handle_writable fd rs now w
web_step (on_check k tm) w = check_timeout k tm w
web_step on_expire w = expire w

abbrev pub run_on : (Web → Ending × Web) → Ending × Web → Ending × Web
run_on k (returned, w) = k w
run_on k (deadlocked, w) = (deadlocked, w)
run_on k (crashed, w) = (crashed, w)
run_on k (waiting, w) = (waiting, w)

unfoldable pub web_run : List WebEvent → Web → Ending × Web
web_run [] w = (returned, w)
web_run (e ∷ es) w = run_on (web_run es) (web_step e w)
