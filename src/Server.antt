-- ===== src/Server.antt =====
-- socket/netapi/server.cpp: the class `server`, its accepting thread and one thread for each
-- connection. An event is one step of one thread; `accept` and `pthread_create` are answered by the
-- event, and the threads are numbered in the order of their creation.
pub mod Steps
pub mod Keeps
pub mod Safety
pub mod Stays
pub mod Races
pub mod Life
pub mod Phases
pub mod Switch
pub mod Refinement
use learning_directory.Base.{
  ℕ, zero, suc, List, [], ◌∷◌, ◌++◌, Bool, true, false, Option, none, some, back, get_elem?, set,
  if◌then◌else◌, Bytes,
}
use learning_directory.Base.Int.{ℤ}
use learning_directory.Netapi.State.{Net, Outcome, done, blocked, exited, undefined}
use learning_directory.Netapi.Startup.{
  SocketApi, writeaddrinfo, bindsockaddr, listenstartup, construct_netapi,
}
use learning_directory.Netapi.Receive.{handle_msghead}

-- A thread of `msghandlecalling` before and after it has read `recvsock.back()`.
pub data Thread : Type 0 where
  created : Thread
  serving : ℤ → Thread

pub record Server : Type 0 where
  pub net : Net
  pub threads : List Thread

-- `start_msghandle_thread`: `error_id == 0` is `made`.
unfoldable pub start_msghandle_thread : Bool → Server → Server
start_msghandle_thread made v = if made then record v { threads = v.threads ++ created ∷ [] } else v

-- `server_handleaccept`, where `accept` returns `new_sock`. The error is only printed.
unfoldable pub server_handleaccept : ℤ → Bool → Server → Server
unfolding start_msghandle_thread
server_handleaccept new_sock made v =
    start_msghandle_thread made
      (record v { net = record v.net { recvsock = v.net.recvsock ++ new_sock ∷ [] } })

-- The second assignment to `flag` is the one that stays.
unfoldable pub server_startup : SocketApi → ℤ → Bool
unfolding bindsockaddr listenstartup
server_startup K localsock =
    let flag = bindsockaddr K localsock (writeaddrinfo K) in
    let flag = listenstartup K localsock 10 in flag

-- `error_id == 0` is `made`: whether the accepting thread runs.
unfoldable pub server_start_accept_thread : Bool → Bool
server_start_accept_thread made = if made then true else false

-- The constructor: whether the accepting thread runs, and the object.
abbrev pub started : Bool → Net → SocketApi → Bool × Server
started made n K = (
  if server_startup K n.localsock then server_start_accept_thread made else false,
  record { net = n; threads = [] },
)

unfoldable pub construct_server : SocketApi → Bool → Bytes → Net → Bool × Server
unfolding server_startup server_start_accept_thread construct_netapi
construct_server K made name n = started made (construct_netapi K name n) K

pub data Event : Type 0 where
  accepts : ℤ → Bool → Event  -- the accepting thread
  starts : ℕ → Event  -- a new thread reads `recvsock.back()`
  handles : ℕ → Event  -- a serving thread makes one call of `handle_msghead`

-- `none`: the event cannot happen, the call is still waiting, or the process has ended.
abbrev pub start_thread : ℕ → Server → Option Thread → Option ℤ → Option Server
start_thread i v (some created) (some s) = some (record v { threads = set v.threads i (serving s) })
start_thread i v (some created) none = none
start_thread i v (some (serving s)) k = none
start_thread i v none k = none

abbrev pub after_call : Server → Outcome (Unit {0}) × Net → Option Server
after_call v (done u, n) = some (record v { net = n })
after_call v (blocked, n) = none
after_call v (exited, n) = none
after_call v (undefined, n) = none

abbrev pub run_thread : Server → Option Thread → Option Server
run_thread v (some (serving s)) = after_call v (handle_msghead s v.net)
run_thread v (some created) = none
run_thread v none = none

unfoldable pub step : Event → Server → Option Server
unfolding server_handleaccept
step (accepts new_sock made) v = some (server_handleaccept new_sock made v)
step (starts i) v = start_thread i v (get_elem? v.threads i) (back v.net.recvsock)
step (handles i) v = run_thread v (get_elem? v.threads i)

abbrev pub run_rest : (Server → Option Server) → Option Server → Option Server
run_rest k none = none
run_rest k (some v) = k v

unfoldable pub run : List Event → Server → Option Server
run [] v = some v
run (e ∷ es) v = run_rest (run es) (step e v)

-- A run of a server whose accepting thread runs or not.
abbrev pub live_step : Bool → Event → Server → Option Server
live_step accepting (accepts new_sock made) v =
    if accepting then step (accepts new_sock made) v else none
live_step accepting (starts i) v = step (starts i) v
live_step accepting (handles i) v = step (handles i) v

unfoldable pub live : List Event → Bool × Server → Option Server
live [] (accepting, v) = some v
live (e ∷ es) (accepting, v) = run_rest (λ u. live es (accepting, u)) (live_step accepting e v)
