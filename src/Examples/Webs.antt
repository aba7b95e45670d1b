-- ===== src/Examples/Webs.antt =====
-- Runs of httpserver/main.cpp.
use mathlib.Core.Path.{subst}
use mathlib.Core.Option.{some-injective}
use learning_directory.Base.{
  ℕ, zero, suc, ◌≤◌, arith, ◌≡◌, refl, List, [], ◌∷◌, true, false, none, some, codes, length, inl,
  All,
}
use learning_directory.Base.Int.{ℤ, pos, minus_one, int_eq}
use learning_directory.Base.Decimal.{decimal, emit}
use learning_directory.Base.Assoc.{lookup, assign}
use learning_directory.Http.State.{
  ClientT, closed, shut, unwatch, wrote, Web, returned, deadlocked, crashed,
}
use learning_directory.Http.Transfer.{writen, writen_loop, int2str, set_fl, init_servsock, failed}
use learning_directory.Http.Handlers.{
  Accept, handle_accept, handle_readable, handle_writable, response, page, on_accept, on_readable,
  on_writable, on_check, on_expire, web_run, WebEvent, web_step, check_timeout, expire,
}
use learning_directory.Http.Balance.{IsBalanced}
use learning_directory.Http.Descriptors.{FreshRun}
use learning_directory.Http.Protocol.{Refines}
use learning_directory.Http.Refinement.{web_run-Refines}
use learning_directory.Http.Locking.{accept_deadlocks, reading}
use learning_directory.Http.Serving.{handle_writable_whole, handle_readable_any, replying}
use learning_directory.Http.Startup.{
  Answers, Ready, Happening, ready, checks, expires, poll_failed, start_main, dispatch, events,
  first_web, http_main, Succeeded, http_main_life,
}
use learning_directory.Http.Writing.{writen_total}
use learning_directory.Http.Timeouts.{expire_race}

abbrev visitor : ClientT
visitor = record {
  fd = pos 7;
  ip = codes "10.0.0.9";
  read_buf = [];
  write_buf = [];
  last_alive_time = 100;
}

abbrev no_clients : Web
no_clients = record { fds = []; locked = false; countacp = 0; expiring = none; calls = [] }

abbrev one_client : Web
one_client = record no_clients { fds = (pos 7, some visitor) ∷ [] }

-- An accepted connection, and a refused one.
abbrev arrival : Accept
arrival = record {
  conn_sock = pos 7;
  ip = codes "10.0.0.9";
  getfl = pos 2;
  setfl = pos 0;
  added = pos 0;
  now = 100;
}

abbrev no_arrival : Accept
no_arrival = record arrival { conn_sock = minus_one }

-- The answers of a kernel that takes ten bytes each time.
abbrev tens : ℕ → List ℤ
tens zero = []
tens (suc n) = pos 10 ∷ tens n

tens-take : (n : ℕ) → All (λ r. (k : ℕ) × (r ≡ pos (suc k))) (tens n)
tens-take zero = tt
tens-take (suc n) = ((9, refl), tens-take n)

there : lookup (pos 7) one_client.fds ≡ some (some visitor)
unfolding lookup
there = refl

no_clients-IsBalanced : IsBalanced no_clients
unfolding lookup
no_clients-IsBalanced = record { balance = λ k. refl; knows = λ k. tt }

-- A connection is served, and its descriptor used again.
abbrev served_twice : List WebEvent
served_twice =
    on_accept arrival
    ∷ on_writable (pos 7) (tens 20) 101
    ∷ on_accept arrival
    ∷ on_check (pos 7) 130
    ∷ on_expire
    ∷ []

served_twice-FreshRun : FreshRun served_twice no_clients
unfolding web_step handle_accept handle_writable check_timeout expire writen writen_loop response
    int2str decimal emit set_fl lookup assign
served_twice-FreshRun = (refl, (tt, (refl, (tt, (tt, tt)))))

accept_deadlocks_example :
    web_run (on_accept no_arrival ∷ on_readable (pos 7) (failed ∷ []) false 101 ∷ []) one_client
    ≡ (deadlocked, (handle_accept no_arrival one_client).1)
accept_deadlocks_example =
    accept_deadlocks no_arrival (on_readable (pos 7) (failed ∷ []) false 101) [] one_client refl
      (inl refl) (reading (pos 7) failed [] false 101)

handle_readable_any_example :
    handle_readable (pos 7) (failed ∷ []) false 101 one_client
    ≡ (returned, replying (pos 7) 101 visitor one_client there refl [])
handle_readable_any_example =
    handle_readable_any (pos 7) 101 visitor one_client there refl failed [] false

enough : length (response page) ≤ length (tens 200)
unfolding response int2str decimal
enough = omega arith

writen_total_example :
    writen (response page) (tens 200)
    ≡ some (record { sent = response page; value = pos (length (response page)) })
writen_total_example = writen_total (response page) (tens 200) (tens-take 200) enough

handle_writable_whole_example : handle_writable (pos 7) (tens 200) 101 one_client ≡ (
  returned,
  record one_client {
    fds = assign (pos 7) none one_client.fds;
    calls = closed (pos 7) ∷ shut (pos 7) ∷ unwatch (pos 7) ∷ wrote (pos 7) (response page) ∷ [];
  },
)
handle_writable_whole_example =
    handle_writable_whole (pos 7) 101 visitor one_client there refl (tens 200) (tens-take 200)
      enough

expire_race_example :
    (web_run
      (on_check (pos 7) 130 ∷ on_writable (pos 7) (tens 200) 131 ∷ on_expire ∷ [])
      one_client).0
    ≡ crashed
expire_race_example =
    expire_race (pos 7) 130 visitor one_client there refl refl (tens 200) 131
      (record { sent = response page; value = pos (length (response page)) }) (omega arith)
      (writen_total (response page) (tens 200) (tens-take 200) enough) refl

no_clients-Refines : Refines no_clients
unfolding lookup
no_clients-Refines = record { phases = λ k. refl }

web_run-Refines_example : Refines (web_run served_twice no_clients).1
web_run-Refines_example =
    web_run-Refines served_twice no_clients served_twice-FreshRun no_clients-IsBalanced
      no_clients-Refines

-- The same, from the start of `main`, with the listening socket 4.
abbrev answers : Answers
answers = record {
  setrlimit = pos 0;
  epollfd = pos 3;
  err = pos 0;
  socket = pos 4;
  bound = pos 0;
  listening = pos 0;
  getfl = pos 2;
  setfl = pos 0;
  added = pos 0;
}

abbrev arriving : Ready
arriving = record {
  fd = pos 4;
  epollin = true;
  epollout = false;
  accept = arrival;
  reads = [];
  again = false;
  writes = [];
  now = 100;
}

abbrev writing : Ready
writing = record arriving {
  fd = pos 7;
  epollin = false;
  epollout = true;
  writes = tens 20;
  now = 101;
}

abbrev happenings : List Happening
happenings =
    ready arriving
    ∷ ready writing
    ∷ ready arriving
    ∷ checks (pos 7) 130
    ∷ expires
    ∷ poll_failed
    ∷ []

started_fresh : (s : ℤ) → start_main answers ≡ some s → FreshRun (events s happenings) first_web
unfolding start_main init_servsock set_fl events dispatch
started_fresh s e =
    subst (λ s. FreshRun (events s happenings) first_web) (some-injective _ _ e)
      served_twice-FreshRun

happened : http_main answers happenings ≡ some (web_run served_twice no_clients)
unfolding http_main start_main init_servsock set_fl events dispatch
happened = refl

http_main_life_example :
    Succeeded answers
    × IsBalanced (web_run served_twice no_clients).1
    × Refines (web_run served_twice no_clients).1
http_main_life_example =
    http_main_life answers happenings started_fresh (web_run served_twice no_clients).0
      (web_run served_twice no_clients).1 happened
