-- ===== src/Http/Startup.antt =====
-- `main` of httpserver/main.cpp from its start on: the calls before the loop, and the loop with the
-- branch that each event of `epoll_wait` takes.
use mathlib.Core.Path.{subst}
use mathlib.Core.Option.{some-injective}
use learning_directory.Base.{
  ℕ, ◌≡◌, refl, arith, List, [], ◌∷◌, ◌++◌, Bool, true, false, Option, none, some, if◌then◌else◌,
  ◌==◌,
}
use learning_directory.Base.Int.{ℤ, pos, minus_one, ltb_ℤ, int_eq}
use learning_directory.Base.Assoc.{lookup}
use learning_directory.Http.State.{Web, Ending}
use learning_directory.Http.Transfer.{Read, set_fl, init_servsock}
use learning_directory.Http.Handlers.{
  Accept, WebEvent, on_accept, on_readable, on_writable, on_check, on_expire, web_run,
}
use learning_directory.Http.Balance.{IsBalanced}
use learning_directory.Http.Descriptors.{FreshRun, web_run-IsBalanced}
use learning_directory.Http.Protocol.{Refines}
use learning_directory.Http.Refinement.{web_run-Refines}

-- What the calls before the loop return, in their order.
pub record Answers : Type 0 where
  pub setrlimit : ℤ
  pub epollfd : ℤ
  pub err : ℤ  -- `pthread_create`
  pub socket : ℤ
  pub bound : ℤ
  pub listening : ℤ
  pub getfl : ℤ
  pub setfl : ℤ
  pub added : ℤ  -- `epoll_ctl`

-- The listening socket; `none`: the process has ended by `exit(1)`.
unfoldable pub start_main : Answers → Option ℤ
unfolding init_servsock set_fl
start_main a =
    let listen_sock = init_servsock a.socket a.bound a.listening in
    if ltb_ℤ a.setrlimit (pos 0)
    then none
    else if a.epollfd == minus_one
    then none
    else if a.err == pos 0
    then (if ltb_ℤ listen_sock (pos 0)
        then none
        else if ltb_ℤ (set_fl a.getfl a.setfl) (pos 0)
        then none
        else if a.added == minus_one
        then none
        else some listen_sock)
    else none

-- An event of `epoll_wait`, with what the kernel answers in the branch that it takes.
pub record Ready : Type 0 where
  pub fd : ℤ
  pub epollin : Bool
  pub epollout : Bool
  pub accept : Accept
  pub reads : List Read
  pub again : Bool
  pub writes : List ℤ
  pub now : ℕ

unfoldable pub dispatch : ℤ → Ready → List WebEvent
dispatch listen_sock r =
    if r.fd == listen_sock
    then on_accept r.accept ∷ []
    else if r.epollin
    then on_readable r.fd r.reads r.again r.now ∷ []
    else if r.epollout
    then on_writable r.fd r.writes r.now ∷ []
    else []

-- What happens after the start: an event, a failed `epoll_wait`, or a step of the other thread.
pub data Happening : Type 0 where
  ready : Ready → Happening
  poll_failed : Happening
  checks : ℤ → ℕ → Happening
  expires : Happening

-- A failed `epoll_wait` ends the process by `exit(1)`.
unfoldable pub events : ℤ → List Happening → List WebEvent
unfolding dispatch
events listen_sock [] = []
events listen_sock (ready r ∷ hs) = dispatch listen_sock r ++ events listen_sock hs
events listen_sock (poll_failed ∷ hs) = []
events listen_sock (checks k tm ∷ hs) = on_check k tm ∷ events listen_sock hs
events listen_sock (expires ∷ hs) = on_expire ∷ events listen_sock hs

abbrev pub first_web : Web
first_web = record { fds = []; locked = false; countacp = 0; expiring = none; calls = [] }

abbrev pub serve : List Happening → Option ℤ → Option (Ending × Web)
serve hs none = none
serve hs (some listen_sock) = some (web_run (events listen_sock hs) first_web)

unfoldable pub http_main : Answers → List Happening → Option (Ending × Web)
unfolding start_main events
http_main a hs = serve hs (start_main a)

first_web-IsBalanced : IsBalanced first_web
unfolding lookup
first_web-IsBalanced = record { balance = λ k. refl; knows = λ k. tt }

first_web-Refines : Refines first_web
unfolding lookup
first_web-Refines = record { phases = λ k. refl }

-- The calls succeed up to the loop.
abbrev pub Succeeded : Answers → Type 0
Succeeded a =
    (ltb_ℤ a.setrlimit (pos 0) ≡ false)
    × ((a.epollfd == minus_one) ≡ false)
    × ((a.err == pos 0) ≡ true)
    × (ltb_ℤ a.socket (pos 0) ≡ false)
    × (ltb_ℤ a.bound (pos 0) ≡ false)
    × ((a.listening == pos 0) ≡ true)
    × (ltb_ℤ a.getfl (pos 0) ≡ false)
    × (ltb_ℤ a.setfl (pos 0) ≡ false)
    × ((a.added == minus_one) ≡ false)

started : (a : Answers) (s : ℤ) → start_main a ≡ some s → (s ≡ a.socket) × Succeeded a
unfolding start_main init_servsock set_fl
started a s e = ground arith

module _ (a : Answers) (hs : List Happening)
    (fresh : (s : ℤ) → start_main a ≡ some s → FreshRun (events s hs) first_web) where
  served :
      (o : Ending) (w : Web) (l : Option ℤ)
      → start_main a ≡ l
      → serve hs l ≡ some (o, w)
      → Succeeded a × IsBalanced w × Refines w
  served o w none e r = absurd (let h : none ≡ some (o, w) = r in ground arith)
  served o w (some s) e r =
      let f = fresh s e in
      subst (λ (v : Ending × Web). Succeeded a × IsBalanced v.1 × Refines v.1)
        (some-injective _ _ r)
        (
          (started a s e).1,
          web_run-IsBalanced (events s hs) first_web f first_web-IsBalanced,
          web_run-Refines (events s hs) first_web f first_web-IsBalanced first_web-Refines,
        )

  -- `main` from its start on, whatever the calls before the loop return: if it comes to its loop,
  -- all of them but `setsockopt` have succeeded, and after any events of `epoll_wait` and steps of
  -- the thread that looks for timeouts, in which the kernel accepts only descriptors that are
  -- closed, each descriptor has been closed once for each time it was accepted, but for the clients
  -- in `fds`, and the calls on it obey the automaton.
  pub http_main_life :
      (o : Ending) (w : Web) → http_main a hs ≡ some (o, w) → Succeeded a × IsBalanced w × Refines w
  unfolding http_main
  http_main_life o w r = served o w (start_main a) refl r
