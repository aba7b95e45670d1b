-- ===== src/Server/Life.antt =====
-- A server of socket/netapi/server.cpp from its constructor on.
use mathlib.Core.Path.{subst, fun_ext}
use mathlib.Core.Option.{some-injective}
use mathlib.Core.Bool.{true≢false}
use learning_directory.Base.{
  ◌≡◌, refl, sym, ap, ◌∙◌, List, [], ◌∷◌, none, some, Bool, true, false, Bytes, ◌⊎◌, inl, inr,
  if◌then◌else◌, ◌==◌,
}
use learning_directory.Base.Int.{minus_one, int_eq}
use learning_directory.Netapi.State.{Net}
use learning_directory.Netapi.Startup.{SocketApi, listenstartup, built, construct_netapi_lem}
use learning_directory.Server.{
  Server, Event, accepts, starts, handles, step, run, run_rest, live, construct_server,
  server_startup, started, server_start_accept_thread,
}
use learning_directory.Server.Safety.{IsSafe, run-IsSafe, run-recvsock}
use learning_directory.Server.Steps.{none≢some, accepted_by}

live_true : (es : List Event) (v : Server) → live es (true, v) ≡ run es v
unfolding live run
live_true [] v = refl
live_true (accepts s m ∷ es) v =
    ap (λ k. run_rest k (step (accepts s m) v)) (fun_ext (live_true es))
live_true (starts i ∷ es) v = ap (λ k. run_rest k (step (starts i) v)) (fun_ext (live_true es))
live_true (handles i ∷ es) v = ap (λ k. run_rest k (step (handles i) v)) (fun_ext (live_true es))

-- Without the accepting thread there is no thread at all, and nothing happens.
live_false :
    (e : Event) (es : List Event) (n : Net)
    → live (e ∷ es) (false, record { net = n; threads = [] }) ≡ none
unfolding live step
live_false (accepts s m) es n = refl
live_false (starts i) es n = refl
live_false (handles i) es n = refl

both :
    (b made : Bool)
    → (if (if b then false else true) then server_start_accept_thread made else false)
      ≡ (if b then false else made)
unfolding server_start_accept_thread
both true true = refl
both true false = refl
both false true = refl
both false false = refl

accepting_true : (b made : Bool) → (if b then false else made) ≡ true → (b ≡ false) × (made ≡ true)
accepting_true true made e = absurd (true≢false (sym e))
accepting_true false made e = (refl, e)

accepting_false :
    (b made : Bool) → (if b then false else made) ≡ false → (b ≡ true) ⊎ (made ≡ false)
accepting_false true made e = inl refl
accepting_false false made e = inr e

module _ (K : SocketApi) (name : Bytes) (n : Net) where
  abbrev pub fresh : Server
  fresh = record { net = built K name n; threads = [] }

  abbrev accepting : Bool → Bool
  accepting made = if K.listen K.socket 10 == minus_one then false else made

  started_lem :
      (made : Bool) (m : Net)
      → m.localsock ≡ K.socket
      → started made m K ≡ (accepting made, record { net = m; threads = [] })
  unfolding server_startup listenstartup
  started_lem made m e =
      ap
        (λ s. (
          if (if K.listen s 10 == minus_one then false else true)
              then server_start_accept_thread made
              else false,
          record { net = m; threads = [] },
        ))
        e
      ∙ ap (λ b. (b, record { net = m; threads = [] }))
          (both (K.listen K.socket 10 == minus_one) made)

  -- Only `listen` and `pthread_create` decide whether the accepting thread runs.
  constructed : (made : Bool) → construct_server K made name n ≡ (accepting made, fresh)
  unfolding construct_server
  constructed made =
      ap (λ m. started made m K) (construct_netapi_lem K name n)
      ∙ started_lem made (built K name n) refl

  pub live_started :
      (es : List Event)
      → (K.listen K.socket 10 == minus_one) ≡ false
      → live es (construct_server K true name n) ≡ run es fresh
  live_started es ok =
      ap (live es) (constructed true)
      ∙ (λ i. live es (if ok i then false else true, fresh))
      ∙ live_true es fresh

  fresh-IsSafe : IsSafe fresh
  fresh-IsSafe = record { table = tt; served = tt }

  life :
      (b : Bool) (es : List Event) (w : Server)
      → live es (b, fresh) ≡ some w
      → IsSafe w
        × (w.net.recvsock ≡ accepted_by es)
        × (((b ≡ true) × (run es fresh ≡ some w)) ⊎ ((b ≡ false) × (es ≡ [])))
  unfolding live
  life true es w e =
      let r = sym (live_true es fresh) ∙ e in
      (run-IsSafe es fresh w fresh-IsSafe r, run-recvsock es fresh w r, inl (refl, r))
  life false [] w e = (
    subst IsSafe (some-injective _ _ e) fresh-IsSafe,
    ap (λ u. u.net.recvsock) (sym (some-injective _ _ e)),
    inr (refl, refl),
  )
  life false (x ∷ es) w e = absurd (none≢some w (sym (live_false x es (built K name n)) ∙ e))

  -- A server from its constructor on, whatever `socket` and `bind` return: in every state that a
  -- run leads to, the queue holds what `accept` has returned in the run, in order, the -1 of a
  -- failed `accept` included, and the table and the threads name members of that queue alone.
  -- Either `listen` and `pthread_create` have succeeded, and the run is one of the accepting thread
  -- and the threads that it starts, or no event has happened at all.
  pub server_life :
      (made : Bool) (es : List Event) (w : Server)
      → live es (construct_server K made name n) ≡ some w
      → IsSafe w
        × (w.net.recvsock ≡ accepted_by es)
        × ((((K.listen K.socket 10 == minus_one) ≡ false) × (made ≡ true) × (run es fresh ≡ some w))
            ⊎ ((((K.listen K.socket 10 == minus_one) ≡ true) ⊎ (made ≡ false)) × (es ≡ [])))
  server_life made es w e =
      let l = life (accepting made) es w (sym (ap (live es) (constructed made)) ∙ e) in
      (
        l.0,
        l.1,
        elim l.2 [
          | inl (on, r) ↦
              let a = accepting_true (K.listen K.socket 10 == minus_one) made on in
              inl (a.0, a.1, r)
          | inr (off, r) ↦ inr (accepting_false (K.listen K.socket 10 == minus_one) made off, r)
        ],
      )
