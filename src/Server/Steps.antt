-- ===== src/Server/Steps.antt =====
-- The events of socket/netapi/server.cpp that happen, and what they keep.
use mathlib.Core.Path.{subst}
use mathlib.Core.Option.{some-injective}
use learning_directory.Base.{
  ℕ, ◌≡◌, ◌≢◌, refl, List, [], ◌∷◌, Option, none, some, Bool, back, get_elem?, set, arith,
}
use learning_directory.Base.Int.{ℤ}
use learning_directory.Netapi.State.{Net, Outcome, done, blocked, exited, undefined}
use learning_directory.Netapi.Receive.{handle_msghead}
use learning_directory.Server.{
  Server, Thread, created, serving, Event, accepts, starts, handles, server_handleaccept,
  start_thread, after_call, run_thread, step, run, run_rest,
}

pub none≢some : (w : Server) → none ≢ some w
none≢some w e = absurd (let h : none ≡ some w = e in ground arith)

-- What holds after each of the three events, where it happens.
module _ (P : Event → Server → Type 0) (v : Server)
    (after_accept : (new : ℤ) (made : Bool) → P (accepts new made) (server_handleaccept new made v))
    (after_start : (i : ℕ) (s : ℤ)
      → get_elem? v.threads i ≡ some created
      → back v.net.recvsock ≡ some s
      → P (starts i) (record v { threads = set v.threads i (serving s) }))
    (after_handle : (i : ℕ) (s : ℤ) (n : Net)
      → get_elem? v.threads i ≡ some (serving s)
      → handle_msghead s v.net ≡ (done tt, n)
      → P (handles i) (record v { net = n })) where
  after_starting :
      (i : ℕ) (t : Option Thread) (o : Option ℤ) (w : Server)
      → get_elem? v.threads i ≡ t
      → back v.net.recvsock ≡ o
      → start_thread i v t o ≡ some w
      → P (starts i) w
  after_starting i (some created) (some s) w at_i b e =
      subst (P (starts i)) (some-injective _ _ e) (after_start i s at_i b)
  after_starting i (some created) none w at_i b e = absurd (none≢some w e)
  after_starting i (some (serving s)) o w at_i b e = absurd (none≢some w e)
  after_starting i none o w at_i b e = absurd (none≢some w e)

  after_returning :
      (i : ℕ) (s : ℤ) (o : Outcome (Unit {0})) (n : Net) (w : Server)
      → get_elem? v.threads i ≡ some (serving s)
      → handle_msghead s v.net ≡ (o, n)
      → after_call v (o, n) ≡ some w
      → P (handles i) w
  after_returning i s (done u) n w at_i h e =
      subst (P (handles i)) (some-injective _ _ e) (after_handle i s n at_i h)
  after_returning i s blocked n w at_i h e = absurd (none≢some w e)
  after_returning i s exited n w at_i h e = absurd (none≢some w e)
  after_returning i s undefined n w at_i h e = absurd (none≢some w e)

  after_handling :
      (i : ℕ) (t : Option Thread) (w : Server)
      → get_elem? v.threads i ≡ t
      → run_thread v t ≡ some w
      → P (handles i) w
  after_handling i (some (serving s)) w at_i e =
      after_returning i s (handle_msghead s v.net).0 (handle_msghead s v.net).1 w at_i refl e
  after_handling i (some created) w at_i e = absurd (none≢some w e)
  after_handling i none w at_i e = absurd (none≢some w e)

  pub step_cases : (e : Event) (w : Server) → step e v ≡ some w → P e w
  unfolding step
  step_cases (accepts new made) w e =
      subst (P (accepts new made)) (some-injective _ _ e) (after_accept new made)
  step_cases (starts i) w e =
      after_starting i (get_elem? v.threads i) (back v.net.recvsock) w refl refl e
  step_cases (handles i) w e = after_handling i (get_elem? v.threads i) w refl e

-- What every event that happens keeps, a run keeps.
pub run_keeps :
    (P : Server → Type 0)
    → ((e : Event) (v w : Server) → P v → step e v ≡ some w → P w)
    → (es : List Event) (v w : Server) → P v
    → run es v ≡ some w
    → P w
unfolding run
run_keeps P keeps [] v w h e = subst P (some-injective _ _ e) h
run_keeps P keeps (x ∷ es) v w h e =
    rest (step x v) refl e (λ u s. run_keeps P keeps es u w (keeps x v u h s))
  where
    rest :
        (o : Option Server)
        → step x v ≡ o
        → run_rest (run es) o ≡ some w
        → ((u : Server) → step x v ≡ some u → run es u ≡ some w → P w)
        → P w
    rest none s r again = absurd (none≢some w r)
    rest (some u) s r again = again u s r

-- What `accept` returns in these events, in order.
abbrev pub accepted_by : List Event → List ℤ
accepted_by [] = []
accepted_by (accepts new made ∷ es) = new ∷ accepted_by es
accepted_by (starts i ∷ es) = accepted_by es
accepted_by (handles i ∷ es) = accepted_by es
