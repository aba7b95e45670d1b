-- ===== src/Server/Phases/Runs.antt =====
-- The runs of socket/netapi/server.cpp in which a call of `handle_msghead` is one step, among those in
-- which the threads take turns between the calls of the kernel.
use mathlib.Core.Path.{subst}
use mathlib.Core.Option.{some-injective}
use mathlib.Core.List.{map-append}
use learning_directory.Base.{
  ℕ, ◌≡◌, refl, sym, ap, ◌∙◌, List, [], ◌∷◌, ◌++◌, Bool, true, false, none, some, map, get_elem?,
  set, get_elem?-set, set-set, set_same, get_elem?-map, map-set, back, Option-cases, inl, inr,
}
use learning_directory.Base.Int.{ℤ}
use learning_directory.Netapi.State.{
  Net, Outcome, done, blocked, exited, undefined, Io, and_then, ◌>>=◌, bind_done,
}
use learning_directory.Netapi.Receive.{handle_msghead, newest_sock, or_undefined}
use learning_directory.Server.{Server, Thread, created, serving, Event, run, server_handleaccept}
use learning_directory.Server.Steps.{step_cases, run_keeps}
use learning_directory.Server.Phases.{
  Phase, unstarted, heading, registering, bodying, passing, at, phase_step, Crowd, Turn, accepting,
  going, gone, goes, crowd_step, crowd_rest, crowd_run,
}
use learning_directory.Server.Phases.Call.{again, phases_call}

abbrev pub phase_of : Thread → Phase
phase_of created = unstarted
phase_of (serving s) = heading s

abbrev pub crowd_of : Server → Crowd
crowd_of v = record { net = v.net; phases = map phase_of v.threads }

-- Some turns lead from one state to another.
abbrev Leads : Crowd → Crowd → Type 0
Leads c d = (ts : List Turn) × (crowd_run ts c ≡ some d)

crowd_run-append :
    (ts us : List Turn) (c d e : Crowd)
    → crowd_run ts c ≡ some d
    → crowd_run us d ≡ some e
    → crowd_run (ts ++ us) c ≡ some e
unfolding crowd_run
crowd_run-append [] us c d e h k = ap (crowd_run us) (some-injective _ _ h) ∙ k
crowd_run-append (t ∷ ts) us c d e h k = elim (Option-cases (crowd_step t c)) [
  | inl stopped ↦
      absurd (let q : none ≡ some d = ap (crowd_rest (crowd_run ts)) (sym stopped) ∙ h in cc)
  | inr (b, moved) ↦
      ap (crowd_rest (crowd_run (ts ++ us))) moved
      ∙ crowd_run-append ts us b d e (ap (crowd_rest (crowd_run ts)) (sym moved) ∙ h) k
]

Leads-trans : (c d e : Crowd) → Leads c d → Leads d e → Leads c e
Leads-trans c d e (ts, h) (us, k) = (ts ++ us, crowd_run-append ts us c d e h k)

-- A thread at `i` makes a step.
one_step :
    (i : ℕ) (p q : Phase) (c : Crowd) (n : Net)
    → get_elem? c.phases i ≡ some p
    → phase_step p c.net ≡ (done q, n)
    → Leads c (record { net = n; phases = set c.phases i q })
unfolding crowd_run crowd_step
one_step i p q c n at_i e = (
  going i ∷ [],
  ap (λ o. crowd_rest (crowd_run []) (goes i c o)) at_i
      ∙ ap (λ r. crowd_rest (crowd_run []) (gone i c r)) e,
)

-- Where a composition goes on, its first part does.
bind-done :
    {A B : Type 0} (m : Io A) (f : A → Io B) (n k : Net) (b : B)
    → (m >>= f) n ≡ (done b, k)
    → (a : A) × (l : Net) × (m n ≡ (done a, l)) × (f a l ≡ (done b, k))
bind-done {A = A} {B = B} m f n k b = after (m n).0 (m n).1 refl
  where
    after :
        (o : Outcome A) (l : Net)
        → m n ≡ (o, l)
        → and_then o l f ≡ (done b, k)
        → (a : A) × (l : Net) × (m n ≡ (done a, l)) × (f a l ≡ (done b, k))
    after (done a) l e h = (a, l, e, h)
    after blocked l e h = absurd (let q : blocked ≡ done b = ap (λ r. r.0) h in cc)
    after exited l e h = absurd (let q : exited ≡ done b = ap (λ r. r.0) h in cc)
    after undefined l e h = absurd (let q : undefined ≡ done b = ap (λ r. r.0) h in cc)

-- The phase that a step leads to.
abbrev landed : Phase → Outcome Phase → Phase
landed p (done q) = q
landed p blocked = p
landed p exited = p
landed p undefined = p

-- A thread at `i` goes on until it is back at its next head.
again-Leads :
    (i : ℕ) (p q : Phase) (c : Crowd) (n : Net)
    → get_elem? c.phases i ≡ some p
    → again p c.net ≡ (done q, n)
    → Leads c (record { net = n; phases = set c.phases i q })
unfolding crowd_run
again-Leads i (heading s) q c n at_i e = (
  [],
  λ j. some (record {
    net = (e j).1;
    phases = (sym (set_same c.phases i (heading s) at_i) ∙ ap (set c.phases i) stays) j;
  }),
)
  where
    stays : heading s ≡ q
    stays = ap (λ r. landed (heading s) r.0) e
again-Leads i unstarted q c n at_i e = one_step i unstarted q c n at_i e
again-Leads i (registering s buf) q c n at_i e = one_step i (registering s buf) q c n at_i e
again-Leads i (bodying s buf) q c n at_i e = one_step i (bodying s buf) q c n at_i e
again-Leads i (passing s buf r) q c n at_i e = one_step i (passing s buf r) q c n at_i e

-- One step more.
further :
    (i : ℕ) (p q r : Phase) (c : Crowd) (n k : Net)
    → get_elem? c.phases i ≡ some p
    → Leads c (record { net = n; phases = set c.phases i q })
    → again q n ≡ (done r, k)
    → Leads c (record { net = k; phases = set c.phases i r })
further i p q r c n k at_i so_far e =
    Leads-trans c (record { net = n; phases = set c.phases i q })
      (record { net = k; phases = set c.phases i r }) so_far
      (subst
        (λ ps.
          Leads (record { net = n; phases = set c.phases i q }) (record { net = k; phases = ps }))
        (set-set c.phases i q r)
        (again-Leads i q r (record { net = n; phases = set c.phases i q }) k
          (get_elem?-set c.phases i p q at_i) e))

call-Leads :
    (i : ℕ) (s : ℤ) (c : Crowd) (n : Net)
    → get_elem? c.phases i ≡ some (heading s)
    → handle_msghead s c.net ≡ (done tt, n)
    → Leads c (record { net = n; phases = c.phases })
call-Leads i s c n at_i e =
    let call = phases_call s c.net ∙ bind_done (handle_msghead s) (λ _. at (heading s)) c.net e in
    let step1 = phase_step (heading s) in
    let (p3, n3, e3, last) =
      bind-done ((step1 >>= again) >>= again) again c.net n (heading s) call in
    let (p2, n2, e2, next) = bind-done (step1 >>= again) again c.net n3 p3 e3 in
    let (p1, n1, e1, second) = bind-done step1 again c.net n2 p2 e2 in
    subst (λ ps. Leads c (record { net = n; phases = ps })) (set_same c.phases i (heading s) at_i)
      (further i (heading s) p3 (heading s) c n3 n at_i
        (further i (heading s) p2 p3 c n2 n3 at_i
          (further i (heading s) p1 p2 c n1 n2 at_i (one_step i (heading s) p1 c n1 at_i e1) second)
          next)
        last)

accept-Leads :
    (new : ℤ) (made : Bool) (v : Server)
    → Leads (crowd_of v) (crowd_of (server_handleaccept new made v))
unfolding server_handleaccept crowd_run crowd_step
accept-Leads new true v = (
  accepting new true ∷ [],
  λ j. some (record {
    net = record v.net { recvsock = v.net.recvsock ++ new ∷ [] };
    phases = sym (map-append phase_of v.threads (created ∷ [])) j;
  }),
)
accept-Leads new false v = (accepting new false ∷ [], refl)

start-Leads :
    (i : ℕ) (s : ℤ) (v : Server)
    → get_elem? v.threads i ≡ some created
    → back v.net.recvsock ≡ some s
    → Leads (crowd_of v) (crowd_of (record v { threads = set v.threads i (serving s) }))
unfolding phase_step newest_sock
start-Leads i s v at_i newest =
    subst (λ ps. Leads (crowd_of v) (record { net = v.net; phases = ps }))
      (sym (map-set phase_of v.threads i (serving s)))
      (one_step i unstarted (heading s) (crowd_of v) v.net
        (get_elem?-map phase_of v.threads i created at_i)
        (ap (λ o. and_then (or_undefined o v.net).0 (or_undefined o v.net).1 λ k. at (heading k))
          newest))

handle-Leads :
    (i : ℕ) (s : ℤ) (v : Server) (n : Net)
    → get_elem? v.threads i ≡ some (serving s)
    → handle_msghead s v.net ≡ (done tt, n)
    → Leads (crowd_of v) (crowd_of (record v { net = n }))
handle-Leads i s v n at_i e =
    call-Leads i s (crowd_of v) n (get_elem?-map phase_of v.threads i (serving s) at_i) e

-- Each run of the server in which a call of `handle_msghead` is one step is among the runs in which
-- the threads take turns between their calls of the kernel: some turns lead from the same object
-- and threads to the same object and threads, each of which has not started or is at its next head.
pub run-crowd_run :
    (es : List Event) (v w : Server)
    → run es v ≡ some w
    → (ts : List Turn) × (crowd_run ts (crowd_of v) ≡ some (crowd_of w))
unfolding crowd_run
run-crowd_run es v w =
    run_keeps (λ u. Leads (crowd_of v) (crowd_of u))
      (λ e u x so_far happens. Leads-trans (crowd_of v) (crowd_of u) (crowd_of x) so_far (
        step_cases (λ _ y. Leads (crowd_of u) (crowd_of y)) u (λ new made. accept-Leads new made u)
          (λ i s at_i newest. start-Leads i s u at_i newest)
          (λ i s n at_i done_with. handle-Leads i s u n at_i done_with) e x happens))
      es v w ([], refl)
