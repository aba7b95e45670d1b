-- ===== src/Server/Refinement/Runs.antt =====
-- Runs of the server of socket/netapi/server.cpp, from its constructor on: it implements the switch.
use learning_directory.Base.{
  ℕ, ◌≡◌, refl, ap, ◌∙◌, List, [], ◌∷◌, ◌++◌, Bool, true, false, none, some, Bytes, if◌then◌else◌,
  ◌==◌, bytes_eq, Bool-cases, inl, inr, All, back, back-append, replicate, get_elem?, set, beq_refl,
}
use learning_directory.Base.Int.{ℤ, minus_one, int_eq}
use learning_directory.Base.Assoc.{lookup}
use learning_directory.Netapi.State.{Recv, Net, done, update}
use learning_directory.Netapi.Receive.{handle_msghead}
use learning_directory.Netapi.Relay.{arriving}
use learning_directory.Server.{
  Server, serving, created, Event, accepts, starts, handles, start_thread, server_handleaccept,
  after_call, run_thread, step, run, run_rest, live, construct_server,
}
use learning_directory.Netapi.Startup.{SocketApi}
use learning_directory.Server.Life.{fresh, live_started}
use learning_directory.Server.Switch.{
  Letter, letter_bytes, Switch, pass_letter, Happening, connects, begins, arrives, Served, switch,
  switch_all, event_of, events, inbox, relays,
}
use learning_directory.Server.Refinement.{
  Shows, Fits, printing, relaying, handles_own, handles_other, printing-Shows, relaying-Shows,
}

abbrev pub FitsHere : Bytes → Happening → Type 0
FitsHere own (connects s made) = Unit
FitsHere own (begins i) = Unit
FitsHere own (arrives l) = Fits own l

run-step :
    (e : Event) (es : List Event) (v u : Server) → step e v ≡ some u → run (e ∷ es) v ≡ run es u
unfolding run
run-step e es v u h = ap (run_rest (run es)) h

step_handles :
    (l : Letter) (v : Server) (b : Net)
    → get_elem? v.threads l.thread ≡ some (serving l.on)
    → handle_msghead l.on v.net ≡ (done tt, b)
    → step (handles l.thread) v ≡ some (record v { net = b })
unfolding step
step_handles l v b t h = ap (run_thread v) t ∙ ap (after_call v) h

step_starts :
    (i : ℕ) (s : ℤ) (v : Server)
    → get_elem? v.threads i ≡ some created
    → back v.net.recvsock ≡ some s
    → step (starts i) v ≡ some (record v { threads = set v.threads i (serving s) })
unfolding step
step_starts i s v t b = λ j. start_thread i v (t j) (b j)

abbrev taken : ℤ → Bool → Server → Server
taken s made v = record {
  net = record v.net { recvsock = v.net.recvsock ++ s ∷ [] };
  threads = if made then v.threads ++ created ∷ [] else v.threads;
}

step_accepts : (s : ℤ) (made : Bool) (v : Server) → step (accepts s made) v ≡ some (taken s made v)
unfolding step server_handleaccept
step_accepts s true v = refl
step_accepts s false v = refl

taken-Shows :
    (own : Bytes) (s : ℤ) (made : Bool) (v : Server) (sw : Switch)
    → Shows own v.net sw
    → Shows own (taken s made v).net (record sw { newest = s })
taken-Shows own s made v sw h = record {
  name = h.name;
  newest = back-append v.net.recvsock s;
  table = h.table;
  printed = h.printed;
  relayed = h.relayed;
  past = h.past;
}

module _ (own : Bytes) (rest : ℤ → List Recv) (more : List Bool) where
  -- The server is ready for what happens.
  pub record Ready (hs : List Happening) (v : Server) (sw : Switch) : Type 0 where
    pub shows : Shows own v.net sw
    pub fits : All (FitsHere own) hs
    pub served : Served hs sw.newest v.threads
    pub waits : (s : ℤ) → v.net.incoming s ≡ inbox hs rest s
    pub free : v.net.send_ok ≡ replicate (relays own hs) true ++ more

  abbrev pub Implements : List Happening → Server → Switch → Type 0
  Implements hs v sw =
      (w : Server) × (run (events hs) v ≡ some w)
      × Shows own w.net (switch_all own hs sw)
      × ((s : ℤ) → w.net.incoming s ≡ rest s)

  first :
      (h : Happening) (hs : List Happening) (v u : Server) (sw : Switch)
      → step (event_of h) v ≡ some u
      → Implements hs u (switch own h sw)
      → Implements (h ∷ hs) v sw
  first h hs v u sw e (w, r, shows, left) =
      (w, run-step (event_of h) (events hs) v u e ∙ r, shows, left)

  module _ (l : Letter) (hs : List Happening) (v : Server) (sw : Switch)
      (r : Ready (arrives l ∷ hs) v sw) where
    left : ℤ → List Recv
    left = inbox hs rest

    waits_here : v.net.incoming l.on ≡ arriving (letter_bytes l) (left l.on)
    unfolding left
    waits_here = r.waits l.on ∙ rw (beq_refl l.on)

    waits_after : (s : ℤ) → update v.net.incoming l.on (left l.on) s ≡ left s
    unfolding left
    waits_after s = elim (Bool-cases (l.on == s)) [
      | inl t ↦ rw t (ap left ((int_eq.eqb_iff l.on s).0 t))
      | inr f ↦ rw f (r.waits s ∙ rw f)
    ]

    more_oks : List Bool
    more_oks = replicate (relays own hs) true ++ more

    arrives-Ready :
        (u : Server) × (step (handles l.thread) v ≡ some u) × Ready hs u (pass_letter own l sw)
    unfolding left more_oks
    arrives-Ready = elim (Bool-cases (l.to_name == own)) [
      | inl t ↦
          let free : v.net.send_ok ≡ more_oks = r.free ∙ rw t in
          (
            record v {
              net = printing own l v.net sw r.shows (left l.on) more_oks r.fits.0 waits_here;
            },
            step_handles l v _ r.served.0 (
                handles_own own l v.net sw r.shows (left l.on) more_oks r.fits.0 waits_here t free),
            record {
              shows =
                  printing-Shows own l v.net sw r.shows (left l.on) more_oks r.fits.0 waits_here t;
              fits = r.fits.1;
              served = r.served.1;
              waits = waits_after;
              free = free;
            },
          )
      | inr f ↦
          let free : v.net.send_ok ≡ true ∷ more_oks = r.free ∙ rw f in
          (
            record v {
              net = relaying own l v.net sw r.shows (left l.on) more_oks r.fits.0 waits_here;
            },
            step_handles l v _ r.served.0 (
                handles_other own l v.net sw r.shows (left l.on) more_oks r.fits.0 waits_here f
                  free),
            record {
              shows =
                  relaying-Shows own l v.net sw r.shows (left l.on) more_oks r.fits.0 waits_here f;
              fits = r.fits.1;
              served = r.served.1;
              waits = waits_after;
              free = refl;
            },
          )
    ]

  pub switching :
      (hs : List Happening) (v : Server) (sw : Switch) → Ready hs v sw → Implements hs v sw
  unfolding run
  switching [] v sw r = (v, refl, r.shows, r.waits)
  switching (connects s made ∷ hs) v sw r =
      first (connects s made) hs v (taken s made v) sw (step_accepts s made v) (
        switching hs (taken s made v) (record sw { newest = s })
          (record {
            shows = taken-Shows own s made v sw r.shows;
            fits = r.fits.1;
            served = r.served;
            waits = r.waits;
            free = r.free;
          }))
  switching (begins i ∷ hs) v sw r =
      let u : Server = record v { threads = set v.threads i (serving sw.newest) } in
      first (begins i) hs v u sw (step_starts i sw.newest v r.served.0 r.shows.newest) (
        switching hs u sw (record {
          shows = r.shows;
          fits = r.fits.1;
          served = r.served.1;
          waits = r.waits;
          free = r.free;
        }))
  switching (arrives l ∷ hs) v sw r =
      let (u, e, ready) = arrives-Ready l hs v sw r in
      first (arrives l) hs v u sw e (switching hs u (pass_letter own l sw) ready)

abbrev pub first_switch : Net → ℤ → Switch
first_switch n s = record {
  newest = s;
  names = λ k. none;
  printed = n.shown;
  relayed = n.sent;
  overread = n.overread;
}

-- From the constructor on, once a first connection has been accepted.
module _ (K : SocketApi) (own : Bytes) (n : Net) where
  first_Shows :
      (s : ℤ) (made : Bool) → Shows own (taken s made (fresh K own n)).net (first_switch n s)
  unfolding lookup
  first_Shows s made = record {
    name = refl;
    newest = refl;
    table = λ k. refl;
    printed = refl;
    relayed = refl;
    past = refl;
  }

  -- A server whose `listen` has succeeded, from its constructor and the first accepted connection
  -- on: in any sequence of further connections, threads that begin, and letters for threads that
  -- serve their socket, where the fields of each letter fit, a letter for the server's own name
  -- holds no `#`, each letter arrives as a head and a body, and the `send`s succeed, the threads
  -- come to a state that shows what a switch has become by the same events: the same socket for
  -- every name, the same contents printed, the same bytes written to the same sockets, in the same
  -- order, and whether a debug print has read past a buffer, which is taken to change no memory;
  -- and they have consumed the letters.
  pub server_switches :
      (s : ℤ) (made : Bool) (hs : List Happening) (rest : ℤ → List Recv) (more : List Bool)
      → (K.listen K.socket 10 == minus_one) ≡ false
      → All (FitsHere own) hs
      → Served hs s (if made then created ∷ [] else [])
      → ((j : ℤ) → n.incoming j ≡ inbox hs rest j)
      → n.send_ok ≡ replicate (relays own hs) true ++ more
      → (w : Server) × (live (accepts s made ∷ events hs) (construct_server K true own n) ≡ some w)
        × Shows own w.net (switch_all own hs (first_switch n s))
        × ((j : ℤ) → w.net.incoming j ≡ rest j)
  server_switches s made hs rest more ok fits served waits free =
      let v = taken s made (fresh K own n) in
      let (w, r, shows, left) = switching own rest more hs v (first_switch n s) (record {
        shows = first_Shows s made;
        fits = fits;
        served = served;
        waits = waits;
        free = free;
      }) in
      (
        w,
        live_started K own n (accepts s made ∷ events hs) ok
            ∙ run-step (accepts s made) (events hs) (fresh K own n) v
                (step_accepts s made (fresh K own n))
            ∙ r,
        shows,
        left,
      )
