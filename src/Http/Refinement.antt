-- ===== src/Http/Refinement.antt =====
-- The steps of httpserver/main.cpp against the automaton of one descriptor.
use mathlib.Core.Path.{subst}
use learning_directory.Base.{
  ℕ, ◌+◌, ◌%◌, ◌^◌, ◌≡◌, refl, ap, ◌∙◌, List, [], ◌∷◌, ◌++◌, Bool, true, Option, none, some, Bytes,
  ◌==◌, arith, leb, ◌||◌, length, if_case,
}
use learning_directory.Base.Int.{ℤ, pos, ltb_ℤ, int_eq, minus_one}
use learning_directory.Base.Assoc.{lookup, assign}
use learning_directory.Http.State.{
  ClientT, accepted, watch_input, watch_output, unwatch, shut, closed, wrote, Web, Ending, returned,
  deadlocked, crashed, waiting,
}
use learning_directory.Http.Transfer.{Written, writen, Received, readn, set_fl}
use learning_directory.Http.Handlers.{
  Accept, refused, new_client, handle_accept, handle_readable, after_read, after_append,
  with_client, handle_writable, after_write, response, page, whole_buffer, check_timeout, note_old,
  unless_expiring, expire, remove_noted, WebEvent, on_accept, on_readable, on_writable, on_check,
  on_expire, web_step, web_run, run_on,
}
use learning_directory.Http.Balance.{IsBalanced, IsFresh, Knows, held}
use learning_directory.Http.Descriptors.{FreshEvent, FreshOn, FreshRun, web_step-IsBalanced}
use learning_directory.Http.Protocol.{
  idle, open_for, replay, replay-append, phase_of, Refines, assign-Refines, obeys_at, returns_to,
}

abbrev RefinesAll : Ending × Web → Type 0
RefinesAll p = Refines p.1

-- The kernel accepts only a descriptor whose entry holds no client.
fresh_idle : (fd : ℤ) (w : Web) → IsFresh fd w → IsBalanced w → phase_of (lookup fd w.fds) ≡ idle
fresh_idle fd w fresh h = unheld (lookup fd w.fds) (omega (arith, h.balance fd))
  where
    unheld : (e : Option (Option ClientT)) → held e ≡ 0 → phase_of e ≡ idle
    unheld (some (some c)) e = absurd (omega arith)
    unheld (some none) e = refl
    unheld none e = refl

refused-Refines :
    (w : Web) (fd : ℤ)
    → phase_of (lookup fd w.fds) ≡ idle
    → Refines w
    → Refines (refused w (closed fd ∷ accepted fd ∷ [])).1
refused-Refines w fd unused h = record {
  phases = λ k.
      replay-append k (closed fd ∷ accepted fd ∷ []) w.calls (some idle)
      ∙ ap (replay k (closed fd ∷ accepted fd ∷ [])) (h.phases k)
      ∙ returns_to w fd idle unused (closed fd ∷ accepted fd ∷ []) (refl, (refl, tt)) refl k;
}

handle_accept-Refines :
    (a : Accept) (w : Web)
    → phase_of (lookup a.conn_sock w.fds) ≡ idle
    → Refines w
    → Refines (handle_accept a w).1
unfolding handle_accept
handle_accept-Refines a w unused h =
    if_case RefinesAll w.locked _ _ (λ _. h)
      λ _.
        if_case RefinesAll (a.conn_sock == minus_one) _ _ (λ _. record { phases = h.phases })
          λ _.
            if_case RefinesAll (ltb_ℤ (set_fl a.getfl a.setfl) (pos 0)) _ _
              (λ _. refused-Refines w a.conn_sock unused h)
              λ _.
                if_case RefinesAll (a.added == minus_one) _ _
                  (λ _. refused-Refines w a.conn_sock unused h)
                  λ _.
                    assign-Refines w a.conn_sock (some (new_client a))
                      (watch_input a.conn_sock ∷ accepted a.conn_sock ∷ []) w.locked
                      ((w.countacp + 1) % 2 ^ 64) w.expiring h
                      (obeys_at w a.conn_sock idle unused (some (new_client a))
                        (watch_input a.conn_sock ∷ accepted a.conn_sock ∷ []) (refl, (refl, tt))
                        refl)

module _ (w : Web) (fd : ℤ) (c : ClientT) (there : lookup fd w.fds ≡ some (some c))
    (h : Refines w) where
  used : phase_of (lookup fd w.fds) ≡ open_for
  used = ap phase_of there

  after_append-Refines :
      (again : Bool) (now : ℕ) (n : ℤ) (d : ClientT)
      → d.fd ≡ fd
      → Refines (after_append fd again now n d w).1
  after_append-Refines again now n d known =
      if_case RefinesAll (ltb_ℤ n (pos 0)) _ _
        (λ _.
          if_case RefinesAll again _ _
            (λ _.
              assign-Refines w fd (some d) [] true w.countacp w.expiring h
                (obeys_at w fd open_for used (some d) [] tt refl))
            λ _.
              assign-Refines w fd none (closed d.fd ∷ shut d.fd ∷ []) w.locked w.countacp w.expiring
                h
                (obeys_at w fd open_for used none (closed d.fd ∷ shut d.fd ∷ [])
                  (known, (known, tt)) refl))
        λ _.
          assign-Refines w fd (some (record d { last_alive_time = now })) (watch_output fd ∷ [])
            w.locked w.countacp w.expiring h
            (obeys_at w fd open_for used (some (record d { last_alive_time = now }))
              (watch_output fd ∷ []) (refl, tt) refl)

  after_write-Refines :
      (now : ℕ) (buf : Bytes) (o : Option Written) → Refines (after_write fd now buf c o w).1
  after_write-Refines now buf none = h
  after_write-Refines now buf (some r) =
      if_case RefinesAll (r.value == pos (length buf) || ltb_ℤ r.value (pos 0)) _ _
        (λ _.
          assign-Refines w fd none (closed fd ∷ shut fd ∷ unwatch fd ∷ wrote fd r.sent ∷ [])
            w.locked w.countacp w.expiring h
            (obeys_at w fd open_for used none
              (closed fd ∷ shut fd ∷ unwatch fd ∷ wrote fd r.sent ∷ [])
              (refl, (refl, (refl, (refl, tt)))) refl))
        λ _.
          assign-Refines w fd (some (record c { write_buf = buf; last_alive_time = now }))
            (wrote fd r.sent ∷ []) w.locked w.countacp w.expiring h
            (obeys_at w fd open_for used
              (some (record c { write_buf = buf; last_alive_time = now })) (wrote fd r.sent ∷ [])
              (refl, tt) refl)

  removal-Refines :
      c.fd ≡ fd
      → Refines (record w {
        fds = assign fd none w.fds;
        expiring = none;
        calls = closed c.fd ∷ shut c.fd ∷ unwatch c.fd ∷ w.calls;
      })
  removal-Refines known =
      assign-Refines w fd none (closed c.fd ∷ shut c.fd ∷ unwatch c.fd ∷ []) w.locked w.countacp
        none h
        (obeys_at w fd open_for used none (closed c.fd ∷ shut c.fd ∷ unwatch c.fd ∷ [])
          (known, (known, (known, tt))) refl)

-- The steps on an entry obey the automaton if the step on its client does.
with_client-Refines :
    (w : Web) (fd : ℤ) (o : Option (Option ClientT)) (f : ClientT → Ending × Web)
    → lookup fd w.fds ≡ o
    → IsBalanced w
    → Refines w
    → ((c : ClientT) → lookup fd w.fds ≡ some (some c) → c.fd ≡ fd → Refines (f c).1)
    → Refines (with_client o w f).1
with_client-Refines w fd (some (some c)) f e b h hf = hf c e (subst (Knows fd) e (b.knows fd))
with_client-Refines w fd (some none) f e b h hf = h
with_client-Refines w fd none f e b h hf = h

after_read-Refines :
    (fd : ℤ) (again : Bool) (now : ℕ) (o : Option Received) (w : Web)
    → IsBalanced w
    → Refines w
    → Refines (after_read fd again now o w).1
after_read-Refines fd again now none w b h = h
after_read-Refines fd again now (some r) w b h =
    if_case RefinesAll w.locked _ _ (λ _. h)
      λ _. with_client-Refines w fd (lookup fd w.fds) _ refl b h λ c there known.
        after_append-Refines w fd c there h again now r.count
          (record c { read_buf = c.read_buf ++ whole_buffer r.filled }) known

note_old-Refines :
    (k : ℤ) (tm : ℕ) (o : Option (Option ClientT)) (w : Web)
    → Refines w
    → Refines (note_old k tm o w).1
note_old-Refines k tm (some (some c)) w h =
    if_case RefinesAll (leb (c.last_alive_time + 30) tm) _ _ (λ _. record { phases = h.phases })
      (λ _. h)
note_old-Refines k tm (some none) w h = h
note_old-Refines k tm none w h = h

unless_expiring-Refines :
    (o : Option ℤ) (w : Web) (r : Ending × Web)
    → Refines w
    → Refines r.1
    → Refines (unless_expiring o w r).1
unless_expiring-Refines none w r h hr = hr
unless_expiring-Refines (some k) w r h hr = h

remove_noted-Refines :
    (o : Option ℤ) (w : Web) → IsBalanced w → Refines w → Refines (remove_noted o w).1
remove_noted-Refines none w b h = h
remove_noted-Refines (some k) w b h =
    if_case RefinesAll w.locked _ _ (λ _. h)
      λ _.
        with_client-Refines w k (lookup k w.fds) _ refl b h
          λ c there known. removal-Refines w k c there h known

web_step-Refines :
    (e : WebEvent) (w : Web) → FreshEvent e w → IsBalanced w → Refines w → Refines (web_step e w).1
unfolding web_step handle_readable handle_writable check_timeout expire
web_step-Refines (on_accept a) w f b h = handle_accept-Refines a w (fresh_idle a.conn_sock w f b) h
web_step-Refines (on_readable fd rs again now) w f b h =
    after_read-Refines fd again now (readn 8192 rs) w b h
web_step-Refines (on_writable fd rs now) w f b h =
    if_case RefinesAll w.locked _ _ (λ _. h)
      λ _. with_client-Refines w fd (lookup fd w.fds) _ refl b h λ c there known.
        after_write-Refines w fd c there h now (response page) (writen (response page) rs)
web_step-Refines (on_check k tm) w f b h =
    unless_expiring-Refines w.expiring w (note_old k tm (lookup k w.fds) w) h
      (note_old-Refines k tm (lookup k w.fds) w h)
web_step-Refines on_expire w f b h = remove_noted-Refines w.expiring w b h

-- In any run of events of the two threads in which the kernel accepts only descriptors that are
-- closed, from a balanced state whose calls obey the automaton: the calls made on each descriptor
-- obey it too (accepted when idle; watched, written, shut down and closed only when open), and lead
-- to the phase that its entry in `fds` stands for, open exactly for a client.
pub web_run-Refines :
    (es : List WebEvent) (w : Web)
    → FreshRun es w
    → IsBalanced w
    → Refines w
    → Refines (web_run es w).1
unfolding web_run
web_run-Refines [] w f b h = h
web_run-Refines (e ∷ es) w (now, later) b h =
    rest (web_step e w).0 (web_step e w).1 later (web_step-IsBalanced e w now b)
      (web_step-Refines e w now b h) (web_run-Refines es)
  where
    rest :
        (o : Ending) (v : Web)
        → FreshOn (FreshRun es) (o, v)
        → IsBalanced v
        → Refines v
        → ((u : Web) → FreshRun es u → IsBalanced u → Refines u → Refines (web_run es u).1)
        → Refines (run_on (web_run es) (o, v)).1
    rest returned v fresh bv hv again = again v fresh bv hv
    rest deadlocked v fresh bv hv again = hv
    rest crashed v fresh bv hv again = hv
    rest waiting v fresh bv hv again = hv
