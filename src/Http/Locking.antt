-- ===== src/Http/Locking.antt =====
-- The early exits of the accepting branch of httpserver/main.cpp, and `fds_mutex`.
use mathlib.Core.Bool.{true≢false}
use learning_directory.Base.{
  ℕ, ◌≡◌, ◌⊎◌, inl, inr, sym, ap, if_case, refl, ◌∙◌, List, ◌∷◌, Bool, true, false, if◌then◌else◌,
  ◌==◌,
}
use learning_directory.Base.Int.{ℤ, pos, minus_one, ltb_ℤ, int_eq}
use learning_directory.Http.State.{Web, Ending, returned, deadlocked}
use learning_directory.Http.Transfer.{Read, bytes, failed, set_fl}
use learning_directory.Http.Reading.{readn-bytes, readn_failed}
use learning_directory.Http.Handlers.{
  Accept, handle_accept, handle_readable, after_read, handle_writable, WebEvent, on_accept,
  on_readable, on_writable, web_step, web_run, run_on,
}

-- The three failures after which the branch continues with the next event.
abbrev pub Fails : Accept → Type 0
Fails a =
    (a.conn_sock ≡ minus_one)
    ⊎ (ltb_ℤ (set_fl a.getfl a.setfl) (pos 0) ≡ true)
    ⊎ (a.added ≡ minus_one)

-- The events of the main thread, with an answer to the first `read`.
pub data MainEvent : WebEvent → Type 0 where
  accepting : (a : Accept) → MainEvent (on_accept a)
  reading :
      (fd : ℤ) (r : Read) (rs : List Read) (again : Bool) (now : ℕ)
      → MainEvent (on_readable fd (r ∷ rs) again now)
  writing : (fd : ℤ) (rs : List ℤ) (now : ℕ) → MainEvent (on_writable fd rs now)

no_failure :
    (a : Accept)
    → Fails a
    → (a.conn_sock == minus_one) ≡ false
    → ltb_ℤ (set_fl a.getfl a.setfl) (pos 0) ≡ false
    → (a.added == minus_one) ≡ false
    → ⊥
no_failure a (inl e) c s d = true≢false (sym ((int_eq.eqb_iff a.conn_sock minus_one).1 e) ∙ c)
no_failure a (inr (inl e)) c s d = true≢false (sym e ∙ s)
no_failure a (inr (inr e)) c s d = true≢false (sym ((int_eq.eqb_iff a.added minus_one).1 e) ∙ d)

abbrev StaysLocked : Ending × Web → Type 0
StaysLocked p = (p.0 ≡ returned) × (p.1.locked ≡ true)

handle_accept-Fails :
    (a : Accept) (w : Web) → w.locked ≡ false → Fails a → StaysLocked (handle_accept a w)
unfolding handle_accept
handle_accept-Fails a w free f =
    if_case StaysLocked w.locked _ _ (λ l. absurd (true≢false (sym l ∙ free)))
      λ _.
        if_case StaysLocked (a.conn_sock == minus_one) _ _ (λ _. (refl, refl))
          λ c.
            if_case StaysLocked (ltb_ℤ (set_fl a.getfl a.setfl) (pos 0)) _ _ (λ _. (refl, refl))
              λ s.
                if_case StaysLocked (a.added == minus_one) _ _ (λ _. (refl, refl))
                  λ d. absurd (no_failure a f c s d)

if_locked : (w : Web) (r s : Ending × Web) → w.locked ≡ true → (if w.locked then r else s) ≡ r
if_locked w r s l = ap (λ b. if b then r else s) l

reading_deadlocks :
    (fd : ℤ) (r : Read) (rs : List Read) (again : Bool) (now : ℕ) (w : Web)
    → w.locked ≡ true
    → handle_readable fd (r ∷ rs) again now w ≡ (deadlocked, w)
unfolding handle_readable
reading_deadlocks fd (bytes bs) rs again now w l =
    ap (λ o. after_read fd again now o w) (readn-bytes 8191 bs rs) ∙ if_locked w _ _ l
reading_deadlocks fd failed rs again now w l =
    ap (λ o. after_read fd again now o w) (readn_failed 8191 rs) ∙ if_locked w _ _ l

-- While the mutex stays locked, every event of the main thread waits for ever.
locked_deadlocks :
    (e : WebEvent) (w : Web) → MainEvent e → w.locked ≡ true → web_step e w ≡ (deadlocked, w)
unfolding web_step handle_accept handle_writable
locked_deadlocks e w (accepting a) l = if_locked w _ _ l
locked_deadlocks e w (reading fd r rs again now) l = reading_deadlocks fd r rs again now w l
locked_deadlocks e w (writing fd rs now) l = if_locked w _ _ l

-- If `accept`, `set_fl` or `epoll_ctl` fails while the mutex is free, the main thread waits for
-- ever at its next event, of any kind (for an input event, as soon as a `read` has answered), in
-- the state that the accepting branch left, and none of the events after it is handled.
pub accept_deadlocks :
    (a : Accept) (e : WebEvent) (es : List WebEvent) (w : Web)
    → w.locked ≡ false
    → Fails a
    → MainEvent e
    → web_run (on_accept a ∷ e ∷ es) w ≡ (deadlocked, (handle_accept a w).1)
unfolding web_run web_step
accept_deadlocks a e es w free f m =
    let (fine, stays) = handle_accept-Fails a w free f in
    ap (λ o. run_on (web_run (e ∷ es)) (o, (handle_accept a w).1)) fine
    ∙ ap (run_on (web_run es)) (locked_deadlocks e (handle_accept a w).1 m stays)
