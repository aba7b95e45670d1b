-- ===== src/Http/Timeouts.antt =====
-- `check_time_out` of httpserver/main.cpp, alone and against the main thread.
use learning_directory.Base.{
  ℕ, ◌+◌, ◌≡◌, ◌≤◌, sym, ap, ◌∙◌, List, [], ◌∷◌, Bool, true, false, none, some, if◌then◌else◌, leb,
  beq_refl, arith, length, Bool-cases, inl, inr,
}
use learning_directory.Base.Int.{ℤ, pos, int_eq}
use learning_directory.Base.Assoc.{lookup, assign, lookup-assign}
use learning_directory.Http.State.{
  ClientT, closed, shut, unwatch, wrote, Web, Ending, returned, deadlocked, crashed,
}
use learning_directory.Http.Transfer.{Written, writen}
use learning_directory.Http.Serving.{handle_writable_done}
use learning_directory.Http.Handlers.{
  response, page, handle_writable, with_client, check_timeout, note_old, unless_expiring, expire,
  remove_noted, on_writable, on_check, on_expire, web_step, web_run, run_on,
}

module _ (k : ℤ) (tm : ℕ) (c : ClientT) (w : Web) (there : lookup k w.fds ≡ some (some c))
    (idle : w.expiring ≡ none) (free : w.locked ≡ false) where
  checked : check_timeout k tm w ≡ note_old k tm (some (some c)) w
  unfolding check_timeout
  checked i = unless_expiring (idle i) w (note_old k tm (there i) w)

  -- The entry once the thread has removed its client.
  abbrev pub after_removal : Web
  after_removal = record w {
    fds = assign k none w.fds;
    calls = closed c.fd ∷ shut c.fd ∷ unwatch c.fd ∷ w.calls;
  }

  abbrev noted : Web
  noted = record w { expiring = some k }

  removed : expire noted ≡ (returned, after_removal)
  unfolding expire
  removed =
      (λ i.
        if free i
        then (deadlocked, noted)
        else with_client (there i) noted λ d. (
          returned,
          record noted {
            fds = assign k none w.fds;
            expiring = none;
            calls = closed d.fd ∷ shut d.fd ∷ unwatch d.fd ∷ w.calls;
          },
        ))
      ∙ λ i. (returned, record after_removal { expiring = sym idle i })

  expire_idle : expire w ≡ (returned, w)
  unfolding expire
  expire_idle i = remove_noted (idle i) w

  abbrev is_old : Bool
  is_old = leb (c.last_alive_time + 30) tm

  -- One round of the timeout thread at an entry with a client, with the mutex free and no other
  -- thread between: the client is removed, its descriptor closed and NULL left in the entry if its
  -- last sign of life is 30 seconds old or more; otherwise nothing changes.
  pub check_expire :
      web_run (on_check k tm ∷ on_expire ∷ []) w
      ≡ (if is_old then (returned, after_removal) else (returned, w))
  unfolding web_run web_step
  check_expire = ap (run_on (web_run (on_expire ∷ []))) checked ∙ elim (Bool-cases is_old) [
    | inl old ↦
        ap (λ b. run_on (web_run (on_expire ∷ [])) (if b then (returned, noted) else (returned, w)))
          old
        ∙ ap (run_on (web_run [])) removed
        ∙ ap (λ b. if b then (returned, after_removal) else (returned, w)) (sym old)
    | inr young ↦
        ap (λ b. run_on (web_run (on_expire ∷ [])) (if b then (returned, noted) else (returned, w)))
          young
        ∙ ap (run_on (web_run [])) expire_idle
        ∙ ap (λ b. if b then (returned, after_removal) else (returned, w)) (sym young)
  ]

  -- If the main thread finishes the whole reply to a client of `fds` after the timeout thread has
  -- found it 30 seconds old or more and before that thread has the mutex, then the timeout thread
  -- follows a NULL pointer.
  pub expire_race :
      (rs : List ℤ) (now : ℕ) (r : Written)
      → c.last_alive_time + 30 ≤ tm
      → writen (response page) rs ≡ some r
      → r.value ≡ pos (length (response page))
      → (web_run (on_check k tm ∷ on_writable k rs now ∷ on_expire ∷ []) w).0 ≡ crashed
  unfolding web_run web_step handle_writable expire
  expire_race rs now r old sends all =
      ap (λ o. (run_on later o).0) (checked ∙ passes)
      ∙ ap (λ o. (run_on (web_run (on_expire ∷ [])) o).0)
          (handle_writable_done k now c noted there free rs r sends all)
      ∙ (λ i. (run_on (web_run []) (removing i)).0)
    where
      later : Web → Ending × Web
      later = web_run (on_writable k rs now ∷ on_expire ∷ [])

      it_is_old : is_old ≡ true
      it_is_old = ground arith

      passes : note_old k tm (some (some c)) w ≡ (returned, noted)
      passes = ap (λ b. if b then (returned, noted) else (returned, w)) it_is_old

      replied : Web
      replied = record noted {
        fds = assign k none w.fds;
        calls = closed k ∷ shut k ∷ unwatch k ∷ wrote k r.sent ∷ w.calls;
      }

      gone : lookup k (assign k none w.fds) ≡ some none
      gone =
          lookup-assign k k none w.fds
          ∙ ap (λ b. if b then some none else lookup k w.fds) (beq_refl k)

      removing : expire replied ≡ (crashed, replied)
      removing i =
          if free i
          then (deadlocked, replied)
          else with_client (gone i) replied λ d. (
            returned,
            record replied {
              fds = assign k none replied.fds;
              expiring = none;
              calls = closed d.fd ∷ shut d.fd ∷ unwatch d.fd ∷ replied.calls;
            },
          )
