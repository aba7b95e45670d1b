-- ===== src/Http/Descriptors.antt =====
-- The descriptors of httpserver/main.cpp over the steps of its two threads.
use mathlib.Core.Path.{subst}
use learning_directory.Base.{
  ℕ, ◌+◌, ◌≡◌, refl, List, [], ◌∷◌, ◌++◌, Bool, true, Option, none, some, Bytes, if◌then◌else◌,
  ◌==◌, arith, Bool-cases, inl, inr, leb, ◌||◌, length,
}
use learning_directory.Base.Int.{ℤ, pos, ltb_ℤ, int_eq}
use learning_directory.Base.Assoc.{lookup}
use learning_directory.Http.State.{
  ClientT, watch_output, unwatch, shut, closed, wrote, Web, Ending, returned, deadlocked, crashed,
  waiting,
}
use learning_directory.Http.Transfer.{Written, writen, Read, Received, readn}
use learning_directory.Http.Handlers.{
  handle_readable, after_read, after_append, with_client, handle_writable, after_write, response,
  page, whole_buffer, check_timeout, note_old, unless_expiring, expire, remove_noted, WebEvent,
  on_accept, on_readable, on_writable, on_check, on_expire, web_step, web_run, run_on,
}
use learning_directory.Http.Balance.{
  held, Knows, IsBalanced, IsFresh, assign-IsBalanced, if_keeps, handle_accept-IsBalanced,
}

module _ (w : Web) (fd : ℤ) (c : ClientT) (there : lookup fd w.fds ≡ some (some c)) where
  -- A client in the place of another one.
  kept_accounts :
      (k : ℤ) (d : ClientT)
      → held (lookup k w.fds) ≡ held (if fd == k then some (some d) else lookup k w.fds)
  kept_accounts k d = elim (Bool-cases (fd == k)) [
    | inl same ↦ rw (same, ← (int_eq.eqb_iff fd k).0 same, there)
    | inr other ↦ rw other
  ]

  -- The client is removed and its descriptor closed.
  closed_accounts :
      (k : ℤ)
      → held (lookup k w.fds)
        ≡ (if fd == k then 1 else 0) + 0 + held (if fd == k then some none else lookup k w.fds)
  closed_accounts k = elim (Bool-cases (fd == k)) [
    | inl same ↦ rw (same, ← (int_eq.eqb_iff fd k).0 same, there)
    | inr other ↦ rw other (omega arith)
  ]

-- The steps on an entry keep the balance if the step on its client does.
with_client-IsBalanced :
    (w : Web) (fd : ℤ) (o : Option (Option ClientT)) (f : ClientT → Ending × Web)
    → lookup fd w.fds ≡ o
    → IsBalanced w
    → ((c : ClientT) → lookup fd w.fds ≡ some (some c) → c.fd ≡ fd → IsBalanced (f c).1)
    → IsBalanced (with_client o w f).1
with_client-IsBalanced w fd (some (some c)) f e h hf = hf c e (subst (Knows fd) e (h.knows fd))
with_client-IsBalanced w fd (some none) f e h hf = h
with_client-IsBalanced w fd none f e h hf = h

after_append-IsBalanced :
    (w : Web) (fd : ℤ) (again : Bool) (now : ℕ) (n : ℤ) (c d : ClientT)
    → IsBalanced w
    → lookup fd w.fds ≡ some (some c)
    → d.fd ≡ fd
    → IsBalanced (after_append fd again now n d w).1
after_append-IsBalanced w fd again now n c d h there known =
    if_keeps (ltb_ℤ n (pos 0)) _ _
      (λ _.
        if_keeps again _ _
          (λ _.
            assign-IsBalanced w fd (some d) [] true w.countacp w.expiring h
              (λ k. omega (arith, kept_accounts w fd c there k d)) known)
          λ _.
            assign-IsBalanced w fd none (closed d.fd ∷ shut d.fd ∷ []) w.locked w.countacp
              w.expiring h (λ k. rw known (omega (arith, closed_accounts w fd c there k))) tt)
      λ _.
        assign-IsBalanced w fd (some (record d { last_alive_time = now })) (watch_output fd ∷ [])
          w.locked w.countacp w.expiring h
          (λ k. omega (arith, kept_accounts w fd c there k (record d { last_alive_time = now })))
          known

handle_readable-IsBalanced :
    (fd : ℤ) (rs : List Read) (again : Bool) (now : ℕ) (w : Web)
    → IsBalanced w
    → IsBalanced (handle_readable fd rs again now w).1
unfolding handle_readable
handle_readable-IsBalanced fd rs again now w h = read_by (readn 8192 rs)
  where
    read_by : (o : Option Received) → IsBalanced (after_read fd again now o w).1
    read_by none = h
    read_by (some r) =
        if_keeps w.locked _ _ (λ _. h)
          λ _. with_client-IsBalanced w fd (lookup fd w.fds) _ refl h λ c there known.
            after_append-IsBalanced w fd again now r.count c
              (record c { read_buf = c.read_buf ++ whole_buffer r.filled }) h there known

after_write-IsBalanced :
    (fd : ℤ) (now : ℕ) (buf : Bytes) (c : ClientT) (o : Option Written) (w : Web)
    → IsBalanced w
    → lookup fd w.fds ≡ some (some c)
    → c.fd ≡ fd
    → IsBalanced (after_write fd now buf c o w).1
after_write-IsBalanced fd now buf c none w h there known = h
after_write-IsBalanced fd now buf c (some r) w h there known =
    if_keeps (r.value == pos (length buf) || ltb_ℤ r.value (pos 0)) _ _
      (λ _.
        assign-IsBalanced w fd none (closed fd ∷ shut fd ∷ unwatch fd ∷ wrote fd r.sent ∷ [])
          w.locked w.countacp w.expiring h (λ k. omega (arith, closed_accounts w fd c there k)) tt)
      λ _.
        assign-IsBalanced w fd (some (record c { write_buf = buf; last_alive_time = now }))
          (wrote fd r.sent ∷ []) w.locked w.countacp w.expiring h
          (λ k. omega (
            arith,
            kept_accounts w fd c there k (record c { write_buf = buf; last_alive_time = now }),
          ))
          known

handle_writable-IsBalanced :
    (fd : ℤ) (rs : List ℤ) (now : ℕ) (w : Web)
    → IsBalanced w
    → IsBalanced (handle_writable fd rs now w).1
unfolding handle_writable
handle_writable-IsBalanced fd rs now w h =
    if_keeps w.locked _ _ (λ _. h)
      λ _. with_client-IsBalanced w fd (lookup fd w.fds) _ refl h λ c there known.
        after_write-IsBalanced fd now (response page) c (writen (response page) rs) w h there known

check_timeout-IsBalanced :
    (k : ℤ) (tm : ℕ) (w : Web) → IsBalanced w → IsBalanced (check_timeout k tm w).1
unfolding check_timeout
check_timeout-IsBalanced k tm w h =
    unless w.expiring (note_old k tm (lookup k w.fds) w) (noted (lookup k w.fds))
  where
    noted : (o : Option (Option ClientT)) → IsBalanced (note_old k tm o w).1
    noted (some (some c)) =
        if_keeps (leb (c.last_alive_time + 30) tm) _ _
          (λ _. record { balance = h.balance; knows = h.knows }) (λ _. h)
    noted (some none) = h
    noted none = h

    unless :
        (o : Option ℤ) (r : Ending × Web) → IsBalanced r.1 → IsBalanced (unless_expiring o w r).1
    unless none r hr = hr
    unless (some j) r hr = h

expire-IsBalanced : (w : Web) → IsBalanced w → IsBalanced (expire w).1
unfolding expire
expire-IsBalanced w h = removed w.expiring
  where
    removed : (o : Option ℤ) → IsBalanced (remove_noted o w).1
    removed none = h
    removed (some k) =
        if_keeps w.locked _ _ (λ _. h)
          λ _. with_client-IsBalanced w k (lookup k w.fds) _ refl h λ c there known.
            assign-IsBalanced w k none (closed c.fd ∷ shut c.fd ∷ unwatch c.fd ∷ []) w.locked
              w.countacp none h (λ j. rw known (omega (arith, closed_accounts w k c there j))) tt

-- The kernel accepts only descriptors that are closed.
abbrev pub FreshEvent : WebEvent → Web → Type 0
FreshEvent (on_accept a) w = IsFresh a.conn_sock w
FreshEvent (on_readable fd rs again now) w = Unit
FreshEvent (on_writable fd rs now) w = Unit
FreshEvent (on_check k tm) w = Unit
FreshEvent on_expire w = Unit

abbrev pub FreshOn : (Web → Type 0) → Ending × Web → Type 0
FreshOn P (returned, w) = P w
FreshOn P (deadlocked, w) = Unit
FreshOn P (crashed, w) = Unit
FreshOn P (waiting, w) = Unit

abbrev pub FreshRun : List WebEvent → Web → Type 0
FreshRun [] w = Unit
FreshRun (e ∷ es) w = FreshEvent e w × FreshOn (FreshRun es) (web_step e w)

pub web_step-IsBalanced :
    (e : WebEvent) (w : Web) → FreshEvent e w → IsBalanced w → IsBalanced (web_step e w).1
unfolding web_step
web_step-IsBalanced (on_accept a) w f h = handle_accept-IsBalanced a w f h
web_step-IsBalanced (on_readable fd rs again now) w f h =
    handle_readable-IsBalanced fd rs again now w h
web_step-IsBalanced (on_writable fd rs now) w f h = handle_writable-IsBalanced fd rs now w h
web_step-IsBalanced (on_check k tm) w f h = check_timeout-IsBalanced k tm w h
web_step-IsBalanced on_expire w f h = expire-IsBalanced w h

-- In any run of events of the two threads in which the kernel accepts only descriptors that are
-- closed: if each descriptor has been accepted as often as it has been closed, once more if its
-- entry in `fds` holds a client, and each client has the descriptor of its entry, then this is so
-- where the run stops, at a deadlock or a crash too.
pub web_run-IsBalanced :
    (es : List WebEvent) (w : Web) → FreshRun es w → IsBalanced w → IsBalanced (web_run es w).1
unfolding web_run
web_run-IsBalanced [] w f h = h
web_run-IsBalanced (e ∷ es) w (now, later) h =
    rest (web_step e w).0 (web_step e w).1 later (web_step-IsBalanced e w now h)
      (web_run-IsBalanced es)
  where
    rest :
        (o : Ending) (v : Web)
        → FreshOn (FreshRun es) (o, v)
        → IsBalanced v
        → ((u : Web) → FreshRun es u → IsBalanced u → IsBalanced (web_run es u).1)
        → IsBalanced (run_on (web_run es) (o, v)).1
    rest returned v fresh hv again = again v fresh hv
    rest deadlocked v fresh hv again = hv
    rest crashed v fresh hv again = hv
    rest waiting v fresh hv again = hv
