-- ===== src/Server/Phases/Call.antt =====
-- The steps of one thread in a row against `handle_msghead` of socket/netapi/netapi.cpp.
use learning_directory.Base.{
  ◌≡◌, refl, sym, ap, ◌∙◌, [], ◌∷◌, Bool, true, false, Bytes, buffer, ◌==◌, not, bytes_eq,
}
use learning_directory.Base.Int.{ℤ}
use learning_directory.Netapi.State.{
  Recv, got, failed, Net, Outcome, done, blocked, exited, undefined, Io, and_then, ◌>>=◌, ◌>>◌,
  when, recv, skip,
}
use learning_directory.Netapi.Receive.{
  Head, read_head, handle_msgbody, show_body, pass_on, forward, register_sender, route, handle_head,
  dispatch_head, handle_msghead, print_buffers,
}
use learning_directory.Server.Phases.{
  Phase, unstarted, heading, registering, bodying, passing, at, headed, bodied, receive_body,
  phase_step,
}

-- A further step of a thread that is not back at its next head.
abbrev pub again : Phase → Io Phase
again (heading s) = at (heading s)
again unstarted = phase_step unstarted
again (registering s head_buf) = phase_step (registering s head_buf)
again (bodying s head_buf) = phase_step (bodying s head_buf)
again (passing s head_buf r) = phase_step (passing s head_buf r)

module _ {A B C : Type 0} where
  bind_assoc :
      (m : Io A) (f : A → Io B) (g : B → Io C) (n : Net)
      → ((m >>= f) >>= g) n ≡ (m >>= λ a. f a >>= g) n
  bind_assoc m f g n = after (m n).0 (m n).1
    where
      after :
          (o : Outcome A) (k : Net)
          → and_then (and_then o k f).0 (and_then o k f).1 g ≡ and_then o k (λ a. f a >>= g)
      after (done a) k = refl
      after blocked k = refl
      after exited k = refl
      after undefined k = refl

module _ {A B : Type 0} where
  bind_cong :
      (m : Io A) (f g : A → Io B) (n : Net)
      → ((a : A) (k : Net) → f a k ≡ g a k)
      → (m >>= f) n ≡ (m >>= g) n
  bind_cong m f g n h = after (m n).0 (m n).1
    where
      after : (o : Outcome A) (k : Net) → and_then o k f ≡ and_then o k g
      after (done a) k = h a k
      after blocked k = refl
      after exited k = refl
      after undefined k = refl

module _ (s : ℤ) (buf : Bytes) where
  abbrev name : Bytes
  name = (read_head buf).to_procname

  abbrev back_at_head : Io (Unit {0}) → Io Phase
  back_at_head m = m >>= λ _. at (heading s)

  -- A body, with the flag that says whether it is for the object itself.
  shown :
      (r : Recv) (n : Net)
      → (bodied s buf true r >>= again) n ≡ back_at_head (show_body r >> skip) n
  shown failed n = refl
  shown (got []) n = refl
  shown (got (c ∷ cs)) n = refl

  abbrev handled : Bool → Io (Unit {0})
  handled own = when own (handle_msgbody s) >> when (not own) (forward buf name s)

  body_phases :
      (own : Bool) (n : Net) → (receive_body s buf own >>= again) n ≡ back_at_head (handled own) n
  unfolding handle_msgbody forward phase_step print_buffers
  body_phases true n =
      bind_assoc (recv s 40) (bodied s buf true) again n
      ∙ bind_cong (recv s 40) _ _ n shown
      ∙ sym (bind_assoc (recv s 40) (λ r. show_body r >> skip) (λ _. at (heading s)) n)
      ∙ ap (λ p. and_then p.0 p.1 λ _. at (heading s))
          (sym (bind_assoc (recv s 40) show_body (λ _. skip) n))
  body_phases false n =
      bind_assoc (recv s 40) (bodied s buf false) again printed
      ∙ sym (bind_assoc (recv s 40) (pass_on buf name) (λ _. at (heading s)) printed)
    where
      printed : Net
      printed = (print_buffers (buf ∷ []) n).1

  routed :
      (n : Net)
      → (phase_step (bodying s buf) >>= again) n ≡ back_at_head (route buf (read_head buf) s) n
  unfolding phase_step route
  routed n = body_phases (name == n.processname) n

  registered :
      (n : Net)
      → ((phase_step (registering s buf) >>= again) >>= again) n
        ≡ back_at_head (handle_head buf s) n
  unfolding phase_step handle_head
  registered n =
      ap (λ p. and_then p.0 p.1 again)
        (bind_assoc (register_sender h) (λ _. at (bodying s buf)) again n)
      ∙ bind_assoc (register_sender h) (λ _. phase_step (bodying s buf)) again n
      ∙ bind_cong (register_sender h) _ _ n (λ _. routed)
      ∙ sym (bind_assoc (register_sender h) (λ _. route buf h s) (λ _. at (heading s)) n)
    where
      h : Head
      h = read_head buf

abbrev pub thrice : Io Phase → Io Phase
thrice m = ((m >>= again) >>= again) >>= again

thrice-bind :
    {A : Type 0} (m : Io A) (f : A → Io Phase) (n : Net)
    → thrice (m >>= f) n ≡ (m >>= λ a. thrice (f a)) n
thrice-bind m f n =
    ap (λ p. and_then (and_then p.0 p.1 again).0 (and_then p.0 p.1 again).1 again)
      (bind_assoc m f again n)
    ∙ ap (λ p. and_then p.0 p.1 again) (bind_assoc m (λ a. f a >>= again) again n)
    ∙ bind_assoc m (λ a. (f a >>= again) >>= again) again n

after_head :
    (s : ℤ) (r : Recv) (n : Net)
    → thrice (headed s r) n ≡ (dispatch_head s r >>= λ _. at (heading s)) n
after_head s failed n = refl
after_head s (got []) n = refl
after_head s (got (c ∷ cs)) n = registered s (buffer 60 (c ∷ cs)) n

-- The steps of a message thread that end at its calls of the kernel, from the `recv` of a head
-- until the thread is back at its next head, three more steps at most: made in a row they do what
-- `handle_msghead` does, in any state, where it waits, ends the process or reads an empty queue
-- too.
pub phases_call :
    (s : ℤ) (n : Net)
    → thrice (phase_step (heading s)) n ≡ (handle_msghead s >>= λ _. at (heading s)) n
unfolding phase_step handle_msghead
phases_call s n =
    thrice-bind (recv s 60) (headed s) n
    ∙ bind_cong (recv s 60) _ _ n (after_head s)
    ∙ sym (bind_assoc (recv s 60) (dispatch_head s) (λ _. at (heading s)) n)
