-- ===== src/Threading/Copy.antt =====
-- What the sender of socket/sdr/my_sdr.cpp has sent of its file, with FILEFLAG 1.
use mathlib.Core.Bool.{true≢false}
use learning_directory.Base.{
  ℕ, suc, ◌≡◌, ◌≢◌, ◌⊎◌, inl, inr, refl, sym, ◌∙◌, ap, List, [], ◌∷◌, ◌++◌, append_assoc,
  append-nil, true, false, not, Option, none, some, Bytes, arith, take_all, get_elem?, if_case, All,
}
use learning_directory.Base.Int.{ℤ, pos, minus_one, int_eq}
use learning_directory.Threading.Control.{
  ThreadingCtrl, thread_exiting_info, thread_creating_permit,
}
use learning_directory.Threading.Sender.{
  Main, looping, calling, asking, creating, returned, failed, undefined, Task, sending, reporting,
  closing, leaving, ended, Sender, start, send_file, leave, sending_thread, main_thread, Turn,
  main_turn, thread_turn, over, turn, turns,
}

-- A `send` fails, or takes at least one byte.
abbrev pub Answers : Turn → Type 0
Answers (main_turn id err) = Unit
Answers (thread_turn i r) = (r ≡ minus_one) ⊎ ((k : ℕ) × (r ≡ pos (suc k)))

pub record IsCopied (content : Bytes) (s : Sender) : Type 0 where
  pub bytes : s.main ≢ failed → s.sent ++ s.filecontent ≡ content
  pub finished : s.filefinished ≡ true → s.filecontent ≡ []
  pub done : s.main ≡ returned → s.filefinished ≡ true

module _ (content : Bytes) where
  send_file-IsCopied :
      (i : ℕ) (r : ℤ) (cs : Bytes) (s : Sender)
      → s.filecontent ≡ cs
      → Answers (thread_turn i r)
      → over s.main ≡ false
      → IsCopied content s
      → IsCopied content (send_file i r cs s)
  send_file-IsCopied i r [] s e a o h = record {
    bytes = h.bytes;
    finished = λ _. e;
    done = λ _. refl;
  }
  send_file-IsCopied i r (c ∷ cs) s e (inl fails) o h = rw fails (record {
    bytes = λ f. absurd (f refl);
    finished = λ f. absurd (let q = h.finished f in cc);
    done = λ q. cc;
  })
  send_file-IsCopied i r (c ∷ cs) s e (inr (k, takes)) o h = rw takes (record {
    bytes = λ f.
        rw (take_all {A = ℕ} k [] (omega arith))
          (append_assoc s.sent (c ∷ []) cs ∙ ap (◌++◌ s.sent) (sym e) ∙ h.bytes f);
    finished = λ f. absurd (let q = h.finished f in cc);
    done = h.done;
  })

  leave-IsCopied :
      (i : ℕ) (o : Option ThreadingCtrl) (s : Sender)
      → over s.main ≡ false
      → IsCopied content s
      → IsCopied content (leave i o s)
  leave-IsCopied i none s o h = record {
    bytes = λ f. h.bytes λ q. true≢false (sym (ap over q) ∙ o);
    finished = h.finished;
    done = λ q. cc;
  }
  leave-IsCopied i (some c) s o h = record { bytes = h.bytes; finished = h.finished; done = h.done }

  sending_thread-IsCopied :
      (i : ℕ) (r : ℤ) (t : Option Task) (s : Sender)
      → Answers (thread_turn i r)
      → over s.main ≡ false
      → IsCopied content s
      → IsCopied content (sending_thread true i r t s)
  unfolding sending_thread
  sending_thread-IsCopied i r (some sending) s a o h =
      send_file-IsCopied i r s.filecontent s refl a o h
  sending_thread-IsCopied i r (some reporting) s a o h = record {
    bytes = h.bytes;
    finished = h.finished;
    done = h.done;
  }
  sending_thread-IsCopied i r (some closing) s a o h = record {
    bytes = h.bytes;
    finished = h.finished;
    done = h.done;
  }
  sending_thread-IsCopied i r (some leaving) s a o h =
      leave-IsCopied i (thread_exiting_info s.ctrl) s o h
  sending_thread-IsCopied i r (some ended) s a o h = h
  sending_thread-IsCopied i r none s a o h = h

  -- `main` goes on to `m`, from a place where the process runs.
  goes_on :
      (m : Main) (s : Sender)
      → over s.main ≡ false
      → (m ≡ returned → s.filefinished ≡ true)
      → IsCopied content s
      → IsCopied content (record s { main = m })
  goes_on m s o d h = record {
    bytes = λ f. h.bytes λ q. true≢false (sym (ap over q) ∙ o);
    finished = h.finished;
    done = d;
  }

  main_thread-IsCopied :
      (id : ℕ) (err : ℤ) (m : Main) (s : Sender)
      → s.main ≡ m
      → IsCopied content s
      → IsCopied content (main_thread true id err m s)
  unfolding main_thread
  main_thread-IsCopied id err looping s e h =
      if_case (IsCopied content) (not s.filefinished) _ _
        (λ _. goes_on calling s (ap over e) (λ q. cc) h)
        λ n. goes_on returned s (ap over e) (λ _. ground (arith, n)) h
  main_thread-IsCopied id err calling s e h = goes_on (asking s.msg_count) s (ap over e) (λ q. cc) h
  main_thread-IsCopied id err (asking n) s e h =
      if_case (IsCopied content) (thread_creating_permit n s.ctrl) _ _
        (λ _. goes_on creating s (ap over e) (λ q. cc) h)
        λ _. goes_on looping s (ap over e) (λ q. cc) h
  main_thread-IsCopied id err creating s e h =
      let on = goes_on looping s (ap over e) (λ q. cc) h in
      record { bytes = on.bytes; finished = on.finished; done = on.done }
  main_thread-IsCopied id err returned s e h = h
  main_thread-IsCopied id err failed s e h = h
  main_thread-IsCopied id err undefined s e h = h

  turn-IsCopied :
      (t : Turn) (s : Sender) → Answers t → IsCopied content s → IsCopied content (turn true t s)
  unfolding turn
  turn-IsCopied (main_turn id err) s a h = main_thread-IsCopied id err s.main s refl h
  turn-IsCopied (thread_turn i r) s a h =
      if_case (IsCopied content) (over s.main) _ _ (λ _. h)
        λ o. sending_thread-IsCopied i r (get_elem? s.threads i) s a o h

  turns-IsCopied :
      (ts : List Turn) (s : Sender)
      → All Answers ts
      → IsCopied content s
      → IsCopied content (turns true ts s)
  unfolding turns
  turns-IsCopied [] s a h = h
  turns-IsCopied (t ∷ ts) s a h = turns-IsCopied ts (turn true t s) a.1 (turn-IsCopied t s a.0 h)

  start-IsCopied : IsCopied content (start true content)
  unfolding start
  start-IsCopied = record { bytes = λ _. refl; finished = λ q. cc; done = λ q. cc }

  -- With FILEFLAG 1, however the threads take turns: if each `send` fails or takes at least one
  -- byte, and `main` has returned, then the bytes sent are exactly the content of the file, in its
  -- order.
  pub file_sent :
      (ts : List Turn)
      → All Answers ts
      → (turns true ts (start true content)).main ≡ returned
      → (turns true ts (start true content)).sent ≡ content
  file_sent ts a r =
      let s = turns true ts (start true content) in
      let h = turns-IsCopied ts (start true content) a start-IsCopied in
      sym (append-nil s.sent) ∙ ap (◌++◌ s.sent) (sym (h.finished (h.done r))) ∙ h.bytes λ q. cc
