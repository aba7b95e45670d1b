-- ===== src/Threading/File.antt =====
-- The threads that socket/sdr/my_sdr.cpp starts with FILEFLAG 1.
use mathlib.Core.Bool.{true≢false}
use learning_directory.Base.{
  ℕ, zero, suc, ◌+◌, ◌%◌, ◌^◌, ◌≡◌, ◌≤◌, ◌⊎◌, inl, inr, refl, sym, ◌∙◌, ap, List, [], ◌∷◌, Bool,
  true, false, not, Option, none, some, Bytes, ◌==◌, arith, length, length-append, length-set,
  get_elem?, set, if_case, Bool-cases,
}
use learning_directory.Base.Int.{ℤ, pos, minus_one, int_eq}
use learning_directory.Threading.Control.{
  ThreadingCtrl, init, thread_creating_info, thread_exiting_info, thread_creating_permit, pop,
}
use learning_directory.Threading.Sender.{
  Main, looping, calling, asking, creating, returned, failed, undefined, Task, sending, reporting,
  closing, leaving, ended, Sender, start, send_file, leave, sending_thread, main_thread, Turn,
  main_turn, thread_turn, over, turn, turns,
}

-- The threads that have been started, and what `threadingctrl` knows of them.
pub record IsSingle (s : Sender) : Type 0 where
  pub single : length s.threads ≤ 1
  pub started : s.ctrl.file_thread_start_count ≡ length s.threads
  pub unfailed : over s.main ≡ false → s.ctrl.file_thread_fail_count ≡ 0
  pub limit : s.ctrl.max_thread ≡ 1
  pub filing : s.ctrl.isfile ≡ true
  pub first : s.main ≡ creating → length s.threads ≡ 0

-- The count of the threads is left alone.
moved-IsSingle :
    (s : Sender) (i : ℕ) (u : Task) (fin conn : Bool) (n : ℕ) (q : List ℕ)
    → IsSingle s
    → IsSingle (record s {
      ctrl = record s.ctrl { threadqueue = q };
      threads = set s.threads i u;
      filefinished = fin;
      connected = conn;
      msg_count = n;
    })
moved-IsSingle s i u fin conn n q h = record {
  single = omega (arith, h.single, length-set s.threads i u);
  started = h.started ∙ sym (length-set s.threads i u);
  unfailed = h.unfailed;
  limit = h.limit;
  filing = h.filing;
  first = λ e. length-set s.threads i u ∙ h.first e;
}

send_file-IsSingle :
    (i : ℕ) (r : ℤ) (cs : Bytes) (s : Sender) → IsSingle s → IsSingle (send_file i r cs s)
send_file-IsSingle i r [] s h =
    moved-IsSingle s i closing true s.connected s.msg_count s.ctrl.threadqueue h
send_file-IsSingle i r (c ∷ cs) s h =
    if_case IsSingle (r == minus_one) _ _
      (λ _. record {
        single = h.single;
        started = h.started;
        unfailed = λ f. cc;
        limit = h.limit;
        filing = h.filing;
        first = λ q. cc;
      })
      λ _. record {
        single = h.single;
        started = h.started;
        unfailed = h.unfailed;
        limit = h.limit;
        filing = h.filing;
        first = h.first;
      }

leave-IsSingle :
    (i : ℕ) (s : Sender) (q : List ℕ) → IsSingle s → IsSingle (leave i (pop q s.ctrl) s)
leave-IsSingle i s [] h = record {
  single = h.single;
  started = h.started;
  unfailed = λ f. cc;
  limit = h.limit;
  filing = h.filing;
  first = λ q. cc;
}
leave-IsSingle i s (front ∷ q) h =
    moved-IsSingle s i ended s.filefinished s.connected s.msg_count q h

sending_thread-IsSingle :
    (i : ℕ) (r : ℤ) (o : Option Task) (s : Sender)
    → IsSingle s
    → IsSingle (sending_thread true i r o s)
unfolding sending_thread thread_exiting_info
sending_thread-IsSingle i r (some sending) s h = send_file-IsSingle i r s.filecontent s h
sending_thread-IsSingle i r (some reporting) s h =
    moved-IsSingle s i closing s.filefinished s.connected ((s.msg_count + 1) % 2 ^ 32)
      s.ctrl.threadqueue h
sending_thread-IsSingle i r (some closing) s h =
    moved-IsSingle s i leaving s.filefinished false s.msg_count s.ctrl.threadqueue h
sending_thread-IsSingle i r (some leaving) s h = leave-IsSingle i s s.ctrl.threadqueue h
sending_thread-IsSingle i r (some ended) s h = h
sending_thread-IsSingle i r none s h = h

refuses_second :
    (n : ℕ) (c : ThreadingCtrl)
    → c.isfile ≡ true
    → c.max_thread ≡ 1
    → c.file_thread_fail_count ≡ 0
    → c.file_thread_start_count ≡ 1
    → thread_creating_permit n c ≡ false
unfolding thread_creating_permit
refuses_second n c f m z o = rw (f, m, z, o)

zero_or_one : (n : ℕ) → n ≤ 1 → (n ≡ 0) ⊎ (n ≡ 1)
zero_or_one zero h = inl refl
zero_or_one (suc n) h = inr (omega arith)

-- `main` goes on to `m`.
staying :
    (m : Main) (s : Sender)
    → (over m ≡ false → over s.main ≡ false)
    → (m ≡ creating → length s.threads ≡ 0)
    → IsSingle s
    → IsSingle (record s { main = m })
staying m s alive f h = record {
  single = h.single;
  started = h.started;
  unfailed = λ a. h.unfailed (alive a);
  limit = h.limit;
  filing = h.filing;
  first = f;
}

permits_first :
    (n : ℕ) (s : Sender)
    → s.main ≡ asking n
    → IsSingle s
    → thread_creating_permit n s.ctrl ≡ true
    → length s.threads ≡ 0
permits_first n s e h p = elim (zero_or_one (length s.threads) h.single) [
  | inl empty ↦ empty
  | inr there ↦ absurd (
      true≢false (
        sym p
        ∙ refuses_second n s.ctrl h.filing h.limit (h.unfailed (ap over e)) (h.started ∙ there)))
]

created-IsSingle :
    (id : ℕ) (err : ℤ) (s : Sender)
    → s.main ≡ creating
    → IsSingle s
    → IsSingle (main_thread true id err creating s)
unfolding main_thread thread_creating_info
created-IsSingle id err s e h = elim (Bool-cases (err == pos 0)) [
  | inl made ↦ record {
    single = rw made (omega (arith, length-append s.threads (sending ∷ []), h.first e));
    started =
        rw (made, h.filing, h.started, h.first e, length-append s.threads (sending ∷ []))
          (omega (arith, h.first e));
    unfailed = λ a. rw (made, h.filing) (h.unfailed (ap over e));
    limit = rw (made, h.filing) (h.limit);
    filing = rw (made, h.filing);
    first = λ q. cc;
  }
  | inr failing ↦ record {
    single = rw failing (h.single);
    started = rw failing (h.started);
    unfailed = λ a. rw failing (h.unfailed (ap over e));
    limit = rw failing (h.limit);
    filing = rw failing (h.filing);
    first = λ q. cc;
  }
]

main_thread-IsSingle :
    (id : ℕ) (err : ℤ) (m : Main) (s : Sender)
    → s.main ≡ m
    → IsSingle s
    → IsSingle (main_thread true id err m s)
unfolding main_thread
main_thread-IsSingle id err looping s e h =
    if_case IsSingle (not s.filefinished) _ _ (λ _. staying calling s (λ _. ap over e) (λ q. cc) h)
      λ _. staying returned s (λ _. ap over e) (λ q. cc) h
main_thread-IsSingle id err calling s e h =
    staying (asking s.msg_count) s (λ _. ap over e) (λ q. cc) h
main_thread-IsSingle id err (asking n) s e h =
    if_case IsSingle (thread_creating_permit n s.ctrl) _ _
      (λ p. staying creating s (λ _. ap over e) (λ q. permits_first n s e h p) h)
      λ _. staying looping s (λ _. ap over e) (λ q. cc) h
main_thread-IsSingle id err creating s e h = created-IsSingle id err s e h
main_thread-IsSingle id err returned s e h = h
main_thread-IsSingle id err failed s e h = h
main_thread-IsSingle id err undefined s e h = h

pub turn-IsSingle : (t : Turn) (s : Sender) → IsSingle s → IsSingle (turn true t s)
unfolding turn
turn-IsSingle (main_turn id err) s h = main_thread-IsSingle id err s.main s refl h
turn-IsSingle (thread_turn i r) s h =
    if_case IsSingle (over s.main) _ _ (λ _. h)
      λ _. sending_thread-IsSingle i r (get_elem? s.threads i) s h

turns-IsSingle : (ts : List Turn) (s : Sender) → IsSingle s → IsSingle (turns true ts s)
unfolding turns
turns-IsSingle [] s h = h
turns-IsSingle (t ∷ ts) s h = turns-IsSingle ts (turn true t s) (turn-IsSingle t s h)

pub start-IsSingle : (content : Bytes) → IsSingle (start true content)
unfolding start init
start-IsSingle content = record {
  single = omega arith;
  started = refl;
  unfailed = λ _. refl;
  limit = refl;
  filing = refl;
  first = λ _. refl;
}

-- With FILEFLAG 1, however the threads take turns and whatever `pthread_create` and `send` answer,
-- at most one thread is ever started.
pub one_thread :
    (content : Bytes) (ts : List Turn) → length (turns true ts (start true content)).threads ≤ 1
one_thread content ts = (turns-IsSingle ts (start true content) (start-IsSingle content)).single
