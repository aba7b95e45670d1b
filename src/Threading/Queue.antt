-- ===== src/Threading/Queue.antt =====
-- The queue of `threadingctrl` in socket/sdr/my_sdr.cpp against the threads of `sending_thread`.
use learning_directory.Base.{
  weigh, weigh-append, weigh-set, weigh-get, ℕ, ◌≡◌, ◌≢◌, refl, ◌∙◌, ap, List, [], ◌∷◌, ◌++◌, Bool,
  true, false, Option, none, some, Bytes, if◌then◌else◌, ◌==◌, arith, length, length-append,
  get_elem?, set, if_case,
}
use learning_directory.Base.Int.{ℤ, pos, minus_one, int_eq}
use learning_directory.Threading.Control.{
  ThreadingCtrl, thread_creating_info, thread_exiting_info, thread_creating_permit, pop,
}
use learning_directory.Threading.Sender.{
  Main, looping, calling, asking, creating, returned, failed, undefined, Task, sending, reporting,
  closing, leaving, ended, Sender, start, send_file, send_message, leave, sending_thread,
  main_thread, loop_test, Turn, main_turn, thread_turn, over, turn, turns,
}
use learning_directory.Threading.Tasks.{queued}

pub record IsQueued (s : Sender) : Type 0 where
  pub queue : length s.ctrl.threadqueue ≡ weigh queued s.threads
  pub defined : s.main ≢ undefined

-- A thread goes on without leaving the queue.
moved :
    (s : Sender) (i : ℕ) (t u : Task)
    → IsQueued s
    → get_elem? s.threads i ≡ some t
    → queued t ≡ queued u
    → length s.ctrl.threadqueue ≡ weigh queued (set s.threads i u)
moved s i t u h e same = omega (arith, h.queue, weigh-set queued s.threads i t u e)

send_file-IsQueued :
    (i : ℕ) (r : ℤ) (cs : Bytes) (s : Sender)
    → get_elem? s.threads i ≡ some sending
    → IsQueued s
    → IsQueued (send_file i r cs s)
send_file-IsQueued i r [] s e h = record {
  queue = moved s i sending closing h e refl;
  defined = h.defined;
}
send_file-IsQueued i r (c ∷ cs) s e h =
    if_case IsQueued (r == minus_one) _ _ (λ _. record { queue = h.queue; defined = λ q. cc })
      λ _. record { queue = h.queue; defined = h.defined }

send_message-IsQueued :
    (i : ℕ) (r : ℤ) (s : Sender)
    → get_elem? s.threads i ≡ some sending
    → IsQueued s
    → IsQueued (send_message i r s)
send_message-IsQueued i r s e h =
    if_case IsQueued (r == minus_one) _ _ (λ _. record { queue = h.queue; defined = λ q. cc })
      λ _. record { queue = moved s i sending reporting h e refl; defined = h.defined }

leave-IsQueued :
    (i : ℕ) (s : Sender) (q : List ℕ)
    → get_elem? s.threads i ≡ some leaving
    → length q ≡ weigh queued s.threads
    → s.main ≢ undefined
    → IsQueued (leave i (pop q s.ctrl) s)
leave-IsQueued i s [] e same fine = absurd (omega (arith, weigh-get queued s.threads i leaving e))
leave-IsQueued i s (front ∷ q) e same fine = record {
  queue = omega (arith, weigh-set queued s.threads i leaving ended e);
  defined = fine;
}

sending_thread-IsQueued :
    (fileflag : Bool) (i : ℕ) (r : ℤ) (o : Option Task) (s : Sender)
    → get_elem? s.threads i ≡ o
    → IsQueued s
    → IsQueued (sending_thread fileflag i r o s)
unfolding sending_thread thread_exiting_info
sending_thread-IsQueued true i r (some sending) s e h = send_file-IsQueued i r s.filecontent s e h
sending_thread-IsQueued false i r (some sending) s e h = send_message-IsQueued i r s e h
sending_thread-IsQueued fileflag i r (some reporting) s e h = record {
  queue = moved s i reporting closing h e refl;
  defined = h.defined;
}
sending_thread-IsQueued fileflag i r (some closing) s e h = record {
  queue = moved s i closing leaving h e refl;
  defined = h.defined;
}
sending_thread-IsQueued fileflag i r (some leaving) s e h =
    leave-IsQueued i s s.ctrl.threadqueue e h.queue h.defined
sending_thread-IsQueued fileflag i r (some ended) s e h = h
sending_thread-IsQueued fileflag i r none s e h = h

pub info_queue :
    (id : ℕ) (err : ℤ) (c : ThreadingCtrl)
    → (thread_creating_info id err c).threadqueue
      ≡ (if err == pos 0 then c.threadqueue ++ id ∷ [] else c.threadqueue)
unfolding thread_creating_info
info_queue id err c = ground arith

pub info_limit :
    (id : ℕ) (err : ℤ) (c : ThreadingCtrl)
    → (thread_creating_info id err c).max_thread ≡ c.max_thread
unfolding thread_creating_info
info_limit id err c = ground arith

created_queue :
    (id : ℕ) (err : ℤ) (s : Sender)
    → IsQueued s
    → length (thread_creating_info id err s.ctrl).threadqueue
      ≡ weigh queued (if err == pos 0 then s.threads ++ sending ∷ [] else s.threads)
created_queue id err s h =
    ap length (info_queue id err s.ctrl)
    ∙ if_case
        (λ q.
          (length q ≡ weigh queued (if err == pos 0 then s.threads ++ sending ∷ [] else s.threads)))
        (err == pos 0) _ _
        (λ y. rw y (
          omega (
            arith,
            h.queue,
            length-append s.ctrl.threadqueue (id ∷ []),
            weigh-append queued s.threads sending,
          )))
        λ n. rw n h.queue

main_thread-IsQueued :
    (fileflag : Bool) (id : ℕ) (err : ℤ) (m : Main) (s : Sender)
    → s.main ≡ m
    → IsQueued s
    → IsQueued (main_thread fileflag id err m s)
unfolding main_thread
main_thread-IsQueued fileflag id err looping s e h =
    if_case IsQueued (loop_test fileflag s) _ _ (λ _. record { queue = h.queue; defined = λ q. cc })
      λ _. record { queue = h.queue; defined = λ q. cc }
main_thread-IsQueued fileflag id err calling s e h = record { queue = h.queue; defined = λ q. cc }
main_thread-IsQueued fileflag id err (asking n) s e h =
    if_case IsQueued (thread_creating_permit n s.ctrl) _ _
      (λ _. record { queue = h.queue; defined = λ q. cc })
      λ _. record { queue = h.queue; defined = λ q. cc }
main_thread-IsQueued fileflag id err creating s e h = record {
  queue = created_queue id err s h;
  defined = λ q. cc;
}
main_thread-IsQueued fileflag id err returned s e h = h
main_thread-IsQueued fileflag id err failed s e h = h
main_thread-IsQueued fileflag id err undefined s e h = h

pub turn-IsQueued :
    (fileflag : Bool) (t : Turn) (s : Sender) → IsQueued s → IsQueued (turn fileflag t s)
unfolding turn
turn-IsQueued fileflag (main_turn id err) s h = main_thread-IsQueued fileflag id err s.main s refl h
turn-IsQueued fileflag (thread_turn i r) s h =
    if_case IsQueued (over s.main) _ _ (λ _. h)
      λ _. sending_thread-IsQueued fileflag i r (get_elem? s.threads i) s refl h

pub turns-IsQueued :
    (fileflag : Bool) (ts : List Turn) (s : Sender) → IsQueued s → IsQueued (turns fileflag ts s)
unfolding turns
turns-IsQueued fileflag [] s h = h
turns-IsQueued fileflag (t ∷ ts) s h =
    turns-IsQueued fileflag ts (turn fileflag t s) (turn-IsQueued fileflag t s h)

pub start-IsQueued : (fileflag : Bool) (content : Bytes) → IsQueued (start fileflag content)
unfolding start
start-IsQueued fileflag content = record { queue = refl; defined = λ e. cc }

-- With either FILEFLAG, however the threads take turns: the queue of `threadingctrl` has as many
-- entries as there are threads that have not left it, and no thread pops an empty queue.
pub queue_defined :
    (fileflag : Bool) (content : Bytes) (ts : List Turn)
    → IsQueued (turns fileflag ts (start fileflag content))
queue_defined fileflag content ts =
    turns-IsQueued fileflag ts (start fileflag content) (start-IsQueued fileflag content)
