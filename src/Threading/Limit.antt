-- ===== src/Threading/Limit.antt =====
-- How far socket/sdr/my_sdr.cpp gets with FILEFLAG 0.
use learning_directory.Base.{
  weigh-append, ℕ, ◌≡◌, ◌≢◌, ◌≤◌, ◌<◌, inl, inr, refl, List, [], ◌∷◌, true, false, Bytes, ◌==◌,
  arith, length, get_elem?, if_case, Bool-cases, ltb,
}
use learning_directory.Base.Int.{ℤ, pos, int_eq}
use learning_directory.Threading.Control.{
  ThreadingCtrl, init, thread_creating_info, thread_creating_permit,
}
use learning_directory.Threading.Sender.{
  Main, looping, calling, asking, creating, returned, failed, undefined, sending, Sender, start,
  main_thread, Turn, main_turn, thread_turn, over, turn, turns,
}
use learning_directory.Threading.Tasks.{
  weigh-le, one, one_le, counted, counted_le, past_send, past_close,
}
use learning_directory.Threading.Queue.{IsQueued, turn-IsQueued, start-IsQueued}
use learning_directory.Threading.Messages.{Obeys, ObeysAll, IsFew, goes_on, sending_thread-IsFew}

few_counted : (s : Sender) → IsFew s → s.msg_count ≤ 10
few_counted s h =
    let b = weigh-le counted past_send counted_le s.threads in omega (arith, b, h.few, h.count)

permit_room :
    (n : ℕ) (c : ThreadingCtrl)
    → c.isfile ≡ false
    → c.max_thread ≡ 10
    → thread_creating_permit n c ≡ true
    → length c.threadqueue < 10
unfolding thread_creating_permit
permit_room n c f m p = ground (arith, f, m, p)

permitted-IsFew :
    (n : ℕ) (s : Sender)
    → IsQueued s
    → IsFew s
    → thread_creating_permit n s.ctrl ≡ true
    → IsFew (record s { main = creating })
permitted-IsFew n s q h p =
    goes_on creating s (λ e. cc)
      (λ k m.
        let room = permit_room n s.ctrl h.unfiled h.limit p in
        omega (arith, room, q.queue, h.unclosed k, one_le s.threads))
      h

created-IsFew :
    (id : ℕ) (err : ℤ) (s : Sender)
    → s.main ≡ creating
    → IsFew s
    → IsFew (main_thread false id err creating s)
unfolding main_thread thread_creating_info
created-IsFew id err s e h = elim (Bool-cases (err == pos 0)) [
  | inl made ↦ record {
    few = rw made (omega (arith, h.few, weigh-append past_send s.threads sending));
    count = rw made (omega (arith, h.count, weigh-append counted s.threads sending));
    unclosed =
        λ k. rw made (omega (arith, h.unclosed k, weigh-append past_close s.threads sending));
    ten = λ k. rw made (omega (arith, h.room k e, weigh-append one s.threads sending));
    room = λ k m. absurd (cc);
    limit = rw (made, h.unfiled) (h.limit);
    unfiled = rw (made, h.unfiled);
    unfinished = λ q. cc;
  }
  | inr failing ↦ record {
    few = rw failing (h.few);
    count = rw failing (h.count);
    unclosed = λ k. rw failing (h.unclosed k);
    ten = λ k. rw failing (h.ten k);
    room = λ k m. absurd (cc);
    limit = rw failing (h.limit);
    unfiled = rw failing (h.unfiled);
    unfinished = λ q. cc;
  }
]

main_thread-IsFew :
    (id : ℕ) (err : ℤ) (m : Main) (s : Sender)
    → s.main ≡ m
    → IsQueued s
    → IsFew s
    → IsFew (main_thread false id err m s)
unfolding main_thread
main_thread-IsFew id err looping s e q h =
    if_case IsFew (ltb s.msg_count 100) _ _ (λ _. goes_on calling s (λ q. cc) (λ k q. cc) h)
      λ b. absurd (let few = few_counted s h in ground (arith, few, b))
main_thread-IsFew id err calling s e q h = goes_on (asking s.msg_count) s (λ q. cc) (λ k q. cc) h
main_thread-IsFew id err (asking n) s e q h =
    if_case IsFew (thread_creating_permit n s.ctrl) _ _ (λ p. permitted-IsFew n s q h p)
      λ _. goes_on looping s (λ q. cc) (λ k q. cc) h
main_thread-IsFew id err creating s e q h = created-IsFew id err s e h
main_thread-IsFew id err returned s e q h = h
main_thread-IsFew id err failed s e q h = h
main_thread-IsFew id err undefined s e q h = h

turn-IsFew : (t : Turn) (s : Sender) → Obeys t s → IsQueued s → IsFew s → IsFew (turn false t s)
unfolding turn
turn-IsFew (main_turn id err) s o q h = main_thread-IsFew id err s.main s refl q h
turn-IsFew (thread_turn i r) s o q h =
    if_case IsFew (over s.main) _ _ (λ _. h)
      λ _. sending_thread-IsFew i s h r (get_elem? s.threads i) refl o

turns-IsFew :
    (ts : List Turn) (s : Sender) → ObeysAll ts s → IsQueued s → IsFew s → IsFew (turns false ts s)
unfolding turns
turns-IsFew [] s o q h = h
turns-IsFew (t ∷ ts) s o q h =
    turns-IsFew ts (turn false t s) o.1 (turn-IsQueued false t s q) (turn-IsFew t s o.0 q h)

start-IsFew : (content : Bytes) → IsFew (start false content)
unfolding start init
start-IsFew content = record {
  few = omega arith;
  count = refl;
  unclosed = λ _. refl;
  ten = λ _. omega arith;
  room = λ _ _. omega arith;
  limit = refl;
  unfiled = refl;
  unfinished = λ q. cc;
}

-- With FILEFLAG 0, however the threads take turns, if `send` on the closed socket fails: the count
-- of messages never exceeds 10, so the loop up to 100 messages never ends and `main` does not
-- return.
pub ten_messages :
    (content : Bytes) (ts : List Turn)
    → ObeysAll ts (start false content)
    → ((turns false ts (start false content)).msg_count ≤ 10)
      × ((turns false ts (start false content)).main ≢ returned)
ten_messages content ts o =
    let h =
      turns-IsFew ts (start false content) o (start-IsQueued false content) (start-IsFew content) in
    (few_counted (turns false ts (start false content)) h, h.unfinished)
