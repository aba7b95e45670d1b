-- ===== src/Threading/Messages.antt =====
-- socket/sdr/my_sdr.cpp with FILEFLAG 0: the threads share one socket, which the first of them closes.
use learning_directory.Base.{
  weigh, weigh-set, ℕ, ◌+◌, ◌%◌, ◌^◌, ◌≡◌, ◌≢◌, ◌≤◌, ◌<◌, inl, inr, List, [], ◌∷◌, ◌++◌, true,
  false, Option, none, some, Bytes, ◌==◌, arith, take, get_elem?, set, if_case, Bool-cases,
  ne_of_beq,
}
use learning_directory.Base.Int.{ℤ, minus_one, int_eq, pos_part}
use learning_directory.Threading.Control.{thread_exiting_info, pop}
use learning_directory.Threading.Sender.{
  Main, creating, returned, failed, undefined, Task, sending, reporting, closing, leaving, ended,
  Sender, message, send_message, leave, sending_thread, Turn, main_turn, thread_turn, turn,
}
use learning_directory.Threading.Tasks.{
  weigh-le, one, counted, counted_le, past_send, past_send_le, past_close,
}

-- `send` on a closed descriptor fails.
abbrev pub Obeys : Turn → Sender → Type 0
Obeys (main_turn id err) s = Unit
Obeys (thread_turn i r) s =
    s.connected ≡ false → get_elem? s.threads i ≡ some sending → r ≡ minus_one

abbrev pub ObeysAll : List Turn → Sender → Type 0
ObeysAll [] s = Unit
ObeysAll (t ∷ ts) s = Obeys t s × ObeysAll ts (turn false t s)

pub record IsFew (s : Sender) : Type 0 where
  pub few : weigh past_send s.threads ≤ 10
  pub count : s.msg_count ≡ weigh counted s.threads
  pub unclosed : s.connected ≡ true → weigh past_close s.threads ≡ 0
  pub ten : s.connected ≡ true → weigh one s.threads ≤ 10
  pub room : s.connected ≡ true → s.main ≡ creating → weigh one s.threads < 10
  pub limit : s.ctrl.max_thread ≡ 10
  pub unfiled : s.ctrl.isfile ≡ false
  pub unfinished : s.main ≢ returned

-- `main` goes on to `m`.
pub goes_on :
    (m : Main) (s : Sender)
    → m ≢ returned
    → (s.connected ≡ true → m ≡ creating → weigh one s.threads < 10)
    → IsFew s
    → IsFew (record s { main = m })
goes_on m s d f h = record {
  few = h.few;
  count = h.count;
  unclosed = h.unclosed;
  ten = h.ten;
  room = f;
  limit = h.limit;
  unfiled = h.unfiled;
  unfinished = d;
}

module _ (i : ℕ) (s : Sender) (h : IsFew s) where
  same_one :
      (t u : Task)
      → get_elem? s.threads i ≡ some t
      → weigh one (set s.threads i u) ≡ weigh one s.threads
  same_one t u e = omega (arith, weigh-set one s.threads i t u e)

  sent-IsFew :
      (bs : Bytes)
      → get_elem? s.threads i ≡ some sending
      → s.connected ≡ true
      → IsFew (record s { sent = bs; threads = set s.threads i reporting })
  sent-IsFew bs e c = record {
    few =
        let b = weigh-le past_send one past_send_le (set s.threads i reporting) in
        omega (arith, b, same_one sending reporting e, h.ten c);
    count = omega (arith, h.count, weigh-set counted s.threads i sending reporting e);
    unclosed =
        λ k. omega (arith, h.unclosed k, weigh-set past_close s.threads i sending reporting e);
    ten = λ k. omega (arith, h.ten k, same_one sending reporting e);
    room = λ k m. omega (arith, h.room k m, same_one sending reporting e);
    limit = h.limit;
    unfiled = h.unfiled;
    unfinished = h.unfinished;
  }

  send_message-IsFew :
      (r : ℤ)
      → get_elem? s.threads i ≡ some sending
      → Obeys (thread_turn i r) s
      → IsFew (send_message i r s)
  send_message-IsFew r e o =
      if_case IsFew (r == minus_one) _ _ (λ _. goes_on failed s (λ q. cc) (λ k q. cc) h)
        λ n. elim (Bool-cases s.connected) [
          | inl c ↦ sent-IsFew (s.sent ++ take (pos_part r) message) e c
          | inr c ↦ absurd (ne_of_beq r minus_one n (o c e))
        ]

  reported-IsFew :
      get_elem? s.threads i ≡ some reporting
      → IsFew
          (record s { msg_count = (s.msg_count + 1) % 2 ^ 32; threads = set s.threads i closing })
  reported-IsFew e = record {
    few = omega (arith, h.few, weigh-set past_send s.threads i reporting closing e);
    count =
        let b = weigh-le counted past_send counted_le s.threads in
        omega (arith, b, h.few, h.count, weigh-set counted s.threads i reporting closing e);
    unclosed =
        λ k. omega (arith, h.unclosed k, weigh-set past_close s.threads i reporting closing e);
    ten = λ k. omega (arith, h.ten k, same_one reporting closing e);
    room = λ k m. omega (arith, h.room k m, same_one reporting closing e);
    limit = h.limit;
    unfiled = h.unfiled;
    unfinished = h.unfinished;
  }

  closed-IsFew :
      get_elem? s.threads i ≡ some closing
      → IsFew (record s { connected = false; threads = set s.threads i leaving })
  closed-IsFew e = record {
    few = omega (arith, h.few, weigh-set past_send s.threads i closing leaving e);
    count = omega (arith, h.count, weigh-set counted s.threads i closing leaving e);
    unclosed = λ k. cc;
    ten = λ k. cc;
    room = λ k m. cc;
    limit = h.limit;
    unfiled = h.unfiled;
    unfinished = h.unfinished;
  }

  leave-IsFew :
      (q : List ℕ) → get_elem? s.threads i ≡ some leaving → IsFew (leave i (pop q s.ctrl) s)
  leave-IsFew [] e = goes_on undefined s (λ q. cc) (λ k q. cc) h
  leave-IsFew (front ∷ q) e = record {
    few = omega (arith, h.few, weigh-set past_send s.threads i leaving ended e);
    count = omega (arith, h.count, weigh-set counted s.threads i leaving ended e);
    unclosed = λ k. omega (arith, h.unclosed k, weigh-set past_close s.threads i leaving ended e);
    ten = λ k. omega (arith, h.ten k, same_one leaving ended e);
    room = λ k m. omega (arith, h.room k m, same_one leaving ended e);
    limit = h.limit;
    unfiled = h.unfiled;
    unfinished = h.unfinished;
  }

  pub sending_thread-IsFew :
      (r : ℤ) (o : Option Task)
      → get_elem? s.threads i ≡ o
      → Obeys (thread_turn i r) s
      → IsFew (sending_thread false i r o s)
  unfolding sending_thread thread_exiting_info
  sending_thread-IsFew r (some sending) e b = send_message-IsFew r e b
  sending_thread-IsFew r (some reporting) e b = reported-IsFew e
  sending_thread-IsFew r (some closing) e b = closed-IsFew e
  sending_thread-IsFew r (some leaving) e b = leave-IsFew s.ctrl.threadqueue e
  sending_thread-IsFew r (some ended) e b = h
  sending_thread-IsFew r none e b = h
