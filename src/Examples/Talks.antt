-- ===== src/Examples/Talks.antt =====
-- Runs of socket/talk/chatchit/client.cpp, and of cs/send/main.cpp with cs/recv/main.cpp.
use learning_directory.Base.{
  ℕ, zero, suc, some, ◌≡◌, ◌≤◌, refl, sym, ap, ◌∙◌, ◌+◌, ◌%◌, ◌^◌, append-nil, append_assoc,
  if◌then◌else◌, ltb, arith, List, [], ◌∷◌, ◌++◌, arith, All, inl, codes, replicate, Bytes, true,
  false, length, drop, ne_of_beq,
}
use learning_directory.Base.Int.{ℤ, pos, minus_one, int_eq}
use learning_directory.Netapi.State.{Recv, got}
use learning_directory.Talk.Sending.{
  types, sends, ended, turns, turn, read_and_send, getline, sending_thread, c_str,
}
use learning_directory.Talk.Sending.Lines.{IsLine, talk, promptly, promptly_sent}
use learning_directory.Talk.Sending.Races.{threads_go, IsStart, line_lost}
use learning_directory.Talk.Sending.Overlong.{IsDeaf, overlong-IsDeaf}
use learning_directory.Talk.Receiving.{receiving_thread}
use learning_directory.Talk.Dialogue.{IsChunk, join}
use learning_directory.Talk.Start.{Answers, chatchit, chitchat, establish}
use learning_directory.Talk.Programs.{
  Session, chatchit_main, chitchat_main, Opposite, DisplaysAll, conversation,
}
use learning_directory.Cs.Sending.{
  finished, waiting as sending, result, message, send_main, send_messages, msg_amount,
}
use learning_directory.Cs.Receiving.{recv_messages}
use learning_directory.Cs.Counts.{received, Fits, Whole, counts}

abbrev hi : Bytes
hi = codes "hi"

abbrev you : Bytes
you = codes "you"

hi-IsLine : IsLine hi
hi-IsLine = ((λ e. cc), omega arith, (λ e. omega arith, (λ e. omega arith, tt)))

you-IsLine : IsLine you
you-IsLine =
    ((λ e. cc), omega arith, (λ e. omega arith, (λ e. omega arith, (λ e. omega arith, tt))))

-- Two lines are typed while one thread has ended. The first `send` takes one byte, the second all.
abbrev hastily : List (ℕ × ℤ)
hastily = (2, pos 3) ∷ (1, pos 3) ∷ (1, pos 1) ∷ (2, pos 3) ∷ []

line_lost_example :
    (ss : List Bytes) × ((turns
        (types (pos 0) ∷ types (pos 0) ∷ threads_go hastily)
        (talk (hi ∷ you ∷ []) [] (ended ∷ []) [])).sent
      ≡ ss)
    × All (IsStart (λ c. c ≡ you)) ss
line_lost_example =
    line_lost (λ c. c ≡ you) hi you [] [] (ended ∷ []) [] hastily hi-IsLine you-IsLine refl (tt, tt)

both_send :
    (turns
      (types (pos 0) ∷ types (pos 0) ∷ threads_go hastily)
      (talk (hi ∷ you ∷ []) [] (ended ∷ []) [])).sent
    ≡ codes "y" ∷ you ∷ []
unfolding turns turn read_and_send getline sending_thread c_str
both_send = refl

-- The kernel joins the two lines.
abbrev joined : List Recv
joined = got (codes "hiyou") ∷ []

joined_same :
    codes "hiyou" ++ []
    ≡ join (turns (promptly 0 (hi ∷ you ∷ [])) (talk (hi ∷ you ∷ []) [] [] [])).sent
joined_same = sym (ap join (promptly_sent (hi ∷ you ∷ []) [] [] [] (hi-IsLine, (you-IsLine, tt))))

hiyou-IsChunks : All IsChunk joined
hiyou-IsChunks = (
  (
    omega arith,
    (
      λ e. omega arith,
      (λ e. omega arith, (λ e. omega arith, (λ e. omega arith, (λ e. omega arith, tt)))),
    ),
  ),
  tt,
)

-- Both programs come to their loops; at one two lines are typed, at the other one.
abbrev connected : Answers
connected = record {
  local_listening_sock = pos 3;
  bound = pos 0;
  listening = pos 0;
  sending_sock = pos 4;
  connected = pos 0;
  receiving_sock = pos 5;
  rerr_id = pos 0;
}

abbrev side : ℕ → ℕ → List Bytes → List Recv → Session
side local_port peer_port typed rs = record {
  talking = record {
    local_port = local_port;
    peer_port = peer_port;
    recv_sock = pos 5;
    sending_sock = pos 4;
    receiving = true;
  };
  sending = turns (promptly 0 typed) (talk typed [] [] []);
  displayed = receiving_thread rs;
}

abbrev answered : List Recv
answered = got hi ∷ []

answered_same : hi ++ [] ≡ join (turns (promptly 0 (hi ∷ [])) (talk (hi ∷ []) [] [] [])).sent
answered_same = sym (ap join (promptly_sent (hi ∷ []) [] [] [] (hi-IsLine, tt)))

chatchit_session :
    chatchit_main connected (hi ∷ you ∷ []) (promptly 0 (hi ∷ you ∷ [])) answered
    ≡ some (side 5000 7000 (hi ∷ you ∷ []) answered)
unfolding chatchit_main chatchit establish
chatchit_session = refl

chitchat_session :
    chitchat_main connected (hi ∷ []) (promptly 0 (hi ∷ [])) joined
    ≡ some (side 7000 5000 (hi ∷ []) joined)
unfolding chitchat_main chitchat establish
chitchat_session = refl

conversation_example :
    Opposite (side 5000 7000 (hi ∷ you ∷ []) answered) (side 7000 5000 (hi ∷ []) joined)
    × DisplaysAll (hi ∷ []) (side 5000 7000 (hi ∷ you ∷ []) answered)
    × DisplaysAll (hi ∷ you ∷ []) (side 7000 5000 (hi ∷ []) joined)
conversation_example =
    conversation connected connected (hi ∷ you ∷ []) (hi ∷ []) answered joined
      (side 5000 7000 (hi ∷ you ∷ []) answered) (side 7000 5000 (hi ∷ []) joined)
      (hi-IsLine, (you-IsLine, tt)) (hi-IsLine, tt) refl refl
      (λ e. ne_of_beq (pos 5) minus_one refl e) (λ e. ne_of_beq (pos 5) minus_one refl e)
      ((omega arith, (λ e. omega arith, (λ e. omega arith, tt))), tt) hiyou-IsChunks
      chatchit_session chitchat_session answered_same joined_same

overlong-IsDeaf_example :
    IsDeaf
      (length (turn (types (pos 0)) (talk (replicate 90 b'x' ∷ hi ∷ []) [] [] [])).threads)
      (drop 79 (replicate 90 b'x') ∷ hi ∷ [])
      (turns
        (types (pos 0) ∷ sends 0 (pos 79) ∷ types (pos 0) ∷ [])
        (talk (replicate 90 b'x' ∷ hi ∷ []) [] [] []))
overlong-IsDeaf_example =
    overlong-IsDeaf (pos 0) (replicate 90 b'x') (hi ∷ []) (sends 0 (pos 79) ∷ types (pos 0) ∷ [])
      (talk (replicate 90 b'x' ∷ hi ∷ []) [] [] []) refl refl refl (omega arith)

-- Each call takes, or gives, one whole message.
takes_all :
    (k n : ℕ) (out : Bytes)
    → n + k ≡ 10000
    → send_messages (replicate k (pos 15)) n out
      ≡ result 10000 (out ++ received (replicate k (got message))) finished
unfolding send_messages
takes_all zero n out h =
    (λ i. if full i then result n out sending else result n out finished) ∙ λ i.
    result (is_all i) (sym (append-nil out) i) finished
  where
    full : ltb n msg_amount ≡ false
    full = ground arith

    is_all : n ≡ 10000
    is_all = omega arith
takes_all (suc k) n out h =
    (λ i.
      if more i
      then send_messages (replicate k (pos 15)) (next i) (out ++ message)
      else result n out finished)
    ∙ takes_all k (n + 1) (out ++ message) (omega arith)
    ∙ λ i. result 10000 (append_assoc out message (received (replicate k (got message))) i) finished
  where
    more : ltb n msg_amount ≡ true
    more = ground arith

    next : (n + 1) % 2 ^ 32 ≡ n + 1
    next = omega arith

takes-Whole : (k : ℕ) → All Whole (replicate k (pos 15))
takes-Whole zero = tt
takes-Whole (suc k) = (inl refl, takes-Whole k)

gives-Fits : (k : ℕ) → All Fits (replicate k (got message))
gives-Fits zero = tt
gives-Fits (suc k) = (omega arith, gives-Fits k)

abbrev taken : ℕ → List ℤ
taken k = replicate k (pos 15)

whole_run :
    send_main (pos 3) (pos 0) (taken 10000)
    ≡ result 10000 (received (replicate 10000 (got message))) finished
unfolding send_main
whole_run = takes_all 10000 0 [] refl

counts_example :
    ((send_main (pos 3) (pos 0) (taken 10000)).msg_count ≡ 10000)
    × (10000 ≤ (recv_messages (replicate 10000 (got message)) 0).0)
    × ((recv_messages (replicate 10000 (got message)) 0).0 ≤ 150000)
counts_example =
    counts (pos 3) (pos 0) (taken 10000) (replicate 10000 (got message)) (takes-Whole 10000)
      (ap (λ s. s.ending) whole_run) (gives-Fits 10000) (ap (λ s. s.sent) (sym whole_run))
