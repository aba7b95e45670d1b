-- ===== src/Cs/Counts.antt =====
-- The counts of messages of cs/send/main.cpp and cs/recv/main.cpp.
use mathlib.Core.Path.{subst}
use learning_directory.Base.{
  ℕ, ◌+◌, ◌*◌, ◌%◌, ◌^◌, ◌≡◌, ◌≤◌, ◌<◌, refl, ap, ◌∙◌, sym, List, [], ◌∷◌, ◌++◌, true, false, Bytes,
  ◌==◌, ltb, length, arith, All, length-append, if_case, ◌⊎◌, inl, inr,
}
use learning_directory.Base.Int.{ℤ, pos, minus_one, int_eq}
use learning_directory.Netapi.State.{Recv, got, failed}
use learning_directory.Cs.Sending.{
  waiting, finished, Sent, msg_amount, message, result, send_messages, send_main,
}
use learning_directory.Cs.Receiving.{recv_messages}

-- A `send` that takes the whole message, or none of it.
abbrev pub Whole : ℤ → Type 0
Whole r = (r ≡ pos 15) ⊎ (r ≡ pos 0)

-- The bytes that the successive `recv` calls put into the buffer.
abbrev pub received : List Recv → Bytes
received [] = []
received (failed ∷ rs) = received rs
received (got bs ∷ rs) = bs ++ received rs

-- No `recv` fails, and none gives more than the buffer holds.
abbrev pub Fits : Recv → Type 0
Fits failed = ⊥
Fits (got bs) = length bs ≤ 15

-- The count stays below the bound, and the bytes are those of the messages counted.
abbrev IsCounted : Sent → Type 0
IsCounted s = (s.msg_count ≤ 10000) × (length s.sent ≡ 15 * s.msg_count)

abbrev EndsAt : Sent → Type 0
EndsAt s = s.ending ≡ finished → s.msg_count ≡ 10000

abbrev Counted : Sent → Type 0
Counted s = IsCounted s × EndsAt s

loop_ended :
    (n : ℕ) (out : Bytes)
    → IsCounted (result n out waiting)
    → ltb n msg_amount ≡ false
    → Counted (result n out finished)
loop_ended n out h b = (h, λ _. ground arith)

one_sent :
    (n : ℕ) (out : Bytes)
    → IsCounted (result n out waiting)
    → ltb n msg_amount ≡ true
    → IsCounted (result ((n + 1) % 2 ^ 32) (out ++ message) waiting)
one_sent n out h b =
    let less : n < 10000 = ground arith in (omega arith, length-append out message ∙ omega arith)

sent-Counted :
    (rs : List ℤ) (n : ℕ) (out : Bytes)
    → All Whole rs
    → IsCounted (result n out waiting)
    → Counted (send_messages rs n out)
unfolding send_messages
sent-Counted [] n out a h =
    if_case Counted (ltb n msg_amount) _ _ (λ _. (h, λ q. cc)) (loop_ended n out h)
sent-Counted (r ∷ rs) n out a h = elim a.0 [
  | inl whole ↦
      subst (λ x. Counted (send_messages (x ∷ rs) n out)) (sym whole)
        (if_case Counted (ltb n msg_amount) _ _
          (λ b. sent-Counted rs ((n + 1) % 2 ^ 32) (out ++ message) a.1 (one_sent n out h b))
          (loop_ended n out h))
  | inr nothing ↦
      subst (λ x. Counted (send_messages (x ∷ rs) n out)) (sym nothing)
        (if_case Counted (ltb n msg_amount) _ _ (λ _. sent-Counted rs n out a.1 h)
          (loop_ended n out h))
]

recv_counts :
    (rs : List Recv) (n : ℕ)
    → All Fits rs
    → n + length (received rs) < 2 ^ 32
    → (length (received rs) + 15 * n ≤ 15 * (recv_messages rs n).0)
      × ((recv_messages rs n).0 ≤ n + length (received rs))
unfolding recv_messages
recv_counts [] n a b = (omega arith, omega arith)
recv_counts (failed ∷ rs) n a b = absurd (a.0)
recv_counts (got [] ∷ rs) n a b = recv_counts rs n a.1 b
recv_counts (got (c ∷ cs) ∷ rs) n a b =
    let l = length-append (c ∷ cs) (received rs) in
    let small : (n + 1) % 2 ^ 32 ≡ n + 1 = omega arith in
    let ih = recv_counts rs (n + 1) a.1 (omega arith) in
    subst
      (λ m.
        (length ((c ∷ cs) ++ received rs) + 15 * n ≤ 15 * (recv_messages rs m).0)
        × ((recv_messages rs m).0 ≤ n + length ((c ∷ cs) ++ received rs)))
      (sym small) (omega (arith, ih.0, l, a.0), omega (arith, ih.1, l))

sender_done :
    (localsock connected : ℤ) (rs : List ℤ)
    → All Whole rs
    → (send_main localsock connected rs).ending ≡ finished
    → ((send_main localsock connected rs).msg_count ≡ 10000)
      × (length (send_main localsock connected rs).sent ≡ 150000)
unfolding send_main
sender_done localsock connected rs a f =
    if_case Done (localsock == minus_one) _ _ (λ _. λ q. absurd (cc))
      (λ _.
        if_case Done (connected == minus_one) _ _ (λ _. λ q. absurd (cc))
          λ _. λ q.
            let c = sent-Counted rs 0 [] a (omega arith, refl) in
            (c.1 q, omega (arith, c.0, c.1 q)))
      f
  where
    Done : Sent → Type 0
    Done s = s.ending ≡ finished → (s.msg_count ≡ 10000) × (length s.sent ≡ 150000)

-- If the sender leaves its loop, where each `send` took the whole message or nothing, it has
-- counted 10000 messages; if the receiver has received the bytes sent, by calls that gave at most
-- 15 bytes each and did not fail, its count is at least 10000 and at most 150000.
pub counts :
    (localsock connected : ℤ) (rs : List ℤ) (recvs : List Recv)
    → All Whole rs
    → (send_main localsock connected rs).ending ≡ finished
    → All Fits recvs
    → received recvs ≡ (send_main localsock connected rs).sent
    → ((send_main localsock connected rs).msg_count ≡ 10000)
      × (10000 ≤ (recv_messages recvs 0).0)
      × ((recv_messages recvs 0).0 ≤ 150000)
counts localsock connected rs recvs a f fits same =
    let done = sender_done localsock connected rs a f in
    let l : length (received recvs) ≡ 150000 = ap length same ∙ omega (arith, done) in
    let r = recv_counts recvs 0 fits (omega arith) in
    (done.0, omega (arith, r.0, l), omega (arith, r.1, l))
