-- ===== src/Talk/Dialogue.antt =====
-- What the peer of socket/talk/chatchit/client.cpp displays of the lines that are typed.
use learning_directory.Base.{
  ℕ, zero, suc, ◌-◌, ◌≡◌, ◌≢◌, ◌<◌, refl, ap, ◌∙◌, List, [], ◌∷◌, ◌++◌, true, Bytes, if◌then◌else◌,
  nat_eq, length, take, take_all, replicate, buffer, arith, All, beq_ne,
}
use learning_directory.Netapi.State.{Recv, got, failed}
use learning_directory.Netapi.Receive.{has_zero}
use learning_directory.Talk.Sending.{c_str, turns}
use learning_directory.Talk.Sending.Lines.{IsLine, talk, promptly, promptly_sent}
use learning_directory.Talk.Receiving.{Ending, waiting, overread, displaying, receiving_thread}

abbrev pub join : List Bytes → Bytes
join [] = []
join (l ∷ ls) = l ++ join ls

-- The bytes that the successive `recv` calls put into the buffer, and chunks that leave a zero in it.
abbrev pub received : List Recv → Bytes
received [] = []
received (failed ∷ rs) = received rs
received (got bs ∷ rs) = bs ++ received rs

abbrev pub IsChunk : Recv → Type 0
IsChunk failed = ⊥
IsChunk (got bs) = (length bs < 80) × All (λ c. c ≢ 0) bs

c_str_padded : (bs : Bytes) (n : ℕ) → All (λ c. c ≢ 0) bs → c_str (bs ++ replicate n 0) ≡ bs
unfolding c_str
c_str_padded [] zero h = refl
c_str_padded [] (suc n) h = refl
c_str_padded (c ∷ cs) n h = rw (beq_ne c 0 h.0) (ap (◌∷◌ c) (c_str_padded cs n h.1))

has_zero_padded : (bs : Bytes) (n : ℕ) → has_zero (bs ++ replicate (suc n) 0) ≡ true
has_zero_padded [] n = refl
has_zero_padded (c ∷ cs) n = ground (arith, has_zero_padded cs n)

padded : (bs : Bytes) → length bs < 80 → buffer 80 bs ≡ bs ++ replicate (suc (79 - length bs)) 0
padded bs h =
    let rest : 80 - length bs ≡ suc (79 - length bs) = omega arith in
    (λ i. take 80 bs ++ replicate (rest i) 0)
    ∙ ap (λ xs. xs ++ replicate (suc (79 - length bs)) 0) (take_all 80 bs (omega arith))

-- A chunk is displayed as it is.
displays :
    (c : ℕ) (cs : Bytes) (rs : List Recv)
    → IsChunk (got (c ∷ cs))
    → receiving_thread (got (c ∷ cs) ∷ rs) ≡ displaying (c ∷ cs) (receiving_thread rs)
unfolding receiving_thread
displays c cs rs h =
    (λ i. branch (padded (c ∷ cs) h.0 i))
    ∙ (λ i.
        if has_zero_padded (c ∷ cs) (79 - length (c ∷ cs)) i
        then displaying (c_str ((c ∷ cs) ++ replicate (suc (79 - length (c ∷ cs))) 0))
            (receiving_thread rs)
        else ([], overread))
    ∙ ap (λ bs. displaying bs (receiving_thread rs))
        (c_str_padded (c ∷ cs) (suc (79 - length (c ∷ cs))) h.1)
  where
    branch : Bytes → List Bytes × Ending
    branch buf =
        if has_zero buf then displaying (c_str buf) (receiving_thread rs) else ([], overread)

displayed :
    (rs : List Recv)
    → All IsChunk rs
    → (join (receiving_thread rs).0 ≡ received rs) × ((receiving_thread rs).1 ≡ waiting)
unfolding receiving_thread
displayed [] h = (refl, refl)
displayed (failed ∷ rs) h = absurd (h.0)
displayed (got [] ∷ rs) h = displayed rs h.1
displayed (got (c ∷ cs) ∷ rs) h =
    let ih = displayed rs h.1 in
    let d = displays c cs rs h.0 in
    (ap (λ p. join p.0) d ∙ ap (◌++◌ (c ∷ cs)) ih.0, ap (λ p. p.1) d ∙ ih.1)

-- Lines without zeros, not empty and shorter than 80 bytes, each typed after the thread of the line
-- before has sent it, with no failing call: if the peer receives the bytes sent in chunks of fewer
-- than 80 bytes without zeros, cut anywhere, and no `recv` fails, then what it displays, joined, is
-- what was typed, joined, and it goes on waiting.
pub dialogue :
    (ls : List Bytes) (content : Bytes) (rs : List Recv)
    → All IsLine ls
    → All IsChunk rs
    → received rs ≡ join (turns (promptly 0 ls) (talk ls content [] [])).sent
    → (join (receiving_thread rs).0 ≡ join ls) × ((receiving_thread rs).1 ≡ waiting)
dialogue ls content rs hl hr e =
    let d = displayed rs hr in (d.0 ∙ e ∙ ap join (promptly_sent ls content [] [] hl), d.1)
