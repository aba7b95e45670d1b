-- ===== src/Talk/Sending/Races.antt =====
-- `arg_2` of socket/talk/chatchit/client.cpp, which all threads of `sending_thread` share.
use learning_directory.Base.{
  ℕ, ◌≡◌, refl, sym, ap, ◌∙◌, List, [], ◌∷◌, ◌++◌, append_assoc, append-nil, Bytes, take, Option,
  none, some, get_elem?, All, All-set, All-append, All-get_elem?, if_case, ◌==◌,
}
use learning_directory.Base.Int.{ℤ, pos, negsuc, minus_one, int_eq}
use learning_directory.Talk.Sending.{
  Thread, created, holding, ended, Talk, Turn, types, sends, turn, turns, taken, sending_thread,
}
use learning_directory.Talk.Sending.Lines.{IsLine, talk, types_line}

-- Turns of the threads alone, with what each `send` returns.
abbrev pub threads_go : List (ℕ × ℤ) → List Turn
threads_go [] = []
threads_go ((i, r) ∷ us) = sends i r ∷ threads_go us

-- What the thread has copied, if anything, is one of the contents `Held`.
abbrev pub HoldsOne : (Bytes → Type 0) → Thread → Type 0
HoldsOne Held created = Unit
HoldsOne Held (holding c) = Held c
HoldsOne Held ended = Unit

-- The start of one of the contents.
abbrev pub IsStart : (Bytes → Type 0) → Bytes → Type 0
IsStart Held s = (c : Bytes) × Held c × (k : ℕ) × (s ≡ take k c)

-- After `out`, only starts of the contents `Held` have been sent, and threads send no others.
record SendsOnly (Held : Bytes → Type 0) (out : List Bytes) (v : Talk) : Type 0 where
  pub shared : Held v.sending_content
  pub copies : All (HoldsOne Held) v.threads
  pub more : (ss : List Bytes) × (v.sent ≡ out ++ ss) × All (IsStart Held) ss

taken-take : (r : ℤ) (c : Bytes) → (k : ℕ) × (taken r c ≡ take k c)
taken-take (pos k) c = (k, refl)
taken-take (negsuc k) c = (0, refl)

module _ (Held : Bytes → Type 0) (out : List Bytes) where
  sending_thread-SendsOnly :
      (i : ℕ) (r : ℤ) (o : Option Thread) (v : Talk)
      → get_elem? v.threads i ≡ o
      → SendsOnly Held out v
      → SendsOnly Held out (sending_thread i r o v)
  unfolding sending_thread
  sending_thread-SendsOnly i r (some created) v at_i h = record {
    shared = h.shared;
    copies = All-set (HoldsOne Held) v.threads i (holding v.sending_content) h.copies h.shared;
    more = h.more;
  }
  sending_thread-SendsOnly i r (some (holding c)) v at_i h =
      if_case (SendsOnly Held out) (r == minus_one) _ _
        (λ _. record { shared = h.shared; copies = h.copies; more = h.more })
        λ _.
          let (ss, e, starts) = h.more in
          let (k, cut) = taken-take r c in
          record {
            shared = h.shared;
            copies = All-set (HoldsOne Held) v.threads i ended h.copies tt;
            more = (
              ss ++ taken r c ∷ [],
              ap (λ bs. bs ++ taken r c ∷ []) e ∙ append_assoc out ss (taken r c ∷ []),
              All-append (IsStart Held) ss (taken r c ∷ []) starts (
                (c, All-get_elem? (HoldsOne Held) v.threads i (holding c) h.copies at_i, k, cut),
                tt,
              ),
            );
          }
  sending_thread-SendsOnly i r (some ended) v at_i h = h
  sending_thread-SendsOnly i r none v at_i h = h

  threads_go-SendsOnly :
      (us : List (ℕ × ℤ)) (v : Talk)
      → SendsOnly Held out v
      → SendsOnly Held out (turns (threads_go us) v)
  unfolding turns turn
  threads_go-SendsOnly [] v h = h
  threads_go-SendsOnly ((i, r) ∷ us) v h = threads_go-SendsOnly us (turn (sends i r) v) (
      if_case (SendsOnly Held out) v.exited _ _ (λ _. h)
        λ _. sending_thread-SendsOnly i r (get_elem? v.threads i) v refl h)

-- Two lines without zeros, not empty and shorter than 80 bytes, are typed, with two threads made,
-- before any of these threads runs. Then whatever turns the threads take, however much each `send`
-- takes and whichever fail: all that is sent are starts of the second line and of contents that
-- earlier threads hold (`Held` is any property of these and of the second line); the first line is
-- lost.
pub line_lost :
    (Held : Bytes → Type 0) (a b : Bytes) (ls : List Bytes) (content : Bytes) (ts : List Thread)
    (out : List Bytes) (us : List (ℕ × ℤ))
    → IsLine a
    → IsLine b
    → Held b
    → All (HoldsOne Held) ts
    → (ss : List Bytes) × ((turns
          (types (pos 0) ∷ types (pos 0) ∷ threads_go us)
          (talk (a ∷ b ∷ ls) content ts out)).sent
        ≡ out ++ ss)
      × All (IsStart Held) ss
unfolding turns
line_lost Held a b ls content ts out us ha hb new old =
    let (ss, e, starts) =
      (threads_go-SendsOnly Held out us both_typed (record {
        shared = new;
        copies =
            All-append (HoldsOne Held) (ts ++ created ∷ []) (created ∷ [])
              (All-append (HoldsOne Held) ts (created ∷ []) old (tt, tt)) (tt, tt);
        more = ([], sym (append-nil out), tt);
      })).more in
    (ss, ap (λ v. (turns (threads_go us) v).sent) typed ∙ e, starts)
  where
    both_typed : Talk
    both_typed = talk ls b ((ts ++ created ∷ []) ++ created ∷ []) out

    typed :
        turn (types (pos 0)) (turn (types (pos 0)) (talk (a ∷ b ∷ ls) content ts out)) ≡ both_typed
    typed =
        ap (turn (types (pos 0))) (types_line a (b ∷ ls) content ts out ha)
        ∙ types_line b ls a (ts ++ created ∷ []) out hb
