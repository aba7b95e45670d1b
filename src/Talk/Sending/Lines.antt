-- ===== src/Talk/Sending/Lines.antt =====
-- What socket/talk/chatchit/client.cpp sends of the lines that are typed.
use learning_directory.Base.{
  ℕ, suc, ◌≡◌, ◌≢◌, ◌<◌, refl, sym, ap, ◌∙◌, List, [], ◌∷◌, ◌++◌, append_assoc, append-nil, true,
  false, Bytes, nat_eq, ltb, length, arith, All, get_elem?-append_length, set-append_length,
  length-append, beq_ne, take_all,
}
use learning_directory.Base.Int.{ℤ, pos, int_eq}
use learning_directory.Talk.Sending.{
  c_str, Thread, created, holding, ended, Talk, getline, read_and_send, sending_thread, Turn, types,
  sends, turn, turns,
}

-- A line that fits the buffer, is not empty and holds no zero.
abbrev pub IsLine : Bytes → Type 0
IsLine l = (l ≢ []) × (length l < 80) × All (λ c. c ≢ 0) l

pub c_str_whole : (l : Bytes) → All (λ c. c ≢ 0) l → c_str l ≡ l
unfolding c_str
c_str_whole [] h = refl
c_str_whole (c ∷ cs) h = rw (beq_ne c 0 h.0) (ap (◌∷◌ c) (c_str_whole cs h.1))

abbrev pub talk : List Bytes → Bytes → List Thread → List Bytes → Talk
talk ls content ts out = record {
  input = ls;
  good = true;
  sending_content = content;
  threads = ts;
  sent = out;
  exited = false;
}

-- A line is typed, and its thread created.
pub types_line :
    (l : Bytes) (ls : List Bytes) (content : Bytes) (ts : List Thread) (out : List Bytes)
    → IsLine l
    → turn (types (pos 0)) (talk (l ∷ ls) content ts out) ≡ talk ls l (ts ++ created ∷ []) out
unfolding turn read_and_send getline
types_line [] ls content ts out h = absurd (h.0 refl)
types_line (c ∷ cs) ls content ts out h = rw (fits, c_str_whole (c ∷ cs) h.2)
  where
    fits : ltb (length (c ∷ cs)) 80 ≡ true
    fits = ground arith

-- The last thread copies the content, and sends it.
pub copies_last :
    (ls : List Bytes) (content : Bytes) (ts : List Thread) (out : List Bytes) (r : ℤ)
    → turn (sends (length ts) r) (talk ls content (ts ++ created ∷ []) out)
      ≡ talk ls content (ts ++ holding content ∷ []) out
unfolding turn sending_thread
copies_last ls content ts out r =
    rw (get_elem?-append_length ts created [], set-append_length ts created (holding content) [])

pub sends_last :
    (ls : List Bytes) (content bs : Bytes) (ts : List Thread) (out : List Bytes)
    → turn (sends (length ts) (pos (length bs))) (talk ls content (ts ++ holding bs ∷ []) out)
      ≡ talk ls content (ts ++ ended ∷ []) (out ++ bs ∷ [])
unfolding turn sending_thread
sends_last ls content bs ts out = rw (
  get_elem?-append_length ts (holding bs) [],
  set-append_length ts (holding bs) ended [],
  take_all (length bs) bs (omega arith),
)

-- Each line is typed after the thread of the line before has sent it; `n` threads are there.
abbrev pub promptly : ℕ → List Bytes → List Turn
promptly n [] = []
promptly n (l ∷ ls) =
    types (pos 0) ∷ sends n (pos (length l)) ∷ sends n (pos (length l)) ∷ promptly (suc n) ls

pub promptly_sent :
    (ls : List Bytes) (content : Bytes) (ts : List Thread) (out : List Bytes)
    → All IsLine ls
    → (turns (promptly (length ts) ls) (talk ls content ts out)).sent ≡ out ++ ls
unfolding turns
promptly_sent [] content ts out h = sym (append-nil out)
promptly_sent (l ∷ ls) content ts out h =
    ap
      (λ v.
        (turns (sends (length ts) (pos (length l)) ∷ sends (length ts) (pos (length l)) ∷ rest)
          v).sent)
      (types_line l ls content ts out h.0)
    ∙ ap (λ v. (turns (sends (length ts) (pos (length l)) ∷ rest) v).sent)
        (copies_last ls l ts out (pos (length l)))
    ∙ ap (λ v. (turns rest v).sent) (sends_last ls l l ts out)
    ∙ ap (λ n. (turns (promptly n ls) (talk ls l (ts ++ ended ∷ []) (out ++ l ∷ []))).sent) counted
    ∙ promptly_sent ls l (ts ++ ended ∷ []) (out ++ l ∷ []) h.1
    ∙ append_assoc out (l ∷ []) ls
  where
    rest : List Turn
    rest = promptly (suc (length ts)) ls

    counted : suc (length ts) ≡ length (ts ++ ended ∷ [])
    counted = omega (arith, length-append ts (ended ∷ []))
