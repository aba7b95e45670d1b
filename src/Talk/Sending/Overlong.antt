-- ===== src/Talk/Sending/Overlong.antt =====
-- A line of 80 characters or more in socket/talk/chatchit/client.cpp.
use learning_directory.Base.{
  ℕ, ◌≡◌, ◌≤◌, refl, ◌∙◌, List, [], ◌∷◌, true, false, Option, none, some, Bytes, length, arith,
  if_case, ltb, take, drop, if◌then◌else◌, ◌==◌, get_elem?, length-set,
}
use learning_directory.Base.Int.{ℤ, pos, minus_one, int_eq}
use learning_directory.Talk.Sending.{
  c_str, Thread, created, holding, ended, Talk, Turn, types, sends, turn, turns, getline,
  start_sender, after_line, read_and_send, sending_thread,
}

-- `cin` has failed, with `n` threads created and `input` left.
pub record IsDeaf (n : ℕ) (input : List Bytes) (v : Talk) : Type 0 where
  pub bad : v.good ≡ false
  pub left : v.input ≡ input
  pub same : length v.threads ≡ n

sending_thread-IsDeaf :
    (n : ℕ) (input : List Bytes) (i : ℕ) (r : ℤ) (o : Option Thread) (v : Talk)
    → IsDeaf n input v
    → IsDeaf n input (sending_thread i r o v)
unfolding sending_thread
sending_thread-IsDeaf n input i r (some created) v h = record {
  bad = h.bad;
  left = h.left;
  same = length-set v.threads i (holding v.sending_content) ∙ h.same;
}
sending_thread-IsDeaf n input i r (some (holding content)) v h =
    if_case (IsDeaf n input) (r == minus_one) _ _
      (λ _. record { bad = h.bad; left = h.left; same = h.same })
      λ _. record { bad = h.bad; left = h.left; same = length-set v.threads i ended ∙ h.same }
sending_thread-IsDeaf n input i r (some ended) v h = h
sending_thread-IsDeaf n input i r none v h = h

read_and_send_deaf :
    (serr_id : ℤ) (v : Talk)
    → v.good ≡ false
    → read_and_send serr_id v ≡ record v { sending_content = []; good = false }
unfolding read_and_send getline c_str
read_and_send_deaf serr_id v g i = after_line serr_id (getline (g i) v.input) v

turn_runs :
    (serr_id : ℤ) (v : Talk) → v.exited ≡ false → turn (types serr_id) v ≡ read_and_send serr_id v
unfolding turn
turn_runs serr_id v x i = if x i then v else read_and_send serr_id v

turn-IsDeaf :
    (n : ℕ) (input : List Bytes) (t : Turn) (v : Talk)
    → IsDeaf n input v
    → IsDeaf n input (turn t v)
unfolding turn
turn-IsDeaf n input (types serr_id) v h =
    if_case (IsDeaf n input) v.exited _ _ (λ _. h)
      λ _.
        rw (read_and_send_deaf serr_id v h.bad)
          (record { bad = refl; left = h.left; same = h.same })
turn-IsDeaf n input (sends i r) v h =
    if_case (IsDeaf n input) v.exited _ _ (λ _. h)
      λ _. sending_thread-IsDeaf n input i r (get_elem? v.threads i) v h

pub turns-IsDeaf :
    (n : ℕ) (input : List Bytes) (ts : List Turn) (v : Talk)
    → IsDeaf n input v
    → IsDeaf n input (turns ts v)
unfolding turns
turns-IsDeaf n input [] v h = h
turns-IsDeaf n input (t ∷ ts) v h = turns-IsDeaf n input ts (turn t v) (turn-IsDeaf n input t v h)

start_sender-IsDeaf :
    (serr_id : ℤ) (bs : Bytes) (input : List Bytes) (v : Talk)
    → v.good ≡ false
    → v.input ≡ input
    → IsDeaf (length (start_sender serr_id bs v).threads) input (start_sender serr_id bs v)
start_sender-IsDeaf serr_id [] input v g e = record { bad = g; left = e; same = refl }
start_sender-IsDeaf serr_id (c ∷ cs) input v g e =
    if_case (λ u. IsDeaf (length u.threads) input u) (serr_id == minus_one) _ _
      (λ _. record { bad = g; left = e; same = refl })
      λ _.
        if_case (λ u. IsDeaf (length u.threads) input u) (serr_id == pos 0) _ _
          (λ _. record { bad = g; left = e; same = refl })
          λ _. record { bad = g; left = e; same = refl }

cut_line :
    (serr_id : ℤ) (l : Bytes) (ls : List Bytes) (v : Talk)
    → v.good ≡ true
    → v.input ≡ l ∷ ls
    → 80 ≤ length l
    → IsDeaf (length (read_and_send serr_id v).threads) (drop 79 l ∷ ls) (read_and_send serr_id v)
unfolding read_and_send getline
cut_line serr_id l ls v g e long =
    rw (g, e, overlong)
      (start_sender-IsDeaf serr_id (c_str (take 79 l)) (drop 79 l ∷ ls)
        (record v { input = drop 79 l ∷ ls; good = false; sending_content = c_str (take 79 l) })
        refl refl)
  where
    overlong : ltb (length l) 80 ≡ false
    overlong = ground arith

-- Once a line of 80 bytes or more is typed, whatever turns the threads take: `cin` stays failed,
-- the rest of the line and all later lines stay unread, and no thread is created after that round.
pub overlong-IsDeaf :
    (serr_id : ℤ) (l : Bytes) (ls : List Bytes) (ts : List Turn) (v : Talk)
    → v.exited ≡ false
    → v.good ≡ true
    → v.input ≡ l ∷ ls
    → 80 ≤ length l
    → IsDeaf
        (length (turn (types serr_id) v).threads)
        (drop 79 l ∷ ls)
        (turns (types serr_id ∷ ts) v)
unfolding turns
overlong-IsDeaf serr_id l ls ts v x g e long =
    turns-IsDeaf (length (turn (types serr_id) v).threads) (drop 79 l ∷ ls) ts
      (turn (types serr_id) v) first
  where
    first :
        IsDeaf (length (turn (types serr_id) v).threads) (drop 79 l ∷ ls) (turn (types serr_id) v)
    first = rw (turn_runs serr_id v x) (cut_line serr_id l ls v g e long)
