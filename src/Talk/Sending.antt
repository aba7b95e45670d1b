-- ===== src/Talk/Sending.antt =====
-- The loop of `main` in socket/talk/chatchit/client.cpp and socket/talk/chitchat/client.cpp, and the
-- threads of `sending_thread`. A turn is one step of one thread, with what `pthread_create` or `send`
-- answers in it; the copy of a string is one step.
pub mod Lines
pub mod Races
pub mod Overlong
use learning_directory.Base.{
  ℕ, zero, suc, List, [], ◌∷◌, ◌++◌, Bool, true, false, Option, none, some, Bytes, if◌then◌else◌,
  ◌==◌, nat_eq, ltb, length, take, drop, get_elem?, set,
}
use learning_directory.Base.Int.{ℤ, pos, negsuc, minus_one, int_eq}

-- The bytes of a buffer before its first zero: the string that it holds.
unfoldable pub c_str : Bytes → Bytes
c_str [] = []
c_str (c ∷ cs) = if c == 0 then [] else c ∷ c_str cs

-- A thread of `sending_thread` before it has copied `arg_2`, with the content that it has copied, and
-- past its `send`.
pub data Thread : Type 0 where
  created : Thread
  holding : Bytes → Thread
  ended : Thread

-- `input` are the lines that `cin` has still to give, without their ends; `good` is the state of
-- `cin`; `sending_content` is the member of `arg_2`; `sent` is what each `send` has taken.
pub record Talk : Type 0 where
  pub input : List Bytes
  pub good : Bool
  pub sending_content : Bytes
  pub threads : List Thread
  pub sent : List Bytes
  pub exited : Bool

-- `cin.getline(sendbuf, 80)`: the characters stored, the state of `cin`, the input left. A line of 80
-- characters or more, or the end of the input, makes `cin` fail, and then it gives nothing.
unfoldable pub getline : Bool → List Bytes → Bytes × Bool × List Bytes
getline false input = ([], false, input)
getline true [] = ([], false, [])
getline true (l ∷ ls) =
    if ltb (length l) 80 then (l, true, ls) else (take 79 l, false, drop 79 l ∷ ls)

-- One round of the loop, after `getline`. A failure that `pthread_create` reports is a positive number,
-- which the test does not see.
abbrev pub start_sender : ℤ → Bytes → Talk → Talk
start_sender serr_id [] v = v
start_sender serr_id (c ∷ cs) v =
    if serr_id == minus_one
    then record v { exited = true }
    else if serr_id == pos 0
    then record v { threads = v.threads ++ created ∷ [] }
    else v

abbrev pub after_line : ℤ → Bytes × Bool × List Bytes → Talk → Talk
after_line serr_id (sendbuf, good, input) v =
    start_sender serr_id (c_str sendbuf)
      (record v { input = input; good = good; sending_content = c_str sendbuf })

unfoldable pub read_and_send : ℤ → Talk → Talk
unfolding getline
read_and_send serr_id v = after_line serr_id (getline v.good v.input) v

-- What a `send` takes that returns `r`. It may be less than the content, which nothing sends again.
abbrev pub taken : ℤ → Bytes → Bytes
taken (pos k) content = take k content
taken (negsuc k) content = []

unfoldable pub sending_thread : ℕ → ℤ → Option Thread → Talk → Talk
sending_thread i r (some created) v = record v {
  threads = set v.threads i (holding v.sending_content);
}
sending_thread i r (some (holding content)) v =
    if r == minus_one
    then record v { exited = true }
    else record v { sent = v.sent ++ taken r content ∷ []; threads = set v.threads i ended }
sending_thread i r (some ended) v = v
sending_thread i r none v = v

pub data Turn : Type 0 where
  types : ℤ → Turn  -- `main`
  sends : ℕ → ℤ → Turn  -- a thread

unfoldable pub turn : Turn → Talk → Talk
unfolding read_and_send sending_thread
turn (types serr_id) v = if v.exited then v else read_and_send serr_id v
turn (sends i r) v = if v.exited then v else sending_thread i r (get_elem? v.threads i) v

unfoldable pub turns : List Turn → Talk → Talk
turns [] v = v
turns (t ∷ ts) v = turns ts (turn t v)
