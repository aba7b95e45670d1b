-- ===== src/Talk/Programs.antt =====
-- The programs of socket/talk/chatchit/client.cpp and socket/talk/chitchat/client.cpp as wholes, and a
-- conversation of the two.
use mathlib.Core.Option.{some-injective}
use learning_directory.Base.{
  ℕ, ◌≡◌, ◌≢◌, refl, Bool, if◌then◌else◌, ◌==◌, beq_ne, ◌∷◌, sym, ap, ◌∙◌, List, [], Option, none,
  some, Bytes, All, arith,
}
use learning_directory.Base.Int.{ℤ, pos, minus_one, int_eq}
use learning_directory.Netapi.State.{Recv, failed}
use learning_directory.Talk.Start.{Answers, Talking, establish, chatchit, chitchat}
use learning_directory.Talk.Sending.{Talk, Turn, turns}
use learning_directory.Talk.Sending.Lines.{IsLine, talk, promptly}
use learning_directory.Talk.Receiving.{Ending, waiting, unmade, receiving_thread}
use learning_directory.Talk.Dialogue.{IsChunk, received, join, dialogue}

-- A program past its start: its sending side, and what its receiving thread has displayed. The sides
-- share nothing but the end of the process.
pub record Session : Type 0 where
  pub talking : Talking
  pub sending : Talk
  pub displayed : List Bytes × Ending

-- What the receiving thread displays, where `pthread_create` has made it, of what `recv` returns on
-- its socket: after a failed `accept` that is the failure of `recv` on -1.
abbrev pub receives : Bool → ℤ → List Recv → List Bytes × Ending
receives made recv_sock rs =
    if made
    then receiving_thread (if recv_sock == minus_one then failed ∷ [] else rs)
    else ([], unmade)

-- `cin` gives the lines `input`, and `rs` is what `recv` returns.
abbrev pub session : List Bytes → List Turn → List Recv → Option Talking → Option Session
session input ts rs none = none
session input ts rs (some t) = some (record {
  talking = t;
  sending = turns ts (talk input [] [] []);
  displayed = receives t.receiving t.recv_sock rs;
})

unfoldable pub chatchit_main : Answers → List Bytes → List Turn → List Recv → Option Session
unfolding turns receiving_thread
chatchit_main a input ts rs = session input ts rs (chatchit a)

unfoldable pub chitchat_main : Answers → List Bytes → List Turn → List Recv → Option Session
unfolding turns receiving_thread
chitchat_main a input ts rs = session input ts rs (chitchat a)

ports :
    (local_port peer_port : ℕ) (a : Answers) (t : Talking)
    → establish local_port peer_port a ≡ some t
    → (t.local_port ≡ local_port)
      × (t.peer_port ≡ peer_port)
      × (t.receiving ≡ (a.rerr_id == pos 0))
      × (t.recv_sock ≡ a.receiving_sock)
unfolding establish
ports local_port peer_port a t e = ground arith

started :
    (input : List Bytes) (ts : List Turn) (rs : List Recv) (o : Option Talking) (p : Session)
    → session input ts rs o ≡ some p
    → (t : Talking) × (o ≡ some t)
      × (p ≡ record {
        talking = t;
        sending = turns ts (talk input [] [] []);
        displayed = receives t.receiving t.recv_sock rs;
      })
started input ts rs none p e = absurd (let h : none ≡ some p = e in ground arith)
started input ts rs (some t) p e = (t, refl, sym (some-injective _ _ e))

-- The receiving thread of a program whose `accept` and `pthread_create` have succeeded.
receives_there :
    (local_port peer_port : ℕ) (a : Answers) (t : Talking) (rs : List Recv)
    → establish local_port peer_port a ≡ some t
    → a.rerr_id ≡ pos 0
    → a.receiving_sock ≢ minus_one
    → receives t.receiving t.recv_sock rs ≡ receiving_thread rs
receives_there local_port peer_port a t rs e made there =
    let p = ports local_port peer_port a t e in
    (λ i. receives (p.2 i) (p.3 i) rs)
    ∙ (λ i. receives (made i == pos 0) a.receiving_sock rs)
    ∙ λ i. receiving_thread (if beq_ne a.receiving_sock minus_one there i then failed ∷ [] else rs)

abbrev pub Opposite : Session → Session → Type 0
Opposite p q =
    (p.talking.peer_port ≡ q.talking.local_port) × (q.talking.peer_port ≡ p.talking.local_port)

-- What `p` displays is what was typed at the other program.
abbrev pub DisplaysAll : List Bytes → Session → Type 0
DisplaysAll typed p = (join p.displayed.0 ≡ join typed) × (p.displayed.1 ≡ waiting)

module _ (a b : Answers) (la lb : List Bytes) (ra rb : List Recv) (p q : Session)
    (here : All IsLine la) (there : All IsLine lb) where
  -- chatchit and chitchat have both come to their loops, each with an accepted connection and a
  -- receiving thread, and at each, lines without zeros, not empty and shorter than 80 bytes are
  -- typed, each after the thread of the line before has sent it whole, with no failing call. Then
  -- each connects to the port on which the other listens. If each receives what the other has sent,
  -- in chunks of fewer than 80 bytes without zeros, cut anywhere, then each displays, joined, what
  -- was typed at the other, and goes on waiting.
  pub conversation :
      a.rerr_id ≡ pos 0
      → b.rerr_id ≡ pos 0
      → a.receiving_sock ≢ minus_one
      → b.receiving_sock ≢ minus_one
      → All IsChunk ra
      → All IsChunk rb
      → chatchit_main a la (promptly 0 la) ra ≡ some p
      → chitchat_main b lb (promptly 0 lb) rb ≡ some q
      → received ra ≡ join q.sending.sent
      → received rb ≡ join p.sending.sent
      → Opposite p q × DisplaysAll lb p × DisplaysAll la q
  unfolding chatchit_main chitchat_main chatchit chitchat
  conversation ma mb aa ab ca cb ep eq wa wb =
      let (t, et, sp) = started la (promptly 0 la) ra (chatchit a) p ep in
      let (u, eu, sq) = started lb (promptly 0 lb) rb (chitchat b) q eq in
      let pt = ports 5000 7000 a t et in
      let qt = ports 7000 5000 b u eu in
      let rp = receives_there 5000 7000 a t ra et ma aa in
      let rq = receives_there 7000 5000 b u rb eu mb ab in
      let dp = dialogue lb [] ra there ca (wa ∙ ap (λ (s : Session). join s.sending.sent) sq) in
      let dq = dialogue la [] rb here cb (wb ∙ ap (λ (s : Session). join s.sending.sent) sp) in
      (
        (
          (ap (λ (s : Session). s.talking.peer_port) sp
              ∙ pt.1
              ∙ sym qt.0
              ∙ sym (ap (λ (s : Session). s.talking.local_port) sq)),
          (ap (λ (s : Session). s.talking.peer_port) sq
              ∙ qt.1
              ∙ sym pt.0
              ∙ sym (ap (λ (s : Session). s.talking.local_port) sp)),
        ),
        (
          ap (λ (s : Session). join s.displayed.0) sp ∙ ap (λ d. join d.0) rp ∙ dp.0,
          ap (λ (s : Session). s.displayed.1) sp ∙ ap (λ d. d.1) rp ∙ dp.1,
        ),
        (
          ap (λ (s : Session). join s.displayed.0) sq ∙ ap (λ d. join d.0) rq ∙ dq.0,
          ap (λ (s : Session). s.displayed.1) sq ∙ ap (λ d. d.1) rq ∙ dq.1,
        ),
      )
