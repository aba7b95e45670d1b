-- ===== src/Server/Phases/Keeps.antt =====
-- What the steps of the threads of socket/netapi/server.cpp keep, where they take turns between the calls
-- of the kernel.
use mathlib.Core.Path.{subst}
use mathlib.Core.Option.{some-injective}
use learning_directory.Base.{
  ℕ, ◌≡◌, refl, sym, ap, ◌∙◌, List, [], ◌∷◌, ◌++◌, Bool, true, false, Option, none, some, Bytes,
  back, append_assoc, append-nil, get_elem?, set, ◌==◌, not, bytes_eq, Option-cases, inl, inr,
  if◌then◌else◌,
}
use learning_directory.Base.Int.{ℤ}
use learning_directory.Base.Assoc.{insert}
use learning_directory.Netapi.State.{
  Recv, got, failed, Net, Outcome, done, blocked, exited, undefined, recv, when, ◌>>=◌,
}
use learning_directory.Netapi.Receive.{
  read_head, newest_sock, or_undefined, show_body, pass_on, register_sender, print_buffers,
}
use learning_directory.Server.Keeps.{
  Keeps, Keeps-bind, Keeps-when, Keeps-print_buffers, Keeps-recv, Keeps-show_body, Keeps-pass_on,
  Keeps-register_sender,
}
use learning_directory.Server.Phases.{
  Phase, unstarted, heading, registering, bodying, passing, at, headed, bodied, phase_step, Crowd,
  Turn, accepting, going, gone, goes, crowd_step, crowd_rest, crowd_run,
}

-- What holds of the queue and the table, and stays when a name is registered with the newest socket,
-- stays when a thread makes a step.
module _ (Holds : List ℤ → List (Bytes × ℤ) → Type 0)
    (registers : (socks : List ℤ) (table : List (Bytes × ℤ)) (name : Bytes) (k : ℤ)
      → Holds socks table
      → back socks ≡ some k
      → Holds socks (insert name k table)) where
  Keeps-headed : (s : ℤ) (r : Recv) → Keeps Holds registers (headed s r)
  Keeps-headed s failed n g = g
  Keeps-headed s (got []) n g = g
  Keeps-headed s (got (c ∷ cs)) n g = g

  Keeps-bodied :
      (s : ℤ) (buf : Bytes) (own : Bool) (r : Recv) → Keeps Holds registers (bodied s buf own r)
  Keeps-bodied s buf true r =
      Keeps-bind Holds registers (show_body r) (λ _. at (heading s))
        (Keeps-show_body Holds registers r) λ _ n g. g
  Keeps-bodied s buf false r = λ n g. g

  Keeps-newest :
      (o : Option ℤ) (n : Net)
      → Holds n.recvsock n.regtable
      → Holds (or_undefined o n).1.recvsock (or_undefined o n).1.regtable
  Keeps-newest none n g = g
  Keeps-newest (some s) n g = g

  pub Keeps-phase_step : (p : Phase) → Keeps Holds registers (phase_step p)
  unfolding phase_step newest_sock
  Keeps-phase_step unstarted =
      Keeps-bind Holds registers newest_sock (λ s. at (heading s))
        (λ n g. Keeps-newest (back n.recvsock) n g) λ s n g. g
  Keeps-phase_step (heading s) =
      Keeps-bind Holds registers (recv s 60) (headed s) (Keeps-recv Holds registers s 60)
        (Keeps-headed s)
  Keeps-phase_step (registering s buf) =
      Keeps-bind Holds registers (register_sender (read_head buf)) (λ _. at (bodying s buf))
        (Keeps-register_sender Holds registers (read_head buf)) λ _ n g. g
  Keeps-phase_step (bodying s buf) = λ n g.
      let own = (read_head buf).to_procname == n.processname in
      Keeps-bind Holds registers (when (not own) (print_buffers (buf ∷ [])))
        (λ _. recv s 40 >>= bodied s buf own)
        (Keeps-when Holds registers (not own) (print_buffers (buf ∷ []))
          (Keeps-print_buffers Holds registers (buf ∷ [])))
        (λ _.
          Keeps-bind Holds registers (recv s 40) (bodied s buf own)
            (Keeps-recv Holds registers s 40) (Keeps-bodied s buf own))
        n g
  Keeps-phase_step (passing s buf r) =
      Keeps-bind Holds registers (pass_on buf (read_head buf).to_procname r) (λ _. at (heading s))
        (Keeps-pass_on Holds registers buf (read_head buf).to_procname r) λ _ n g. g

-- What holds after a connection is accepted and after a step of any thread, holds in a run.
module _ (P : Crowd → Type 0)
    (after_accept : (new : ℤ) (made : Bool) (c : Crowd)
      → P c
      → P (record c {
        net = record c.net { recvsock = c.net.recvsock ++ new ∷ [] };
        phases = if made then c.phases ++ unstarted ∷ [] else c.phases;
      }))
    (after_step : (i : ℕ) (p q : Phase) (n : Net) (c : Crowd)
      → P c
      → get_elem? c.phases i ≡ some p
      → phase_step p c.net ≡ (done q, n)
      → P (record { net = n; phases = set c.phases i q })) where
  gone_keeps :
      (i : ℕ) (p : Phase) (o : Outcome Phase) (n : Net) (c d : Crowd)
      → P c
      → get_elem? c.phases i ≡ some p
      → phase_step p c.net ≡ (o, n)
      → gone i c (o, n) ≡ some d
      → P d
  gone_keeps i p (done q) n c d h at_i e r =
      subst P (some-injective _ _ r) (after_step i p q n c h at_i e)
  gone_keeps i p blocked n c d h at_i e r = absurd (cc)
  gone_keeps i p exited n c d h at_i e r = absurd (cc)
  gone_keeps i p undefined n c d h at_i e r = absurd (cc)

  goes_keeps :
      (i : ℕ) (o : Option Phase) (c d : Crowd)
      → P c
      → get_elem? c.phases i ≡ o
      → goes i c o ≡ some d
      → P d
  goes_keeps i none c d h at_i r = absurd (cc)
  goes_keeps i (some p) c d h at_i r =
      gone_keeps i p (phase_step p c.net).0 (phase_step p c.net).1 c d h at_i refl r

  crowd_step_keeps : (t : Turn) (c d : Crowd) → P c → crowd_step t c ≡ some d → P d
  unfolding crowd_step
  crowd_step_keeps (accepting new made) c d h r =
      subst P (some-injective _ _ r) (after_accept new made c h)
  crowd_step_keeps (going i) c d h r = goes_keeps i (get_elem? c.phases i) c d h refl r

  pub crowd_keeps : (ts : List Turn) (c d : Crowd) → P c → crowd_run ts c ≡ some d → P d
  unfolding crowd_run
  crowd_keeps [] c d h r = subst P (some-injective _ _ r) h
  crowd_keeps (t ∷ ts) c d h r = elim (Option-cases (crowd_step t c)) [
    | inl stopped ↦
        absurd (let e : none ≡ some d = ap (crowd_rest (crowd_run ts)) (sym stopped) ∙ r in cc)
    | inr (b, moved) ↦
        crowd_keeps ts b d (crowd_step_keeps t c b h moved)
          (ap (crowd_rest (crowd_run ts)) (sym moved) ∙ r)
  ]

-- What `accept` returns in these turns, in order.
abbrev pub accepted_in : List Turn → List ℤ
accepted_in [] = []
accepted_in (accepting new made ∷ ts) = new ∷ accepted_in ts
accepted_in (going i ∷ ts) = accepted_in ts

phase_step-recvsock : (p : Phase) (n : Net) → (phase_step p n).1.recvsock ≡ n.recvsock
phase_step-recvsock p n =
    Keeps-phase_step (λ now t. now ≡ n.recvsock) (λ now t name k g e. g) p n refl

goes-recvsock :
    (i : ℕ) (c d : Crowd) (o : Option Phase) → goes i c o ≡ some d → d.net.recvsock ≡ c.net.recvsock
goes-recvsock i c d none e = absurd (cc)
goes-recvsock i c d (some p) e =
    answered (phase_step p c.net).0 (phase_step p c.net).1 (phase_step-recvsock p c.net) e
  where
    answered :
        (o : Outcome Phase) (n : Net)
        → n.recvsock ≡ c.net.recvsock
        → gone i c (o, n) ≡ some d
        → d.net.recvsock ≡ c.net.recvsock
    answered (done q) n same r = ap (λ x. x.net.recvsock) (sym (some-injective _ _ r)) ∙ same
    answered blocked n same r = absurd (cc)
    answered exited n same r = absurd (cc)
    answered undefined n same r = absurd (cc)

crowd_step-recvsock :
    (t : Turn) (c d : Crowd)
    → crowd_step t c ≡ some d
    → d.net.recvsock ≡ c.net.recvsock ++ accepted_in (t ∷ [])
unfolding crowd_step
crowd_step-recvsock (accepting new made) c d e =
    ap (λ x. x.net.recvsock) (sym (some-injective _ _ e))
crowd_step-recvsock (going i) c d e =
    goes-recvsock i c d (get_elem? c.phases i) e ∙ sym (append-nil c.net.recvsock)

-- In a run the queue grows by what `accept` returns, in order, and by nothing else.
pub crowd_run-recvsock :
    (ts : List Turn) (c d : Crowd)
    → crowd_run ts c ≡ some d
    → d.net.recvsock ≡ c.net.recvsock ++ accepted_in ts
unfolding crowd_run
crowd_run-recvsock [] c d e =
    ap (λ x. x.net.recvsock) (sym (some-injective _ _ e)) ∙ sym (append-nil c.net.recvsock)
crowd_run-recvsock (t ∷ ts) c d e = elim (Option-cases (crowd_step t c)) [
  | inl stopped ↦
      absurd (let h : none ≡ some d = ap (crowd_rest (crowd_run ts)) (sym stopped) ∙ e in cc)
  | inr (b, moved) ↦
      crowd_run-recvsock ts b d (ap (crowd_rest (crowd_run ts)) (sym moved) ∙ e)
      ∙ ap (λ q. q ++ accepted_in ts) (crowd_step-recvsock t c b moved)
      ∙ append_assoc c.net.recvsock (accepted_in (t ∷ [])) (accepted_in ts)
      ∙ ap (λ q. c.net.recvsock ++ q) (one_more t)
]
  where
    one_more : (u : Turn) → accepted_in (u ∷ []) ++ accepted_in ts ≡ accepted_in (u ∷ ts)
    one_more (accepting new made) = refl
    one_more (going i) = refl
