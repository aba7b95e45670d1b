-- ===== src/Server/Phases/Sockets.antt =====
-- The sockets in the table and of the threads of socket/netapi/server.cpp, where the threads take
-- turns between the calls of the kernel.
use mathlib.Core.List.{Mem, mem-append_left}
use mathlib.Core.Path.{subst}
use learning_directory.Base.{
  ℕ, ◌≡◌, refl, sym, ap, ◌∙◌, if◌then◌else◌, List, [], ◌∷◌, ◌++◌, Bool, true, false, Option, none,
  some, Bytes, back, mem-back, get_elem?, set, All, All-mono, All-set, All-append, All-get_elem?,
  ◌==◌, not, bytes_eq,
}
use learning_directory.Base.Int.{ℤ}
use learning_directory.Base.Assoc.{All-insert}
use learning_directory.Netapi.State.{
  Recv, got, failed, Net, Outcome, done, blocked, exited, undefined, Io, and_then, ◌>>=◌, recv,
  when,
}
use learning_directory.Netapi.Receive.{
  read_head, newest_sock, or_undefined, show_body, pass_on, register_sender, print_buffers,
}
use learning_directory.Server.Keeps.{TableIn}
use learning_directory.Server.Phases.{
  Phase, unstarted, heading, registering, bodying, passing, at, headed, bodied, phase_step, Crowd,
  Turn, crowd_run,
}
use learning_directory.Server.Phases.Keeps.{
  Keeps-phase_step, crowd_keeps, accepted_in, crowd_run-recvsock,
}

-- The socket of a thread, if it has read one, is in the queue.
abbrev pub PhaseIn : List ℤ → Phase → Type 0
PhaseIn socks unstarted = Unit
PhaseIn socks (heading s) = Mem s socks
PhaseIn socks (registering s buf) = Mem s socks
PhaseIn socks (bodying s buf) = Mem s socks
PhaseIn socks (passing s buf r) = Mem s socks

pub record AreQueued (c : Crowd) : Type 0 where
  pub table : TableIn c.net.recvsock c.net.regtable
  pub served : All (PhaseIn c.net.recvsock) c.phases

PhaseIn-append :
    (socks : List ℤ) (new : ℤ) (p : Phase) → PhaseIn socks p → PhaseIn (socks ++ new ∷ []) p
PhaseIn-append socks new unstarted h = tt
PhaseIn-append socks new (heading s) h = mem-append_left (new ∷ []) h
PhaseIn-append socks new (registering s buf) h = mem-append_left (new ∷ []) h
PhaseIn-append socks new (bodying s buf) h = mem-append_left (new ∷ []) h
PhaseIn-append socks new (passing s buf r) h = mem-append_left (new ∷ []) h

-- Where a step goes on, it leads to a phase with a socket of `socks`.
module _ (socks : List ℤ) where
  abbrev Lands : Outcome Phase → Type 0
  Lands (done q) = PhaseIn socks q
  Lands blocked = Unit
  Lands exited = Unit
  Lands undefined = Unit

  bind-Lands :
      {A : Type 0} (m : Io A) (f : A → Io Phase) (n : Net)
      → ((a : A) (k : Net) → Lands (f a k).0)
      → Lands ((m >>= f) n).0
  bind-Lands {A = A} m f n h = after (m n).0 (m n).1
    where
      after : (o : Outcome A) (k : Net) → Lands (and_then o k f).0
      after (done a) k = h a k
      after blocked k = tt
      after exited k = tt
      after undefined k = tt

  headed-Lands : (s : ℤ) (r : Recv) (n : Net) → Mem s socks → Lands (headed s r n).0
  headed-Lands s failed n h = tt
  headed-Lands s (got []) n h = h
  headed-Lands s (got (c ∷ cs)) n h = h

  bodied-Lands :
      (s : ℤ) (buf : Bytes) (own : Bool) (r : Recv) (n : Net)
      → Mem s socks
      → Lands (bodied s buf own r n).0
  bodied-Lands s buf true r n h = bind-Lands (show_body r) (λ _. at (heading s)) n λ _ k. h
  bodied-Lands s buf false r n h = h

  newest-Lands :
      (o : Option ℤ) (n : Net)
      → ((s : ℤ) → o ≡ some s → Mem s socks)
      → Lands (and_then (or_undefined o n).0 (or_undefined o n).1 λ s. at (heading s)).0
  newest-Lands none n h = tt
  newest-Lands (some s) n h = h s refl

  phase_step-Lands :
      (p : Phase) (n : Net) → n.recvsock ≡ socks → PhaseIn socks p → Lands (phase_step p n).0
  unfolding phase_step newest_sock
  phase_step-Lands unstarted n same h =
      newest-Lands (back n.recvsock) n λ s e. subst (Mem s) same (mem-back n.recvsock s e)
  phase_step-Lands (heading s) n same h =
      bind-Lands (recv s 60) (headed s) n λ r k. headed-Lands s r k h
  phase_step-Lands (registering s buf) n same h =
      bind-Lands (register_sender (read_head buf)) (λ _. at (bodying s buf)) n λ _ k. h
  phase_step-Lands (bodying s buf) n same h =
      let own = (read_head buf).to_procname == n.processname in
      bind-Lands (when (not own) (print_buffers (buf ∷ []))) (λ _. recv s 40 >>= bodied s buf own) n
        λ _ m. bind-Lands (recv s 40) (bodied s buf own) m λ r k. bodied-Lands s buf own r k h
  phase_step-Lands (passing s buf r) n same h =
      bind-Lands (pass_on buf (read_head buf).to_procname r) (λ _. at (heading s)) n λ _ k. h

-- A step leaves the queue alone and enters only its sockets in the table.
step-TableIn :
    (p : Phase) (n : Net)
    → TableIn n.recvsock n.regtable
    → ((phase_step p n).1.recvsock ≡ n.recvsock) × TableIn n.recvsock (phase_step p n).1.regtable
step-TableIn p n table =
    Keeps-phase_step (λ now t. (now ≡ n.recvsock) × TableIn n.recvsock t)
      (λ now t name k g e. (
        g.0,
        All-insert (λ e. Mem e.1 n.recvsock) name k t g.1 (subst (Mem k) g.0 (mem-back now k e)),
      ))
      p n (refl, table)

accepted-AreQueued :
    (new : ℤ) (made : Bool) (c : Crowd)
    → AreQueued c
    → AreQueued (record {
      net = record c.net { recvsock = c.net.recvsock ++ new ∷ [] };
      phases = if made then c.phases ++ unstarted ∷ [] else c.phases;
    })
accepted-AreQueued new made c h = record { table = table_grown; served = all_served made }
  where
    grown : List ℤ
    grown = c.net.recvsock ++ new ∷ []

    table_grown : TableIn grown c.net.regtable
    table_grown =
        All-mono (λ e. Mem e.1 c.net.recvsock) (λ e. Mem e.1 grown)
          (λ e m. mem-append_left (new ∷ []) m) c.net.regtable h.table

    served_grown : All (PhaseIn grown) c.phases
    served_grown =
        All-mono (PhaseIn c.net.recvsock) (PhaseIn grown)
          (λ p m. PhaseIn-append c.net.recvsock new p m) c.phases h.served

    all_served :
        (b : Bool) → All (PhaseIn grown) (if b then c.phases ++ unstarted ∷ [] else c.phases)
    all_served true = All-append (PhaseIn grown) c.phases (unstarted ∷ []) served_grown (tt, tt)
    all_served false = served_grown

moved-AreQueued :
    (i : ℕ) (p q : Phase) (n : Net) (c : Crowd)
    → AreQueued c
    → get_elem? c.phases i ≡ some p
    → phase_step p c.net ≡ (done q, n)
    → AreQueued (record { net = n; phases = set c.phases i q })
moved-AreQueued i p q n c h at_i e =
    let socks = c.net.recvsock in
    let (same, table) = step-TableIn p c.net h.table in
    let same' : n.recvsock ≡ socks = sym (ap (λ r. r.1.recvsock) e) ∙ same in
    record {
      table =
          subst (λ t. TableIn t n.regtable) (sym same')
            (subst (λ r. TableIn socks r.1.regtable) e table);
      served =
          subst (λ t. All (PhaseIn t) (set c.phases i q)) (sym same')
            (All-set (PhaseIn socks) c.phases i q h.served (
              subst (λ r. Lands socks r.0) e
                (phase_step-Lands socks p c.net refl
                  (All-get_elem? (PhaseIn socks) c.phases i p h.served at_i))));
    }

-- Whatever `accept` returns and whatever bytes arrive, where the threads take turns between their
-- calls of the kernel: from a state in which the table and the threads name members of the queue
-- alone, a run leads to such a state, and the queue has grown by what `accept` has returned in the
-- run, in order, the -1 of a failed `accept` included, and by nothing else.
pub crowd_run-AreQueued :
    (ts : List Turn) (c d : Crowd)
    → AreQueued c
    → crowd_run ts c ≡ some d
    → AreQueued d × (d.net.recvsock ≡ c.net.recvsock ++ accepted_in ts)
crowd_run-AreQueued ts c d h r = (
  crowd_keeps AreQueued accepted-AreQueued moved-AreQueued ts c d h r,
  crowd_run-recvsock ts c d r,
)
