-- ===== src/Server/Safety.antt =====
-- The sockets in the reachable states of the server of socket/netapi/server.cpp.
use mathlib.Core.List.{Mem, mem-append_left}
use mathlib.Core.Path.{subst}
use mathlib.Core.Option.{some-injective}
use learning_directory.Base.{
  ◌≡◌, refl, sym, ap, List, [], ◌∷◌, ◌++◌, some, Bool, true, false, All, All-mono, All-set,
  All-append, mem-back, ◌∙◌, append-nil, append_assoc, Option-cases, inl, inr,
}
use learning_directory.Base.Int.{ℤ}
use learning_directory.Netapi.Receive.{handle_msghead}
use learning_directory.Server.{
  Server, Thread, created, serving, Event, server_handleaccept, step, run, run_rest, accepts,
  starts, handles,
}
use learning_directory.Server.Steps.{step_cases, run_keeps, accepted_by, none≢some}
use learning_directory.Server.Keeps.{TableIn, handle_msghead-TableIn, handle_msghead-recvsock}

-- The socket that a thread serves, if it has read one, is in the queue, which holds what `accept` has
-- returned.
abbrev pub ServesIn : List ℤ → Thread → Type 0
ServesIn socks created = Unit
ServesIn socks (serving s) = Mem s socks

pub record IsSafe (v : Server) : Type 0 where
  pub table : TableIn v.net.recvsock v.net.regtable
  pub served : All (ServesIn v.net.recvsock) v.threads

ServesIn-append :
    (socks : List ℤ) (new : ℤ) (t : Thread) → ServesIn socks t → ServesIn (socks ++ new ∷ []) t
ServesIn-append socks new created h = tt
ServesIn-append socks new (serving s) h = mem-append_left (new ∷ []) h

module _ (new : ℤ) (v : Server) (h : IsSafe v) where
  abbrev grown : List ℤ
  grown = v.net.recvsock ++ new ∷ []

  table_grown : TableIn grown v.net.regtable
  table_grown =
      All-mono (λ e. Mem e.1 v.net.recvsock) (λ e. Mem e.1 grown)
        (λ e m. mem-append_left (new ∷ []) m) v.net.regtable h.table

  served_grown : All (ServesIn grown) v.threads
  served_grown =
      All-mono (ServesIn v.net.recvsock) (ServesIn grown)
        (λ t m. ServesIn-append v.net.recvsock new t m) v.threads h.served

  server_handleaccept-IsSafe : (made : Bool) → IsSafe (server_handleaccept new made v)
  unfolding server_handleaccept
  server_handleaccept-IsSafe true = record {
    table = table_grown;
    served = All-append (ServesIn grown) v.threads (created ∷ []) served_grown (tt, tt);
  }
  server_handleaccept-IsSafe false = record { table = table_grown; served = served_grown }

pub step-IsSafe : (e : Event) (v w : Server) → IsSafe v → step e v ≡ some w → IsSafe w
step-IsSafe e v w h =
    step_cases (λ _. IsSafe) v (λ new made. server_handleaccept-IsSafe new v h made)
      (λ i s at_i newest. record {
        table = h.table;
        served =
            All-set (ServesIn v.net.recvsock) v.threads i (serving s) h.served
              (mem-back v.net.recvsock s newest);
      })
      (λ i s n at_i done_with.
        let g = handle_msghead-TableIn v.net.recvsock s v.net refl h.table in
        subst (λ k. IsSafe (record v { net = k })) (ap (λ r. r.1) done_with)
          (record {
            table =
                subst (λ socks. TableIn socks (handle_msghead s v.net).1.regtable) (sym g.0) g.1;
            served = subst (λ socks. All (ServesIn socks) v.threads) (sym g.0) h.served;
          }))
      e w

-- Whatever connections are accepted, whatever bytes arrive and however the threads interleave: from
-- a state in which the table and the threads name members of the queue alone, a run of events that
-- happens leads to such a state.
pub run-IsSafe : (es : List Event) (v w : Server) → IsSafe v → run es v ≡ some w → IsSafe w
run-IsSafe = run_keeps IsSafe step-IsSafe

server_handleaccept-recvsock :
    (new : ℤ) (made : Bool) (v : Server)
    → (server_handleaccept new made v).net.recvsock ≡ v.net.recvsock ++ new ∷ []
unfolding server_handleaccept
server_handleaccept-recvsock new true v = refl
server_handleaccept-recvsock new false v = refl

-- An accept adds to the queue what it returns, a socket or -1, and the other events leave it alone.
pub step-recvsock :
    (e : Event) (v w : Server)
    → step e v ≡ some w
    → w.net.recvsock ≡ v.net.recvsock ++ accepted_by (e ∷ [])
step-recvsock e v w =
    step_cases (λ x u. u.net.recvsock ≡ v.net.recvsock ++ accepted_by (x ∷ [])) v
      (λ new made. server_handleaccept-recvsock new made v)
      (λ i s at_i newest. sym (append-nil v.net.recvsock))
      (λ i s n at_i done_with.
        ap (λ r. r.1.recvsock) (sym done_with)
        ∙ handle_msghead-recvsock s v.net
        ∙ sym (append-nil v.net.recvsock))
      e w

-- In a run the queue grows by what `accept` returns, in order, and by nothing else.
pub run-recvsock :
    (es : List Event) (v w : Server)
    → run es v ≡ some w
    → w.net.recvsock ≡ v.net.recvsock ++ accepted_by es
unfolding run
run-recvsock [] v w e =
    ap (λ u. u.net.recvsock) (sym (some-injective _ _ e)) ∙ sym (append-nil v.net.recvsock)
run-recvsock (x ∷ es) v w e = elim (Option-cases (step x v)) [
  | inl stopped ↦ absurd (none≢some w (ap (run_rest (run es)) (sym stopped) ∙ e))
  | inr (u, happens) ↦
      run-recvsock es u w (ap (run_rest (run es)) (sym happens) ∙ e)
      ∙ ap (λ q. q ++ accepted_by es) (step-recvsock x v u happens)
      ∙ append_assoc v.net.recvsock (accepted_by (x ∷ [])) (accepted_by es)
      ∙ ap (λ q. v.net.recvsock ++ q) (one_more x)
]
  where
    one_more : (y : Event) → accepted_by (y ∷ []) ++ accepted_by es ≡ accepted_by (y ∷ es)
    one_more (accepts new made) = refl
    one_more (starts i) = refl
    one_more (handles i) = refl
