-- ===== src/Server/Stays.antt =====
-- A name in the registration table of socket/netapi/server.cpp for the life of the server.
use mathlib.Core.Path.{subst}
use learning_directory.Base.{◌≡◌, List, some, Bool, true, false, Bytes, bytes_eq, arith}
use learning_directory.Base.Int.{ℤ}
use learning_directory.Base.Assoc.{lookup, insert, lookup-insert}
use learning_directory.Netapi.State.{Net}
use learning_directory.Netapi.Receive.{handle_msghead, trans_sock}
use learning_directory.Netapi.Table.{trans_sock_found}
use learning_directory.Server.{Server, Event, server_handleaccept, step, run}
use learning_directory.Server.Keeps.{Keeps-handle_msghead}
use learning_directory.Server.Steps.{step_cases, run_keeps}

module _ (name : Bytes) (s : ℤ) where
  abbrev pub Known : List (Bytes × ℤ) → Type 0
  Known table = lookup name table ≡ some s

  pub insert-Known :
      (table : List (Bytes × ℤ)) (other : Bytes) (k : ℤ)
      → Known table
      → Known (insert other k table)
  insert-Known table other k h =
      ground (arith, lookup-insert other name k table, bytes_eq.eqb_iff other name)

  handle_msghead-Known :
      (t : ℤ) (n : Net) → Known n.regtable → Known (handle_msghead t n).1.regtable
  handle_msghead-Known =
      Keeps-handle_msghead (λ socks. Known) λ socks table other k h e. insert-Known table other k h

  server_handleaccept-Known :
      (new : ℤ) (made : Bool) (v : Server)
      → Known v.net.regtable
      → Known (server_handleaccept new made v).net.regtable
  unfolding server_handleaccept
  server_handleaccept-Known new true v h = h
  server_handleaccept-Known new false v h = h

  step-Known :
      (e : Event) (v w : Server) → Known v.net.regtable → step e v ≡ some w → Known w.net.regtable
  step-Known e v w h =
      step_cases (λ _ u. Known u.net.regtable) v
        (λ new made. server_handleaccept-Known new made v h) (λ i k at_i newest. h)
        (λ i k n at_i done_with.
          subst (λ r. Known r.1.regtable) done_with (handle_msghead-Known k v.net h))
        e w

  -- Whatever connections are accepted, whatever bytes arrive, `reg` and `deg` messages among them,
  -- and however the threads interleave: a name that the table gives a socket keeps that socket in
  -- every state that a run leads to, so `handle_msghead` passes its messages on to it.
  pub name_stays :
      (es : List Event) (v w : Server)
      → lookup name v.net.regtable ≡ some s
      → run es v ≡ some w
      → (lookup name w.net.regtable ≡ some s) × (trans_sock name w.net.regtable ≡ s)
  name_stays es v w h e =
      let k = run_keeps (λ u. Known u.net.regtable) step-Known es v w h e in
      (k, trans_sock_found name s w.net.regtable k)
