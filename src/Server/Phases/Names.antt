-- ===== src/Server/Phases/Names.antt =====
-- A name in the registration table of socket/netapi/server.cpp, where the threads take turns between
-- the calls of the kernel.
use learning_directory.Base.{◌≡◌, List, some, Bytes, bytes_eq}
use mathlib.Core.Path.{subst}
use learning_directory.Base.Int.{ℤ}
use learning_directory.Base.Assoc.{lookup}
use learning_directory.Netapi.Receive.{trans_sock}
use learning_directory.Netapi.Table.{trans_sock_found}
use learning_directory.Server.Stays.{Known, insert-Known}
use learning_directory.Server.Phases.{Crowd, Turn, crowd_run}
use learning_directory.Server.Phases.Keeps.{Keeps-phase_step, crowd_keeps}

-- Whatever connections are accepted and whatever bytes arrive, `reg` and `deg` messages among them,
-- where the threads take turns between their calls of the kernel: a name that the table gives a
-- socket keeps that socket in every state that a run leads to, so its messages are passed on to it.
pub names_stay :
    (name : Bytes) (s : ℤ) (ts : List Turn) (c d : Crowd)
    → lookup name c.net.regtable ≡ some s
    → crowd_run ts c ≡ some d
    → (lookup name d.net.regtable ≡ some s) × (trans_sock name d.net.regtable ≡ s)
names_stay name s ts c d h r = (known, trans_sock_found name s d.net.regtable known)
  where
    known : Known name s d.net.regtable
    known =
        crowd_keeps (λ e. Known name s e.net.regtable) (λ new made e g. g)
          (λ i p q n e g at_i moved.
            subst (λ o. Known name s o.1.regtable) moved
              (Keeps-phase_step (λ socks. Known name s)
                (λ socks table other k t b. insert-Known name s table other k t) p e.net g))
          ts c d h r
