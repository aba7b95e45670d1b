-- ===== src/Netapi/Table.antt =====
-- The registration table of socket/netapi/netapi.cpp: `regist`, and the search of `handle_msghead`.
use learning_directory.Base.{
  ◌≡◌, ◌∙◌, ap, List, none, some, Bytes, ◌==◌, bytes_eq, if◌then◌else◌, arith, beq_refl,
}
use learning_directory.Base.Int.{ℤ, pos}
use learning_directory.Base.Assoc.{lookup, insert, or_else, lookup-insert}
use learning_directory.Netapi.State.{Net}
use learning_directory.Netapi.Receive.{regist, trans_sock}

-- After `regist`, a name that was new has the given socket, a name that was there keeps the socket
-- that it had, and every other name has what it had before.
pub lookup-regist :
    (name other : Bytes) (s : ℤ) (n : Net)
    → lookup other ((regist name s n).1).regtable ≡ (
        if name == other
        then some (or_else (lookup name n.regtable) s)
        else lookup other n.regtable)
unfolding regist
lookup-regist name other s n = lookup-insert name other s n.regtable

pub trans_sock_found :
    (name : Bytes) (s : ℤ) (table : List (Bytes × ℤ))
    → lookup name table ≡ some s
    → trans_sock name table ≡ s
unfolding trans_sock
trans_sock_found name s table e = ground arith

-- A name that is not registered is sent to descriptor 0.
pub trans_sock_missing :
    (name : Bytes) (table : List (Bytes × ℤ))
    → lookup name table ≡ none
    → trans_sock name table ≡ pos 0
unfolding trans_sock
trans_sock_missing name table e = ground arith

pub trans_sock-insert :
    (name : Bytes) (s : ℤ) (table : List (Bytes × ℤ))
    → lookup name table ≡ none
    → trans_sock name (insert name s table) ≡ s
trans_sock-insert name s table e =
    trans_sock_found name s (insert name s table)
      (lookup-insert name name s table ∙ rw (beq_refl name) (ap (λ o. some (or_else o s)) e))
