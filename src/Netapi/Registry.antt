-- ===== src/Netapi/Registry.antt =====
-- The registration table of socket/netapi/netapi.cpp as the map that it stands for: tables that give
-- every name the same socket are one.
use mathlib.Core.Quot
use mathlib.Core.Quot.{Quot, Quot-set}
use learning_directory.Base.{
  ◌≡◌, ◌≢◌, refl, sym, ap, ◌∙◌, List, none, some, Bytes, ◌==◌, bytes_eq, if◌then◌else◌, arith,
}
use learning_directory.Base.Int.{ℤ, pos}
use learning_directory.Base.Assoc.{lookup, insert, or_else, lookup-insert}
use learning_directory.Netapi.State.{Net, ◌>>◌}
use learning_directory.Netapi.Receive.{regist, trans_sock}

abbrev pub SameNames : List (Bytes × ℤ) → List (Bytes × ℤ) → Type 0
SameNames t u = (k : Bytes) → lookup k t ≡ lookup k u

abbrev pub Registry : Type 0
Registry = Quot SameNames

abbrev pub registry : Net → Registry
registry n = Quot.mk n.regtable

-- `trans_sock` and `regist` on the map.
SameNames-trans_sock :
    (name : Bytes) (t u : List (Bytes × ℤ)) → SameNames t u → trans_sock name t ≡ trans_sock name u
unfolding trans_sock
SameNames-trans_sock name t u h = ap (λ o. elim o [ none ↦ pos 0 | some s ↦ s ]) (h name)

SameNames-insert :
    (name : Bytes) (s : ℤ) (t u : List (Bytes × ℤ))
    → SameNames t u
    → SameNames (insert name s t) (insert name s u)
SameNames-insert name s t u h k =
    lookup-insert name k s t
    ∙ (λ i. if name == k then some (or_else (h name i) s) else h k i)
    ∙ sym (lookup-insert name k s u)

insert_comm :
    (a b : Bytes) (s t : ℤ) (m : List (Bytes × ℤ))
    → a ≢ b
    → SameNames (insert a s (insert b t m)) (insert b t (insert a s m))
insert_comm a b s t m other k = ground (
  arith,
  lookup-insert a k s (insert b t m),
  lookup-insert b k t m,
  lookup-insert b a t m,
  lookup-insert b k t (insert a s m),
  lookup-insert a k s m,
  lookup-insert a b s m,
  bytes_eq.eqb_iff a b,
  bytes_eq.eqb_iff b a,
  bytes_eq.eqb_iff a k,
  bytes_eq.eqb_iff b k,
)

ℤ_set : IsSet ℤ
ℤ_set = hlevel

pub destination : Bytes → Registry → ℤ
destination name = Quot.lift ℤ_set (trans_sock name) (SameNames-trans_sock name)

pub enter : Bytes → ℤ → Registry → Registry
enter name s =
    Quot.lift Quot-set (λ t. Quot.mk (insert name s t))
      λ t u h. Quot.sound (SameNames-insert name s t u h)

enter_comm :
    (a b : Bytes) (s t : ℤ)
    → a ≢ b
    → (m : Registry) → enter a s (enter b t m) ≡ enter b t (enter a s m)
unfolding enter
enter_comm a b s t other =
    Quot.ind (λ m. Quot-set _ _) λ m. Quot.sound (insert_comm a b s t m other)

-- In the type of tables up to the sockets that they give, a `regist` is the entry of a name, and
-- two `regist`s of different names lead to the same element in either order; so the search of
-- `handle_msghead` finds the same socket for every name.
pub registrations :
    (a b : Bytes) (s t : ℤ) (n : Net)
    → a ≢ b
    → (registry ((regist a s >> regist b t) n).1 ≡ enter b t (enter a s (registry n)))
      × (registry ((regist a s >> regist b t) n).1 ≡ registry ((regist b t >> regist a s) n).1)
      × ((name : Bytes)
          → trans_sock name ((regist a s >> regist b t) n).1.regtable
            ≡ trans_sock name ((regist b t >> regist a s) n).1.regtable)
unfolding regist enter destination
registrations a b s t n other =
    let same = enter_comm b a t s (λ e. other (sym e)) (registry n) in
    (refl, same, λ name. ap (destination name) same)
