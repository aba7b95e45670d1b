-- ===== src/Netapi/State.antt =====
-- The object of the class `netapi` in socket/netapi/netapi.cpp, and the calls of the kernel.
-- What the kernel answers is an argument of the model: `incoming s` holds what the successive
-- `recv` calls on the socket `s` return, `send_ok` whether the successive `send` calls succeed,
-- `local_ip` and `local_port` what `getsockname` says of `localsock`. Of the debug output, what it
-- prints is left out, but not that it reads past the end of a buffer.
use mathlib.Core.Path.{fun_ext}
use learning_directory.Base.{
  ℕ, ◌≡◌, ◌≤◌, ap, ◌∙◌, refl, beq_refl, take_all, length, List, [], ◌∷◌, ◌++◌, Bool, true, false,
  Bytes, if◌then◌else◌, ◌==◌, take,
}
use learning_directory.Base.Int.{ℤ, int_eq}

-- What one `recv` returns: bytes put at the start of its buffer (none at the end of the stream),
-- or -1.
pub data Recv : Type 0 where
  got : Bytes → Recv
  failed : Recv

pub record Net : Type 0 where
  pub localsock : ℤ
  pub recvsock : List ℤ  -- oldest first
  pub regtable : List (Bytes × ℤ)
  pub processname : Bytes
  pub incoming : ℤ → List Recv
  pub send_ok : List Bool
  pub local_ip : Bytes
  pub local_port : ℕ
  pub sent : List (ℤ × Bytes)  -- the calls of `send` that succeeded, oldest first
  pub shown : List Bytes  -- the message contents printed, oldest first
  pub overread : Bool  -- a print of a buffer has met no zero in it, and has read past its end

-- `blocked`: the call still waits for an answer. `exited`: the code called `exit(-1)`.
-- `undefined`: the code read the last element of an empty queue.
pub data Outcome {ℓ} (A : Type ℓ) : Type ℓ where
  done : A → Outcome A
  blocked exited undefined : Outcome A

abbrev pub Io : Type 0 → Type 0
Io A = Net → Outcome A × Net

abbrev pub and_then : {A B : Type 0} → Outcome A → Net → (A → Io B) → Outcome B × Net
and_then (done a) n f = f a n
and_then blocked n f = (blocked, n)
and_then exited n f = (exited, n)
and_then undefined n f = (undefined, n)

infixl 5 ◌>>=◌ ◌>>◌
abbrev pub ◌>>=◌ : {A B : Type 0} → Io A → (A → Io B) → Io B
◌>>=◌ m f n = let (r, n') = m n in and_then r n' f

abbrev pub ◌>>◌ : {B : Type 0} → Io (Unit {0}) → Io B → Io B
m >> k = m >>= λ _. k

abbrev pub skip : Io (Unit {0})
skip n = (done tt, n)

abbrev pub exit_process : Io (Unit {0})
exit_process n = (exited, n)

abbrev pub when : Bool → Io (Unit {0}) → Io (Unit {0})
when b m n = if b then m n else (done tt, n)

pub bind_done :
    {A B : Type 0} (m : Io A) (f : A → Io B) (n : Net) {n' : Net} {a : A}
    → m n ≡ (done a, n')
    → (m >>= f) n ≡ f a n'
bind_done m f n e = ap (λ p. and_then p.0 p.1 f) e

pub bind_exited :
    {A B : Type 0} (m : Io A) (f : A → Io B) (n : Net) {n' : Net}
    → m n ≡ (exited, n')
    → (m >>= f) n ≡ (exited, n')
bind_exited m f n e = ap (λ p. and_then p.0 p.1 f) e

pub when-true : (b : Bool) (m : Io (Unit {0})) (n : Net) → b ≡ true → when b m n ≡ m n
when-true b m n e = rw e

pub when-false : (b : Bool) (m : Io (Unit {0})) (n : Net) → b ≡ false → when b m n ≡ (done tt, n)
when-false b m n e = rw e

-- A function that differs from `f` at `k` alone.
abbrev pub update {ℓ} : {A : Type ℓ} → (ℤ → A) → ℤ → A → ℤ → A
update f k v j = if k == j then v else f j

-- `recv` puts no more than `size` bytes into its buffer.
abbrev pub clip : ℕ → Recv → Recv
clip size (got bs) = got (take size bs)
clip size failed = failed

abbrev pub answer_recv : ℤ → ℕ → List Recv → Io Recv
answer_recv s size [] n = (blocked, n)
answer_recv s size (r ∷ rs) n = (done (clip size r), record n { incoming = update n.incoming s rs })

unfoldable pub recv : ℤ → ℕ → Io Recv
recv s size n = answer_recv s size (n.incoming s) n

abbrev pub answer_send : ℤ → Bytes → List Bool → Io Bool
answer_send s bs [] n = (blocked, n)
answer_send s bs (true ∷ oks) n =
    (done true, record n { send_ok = oks; sent = n.sent ++ (s, bs) ∷ [] })
answer_send s bs (false ∷ oks) n = (done false, record n { send_ok = oks })

unfoldable pub send : ℤ → Bytes → Io Bool
send s bs n = answer_send s bs n.send_ok n

pub recv_lem :
    (s : ℤ) (size : ℕ) (n : Net) (r : Recv) (rs : List Recv)
    → n.incoming s ≡ r ∷ rs
    → recv s size n ≡ (done (clip size r), record n { incoming = update n.incoming s rs })
unfolding recv
recv_lem s size n r rs e = ap (λ q. answer_recv s size q n) e

-- An answer that fits the buffer arrives unchanged.
pub recv_whole :
    (s : ℤ) (size : ℕ) (n : Net) (bs : Bytes) (rs : List Recv)
    → n.incoming s ≡ got bs ∷ rs
    → length bs ≤ size
    → recv s size n ≡ (done (got bs), record n { incoming = update n.incoming s rs })
recv_whole s size n bs rs e h =
    recv_lem s size n (got bs) rs e
    ∙ ap (λ t. (done (got t), record n { incoming = update n.incoming s rs })) (take_all size bs h)

pub send_lem :
    (s : ℤ) (bs : Bytes) (n : Net) (oks : List Bool)
    → n.send_ok ≡ true ∷ oks
    → send s bs n ≡ (done true, record n { send_ok = oks; sent = n.sent ++ (s, bs) ∷ [] })
unfolding send
send_lem s bs n oks e = ap (λ q. answer_send s bs q n) e

pub send_failed :
    (s : ℤ) (bs : Bytes) (n : Net) (oks : List Bool)
    → n.send_ok ≡ false ∷ oks
    → send s bs n ≡ (done false, record n { send_ok = oks })
unfolding send
send_failed s bs n oks e = ap (λ q. answer_send s bs q n) e

pub update_self {ℓ} : {A : Type ℓ} (f : ℤ → A) (k : ℤ) (v : A) → update f k v k ≡ v
update_self f k v = rw (beq_refl k)

pub update-update {ℓ} :
    {A : Type ℓ} (f : ℤ → A) (k : ℤ) (v w : A) → update (update f k v) k w ≡ update f k w
update-update {A = A} f k v w = fun_ext λ j. twice (k == j) (f j)
  where
    twice : (b : Bool) (u : A) → (if b then w else (if b then v else u)) ≡ (if b then w else u)
    twice true u = refl
    twice false u = refl
