-- ===== src/Server/Keeps.antt =====
-- The queue of accepted sockets and the registration table under the calls of
-- socket/netapi/netapi.cpp.
use mathlib.Core.List.{Mem}
use mathlib.Core.Path.{subst}
use learning_directory.Base.{
  ℕ, ◌++◌, buffer, ◌≡◌, refl, List, [], ◌∷◌, Option, none, some, Bool, true, false, Bytes, All,
  mem-back, ◌==◌, not, bytes_eq, codes, back,
}
use learning_directory.Base.Int.{ℤ}
use learning_directory.Base.Assoc.{insert, All-insert}
use learning_directory.Netapi.State.{
  Recv, got, failed, Net, Outcome, done, blocked, exited, undefined, Io, ◌>>=◌, and_then, when,
  skip, recv, send, answer_recv, answer_send,
}
use learning_directory.Netapi.Receive.{
  trans_sock, Head, read_head, regist, newest_sock, or_undefined, show_body, handle_msgbody,
  print_buffers, debug_buffers, send_on, pass_on, forward, register_sender, route, handle_head,
  dispatch_head, handle_msghead,
}

-- What holds of the queue and the table, and stays when a name is registered with the newest socket.
module _ (Holds : List ℤ → List (Bytes × ℤ) → Type 0)
    (registers : (socks : List ℤ) (table : List (Bytes × ℤ)) (name : Bytes) (k : ℤ)
      → Holds socks table
      → back socks ≡ some k
      → Holds socks (insert name k table)) where
  abbrev pub Good : Net → Type 0
  Good n = Holds n.recvsock n.regtable

  abbrev pub Keeps : {A : Type 0} → Io A → Type 0
  Keeps m = (n : Net) → Good n → Good (m n).1

  pub Keeps-bind :
      {A B : Type 0} (m : Io A) (f : A → Io B) → Keeps m → ((a : A) → Keeps (f a)) → Keeps (m >>= f)
  Keeps-bind {A = A} {B = B} m f km kf n g = after (m n).0 (m n).1 (km n g)
    where
      after : (o : Outcome A) (n' : Net) → Good n' → Good (and_then o n' f).1
      after (done a) n' g' = kf a n' g'
      after blocked n' g' = g'
      after exited n' g' = g'
      after undefined n' g' = g'

  pub Keeps-when : (b : Bool) (m : Io (Unit {0})) → Keeps m → Keeps (when b m)
  Keeps-when true m km n g = km n g
  Keeps-when false m km n g = g

  pub Keeps-recv : (s : ℤ) (size : ℕ) → Keeps (recv s size)
  unfolding recv
  Keeps-recv s size n g = answered (n.incoming s)
    where
      answered : (rs : List Recv) → Good (answer_recv s size rs n).1
      answered [] = g
      answered (r ∷ rs) = g

  Keeps-send : (s : ℤ) (bs : Bytes) → Keeps (send s bs)
  unfolding send
  Keeps-send s bs n g = answered n.send_ok
    where
      answered : (oks : List Bool) → Good (answer_send s bs oks n).1
      answered [] = g
      answered (true ∷ oks) = g
      answered (false ∷ oks) = g

  pub Keeps-show_body : (r : Recv) → Keeps (show_body r)
  Keeps-show_body failed n g = g
  Keeps-show_body (got []) n g = g
  Keeps-show_body (got (c ∷ cs)) n g = g

  pub Keeps-print_buffers : (bufs : List Bytes) → Keeps (print_buffers bufs)
  unfolding print_buffers
  Keeps-print_buffers bufs n g = g

  pub Keeps-pass_on : (hb name : Bytes) (r : Recv) → Keeps (pass_on hb name r)
  Keeps-pass_on hb name failed n g = g
  Keeps-pass_on hb name (got []) n g = g
  Keeps-pass_on hb name (got (c ∷ cs)) n g =
      let trans_buf = hb ++ buffer 40 (c ∷ cs) in
      let bufs = debug_buffers hb (buffer 40 (c ∷ cs)) in
      Keeps-bind (print_buffers bufs) (λ _. send_on trans_buf name) (Keeps-print_buffers bufs)
        (λ _ m h.
          Keeps-bind (send (trans_sock name m.regtable) trans_buf) (λ _. skip)
            (Keeps-send (trans_sock name m.regtable) trans_buf) (λ _ l k. k) m h)
        n g

  pub Keeps-register_sender : (h : Head) → Keeps (register_sender h)
  unfolding register_sender newest_sock regist
  Keeps-register_sender h =
      Keeps-when (h.m_type == codes "reg") (newest_sock >>= regist h.procname)
        λ n g. newest n g (back n.recvsock) refl
    where
      newest :
          (n : Net)
          → Good n
          → (o : Option ℤ) → back n.recvsock ≡ o
          → Good (and_then (or_undefined o n).0 (or_undefined o n).1 (regist h.procname)).1
      newest n g none e = g
      newest n g (some k) e = registers n.recvsock n.regtable h.procname k g e

  Keeps-route : (hb : Bytes) (h : Head) (s : ℤ) → Keeps (route hb h s)
  unfolding route handle_msgbody forward
  Keeps-route hb h s n g =
      let own = h.to_procname == n.processname in
      Keeps-bind (when own (handle_msgbody s)) (λ _. when (not own) (forward hb h.to_procname s))
        (Keeps-when own (handle_msgbody s)
          (Keeps-bind (recv s 40) show_body (Keeps-recv s 40) Keeps-show_body))
        (λ _. Keeps-when (not own) (forward hb h.to_procname s) (
          Keeps-bind (print_buffers (hb ∷ [])) (λ _. recv s 40 >>= pass_on hb h.to_procname)
            (Keeps-print_buffers (hb ∷ []))
            λ _.
              Keeps-bind (recv s 40) (pass_on hb h.to_procname) (Keeps-recv s 40)
                (Keeps-pass_on hb h.to_procname)))
        n g

  Keeps-dispatch_head : (s : ℤ) (r : Recv) → Keeps (dispatch_head s r)
  unfolding handle_head
  Keeps-dispatch_head s failed n g = g
  Keeps-dispatch_head s (got []) n g = g
  Keeps-dispatch_head s (got (c ∷ cs)) n g =
      let hb = buffer 60 (c ∷ cs) in
      Keeps-bind (register_sender (read_head hb)) (λ _. route hb (read_head hb) s)
        (Keeps-register_sender (read_head hb)) (λ _. Keeps-route hb (read_head hb) s) n g

  -- Whatever arrives, it holds after a call of `handle_msghead`.
  pub Keeps-handle_msghead : (s : ℤ) → Keeps (handle_msghead s)
  unfolding handle_msghead
  Keeps-handle_msghead s =
      Keeps-bind (recv s 60) (dispatch_head s) (Keeps-recv s 60) (Keeps-dispatch_head s)

-- The table names sockets of `socks` alone.
abbrev pub TableIn : List ℤ → List (Bytes × ℤ) → Type 0
TableIn socks = All (λ e. Mem e.1 socks)

-- A call leaves the queue alone and registers only one of its members.
pub handle_msghead-TableIn :
    (socks : List ℤ) (s : ℤ) (n : Net)
    → n.recvsock ≡ socks
    → TableIn socks n.regtable
    → ((handle_msghead s n).1.recvsock ≡ socks) × TableIn socks (handle_msghead s n).1.regtable
handle_msghead-TableIn socks s n same table =
    Keeps-handle_msghead (λ now t. (now ≡ socks) × TableIn socks t)
      (λ now t name k g e.
        (g.0, All-insert (λ e. Mem e.1 socks) name k t g.1 (subst (Mem k) g.0 (mem-back now k e))))
      s n (same, table)

pub handle_msghead-recvsock : (s : ℤ) (n : Net) → (handle_msghead s n).1.recvsock ≡ n.recvsock
handle_msghead-recvsock s n =
    Keeps-handle_msghead (λ now t. now ≡ n.recvsock) (λ now t name k g e. g) s n refl
