-- ===== src/Netapi/Overread.antt =====
-- The debug prints of the relaying branch of `handle_msghead` in socket/netapi/netapi.cpp.
use learning_directory.Base.{
  ◌≡◌, ◌≢◌, refl, ap, ◌∙◌, List, [], ◌∷◌, ◌++◌, some, Bool, true, false, Bytes, codes, length, back,
  buffer, ◌==◌, not, ◌||◌, bytes_eq, beq_ne, ℕ,
}
use learning_directory.Base.Int.{ℤ}
use learning_directory.Netapi.State.{
  Recv, got, failed, Net, Outcome, done, blocked, exited, undefined, Io, and_then, ◌>>=◌, skip,
  when, recv, send, answer_recv, answer_send, update, bind_done, when-true, when-false,
}
use learning_directory.Netapi.Receive.{
  read_head, has_zero, print_buffers, debug_buffers, send_on, pass_on, trans_sock, forward,
  handle_msgbody, route, handle_msghead,
}
use learning_directory.Netapi.Handler.{handle_msghead_whole, registered, register_sender_lem}

-- A step does not undo that a print has read past a buffer.
abbrev StaysOver : {A : Type 0} → Io A → Type 0
StaysOver m = (n : Net) → n.overread ≡ true → (m n).1.overread ≡ true

bind-StaysOver :
    {A B : Type 0} (m : Io A) (f : A → Io B)
    → StaysOver m
    → ((a : A) → StaysOver (f a))
    → StaysOver (m >>= f)
bind-StaysOver {A = A} m f hm hf n h = after (m n).0 (m n).1 (hm n h)
  where
    after : (o : Outcome A) (k : Net) → k.overread ≡ true → (and_then o k f).1.overread ≡ true
    after (done a) k g = hf a k g
    after blocked k g = g
    after exited k g = g
    after undefined k g = g

recv-StaysOver : (s : ℤ) (size : ℕ) → StaysOver (recv s size)
unfolding recv
recv-StaysOver s size n h = answered (n.incoming s)
  where
    answered : (rs : List Recv) → (answer_recv s size rs n).1.overread ≡ true
    answered [] = h
    answered (r ∷ rs) = h

send-StaysOver : (s : ℤ) (bs : Bytes) → StaysOver (send s bs)
unfolding send
send-StaysOver s bs n h = answered n.send_ok
  where
    answered : (oks : List Bool) → (answer_send s bs oks n).1.overread ≡ true
    answered [] = h
    answered (true ∷ oks) = h
    answered (false ∷ oks) = h

print_buffers-StaysOver : (bufs : List Bytes) → StaysOver (print_buffers bufs)
unfolding print_buffers
print_buffers-StaysOver bufs n h = rw h

pass_on-StaysOver : (hb name : Bytes) (r : Recv) → StaysOver (pass_on hb name r)
pass_on-StaysOver hb name failed n h = h
pass_on-StaysOver hb name (got []) n h = h
pass_on-StaysOver hb name (got (c ∷ cs)) n h =
    let bufs = debug_buffers hb (buffer 40 (c ∷ cs)) in
    let trans_buf = hb ++ buffer 40 (c ∷ cs) in
    bind-StaysOver (print_buffers bufs) (λ _. send_on trans_buf name) (print_buffers-StaysOver bufs)
      (λ _ m g.
        bind-StaysOver (send (trans_sock name m.regtable) trans_buf) (λ _. skip)
          (send-StaysOver (trans_sock name m.regtable) trans_buf) (λ _ l k. k) m g)
      n h

or_true : (b : Bool) → (b || true) ≡ true
or_true true = refl
or_true false = refl

forward_overreads :
    (hb name : Bytes) (s : ℤ) (n : Net)
    → has_zero hb ≡ false
    → (forward hb name s n).1.overread ≡ true
unfolding forward print_buffers
forward_overreads hb name s n full =
    bind-StaysOver (recv s 40) (pass_on hb name) (recv-StaysOver s 40) (pass_on-StaysOver hb name)
      (print_buffers (hb ∷ []) n).1
      ((λ i. n.overread || (not (full i) || false)) ∙ or_true n.overread)

-- A head of 60 bytes without a zero arrives, for another name than the object's own; if its type is
-- `reg`, a connection has been accepted. Then `handle_msghead` reads past the end of `head_buf` in
-- its debug prints, whatever the further `recv` and the `send` return, and if they return nothing.
pub relay_overreads :
    (hb : Bytes) (s k : ℤ) (n : Net) (rs : List Recv)
    → n.incoming s ≡ got hb ∷ rs
    → length hb ≡ 60
    → has_zero hb ≡ false
    → ((read_head hb).m_type ≡ codes "reg" → back n.recvsock ≡ some k)
    → (read_head hb).to_procname ≢ n.processname
    → (handle_msghead s n).1.overread ≡ true
unfolding route
relay_overreads hb s k n rs arrives whole full newest other =
    let name = (read_head hb).to_procname in
    let here = record n { incoming = update n.incoming s rs } in
    let after = record here { regtable = registered (read_head hb) k n.regtable } in
    let own = beq_ne name n.processname other in
    ap (λ p. p.1.overread)
      (handle_msghead_whole hb s n after rs arrives whole
          (register_sender_lem (read_head hb) here k newest)
        ∙ bind_done (when (name == n.processname) (handle_msgbody s))
            (λ _. when (not (name == n.processname)) (forward hb name s)) after
            (when-false (name == n.processname) (handle_msgbody s) after own)
        ∙ when-true (not (name == n.processname)) (forward hb name s) after (rw own))
    ∙ forward_overreads hb name s after full
