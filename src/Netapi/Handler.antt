-- ===== src/Netapi/Handler.antt =====
-- What `handle_msghead` of socket/netapi/netapi.cpp does with a message that arrives whole: the
-- head by one `recv`, the body by the next.
use learning_directory.Base.{
  ◌≡◌, ◌≢◌, ◌∙◌, List, [], ◌∷◌, ◌++◌, some, Bytes, codes, length, back, buffer_full, ◌==◌, not,
  bytes_eq, beq_refl, beq_ne, ne_of_beq, if◌then◌else◌, Bool-cases, ◌||◌, inl, inr, sym, arith, ap,
  Bool, true, false,
}
use learning_directory.Base.Int.{ℤ, int_eq}
use learning_directory.Base.Assoc.{insert}
use learning_directory.Msg.Padding.{until_hash}
use learning_directory.Netapi.State.{
  Recv, got, Net, done, ◌>>=◌, ◌>>◌, when, recv, send, update, bind_done, when-true, when-false,
  recv_whole, send_lem, skip,
}
use learning_directory.Netapi.Receive.{
  Head, read_head, regist, newest_sock, or_undefined, handle_msgbody, show_body, pass_on,
  dispatch_head, trans_sock, forward, unterminated, debug_buffers, overread_after, print_buffers,
  send_on, register_sender, route, handle_head, handle_msghead,
}

-- A message whose type is not `reg` registers nothing.
pub register_sender_other :
    (h : Head) (n : Net) → h.m_type ≢ codes "reg" → register_sender h n ≡ (done tt, n)
unfolding register_sender
register_sender_other h n e = rw (beq_ne h.m_type (codes "reg") e)

pub register_sender_reg :
    (h : Head) (n : Net) (k : ℤ)
    → h.m_type ≡ codes "reg"
    → back n.recvsock ≡ some k
    → register_sender h n ≡ (done tt, record n { regtable = insert h.procname k n.regtable })
unfolding register_sender newest_sock regist
register_sender_reg h n k e b =
    when-true (h.m_type == codes "reg") (newest_sock >>= regist h.procname) n (rw e)
    ∙ bind_done newest_sock (regist h.procname) n (ap (λ o. or_undefined o n) b)

-- The table after a head, if `k` is the newest accepted socket.
abbrev pub registered : Head → ℤ → List (Bytes × ℤ) → List (Bytes × ℤ)
registered h k table = if h.m_type == codes "reg" then insert h.procname k table else table

pub register_sender_lem :
    (h : Head) (n : Net) (k : ℤ)
    → (h.m_type ≡ codes "reg" → back n.recvsock ≡ some k)
    → register_sender h n ≡ (done tt, record n { regtable = registered h k n.regtable })
register_sender_lem h n k newest = elim (Bool-cases (h.m_type == codes "reg")) [
  | inl t ↦
      let e = (bytes_eq.eqb_iff h.m_type (codes "reg")).0 t in
      register_sender_reg h n k e (newest e) ∙ λ i. (
        done tt,
        record n { regtable = if sym t i then insert h.procname k n.regtable else n.regtable },
      )
  | inr f ↦ register_sender_other h n (ne_of_beq h.m_type (codes "reg") f) ∙ λ i. (
    done tt,
    record n { regtable = if sym f i then insert h.procname k n.regtable else n.regtable },
  )
]

show_body_whole :
    (bb : Bytes) (n : Net)
    → length bb ≡ 40
    → show_body (got bb) n ≡ (done tt, record n { shown = n.shown ++ until_hash bb ∷ [] })
show_body_whole [] n w = absurd (omega arith)
show_body_whole (c ∷ cs) n w =
    ap (λ b. (done tt, record n { shown = n.shown ++ until_hash b ∷ [] }))
      (buffer_full 40 (c ∷ cs) w)

-- A body of 40 bytes for this process is printed up to its first `#`.
handle_msgbody_whole :
    (bb : Bytes) (s : ℤ) (n : Net) (rs : List Recv)
    → n.incoming s ≡ got bb ∷ rs
    → length bb ≡ 40
    → handle_msgbody s n ≡ (
      done tt,
      record n { incoming = update n.incoming s rs; shown = n.shown ++ until_hash bb ∷ [] },
    )
unfolding handle_msgbody
handle_msgbody_whole bb s n rs a w =
    bind_done (recv s 40) show_body n (recv_whole s 40 n bb rs a (omega arith))
    ∙ show_body_whole bb (record n { incoming = update n.incoming s rs }) w

pub route_own :
    (hb bb : Bytes) (h : Head) (s : ℤ) (n : Net) (rs : List Recv)
    → h.to_procname ≡ n.processname
    → n.incoming s ≡ got bb ∷ rs
    → length bb ≡ 40
    → route hb h s n ≡ (
      done tt,
      record n { incoming = update n.incoming s rs; shown = n.shown ++ until_hash bb ∷ [] },
    )
unfolding route
route_own hb bb h s n rs e a w =
    bind_done (when own (handle_msgbody s)) (λ _. when (not own) (forward hb h.to_procname s)) n
      (when-true own (handle_msgbody s) n same ∙ handle_msgbody_whole bb s n rs a w)
    ∙ when-false (not own) (forward hb h.to_procname s) _ (rw same)
  where
    own : Bool
    own = h.to_procname == n.processname

    same : (h.to_procname == n.processname) ≡ true
    same = rw e (beq_refl n.processname)

pub pass_on_whole :
    (hb bb name : Bytes) (n : Net) (oks : List Bool)
    → length bb ≡ 40
    → n.send_ok ≡ true ∷ oks
    → pass_on hb name (got bb) n ≡ (
      done tt,
      record n {
        send_ok = oks;
        sent = n.sent ++ (trans_sock name n.regtable, hb ++ bb) ∷ [];
        overread = n.overread || unterminated (debug_buffers hb bb);
      },
    )
unfolding print_buffers
pass_on_whole hb [] name n oks w k = absurd (omega arith)
pass_on_whole hb (c ∷ cs) name n oks w k =
    ap (λ b. (print_buffers (debug_buffers hb b) >> send_on (hb ++ b) name) n)
      (buffer_full 40 (c ∷ cs) w)
    ∙ bind_done (send (trans_sock name n.regtable) (hb ++ c ∷ cs)) (λ _. skip) printed
        (send_lem (trans_sock name n.regtable) (hb ++ c ∷ cs) printed oks k)
  where
    printed : Net
    printed = record n { overread = n.overread || unterminated (debug_buffers hb (c ∷ cs)) }

pub route_other :
    (hb bb : Bytes) (h : Head) (s : ℤ) (n : Net) (rs : List Recv) (oks : List Bool)
    → h.to_procname ≢ n.processname
    → n.incoming s ≡ got bb ∷ rs
    → length bb ≡ 40
    → n.send_ok ≡ true ∷ oks
    → route hb h s n ≡ (
      done tt,
      record n {
        incoming = update n.incoming s rs;
        send_ok = oks;
        sent = n.sent ++ (trans_sock h.to_procname n.regtable, hb ++ bb) ∷ [];
        overread = overread_after hb bb n.overread;
      },
    )
unfolding route forward print_buffers
route_other hb bb h s n rs oks e a w k =
    bind_done (when own (handle_msgbody s)) (λ _. when (not own) (forward hb h.to_procname s)) n
      (when-false own (handle_msgbody s) n other)
    ∙ when-true (not own) (forward hb h.to_procname s) n (rw other)
    ∙ bind_done (recv s 40) (pass_on hb h.to_procname) printed
        (recv_whole s 40 printed bb rs a (omega arith))
    ∙ pass_on_whole hb bb h.to_procname (record printed { incoming = update n.incoming s rs }) oks w
        k
  where
    own : Bool
    own = h.to_procname == n.processname

    printed : Net
    printed = record n { overread = n.overread || unterminated (hb ∷ []) }

    other : (h.to_procname == n.processname) ≡ false
    other = beq_ne h.to_procname n.processname e

dispatch_head_whole :
    (hb : Bytes) (s : ℤ) (n : Net)
    → length hb ≡ 60
    → dispatch_head s (got hb) n ≡ handle_head hb s n
dispatch_head_whole [] s n w = absurd (omega arith)
dispatch_head_whole (c ∷ cs) s n w = ap (λ b. handle_head b s n) (buffer_full 60 (c ∷ cs) w)

-- A head of 60 bytes is registered and routed with the state that its `recv` leaves.
pub handle_msghead_whole :
    (hb : Bytes) (s : ℤ) (n n' : Net) (rs : List Recv)
    → n.incoming s ≡ got hb ∷ rs
    → length hb ≡ 60
    → register_sender (read_head hb) (record n { incoming = update n.incoming s rs })
      ≡ (done tt, n')
    → handle_msghead s n ≡ route hb (read_head hb) s n'
unfolding handle_msghead handle_head
handle_msghead_whole hb s n n' rs a w reg =
    bind_done (recv s 60) (dispatch_head s) n (recv_whole s 60 n hb rs a (omega arith))
    ∙ dispatch_head_whole hb s (record n { incoming = update n.incoming s rs }) w
    ∙ bind_done (register_sender (read_head hb)) (λ _. route hb (read_head hb) s) _ reg
