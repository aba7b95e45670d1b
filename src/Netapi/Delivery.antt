-- ===== src/Netapi/Delivery.antt =====
-- A message from `sendmsg` on one side to `handle_msghead` on the other, of
-- socket/netapi/netapi.cpp and socket/netapi/msg.cpp. The receiver gets the 60 bytes of the head by
-- one `recv` and the 40 bytes of the body by the next.
use learning_directory.Base.{
  ◌≡◌, ◌≢◌, sym, ◌∙◌, ap, List, [], ◌∷◌, ◌++◌, some, Bytes, codes, length, back, bytes_eq, arith,
  Bool, true, if◌then◌else◌, ◌==◌, beq_ne, ne_of_beq, Bool-cases, inl, inr, take, drop,
  take-append-drop,
}
use learning_directory.Base.Int.{ℤ}
use learning_directory.Base.Assoc.{insert}
use learning_directory.Msg.{body_padding}
use learning_directory.Msg.Padding.{until_hash, LacksHash, until_hash-pad}
use learning_directory.Netapi.Wire.{
  Sendable, read_head-wire, length-wire_head, length-wire_body, wire_body,
}
use learning_directory.Netapi.State.{Recv, got, Net, done, update, update_self, update-update}
use learning_directory.Netapi.Receive.{
  Head, read_head, trans_sock, overread_after, route, handle_msghead,
}
use learning_directory.Netapi.Send.{wire}
use learning_directory.Netapi.Handler.{
  handle_msghead_whole, registered, register_sender_lem, route_own, route_other,
}

module _ (a : Net) (msgtype content to_name : Bytes) (ok : Sendable a msgtype content to_name)
    (b : Net) (s : ℤ) (rs : List Recv)
    (arrives : b.incoming s
      ≡ got (take 60 (wire a msgtype content to_name))
        ∷ got (drop 60 (wire a msgtype content to_name))
        ∷ rs) where
  abbrev bytes : Bytes
  bytes = wire a msgtype content to_name

  name_read : (read_head (take 60 bytes)).to_procname ≡ to_name
  name_read = ap (λ (h : Head). h.to_procname) (read_head-wire a msgtype content to_name ok)

  type_read : (read_head (take 60 bytes)).m_type ≡ msgtype
  type_read = ap (λ (h : Head). h.m_type) (read_head-wire a msgtype content to_name ok)

  sender_read : (read_head (take 60 bytes)).procname ≡ a.processname
  sender_read = ap (λ (h : Head). h.procname) (read_head-wire a msgtype content to_name ok)

  content_read : LacksHash content → until_hash (drop 60 bytes) ≡ content
  unfolding body_padding
  content_read clean =
      ap until_hash (wire_body a msgtype content to_name ok)
      ∙ until_hash-pad 40 content ok.content_fits (omega arith) clean

  head_width : length (take 60 bytes) ≡ 60
  head_width = length-wire_head a msgtype content to_name ok

  body_width : length (drop 60 bytes) ≡ 40
  body_width = length-wire_body a msgtype content to_name ok

  abbrev after_head : Net
  after_head = record b { incoming = update b.incoming s (got (drop 60 bytes) ∷ rs) }

  -- The table after the head of the message, if `k` is the newest accepted socket.
  abbrev pub table_after : ℤ → List (Bytes × ℤ)
  table_after k = if msgtype == codes "reg" then insert a.processname k b.regtable else b.regtable

  read_table : (k : ℤ) → registered (read_head (take 60 bytes)) k b.regtable ≡ table_after k
  read_table k =
      λ i. if type_read i == codes "reg" then insert (sender_read i) k b.regtable else b.regtable

  handle_registered :
      (k : ℤ)
      → (msgtype ≡ codes "reg" → back b.recvsock ≡ some k)
      → handle_msghead s b
        ≡ route
            (take 60 bytes)
            (read_head (take 60 bytes))
            s
            (record after_head { regtable = table_after k })
  handle_registered k newest =
      handle_msghead_whole (take 60 bytes) s b
        (record after_head { regtable = registered (read_head (take 60 bytes)) k b.regtable })
        (got (drop 60 bytes) ∷ rs) arrives head_width
        (register_sender_lem (read_head (take 60 bytes)) after_head k
          (λ e. newest (sym type_read ∙ e)))
      ∙ ap
          (λ t.
            route (take 60 bytes) (read_head (take 60 bytes)) s
              (record after_head { regtable = t }))
          (read_table k)

  -- The two ways that a message goes.
  abbrev pub shown_here : ℤ → Net
  shown_here k = record b {
    incoming = update b.incoming s rs;
    regtable = table_after k;
    shown = b.shown ++ content ∷ [];
  }

  abbrev pub passed_on : ℤ → List Bool → Net
  passed_on k oks = record b {
    incoming = update b.incoming s rs;
    regtable = table_after k;
    send_ok = oks;
    sent = b.sent ++ (trans_sock to_name (table_after k), bytes) ∷ [];
    overread = overread_after (take 60 bytes) (drop 60 bytes) b.overread;
  }

  handle_own :
      (k : ℤ)
      → (msgtype ≡ codes "reg" → back b.recvsock ≡ some k)
      → to_name ≡ b.processname
      → LacksHash content
      → handle_msghead s b ≡ (done tt, shown_here k)
  handle_own k newest own clean =
      handle_registered k newest
      ∙ route_own (take 60 bytes) (drop 60 bytes) (read_head (take 60 bytes)) s
          (record after_head { regtable = table_after k }) rs (name_read ∙ own)
          (update_self b.incoming s _) body_width
      ∙ λ i. (
        done tt,
        record b {
          incoming = update-update b.incoming s (got (drop 60 bytes) ∷ rs) rs i;
          regtable = table_after k;
          shown = b.shown ++ content_read clean i ∷ [];
        },
      )

  handle_other :
      (k : ℤ) (oks : List Bool)
      → (msgtype ≡ codes "reg" → back b.recvsock ≡ some k)
      → to_name ≢ b.processname
      → b.send_ok ≡ true ∷ oks
      → handle_msghead s b ≡ (done tt, passed_on k oks)
  handle_other k oks newest other free =
      handle_registered k newest
      ∙ route_other (take 60 bytes) (drop 60 bytes) (read_head (take 60 bytes)) s
          (record after_head { regtable = table_after k }) rs oks (λ e. other (sym name_read ∙ e))
          (update_self b.incoming s _) body_width free
      ∙ λ i. (
        done tt,
        record b {
          incoming = update-update b.incoming s (got (drop 60 bytes) ∷ rs) rs i;
          regtable = table_after k;
          send_ok = oks;
          sent =
              b.sent
              ++ (trans_sock (name_read i) (table_after k), take-append-drop 60 bytes i) ∷ [];
          overread = overread_after (take 60 bytes) (drop 60 bytes) b.overread;
        },
      )

  -- What becomes of a message, from its fields alone.
  abbrev pub delivered : ℤ → List Bool → Net
  delivered k oks = if to_name == b.processname then shown_here k else passed_on k oks

  -- A message whose fields fit, sent on one side and arriving as a head and a body on any socket:
  -- `handle_msghead` does what the message's fields alone describe. A `reg` message enters its
  -- sender with the newest accepted socket `k`; a message for the receiver's own name has its
  -- content printed, if it holds no `#`; any other is written, byte for byte, to the socket that
  -- the table then gives for its name, if the next `send` succeeds, and it is recorded whether the
  -- debug prints of `head_buf`, `body_buf` and `trans_buf` have read past one that holds no zero,
  -- which is taken to change no memory. Nothing else changes.
  pub deliver :
      (k : ℤ) (oks : List Bool)
      → (msgtype ≡ codes "reg" → back b.recvsock ≡ some k)
      → (to_name ≡ b.processname → LacksHash content)
      → (to_name ≢ b.processname → b.send_ok ≡ true ∷ oks)
      → handle_msghead s b ≡ (done tt, delivered k oks)
  deliver k oks newest clean free = elim (Bool-cases (to_name == b.processname)) [
    | inl t ↦
        let own = (bytes_eq.eqb_iff to_name b.processname).0 t in
        handle_own k newest own (clean own) ∙ λ i.
        (done tt, if sym t i then shown_here k else passed_on k oks)
    | inr f ↦
        let other = ne_of_beq to_name b.processname f in
        handle_other k oks newest other (free other) ∙ λ i.
        (done tt, if sym f i then shown_here k else passed_on k oks)
  ]

  unchanged : (k : ℤ) → msgtype ≢ codes "reg" → table_after k ≡ b.regtable
  unchanged k plain = rw (beq_ne msgtype (codes "reg") plain)

  -- A message of another type than `reg` for the receiver, which is printed.
  pub deliver_own :
      msgtype ≢ codes "reg"
      → to_name ≡ b.processname
      → LacksHash content
      → handle_msghead s b
        ≡ (done tt, record b { incoming = update b.incoming s rs; shown = b.shown ++ content ∷ [] })
  deliver_own plain own clean = handle_own s (λ e. absurd (plain e)) own clean ∙ λ i. (
    done tt,
    record b {
      incoming = update b.incoming s rs;
      regtable = unchanged s plain i;
      shown = b.shown ++ content ∷ [];
    },
  )

  -- A message of another type than `reg` for another name, which is passed on.
  pub deliver_other :
      (oks : List Bool)
      → msgtype ≢ codes "reg"
      → to_name ≢ b.processname
      → b.send_ok ≡ true ∷ oks
      → handle_msghead s b ≡ (
        done tt,
        record b {
          incoming = update b.incoming s rs;
          send_ok = oks;
          sent = b.sent ++ (trans_sock to_name b.regtable, bytes) ∷ [];
          overread = overread_after (take 60 bytes) (drop 60 bytes) b.overread;
        },
      )
  deliver_other oks plain other free = handle_other s oks (λ e. absurd (plain e)) other free ∙ λ i.
      (
        done tt,
        record b {
          incoming = update b.incoming s rs;
          regtable = unchanged s plain i;
          send_ok = oks;
          sent = b.sent ++ (trans_sock to_name (unchanged s plain i), bytes) ∷ [];
          overread = overread_after (take 60 bytes) (drop 60 bytes) b.overread;
        },
      )

  -- A `reg` message for the receiver, on any socket: its sender gets the newest one.
  pub deliver_reg :
      (k : ℤ)
      → msgtype ≡ codes "reg"
      → to_name ≡ b.processname
      → LacksHash content
      → back b.recvsock ≡ some k
      → handle_msghead s b ≡ (
        done tt,
        record b {
          incoming = update b.incoming s rs;
          regtable = insert a.processname k b.regtable;
          shown = b.shown ++ content ∷ [];
        },
      )
  deliver_reg k reg own clean newest = handle_own k (λ _. newest) own clean ∙ λ i. (
    done tt,
    record b {
      incoming = update b.incoming s rs;
      regtable = if reg i == codes "reg" then insert a.processname k b.regtable else b.regtable;
      shown = b.shown ++ content ∷ [];
    },
  )
