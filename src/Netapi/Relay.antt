-- ===== src/Netapi/Relay.antt =====
-- Two clients of the server of socket/netapi: one registers, the other sends it a message.
use learning_directory.Base.{
  ◌≡◌, ◌≢◌, refl, sym, ◌∙◌, List, [], ◌∷◌, ◌++◌, none, some, Bytes, codes, back, take, drop, Bool,
  true, beq_ne, ne_of_beq, bytes_eq,
}
use learning_directory.Base.Int.{ℤ, int_eq}
use learning_directory.Base.Assoc.{lookup, insert}
use learning_directory.Msg.Padding.{LacksHash}
use learning_directory.Netapi.State.{Recv, got, Net, done, ◌>>◌, update, bind_done}
use learning_directory.Netapi.Receive.{handle_msghead, overread_after}
use learning_directory.Netapi.Send.{wire}
use learning_directory.Netapi.Wire.{Sendable}
use learning_directory.Netapi.Delivery.{deliver_reg, deliver_other}
use learning_directory.Netapi.Table.{trans_sock-insert}

-- The parts of a message as two `recv` calls return them, before the answers `rs`.
abbrev pub arriving : Bytes → List Recv → List Recv
arriving bytes rs = got (take 60 bytes) ∷ got (drop 60 bytes) ∷ rs

module _ (a c b : Net) (greeting content : Bytes) (s t : ℤ) (rs rt : List Recv) (oks : List Bool)
    (joins : Sendable c (codes "reg") greeting b.processname)
    (sends : Sendable a (codes "nor") content c.processname) (clean : LacksHash greeting) where
  -- A client `c` registers with the server on the newest accepted socket `t`, then `a` sends a
  -- message to the name of `c` on another socket `s`. If both messages have fields that fit and
  -- arrive as a head and a body, the greeting holds no `#`, the name of `c` is neither registered
  -- nor the server's own, and the next `send` succeeds, then the two calls of `handle_msghead`
  -- register `c` under `t`, print the greeting, and write to `t` exactly the bytes that `a`
  -- composed; nothing else changes but the record that the debug prints have read past a buffer.
  pub relay :
      s ≢ t
      → c.processname ≢ b.processname
      → lookup c.processname b.regtable ≡ none
      → back b.recvsock ≡ some t
      → b.incoming t ≡ arriving (wire c (codes "reg") greeting b.processname) rt
      → b.incoming s ≡ arriving (wire a (codes "nor") content c.processname) rs
      → b.send_ok ≡ true ∷ oks
      → (handle_msghead t >> handle_msghead s) b ≡ (
        done tt,
        record b {
          incoming = update (update b.incoming t rt) s rs;
          regtable = insert c.processname t b.regtable;
          shown = b.shown ++ greeting ∷ [];
          send_ok = oks;
          sent = b.sent ++ (t, wire a (codes "nor") content c.processname) ∷ [];
          overread =
              overread_after
                (take 60 (wire a (codes "nor") content c.processname))
                (drop 60 (wire a (codes "nor") content c.processname))
                b.overread;
        },
      )
  relay apart other fresh newest at_t at_s free =
      bind_done (handle_msghead t) (λ _. handle_msghead s) b
        (deliver_reg c (codes "reg") greeting b.processname joins b t rt at_t t refl refl clean
          newest)
      ∙ deliver_other a (codes "nor") content c.processname sends joined s rs still oks
          (ne_of_beq (codes "nor") (codes "reg") refl) other free
      ∙ rw (trans_sock-insert c.processname t b.regtable fresh)
    where
      joined : Net
      joined = record b {
        incoming = update b.incoming t rt;
        regtable = insert c.processname t b.regtable;
        shown = b.shown ++ greeting ∷ [];
      }

      still : joined.incoming s ≡ arriving (wire a (codes "nor") content c.processname) rs
      still = rw (beq_ne t s (λ e. apart (sym e))) at_s
