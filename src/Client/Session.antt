-- ===== src/Client/Session.antt =====
-- What a client of socket/netapi/client.cpp writes, and what the server makes of its `deg` message.
use learning_directory.Base.{
  ℕ, zero, suc, ◌≡◌, refl, sym, ◌∙◌, List, [], ◌∷◌, ◌++◌, append_assoc, append-nil, Bool, true,
  false, Bytes, codes, replicate, arith, ne_of_beq, bytes_eq,
}
use learning_directory.Base.Int.{ℤ}
use learning_directory.Netapi.State.{Recv, Net, done, exited, update, bind_done, bind_exited}
use learning_directory.Netapi.Receive.{handle_msghead}
use learning_directory.Netapi.Send.{wire, compose, sendmsg}
use learning_directory.Netapi.Wire.{Sendable, sendmsg_sent, sendmsg_failed}
use learning_directory.Netapi.Relay.{arriving}
use learning_directory.Netapi.Delivery.{deliver_own}
use learning_directory.Client.{
  server1, client_reg, client_startup, client_heartbeat, heartbeat_if, client_run,
}

-- The registration and the heartbeat of a client.
abbrev pub reg_bytes : Net → Bytes
reg_bytes n = wire n (codes "reg") (codes "this is a reg msg") server1

abbrev pub hrt_bytes : Net → Bytes
hrt_bytes n = wire n (codes "hrt") (codes "this is a heart msg") server1

client_heartbeat_sent :
    (beats : ℕ) (n : Net) (oks : List Bool)
    → n.send_ok ≡ replicate beats true ++ oks
    → client_heartbeat beats n ≡ (
      done tt,
      record n { send_ok = oks; sent = n.sent ++ replicate beats (n.localsock, hrt_bytes n) },
    )
unfolding client_heartbeat compose
client_heartbeat_sent zero n oks e =
    λ i. (done tt, record n { send_ok = e i; sent = sym (append-nil n.sent) i })
client_heartbeat_sent (suc beats) n oks e =
    bind_done (sendmsg (codes "hrt") (codes "this is a heart msg") server1)
      (λ _. client_heartbeat beats) n
      (sendmsg_sent n (codes "hrt") (codes "this is a heart msg") server1 left e)
    ∙ client_heartbeat_sent beats beaten oks refl
    ∙ λ i. (
      done tt,
      record n { send_ok = oks; sent = append_assoc n.sent (call ∷ []) (replicate beats call) i },
    )
  where
    left : List Bool
    left = replicate beats true ++ oks

    call : ℤ × Bytes
    call = (n.localsock, hrt_bytes n)

    beaten : Net
    beaten = record n { send_ok = left; sent = n.sent ++ call ∷ [] }

-- A client whose `connect` succeeds writes to its socket one `reg` message and then one `hrt`
-- message for each round of the heartbeat, in this order, as long as every `send` succeeds.
pub client_run_sent :
    (beats : ℕ) (n : Net) (oks : List Bool)
    → n.send_ok ≡ replicate (suc beats) true ++ oks
    → client_run true beats n ≡ (
      done tt,
      record n {
        send_ok = oks;
        sent = n.sent ++ (n.localsock, reg_bytes n) ∷ replicate beats (n.localsock, hrt_bytes n);
      },
    )
unfolding client_run client_startup client_reg compose
client_run_sent beats n oks e =
    bind_done (client_startup true) (heartbeat_if beats) n (
      bind_done client_reg (λ _ m. (done true, m)) n
        (sendmsg_sent n (codes "reg") (codes "this is a reg msg") server1 left e))
    ∙ client_heartbeat_sent beats registered oks refl
    ∙ λ i. (
      done tt,
      record n {
        send_ok = oks;
        sent =
            append_assoc n.sent ((n.localsock, reg_bytes n) ∷ [])
              (replicate beats (n.localsock, hrt_bytes n)) i;
      },
    )
  where
    left : List Bool
    left = replicate beats true ++ oks

    registered : Net
    registered = record n { send_ok = left; sent = n.sent ++ (n.localsock, reg_bytes n) ∷ [] }

-- If the first `send` fails, the client ends its process and writes nothing, whatever `connect`
-- returned.
pub client_run_unconnected :
    (connected : Bool) (beats : ℕ) (n : Net) (oks : List Bool)
    → n.send_ok ≡ false ∷ oks
    → client_run connected beats n ≡ (exited, record n { send_ok = oks })
unfolding client_run client_startup client_reg compose
client_run_unconnected connected beats n oks e =
    bind_exited (client_startup connected) (heartbeat_if beats) n (
      bind_exited client_reg (λ _ m. (done connected, m)) n
        (sendmsg_failed n (codes "reg") (codes "this is a reg msg") server1 oks e))

-- The message of `client_dereg`, delivered as a head and a body to a server of that name, with
-- fields that fit, is printed; the registration table and everything else stay as they are.
pub dereg_keeps_table :
    (a b : Net) (s : ℤ) (rs : List Recv)
    → Sendable a (codes "deg") (codes "this is a deg msg") server1
    → b.processname ≡ server1
    → b.incoming s ≡ arriving (wire a (codes "deg") (codes "this is a deg msg") server1) rs
    → handle_msghead s b ≡ (
      done tt,
      record b {
        incoming = update b.incoming s rs;
        shown = b.shown ++ codes "this is a deg msg" ∷ [];
      },
    )
dereg_keeps_table a b s rs ok name at_s =
    deliver_own a (codes "deg") (codes "this is a deg msg") server1 ok b s rs at_s
      (ne_of_beq (codes "deg") (codes "reg") refl) (sym name) (ground arith)
