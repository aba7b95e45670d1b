-- ===== src/TestPrograms.antt =====
-- The program socket/netapi/client_test/main.cpp up to the first heartbeat, which comes after ten
-- seconds, and the object of socket/netapi/server_test/main.cpp that it writes to.
use learning_directory.Base.{
  ◌≡◌, refl, sym, ap, ◌∙◌, List, [], ◌∷◌, ◌++◌, append_assoc, Bool, true, some, Bytes, codes, back,
  arith, ne_of_beq, bytes_eq, replicate, take, drop,
}
use learning_directory.Base.Int.{ℤ, pos}
use learning_directory.Base.Assoc.{insert, lookup}
use learning_directory.Netapi.State.{
  Recv, Net, Io, done, ◌>>◌, update, update_self, update-update, bind_done,
}
use learning_directory.Netapi.Startup.{SocketApi, built}
use learning_directory.Netapi.Receive.{handle_msghead, trans_sock, overread_after}
use learning_directory.Netapi.Send.{wire, compose}
use learning_directory.Netapi.Wire.{Sendable, sendmsg_sent}
use learning_directory.Netapi.Delivery.{deliver_reg, deliver_other}
use learning_directory.Netapi.Relay.{arriving}
use learning_directory.Client.{server1, client_sendmsg_to, construct_client}
use learning_directory.Client.Life.{client_life, beaten, unbeaten}
use learning_directory.Client.Session.{reg_bytes, hrt_bytes}

unfoldable pub client_test : SocketApi → Bool → Io (Unit {0})
client_test K made =
    construct_client K made 0 (codes "client1")
    >> client_sendmsg_to (codes "hello") (codes "client2")

abbrev pub hello_bytes : Net → Bytes
hello_bytes n = wire n (codes "nor") (codes "hello") (codes "client2")

entered : (s : ℤ) → insert (codes "client1") s [] ≡ (codes "client1", s) ∷ []
unfolding insert
entered s = refl

unregistered : (s : ℤ) → trans_sock (codes "client2") ((codes "client1", s) ∷ []) ≡ pos 0
unfolding trans_sock lookup
unregistered s = refl

module _ (K : SocketApi) (made : Bool) (n : Net) (oks : List Bool)
    (free : n.send_ok ≡ true ∷ true ∷ oks) where
  abbrev pub c1 : Net
  c1 = built K (codes "client1") n

  abbrev registered : Net
  registered = record c1 { send_ok = true ∷ oks; sent = n.sent ++ (K.socket, reg_bytes c1) ∷ [] }

  joined : construct_client K made 0 (codes "client1") n ≡ (done tt, registered)
  joined =
      client_life K made 0 (codes "client1") n true (true ∷ oks)
        (free ∙ ap (λ k. true ∷ replicate k true ++ true ∷ oks) (sym none_beaten))
      ∙ ap
          (λ k. (
            done tt,
            record c1 {
              send_ok = true ∷ oks;
              sent = n.sent ++ (K.socket, reg_bytes c1) ∷ replicate k (K.socket, hrt_bytes c1);
            },
          ))
          none_beaten
    where
      none_beaten : beaten K made 0 (codes "client1") n ≡ 0
      none_beaten = unbeaten K made (codes "client1") n

  client_test_lem : client_test K made n ≡ (
    done tt,
    record c1 {
      send_ok = oks;
      sent = n.sent ++ (K.socket, reg_bytes c1) ∷ (K.socket, hello_bytes c1) ∷ [];
    },
  )
  unfolding client_test compose client_sendmsg_to
  client_test_lem =
      bind_done (construct_client K made 0 (codes "client1"))
        (λ _. client_sendmsg_to (codes "hello") (codes "client2")) n joined
      ∙ sendmsg_sent registered (codes "nor") (codes "hello") (codes "client2") oks refl
      ∙ λ i. (
        done tt,
        record c1 {
          send_ok = oks;
          sent =
              append_assoc n.sent ((K.socket, reg_bytes c1) ∷ []) ((K.socket, hello_bytes c1) ∷ [])
                i;
        },
      )

  -- The server after both messages.
  abbrev pub after_hello : Net → ℤ → List Recv → List Bool → Net
  after_hello b s rs free = record b {
    incoming = update b.incoming s rs;
    regtable = (codes "client1", s) ∷ [];
    shown = b.shown ++ codes "this is a reg msg" ∷ [];
    send_ok = free;
    sent = b.sent ++ (pos 0, hello_bytes c1) ∷ [];
    overread = overread_after (take 60 (hello_bytes c1)) (drop 60 (hello_bytes c1)) b.overread;
  }

  module _ (fits : Sendable c1 (codes "reg") (codes "this is a reg msg") server1) where
    hello_fits : Sendable c1 (codes "nor") (codes "hello") (codes "client2")
    hello_fits = record {
      ip_fits = fits.ip_fits;
      ip_LacksHash = fits.ip_LacksHash;
      port_low = fits.port_low;
      port_high = fits.port_high;
      name_fits = fits.name_fits;
      name_LacksHash = fits.name_LacksHash;
      to_fits = omega arith;
      to_LacksHash = omega arith;
      type_width = refl;
      content_fits = omega arith;
    }

    -- The client of client_test with a local address, port and name that fit, where its two `send`s
    -- succeed, writes a `reg` message and then "hello" for client2. If both arrive as a head and a
    -- body each on the newest accepted socket of a server named server1 with an empty table, and
    -- the server's next `send` succeeds, it registers client1, prints the content of the `reg`
    -- message, writes "hello" to descriptor 0, since client2 is not registered, and records whether
    -- the debug prints have read past a buffer without a zero, which is taken to change no memory;
    -- nothing else changes.
    pub hello_lost :
        (b : Net) (s : ℤ) (rs : List Recv) (more : List Bool)
        → b.processname ≡ server1
        → b.regtable ≡ []
        → back b.recvsock ≡ some s
        → b.incoming s ≡ arriving (reg_bytes c1) (arriving (hello_bytes c1) rs)
        → b.send_ok ≡ true ∷ more
        → (client_test K made n ≡ (
          done tt,
          record c1 {
            send_ok = oks;
            sent = n.sent ++ (K.socket, reg_bytes c1) ∷ (K.socket, hello_bytes c1) ∷ [];
          },
        ))
          × ((handle_msghead s >> handle_msghead s) b ≡ (done tt, after_hello b s rs more))
    hello_lost b s rs more name empty newest arrives free = (
      client_test_lem,
      (bind_done (handle_msghead s) (λ _. handle_msghead s) b
            (deliver_reg c1 (codes "reg") (codes "this is a reg msg") server1 fits b s
              (arriving (hello_bytes c1) rs) arrives s refl (sym name) (omega arith) newest)
          ∙ deliver_other c1 (codes "nor") (codes "hello") (codes "client2") hello_fits
              (after_reg b.regtable) s rs (update_self b.incoming s _) more
              (ne_of_beq (codes "nor") (codes "reg") refl)
              (λ e. ne_of_beq (codes "client2") server1 refl (e ∙ name)) free
          ∙ λ i. (
            done tt,
            record b {
              incoming = update-update b.incoming s (arriving (hello_bytes c1) rs) rs i;
              regtable = table i;
              shown = b.shown ++ codes "this is a reg msg" ∷ [];
              send_ok = more;
              sent = b.sent ++ (sock i, hello_bytes c1) ∷ [];
              overread =
                  overread_after (take 60 (hello_bytes c1)) (drop 60 (hello_bytes c1)) b.overread;
            },
          )),
    )
      where
        after_reg : List (Bytes × ℤ) → Net
        after_reg table = record b {
          incoming = update b.incoming s (arriving (hello_bytes c1) rs);
          regtable = insert (codes "client1") s table;
          shown = b.shown ++ codes "this is a reg msg" ∷ [];
        }

        table : insert (codes "client1") s b.regtable ≡ (codes "client1", s) ∷ []
        table = ap (insert (codes "client1") s) empty ∙ entered s

        sock : trans_sock (codes "client2") (insert (codes "client1") s b.regtable) ≡ pos 0
        sock = ap (trans_sock (codes "client2")) table ∙ unregistered s
