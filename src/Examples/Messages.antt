-- ===== src/Examples/Messages.antt =====
-- Messages between the objects of socket/netapi.
use learning_directory.Base.{
  false, ap, sym, ◌∙◌, ◌≡◌, refl, List, [], ◌∷◌, ◌++◌, true, Bytes, codes, if◌then◌else◌, ◌==◌,
  replicate, take, drop, slice, buffer, length, arith, bytes_eq, ne_of_beq,
}
use learning_directory.Base.Int.{ℤ, pos, int_eq}
use learning_directory.Base.Decimal.{decimal}
use learning_directory.Base.Assoc.{insert, lookup}
use learning_directory.Msg.{serialize, ip_padding, name_padding, body_padding}
use learning_directory.Netapi.State.{Recv, got, Net, done, ◌>>◌, update}
use learning_directory.Netapi.Receive.{
  Head, read_head, handle_msghead, trans_sock, has_zero, overread_after,
}
use learning_directory.Netapi.Send.{wire, compose, server_addr, server_port}
use learning_directory.Netapi.Wire.{read_head-wire, Sendable, length-wire_head}
use learning_directory.Netapi.Delivery.{deliver}
use learning_directory.Netapi.Relay.{arriving}
use learning_directory.Netapi.Cut.{cut_message}
use learning_directory.Netapi.LongName.{long_name}
use learning_directory.Netapi.Startup.{built, connectrequest}
use learning_directory.Client.{construct_client}
use learning_directory.Client.Life.{client_life}
use learning_directory.Client.Session.{reg_bytes, hrt_bytes}
use learning_directory.Netapi.Overread.{relay_overreads}
use learning_directory.TestPrograms.{client_test, c1, hello_bytes, after_hello, hello_lost}
use learning_directory.Examples.Nets.{
  kernel, alice, bob, server_net, server1, greeting, bob_joins, alice_sends,
}

abbrev hello : Bytes
hello = codes "hello"

abbrev nor : Bytes
nor = codes "nor"

abbrev reg : Bytes
reg = codes "reg"

-- The message from `alice` to `bob`, and the head that the server reads.
hello-wire :
    wire alice nor hello (codes "client2")
    ≡ codes
        "127.0.0.1######40001127.0.0.1######100030client1#client2#norhello###################################"
unfolding compose serialize decimal ip_padding name_padding body_padding
hello-wire = refl

read_head-wire_example : read_head (take 60 (wire alice nor hello (codes "client2"))) ≡ record {
  srcip = codes "127.0.0.1";
  srcport = decimal 40001;
  destip = server_addr;
  destport = decimal server_port;
  isfile = b'0' ∷ [];
  procname = codes "client1";
  to_procname = codes "client2";
  m_type = nor;
}
read_head-wire_example = read_head-wire alice nor hello (codes "client2") alice_sends

-- A server for which the message of `alice` waits on socket 4.
abbrev inbox : List Recv → ℤ → List Recv
inbox rs = λ j. if pos 4 == j then rs else []

abbrev hello_waits : List Recv
hello_waits = arriving (wire alice nor hello (codes "client2")) []

-- The registration of `bob` arrives on socket 4 after socket 5 has been accepted.
abbrev joining : Net
joining = server_net (inbox (arriving (wire bob reg greeting server1) []))

deliver_example : handle_msghead (pos 4) joining ≡ (
  done tt,
  record joining {
    incoming = update joining.incoming (pos 4) [];
    regtable = insert (codes "client2") (pos 5) [];
    shown = greeting ∷ [];
  },
)
deliver_example =
    deliver bob reg greeting server1 bob_joins joining (pos 4) [] refl (pos 5) [] (λ _. refl)
      (λ _. omega arith) (λ other. absurd (other refl))

abbrev client1 : Bytes
client1 = codes "client1"

abbrev client2 : Bytes
client2 = codes "client2"

abbrev bob_built : Net
bob_built = built kernel (codes "client2") alice

-- The constructor of `bob`, with what the kernel answers `alice`.
client_life_example : construct_client kernel true 2 (codes "client2") alice ≡ (
  done tt,
  record bob_built {
    send_ok = [];
    sent =
        (pos 3, reg_bytes bob_built)
        ∷ (pos 3, hrt_bytes bob_built)
        ∷ (pos 3, hrt_bytes bob_built)
        ∷ [];
  },
)
unfolding connectrequest
client_life_example = client_life kernel true 2 (codes "client2") alice true [] refl

-- The test client's two messages wait on socket 5.
abbrev tested : Net
tested = c1 kernel true alice (true ∷ []) refl

abbrev tested_server : Net
tested_server =
    server_net (λ j.
      if pos 5 == j then arriving (reg_bytes tested) (arriving (hello_bytes tested) []) else [])

hello_lost_example :
    (client_test kernel true alice ≡ (
      done tt,
      record tested {
        send_ok = true ∷ [];
        sent = (pos 3, reg_bytes tested) ∷ (pos 3, hello_bytes tested) ∷ [];
      },
    ))
    × ((handle_msghead (pos 5) >> handle_msghead (pos 5)) tested_server
        ≡ (done tt, after_hello kernel true alice (true ∷ []) refl tested_server (pos 5) [] []))
hello_lost_example =
    hello_lost kernel true alice (true ∷ []) refl (omega arith) tested_server (pos 5) [] [] refl
      refl refl refl refl

-- The head of the message of `alice` comes in two pieces, cut after 30 bytes.
abbrev cut_hello : Bytes
cut_hello = wire alice nor hello (codes "client2")

abbrev in_pieces : Net
in_pieces =
    server_net
      (inbox (got (take 30 cut_hello) ∷ got (slice 30 40 cut_hello) ∷ got (drop 70 cut_hello) ∷ []))

cut_message_example : handle_msghead (pos 4) in_pieces ≡ (
  done tt,
  record in_pieces {
    incoming = update in_pieces.incoming (pos 4) (got (drop 70 cut_hello) ∷ []);
    send_ok = [];
    sent = (pos 0, buffer 60 (take 30 cut_hello) ++ slice 30 40 cut_hello) ∷ [];
    overread = overread_after (buffer 60 (take 30 cut_hello)) (slice 30 40 cut_hello) false;
  },
)
unfolding lookup
cut_message_example =
    cut_message alice nor hello (codes "client2") alice_sends 30 (pos 4) in_pieces [] []
      (omega arith) (omega arith) refl (ne_of_beq server1 (replicate 8 0) refl) refl refl

-- A message to a name of nine bytes.
abbrev to_client10 : Bytes
to_client10 = wire alice nor hello (codes "client100")

abbrev long_waits : Net
long_waits = server_net (
    inbox
      (got (take 60 to_client10) ∷ got (slice 60 40 to_client10) ∷ got (drop 100 to_client10) ∷ []))

client10_fits : Sendable alice nor hello (codes "client10")
client10_fits = omega arith

long_name_example :
    (handle_msghead (pos 4) long_waits ≡ (
      done tt,
      record long_waits {
        incoming = update long_waits.incoming (pos 4) (got (drop 100 to_client10) ∷ []);
        send_ok = [];
        sent =
            (trans_sock (codes "client10") [], take 60 to_client10 ++ slice 60 40 to_client10) ∷ [];
        overread = overread_after (take 60 to_client10) (slice 60 40 to_client10) false;
      },
    ))
    × (length (drop 100 to_client10) ≡ 1)
long_name_example =
    long_name alice nor hello (codes "client100") client10_fits (omega arith) (omega arith)
      long_waits (pos 4) [] [] (ne_of_beq (codes "client10") server1 refl)
      (λ e. ne_of_beq (codes "0no") reg refl e) refl refl

-- The head of the message of `alice` is there, its body not yet.
abbrev half_there : Net
half_there = server_net (inbox (got (take 60 (wire alice nor hello (codes "client2"))) ∷ []))

relay_overreads_example : (handle_msghead (pos 4) half_there).1.overread ≡ true
relay_overreads_example =
    relay_overreads (take 60 (wire alice nor hello (codes "client2"))) (pos 4) (pos 5) half_there []
      refl (length-wire_head alice nor hello (codes "client2") alice_sends)
      (ap (λ m. has_zero (take 60 m)) hello-wire) (λ _. refl)
      (λ e.
        ne_of_beq (codes "client2") server1 refl
          (sym (ap (λ (h : Head). h.to_procname) read_head-wire_example) ∙ e))
