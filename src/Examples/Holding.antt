-- ===== src/Examples/Holding.antt =====
-- A message to a receiver that is just registering with the server of socket/netapi.
use learning_directory.Base.{
  ◌≡◌, refl, sym, ap, ◌∙◌, [], ◌∷◌, ◌++◌, some, Bytes, codes, take, drop, arith, bytes_eq,
}
use learning_directory.Base.Int.{ℤ, pos}
use learning_directory.Base.Decimal.{decimal}
use learning_directory.Base.Assoc.{insert, lookup}
use learning_directory.Netapi.State.{got}
use learning_directory.Netapi.Receive.{Head, read_head, unterminated, debug_buffers}
use learning_directory.Netapi.Send.{wire, server_addr, server_port}
use learning_directory.Netapi.Wire.{read_head-wire, length-wire_body}
use learning_directory.Server.Phases.{
  Crowd, heading, registering, bodying, passing, going, crowd_run,
}
use learning_directory.Server.Phases.Order.{order_decides}
use learning_directory.Examples.Nets.{
  server_net, server1, alice, bob, greeting, bob_joins, alice_sends,
}

abbrev client2 : Bytes
client2 = codes "client2"

abbrev message : Bytes
message = wire alice (codes "nor") (codes "hello") client2

abbrev joining : Bytes
joining = take 60 (wire bob (codes "reg") greeting server1)

-- The thread on socket 4 holds the message of `alice`, that on socket 5 the head of `bob`.
abbrev waiting : Crowd
waiting = record {
  net = server_net (λ _. []);
  phases =
      passing (pos 4) (take 60 message) (got (drop 60 message)) ∷ registering (pos 5) joining ∷ [];
}

abbrev behind : ℤ → Crowd
behind dest = record {
  net = record waiting.net {
    regtable = insert (read_head (take 60 message)).to_procname (pos 5) [];
    send_ok = [];
    sent = (dest, take 60 message ++ drop 60 message) ∷ [];
    overread = unterminated (debug_buffers (take 60 message) (drop 60 message));
  };
  phases = heading (pos 4) ∷ bodying (pos 5) joining ∷ [];
}

order_decides_example :
    (crowd_run (going 1 ∷ going 0 ∷ []) waiting ≡ some (behind (pos 5)))
    × (crowd_run (going 0 ∷ going 1 ∷ []) waiting ≡ some (behind (pos 0)))
unfolding lookup
order_decides_example =
    order_decides (pos 4) (pos 5) (pos 5) (take 60 message) joining (drop 60 message) []
      (ap (λ (h : Head). h.m_type) joins)
      (ap (λ (h : Head). h.procname) joins ∙ sym (ap (λ (h : Head). h.to_procname) arrives))
      (length-wire_body alice (codes "nor") (codes "hello") client2 alice_sends) 0 1 waiting
      (omega arith) refl refl refl refl refl
  where
    joins : read_head joining ≡ record {
      srcip = codes "127.0.0.1";
      srcport = decimal 40002;
      destip = server_addr;
      destport = decimal server_port;
      isfile = b'0' ∷ [];
      procname = client2;
      to_procname = server1;
      m_type = codes "reg";
    }
    joins = read_head-wire bob (codes "reg") greeting server1 bob_joins

    arrives : read_head (take 60 message) ≡ record {
      srcip = codes "127.0.0.1";
      srcport = decimal 40001;
      destip = server_addr;
      destport = decimal server_port;
      isfile = b'0' ∷ [];
      procname = codes "client1";
      to_procname = client2;
      m_type = codes "nor";
    }
    arrives = read_head-wire alice (codes "nor") (codes "hello") client2 alice_sends
