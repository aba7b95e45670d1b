-- ===== src/Examples/Switching.antt =====
-- A run of the server of socket/netapi/server.cpp, and of the switch.
use learning_directory.Base.{◌≡◌, refl, List, [], ◌∷◌, true, some, codes, bytes_eq, arith}
use learning_directory.Base.Int.{ℤ, pos, int_eq}
use learning_directory.Netapi.State.{Net}
use learning_directory.Server.{Server, accepts, live, construct_server}
use learning_directory.Server.Switch.{
  Letter, Happening, connects, begins, arrives, events, inbox, switch_all,
}
use learning_directory.Server.Refinement.{Shows}
use learning_directory.Server.Refinement.Runs.{first_switch, server_switches}
use learning_directory.Examples.Nets.{kernel, alice, bob, greeting, server1, client_net}

-- `bob` registers on socket 5, and `alice` on socket 4 writes to him.
abbrev bob_registers : Letter
bob_registers = record {
  thread = 1;
  on = pos 5;
  sender = bob;
  msgtype = codes "reg";
  content = greeting;
  to_name = server1;
}

abbrev alice_writes : Letter
alice_writes = record {
  thread = 0;
  on = pos 4;
  sender = alice;
  msgtype = codes "nor";
  content = codes "hello";
  to_name = codes "client2";
}

abbrev happened : List Happening
happened =
    begins 0 ∷ connects (pos 5) true ∷ begins 1 ∷ arrives bob_registers ∷ arrives alice_writes ∷ []

abbrev serving_net : Net
serving_net = record (client_net server1 10003) { incoming = inbox happened (λ _. []) }

server_switches_example :
    (w : Server) × (live
        (accepts (pos 4) true ∷ events happened)
        (construct_server kernel true server1 serving_net)
      ≡ some w)
    × Shows server1 w.net (switch_all server1 happened (first_switch serving_net (pos 4)))
    × ((j : ℤ) → w.net.incoming j ≡ [])
server_switches_example =
    server_switches kernel server1 serving_net (pos 4) true happened (λ _. []) (true ∷ true ∷ [])
      refl
      (
        tt,
        (
          tt,
          (
            tt,
            (
              record { sendable = omega arith; clean = λ _. omega arith },
              (record { sendable = omega arith; clean = λ _. omega arith }, tt),
            ),
          ),
        ),
      )
      (refl, (refl, (refl, (refl, tt)))) (λ j. refl) refl
