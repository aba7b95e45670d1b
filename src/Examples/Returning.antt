-- ===== src/Examples/Returning.antt =====
-- A client that comes back to the server of socket/netapi.
use learning_directory.Base.{
  ◌≡◌, refl, ap, true, bytes_eq, List, [], ◌∷◌, some, Bytes, codes, if◌then◌else◌, ◌==◌, arith,
}
use learning_directory.Base.Int.{ℤ, pos, minus_one, int_eq}
use learning_directory.Base.Assoc.{insert, lookup}
use learning_directory.Netapi.State.{Recv, update}
use learning_directory.Netapi.Receive.{trans_sock, newest_sock}
use learning_directory.Netapi.Send.{wire}
use learning_directory.Netapi.Relay.{arriving}
use learning_directory.Netapi.Delivery.{deliver}
use learning_directory.Server.{Server, serving, handles, after_call, step, run, run_rest}
use learning_directory.Server.Phases.{
  Crowd, Turn, accepting, going, phase_step, unstarted, heading, crowd_run, crowd_step,
}
use learning_directory.Server.Phases.Sockets.{AreQueued, crowd_run-AreQueued}
use learning_directory.Server.Phases.Names.{names_stay}
use learning_directory.Server.Phases.Runs.{crowd_of, run-crowd_run}
use learning_directory.Examples.Nets.{server_net, server1, bob, greeting, bob_joins}

-- `client2` has registered on socket 4; it registers again on the new socket 5.
abbrev client2 : Bytes
client2 = codes "client2"

abbrev waiting : ℤ → List Recv
waiting j = if pos 5 == j then arriving (wire bob (codes "reg") greeting server1) [] else []

abbrev before : Server
before = record {
  net = record (server_net waiting) { regtable = (client2, pos 4) ∷ [] };
  threads = serving (pos 4) ∷ serving (pos 5) ∷ [];
}

abbrev behind : Server
behind = record before {
  net = record before.net {
    incoming = update waiting (pos 5) [];
    regtable = insert client2 (pos 5) ((client2, pos 4) ∷ []);
    shown = greeting ∷ [];
  };
}

again : run (handles 1 ∷ []) before ≡ some behind
unfolding run step
again =
    ap (λ p. run_rest (run []) (after_call before p))
      (deliver bob (codes "reg") greeting server1 bob_joins before.net (pos 5) [] refl (pos 5) []
        (λ _. refl) (λ _. omega arith) (λ other. absurd (other refl)))

-- The turns of the threads that this call stands for.
turned : (ts : List Turn) × (crowd_run ts (crowd_of before) ≡ some (crowd_of behind))
turned = run-crowd_run (handles 1 ∷ []) before behind again

names_stay_example :
    (lookup client2 behind.net.regtable ≡ some (pos 4))
    × (trans_sock client2 behind.net.regtable ≡ pos 4)
unfolding lookup
names_stay_example =
    names_stay client2 (pos 4) turned.0 (crowd_of before) (crowd_of behind) refl turned.1

-- A connection, an `accept` that fails, and the start of the first thread, which takes -1.
abbrev empty : Crowd
empty = record { net = record (server_net (λ _. [])) { recvsock = [] }; phases = [] }

abbrev failing : List Turn
failing = accepting (pos 6) true ∷ accepting minus_one true ∷ going 0 ∷ []

abbrev misled : Crowd
misled = record {
  net = record empty.net { recvsock = pos 6 ∷ minus_one ∷ [] };
  phases = heading minus_one ∷ unstarted ∷ [];
}

misled_run : crowd_run failing empty ≡ some misled
unfolding crowd_run crowd_step phase_step newest_sock
misled_run = refl

crowd_run-AreQueued_example : AreQueued misled × (misled.net.recvsock ≡ pos 6 ∷ minus_one ∷ [])
crowd_run-AreQueued_example =
    crowd_run-AreQueued failing empty misled (record { table = tt; served = tt }) misled_run
