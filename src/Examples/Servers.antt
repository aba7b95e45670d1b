-- ===== src/Examples/Servers.antt =====
-- Runs of the server of socket/netapi/server.cpp.
use learning_directory.Base.{◌≡◌, refl, ◌⊎◌, ◌==◌, true, false, List, [], ◌∷◌, some}
use learning_directory.Base.Int.{ℤ, pos, minus_one, int_eq}
use learning_directory.Netapi.State.{Net}
use learning_directory.Netapi.Startup.{
  built, bindsockaddr, listenstartup, construct_netapi, socketstartup, writeaddrinfo,
}
use learning_directory.Server.{
  Server, serving, accepts, starts, Event, step, run, live, construct_server, server_startup,
  server_start_accept_thread, server_handleaccept, start_msghandle_thread,
}
use learning_directory.Server.Safety.{IsSafe}
use learning_directory.Server.Races.{late_starts}
use learning_directory.Server.Life.{server_life}
use learning_directory.Examples.Nets.{kernel, server1, server_net}

abbrev idle : Server
idle = record { net = record (server_net (λ _. [])) { recvsock = [] }; threads = [] }

abbrev two_served : ℤ → ℤ → Server
two_served a b = record {
  net = record idle.net { recvsock = pos 4 ∷ pos 5 ∷ [] };
  threads = serving a ∷ serving b ∷ [];
}

late_starts_example :
    run (accepts (pos 4) true ∷ accepts (pos 5) true ∷ starts 0 ∷ starts 1 ∷ []) idle
    ≡ some (two_served (pos 5) (pos 5))
late_starts_example = late_starts (pos 4 ∷ []) (pos 5) idle

-- What the kernel answers a server for which `bind` fails, and that server after two calls of `accept`,
-- of which the second has failed: both threads serve -1.
abbrev asked : Net
asked = server_net (λ _. [])

abbrev unbound : Server
unbound = record { net = built kernel server1 asked; threads = [] }

abbrev two_connections : List Event
two_connections = accepts (pos 4) true ∷ accepts minus_one true ∷ starts 0 ∷ starts 1 ∷ []

abbrev served_unbound : Server
served_unbound = record {
  net = record unbound.net { recvsock = pos 4 ∷ minus_one ∷ [] };
  threads = serving minus_one ∷ serving minus_one ∷ [];
}

unbound_run :
    live two_connections (construct_server kernel true server1 asked) ≡ some served_unbound
unfolding live step construct_server server_startup server_start_accept_thread bindsockaddr
    listenstartup construct_netapi socketstartup writeaddrinfo server_handleaccept
    start_msghandle_thread
unbound_run = refl

server_life_example :
    IsSafe served_unbound
    × (served_unbound.net.recvsock ≡ pos 4 ∷ minus_one ∷ [])
    × ((((kernel.listen kernel.socket 10 == minus_one) ≡ false)
          × (true ≡ true)
          × (run two_connections unbound ≡ some served_unbound))
        ⊎ ((((kernel.listen kernel.socket 10 == minus_one) ≡ true) ⊎ (true ≡ false))
            × (two_connections ≡ [])))
server_life_example =
    server_life kernel server1 asked true two_connections served_unbound unbound_run
