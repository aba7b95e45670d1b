-- ===== src/Client.antt =====
-- socket/netapi/client.cpp: the class `client`. Waiting between two heartbeats is left out.
pub mod Session
pub mod Life
use learning_directory.Base.{ℕ, zero, suc, Bool, true, false, Bytes, codes, if◌then◌else◌}
use learning_directory.Netapi.State.{Net, Outcome, done, Io, ◌>>=◌, ◌>>◌, skip}
use learning_directory.Netapi.Startup.{SocketApi, connectrequest, writeaddrinfo, construct_netapi}
use learning_directory.Netapi.Send.{sendmsg}

abbrev pub server1 : Bytes
server1 = codes "server1"

pub client_reg : Io (Unit {0})
client_reg = sendmsg (codes "reg") (codes "this is a reg msg") server1

pub client_dereg : Io (Unit {0})
client_dereg = sendmsg (codes "deg") (codes "this is a deg msg") server1

unfoldable pub client_sendmsg_to : Bytes → Bytes → Io (Unit {0})
client_sendmsg_to m_content to_procname = sendmsg (codes "nor") m_content to_procname

-- `connected` is the result of `connectrequest`.
pub client_startup : Bool → Io Bool
unfolding client_reg
client_startup connected = client_reg >>= λ _ n. (done connected, n)

-- The first `beats` rounds of the loop of `client_heartbeat`.
pub client_heartbeat : ℕ → Io (Unit {0})
client_heartbeat zero = skip
client_heartbeat (suc beats) =
    sendmsg (codes "hrt") (codes "this is a heart msg") server1 >> client_heartbeat beats

abbrev heartbeat_if : ℕ → Bool → Io (Unit {0})
heartbeat_if beats true = client_heartbeat beats
heartbeat_if beats false = skip

-- The body of the constructor, with the thread that it starts followed for `beats` heartbeats.
pub client_run : Bool → ℕ → Io (Unit {0})
unfolding client_startup
client_run connected beats = client_startup connected >>= heartbeat_if beats

-- The constructor; the thread of the heartbeat is made if `error_id == 0`, which is `made`.
unfoldable pub construct_client : SocketApi → Bool → ℕ → Bytes → Io (Unit {0})
unfolding construct_netapi
construct_client K made beats name n =
    let this = construct_netapi K name n in
    client_run (connectrequest K this.localsock (writeaddrinfo K)) (if made then beats else 0) this
