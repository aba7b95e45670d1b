-- ===== src/Examples/Nets.antt =====
-- Objects of the classes of socket/netapi: a server and two clients.
use learning_directory.Base.{false, ℕ, List, [], ◌∷◌, true, Bytes, codes, replicate, arith}
use learning_directory.Base.Int.{ℤ, pos, minus_one, int_eq}
use learning_directory.Netapi.State.{Recv, Net}
use learning_directory.Netapi.Startup.{SocketApi}
use learning_directory.Netapi.Wire.{Sendable}

abbrev pub client_net : Bytes → ℕ → Net
client_net name port = record {
  localsock = pos 3;
  recvsock = [];
  regtable = [];
  processname = name;
  incoming = λ _. [];
  send_ok = replicate 3 true;
  local_ip = codes "127.0.0.1";
  local_port = port;
  sent = [];
  shown = [];
  overread = false;
}

abbrev pub alice : Net
alice = client_net (codes "client1") 40001

abbrev pub bob : Net
bob = client_net (codes "client2") 40002

abbrev pub greeting : Bytes
greeting = codes "this is a reg msg"

abbrev pub server1 : Bytes
server1 = codes "server1"

-- A server that has accepted the connections 4 and 5, with what the kernel will answer.
abbrev pub server_net : (ℤ → List Recv) → Net
server_net incoming = record {
  localsock = pos 3;
  recvsock = pos 4 ∷ pos 5 ∷ [];
  regtable = [];
  processname = server1;
  incoming = incoming;
  send_ok = true ∷ [];
  local_ip = codes "127.0.0.1";
  local_port = 10003;
  sent = [];
  shown = [];
  overread = false;
}

pub bob_joins : Sendable bob (codes "reg") greeting server1
bob_joins = omega arith

pub alice_sends : Sendable alice (codes "nor") (codes "hello") (codes "client2")
alice_sends = omega arith

-- A kernel whose calls succeed, but for `bind`.
abbrev pub kernel : SocketApi
kernel = record {
  af_inet = 2;
  socket = pos 3;
  bind = λ sockfd addr. minus_one;
  connect = λ sockfd addr. pos 0;
  listen = λ sockfd queue. pos 0;
  inet_addr = λ text. 16777343;
  htons = λ port. 4903;
}
