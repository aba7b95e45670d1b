-- ===== src/Netapi/Startup.antt =====
-- The start of an object of the class `netapi` in socket/netapi/netapi.cpp: the constructor and the
-- methods that open, bind, connect and listen. The messages they print are left out.
use learning_directory.Base.{
  ℕ, [], Bool, true, false, Bytes, codes, replicate, if◌then◌else◌, ◌==◌, ◌≡◌, ap, Bool-cases, inl,
  inr,
}
use learning_directory.Base.Int.{ℤ, minus_one, int_eq}
use learning_directory.Netapi.State.{Net}

-- `sockaddr_in`.
pub record SockAddr : Type 0 where
  pub sin_family : ℕ
  pub s_addr : ℕ
  pub sin_port : ℕ
  pub sin_zero : Bytes

-- What the code uses of the socket interface: what the calls return, and the two conversions.
pub record SocketApi : Type 0 where
  pub af_inet : ℕ
  pub socket : ℤ
  pub bind : ℤ → SockAddr → ℤ
  pub connect : ℤ → SockAddr → ℤ
  pub listen : ℤ → ℕ → ℤ
  pub inet_addr : Bytes → ℕ
  pub htons : ℕ → ℕ

-- `success`, and `sockfd`.
unfoldable pub socketstartup : SocketApi → Bool × ℤ
socketstartup K = if K.socket == minus_one then (false, K.socket) else (true, K.socket)

unfoldable pub writeaddrinfo : SocketApi → SockAddr
writeaddrinfo K = record {
  sin_family = K.af_inet;
  s_addr = K.inet_addr (codes "127.0.0.1");
  sin_port = K.htons 10003;
  sin_zero = replicate 8 0;
}

unfoldable pub connectrequest : SocketApi → ℤ → SockAddr → Bool
connectrequest K sockfd addr = if K.connect sockfd addr == minus_one then false else true

unfoldable pub bindsockaddr : SocketApi → ℤ → SockAddr → Bool
bindsockaddr K sockfd addr = if K.bind sockfd addr == minus_one then false else true

unfoldable pub listenstartup : SocketApi → ℤ → ℕ → Bool
listenstartup K sockfd maxlistenqueue =
    if K.listen sockfd maxlistenqueue == minus_one then false else true

-- The constructor. `n` holds what the kernel will answer, and what has been sent and printed.
unfoldable pub construct_netapi : SocketApi → Bytes → Net → Net
unfolding socketstartup
construct_netapi K name n = record n {
  processname = name;
  localsock = (socketstartup K).1;
  recvsock = [];
  regtable = [];
}

socketstartup_kept : (K : SocketApi) → (socketstartup K).1 ≡ K.socket
unfolding socketstartup
socketstartup_kept K = elim (Bool-cases (K.socket == minus_one)) [ inl e ↦ rw e | inr e ↦ rw e ]

-- The object as the constructor leaves it, also after a failed `socket`.
abbrev pub built : SocketApi → Bytes → Net → Net
built K name n = record n { processname = name; localsock = K.socket; recvsock = []; regtable = [] }

pub construct_netapi_lem :
    (K : SocketApi) (name : Bytes) (n : Net) → construct_netapi K name n ≡ built K name n
unfolding construct_netapi
construct_netapi_lem K name n =
    ap (λ s. record n { processname = name; localsock = s; recvsock = []; regtable = [] })
      (socketstartup_kept K)
