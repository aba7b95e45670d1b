-- ===== src/Server/Switch.antt =====
-- What the server of socket/netapi/server.cpp promises: a switch. It knows a socket for some names,
-- the socket that was accepted last, what it has printed and relayed, and whether a print has read
-- past a buffer.
use learning_directory.Base.{
  ℕ, suc, List, [], ◌∷◌, ◌++◌, Bool, Option, some, Bytes, codes, if◌then◌else◌, ◌==◌, bytes_eq, ◌≡◌,
  get_elem?, set, take, drop,
}
use learning_directory.Base.Int.{ℤ, pos, int_eq}
use learning_directory.Base.Assoc.{or_else}
use learning_directory.Netapi.State.{Recv, Net}
use learning_directory.Netapi.Receive.{overread_after}
use learning_directory.Netapi.Send.{wire}
use learning_directory.Netapi.Relay.{arriving}
use learning_directory.Server.{Event, Thread, created, serving, accepts, starts, handles}

-- A message that the object `sender` composes, for the thread that serves the socket `on`.
pub record Letter : Type 0 where
  pub thread : ℕ
  pub on : ℤ
  pub sender : Net
  pub msgtype : Bytes
  pub content : Bytes
  pub to_name : Bytes

abbrev pub letter_bytes : Letter → Bytes
letter_bytes l = wire l.sender l.msgtype l.content l.to_name

pub record Switch : Type 0 where
  pub newest : ℤ
  pub names : Bytes → Option ℤ
  pub printed : List Bytes
  pub relayed : List (ℤ × Bytes)
  pub overread : Bool

-- The first socket that a name registers with is the one it keeps.
abbrev pub enter : Bytes → ℤ → (Bytes → Option ℤ) → Bytes → Option ℤ
enter name s names k = if name == k then some (or_else (names name) s) else names k

abbrev pub names_after : Letter → Switch → Bytes → Option ℤ
names_after l sw =
    if l.msgtype == codes "reg" then enter l.sender.processname sw.newest sw.names else sw.names

-- The server's own name is `own`. A name that is not known stands for descriptor 0.
abbrev pub pass_letter : Bytes → Letter → Switch → Switch
pass_letter own l sw = record sw {
  names = names_after l sw;
  printed = if l.to_name == own then sw.printed ++ l.content ∷ [] else sw.printed;
  relayed =
      if l.to_name == own
      then sw.relayed
      else sw.relayed ++ (or_else (names_after l sw l.to_name) (pos 0), letter_bytes l) ∷ [];
  overread =
      if l.to_name == own
      then sw.overread
      else overread_after (take 60 (letter_bytes l)) (drop 60 (letter_bytes l)) sw.overread;
}

-- A connection is accepted, with the answer of `pthread_create`; a thread reads the socket that it
-- will serve; or a letter arrives.
pub data Happening : Type 0 where
  connects : ℤ → Bool → Happening
  begins : ℕ → Happening
  arrives : Letter → Happening

abbrev pub switch : Bytes → Happening → Switch → Switch
switch own (connects s made) sw = record sw { newest = s }
switch own (begins i) sw = sw
switch own (arrives l) sw = pass_letter own l sw

abbrev pub switch_all : Bytes → List Happening → Switch → Switch
switch_all own [] sw = sw
switch_all own (h ∷ hs) sw = switch_all own hs (switch own h sw)

-- The steps of the server's threads, what the kernel hands to each socket, and the number of letters
-- that are passed on.
abbrev pub event_of : Happening → Event
event_of (connects s made) = accepts s made
event_of (begins i) = starts i
event_of (arrives l) = handles l.thread

abbrev pub events : List Happening → List Event
events [] = []
events (h ∷ hs) = event_of h ∷ events hs

abbrev pub put : Letter → (ℤ → List Recv) → ℤ → List Recv
put l inbox s = if l.on == s then arriving (letter_bytes l) (inbox s) else inbox s

abbrev pub inbox : List Happening → (ℤ → List Recv) → ℤ → List Recv
inbox [] rest = rest
inbox (connects s made ∷ hs) rest = inbox hs rest
inbox (begins i ∷ hs) rest = inbox hs rest
inbox (arrives l ∷ hs) rest = put l (inbox hs rest)

abbrev pub relays : Bytes → List Happening → ℕ
relays own [] = 0
relays own (connects s made ∷ hs) = relays own hs
relays own (begins i ∷ hs) = relays own hs
relays own (arrives l ∷ hs) = let n = relays own hs in if l.to_name == own then n else suc n

-- Each thread that begins has been created, and each letter is for a thread that serves its socket.
abbrev pub Served : List Happening → ℤ → List Thread → Type 0
Served [] newest ts = Unit
Served (connects s made ∷ hs) newest ts = Served hs s (if made then ts ++ created ∷ [] else ts)
Served (begins i ∷ hs) newest ts =
    (get_elem? ts i ≡ some created) × Served hs newest (set ts i (serving newest))
Served (arrives l ∷ hs) newest ts =
    (get_elem? ts l.thread ≡ some (serving l.on)) × Served hs newest ts
