-- ===== src/Threading/Tasks.antt =====
-- Sums over the threads of socket/sdr/my_sdr.cpp.
use learning_directory.Base.{weigh, ℕ, ◌+◌, ◌≤◌, List, [], ◌∷◌, arith}
use learning_directory.Threading.Sender.{Task, sending, reporting, closing, leaving, ended}

-- A thread that is still in the queue, one that has sent, one that has been counted, and one that has
-- closed the socket.
abbrev pub queued : Task → ℕ
queued sending = 1
queued reporting = 1
queued closing = 1
queued leaving = 1
queued ended = 0

abbrev pub past_send : Task → ℕ
past_send sending = 0
past_send reporting = 1
past_send closing = 1
past_send leaving = 1
past_send ended = 1

abbrev pub counted : Task → ℕ
counted sending = 0
counted reporting = 0
counted closing = 1
counted leaving = 1
counted ended = 1

abbrev pub past_close : Task → ℕ
past_close sending = 0
past_close reporting = 0
past_close closing = 0
past_close leaving = 1
past_close ended = 1

abbrev pub one : Task → ℕ
one t = 1

pub weigh-le :
    (f g : Task → ℕ) → ((t : Task) → f t ≤ g t) → (ts : List Task) → weigh f ts ≤ weigh g ts
weigh-le f g h [] = omega arith
weigh-le f g h (t ∷ ts) = let a = h t in omega (arith, weigh-le f g h ts)

pub counted_le : (t : Task) → counted t ≤ past_send t
counted_le sending = omega arith
counted_le reporting = omega arith
counted_le closing = omega arith
counted_le leaving = omega arith
counted_le ended = omega arith

pub past_send_le : (t : Task) → past_send t ≤ one t
past_send_le sending = omega arith
past_send_le reporting = omega arith
past_send_le closing = omega arith
past_send_le leaving = omega arith
past_send_le ended = omega arith

pub one_le : (ts : List Task) → weigh one ts ≤ weigh queued ts + weigh past_close ts
one_le [] = omega arith
one_le (sending ∷ ts) = omega (arith, one_le ts)
one_le (reporting ∷ ts) = omega (arith, one_le ts)
one_le (closing ∷ ts) = omega (arith, one_le ts)
one_le (leaving ∷ ts) = omega (arith, one_le ts)
one_le (ended ∷ ts) = omega (arith, one_le ts)
