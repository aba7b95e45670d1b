-- ===== src/Server/Phases.antt =====
-- The threads of `msghandlecalling` in socket/netapi/netapi.cpp by the calls of the kernel that they
-- make: between two of them, and in the `sleep`s of the relaying branch, other threads take turns.
pub mod Call
pub mod Keeps
pub mod Sockets
pub mod Names
pub mod Runs
pub mod Order
use learning_directory.Base.{
  ℕ, List, [], ◌∷◌, ◌++◌, Bool, true, false, Option, none, some, Bytes, buffer, get_elem?, set,
  if◌then◌else◌, ◌==◌, not, bytes_eq,
}
use learning_directory.Base.Int.{ℤ}
use learning_directory.Netapi.State.{
  Recv, got, failed, Net, Outcome, done, blocked, exited, undefined, Io, ◌>>=◌, ◌>>◌, recv, when,
}
use learning_directory.Netapi.Receive.{
  read_head, newest_sock, show_body, pass_on, register_sender, print_buffers,
}

-- What a thread does next: it reads `recvsock.back()`, receives a head from its socket, looks at the
-- type in `head_buf`, receives a body, or searches the table and sends on what that `recv` gave.
pub data Phase : Type 0 where
  unstarted : Phase
  heading : ℤ → Phase
  registering : ℤ → Bytes → Phase
  bodying : ℤ → Bytes → Phase
  passing : ℤ → Bytes → Recv → Phase

abbrev pub at : Phase → Io Phase
at p n = (done p, n)

abbrev pub headed : ℤ → Recv → Io Phase
headed s failed = λ n. (exited, n)
headed s (got []) = at (heading s)
headed s (got (c ∷ cs)) = at (registering s (buffer 60 (c ∷ cs)))

-- The flag says whether the message is for the object itself.
abbrev pub bodied : ℤ → Bytes → Bool → Recv → Io Phase
bodied s head_buf true r = show_body r >> at (heading s)
bodied s head_buf false r = at (passing s head_buf r)

abbrev pub receive_body : ℤ → Bytes → Bool → Io Phase
receive_body s head_buf own = do
  when (not own) (print_buffers (head_buf ∷ []))
  r ← recv s 40
  bodied s head_buf own r

-- One step of a thread.
unfoldable pub phase_step : Phase → Io Phase
phase_step unstarted = do s ← newest_sock; at (heading s)
phase_step (heading s) = do r ← recv s 60; headed s r
phase_step (registering s head_buf) = do
  register_sender (read_head head_buf)
  at (bodying s head_buf)
phase_step (bodying s head_buf) =
    λ n. receive_body s head_buf ((read_head head_buf).to_procname == n.processname) n
phase_step (passing s head_buf r) = do
  pass_on head_buf (read_head head_buf).to_procname r
  at (heading s)

pub record Crowd : Type 0 where
  pub net : Net
  pub phases : List Phase  -- in the order in which the threads were made

pub data Turn : Type 0 where
  accepting : ℤ → Bool → Turn  -- what `accept` gives; whether `pthread_create` succeeds
  going : ℕ → Turn  -- a step of one thread

-- `none`: there is no such thread, its call is still waiting, or the process has ended.
abbrev pub gone : ℕ → Crowd → Outcome Phase × Net → Option Crowd
gone i c (done p, n) = some (record { net = n; phases = set c.phases i p })
gone i c (blocked, n) = none
gone i c (exited, n) = none
gone i c (undefined, n) = none

abbrev pub goes : ℕ → Crowd → Option Phase → Option Crowd
goes i c none = none
goes i c (some p) = gone i c (phase_step p c.net)

unfoldable pub crowd_step : Turn → Crowd → Option Crowd
unfolding phase_step
crowd_step (accepting new_sock made) c = some (record {
  net = record c.net { recvsock = c.net.recvsock ++ new_sock ∷ [] };
  phases = if made then c.phases ++ unstarted ∷ [] else c.phases;
})
crowd_step (going i) c = goes i c (get_elem? c.phases i)

abbrev pub crowd_rest : (Crowd → Option Crowd) → Option Crowd → Option Crowd
crowd_rest k none = none
crowd_rest k (some c) = k c

unfoldable pub crowd_run : List Turn → Crowd → Option Crowd
crowd_run [] c = some c
crowd_run (t ∷ ts) c = crowd_rest (crowd_run ts) (crowd_step t c)
