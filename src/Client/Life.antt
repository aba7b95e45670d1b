-- ===== src/Client/Life.antt =====
-- A client of socket/netapi/client.cpp from its constructor on.
use learning_directory.Base.{
  ℕ, ◌≡◌, refl, ◌∙◌, ap, List, ◌∷◌, ◌++◌, Bool, true, false, Bytes, replicate, if◌then◌else◌,
}
use learning_directory.Netapi.State.{Net, Outcome, done, blocked, exited, undefined, and_then}
use learning_directory.Netapi.Startup.{
  SocketApi, writeaddrinfo, connectrequest, built, construct_netapi_lem,
}
use learning_directory.Client.{
  client_run, client_reg, client_startup, client_heartbeat, heartbeat_if, construct_client,
}
use learning_directory.Client.Session.{
  client_run_sent, client_run_unconnected, reg_bytes, hrt_bytes,
}

registered_only :
    (beats : ℕ) (o : Outcome (Unit {0})) (n : Net)
    → (let (r, m) = and_then o n (λ _ m. (done false, m)) in and_then r m (heartbeat_if beats))
      ≡ (let (r, m) = and_then o n (λ _ m. (done true, m)) in and_then r m (heartbeat_if 0))
unfolding client_heartbeat
registered_only beats (done u) n = refl
registered_only beats blocked n = refl
registered_only beats exited n = refl
registered_only beats undefined n = refl

-- A client that is not connected registers all the same, and does not beat.
unconnected_lem : (beats : ℕ) (n : Net) → client_run false beats n ≡ client_run true 0 n
unfolding client_run client_startup
unconnected_lem beats n = let (o, m) = client_reg n in registered_only beats o m

-- The rounds of the heartbeat that are followed.
abbrev rounds : Bool → Bool → ℕ → ℕ
rounds connected made beats = if connected then (if made then beats else 0) else 0

rounds_lem :
    (connected made : Bool) (beats : ℕ) (n : Net)
    → client_run connected (if made then beats else 0) n
      ≡ client_run true (rounds connected made beats) n
rounds_lem true made beats n = refl
rounds_lem false made beats n = unconnected_lem (if made then beats else 0) n

module _ (K : SocketApi) (made : Bool) (beats : ℕ) (name : Bytes) (n : Net) where
  abbrev connected : Bool
  connected = connectrequest K K.socket (writeaddrinfo K)

  abbrev pub beaten : ℕ
  beaten = rounds connected made beats

  abbrev this : Net
  this = built K name n

  construct_client_lem :
      construct_client K made beats name n ≡ client_run connected (if made then beats else 0) this
  unfolding construct_client
  construct_client_lem =
      ap
        (λ (m : Net).
          client_run (connectrequest K m.localsock (writeaddrinfo K)) (if made then beats else 0) m)
        (construct_netapi_lem K name n)

  -- The constructor of a client, whatever `socket` returns, followed by a number of rounds of the
  -- heartbeat: none if `connect` or `pthread_create` fails. If every `send` succeeds, it writes to
  -- its socket one `reg` message, also when `connect` failed, and then one `hrt` message for each
  -- round. If the first `send` fails, the process ends and nothing is written.
  pub client_life :
      (first : Bool) (oks : List Bool)
      → n.send_ok ≡ first ∷ replicate beaten true ++ oks
      → construct_client K made beats name n ≡ (
          if first
          then (
            done tt,
            record this {
              send_ok = oks;
              sent =
                  n.sent
                  ++ (K.socket, reg_bytes this) ∷ replicate beaten (K.socket, hrt_bytes this);
            },
          )
          else (exited, record this { send_ok = replicate beaten true ++ oks }))
  client_life true oks e =
      construct_client_lem
      ∙ rounds_lem connected made beats this
      ∙ client_run_sent beaten this oks e
  client_life false oks e =
      construct_client_lem
      ∙ client_run_unconnected connected (if made then beats else 0) this
          (replicate beaten true ++ oks) e

no_rounds : (c made : Bool) → rounds c made 0 ≡ 0
no_rounds true true = refl
no_rounds true false = refl
no_rounds false made = refl

pub unbeaten : (K : SocketApi) (made : Bool) (name : Bytes) (n : Net) → beaten K made 0 name n ≡ 0
unbeaten K made name n = no_rounds (connectrequest K K.socket (writeaddrinfo K)) made
