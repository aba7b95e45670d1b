-- ===== src/Server/Refinement.antt =====
-- A letter to the server of socket/netapi/server.cpp: it implements the switch.
pub mod Runs
use mathlib.Core.Path.{subst}
use mathlib.Core.Option.{some-injective}
use learning_directory.Base.{
  ℕ, zero, suc, ◌+◌, ◌≡◌, ◌≢◌, refl, sym, ap, ◌∙◌, List, [], ◌∷◌, ◌++◌, Bool, true, false, Option,
  none, some, Bytes, codes, if◌then◌else◌, ◌==◌, bytes_eq, Bool-cases, inl, inr, All, back,
  back-append, replicate, get_elem?, set, ne_of_beq, beq_refl, arith, take, drop,
}
use learning_directory.Base.Int.{ℤ, pos, minus_one, int_eq}
use learning_directory.Base.Assoc.{lookup, insert, or_else, lookup-insert}
use learning_directory.Msg.Padding.{LacksHash}
use learning_directory.Netapi.State.{Recv, Net, done, update}
use learning_directory.Netapi.Receive.{handle_msghead, trans_sock, overread_after}
use learning_directory.Netapi.Wire.{Sendable}
use learning_directory.Netapi.Delivery.{deliver}
use learning_directory.Netapi.Relay.{arriving}
use learning_directory.Server.{
  Server, Thread, serving, created, Event, accepts, starts, handles, start_thread,
  server_handleaccept, after_call, run_thread, step, run, run_rest, live, construct_server,
}
use learning_directory.Netapi.Startup.{SocketApi}
use learning_directory.Server.Life.{fresh, live_started}
use learning_directory.Server.Switch.{
  Letter, letter_bytes, Switch, enter, names_after, pass_letter, Happening, connects, begins,
  arrives, Served, switch, switch_all, event_of, events, put, inbox, relays,
}

trans_sock_lem :
    (name : Bytes) (table : List (Bytes × ℤ))
    → trans_sock name table ≡ or_else (lookup name table) (pos 0)
unfolding trans_sock
trans_sock_lem name table =
    elim (lookup name table) as (λ o. elim o [ none ↦ pos 0 | some s ↦ s ] ≡ or_else o (pos 0)) [
      | none ↦ refl
      | some s ↦ refl
    ]

-- The object shows the switch.
pub record Shows (own : Bytes) (b : Net) (sw : Switch) : Type 0 where
  pub name : b.processname ≡ own
  pub newest : back b.recvsock ≡ some sw.newest
  pub table : (k : Bytes) → lookup k b.regtable ≡ sw.names k
  pub printed : b.shown ≡ sw.printed
  pub relayed : b.sent ≡ sw.relayed
  pub past : b.overread ≡ sw.overread

-- The fields of a letter fit, and its content can be printed if it is for the server.
pub record Fits (own : Bytes) (l : Letter) : Type 0 where
  pub sendable : Sendable l.sender l.msgtype l.content l.to_name
  pub clean : l.to_name ≡ own → LacksHash l.content

module _ (own : Bytes) (l : Letter) (b : Net) (sw : Switch) (h : Shows own b sw) where
  abbrev pub table_now : List (Bytes × ℤ)
  table_now =
      if l.msgtype == codes "reg"
      then insert l.sender.processname sw.newest b.regtable
      else b.regtable

  table_shown : (k : Bytes) → lookup k table_now ≡ names_after l sw k
  table_shown k = elim (Bool-cases (l.msgtype == codes "reg")) [
    | inl t ↦ rw t (
        lookup-insert l.sender.processname k sw.newest b.regtable ∙ λ i.
        if l.sender.processname == k
        then some (or_else (h.table l.sender.processname i) sw.newest)
        else h.table k i)
    | inr f ↦ rw f (h.table k)
  ]

  module _ (rs : List Recv) (oks : List Bool) (fits : Fits own l)
      (waits : b.incoming l.on ≡ arriving (letter_bytes l) rs) where
    -- The object after the letter.
    abbrev pub printing : Net
    printing = record b {
      incoming = update b.incoming l.on rs;
      regtable = table_now;
      shown = b.shown ++ l.content ∷ [];
    }

    abbrev pub relaying : Net
    relaying = record b {
      incoming = update b.incoming l.on rs;
      regtable = table_now;
      send_ok = oks;
      sent = b.sent ++ (trans_sock l.to_name table_now, letter_bytes l) ∷ [];
      overread = overread_after (take 60 (letter_bytes l)) (drop 60 (letter_bytes l)) b.overread;
    }

    same_name : (l.to_name == b.processname) ≡ (l.to_name == own)
    same_name = ap (λ k. l.to_name == k) h.name

    pub handles_own :
        (l.to_name == own) ≡ true → b.send_ok ≡ oks → handle_msghead l.on b ≡ (done tt, printing)
    handles_own t free =
        deliver l.sender l.msgtype l.content l.to_name fits.sendable b l.on rs waits sw.newest oks
          (λ _. h.newest) (λ e. fits.clean (e ∙ h.name))
          (λ e. absurd (e ((bytes_eq.eqb_iff l.to_name b.processname).0 (same_name ∙ t))))
        ∙ λ i. (done tt, if (same_name ∙ t) i then printing else relaying)

    pub handles_other :
        (l.to_name == own) ≡ false
        → b.send_ok ≡ true ∷ oks
        → handle_msghead l.on b ≡ (done tt, relaying)
    handles_other f free =
        deliver l.sender l.msgtype l.content l.to_name fits.sendable b l.on rs waits sw.newest oks
          (λ _. h.newest) (λ e. fits.clean (e ∙ h.name)) (λ _. free)
        ∙ λ i. (done tt, if (same_name ∙ f) i then printing else relaying)

    pub printing-Shows : (l.to_name == own) ≡ true → Shows own printing (pass_letter own l sw)
    printing-Shows t = rw t (record {
      name = h.name;
      newest = h.newest;
      table = table_shown;
      printed = ap (λ ps. ps ++ l.content ∷ []) h.printed;
      relayed = h.relayed;
      past = h.past;
    })

    pub relaying-Shows : (l.to_name == own) ≡ false → Shows own relaying (pass_letter own l sw)
    relaying-Shows f = rw f (record {
      name = h.name;
      newest = h.newest;
      table = table_shown;
      printed = h.printed;
      relayed = λ i. h.relayed i ++ (socket i, letter_bytes l) ∷ [];
      past = ap (overread_after (take 60 (letter_bytes l)) (drop 60 (letter_bytes l))) h.past;
    })
      where
        socket : trans_sock l.to_name table_now ≡ or_else (names_after l sw l.to_name) (pos 0)
        socket =
            trans_sock_lem l.to_name table_now ∙ ap (λ o. or_else o (pos 0)) (table_shown l.to_name)
