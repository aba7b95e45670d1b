-- ===== src/Server/Phases/Order.antt =====
-- Two threads of socket/netapi/server.cpp, of which one holds a message that it has received whole and
-- the other the registration of its receiver.
use learning_directory.Base.{
  ℕ, ◌≡◌, ◌≢◌, sym, ap, ◌∙◌, List, [], ◌∷◌, ◌++◌, Bool, true, none, some, Bytes, codes, length,
  ◌||◌, back, get_elem?, set, get_elem?-set_other, set_comm, bytes_eq,
}
use learning_directory.Base.Int.{ℤ, pos}
use learning_directory.Base.Assoc.{lookup, insert}
use learning_directory.Netapi.State.{got, Net, done, bind_done}
use learning_directory.Netapi.Receive.{
  read_head, pass_on, register_sender, trans_sock, unterminated, debug_buffers,
}
use learning_directory.Netapi.Handler.{register_sender_reg, pass_on_whole}
use learning_directory.Netapi.Table.{trans_sock_missing, trans_sock-insert}
use learning_directory.Server.Phases.{
  Phase, heading, registering, bodying, passing, at, phase_step, Crowd, Turn, going, gone, goes,
  crowd_step, crowd_rest, crowd_run,
}

-- A step of the thread `i`, before the turns `ts`.
goes_on :
    (i : ℕ) (p q : Phase) (c : Crowd) (n : Net) (ts : List Turn)
    → get_elem? c.phases i ≡ some p
    → phase_step p c.net ≡ (done q, n)
    → crowd_run (going i ∷ ts) c ≡ crowd_run ts (record { net = n; phases = set c.phases i q })
unfolding crowd_run crowd_step
goes_on i p q c n ts at_i e =
    ap (λ o. crowd_rest (crowd_run ts) (goes i c o)) at_i
    ∙ ap (λ r. crowd_rest (crowd_run ts) (gone i c r)) e

module _ (s t k : ℤ) (held head body : Bytes) (oks : List Bool)
    (reg : (read_head head).m_type ≡ codes "reg")
    (same : (read_head head).procname ≡ (read_head held).to_procname)
    (whole : length body ≡ 40) where
  abbrev name : Bytes
  name = (read_head held).to_procname

  abbrev entered : Net → Net
  entered n = record n { regtable = insert name k n.regtable }

  abbrev sent_to : ℤ → Net → Net
  sent_to dest n = record n {
    send_ok = oks;
    sent = n.sent ++ (dest, held ++ body) ∷ [];
    overread = n.overread || unterminated (debug_buffers held body);
  }

  registers :
      (n : Net)
      → back n.recvsock ≡ some k
      → phase_step (registering t head) n ≡ (done (bodying t head), entered n)
  unfolding phase_step
  registers n newest =
      bind_done (register_sender (read_head head)) (λ _. at (bodying t head)) n
        (register_sender_reg (read_head head) n k reg newest)
      ∙ λ i. (done (bodying t head), record n { regtable = insert (same i) k n.regtable })

  passes :
      (n : Net)
      → n.send_ok ≡ true ∷ oks
      → phase_step (passing s held (got body)) n
        ≡ (done (heading s), sent_to (trans_sock name n.regtable) n)
  unfolding phase_step
  passes n free =
      bind_done (pass_on held name (got body)) (λ _. at (heading s)) n
        (pass_on_whole held body name n oks whole free)

  -- One thread holds a message received whole, while it has not yet searched the table, and another
  -- the head of a `reg` message from the receiver, who is not registered; the next `send` succeeds.
  -- If the second thread steps first, the message is written to the newest accepted socket, under
  -- which it registers the receiver; if the first one does, to descriptor 0. The table, the phases
  -- of the threads and the record of the debug prints that have read past a buffer, which is taken
  -- to change no memory, are the same afterwards.
  pub order_decides :
      (i j : ℕ) (c : Crowd)
      → i ≢ j
      → get_elem? c.phases i ≡ some (passing s held (got body))
      → get_elem? c.phases j ≡ some (registering t head)
      → lookup (read_head held).to_procname c.net.regtable ≡ none
      → back c.net.recvsock ≡ some k
      → c.net.send_ok ≡ true ∷ oks
      → (crowd_run (going j ∷ going i ∷ []) c
          ≡ some (record {
            net = sent_to k (entered c.net);
            phases = set (set c.phases j (bodying t head)) i (heading s);
          }))
        × (crowd_run (going i ∷ going j ∷ []) c
            ≡ some (record {
              net = sent_to (pos 0) (entered c.net);
              phases = set (set c.phases j (bodying t head)) i (heading s);
            }))
  unfolding crowd_run
  order_decides i j c apart at_i at_j missing newest free = (
    goes_on j (registering t head) (bodying t head) c (entered c.net) (going i ∷ []) at_j
          (registers c.net newest)
        ∙ goes_on i (passing s held (got body)) (heading s)
            (record { net = entered c.net; phases = set c.phases j (bodying t head) })
            (sent_to (trans_sock name (insert name k c.net.regtable)) (entered c.net)) []
            (get_elem?-set_other c.phases j i (bodying t head) (λ e. apart (sym e)) ∙ at_i)
            (passes (entered c.net) free)
        ∙ λ l. some (record {
          net = sent_to (trans_sock-insert name k c.net.regtable missing l) (entered c.net);
          phases = set (set c.phases j (bodying t head)) i (heading s);
        }),
    goes_on i (passing s held (got body)) (heading s) c
          (sent_to (trans_sock name c.net.regtable) c.net) (going j ∷ []) at_i (passes c.net free)
        ∙ goes_on j (registering t head) (bodying t head)
            (record {
              net = sent_to (trans_sock name c.net.regtable) c.net;
              phases = set c.phases i (heading s);
            })
            (entered (sent_to (trans_sock name c.net.regtable) c.net)) []
            (get_elem?-set_other c.phases i j (heading s) apart ∙ at_j)
            (registers (sent_to (trans_sock name c.net.regtable) c.net) newest)
        ∙ λ l. some (record {
          net = sent_to (trans_sock_missing name c.net.regtable missing l) (entered c.net);
          phases = set_comm c.phases i j (heading s) (bodying t head) apart l;
        }),
  )
