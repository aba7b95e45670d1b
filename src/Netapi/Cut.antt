-- ===== src/Netapi/Cut.antt =====
-- `handle_msghead` of socket/netapi/netapi.cpp when a message comes in pieces: the buffer of the
-- head is zero behind the bytes that the one `recv` gave.
use learning_directory.Base.{
  ℕ, zero, suc, ◌+◌, ◌-◌, ◌≡◌, ◌≢◌, ◌≤◌, ◌<◌, refl, sym, ◌∙◌, ap, List, [], ◌∷◌, ◌++◌, none, Bytes,
  codes, length, take, drop, replicate, slice, buffer, take_all, length-take, length-drop, bytes_eq,
  ne_of_beq, Bool, true, arith,
}
use learning_directory.Base.Int.{ℤ, pos}
use learning_directory.Base.Assoc.{lookup}
use learning_directory.Msg.Padding.{until_hash}
use learning_directory.Netapi.State.{
  Recv, got, Net, done, recv, update, bind_done, recv_whole, update_self, update-update,
}
use learning_directory.Netapi.Receive.{
  Head, read_head, trans_sock, overread_after, dispatch_head, register_sender, route, handle_head,
  handle_msghead,
}
use learning_directory.Netapi.Table.{trans_sock_missing}
use learning_directory.Netapi.Send.{wire}
use learning_directory.Netapi.Wire.{Sendable, length-wire}
use learning_directory.Netapi.Handler.{register_sender_other, route_other}

abbrev zeros : ℕ → Bytes
zeros k = replicate k 0

-- A slice behind the bytes of a buffer holds zeros.
slice-zeros : (i w k : ℕ) → i + w ≤ k → slice i w (zeros k) ≡ zeros w
slice-zeros zero zero k h = refl
slice-zeros zero (suc w) zero h = absurd (omega arith)
slice-zeros zero (suc w) (suc k) h = ap (◌∷◌ 0) (slice-zeros zero w k (omega arith))
slice-zeros (suc i) w zero h = absurd (omega arith)
slice-zeros (suc i) w (suc k) h = slice-zeros i w k (omega arith)

slice_behind :
    (i w k : ℕ) (p : Bytes)
    → length p ≤ i
    → i + w ≤ length p + k
    → slice i w (p ++ zeros k) ≡ zeros w
slice_behind i w k [] h fits = slice-zeros i w k (omega arith)
slice_behind zero w k (c ∷ p) h fits = absurd (omega arith)
slice_behind (suc i) w k (c ∷ p) h fits = slice_behind i w k p (omega arith) (omega arith)

module _ (p : Bytes) (short : length p ≤ 49) where
  behind : (i w : ℕ) → 49 ≤ i → i + w ≤ 60 → slice i w (buffer 60 p) ≡ zeros w
  behind i w from fits =
      ap (λ t. slice i w (t ++ zeros (60 - length p))) (take_all 60 p (omega arith))
      ∙ slice_behind i w (60 - length p) p (omega arith) (omega arith)

  no_name : (read_head (buffer 60 p)).to_procname ≡ zeros 8
  unfolding read_head until_hash
  no_name = ap until_hash (behind 49 8 (omega arith) (omega arith))

  no_type : (read_head (buffer 60 p)).m_type ≡ zeros 3
  unfolding read_head
  no_type = behind 57 3 (omega arith) (omega arith)

dispatch_head_part :
    (p : Bytes) (s : ℤ) (n : Net)
    → 0 < length p
    → dispatch_head s (got p) n ≡ handle_head (buffer 60 p) s n
dispatch_head_part [] s n h = absurd (omega arith)
dispatch_head_part (c ∷ cs) s n h = refl

-- A first piece that ends before the receiver's name: the name and the type read are zeros, and
-- what is passed on goes where the table sends the name of zeros.
cut_lem :
    (p q : Bytes) (s : ℤ) (n : Net) (rs : List Recv) (oks : List Bool)
    → n.incoming s ≡ got p ∷ got q ∷ rs
    → 0 < length p
    → length p ≤ 49
    → length q ≡ 40
    → n.processname ≢ zeros 8
    → n.send_ok ≡ true ∷ oks
    → handle_msghead s n ≡ (
      done tt,
      record n {
        incoming = update n.incoming s rs;
        send_ok = oks;
        sent = n.sent ++ (trans_sock (zeros 8) n.regtable, buffer 60 p ++ q) ∷ [];
        overread = overread_after (buffer 60 p) q n.overread;
      },
    )
unfolding handle_msghead handle_head
cut_lem p q s n rs oks arrives some_bytes short whole named free =
    bind_done (recv s 60) (dispatch_head s) n
      (recv_whole s 60 n p (got q ∷ rs) arrives (omega arith))
    ∙ dispatch_head_part p s after some_bytes
    ∙ bind_done (register_sender h) (λ _. route (buffer 60 p) h s) after
        (register_sender_other h after (λ e. not_reg (sym (no_type p short) ∙ e)))
    ∙ route_other (buffer 60 p) q h s after rs oks (λ e. named (sym e ∙ no_name p short))
        (update_self n.incoming s _) whole free
    ∙ λ i. (
      done tt,
      record n {
        incoming = update-update n.incoming s (got q ∷ rs) rs i;
        send_ok = oks;
        sent = n.sent ++ (trans_sock (no_name p short i) n.regtable, buffer 60 p ++ q) ∷ [];
        overread = overread_after (buffer 60 p) q n.overread;
      },
    )
  where
    h : Head
    h = read_head (buffer 60 p)

    after : Net
    after = record n { incoming = update n.incoming s (got q ∷ rs) }

    not_reg : zeros 3 ≢ codes "reg"
    not_reg = ne_of_beq (zeros 3) (codes "reg") refl

module _ (a : Net) (msgtype content to_name : Bytes) (ok : Sendable a msgtype content to_name) where
  abbrev bytes : Bytes
  bytes = wire a msgtype content to_name

  whole : length bytes ≡ 100
  whole = length-wire a msgtype content to_name ok

  taken : (k : ℕ) → k ≤ 49 → length (take k bytes) ≡ k
  taken k short = omega (arith, length-take k bytes, whole)

  next_taken : (k : ℕ) → k ≤ 49 → length (slice k 40 bytes) ≡ 40
  next_taken k short = omega (arith, length-take 40 (drop k bytes), length-drop k bytes, whole)

  -- A message whose fields fit, of any type and to any receiver, of which the first `recv` gives
  -- between 1 and 49 bytes, the next one 40 more and a third one the rest: if the name of eight
  -- zeros is neither the receiving object's own nor registered, and the next `send` succeeds,
  -- `handle_msghead` registers nobody, prints no content, writes to descriptor 0 the first piece,
  -- zeros up to 60 bytes, and the second piece, and records whether the debug prints have read past
  -- a buffer without a zero, which is taken to change no memory; the rest of the message is left to
  -- be read as the next head.
  pub cut_message :
      (k : ℕ) (s : ℤ) (n : Net) (rs : List Recv) (oks : List Bool)
      → 0 < k
      → k ≤ 49
      → n.incoming s ≡ got (take k bytes) ∷ got (slice k 40 bytes) ∷ got (drop (k + 40) bytes) ∷ rs
      → n.processname ≢ replicate 8 0
      → lookup (replicate 8 0) n.regtable ≡ none
      → n.send_ok ≡ true ∷ oks
      → handle_msghead s n ≡ (
        done tt,
        record n {
          incoming = update n.incoming s (got (drop (k + 40) bytes) ∷ rs);
          send_ok = oks;
          sent = n.sent ++ (pos 0, buffer 60 (take k bytes) ++ slice k 40 bytes) ∷ [];
          overread = overread_after (buffer 60 (take k bytes)) (slice k 40 bytes) n.overread;
        },
      )
  cut_message k s n rs oks some_bytes short arrives named missing free =
      cut_lem (take k bytes) (slice k 40 bytes) s n (got (drop (k + 40) bytes) ∷ rs) oks arrives
        (omega (arith, taken k short)) (omega (arith, taken k short)) (next_taken k short) named
        free
      ∙ λ i. (
        done tt,
        record n {
          incoming = update n.incoming s (got (drop (k + 40) bytes) ∷ rs);
          send_ok = oks;
          sent =
              n.sent
              ++ (
                trans_sock_missing (zeros 8) n.regtable missing i,
                buffer 60 (take k bytes) ++ slice k 40 bytes,
              )
                ∷ [];
          overread = overread_after (buffer 60 (take k bytes)) (slice k 40 bytes) n.overread;
        },
      )
