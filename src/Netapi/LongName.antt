-- ===== src/Netapi/LongName.antt =====
-- A message of socket/netapi/netapi.cpp to a process name of more than eight bytes, which
-- `name_padding` of socket/netapi/msg.cpp leaves as it is.
use learning_directory.Base.{
  ℕ, zero, suc, ◌+◌, ◌-◌, ◌^◌, ◌%◌, ◌≡◌, ◌≢◌, ◌≤◌, ◌<◌, refl, sym, ◌∙◌, ap, List, [], ◌∷◌, ◌++◌,
  append_assoc, Bytes, codes, length, length-append, length-take, length-drop, take, drop, slice,
  take-append-drop, drop_exact, drop_field, slice_field, Bool, true, false, arith,
}
use learning_directory.Base.Int.{ℤ}
use learning_directory.Base.Decimal.{decimal, length-decimal_five}
use learning_directory.Msg.{ip_padding, name_padding, body_padding, show_bool, serialize}
use learning_directory.Msg.Padding.{until_hash, until_hash_all, length-pad, pad_long}
use learning_directory.Msg.Layout.{length-show_bool}
use learning_directory.Netapi.State.{Recv, got, Net, done, update, update_self, update-update}
use learning_directory.Netapi.Receive.{Head, read_head, trans_sock, overread_after, handle_msghead}
use learning_directory.Netapi.Send.{wire, compose, server_addr, server_port}
use learning_directory.Netapi.Wire.{Sendable}
use learning_directory.Netapi.Handler.{register_sender_other, handle_msghead_whole, route_other}

module _ {ℓ} {A : Type ℓ} where
  slice-take : (i w n : ℕ) (xs : List A) → i + w ≤ n → slice i w (take n xs) ≡ slice i w xs
  slice-take zero zero n xs h = refl
  slice-take zero (suc w) zero xs h = absurd (omega arith)
  slice-take zero (suc w) (suc n) [] h = refl
  slice-take zero (suc w) (suc n) (x ∷ xs) h = ap (◌∷◌ x) (slice-take zero w n xs (omega arith))
  slice-take (suc i) w zero xs h = absurd (omega arith)
  slice-take (suc i) w (suc n) [] h = refl
  slice-take (suc i) w (suc n) (x ∷ xs) h = slice-take i w n xs (omega arith)

module _ (a : Net) (msgtype content to_name : Bytes)
    (ok : Sendable a msgtype content (take 8 to_name)) (long : 8 < length to_name)
    (small : length to_name < 2 ^ 31) where
  abbrev bytes : Bytes
  bytes = wire a msgtype content to_name

  -- What stands before the receiver's name, and behind its first eight bytes.
  abbrev front : Bytes
  front =
      ip_padding a.local_ip
      ++ (decimal (a.local_port % 2 ^ 16)
          ++ (ip_padding server_addr
              ++ (decimal (server_port % 2 ^ 16)
                  ++ (show_bool false ++ name_padding a.processname))))

  abbrev behind : Bytes
  behind = drop 8 to_name ++ (msgtype ++ body_padding content)

  length-front : length front ≡ 49
  unfolding ip_padding name_padding
  length-front = simp length-append (
      omega (
        arith,
        length-pad 15 a.local_ip ok.ip_fits (omega arith),
        length-pad 15 server_addr (omega arith) (omega arith),
        length-pad 8 a.processname ok.name_fits (omega arith),
        length-decimal_five (a.local_port % 2 ^ 16)
            (let h = ok.port_low in let k = ok.port_high in omega arith) (omega arith),
        length-decimal_five (server_port % 2 ^ 16) (omega arith) (omega arith),
        length-show_bool false,
      ))

  parts : bytes ≡ front ++ (name_padding to_name ++ (msgtype ++ body_padding content))
  unfolding compose serialize
  parts = simp append_assoc

  unpadded : name_padding to_name ≡ to_name
  unfolding name_padding
  unpadded = pad_long 8 to_name (omega arith) small

  at_name : drop 49 bytes ≡ take 8 to_name ++ behind
  at_name =
      ap (drop 49) parts
      ∙ drop_exact front (name_padding to_name ++ (msgtype ++ body_padding content)) 49 length-front
      ∙ (λ i. (unpadded ∙ sym (take-append-drop 8 to_name)) i ++ (msgtype ++ body_padding content))
      ∙ append_assoc (take 8 to_name) (drop 8 to_name) (msgtype ++ body_padding content)

  first_eight : length (take 8 to_name) ≡ 8
  first_eight = omega (arith, length-take 8 to_name)

  name_read : (read_head (take 60 bytes)).to_procname ≡ take 8 to_name
  unfolding read_head
  name_read =
      ap until_hash (
        slice-take 49 8 60 bytes (omega arith)
        ∙ slice_field 49 8 bytes (take 8 to_name) behind at_name first_eight)
      ∙ until_hash_all (take 8 to_name) ok.to_LacksHash

  type_read : (read_head (take 60 bytes)).m_type ≡ take 3 behind
  unfolding read_head
  type_read =
      slice-take 57 3 60 bytes (omega arith)
      ∙ ap (take 3) (drop_field 49 8 bytes (take 8 to_name) behind at_name first_eight)

  body_length : length (body_padding content) ≡ 40
  unfolding body_padding
  body_length = length-pad 40 content ok.content_fits (omega arith)

  parts_length : length bytes ≡ 92 + length to_name
  parts_length = omega (
    arith,
    ap length parts,
    length-append front (name_padding to_name ++ (msgtype ++ body_padding content)),
    length-append (name_padding to_name) (msgtype ++ body_padding content),
    length-append msgtype (body_padding content),
    length-front,
    ap length unpadded,
    ok.type_width,
    body_length,
  )

  head_width : length (take 60 bytes) ≡ 60
  head_width = omega (arith, length-take 60 bytes, parts_length)

  body_width : length (slice 60 40 bytes) ≡ 40
  body_width = omega (arith, length-take 40 (drop 60 bytes), length-drop 60 bytes, parts_length)

  -- A message to a name of more than eight bytes, with its first eight and the other fields
  -- fitting, that arrives as pieces of 60 and 40 bytes and the rest: if these eight are not the
  -- receiving object's own name, the type that is read, three bytes of what follows them, is not
  -- `reg`, and the next `send` succeeds, then `handle_msghead` passes the first 100 bytes on to the
  -- socket of the name of these eight bytes, and records whether the debug prints have read past a
  -- buffer without a zero, which is taken to change no memory; as many bytes as the name is too
  -- long are left to be read as the next head.
  pub long_name :
      (b : Net) (s : ℤ) (rs : List Recv) (oks : List Bool)
      → take 8 to_name ≢ b.processname
      → take 3 (drop 8 to_name ++ (msgtype ++ body_padding content)) ≢ codes "reg"
      → b.send_ok ≡ true ∷ oks
      → b.incoming s ≡ got (take 60 bytes) ∷ got (slice 60 40 bytes) ∷ got (drop 100 bytes) ∷ rs
      → (handle_msghead s b ≡ (
        done tt,
        record b {
          incoming = update b.incoming s (got (drop 100 bytes) ∷ rs);
          send_ok = oks;
          sent =
              b.sent
              ++ (trans_sock (take 8 to_name) b.regtable, take 60 bytes ++ slice 60 40 bytes) ∷ [];
          overread = overread_after (take 60 bytes) (slice 60 40 bytes) b.overread;
        },
      ))
        × (length (drop 100 bytes) ≡ length to_name - 8)
  long_name b s rs oks other plain free arrives = (
    handle_msghead_whole (take 60 bytes) s b after (got (slice 60 40 bytes) ∷ left) arrives
          head_width (register_sender_other h after (λ e. plain (sym type_read ∙ e)))
        ∙ route_other (take 60 bytes) (slice 60 40 bytes) h s after left oks
            (λ e. other (sym name_read ∙ e)) (update_self b.incoming s _) body_width free
        ∙ λ i. (
          done tt,
          record b {
            incoming = update-update b.incoming s (got (slice 60 40 bytes) ∷ left) left i;
            send_ok = oks;
            sent =
                b.sent
                ++ (trans_sock (name_read i) b.regtable, take 60 bytes ++ slice 60 40 bytes) ∷ [];
            overread = overread_after (take 60 bytes) (slice 60 40 bytes) b.overread;
          },
        ),
    omega (arith, length-drop 100 bytes, parts_length),
  )
    where
      h : Head
      h = read_head (take 60 bytes)

      left : List Recv
      left = got (drop 100 bytes) ∷ rs

      after : Net
      after = record b { incoming = update b.incoming s (got (slice 60 40 bytes) ∷ left) }
