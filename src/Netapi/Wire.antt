-- ===== src/Netapi/Wire.antt =====
-- The bytes that `sendmsg` of socket/netapi/netapi.cpp writes, and the head that `handle_msghead`
-- reads from them.
use learning_directory.Base.{
  ◌≡◌, ◌≤◌, ◌<◌, ◌^◌, ◌%◌, ◌∙◌, ap, List, [], ◌∷◌, ◌++◌, Bytes, length, arith, Bool, true, false,
  take, drop, take_exact, drop_exact, length-take, length-drop,
}
use learning_directory.Base.Decimal.{decimal}
use learning_directory.Msg.{ip_padding, name_padding, body_padding, show_bool}
use learning_directory.Msg.Padding.{until_hash, LacksHash, until_hash-pad, length-pad}
use learning_directory.Msg.Layout.{
  FitsWidths, head_of, serialize-head, length-head, length-serialize, slices_of_head,
}
use learning_directory.Netapi.State.{Net, done, exited, send, send_lem, send_failed, bind_done}
use learning_directory.Netapi.Receive.{read_head}
use learning_directory.Netapi.Send.{server_addr, server_port, compose, wire, check_sent, sendmsg}

-- What a message needs for every field to keep its width.
pub record Sendable (a : Net) (msgtype content to_name : Bytes) : Type 0 where
  pub ip_fits : length a.local_ip ≤ 15
  pub ip_LacksHash : LacksHash a.local_ip
  pub port_low : 10000 ≤ a.local_port
  pub port_high : a.local_port < 2 ^ 16
  pub name_fits : length a.processname ≤ 8
  pub name_LacksHash : LacksHash a.processname
  pub to_fits : length to_name ≤ 8
  pub to_LacksHash : LacksHash to_name
  pub type_width : length msgtype ≡ 3
  pub content_fits : length content ≤ 40

module _ (a : Net) (msgtype content to_name : Bytes) (ok : Sendable a msgtype content to_name) where
  compose-FitsWidths : FitsWidths (compose a msgtype content to_name)
  unfolding compose ip_padding name_padding body_padding
  compose-FitsWidths = record {
    from_ip_width = length-pad 15 a.local_ip ok.ip_fits (omega arith);
    to_ip_width = length-pad 15 server_addr (omega arith) (omega arith);
    from_port_low = let h = ok.port_low in let k = ok.port_high in omega arith;
    from_port_high = omega arith;
    to_port_low = omega arith;
    to_port_high = omega arith;
    from_name_width = length-pad 8 a.processname ok.name_fits (omega arith);
    to_name_width = length-pad 8 to_name ok.to_fits (omega arith);
    type_width = ok.type_width;
    content_width = length-pad 40 content ok.content_fits (omega arith);
  }

  abbrev sent_head : Bytes
  sent_head = head_of (compose a msgtype content to_name)

  read_head-compose : read_head sent_head ≡ record {
    srcip = a.local_ip;
    srcport = decimal a.local_port;
    destip = server_addr;
    destport = decimal server_port;
    isfile = b'0' ∷ [];
    procname = a.processname;
    to_procname = to_name;
    m_type = msgtype;
  }
  unfolding read_head compose ip_padding name_padding show_bool
  read_head-compose =
      let f = slices_of_head (compose a msgtype content to_name) compose-FitsWidths in
      λ i. record {
        srcip =
            (ap until_hash f.0
                ∙ until_hash-pad 15 a.local_ip ok.ip_fits (omega arith) ok.ip_LacksHash)
              i;
        srcport = (f.1 ∙ ap decimal port_of) i;
        destip =
            (ap until_hash f.2
                ∙ until_hash-pad 15 server_addr (omega arith) (omega arith) (ground arith))
              i;
        destport = f.3 i;
        isfile = f.4 i;
        procname =
            (ap until_hash f.5
                ∙ until_hash-pad 8 a.processname ok.name_fits (omega arith) ok.name_LacksHash)
              i;
        to_procname =
            (ap until_hash f.6 ∙ until_hash-pad 8 to_name ok.to_fits (omega arith) ok.to_LacksHash)
              i;
        m_type = f.7 i;
      }
    where
      port_of : a.local_port % 2 ^ 16 ≡ a.local_port
      port_of = let h = ok.port_high in omega arith

  abbrev bytes : Bytes
  bytes = wire a msgtype content to_name

  wire_parts : bytes ≡ sent_head ++ body_padding content
  unfolding compose
  wire_parts = serialize-head (compose a msgtype content to_name)

  pub wire_head : take 60 bytes ≡ sent_head
  wire_head =
      ap (take 60) wire_parts
      ∙ take_exact sent_head (body_padding content) 60
          (length-head (compose a msgtype content to_name) compose-FitsWidths)

  pub wire_body : drop 60 bytes ≡ body_padding content
  wire_body =
      ap (drop 60) wire_parts
      ∙ drop_exact sent_head (body_padding content) 60
          (length-head (compose a msgtype content to_name) compose-FitsWidths)

  -- The head that `handle_msghead` reads from the first 60 bytes of a message has the sender's
  -- address, port and name, the server's address and port, no file flag, the receiver's name and
  -- the type, as `sendmsg` put them in, if the fields fit their widths, the names and the address
  -- hold no `#`, and the local port has five digits.
  pub read_head-wire : read_head (take 60 bytes) ≡ record {
    srcip = a.local_ip;
    srcport = decimal a.local_port;
    destip = server_addr;
    destport = decimal server_port;
    isfile = b'0' ∷ [];
    procname = a.processname;
    to_procname = to_name;
    m_type = msgtype;
  }
  read_head-wire = ap read_head wire_head ∙ read_head-compose

  -- A message whose fields fit their widths, from a local port of five digits, has exactly 100
  -- bytes.
  pub length-wire : length bytes ≡ 100
  length-wire = length-serialize (compose a msgtype content to_name) compose-FitsWidths

  pub length-wire_head : length (take 60 bytes) ≡ 60
  length-wire_head = omega (arith, length-take 60 bytes, length-wire)

  pub length-wire_body : length (drop 60 bytes) ≡ 40
  length-wire_body = omega (arith, length-drop 60 bytes, length-wire)

module _ (a : Net) (msgtype content to_name : Bytes) where
  -- `sendmsg` writes the whole message to the socket of the object, or ends the process.
  pub sendmsg_sent :
      (oks : List Bool)
      → a.send_ok ≡ true ∷ oks
      → sendmsg msgtype content to_name a ≡ (
        done tt,
        record a {
          send_ok = oks;
          sent = a.sent ++ (a.localsock, (wire a msgtype content to_name)) ∷ [];
        },
      )
  unfolding sendmsg
  sendmsg_sent oks e =
      bind_done (send a.localsock (wire a msgtype content to_name)) check_sent a
        (send_lem a.localsock (wire a msgtype content to_name) a oks e)

  pub sendmsg_failed :
      (oks : List Bool)
      → a.send_ok ≡ false ∷ oks
      → sendmsg msgtype content to_name a ≡ (exited, record a { send_ok = oks })
  unfolding sendmsg
  sendmsg_failed oks e =
      bind_done (send a.localsock (wire a msgtype content to_name)) check_sent a
        (send_failed a.localsock (wire a msgtype content to_name) a oks e)
