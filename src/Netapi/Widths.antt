-- ===== src/Netapi/Widths.antt =====
-- The length of a message of socket/netapi/netapi.cpp: `handle_msghead` reads 60 + 40 bytes.
use Prim.Native.Nat.{max}
use learning_directory.Base.{
  false, ◌≡◌, ◌≤◌, ◌<◌, ◌^◌, ◌%◌, ◌+◌, Bytes, length, length-append, arith,
}
use learning_directory.Base.Decimal.{decimal, length-decimal_five, length-decimal_short}
use learning_directory.Msg.{serialize, ip_padding, name_padding, body_padding}
use learning_directory.Msg.Padding.{length-pad-max}
use learning_directory.Msg.Layout.{length-show_bool}
use learning_directory.Netapi.State.{Net}
use learning_directory.Netapi.Send.{compose, wire, server_addr, server_port}

-- Strings that a 32-bit `int` can measure.
pub record IsMeasured (a : Net) (content to_name : Bytes) : Type 0 where
  pub ip_small : length a.local_ip < 2 ^ 31
  pub name_small : length a.processname < 2 ^ 31
  pub to_small : length to_name < 2 ^ 31
  pub content_small : length content < 2 ^ 31

module _ (a : Net) (msgtype content to_name : Bytes) (small : IsMeasured a content to_name) where
  -- Only the padded fields have a fixed width, and only if they are not too long.
  pub length-wire_total :
      length (wire a msgtype content to_name)
      ≡ max 15 (length a.local_ip)
        + length (decimal (a.local_port % 2 ^ 16))
        + 21
        + max 8 (length a.processname)
        + max 8 (length to_name)
        + length msgtype
        + max 40 (length content)
  unfolding serialize compose ip_padding name_padding body_padding
  length-wire_total = simp length-append (
      omega (
        arith,
        length-pad-max 15 a.local_ip (omega arith) small.ip_small,
        length-pad-max 15 server_addr (omega arith) (omega arith),
        length-pad-max 8 a.processname (omega arith) small.name_small,
        length-pad-max 8 to_name (omega arith) small.to_small,
        length-pad-max 40 content (omega arith) small.content_small,
        length-decimal_five (server_port % 2 ^ 16) (omega arith) (omega arith),
        length-show_bool false,
      ))

  -- A message whose sender has a local port below 10000, with fields that fit, is shorter than the
  -- 100 bytes that `handle_msghead` and `handle_msgbody` read for it.
  pub length-wire_short :
      a.local_port < 10000
      → length a.local_ip ≤ 15
      → length a.processname ≤ 8
      → length to_name ≤ 8
      → length msgtype ≡ 3
      → length content ≤ 40
      → length (wire a msgtype content to_name) < 100
  length-wire_short low ip name to type body =
      let port : a.local_port % 2 ^ 16 ≡ a.local_port = omega arith in
      omega (arith, length-wire_total, length-decimal_short (a.local_port % 2 ^ 16) (omega arith))

  -- A message to a process name of more than eight bytes, with a type of three bytes and a local
  -- port of five digits, is longer than the 100 bytes that are read for it.
  pub length-wire_long :
      8 < length to_name
      → 10000 ≤ a.local_port
      → a.local_port < 2 ^ 16
      → length msgtype ≡ 3
      → 100 < length (wire a msgtype content to_name)
  length-wire_long long low high type =
      let port : a.local_port % 2 ^ 16 ≡ a.local_port = omega arith in
      omega (
        arith,
        length-wire_total,
        length-decimal_five (a.local_port % 2 ^ 16) (omega arith) (omega arith),
      )
