-- ===== src/Netapi/Send.antt =====
-- The sending side of socket/netapi/netapi.cpp: `msg_write_ip_port` and `sendmsg`.
use learning_directory.Base.{ℕ, Bool, true, false, Bytes, codes, ◌%◌, ◌^◌}
use learning_directory.Msg.{Msg, empty_msg, ip_padding, name_padding, body_padding, serialize}
use learning_directory.Netapi.State.{Net, Io, ◌>>=◌, skip, exit_process, send}

abbrev pub server_addr : Bytes
server_addr = codes "127.0.0.1"

abbrev pub server_port : ℕ
server_port = 10003

-- `ntohs` yields 16 bits.
unfoldable pub msg_write_ip_port : Net → Msg → Msg
msg_write_ip_port n m = record m {
  from_ip = n.local_ip;
  from_port = n.local_port % 2 ^ 16;
  to_ip = server_addr;
  to_port = server_port % 2 ^ 16;
}

-- The message that `sendmsg` puts together.
unfoldable pub compose : Net → Bytes → Bytes → Bytes → Msg
unfolding msg_write_ip_port empty_msg
compose n msgtype content to_name =
    let m = msg_write_ip_port n empty_msg in
    record m {
      from_ip = ip_padding m.from_ip;
      to_ip = ip_padding m.to_ip;
      from_processname = name_padding n.processname;
      to_processname = name_padding to_name;
      msgtype = msgtype;
      msg_content = body_padding content;
    }

abbrev pub check_sent : Bool → Io (Unit {0})
check_sent true = skip
check_sent false = exit_process

-- `serialstr`.
abbrev pub wire : Net → Bytes → Bytes → Bytes → Bytes
wire n msgtype content to_name = serialize (compose n msgtype content to_name)

unfoldable pub sendmsg : Bytes → Bytes → Bytes → Io (Unit {0})
sendmsg msgtype content to_name n =
    (do ok ← send n.localsock (wire n msgtype content to_name); check_sent ok) n
