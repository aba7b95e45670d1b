-- ===== src/Msg.antt =====
-- socket/netapi/msg.cpp: the class `msg`, the paddings of its fields, and its serial form.
-- `file_path` and `file_size` are left out: nothing reads them.
pub mod Padding
pub mod Layout
use learning_directory.Base.{
  ℕ, zero, suc, List, [], ◌∷◌, ◌++◌, Bool, true, false, Bytes, codes, length, if◌then◌else◌,
}
use learning_directory.Base.Int.{ℤ, pos, pos_part, ltb_ℤ, ◌-ℤ◌, to_int}
use learning_directory.Base.Decimal.{decimal}

pub record Msg : Type 0 where
  pub to_ip : Bytes
  pub from_ip : Bytes
  pub to_port : ℕ
  pub from_port : ℕ
  pub isfile : Bool
  pub msgtype : Bytes
  pub from_processname : Bytes
  pub to_processname : Bytes
  pub msg_content : Bytes

-- `msg::msg`.
unfoldable pub empty_msg : Msg
empty_msg = record {
  to_ip = [];
  from_ip = [];
  to_port = 0;
  from_port = 0;
  isfile = false;
  msgtype = codes "nor";
  from_processname = [];
  to_processname = [];
  msg_content = [];
}

abbrev pub hash : ℕ
hash = b'#'

-- `for (i = pad_pos; i < width; i++) s += "#"`, by the rounds that are left.
pub pad_loop : ℕ → Bytes → Bytes
pad_loop zero s = s
pad_loop (suc n) s = pad_loop n (s ++ hash ∷ [])

unfoldable pub pad : ℕ → Bytes → Bytes
unfolding pad_loop
pad width s =
    let pad_pos = to_int (length s) in
    if ltb_ℤ pad_pos (pos width) then pad_loop (pos_part (pos width -ℤ pad_pos)) s else s

unfoldable pub ip_padding : Bytes → Bytes
unfolding pad
ip_padding = pad 15

unfoldable pub body_padding : Bytes → Bytes
unfolding pad
body_padding = pad 40

unfoldable pub name_padding : Bytes → Bytes
unfolding pad
name_padding = pad 8

-- `ostream << bool`.
unfoldable pub show_bool : Bool → Bytes
show_bool b = if b then b'1' ∷ [] else b'0' ∷ []

unfoldable pub serialize : Msg → Bytes
unfolding show_bool
serialize m =
    m.from_ip
    ++ (decimal m.from_port
        ++ (m.to_ip
            ++ (decimal m.to_port
                ++ (show_bool m.isfile
                    ++ (m.from_processname
                        ++ (m.to_processname ++ (m.msgtype ++ m.msg_content)))))))
