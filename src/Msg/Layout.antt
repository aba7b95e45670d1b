-- ===== src/Msg/Layout.antt =====
-- The serial form of socket/netapi/msg.cpp: a head of 60 bytes, in nine fields, and a body of 40.
use learning_directory.Base.{
  ◌≤◌, ◌<◌, ◌^◌, ◌≡◌, refl, ◌∙◌, ap, ◌++◌, append_assoc, Bytes, length, length-append, arith, Bool,
  true, false, slice, slice_field, drop_field, take, take_all, drop,
}
use learning_directory.Base.Decimal.{decimal, length-decimal_five}
use learning_directory.Msg.{Msg, show_bool, serialize}

-- The widths that the comments of `msg` give for its fields.
pub record FitsWidths (m : Msg) : Type 0 where
  pub from_ip_width : length m.from_ip ≡ 15
  pub to_ip_width : length m.to_ip ≡ 15
  pub from_port_low : 10000 ≤ m.from_port
  pub from_port_high : m.from_port < 2 ^ 16
  pub to_port_low : 10000 ≤ m.to_port
  pub to_port_high : m.to_port < 2 ^ 16
  pub from_name_width : length m.from_processname ≡ 8
  pub to_name_width : length m.to_processname ≡ 8
  pub type_width : length m.msgtype ≡ 3
  pub content_width : length m.msg_content ≡ 40

-- The head without its first field, its first two fields, and so on.
abbrev pub behind_names : Msg → Bytes
behind_names m = m.to_processname ++ m.msgtype

abbrev pub behind_to_port : Msg → Bytes
behind_to_port m = show_bool m.isfile ++ (m.from_processname ++ behind_names m)

abbrev pub behind_from_port : Msg → Bytes
behind_from_port m = m.to_ip ++ (decimal m.to_port ++ behind_to_port m)

abbrev pub head_of : Msg → Bytes
head_of m = m.from_ip ++ (decimal m.from_port ++ behind_from_port m)

pub serialize-head : (m : Msg) → serialize m ≡ head_of m ++ m.msg_content
unfolding serialize
serialize-head m = simp append_assoc

pub length-show_bool : (b : Bool) → length (show_bool b) ≡ 1
unfolding show_bool
length-show_bool true = refl
length-show_bool false = refl

module _ (m : Msg) (fits : FitsWidths m) where
  from_port_width : length (decimal m.from_port) ≡ 5
  from_port_width =
      length-decimal_five m.from_port fits.from_port_low
        (let h = fits.from_port_high in omega arith)

  to_port_width : length (decimal m.to_port) ≡ 5
  to_port_width =
      length-decimal_five m.to_port fits.to_port_low (let h = fits.to_port_high in omega arith)

  open fits use {from_ip_width, to_ip_width, from_name_width, to_name_width, type_width}

  pub length-head : length (head_of m) ≡ 60
  length-head =
      simp length-append
        (omega (arith, from_port_width, to_port_width, length-show_bool m.isfile, fits))

  pub length-serialize : length (serialize m) ≡ 100
  length-serialize =
      rw (serialize-head m, length-append (head_of m) m.msg_content)
        (omega (arith, length-head, fits.content_width))

  behind_from_ip : drop 15 (head_of m) ≡ decimal m.from_port ++ behind_from_port m
  behind_from_ip = drop_field 0 15 (head_of m) m.from_ip _ refl from_ip_width

  at_to_ip : drop 20 (head_of m) ≡ behind_from_port m
  at_to_ip = drop_field 15 5 (head_of m) _ _ behind_from_ip from_port_width

  at_to_port : drop 35 (head_of m) ≡ decimal m.to_port ++ behind_to_port m
  at_to_port = drop_field 20 15 (head_of m) _ _ at_to_ip to_ip_width

  at_isfile : drop 40 (head_of m) ≡ behind_to_port m
  at_isfile = drop_field 35 5 (head_of m) _ _ at_to_port to_port_width

  at_from_name : drop 41 (head_of m) ≡ m.from_processname ++ behind_names m
  at_from_name = drop_field 40 1 (head_of m) _ _ at_isfile (length-show_bool m.isfile)

  at_to_name : drop 49 (head_of m) ≡ behind_names m
  at_to_name = drop_field 41 8 (head_of m) _ _ at_from_name from_name_width

  at_type : drop 57 (head_of m) ≡ m.msgtype
  at_type = drop_field 49 8 (head_of m) _ _ at_to_name to_name_width

  -- Each field of the head, cut out at the offsets that the reader uses.
  pub slices_of_head :
      (slice 0 15 (head_of m) ≡ m.from_ip)
      × (slice 15 5 (head_of m) ≡ decimal m.from_port)
      × (slice 20 15 (head_of m) ≡ m.to_ip)
      × (slice 35 5 (head_of m) ≡ decimal m.to_port)
      × (slice 40 1 (head_of m) ≡ show_bool m.isfile)
      × (slice 41 8 (head_of m) ≡ m.from_processname)
      × (slice 49 8 (head_of m) ≡ m.to_processname)
      × (slice 57 3 (head_of m) ≡ m.msgtype)
  slices_of_head = (
    slice_field 0 15 (head_of m) _ _ refl from_ip_width,
    slice_field 15 5 (head_of m) _ _ behind_from_ip from_port_width,
    slice_field 20 15 (head_of m) _ _ at_to_ip to_ip_width,
    slice_field 35 5 (head_of m) _ _ at_to_port to_port_width,
    slice_field 40 1 (head_of m) _ _ at_isfile (length-show_bool m.isfile),
    slice_field 41 8 (head_of m) _ _ at_from_name from_name_width,
    slice_field 49 8 (head_of m) _ _ at_to_name to_name_width,
    ap (take 3) at_type ∙ take_all 3 m.msgtype (omega arith),
  )
