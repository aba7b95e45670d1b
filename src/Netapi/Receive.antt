-- ===== src/Netapi/Receive.antt =====
-- The receiving side of socket/netapi/netapi.cpp: `handle_msghead`, `handle_msgbody`, `regist`.
use learning_directory.Base.{
  List, [], ◌∷◌, ◌++◌, Option, none, some, Bytes, codes, ◌==◌, not, bytes_eq, slice, buffer, back,
  Bool, false, ◌||◌, nat_eq, replicate,
}
use learning_directory.Base.Int.{ℤ, pos}
use learning_directory.Base.Assoc.{lookup, insert}
use learning_directory.Msg.Padding.{until_hash}
use learning_directory.Netapi.State.{
  Recv, got, failed, done, undefined, Io, ◌>>=◌, ◌>>◌, skip, exit_process, when, recv, send,
}

-- The local streams of `handle_msghead`.
pub record Head : Type 0 where
  pub srcip : Bytes
  pub srcport : Bytes
  pub destip : Bytes
  pub destport : Bytes
  pub isfile : Bytes
  pub procname : Bytes
  pub to_procname : Bytes
  pub m_type : Bytes

-- The loops over `head_buf`.
unfoldable pub read_head : Bytes → Head
read_head head_buf = record {
  srcip = until_hash (slice 0 15 head_buf);
  srcport = slice 15 5 head_buf;
  destip = until_hash (slice 20 15 head_buf);
  destport = slice 35 5 head_buf;
  isfile = slice 40 1 head_buf;
  procname = until_hash (slice 41 8 head_buf);
  to_procname = until_hash (slice 49 8 head_buf);
  m_type = slice 57 3 head_buf;
}

unfoldable pub regist : Bytes → ℤ → Io (Unit {0})
regist procname recvsockfd n =
    (done tt, record n { regtable = insert procname recvsockfd n.regtable })

abbrev pub or_undefined : Option ℤ → Io ℤ
or_undefined none n = (undefined, n)
or_undefined (some s) n = (done s, n)

-- `recvsock.back()`.
unfoldable pub newest_sock : Io ℤ
newest_sock n = or_undefined (back n.recvsock) n

abbrev pub show_body : Recv → Io (Unit {0})
show_body failed = exit_process
show_body (got []) = skip
show_body (got (c ∷ cs)) =
    λ n. (done tt, record n { shown = n.shown ++ until_hash (buffer 40 (c ∷ cs)) ∷ [] })

unfoldable pub handle_msgbody : ℤ → Io (Unit {0})
handle_msgbody sockfd = do r ← recv sockfd 40; show_body r

-- The loop over `regtable`: 0 where the name is missing.
unfoldable pub trans_sock : Bytes → List (Bytes × ℤ) → ℤ
trans_sock name table = elim (lookup name table) [ none ↦ pos 0 | some s ↦ s ]

abbrev pub has_zero : Bytes → Bool
has_zero [] = false
has_zero (c ∷ cs) = c == 0 || has_zero cs

abbrev pub unterminated : List Bytes → Bool
unterminated [] = false
unterminated (buf ∷ bufs) = not (has_zero buf) || unterminated bufs

-- `cout << buf`, for some buffers: each is read up to its first zero, or past its end. Reading past
-- the end is taken to change no memory.
unfoldable pub print_buffers : List Bytes → Io (Unit {0})
print_buffers bufs n = (done tt, record n { overread = n.overread || unterminated bufs })

-- What the relaying branch prints: `head_buf`, `body_buf` and `trans_buf`, before and after each of
-- the two `memcpy`s.
abbrev pub debug_buffers : Bytes → Bytes → List Bytes
debug_buffers head_buf body_buf =
    head_buf
    ∷ body_buf
    ∷ replicate 100 0
    ∷ head_buf
    ∷ body_buf
    ∷ (head_buf ++ replicate 40 0)
    ∷ head_buf
    ∷ body_buf
    ∷ (head_buf ++ body_buf)
    ∷ []

-- Whether a print has read past a buffer's end, after the prints of the relaying branch.
abbrev pub overread_after : Bytes → Bytes → Bool → Bool
overread_after head_buf body_buf before =
    (before || unterminated (head_buf ∷ [])) || unterminated (debug_buffers head_buf body_buf)

abbrev pub send_on : Bytes → Bytes → Io (Unit {0})
send_on trans_buf to_procname n =
    (send (trans_sock to_procname n.regtable) trans_buf >>= λ _. skip) n

abbrev pub pass_on : Bytes → Bytes → Recv → Io (Unit {0})
pass_on head_buf to_procname failed = skip
pass_on head_buf to_procname (got []) = skip
pass_on head_buf to_procname (got (c ∷ cs)) =
    print_buffers (debug_buffers head_buf (buffer 40 (c ∷ cs)))
    >> send_on (head_buf ++ buffer 40 (c ∷ cs)) to_procname

-- The branch of `handle_msghead` for a message to another process.
unfoldable pub forward : Bytes → Bytes → ℤ → Io (Unit {0})
unfolding trans_sock
forward head_buf to_procname sockfd = do
  print_buffers (head_buf ∷ [])
  r ← recv sockfd 40
  pass_on head_buf to_procname r

-- `if (m_type == "reg") regist(procname, recvsock.back())`.
unfoldable pub register_sender : Head → Io (Unit {0})
register_sender h = when (h.m_type == codes "reg") (newest_sock >>= regist h.procname)

-- The two tests on `to_procname`.
unfoldable pub route : Bytes → Head → ℤ → Io (Unit {0})
route head_buf h sockfd n =
    (do
      when (h.to_procname == n.processname) (handle_msgbody sockfd)
      when (not (h.to_procname == n.processname)) (forward head_buf h.to_procname sockfd))
      n

-- `handle_msghead` once `head_buf` holds some bytes.
unfoldable pub handle_head : Bytes → ℤ → Io (Unit {0})
unfolding register_sender route
handle_head head_buf sockfd = do
  register_sender (read_head head_buf)
  route head_buf (read_head head_buf) sockfd

abbrev pub dispatch_head : ℤ → Recv → Io (Unit {0})
dispatch_head sockfd failed = exit_process
dispatch_head sockfd (got []) = skip
dispatch_head sockfd (got (c ∷ cs)) = handle_head (buffer 60 (c ∷ cs)) sockfd

unfoldable pub handle_msghead : ℤ → Io (Unit {0})
handle_msghead sockfd = do r ← recv sockfd 60; dispatch_head sockfd r
