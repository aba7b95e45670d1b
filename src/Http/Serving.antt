-- ===== src/Http/Serving.antt =====
-- The reply of httpserver/main.cpp, and what the branch for EPOLLIN makes of its input.
use learning_directory.Base.{
  ℕ, ◌≡◌, ◌≤◌, refl, ap, ◌∙◌, List, [], ◌∷◌, ◌++◌, Bool, true, false, none, some, Bytes,
  if◌then◌else◌, ◌==◌, ◌||◌, arith, length, All, take,
}
use learning_directory.Base.Int.{ℤ, pos, minus_one, int_eq, ltb_ℤ}
use learning_directory.Base.Assoc.{lookup, assign}
use learning_directory.Http.State.{
  ClientT, closed, shut, unwatch, wrote, watch_output, Web, returned, deadlocked,
}
use learning_directory.Http.Transfer.{Written, writen, Read, bytes, failed, readn}
use learning_directory.Http.Writing.{Takes, writen_total}
use learning_directory.Http.Reading.{readn-bytes, readn_failed}
use learning_directory.Http.Handlers.{
  response, page, handle_writable, after_write, with_client, handle_readable, after_read,
  after_append, whole_buffer,
}

module _ (fd : ℤ) (now : ℕ) (c : ClientT) (w : Web) (there : lookup fd w.fds ≡ some (some c))
    (free : w.locked ≡ false) where
  -- The reply has been written whole.
  pub handle_writable_done :
      (rs : List ℤ) (r : Written)
      → writen (response page) rs ≡ some r
      → r.value ≡ pos (length (response page))
      → handle_writable fd rs now w ≡ (
        returned,
        record w {
          fds = assign fd none w.fds;
          calls = closed fd ∷ shut fd ∷ unwatch fd ∷ wrote fd r.sent ∷ w.calls;
        },
      )
  unfolding handle_writable
  handle_writable_done rs r sends all =
      (λ i.
        if free i
        then (deadlocked, w)
        else with_client (there i) w λ d. after_write fd now (response page) d (sends i) w)
      ∙ (λ i.
          if whole i || ltb_ℤ r.value (pos 0)
          then (
            returned,
            record w {
              fds = assign fd none w.fds;
              calls = closed fd ∷ shut fd ∷ unwatch fd ∷ wrote fd r.sent ∷ w.calls;
            },
          )
          else (
            returned,
            record w {
              fds =
                  assign fd (some (record c { write_buf = response page; last_alive_time = now }))
                    w.fds;
              calls = wrote fd r.sent ∷ w.calls;
            },
          ))
    where
      whole : (r.value == pos (length (response page))) ≡ true
      whole = (int_eq.eqb_iff r.value (pos (length (response page)))).1 all

  -- The reply to a client of `fds`, with the mutex free, if each `write` takes at least one byte
  -- and there are answers for each byte: the branch writes the whole response, stops watching the
  -- descriptor, shuts it down and closes it, and leaves NULL in its entry.
  pub handle_writable_whole :
      (rs : List ℤ)
      → All Takes rs
      → length (response page) ≤ length rs
      → handle_writable fd rs now w ≡ (
        returned,
        record w {
          fds = assign fd none w.fds;
          calls = closed fd ∷ shut fd ∷ unwatch fd ∷ wrote fd (response page) ∷ w.calls;
        },
      )
  handle_writable_whole rs takes enough =
      handle_writable_done rs
        (record { sent = response page; value = pos (length (response page)) })
        (writen_total (response page) rs takes enough) refl

  -- The client after its request has been read.
  abbrev pub fed : Bytes → ClientT
  fed bs = record c { read_buf = c.read_buf ++ whole_buffer bs; last_alive_time = now }

  abbrev pub replying : Bytes → Web
  replying bs = record w {
    fds = assign fd (some (fed bs)) w.fds;
    calls = watch_output fd ∷ w.calls;
  }

  abbrev pub put : Read → Bytes
  put (bytes bs) = take 8192 bs
  put failed = []

  not_negative : (n : ℕ) → ltb_ℤ (pos n) (pos 0) ≡ false
  not_negative n = ground arith

  fed_by :
      (r : Read) (rs : List Read) (again : Bool) (n : ℕ)
      → readn 8192 (r ∷ rs) ≡ some (record { count = pos n; filled = put r })
      → handle_readable fd (r ∷ rs) again now w ≡ (returned, replying (put r))
  unfolding handle_readable
  fed_by r rs again n e =
      (λ i. after_read fd again now (e i) w)
      ∙ (λ i.
          if free i
          then (deadlocked, w)
          else with_client (there i) w λ d.
            after_append fd again now (pos n)
              (record d { read_buf = d.read_buf ++ whole_buffer (put r) }) w)
      ∙ ap
          (λ b.
            if b
            then after_append fd again now minus_one
                (record c { read_buf = c.read_buf ++ whole_buffer (put r) }) w
            else (returned, replying (put r)))
          (not_negative n)

  -- Whatever the first `read` answers, data, the end of the input or an error, and whatever `errno`
  -- is: for a client of `fds`, with the mutex free, the input branch appends the whole buffer to
  -- `read_buf` and asks for the output event, as for a complete request.
  pub handle_readable_any :
      (r : Read) (rs : List Read) (again : Bool)
      → handle_readable fd (r ∷ rs) again now w ≡ (returned, replying (put r))
  handle_readable_any (bytes bs) rs again = fed_by (bytes bs) rs again 0 (readn-bytes 8191 bs rs)
  handle_readable_any failed rs again = fed_by failed rs again 1 (readn_failed 8191 rs)
