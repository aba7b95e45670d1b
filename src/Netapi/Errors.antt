-- ===== src/Netapi/Errors.antt =====
-- `handle_msghead` of socket/netapi/netapi.cpp where a `recv` or the `send` fails or the peer has
-- closed, and the loop of `msghandlecalling`.
use learning_directory.Base.{ℕ, zero, suc, ◌≡◌, ◌∙◌, List, [], ◌∷◌, ◌++◌, Bytes, replicate, ◌||◌}
use learning_directory.Base.Int.{ℤ, int_eq}
use learning_directory.Netapi.State.{
  Recv, got, failed, Net, done, exited, Io, ◌>>=◌, ◌>>◌, skip, update, recv, recv_lem, bind_done,
  update_self, update-update,
}
use learning_directory.Netapi.Receive.{
  dispatch_head, pass_on, forward, unterminated, print_buffers, handle_msghead, newest_sock,
}

-- `count` rounds of the loop of `msghandlecalling`.
pub handle_rounds : ℕ → ℤ → Io (Unit {0})
handle_rounds zero sockfd = skip
handle_rounds (suc count) sockfd = handle_msghead sockfd >> handle_rounds count sockfd

-- `msghandlecalling`, which takes the newest socket when the thread starts.
pub msghandlecalling : ℕ → Io (Unit {0})
unfolding handle_rounds
msghandlecalling count = newest_sock >>= handle_rounds count

module _ (s : ℤ) (n : Net) (rs : List Recv) where
  -- A failed `recv` of the head ends the process.
  pub handle_msghead_failed :
      n.incoming s ≡ failed ∷ rs
      → handle_msghead s n ≡ (exited, record n { incoming = update n.incoming s rs })
  unfolding handle_msghead
  handle_msghead_failed e = bind_done (recv s 60) (dispatch_head s) n (recv_lem s 60 n failed rs e)

  pub handle_msghead_closed :
      n.incoming s ≡ got [] ∷ rs
      → handle_msghead s n ≡ (done tt, record n { incoming = update n.incoming s rs })
  unfolding handle_msghead
  handle_msghead_closed e =
      bind_done (recv s 60) (dispatch_head s) n (recv_lem s 60 n (got []) rs e)

  -- While a message is passed on, a failed `recv` of its body is passed over.
  pub forward_failed :
      (head_buf name : Bytes)
      → n.incoming s ≡ failed ∷ rs
      → forward head_buf name s n ≡ (
        done tt,
        record n {
          incoming = update n.incoming s rs;
          overread = n.overread || unterminated (head_buf ∷ []);
        },
      )
  unfolding forward print_buffers
  forward_failed head_buf name e =
      bind_done (recv s 40) (pass_on head_buf name) printed (recv_lem s 40 printed failed rs e)
    where
      printed : Net
      printed = record n { overread = n.overread || unterminated (head_buf ∷ []) }

-- Once the peer has closed, each round of the loop of `msghandlecalling` returns at once and
-- changes nothing: after any positive number of such rounds the object differs only in the answers
-- consumed.
pub handle_rounds_closed :
    (count : ℕ) (s : ℤ) (n : Net) (rs : List Recv)
    → n.incoming s ≡ replicate (suc count) (got []) ++ rs
    → handle_rounds (suc count) s n ≡ (done tt, record n { incoming = update n.incoming s rs })
unfolding handle_rounds
handle_rounds_closed zero s n rs e =
    bind_done (handle_msghead s) (λ _. handle_rounds 0 s) n (handle_msghead_closed s n rs e)
handle_rounds_closed (suc count) s n rs e =
    bind_done (handle_msghead s) (λ _. handle_rounds (suc count) s) n
      (handle_msghead_closed s n left e)
    ∙ handle_rounds_closed count s (record n { incoming = update n.incoming s left }) rs
        (update_self n.incoming s left)
    ∙ λ i. (done tt, record n { incoming = update-update n.incoming s left rs i })
  where
    left : List Recv
    left = replicate (suc count) (got []) ++ rs
