-- ===== src/Talk/Receiving.antt =====
-- `receiving_thread` of socket/talk/chatchit/client.cpp and socket/talk/chitchat/client.cpp.
use learning_directory.Base.{List, [], ◌∷◌, Bytes, if◌then◌else◌, nat_eq, buffer}
use learning_directory.Netapi.State.{Recv, got, failed}
use learning_directory.Netapi.Receive.{has_zero}
use learning_directory.Talk.Sending.{c_str}

-- `unmade`: there is no such thread. `waiting`: the next `recv` has not answered. `overread`: `cout << buf` has met no zero in the buffer.
pub data Ending : Type 0 where
  unmade : Ending
  waiting : Ending
  exited : Ending
  overread : Ending

abbrev pub displaying : Bytes → List Bytes × Ending → List Bytes × Ending
displaying bs (shown, e) = (bs ∷ shown, e)

-- The loop, over what `recv` answers: the messages printed, and how it ends. `buf` has 80 bytes, all
-- zero before each `recv`. At the end of the stream `recv` returns 0, and the loop goes on.
unfoldable pub receiving_thread : List Recv → List Bytes × Ending
unfolding c_str
receiving_thread [] = ([], waiting)
receiving_thread (failed ∷ rs) = ([], exited)
receiving_thread (got [] ∷ rs) = receiving_thread rs
receiving_thread (got (c ∷ cs) ∷ rs) =
    let rest = displaying (c_str (buffer 80 (c ∷ cs))) (receiving_thread rs) in
    if has_zero (buffer 80 (c ∷ cs)) then rest else ([], overread)
