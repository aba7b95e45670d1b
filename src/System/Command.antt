-- ===== src/System/Command.antt =====
-- `mysystem` and the loop of `main` in system_function/main.cpp. The results of `fork` and of the
-- successive calls of `waitpid` are arguments; where these end, the call is still waiting.
use learning_directory.Base.{
  ℕ, zero, suc, List, [], ◌∷◌, Bool, true, false, Option, none, some, Bytes, nat_eq,
}
use learning_directory.Base.Int.{ℤ, pos, negsuc, minus_one}
use learning_directory.System.Kernel.{Wait, reaped, interrupted, refused}

-- The loop of the parent.
unfoldable pub wait_loop : List Wait → Option ℤ
wait_loop [] = none
wait_loop (reaped status ∷ ws) = some status
wait_loop (interrupted ∷ ws) = wait_loop ws
wait_loop (refused ∷ ws) = some minus_one

-- How a process goes on after `fork`: the parent returns a status or still waits; the child becomes
-- another program, or ends with 127 where `execl` returns.
pub data Course : Type 0 where
  returns : Option ℤ → Course
  becomes : Bytes → Course
  exits : ℕ → Course

abbrev pub child : Bool → Bytes → Course
child true command = becomes command
child false command = exits 127

unfoldable pub mysystem : Option Bytes → ℤ → Bool → List Wait → Course
unfolding wait_loop
mysystem none pid executed ws = returns (some (pos 1))
mysystem (some cmdstring) (negsuc e) executed ws = returns (some minus_one)
mysystem (some cmdstring) (pos zero) executed ws = child executed cmdstring
mysystem (some cmdstring) (pos (suc p)) executed ws = returns (wait_loop ws)

-- The rounds of `main`, over what `fork` returns in its process: the processes killed, oldest first,
-- and the course of a process in which it returns 0.
unfoldable pub main_rounds : List ℤ → Bool → Bytes → List ℕ × Option Course
main_rounds [] executed program = ([], none)
main_rounds (negsuc e ∷ forks) executed program = main_rounds forks executed program
main_rounds (pos zero ∷ forks) executed program = ([], some (child executed program))
main_rounds (pos (suc p) ∷ forks) executed program =
    let (killed, course) = main_rounds forks executed program in (suc p ∷ killed, course)

-- `argc != 3` ends the process.
unfoldable pub system_main : List Bytes → List ℤ → Bool → List ℕ × Option Course
unfolding main_rounds
system_main (argv0 ∷ path ∷ arg ∷ []) forks executed = main_rounds forks executed path
system_main _ forks executed = ([], some (exits 255))
