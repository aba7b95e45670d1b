-- ===== src/MemberThread.antt =====
-- memberfun_threading/memberfun_threading.cpp: `main`, `test::createThread` and the threads of
-- `threadFunction`, as steps on the one object `t`.
pub mod Ones
pub mod Hellos
use learning_directory.Base.{
  ℕ, suc, List, [], ◌∷◌, ◌++◌, Bool, true, false, Option, none, some, if◌then◌else◌, ltb, get_elem?,
  set,
}
use learning_directory.Base.Int.{ℤ, pos}

-- The members of `test`; `none`: not written yet, or no longer there.
pub record Test : Type 0 where
  pub p : Option ℤ
  pub q : Option ℤ

-- What the threads print.
pub data Line : Type 0 where
  now_create : Line
  get_p : Option ℤ → Line
  now_do : Line
  hello_world : Option ℤ → Line
  now_exit : Line

-- What a thread does next: the statements of `threadFunction`, and those of `sayHello`, whose
-- argument has been read from `p`.
pub data Task : Type 0 where
  creating_line : Task
  getting : Task
  calling : Task
  doing : Option ℤ → Task
  greeting : Option ℤ → Task
  exiting : Task
  ended : Task

-- What `main` does next in its round `i`: the test, the statements of `createThread`, `sleep`.
pub data Main : Type 0 where
  testing : ℕ → Main
  assigning_p : ℕ → Main
  assigning_q : ℕ → Main
  creating : ℕ → Main
  sleeping : ℕ → Main
  returned : Main

pub record World : Type 0 where
  pub t : Test
  pub main : Main
  pub threads : List Task  -- in the order of their creation
  pub printed : List Line  -- oldest first

abbrev pub start : World
start = record { t = record { p = none; q = none }; main = testing 0; threads = []; printed = [] }

-- The thread `i` prints a line and stands at `u`.
abbrev pub prints : ℕ → Line → Task → World → World
prints i l u w = record w { threads = set w.threads i u; printed = w.printed ++ l ∷ [] }

-- One step of the thread `i`, which stands where the option says.
unfoldable pub thread_function : ℕ → Option Task → World → World
thread_function i (some creating_line) w = prints i now_create getting w
thread_function i (some getting) w = prints i (get_p w.t.p) calling w
thread_function i (some calling) w = record w { threads = set w.threads i (doing w.t.p) }
thread_function i (some (doing r)) w = prints i now_do (greeting r) w
thread_function i (some (greeting r)) w = prints i (hello_world r) exiting w
thread_function i (some exiting) w = prints i now_exit ended w
thread_function i (some ended) w = w
thread_function i none w = w

-- One step of `main`; the flag says whether `pthread_create` succeeds, which the code does not ask.
-- When `main` returns, its `t` is gone.
unfoldable pub main_thread : Bool → Main → World → World
main_thread ok (testing i) w =
    if ltb i 5
    then record w { main = assigning_p i }
    else record w { t = record { p = none; q = none }; main = returned }
main_thread ok (assigning_p i) w = record w {
  t = record w.t { p = some (pos 1) };
  main = assigning_q i;
}
main_thread ok (assigning_q i) w = record w {
  t = record w.t { q = some (pos 2) };
  main = creating i;
}
main_thread ok (creating i) w = record w {
  threads = if ok then w.threads ++ creating_line ∷ [] else w.threads;
  main = sleeping i;
}
main_thread ok (sleeping i) w = record w { main = testing (suc i) }
main_thread ok returned w = w

pub data Turn : Type 0 where
  main_turn : Bool → Turn
  thread_turn : ℕ → Turn

unfoldable pub turn : Turn → World → World
unfolding thread_function main_thread
turn (main_turn ok) w = main_thread ok w.main w
turn (thread_turn i) w = thread_function i (get_elem? w.threads i) w

unfoldable pub turns : List Turn → World → World
unfolding turn
turns [] w = w
turns (e ∷ es) w = turns es (turn e w)

abbrev pub over : Main → Bool
over (testing i) = false
over (assigning_p i) = false
over (assigning_q i) = false
over (creating i) = false
over (sleeping i) = false
over returned = true
