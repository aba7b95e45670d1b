-- ===== src/Examples/Members.antt =====
-- The threads of memberfun_threading.
use learning_directory.Base.{
  ℕ, ◌≡◌, ◌≤◌, refl, List, [], ◌∷◌, ◌++◌, true, length, none, some, All, weigh, replicate,
}
use learning_directory.Base.Int.{pos}
use learning_directory.MemberThread.{
  Line, now_create, get_p, now_do, hello_world, now_exit, start, Turn, main_turn, thread_turn,
  turns,
}
use learning_directory.MemberThread.Ones.{SaysOne}
use learning_directory.MemberThread.Hellos.{hello, greeted, hellos_printed}

-- `main` makes a thread, which runs while `main` sleeps.
abbrev one_round : ℕ → List Turn
one_round i = replicate 4 (main_turn true) ++ replicate 6 (thread_turn i) ++ main_turn true ∷ []

abbrev five_rounds : List Turn
five_rounds = one_round 0 ++ one_round 1 ++ one_round 2 ++ one_round 3 ++ one_round 4

abbrev one_thread : List Line
one_thread = now_create ∷ get_p (some (pos 1)) ∷ now_do ∷ hello_world (some (pos 1)) ∷ now_exit ∷ []

five_hellos :
    (turns five_rounds start).printed
    ≡ one_thread ++ one_thread ++ one_thread ++ one_thread ++ one_thread
unfolding turns
five_hellos = refl

-- A thread that runs only after `main` has returned reads what is no longer there.
late_thread :
    (turns (replicate 26 (main_turn true) ++ thread_turn 0 ∷ thread_turn 0 ∷ []) start).printed
    ≡ now_create ∷ get_p none ∷ []
unfolding turns
late_thread = refl

hellos_printed_example :
    All SaysOne (turns five_rounds start).printed
    × (weigh hello (turns five_rounds start).printed
        ≡ weigh greeted (turns five_rounds start).threads)
    × (length (turns five_rounds start).threads ≤ 5)
unfolding turns
hellos_printed_example = hellos_printed five_rounds refl
