-- ===== src/MemberThread/Hellos.antt =====
-- What the threads of memberfun_threading/memberfun_threading.cpp print, and how often.
use learning_directory.Base.{
  ℕ, suc, ◌+◌, ◌-◌, ◌≡◌, ◌≤◌, ◌<◌, refl, List, [], ◌∷◌, Bool, true, false, Option, none, some, ltb,
  length, length-append, length-set, get_elem?, set, All, if_case, weigh, weigh-append, weigh-set,
  arith, inl,
}
use mathlib.Core.Path.{subst}
use learning_directory.MemberThread.{
  Line, now_create, get_p, now_do, hello_world, now_exit, Task, creating_line, getting, calling,
  doing, greeting, exiting, ended, Main, testing, assigning_p, assigning_q, creating, sleeping,
  returned, World, start, prints, thread_function, main_thread, Turn, main_turn, thread_turn, turn,
  turns, over,
}
use learning_directory.MemberThread.Ones.{SaysOne, HasOnes, turn-HasOnes}

-- A line of `sayHello` with its number, and a thread that has printed it.
abbrev pub hello : Line → ℕ
hello now_create = 0
hello (get_p v) = 0
hello now_do = 0
hello (hello_world v) = 1
hello now_exit = 0

abbrev pub greeted : Task → ℕ
greeted creating_line = 0
greeted getting = 0
greeted calling = 0
greeted (doing r) = 0
greeted (greeting r) = 0
greeted exiting = 1
greeted ended = 1

-- The threads that `main` may still make, as long as it stands where the test lets it.
abbrev left : Main → ℕ
left (testing i) = 5 - i
left (assigning_p i) = suc (4 - i)
left (assigning_q i) = suc (4 - i)
left (creating i) = suc (4 - i)
left (sleeping i) = 4 - i
left returned = 0

record IsCounted (w : World) : Type 0 where
  pub hellos : weigh hello w.printed ≡ weigh greeted w.threads
  pub room : length w.threads + left w.main ≤ 5

module _ (w : World) (i : ℕ) (k : Task) (h : IsCounted w) (e : get_elem? w.threads i ≡ some k) where
  prints-IsCounted :
      (l : Line) (u : Task) → hello l + greeted k ≡ greeted u → IsCounted (prints i l u w)
  prints-IsCounted l u same = record {
    hellos =
        omega
          (arith, h.hellos, weigh-append hello w.printed l, weigh-set greeted w.threads i k u e);
    room = omega (arith, h.room, length-set w.threads i u);
  }

  moves-IsCounted :
      (u : Task) → greeted k ≡ greeted u → IsCounted (record w { threads = set w.threads i u })
  moves-IsCounted u same = record {
    hellos = omega (arith, h.hellos, weigh-set greeted w.threads i k u e);
    room = omega (arith, h.room, length-set w.threads i u);
  }

thread_function-IsCounted :
    (i : ℕ) (o : Option Task) (w : World)
    → get_elem? w.threads i ≡ o
    → IsCounted w
    → IsCounted (thread_function i o w)
unfolding thread_function
thread_function-IsCounted i (some creating_line) w e h =
    prints-IsCounted w i creating_line h e now_create getting refl
thread_function-IsCounted i (some getting) w e h =
    prints-IsCounted w i getting h e (get_p w.t.p) calling refl
thread_function-IsCounted i (some calling) w e h =
    moves-IsCounted w i calling h e (doing w.t.p) refl
thread_function-IsCounted i (some (doing r)) w e h =
    prints-IsCounted w i (doing r) h e now_do (greeting r) refl
thread_function-IsCounted i (some (greeting r)) w e h =
    prints-IsCounted w i (greeting r) h e (hello_world r) exiting refl
thread_function-IsCounted i (some exiting) w e h =
    prints-IsCounted w i exiting h e now_exit ended refl
thread_function-IsCounted i (some ended) w e h = h
thread_function-IsCounted i none w e h = h

room_at : (w : World) (m : Main) → w.main ≡ m → IsCounted w → length w.threads + left m ≤ 5
room_at w m e h = subst (λ k. length w.threads + left k ≤ 5) e h.room

main_thread-IsCounted :
    (ok : Bool) (m : Main) (w : World) → w.main ≡ m → IsCounted w → IsCounted (main_thread ok m w)
unfolding main_thread
main_thread-IsCounted ok (testing i) w e h =
    if_case IsCounted (ltb i 5) _ _
      (λ below. record {
        hellos = h.hellos;
        room =
            let r = room_at w (testing i) e h in
            let i_low : i < 5 = ground arith in omega (arith, r, i_low);
      })
      λ _. record { hellos = h.hellos; room = omega (arith, h.room) }
main_thread-IsCounted ok (assigning_p i) w e h = record {
  hellos = h.hellos;
  room = room_at w (assigning_p i) e h;
}
main_thread-IsCounted ok (assigning_q i) w e h = record {
  hellos = h.hellos;
  room = room_at w (assigning_q i) e h;
}
main_thread-IsCounted true (creating i) w e h = record {
  hellos = omega (arith, h.hellos, weigh-append greeted w.threads creating_line);
  room =
      let r = room_at w (creating i) e h in
      omega (arith, r, length-append w.threads (creating_line ∷ []));
}
main_thread-IsCounted false (creating i) w e h = record {
  hellos = h.hellos;
  room = let r = room_at w (creating i) e h in omega (arith, r);
}
main_thread-IsCounted ok (sleeping i) w e h = record {
  hellos = h.hellos;
  room = let r = room_at w (sleeping i) e h in omega (arith, r);
}
main_thread-IsCounted ok returned w e h = h

turn-IsCounted : (e : Turn) (w : World) → IsCounted w → IsCounted (turn e w)
unfolding turn
turn-IsCounted (main_turn ok) w h = main_thread-IsCounted ok w.main w refl h
turn-IsCounted (thread_turn i) w h = thread_function-IsCounted i (get_elem? w.threads i) w refl h

turns-IsCounted : (es : List Turn) (w : World) → IsCounted w → IsCounted (turns es w)
unfolding turns
turns-IsCounted [] w h = h
turns-IsCounted (e ∷ es) w h = turns-IsCounted es (turn e w) (turn-IsCounted e w h)

turns-HasOnes :
    (es : List Turn) (w : World)
    → (over w.main ≡ false → HasOnes w)
    → over (turns es w).main ≡ false
    → HasOnes (turns es w)
unfolding turns
turns-HasOnes [] w h there = h there
turns-HasOnes (e ∷ es) w h there = turns-HasOnes es (turn e w) (turn-HasOnes e w h) there

-- In any interleaving of `main` and its threads, with any results of `pthread_create`, as long as
-- `main` has not returned: every number that a thread has printed is the 1 that `createThread`
-- writes, the greetings printed are as many as the threads that have come past `sayHello`, and
-- there are at most five threads.
pub hellos_printed :
    (es : List Turn)
    → over (turns es start).main ≡ false
    → All SaysOne (turns es start).printed
      × (weigh hello (turns es start).printed ≡ weigh greeted (turns es start).threads)
      × (length (turns es start).threads ≤ 5)
hellos_printed es there = (
  (turns-HasOnes es start (λ _. record { printed = tt; held = tt; written = tt; known = inl refl })
      there).printed,
  (turns-IsCounted es start start-IsCounted).hellos,
  omega (arith, (turns-IsCounted es start start-IsCounted).room),
)
  where
    start-IsCounted : IsCounted start
    start-IsCounted = record { hellos = refl; room = omega arith }
