-- ===== src/Volatile.antt =====
-- volatile/main.cpp: `main` after `t=10`, and the handler of SIGALRM.
pub mod Counting
use learning_directory.Base.{
  ℕ, zero, suc, ◌-◌, ◌^◌, List, [], ◌∷◌, Option, none, some, if◌then◌else◌, ◌==◌, nat_eq,
}
use learning_directory.Base.Int.{ℤ, pos, negsuc, int_eq}

-- `t--` on an `int` of 32 bits; `none`: the least value has none before it.
unfoldable pub alarm_handler : ℤ → Option ℤ
alarm_handler (pos zero) = some (negsuc 0)
alarm_handler (pos (suc t)) = some (pos t)
alarm_handler (negsuc n) = if n == 2 ^ 31 - 1 then none else some (negsuc (suc n))

-- `main` is in its loop, with the value of `t`, or it has returned, or the value has overflowed.
pub data Main : Type 0 where
  looping : ℤ → Main
  returned : Main
  overflowed : Main

-- The signal arrives, or `main` makes the test of its loop.
pub data Event : Type 0 where
  alarm : Event
  test : Event

abbrev pub handled : Option ℤ → Main
handled none = overflowed
handled (some t) = looping t

unfoldable pub step : Event → Main → Main
unfolding alarm_handler
step alarm (looping t) = handled (alarm_handler t)
step test (looping t) = if t == pos 0 then returned else looping t
step e returned = returned
step e overflowed = overflowed

unfoldable pub run : List Event → Main → Main
unfolding step
run [] m = m
run (e ∷ es) m = run es (step e m)

abbrev pub start : Main
start = looping (pos 10)
