-- ===== src/Examples/Signals.antt =====
-- Runs of volatile/main.cpp.
use learning_directory.Base.{◌≡◌, replicate}
use learning_directory.Volatile.{returned, run, start}
use learning_directory.Volatile.Counting.{tested, ten_alarms}

-- The tenth alarm ends the loop.
ten_alarms_example : run (tested (replicate 10 3)) start ≡ returned
ten_alarms_example = ten_alarms (replicate 10 3)
