-- ===== src/Volatile/Counting.antt =====
-- When the loop of volatile/main.cpp ends.
use learning_directory.Base.{
  ℕ, zero, suc, ◌+◌, ◌-◌, ◌^◌, ◌<◌, ◌≡◌, refl, sym, ap, ◌∙◌, List, [], ◌∷◌, ◌++◌, replicate, length,
  ltb, if◌then◌else◌, arith, true, false, beq_ne, nat_eq, none, some, Bool-cases, inl, inr,
}
use learning_directory.Base.Int.{pos, negsuc}
use learning_directory.Volatile.{
  Main, looping, returned, Event, alarm, test, handled, alarm_handler, step, run, start,
}

-- Each alarm is followed by one test and by as many more as the list says.
abbrev pub tested : List ℕ → List Event
tested [] = []
tested (k ∷ ks) = alarm ∷ test ∷ replicate k test ++ tested ks

run_returned : (es : List Event) → run es returned ≡ returned
unfolding run step
run_returned [] = refl
run_returned (alarm ∷ es) = run_returned es
run_returned (test ∷ es) = run_returned es

test_inside :
    (t : ℕ) (es : List Event)
    → run (test ∷ es) (looping (pos (suc t))) ≡ run es (looping (pos (suc t)))
unfolding run step
test_inside t es =
    ap (λ b. run es (if b then returned else looping (pos (suc t))))
      (beq_ne (suc t) 0 (omega arith))

skip_tests :
    (k t : ℕ) (es : List Event)
    → run (replicate k test ++ es) (looping (pos (suc t))) ≡ run es (looping (pos (suc t)))
skip_tests zero t es = refl
skip_tests (suc k) t es = test_inside t (replicate k test ++ es) ∙ skip_tests k t es

abbrev pub counted : ℕ → ℕ → Main
counted t n = if ltb n t then looping (pos (t - n)) else returned

counted-suc : (t n : ℕ) → counted t n ≡ counted (suc t) (suc n)
counted-suc t n = elim (Bool-cases (ltb n t)) [
  | inl h ↦
      let g : ltb (suc n) (suc t) ≡ true = ground arith in
      (λ i. if h i then looping (pos (t - n)) else returned)
      ∙ ap (λ k. looping (pos k)) (omega arith)
      ∙ (λ i. if sym g i then looping (pos (suc t - suc n)) else returned)
  | inr h ↦
      let g : ltb (suc n) (suc t) ≡ false = ground arith in
      (λ i. if h i then looping (pos (t - n)) else returned)
      ∙ (λ i. if sym g i then looping (pos (suc t - suc n)) else returned)
]

counted_start : (t : ℕ) → looping (pos (suc t)) ≡ counted (suc t) 0
counted_start t =
    let g : ltb 0 (suc t) ≡ true = ground arith in rw g (ap (λ k. looping (pos k)) (omega arith))

counted_over : (n : ℕ) → returned ≡ counted 1 (suc n)
counted_over n = let g : ltb (suc n) 1 ≡ false = ground arith in rw g

counts_from :
    (t : ℕ) (ks : List ℕ) → run (tested ks) (looping (pos (suc t))) ≡ counted (suc t) (length ks)
unfolding run step alarm_handler
counts_from t [] = counted_start t
counts_from zero (k ∷ ks) = run_returned (replicate k test ++ tested ks) ∙ counted_over (length ks)
counts_from (suc t) (k ∷ ks) =
    test_inside t (replicate k test ++ tested ks)
    ∙ skip_tests k t (tested ks)
    ∙ counts_from t ks
    ∙ counted-suc (suc t) (length ks)

-- If at least one test follows each alarm, the loop ends with the tenth alarm and not before: after
-- `n` alarms, fewer than ten, `t` is `10 - n`.
pub ten_alarms : (ks : List ℕ) → run (tested ks) start ≡ counted 10 (length ks)
ten_alarms ks = counts_from 9 ks

abbrev pub alarms : List Event → ℕ
alarms [] = 0
alarms (alarm ∷ es) = suc (alarms es)
alarms (test ∷ es) = alarms es

below_zero :
    (es : List Event) (n : ℕ)
    → n + alarms es < 2 ^ 31
    → run es (looping (negsuc n)) ≡ looping (negsuc (n + alarms es))
unfolding run step alarm_handler
below_zero [] n h = ap (λ k. looping (negsuc k)) (omega arith)
below_zero (alarm ∷ es) n h =
    ap (λ b. run es (handled (if b then none else some (negsuc (suc n)))))
      (beq_ne n (2 ^ 31 - 1) (omega arith))
    ∙ below_zero es (suc n) (omega arith)
    ∙ ap (λ k. looping (negsuc k)) (omega arith)
below_zero (test ∷ es) n h = below_zero es n h

run-append : (xs ys : List Event) (m : Main) → run (xs ++ ys) m ≡ run ys (run xs m)
unfolding run
run-append [] ys m = refl
run-append (x ∷ xs) ys m = run-append xs ys (step x m)

two_alarms :
    (es : List Event) → run (alarm ∷ alarm ∷ es) (looping (pos 1)) ≡ run es (looping (negsuc 0))
unfolding run step alarm_handler
two_alarms es = refl

-- If the tenth and the eleventh alarm arrive without a test between them, then the loop goes on,
-- however many tests it makes and as long as fewer than 2^31 more alarms arrive: `t` has passed
-- zero and falls by one with each.
pub never_ends :
    (ks : List ℕ) (es : List Event)
    → length ks ≡ 9
    → alarms es < 2 ^ 31
    → run (tested ks ++ alarm ∷ alarm ∷ es) start ≡ looping (negsuc (alarms es))
never_ends ks es nine few =
    run-append (tested ks) (alarm ∷ alarm ∷ es) start
    ∙ ap (run (alarm ∷ alarm ∷ es)) (counts_from 9 ks ∙ ap (counted 10) nine)
    ∙ two_alarms es
    ∙ below_zero es 0 (omega arith)
    ∙ ap (λ k. looping (negsuc k)) (omega arith)
