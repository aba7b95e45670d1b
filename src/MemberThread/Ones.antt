-- ===== src/MemberThread/Ones.antt =====
-- The numbers that the threads of memberfun_threading/memberfun_threading.cpp read while `t` is
-- there.
use learning_directory.Base.{
  ℕ, ◌≡◌, refl, sym, ◌∙◌, ap, [], ◌∷◌, Bool, true, false, Option, none, some, ltb, get_elem?, set,
  All, All-append, All-set, All-get_elem?, if_case, ◌⊎◌, inl, inr,
}
use mathlib.Core.Path.{subst}
use learning_directory.Base.Int.{ℤ, pos}
use learning_directory.MemberThread.{
  Line, now_create, get_p, now_do, hello_world, now_exit, Task, creating_line, getting, calling,
  doing, greeting, exiting, ended, Main, testing, assigning_p, assigning_q, creating, sleeping,
  returned, World, prints, thread_function, main_thread, Turn, main_turn, thread_turn, turn, over,
}

abbrev one : Option ℤ
one = some (pos 1)

abbrev pub SaysOne : Line → Type 0
SaysOne now_create = Unit
SaysOne (get_p v) = v ≡ one
SaysOne now_do = Unit
SaysOne (hello_world v) = v ≡ one
SaysOne now_exit = Unit

abbrev HoldsOne : Task → Type 0
HoldsOne creating_line = Unit
HoldsOne getting = Unit
HoldsOne calling = Unit
HoldsOne (doing r) = r ≡ one
HoldsOne (greeting r) = r ≡ one
HoldsOne exiting = Unit
HoldsOne ended = Unit

-- Between its write of `p` and the creation of the thread, `main` leaves `p` alone.
abbrev Written : Main → Option ℤ → Type 0
Written (assigning_q i) p = p ≡ one
Written (creating i) p = p ≡ one
Written (testing i) p = Unit
Written (assigning_p i) p = Unit
Written (sleeping i) p = Unit
Written returned p = Unit

pub record HasOnes (w : World) : Type 0 where
  pub printed : All SaysOne w.printed
  pub held : All HoldsOne w.threads
  pub written : Written w.main w.t.p
  pub known : (w.threads ≡ []) ⊎ (w.t.p ≡ one)

-- Where there is a thread, `p` has been written.
p_known : (w : World) (i : ℕ) (k : Task) → HasOnes w → get_elem? w.threads i ≡ some k → w.t.p ≡ one
p_known w i k h e = elim h.known [
  | inl none_yet ↦
      absurd (let q : none ≡ some k = ap (λ ts. get_elem? ts i) (sym none_yet) ∙ e in cc)
  | inr is_one ↦ is_one
]

module _ (w : World) (i : ℕ) (k : Task) (h : HasOnes w) (e : get_elem? w.threads i ≡ some k) where
  moves-HasOnes : (u : Task) → HoldsOne u → HasOnes (record w { threads = set w.threads i u })
  moves-HasOnes u ok = record {
    printed = h.printed;
    held = All-set HoldsOne w.threads i u h.held ok;
    written = h.written;
    known = inr (p_known w i k h e);
  }

  prints-HasOnes : (l : Line) (u : Task) → SaysOne l → HoldsOne u → HasOnes (prints i l u w)
  prints-HasOnes l u says ok = record {
    printed = All-append SaysOne w.printed (l ∷ []) h.printed (says, tt);
    held = All-set HoldsOne w.threads i u h.held ok;
    written = h.written;
    known = inr (p_known w i k h e);
  }

thread_function-HasOnes :
    (i : ℕ) (o : Option Task) (w : World)
    → get_elem? w.threads i ≡ o
    → HasOnes w
    → HasOnes (thread_function i o w)
unfolding thread_function
thread_function-HasOnes i (some creating_line) w e h =
    prints-HasOnes w i creating_line h e now_create getting tt tt
thread_function-HasOnes i (some getting) w e h =
    prints-HasOnes w i getting h e (get_p w.t.p) calling (p_known w i getting h e) tt
thread_function-HasOnes i (some calling) w e h =
    moves-HasOnes w i calling h e (doing w.t.p) (p_known w i calling h e)
thread_function-HasOnes i (some (doing r)) w e h =
    prints-HasOnes w i (doing r) h e now_do (greeting r) tt
      (All-get_elem? HoldsOne w.threads i (doing r) h.held e)
thread_function-HasOnes i (some (greeting r)) w e h =
    prints-HasOnes w i (greeting r) h e (hello_world r) exiting
      (All-get_elem? HoldsOne w.threads i (greeting r) h.held e) tt
thread_function-HasOnes i (some exiting) w e h = prints-HasOnes w i exiting h e now_exit ended tt tt
thread_function-HasOnes i (some ended) w e h = h
thread_function-HasOnes i none w e h = h

-- A thread that has just been made holds nothing yet.
made-HasOnes :
    (ok : Bool) (i : ℕ) (w : World)
    → w.t.p ≡ one
    → HasOnes w
    → HasOnes (main_thread ok (creating i) w)
unfolding main_thread
made-HasOnes true i w is_one h = record {
  printed = h.printed;
  held = All-append HoldsOne w.threads (creating_line ∷ []) h.held (tt, tt);
  written = tt;
  known = inr is_one;
}
made-HasOnes false i w is_one h = record {
  printed = h.printed;
  held = h.held;
  written = tt;
  known = h.known;
}

abbrev WhileThere : World → Type 0
WhileThere w = over w.main ≡ false → HasOnes w

main_thread-HasOnes :
    (ok : Bool) (m : Main) (w : World) → w.main ≡ m → WhileThere w → WhileThere (main_thread ok m w)
unfolding main_thread
main_thread-HasOnes ok (testing i) w e h =
    if_case WhileThere (ltb i 5) _ _
      (λ _ _.
        let g = h (ap over e) in
        record { printed = g.printed; held = g.held; written = tt; known = g.known })
      λ _ gone. absurd (cc)
main_thread-HasOnes ok (assigning_p i) w e h = λ _.
    let g = h (ap over e) in
    record { printed = g.printed; held = g.held; written = refl; known = inr refl }
main_thread-HasOnes ok (assigning_q i) w e h = λ _.
    let g = h (ap over e) in
    record {
      printed = g.printed;
      held = g.held;
      written = subst (λ m. Written m w.t.p) e g.written;
      known = g.known;
    }
main_thread-HasOnes ok (creating i) w e h =
    λ _. let g = h (ap over e) in made-HasOnes ok i w (subst (λ m. Written m w.t.p) e g.written) g
main_thread-HasOnes ok (sleeping i) w e h = λ _.
    let g = h (ap over e) in
    record { printed = g.printed; held = g.held; written = tt; known = g.known }
main_thread-HasOnes ok returned w e h = h

-- The threads leave the place of `main` alone.
same_main : (i : ℕ) (o : Option Task) (w : World) → (thread_function i o w).main ≡ w.main
unfolding thread_function
same_main i (some creating_line) w = refl
same_main i (some getting) w = refl
same_main i (some calling) w = refl
same_main i (some (doing r)) w = refl
same_main i (some (greeting r)) w = refl
same_main i (some exiting) w = refl
same_main i (some ended) w = refl
same_main i none w = refl

pub turn-HasOnes : (e : Turn) (w : World) → WhileThere w → WhileThere (turn e w)
unfolding turn
turn-HasOnes (main_turn ok) w h = main_thread-HasOnes ok w.main w refl h
turn-HasOnes (thread_turn i) w h = λ there.
    let at_i = get_elem? w.threads i in
    thread_function-HasOnes i at_i w refl (h (sym (ap over (same_main i at_i w)) ∙ there))
