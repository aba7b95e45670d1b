-- ===== src/System/Handler.antt =====
-- `sigchld_handler` of system_function/main.cpp.
use learning_directory.Base.{
  ℕ, zero, suc, ◌≡◌, ◌<◌, refl, sym, ap, ◌∙◌, List, [], ◌∷◌, true, Option, none, some,
  if◌then◌else◌, length, arith, All, if_case,
}
use mathlib.Core.Path.{subst}
use mathlib.Core.Bool.{true≢false}
use learning_directory.Base.Int.{ℤ, pos, ltb_ℤ}
use learning_directory.System.Kernel.{Kernel}

module _ (K : Kernel) where
  open K use {State, ended, running, wait_any}

  abbrev pub printing : ℤ → Option (List ℤ × State) → Option (List ℤ × State)
  printing p none = none
  printing p (some (ps, s)) = some (p ∷ ps, s)

  -- The loop on fuel: the processes printed, and the state it leaves.
  unfoldable pub sigchld_handler : ℕ → State → Option (List ℤ × State)
  sigchld_handler zero s = none
  sigchld_handler (suc n) s =
      let rest = printing (wait_any s).0 (sigchld_handler n (wait_any s).1) in
      if ltb_ℤ (pos 0) (wait_any s).0 then rest else some ([], (wait_any s).1)

  abbrev pub pids : List ℕ → List ℤ
  pids [] = []
  pids (p ∷ ps) = pos p ∷ pids ps

  abbrev pub Reaps : List ℕ → State → Option (List ℤ × State) → Type 0
  Reaps ps s none = ⊥
  Reaps ps s (some (printed, s')) = (printed ≡ pids ps) × (ended s' ≡ []) × (running s' ≡ running s)

  prints_one :
      (p : ℕ) (ps : List ℕ) (r : ℤ) (s t : State) (o : Option (List ℤ × State))
      → r ≡ pos p
      → running t ≡ running s
      → Reaps ps t o
      → Reaps (p ∷ ps) s (printing r o)
  prints_one p ps r s t none e same h = h
  prints_one p ps r s t (some (printed, s')) e same h = ((λ i. e i ∷ h.0 i), h.1, h.2 ∙ same)

  positive : (s : State) (p : ℕ) (ps : List ℕ) → ended s ≡ p ∷ ps → 0 < p
  positive s p ps e = (subst (All (λ q. 0 < q)) e (K.ended_positive s)).0

  Reaps-all :
      (ps : List ℕ) (n : ℕ) (s : State)
      → ended s ≡ ps
      → length ps < n
      → Reaps ps s (sigchld_handler n s)
  unfolding sigchld_handler
  Reaps-all [] zero s e h = absurd (omega arith)
  Reaps-all [] (suc n) s e h =
      let k = K.wait_any_none s e in
      if_case (Reaps [] s) (ltb_ℤ (pos 0) (wait_any s).0) _ _
        (λ t. absurd (true≢false (sym t ∙ k.0))) λ _. (refl, ap ended k.1 ∙ e, ap running k.1)
  Reaps-all (p ∷ ps) zero s e h = absurd (omega arith)
  Reaps-all (p ∷ ps) (suc n) s e h =
      let k = K.wait_any-ended s p ps e in
      let more : ltb_ℤ (pos 0) (pos p) ≡ true = let q = positive s p ps e in ground arith in
      if_case (Reaps (p ∷ ps) s) (ltb_ℤ (pos 0) (wait_any s).0) _ _
        (λ _.
          prints_one p ps (wait_any s).0 s (wait_any s).1 (sigchld_handler n (wait_any s).1) k.0 k.2
            (Reaps-all ps n (wait_any s).1 k.1 (omega arith)))
        λ f. absurd (true≢false (sym more ∙ sym (ap (ltb_ℤ (pos 0)) k.0) ∙ f))

  -- `sigchld_handler`, with one round more than there are ended children, returns: it has printed
  -- each of them once, in the order in which `waitpid` gives them, none is left, and the running
  -- children are as they were.
  pub handler-Reaps :
      (n : ℕ) (s : State) → length (ended s) < n → Reaps (ended s) s (sigchld_handler n s)
  handler-Reaps n s h = Reaps-all (ended s) n s refl h
