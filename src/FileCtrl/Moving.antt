-- ===== src/FileCtrl/Moving.antt =====
-- `testmoving` of api/file_ctrl.cpp, called again and again.
use learning_directory.Base.{
  ℕ, zero, suc, ◌+◌, ◌*◌, ◌<◌, ◌≤◌, ◌≡◌, refl, sym, ap, ◌∙◌, [], ◌∷◌, Option, none, some, Bytes,
  length, get_elem?, ltb, if◌then◌else◌, Bool-cases, inl, inr, arith,
}
use learning_directory.FileCtrl.Fstream.{peek, peeked, seekg_cur}
use learning_directory.FileCtrl.{
  Double, FileCtrl, megabytes, testmoving, after_peek, construct_filectrl,
}
use learning_directory.FileCtrl.Checks.{byte_at, at_pos, size, looked, construct_lem}

no_byte : (bs : Bytes) (p : ℕ) → length bs ≤ p → get_elem? bs p ≡ none
no_byte [] p h = refl
no_byte (b ∷ bs) zero h = absurd (omega arith)
no_byte (b ∷ bs) (suc p) h = no_byte bs p (omega arith)

module _ (D : Double) where
  open D use {num}

  abbrev pub and_move :
      (FileCtrl num → Option (FileCtrl num)) → Option (FileCtrl num) → Option (FileCtrl num)
  and_move k none = none
  and_move k (some f) = k f

  unfoldable pub moves : ℕ → FileCtrl num → Option (FileCtrl num)
  unfolding testmoving
  moves zero f = some f
  moves (suc k) f = and_move (moves k) (testmoving D f)

  module _ (content : Bytes) (f : FileCtrl num) where
    abbrev moved_to : ℕ → FileCtrl num
    moved_to p = record f { filecontent = at_pos content p }

    testmoving_inside :
        (p : ℕ) → p < length content → testmoving D (moved_to p) ≡ some (moved_to (p + 150))
    unfolding testmoving peek seekg_cur
    testmoving_inside p h =
        let (c, e) = byte_at content p h in
        ap (λ o. after_peek D (moved_to p) (peeked o (at_pos content p))) e

    testmoving_outside : (p : ℕ) → length content ≤ p → testmoving D (moved_to p) ≡ none
    unfolding testmoving peek
    testmoving_outside p h =
        ap (λ o. after_peek D (moved_to p) (peeked o (at_pos content p))) (no_byte content p h)

    moves_inside :
        (k p : ℕ)
        → p + 150 * k < length content
        → moves (suc k) (moved_to p) ≡ some (moved_to (p + 150 * suc k))
    unfolding moves
    moves_inside zero p h =
        ap (and_move (moves 0)) (testmoving_inside p (omega arith))
        ∙ ap (λ q. some (moved_to q)) (omega arith)
    moves_inside (suc k) p h =
        ap (and_move (moves (suc k))) (testmoving_inside p (omega arith))
        ∙ moves_inside k (p + 150) (omega arith)
        ∙ ap (λ q. some (moved_to q)) (omega arith)

    moves_outside : (k p : ℕ) → length content ≤ p + 150 * k → moves (suc k) (moved_to p) ≡ none
    unfolding moves
    moves_outside zero p h = ap (and_move (moves 0)) (testmoving_outside p (omega arith))
    moves_outside (suc k) p h = elim (Bool-cases (ltb p (length content))) [
      | inl t ↦
          ap (and_move (moves (suc k))) (testmoving_inside p (ground arith))
          ∙ moves_outside k (p + 150) (omega arith)
      | inr g ↦ ap (and_move (moves (suc k))) (testmoving_outside p (ground arith))
    ]

    moves_start :
        (k : ℕ)
        → moves (suc k) (moved_to 0)
          ≡ (if ltb (150 * k) (length content) then some (moved_to (150 * suc k)) else none)
    moves_start k = elim (Bool-cases (ltb (150 * k) (length content))) [
      | inl t ↦
          moves_inside k 0 (ground arith) ∙ λ i. if sym t i then some (moved_to (same i)) else none
      | inr g ↦ moves_outside k 0 (ground arith) ∙ λ i.
          if sym g i then some (moved_to (150 * suc k)) else none
    ]
      where
        same : 0 + 150 * suc k ≡ 150 * suc k
        same = omega arith

  -- Of `k + 1` calls of `testmoving` on a new object all return exactly when `150 * k` is less than
  -- the size of the file: then the stream is at `150 * (k + 1)`, up to 149 bytes behind the end.
  -- Otherwise the process has ended.
  pub moves_lem :
      (junk : num) (content : Bytes) (k : ℕ)
      → and_move (moves (suc k)) (construct_filectrl D junk (some content)) ≡ (
          if ltb (150 * k) (length content)
          then some (record (looked D content 0 (megabytes D (size D content) ∷ [])) {
            filecontent = at_pos content (150 * suc k);
          })
          else none)
  moves_lem junk content k =
      ap (and_move (moves (suc k))) (construct_lem D content junk)
      ∙ moves_start content (looked D content 0 (megabytes D (size D content) ∷ [])) k
