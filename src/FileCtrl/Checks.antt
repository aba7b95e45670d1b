-- ===== src/FileCtrl/Checks.antt =====
-- The reports of `routinecheck` in api/file_ctrl.cpp, as `main` of socket/sdr/my_sdr.cpp calls it while
-- the file is read.
use mathlib.Core.Option
use learning_directory.Base.{
  ℕ, zero, suc, ◌+◌, ◌^◌, ◌<◌, ◌≤◌, ◌≡◌, refl, sym, ap, ◌∙◌, List, [], ◌∷◌, ◌++◌, append_assoc,
  append-nil, false, some, Bytes, length, get_elem?, arith,
}
use learning_directory.Base.Int.{pos}
use learning_directory.FileCtrl.Fstream.{
  Stream, tellg, peek, peeked, read_one, got_char, seekg_beg, seekg_end,
}
use learning_directory.FileCtrl.{
  Double, FileCtrl, megabytes, routinecheck, watch, report_if, construct_filectrl, computefilesize,
  showfilesize, getfilesentpercent, getsentspeed, updatelastpos,
}

pub byte_at : (bs : Bytes) (p : ℕ) → p < length bs → (c : ℕ) × (get_elem? bs p ≡ some c)
byte_at [] p h = absurd (omega arith)
byte_at (b ∷ bs) zero h = (b, refl)
byte_at (b ∷ bs) (suc p) h = byte_at bs p (omega arith)

-- A good stream of these bytes at this position.
abbrev pub at_pos : Bytes → ℕ → Stream
at_pos content p = record { content = content; at = p; eof = false; fail = false }

read_one_lem :
    (content : Bytes) (p : ℕ)
    → p < length content
    → (read_one (at_pos content p)).1 ≡ at_pos content (p + 1)
unfolding read_one
read_one_lem content p h =
    let (c, e) = byte_at content p h in ap (λ o. (got_char o (at_pos content p)).1) e

-- `n` bytes read, as the threads of `sending_thread` make them.
unfoldable pub reads : ℕ → Stream → Stream
unfolding read_one
reads zero s = s
reads (suc n) s = reads n (read_one s).1

reads_lem :
    (n p : ℕ) (content : Bytes)
    → p + n ≤ length content
    → reads n (at_pos content p) ≡ at_pos content (p + n)
unfolding reads
reads_lem zero p content h = ap (at_pos content) (omega arith)
reads_lem (suc n) p content h =
    ap (reads n) (read_one_lem content p (omega arith))
    ∙ reads_lem n (p + 1) content (omega arith)
    ∙ ap (at_pos content) (omega arith)

abbrev pub total : List ℕ → ℕ
total [] = 0
total (n ∷ ns) = n + total ns

module _ (D : Double) where
  open D use {num, of_int, sub, mul, div}

  -- For each number of the list, that many bytes are read, and then `main` looks at the file.
  unfoldable pub rounds : List ℕ → FileCtrl num → FileCtrl num
  unfolding watch reads
  rounds [] f = f
  rounds (n ∷ ns) f = rounds ns (watch D (record f { filecontent = reads n f.filecontent }))

  -- The numbers of small integers are subtracted exactly.
  abbrev pub IsExact : Type 0
  IsExact =
      (a b : ℕ) → a + b < 2 ^ 53 → sub (of_int (pos (a + b))) (of_int (pos a)) ≡ of_int (pos b)

  module _ (content : Bytes) where
    abbrev pub size : num
    size = of_int (pos (length content))

    abbrev pub percent : ℕ → num
    percent p = div (mul (of_int (pos 100)) (of_int (pos p))) size

    -- What a look at the file prints at `p`, `n` bytes after the last one.
    abbrev pub reported : ℕ → ℕ → List num
    reported p n = percent p ∷ megabytes D (of_int (pos n)) ∷ []

    abbrev pub reports : ℕ → List ℕ → List num
    reports p [] = []
    reports p (n ∷ ns) = reported (p + n) n ++ reports (p + n) ns

    -- The object after a look at `p`.
    abbrev pub looked : ℕ → List num → FileCtrl num
    looked p shown = record {
      filesize = size;
      lastpos = of_int (pos p);
      filecontent = at_pos content p;
      shown = shown;
    }

    watch_lem :
        (p n : ℕ) (shown : List num)
        → IsExact
        → p + n < length content
        → p + n < 2 ^ 53
        → watch D (record (looked p shown) { filecontent = at_pos content (p + n) })
          ≡ looked (p + n) (shown ++ reported (p + n) n)
    unfolding watch routinecheck getfilesentpercent getsentspeed updatelastpos peek tellg
    watch_lem p n shown exact h small =
        let (c, e) = byte_at content (p + n) h in
        ap
          (λ o.
            report_if D (record (looked p shown) { filecontent = at_pos content (p + n) })
              (peeked o (at_pos content (p + n))))
          e
        ∙ ap (λ x. looked (p + n) ((shown ++ percent (p + n) ∷ []) ++ megabytes D x ∷ []))
            (exact p n small)
        ∙ ap (looked (p + n))
            (append_assoc shown (percent (p + n) ∷ []) (megabytes D (of_int (pos n)) ∷ []))

    rounds_from :
        (ns : List ℕ) (p : ℕ) (shown : List num)
        → IsExact
        → p + total ns < length content
        → length content < 2 ^ 53
        → rounds ns (looked p shown) ≡ looked (p + total ns) (shown ++ reports p ns)
    unfolding rounds
    rounds_from [] p shown exact h small = λ i. looked (p_zero i) (sym (append-nil shown) i)
      where
        p_zero : p ≡ p + 0
        p_zero = omega arith
    rounds_from (n ∷ ns) p shown exact h small =
        ap (λ s. rounds ns (watch D (record (looked p shown) { filecontent = s })))
          (reads_lem n p content (omega arith))
        ∙ ap (rounds ns) (watch_lem p n shown exact (omega arith) (omega arith))
        ∙ rounds_from ns (p + n) (shown ++ reported (p + n) n) exact (omega arith) small
        ∙ λ i. looked (further i) (append_assoc shown (reported (p + n) n) (reports (p + n) ns) i)
      where
        further : p + n + total ns ≡ p + (n + total ns)
        further = omega arith

    pub construct_lem :
        (junk : num)
        → construct_filectrl D junk (some content) ≡ some (looked 0 (megabytes D size ∷ []))
    unfolding construct_filectrl computefilesize showfilesize seekg_beg seekg_end tellg
    construct_lem junk = refl

    -- A file of fewer than 2^53 bytes, of which the given numbers of bytes are read in turn, fewer
    -- than all in total, with a look of `main` after each: if doubles subtract such integers
    -- exactly, the object has printed the size, and for each look the percentage of the position
    -- and the megabytes read since the look before; its last position and its stream are at the
    -- total.
    pub rounds_lem :
        (junk : num) (ns : List ℕ)
        → IsExact
        → total ns < length content
        → length content < 2 ^ 53
        → Option.map (rounds ns) (construct_filectrl D junk (some content))
          ≡ some (looked (total ns) (megabytes D size ∷ reports 0 ns))
    rounds_lem junk ns exact h small =
        ap (Option.map (rounds ns)) (construct_lem junk)
        ∙ ap some (rounds_from ns 0 (megabytes D size ∷ []) exact (omega arith) small)
        ∙ ap (λ p. some (looked p (megabytes D size ∷ reports 0 ns))) (omega arith)
