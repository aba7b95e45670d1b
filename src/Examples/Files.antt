-- ===== src/Examples/Files.antt =====
-- A file under `filectrl`, with integers in the place of doubles.
use learning_directory.Base.{◌*◌, ◌/◌, ◌≡◌, [], ◌∷◌, some, codes, arith}
use learning_directory.Base.Int.{ℤ, pos, pos_part, ◌-ℤ◌}
use learning_directory.FileCtrl.{Double, construct_filectrl}
use learning_directory.FileCtrl.Checks.{IsExact, rounds, rounds_lem, at_pos}
use mathlib.Core.Option

abbrev whole : Double
whole = record {
  num = ℤ;
  of_int = λ n. n;
  sub = λ x y. x -ℤ y;
  mul = λ x y. pos (pos_part x * pos_part y);
  div = λ x y. pos (pos_part x / pos_part y);
}

whole-IsExact : IsExact whole
whole-IsExact a b h = ground arith

-- Three bytes are read, then four, of eight.
rounds_lem_example :
    Option.map
      (rounds whole (3 ∷ 4 ∷ []))
      (construct_filectrl whole (pos 0) (some (codes "filectrl")))
    ≡ some (record {
      filesize = pos 8;
      lastpos = pos 7;
      filecontent = at_pos (codes "filectrl") 7;
      shown = pos 0 ∷ pos 37 ∷ pos 0 ∷ pos 87 ∷ pos 0 ∷ [];
    })
rounds_lem_example =
    rounds_lem whole (codes "filectrl") (pos 0) (3 ∷ 4 ∷ []) whole-IsExact (omega arith)
      (omega arith)
