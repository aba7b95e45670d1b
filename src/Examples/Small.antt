-- ===== src/Examples/Small.antt =====
-- Runs of libtest and c_str.
use learning_directory.Base.{◌≡◌, refl, [], ◌∷◌, some, arith, codes}
use learning_directory.Base.Int.{pos, negsuc}
use learning_directory.LibTest.{libtest_main, exits, undefined, show_int, atoi}
use learning_directory.LibTest.Sums.{libtest_main_lem, printed}
use learning_directory.CStr.{c_str_main}
use learning_directory.CStr.Copying.{c_str_main_lem}

-- A sign and spaces are read, and what follows the digits is not.
minus_twelve : atoi (codes " -12x") ≡ some (negsuc 11)
unfolding atoi
minus_twelve = refl

libtest_main_lem_example :
    (libtest_main (codes "libtest" ∷ show_int (pos 3) ∷ show_int (negsuc 4) ∷ [])
      ≡ printed (negsuc 1) (pos 8))
    × (libtest_main (codes "libtest" ∷ show_int (pos 3) ∷ []) ≡ undefined)
    × (libtest_main (codes "libtest" ∷ []) ≡ exits 1 (codes "usage: <./libtest int1 int2>\n" ∷ []))
libtest_main_lem_example = libtest_main_lem (codes "libtest") (pos 3) (negsuc 4) [] refl refl

c_str_main_lem_example :
    c_str_main (codes "ni hao")
    ≡ some (record {
      at_start = 110;
      at_end = 0;
      content_string = codes "ni hao";
      start_string = codes "ni hao";
      size = 7;
      temp_string = codes "ni hao";
    })
c_str_main_lem_example = c_str_main_lem (codes "ni hao") (omega arith) (omega arith)
