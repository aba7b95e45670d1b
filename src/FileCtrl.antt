-- ===== src/FileCtrl.antt =====
-- The class `filectrl` of api/file_ctrl.cpp.
pub mod Fstream
pub mod Checks
pub mod Moving
use learning_directory.Base.{
  ℕ, zero, suc, List, [], ◌∷◌, ◌++◌, Bool, true, false, Option, none, some, Bytes, if◌then◌else◌,
}
use learning_directory.Base.Int.{ℤ, pos}
use learning_directory.FileCtrl.Fstream.{
  Stream, opened, tellg, peek, seekg_beg, seekg_end, seekg_cur,
}

-- `double`: the numbers, and the operations that the code applies to them.
pub record Double : Type 1 where
  pub num : Type 0
  pub of_int : ℤ → num
  pub sub : num → num → num
  pub mul : num → num → num
  pub div : num → num → num

-- `shown` are the numbers that have been printed, oldest first.
pub record FileCtrl (num : Type 0) : Type 0 where
  pub filesize : num
  pub lastpos : num
  pub filecontent : Stream
  pub shown : List num

module _ (D : Double) where
  open D use {num, of_int, sub, mul, div}

  -- `x/1024.0/1024.0`.
  abbrev pub megabytes : num → num
  megabytes x = div (div x (of_int (pos 1024))) (of_int (pos 1024))

  -- What `tellg` returns, as a double.
  abbrev pub where_at : FileCtrl num → num
  where_at f = of_int (tellg f.filecontent).0

  abbrev pub print : num → FileCtrl num → FileCtrl num
  print x f = record f { filecontent = (tellg f.filecontent).1; shown = f.shown ++ x ∷ [] }

  unfoldable pub computefilesize : FileCtrl num → FileCtrl num
  computefilesize f =
      let end = seekg_end f.filecontent in
      record f { filesize = of_int (tellg end).0; filecontent = seekg_beg (tellg end).1 }

  unfoldable pub showfilesize : FileCtrl num → FileCtrl num
  showfilesize f = record f { shown = f.shown ++ megabytes f.filesize ∷ [] }

  unfoldable pub getfilesentpercent : FileCtrl num → FileCtrl num
  getfilesentpercent f = print (div (mul (of_int (pos 100)) (where_at f)) f.filesize) f

  unfoldable pub getsentspeed : num → FileCtrl num → FileCtrl num
  getsentspeed last f = print (megabytes (sub (where_at f) last)) f

  unfoldable pub updatelastpos : FileCtrl num → FileCtrl num
  updatelastpos f = record f { lastpos = where_at f; filecontent = (tellg f.filecontent).1 }

  unfoldable pub routinecheck : FileCtrl num → FileCtrl num
  unfolding getfilesentpercent getsentspeed updatelastpos
  routinecheck f =
      let f = getfilesentpercent f in let f = getsentspeed f.lastpos f in updatelastpos f

  -- `none`: the process has ended by `exit(-1)`.
  abbrev pub after_peek : FileCtrl num → Option ℕ × Stream → Option (FileCtrl num)
  after_peek f (none, s) = none
  after_peek f (some c, s) = some (record f { filecontent = seekg_cur 150 s })

  unfoldable pub testmoving : FileCtrl num → Option (FileCtrl num)
  unfolding peek
  testmoving f = after_peek f (peek f.filecontent)

  -- The constructor: the file's bytes, if `open` succeeds. `junk` is what the numbers hold before.
  abbrev pub construct_on : num → Bytes → FileCtrl num
  construct_on junk content = showfilesize (
      computefilesize (record {
        filesize = junk;
        lastpos = of_int (pos 0);
        filecontent = opened content;
        shown = [];
      }))

  unfoldable pub construct_filectrl : num → Option Bytes → Option (FileCtrl num)
  unfolding showfilesize computefilesize
  construct_filectrl junk none = none
  construct_filectrl junk (some content) = some (construct_on junk content)

  -- What `main` of socket/sdr/my_sdr.cpp does each second: it peeks, and reports unless at the end.
  abbrev pub report_if : FileCtrl num → Option ℕ × Stream → FileCtrl num
  report_if f (none, s) = record f { filecontent = s }
  report_if f (some c, s) = routinecheck (record f { filecontent = s })

  unfoldable pub watch : FileCtrl num → FileCtrl num
  unfolding routinecheck
  watch f = report_if f (peek f.filecontent)
