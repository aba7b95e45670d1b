-- ===== src/CopyConstructor/Program.antt =====
-- `main` of copy-constructor/main.cpp, with any size and any string.
use learning_directory.Base.{
  ℕ, ◌≡◌, ◌≢◌, ◌≤◌, ◌<◌, sym, ap, ◌∙◌, List, [], ◌∷◌, Bool, Bytes, codes, length, leb,
  if◌then◌else◌, Bool-cases, inl, inr, All, arith, replicate, none,
}
use learning_directory.CopyConstructor.Memory.{
  Fault, overflow, dangling, Memory, fault, Cmd, and_then, ◌>>=◌,
}
use learning_directory.CopyConstructor.Memory.Laws.{read_string-holding}
use learning_directory.CopyConstructor.TestClass.{
  TestClass, pure, copy_construct, show, delete_str, objects, copy_main,
}
use learning_directory.CopyConstructor.Copies.{object, both, second, two_objects, second_there}
use learning_directory.CopyConstructor.Faults.{construct_overflows, delete_faults}

-- What `main` does with its two objects.
abbrev uses : TestClass → TestClass → Cmd (List Bytes)
uses x y = do shown ← show y; deleted ← delete_str y; pure (shown ∷ deleted.0 ∷ [])

abbrev blamed : Bool → Fault
blamed long = if long then overflow else dangling

module _ (n : ℕ) (s : Bytes) (m : Memory) where
  objects_long : n ≤ length s → objects n s m ≡ fault overflow
  unfolding objects
  objects_long h =
      ap (λ r. and_then r λ x m'. and_then (copy_construct x m') λ y. uses x y)
        (construct_overflows n s m h)

  objects_short : length s < n → All (λ c. c ≢ 0) s → objects n s m ≡ fault dangling
  unfolding objects show
  objects_short h z =
      two_objects n s m h z uses
      ∙ ap
          (λ r. and_then r λ shown m'.
            and_then (delete_str (object n (second n s m)) m')
              λ deleted. pure (shown ∷ deleted.0 ∷ []))
          (read_string-holding s (second n s m) (replicate n none) (both n s m)
            (second_there n s m h z) z)
      ∙ ap (λ r. and_then r λ deleted. pure (s ∷ deleted.0 ∷ []))
          (delete_faults (object n (second n s m)) (both n s m))

main_overflows : (m : Memory) → copy_main m ≡ fault overflow
unfolding copy_main
main_overflows m = objects_long 10 (codes "hello world") m (omega arith)

-- The statements of `main` with any size and any string without zeros always come to undefined
-- behaviour: where the string is at least as long as the size, `strcpy` writes behind the end of
-- the new block; otherwise `Delete` uses the block that it has deleted. `main` itself ends in the
-- first way.
pub objects_fault :
    (n : ℕ) (s : Bytes) (m : Memory)
    → All (λ c. c ≢ 0) s
    → (objects n s m ≡ fault (if leb n (length s) then overflow else dangling))
      × (copy_main m ≡ fault overflow)
objects_fault n s m z = (
  elim (Bool-cases (leb n (length s))) [
    | inl long ↦
        let h : n ≤ length s = ground arith in
        objects_long n s m h ∙ ap (λ b. fault (blamed b)) (sym long)
    | inr short ↦
        let h : length s < n = ground arith in
        objects_short n s m h z ∙ ap (λ b. fault (blamed b)) (sym short)
  ],
  main_overflows m,
)
