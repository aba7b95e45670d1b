-- ===== src/Examples/Objects.antt =====
-- Runs of copy-constructor/main.cpp.
use learning_directory.Base.{◌≡◌, [], arith, codes}
use learning_directory.CopyConstructor.Memory.{
  Memory, ok, fault, overflow, dangling, ◌>>=◌, ◌>>◌, delete_block,
}
use learning_directory.CopyConstructor.TestClass.{
  construct, copy_construct, show, copy_main, objects,
}
use learning_directory.CopyConstructor.Program.{objects_fault}
use learning_directory.CopyConstructor.Copies.{deep_copy}

-- `main` ends in its first statement: 12 bytes are written into a block of 10. With a longer block
-- it would come to its last one.
objects_fault_example :
    (objects 12 (codes "hello world") [] ≡ fault dangling) × (copy_main [] ≡ fault overflow)
objects_fault_example = objects_fault 12 (codes "hello world") [] (omega arith)

deep_copy_example :
    ((m' : Memory) × ((do
      x ← construct 10 (codes "hi")
      y ← copy_construct x
      delete_block x.str
      show y)
          []
        ≡ ok (codes "hi") m'))
    × ((m' : Memory) × ((do
      x ← construct 10 (codes "hi")
      y ← copy_construct x
      delete_block y.str
      show x)
            []
          ≡ ok (codes "hi") m'))
deep_copy_example =
    deep_copy 10 (codes "hi") [] (omega arith) ((λ e. omega arith), ((λ e. omega arith), tt))
