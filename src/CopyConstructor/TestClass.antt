-- ===== src/CopyConstructor/TestClass.antt =====
-- `testclass` of copy-constructor/main.cpp. The destructor is empty.
use learning_directory.Base.{ℕ, List, [], ◌∷◌, none, Bytes, codes}
use learning_directory.CopyConstructor.Memory.{
  ok, Cmd, ◌>>=◌, ◌>>◌, Ptr, new_chars, strcpy, read_string, delete_block,
}

pub record TestClass : Type 0 where
  pub a : ℕ
  pub str : Ptr

abbrev pub pure : {A : Type 0} → A → Cmd A
pure a m = ok a m

unfoldable pub construct : ℕ → Bytes → Cmd TestClass
unfolding new_chars strcpy
construct b cstr = do str ← new_chars b; strcpy str cstr; pure (record { a = b; str = str })

unfoldable pub copy_construct : TestClass → Cmd TestClass
unfolding new_chars strcpy read_string
copy_construct test1 = do
  str ← new_chars test1.a
  cstr ← read_string test1.str
  strcpy str cstr
  pure (record { a = test1.a; str = str })

unfoldable pub show : TestClass → Cmd Bytes
show t = read_string t.str

-- `Delete`: the block is deleted, and then printed.
unfoldable pub delete_str : TestClass → Cmd (Bytes × TestClass)
unfolding delete_block read_string
delete_str t = do
  delete_block t.str
  shown ← read_string t.str
  pure (shown, record t { str = none })

-- The statements of `main`, with its size and its string as arguments.
unfoldable pub objects : ℕ → Bytes → Cmd (List Bytes)
unfolding construct copy_construct show delete_str
objects b cstr = do
  x ← construct b cstr
  y ← copy_construct x
  shown ← show y
  deleted ← delete_str y
  pure (shown ∷ deleted.0 ∷ [])

unfoldable pub copy_main : Cmd (List Bytes)
unfolding objects
copy_main = objects 10 (codes "hello world")
