-- ===== src/Features/Statics.antt =====
-- static/main.cpp and static/function.h: a static variable, a static member and static functions.
use learning_directory.Base.{
  ◌≡◌, refl, List, [], ◌∷◌, ◌++◌, Option, none, some, if◌then◌else◌, ◌==◌,
}
use learning_directory.Base.Int.{ℤ, pos, int_eq}

-- What the program prints.
data Line : Type 0 where
  static_function : Line
  static_value : ℤ → Line
  constructor : Line
  destructor : Line
  svalue_of : ℤ → Line
  an_input : ℤ → Line
  no_input : ℤ → Line

-- The object of class `test`; its member is not written by the constructor.
record Test : Type 0 where
  pub dvalue : Option ℤ

-- `value`, the one `test::_svalue` of all objects, and what has been printed.
record StaticState : Type 0 where
  pub value : ℤ
  pub svalue : ℤ
  pub printed : List Line

abbrev start : StaticState
start = record { value = pos 10; svalue = pos 10; printed = [] }

abbrev print : Line → StaticState → StaticState
print l v = record v { printed = v.printed ++ l ∷ [] }

unfoldable global_function : StaticState → StaticState
global_function = print static_function

unfoldable construct : StaticState → Test × StaticState
construct v = (record { dvalue = none }, print constructor v)

unfoldable destruct_test : Test → StaticState → StaticState
destruct_test t = print destructor

-- `test::function`, with 0 where no argument is given.
unfoldable function : ℤ → StaticState → StaticState
function j v = if j == pos 0 then print (no_input v.svalue) v else print (an_input j) v

unfoldable statics_main : StaticState → StaticState
unfolding global_function construct destruct_test function
statics_main v =
    let v = global_function v in
    let v = print (static_value v.value) v in
    let (testclass1, v) = construct v in
    let (testclass2, v) = construct v in
    let v : StaticState = record v { svalue = pos 20 } in
    let v = print (svalue_of v.svalue) v in
    let v = print (svalue_of v.svalue) v in
    let testclass1 : Test = record testclass1 { dvalue = some (pos 40) } in
    let testclass2 : Test = record testclass2 { dvalue = some (pos 80) } in
    let v = function (pos 0) v in
    let v = function (pos 0) v in
    let v = function (pos 40) v in
    let v = function (pos 80) v in let v = destruct_test testclass2 v in destruct_test testclass1 v

-- What is written through one object is read through the other.
statics_printed :
    (statics_main start).printed
    ≡ static_function
      ∷ static_value (pos 10)
      ∷ constructor
      ∷ constructor
      ∷ svalue_of (pos 20)
      ∷ svalue_of (pos 20)
      ∷ no_input (pos 20)
      ∷ no_input (pos 20)
      ∷ an_input (pos 40)
      ∷ an_input (pos 80)
      ∷ destructor
      ∷ destructor
      ∷ []
unfolding statics_main
statics_printed = refl
