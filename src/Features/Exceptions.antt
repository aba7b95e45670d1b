-- ===== src/Features/Exceptions.antt =====
-- try-catch/main.cpp: objects that print when they are made and destroyed, and a thrown one.
use learning_directory.Base.{◌≡◌, refl, List, [], ◌∷◌, ◌++◌, Bytes, codes}

data Line : Type 0 where
  made : Bytes → Line
  destroyed : Bytes → Line
  throwing : Line
  caught : Line

-- `ExceptionClass`.
record ExceptionClass : Type 0 where
  pub name : Bytes

-- How a statement ends: with its value, or with the object that it throws.
data Ending (A : Type 0) : Type 0 where
  returned : A → Ending A
  threw : ExceptionClass → Ending A

abbrev Cmd : Type 0 → Type 0
Cmd A = List Line → Ending A × List Line

infixl 5 ◌>>=◌ ◌>>◌
abbrev then_do : {A B : Type 0} → Ending A → List Line → (A → Cmd B) → Ending B × List Line
then_do (returned a) ls k = k a ls
then_do (threw e) ls k = (threw e, ls)

abbrev ◌>>=◌ : {A B : Type 0} → Cmd A → (A → Cmd B) → Cmd B
◌>>=◌ m k ls = let (o, ls) = m ls in then_do o ls k

abbrev ◌>>◌ : {B : Type 0} → Cmd (Unit {0}) → Cmd B → Cmd B
m >> k = m >>= λ _. k

abbrev print : Line → Cmd (Unit {0})
print l ls = (returned tt, ls ++ l ∷ [])

unfoldable construct : Bytes → Cmd ExceptionClass
construct name ls = (returned (record { name = name }), ls ++ made name ∷ [])

unfoldable destruct : ExceptionClass → Cmd (Unit {0})
destruct e = print (destroyed e.name)

-- `throw` with an object.
abbrev throw : {A : Type 0} → ExceptionClass → Cmd A
throw e ls = (threw e, ls)

unfoldable mythrow : ExceptionClass → Cmd (Unit {0})
unfolding construct
mythrow this = do print throwing; e ← construct (codes "my throw"); throw e

-- `try` with `catch (...)`: the thrown object is destroyed at the end of the handler.
abbrev handle : Cmd (Unit {0}) → Ending (Unit {0}) × List Line → Ending (Unit {0}) × List Line
handle handler (returned u, ls) = (returned u, ls)
handle handler (threw e, ls) = (handler >> destruct e) ls

abbrev try_catch : Cmd (Unit {0}) → Cmd (Unit {0}) → Cmd (Unit {0})
try_catch body handler ls = handle handler (body ls)

unfoldable exceptions_main : Cmd (Unit {0})
unfolding construct destruct mythrow
exceptions_main = do e ← construct (codes "Test"); try_catch (mythrow e) (print caught); destruct e

-- Both objects are destroyed, the thrown one at the end of the handler.
exceptions_printed : exceptions_main [] ≡ (
  returned tt,
  made (codes "Test")
      ∷ throwing
      ∷ made (codes "my throw")
      ∷ caught
      ∷ destroyed (codes "my throw")
      ∷ destroyed (codes "Test")
      ∷ [],
)
unfolding exceptions_main
exceptions_printed = refl
