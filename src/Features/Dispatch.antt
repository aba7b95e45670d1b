-- ===== src/Features/Dispatch.antt =====
-- virtual_fun/main.cpp, where the class of the object decides, and
-- base-derived_compatibility/main.cpp, where the declared class decides.
use learning_directory.Base.{◌≡◌, refl, List, [], ◌∷◌, Bytes, codes, map}

-- The classes of virtual_fun, and the `Display` that a call through a `Cshape *` reaches.
data Shape : Type 0 where
  cshape crectangle ctriangle cellipse : Shape

unfoldable display : Shape → Bytes
display cshape = codes "Cshape"
display crectangle = codes "Crectangle"
display ctriangle = codes "Ctriangle"
display cellipse = codes "Cellipse"

-- `pShape`.
abbrev shapes : List Shape
shapes = cshape ∷ cellipse ∷ ctriangle ∷ crectangle ∷ []

unfoldable display_main : List Bytes
unfolding display
display_main = map display shapes

display_printed :
    display_main ≡ codes "Cshape" ∷ codes "Cellipse" ∷ codes "Ctriangle" ∷ codes "Crectangle" ∷ []
unfolding display_main
display_printed = refl

-- The classes of base-derived_compatibility; `func` is not virtual.
data Class : Type 0 where
  base derived : Class

unfoldable func : Class → Bytes
func base = codes "Base class function."
func derived = codes "Derived class function."

-- The value that an expression of a declared class denotes, made from an object of some class: a copy, a
-- pointer and a reference are used as the declared class.
abbrev seen_as : Class → Class → Class
seen_as declared object = declared

unfoldable foo : Class → Bytes
unfolding func
foo b = func (seen_as base b)

unfoldable compatibility_main : List Bytes
unfolding func foo
compatibility_main =
    func (seen_as base derived)
    ∷ func (seen_as derived derived)
    ∷ func (seen_as base derived)
    ∷ foo derived
    ∷ func (seen_as base derived)
    ∷ []

compatibility_printed :
    compatibility_main
    ≡ codes "Base class function."
      ∷ codes "Derived class function."
      ∷ codes "Base class function."
      ∷ codes "Base class function."
      ∷ codes "Base class function."
      ∷ []
unfolding compatibility_main
compatibility_printed = refl
