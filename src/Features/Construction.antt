-- ===== src/Features/Construction.antt =====
-- virtual_base/main.cpp: the constructors of a class with a virtual base. The most derived class
-- constructs it, and the initialisers of the classes between are passed over.
use learning_directory.Base.{
  ◌≡◌, refl, List, [], ◌∷◌, ◌++◌, Bool, false, Bytes, codes, if◌then◌else◌,
}

unfoldable class_a : Bytes → List Bytes
class_a s = s ∷ []

-- The flag says whether the object is itself a `B`, or a part of another one.
unfoldable class_b : Bool → Bytes → Bytes → List Bytes
unfolding class_a
class_b whole s1 s2 = (if whole then class_a s1 else []) ++ s2 ∷ []

unfoldable class_c : Bool → Bytes → Bytes → List Bytes
unfolding class_a
class_c whole s1 s2 = (if whole then class_a s1 else []) ++ s2 ∷ []

unfoldable class_d : Bytes → Bytes → Bytes → Bytes → List Bytes
unfolding class_a class_b class_c
class_d s1 s2 s3 s4 = class_a s1 ++ class_b false s1 s2 ++ class_c false s1 s3 ++ s4 ∷ []

-- What `main` prints; the destructors print nothing.
unfoldable construction_main : List Bytes
unfolding class_d
construction_main = class_d (codes "class A") (codes "class B") (codes "class C") (codes "class D")

construction_printed :
    construction_main ≡ codes "class A" ∷ codes "class B" ∷ codes "class C" ∷ codes "class D" ∷ []
unfolding construction_main
construction_printed = refl
