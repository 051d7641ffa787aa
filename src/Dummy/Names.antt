-- ===== src/Dummy/Names.antt =====
-- `names.sort()` of src/plugins/dummy/src/main.rs: Rust orders strings by their bytes, which is the
-- order of their code points.
use Prim.Native.String.{String}
use rules_systemtest.Prelude.{
  ℕ, List, [], ◌∷◌, Bool, true, false, ◌&&◌, ◌||◌, ltb, leb, if◌then◌else◌,
}
use rules_systemtest.Dummy.Decimal.{codes}

unfoldable pub leb_codes : List ℕ → List ℕ → Bool
leb_codes [] bs = true
leb_codes (a ∷ rest) [] = false
leb_codes (a ∷ rest) (b ∷ bs) = ltb a b || (leb a b && leb_codes rest bs)

unfoldable pub leb_string : String → String → Bool
leb_string s t = leb_codes (codes s) (codes t)

unfoldable pub insert_name : String → List String → List String
insert_name x [] = x ∷ []
insert_name x (y ∷ ys) = if leb_string x y then x ∷ y ∷ ys else y ∷ insert_name x ys

unfoldable pub sort : List String → List String
sort [] = []
sort (x ∷ xs) = insert_name x (sort xs)
