-- ===== src/Prelude/Lists.antt =====
-- Predicates of all items of a list.
use mathlib.Core.List.{List, [], ◌∷◌, ◌++◌}

module _ {ℓ κ} {A : Type ℓ} (P : A → Type κ) where
  abbrev pub All : List A → Type κ
  All [] = Unit
  All (x ∷ xs) = P x × All xs

  -- An item out of the middle, and the others.
  pub All-middle :
      (before after : List A) (x : A) → All (before ++ x ∷ after) → P x × All (before ++ after)
  All-middle [] after x h = h
  All-middle (y ∷ before) after x (py, h) =
      let (px, rest) = All-middle before after x h in (px, (py, rest))
