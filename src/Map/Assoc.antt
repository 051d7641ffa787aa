-- ===== src/Map/Assoc.antt =====
-- Association lists in which a key stands once: the representation of Map.
use rules_systemtest.Prelude.{
  ℕ, ◌+◌, ◌≡◌, refl, Bool, false, Option, none, some, List, [], ◌∷◌, arith, Equality, ◌==◌, if_self,
  if◌then◌else◌,
}

abbrev pub Entries {ℓ} : Type ℓ → Type ℓ → Type ℓ
Entries K V = List (K × V)

unfoldable pub count_values {ℓ} : {K V : Type ℓ} → (V → Bool) → Entries K V → ℕ
count_values p [] = 0
count_values p ((k, v) ∷ m) = count_values p m + (if p v then 1 else 0)

module _ {ℓ} {K V : Type ℓ} ⦃e : Equality K⦄ where
  unfoldable pub lookup : K → Entries K V → Option V
  lookup k [] = none
  lookup k ((j, v) ∷ m) = if j == k then some v else lookup k m

  pub store : K → V → Entries K V → Entries K V
  store k v [] = (k, v) ∷ []
  store k v ((j, w) ∷ m) = if j == k then (j, v) ∷ m else (j, w) ∷ store k v m

  pub drop : K → Entries K V → Entries K V
  drop k [] = []
  drop k ((j, w) ∷ m) = if j == k then m else (j, w) ∷ drop k m

  abbrev pub IsUnique : Entries K V → Type ℓ
  IsUnique [] = Unit
  IsUnique ((k, v) ∷ m) = (lookup k m ≡ none) × IsUnique m

  pub lookup-store :
      (k j : K) (v : V) (m : Entries K V)
      → lookup j (store k v m) ≡ (if k == j then some v else lookup j m)
  unfolding lookup store
  lookup-store k j v [] = refl
  lookup-store k j v ((i, w) ∷ m) =
      ground (arith, e.beq_iff k j, e.beq_iff i k, e.beq_iff i j, lookup-store k j v m)

  pub lookup-drop :
      (k j : K) (m : Entries K V)
      → IsUnique m
      → lookup j (drop k m) ≡ (if k == j then none else lookup j m)
  unfolding lookup drop
  lookup-drop k j [] u = ground arith
  lookup-drop k j ((i, w) ∷ m) u =
      ground (arith, e.beq_iff k j, e.beq_iff i k, e.beq_iff i j, lookup-drop k j m u.1)

  pub store-IsUnique : (k : K) (v : V) (m : Entries K V) → IsUnique m → IsUnique (store k v m)
  unfolding store lookup
  store-IsUnique k v [] u = (refl, tt)
  store-IsUnique k v ((i, w) ∷ m) u =
      ground (arith, store-IsUnique k v m u.1, lookup-store k i v m, e.beq_iff k i, e.beq_iff i k)

  pub drop-IsUnique : (k : K) (m : Entries K V) → IsUnique m → IsUnique (drop k m)
  unfolding drop
  drop-IsUnique k [] u = tt
  drop-IsUnique k ((i, w) ∷ m) u = ground (arith, drop-IsUnique k m u.1, lookup-drop k i m u.1)

  pub count_values-store :
      (p : V → Bool) (k : K) (v : V) (m : Entries K V)
      → lookup k m ≡ none
      → count_values p (store k v m) ≡ count_values p m + (if p v then 1 else 0)
  unfolding lookup store count_values
  count_values-store p k v [] h = refl
  count_values-store p k v ((i, w) ∷ m) h = ground (arith, count_values-store p k v m)

  pub count_values-drop :
      (p : V → Bool) (k : K) (v : V) (m : Entries K V)
      → lookup k m ≡ some v
      → count_values p m ≡ count_values p (drop k m) + (if p v then 1 else 0)
  unfolding lookup drop count_values
  count_values-drop p k v [] h = cc
  count_values-drop p k v ((i, w) ∷ m) h = ground (arith, count_values-drop p k v m)

  lookup_here : (k : K) (v : V) (m : Entries K V) → lookup k ((k, v) ∷ m) ≡ some v
  unfolding lookup
  lookup_here k v m = if_self k (some v) (lookup k m)

  lookup_there :
      (k j : K) (v w : V) (m : Entries K V)
      → lookup k m ≡ none
      → lookup j m ≡ some w
      → lookup j ((k, v) ∷ m) ≡ some w
  unfolding lookup
  lookup_there k j v w m h g = ground (arith, e.beq_iff k j)

  pub count_values-eq-zero :
      (p : V → Bool) (m : Entries K V)
      → IsUnique m
      → ((k : K) (v : V) → lookup k m ≡ some v → p v ≡ false)
      → count_values p m ≡ 0
  unfolding count_values
  count_values-eq-zero p [] u h = omega arith
  count_values-eq-zero p ((k, v) ∷ m) u h =
      let rest = count_values-eq-zero p m u.1 λ j w g. h j w (lookup_there k j v w m u.0 g) in
      let here = h k v (lookup_here k v m) in rw here (omega (arith, rest))
