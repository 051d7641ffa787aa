-- ===== src/Map.antt =====
-- Rust's `HashMap` behind its laws. The program never iterates over one, so the order of the
-- entries is not modelled. The representation is private to this module and its children.
mod Assoc
use Assoc.{Entries, lookup, store, drop, count_values, IsUnique}
use rules_systemtest.Prelude.{
  ℕ, ◌+◌, ◌≡◌, Bool, false, Option, none, some, [], arith, Equality, ◌==◌, if◌then◌else◌,
}

pub record Map {ℓ} (K V : Type ℓ) : Type ℓ where
  entries : Entries K V

-- No key stands twice.
pub record IsMap {ℓ} {K V : Type ℓ} ⦃e : Equality K⦄ (m : Map K V) : Type ℓ where
  unique : IsUnique m.entries

module _ {ℓ} {K V : Type ℓ} where
  pub empty : Map K V
  empty = record { entries = [] }

  -- How many values pass a test.
  pub count : (V → Bool) → Map K V → ℕ
  count p m = count_values p m.entries

pub count-empty {ℓ} : (K : Type ℓ) {V : Type ℓ} (p : V → Bool) → count p (empty {K = K}) ≡ 0
unfolding count empty count_values
count-empty K p = omega arith

module _ {ℓ} {K V : Type ℓ} ⦃e : Equality K⦄ where
  -- `m.get(k)`
  pub get : Map K V → K → Option V
  get m k = lookup k m.entries

  -- `m.insert(k, v)`, which replaces an entry for `k`
  pub insert : Map K V → K → V → Map K V
  insert m k v = record { entries = store k v m.entries }

  -- `m.remove(k)`: the map that is left; the value that it returns is `get m k`
  pub remove : Map K V → K → Map K V
  remove m k = record { entries = drop k m.entries }

  pub get-empty : (k : K) → get (empty {V = V}) k ≡ none
  unfolding get empty lookup
  get-empty k = ground arith

  pub get-insert :
      (m : Map K V) (k j : K) (v : V) → get (insert m k v) j ≡ (if k == j then some v else get m j)
  unfolding get insert
  get-insert m k j v = Assoc.lookup-store k j v m.entries

  pub get-remove :
      (m : Map K V) (k j : K) → IsMap m → get (remove m k) j ≡ (if k == j then none else get m j)
  unfolding get remove
  get-remove m k j u = Assoc.lookup-drop k j m.entries u.unique

  pub empty-IsMap : IsMap (empty {K = K} {V = V})
  unfolding empty
  empty-IsMap = record { unique = tt }

  pub insert-IsMap : (m : Map K V) (k : K) (v : V) → IsMap m → IsMap (insert m k v)
  unfolding insert
  insert-IsMap m k v u = record { unique = Assoc.store-IsUnique k v m.entries u.unique }

  pub remove-IsMap : (m : Map K V) (k : K) → IsMap m → IsMap (remove m k)
  unfolding remove
  remove-IsMap m k u = record { unique = Assoc.drop-IsUnique k m.entries u.unique }

  -- A new key adds its own value to the count, and nothing else.
  pub count-insert :
      (p : V → Bool) (m : Map K V) (k : K) (v : V)
      → get m k ≡ none
      → count p (insert m k v) ≡ count p m + (if p v then 1 else 0)
  unfolding get insert count
  count-insert p m k v h = Assoc.count_values-store p k v m.entries h

  pub count-remove :
      (p : V → Bool) (m : Map K V) (k : K) (v : V)
      → get m k ≡ some v
      → count p m ≡ count p (remove m k) + (if p v then 1 else 0)
  unfolding get remove count
  count-remove p m k v h = Assoc.count_values-drop p k v m.entries h

  -- Nothing is counted where no value that a key leads to passes the test.
  pub count-eq-zero :
      (p : V → Bool) (m : Map K V)
      → IsMap m
      → ((k : K) (v : V) → get m k ≡ some v → p v ≡ false)
      → count p m ≡ 0
  unfolding get count
  count-eq-zero p m u h = Assoc.count_values-eq-zero p m.entries u.unique h

pub ruleset map_laws = (get-empty, get-insert)
