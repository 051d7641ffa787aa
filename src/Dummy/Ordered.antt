-- ===== src/Dummy/Ordered.antt =====
-- The order and the entries of the ports that `ports_schema_blob` of src/plugins/dummy/src/main.rs
-- lists.
use Prim.Native.String.{String}
use mathlib.Core.List.{Perm}
use mathlib.Core.List.Perm
use rules_systemtest.Prelude.{
  ℕ, ◌≡◌, ◌≢◌, refl, List, [], ◌∷◌, map, true, false, Option, none, some, inl, inr, arith,
  Bool-cases, Option-cases, string_eq,
}
use rules_systemtest.Dummy.Decimal.{codes}
use rules_systemtest.Dummy.Names.{leb_codes, leb_string, insert_name, sort}
use rules_systemtest.Dummy.Ports.{Json, index, collect, port_of, port_entry, entry_of, ports}

leb_codes_total : (a b : List ℕ) → leb_codes a b ≡ false → leb_codes b a ≡ true
unfolding leb_codes
leb_codes_total [] bs h = cc
leb_codes_total (a ∷ rest) [] h = refl
leb_codes_total (a ∷ rest) (b ∷ bs) h = ground (arith, leb_codes_total rest bs)

leb_string_total : (x y : String) → leb_string x y ≡ false → leb_string y x ≡ true
unfolding leb_string
leb_string_total x y e = leb_codes_total (codes x) (codes y) e

abbrev pub IsBelow : String → List String → Type 0
IsBelow x [] = Unit {0}
IsBelow x (y ∷ ys) = leb_string x y ≡ true

-- Each name is at most the next.
abbrev pub IsSorted : List String → Type 0
IsSorted [] = Unit {0}
IsSorted (x ∷ xs) = IsBelow x xs × IsSorted xs

insert_name-below :
    (x y : String) (ys : List String) → leb_string x y ≡ true → insert_name x (y ∷ ys) ≡ x ∷ y ∷ ys
unfolding insert_name
insert_name-below x y ys h = rw h refl

insert_name-above :
    (x y : String) (ys : List String)
    → leb_string x y ≡ false
    → insert_name x (y ∷ ys) ≡ y ∷ insert_name x ys
unfolding insert_name
insert_name-above x y ys h = rw h refl

insert_name-IsBelow :
    (z x : String) (ys : List String)
    → leb_string z x ≡ true
    → IsBelow z ys
    → IsBelow z (insert_name x ys)
unfolding insert_name
insert_name-IsBelow z x [] h b = h
insert_name-IsBelow z x (y ∷ ys) h b = elim (Bool-cases (leb_string x y)) [
  | inl e ↦ rw (insert_name-below x y ys e) h
  | inr e ↦ rw (insert_name-above x y ys e) b
]

insert_name-IsSorted : (x : String) (ys : List String) → IsSorted ys → IsSorted (insert_name x ys)
unfolding insert_name
insert_name-IsSorted x [] s = (tt, tt)
insert_name-IsSorted x (y ∷ ys) s = elim (Bool-cases (leb_string x y)) [
  | inl e ↦ rw (insert_name-below x y ys e) (e, s)
  | inr e ↦
      rw (insert_name-above x y ys e)
        (insert_name-IsBelow y x ys (leb_string_total x y e) s.0, insert_name-IsSorted x ys s.1)
]

insert_name-Perm : (x : String) (ys : List String) → Perm (insert_name x ys) (x ∷ ys)
unfolding insert_name
insert_name-Perm x [] = Perm.refl (x ∷ [])
insert_name-Perm x (y ∷ ys) = elim (Bool-cases (leb_string x y)) [
  | inl e ↦ rw (insert_name-below x y ys e) (Perm.refl (x ∷ y ∷ ys))
  | inr e ↦
      rw (insert_name-above x y ys e)
        (Perm.trans (Perm.cons y (insert_name-Perm x ys)) (Perm.swap x y ys))
]

sort-IsSorted : (xs : List String) → IsSorted (sort xs)
unfolding sort
sort-IsSorted [] = tt
sort-IsSorted (x ∷ xs) = insert_name-IsSorted x (sort xs) (sort-IsSorted xs)

sort-Perm : (xs : List String) → Perm (sort xs) xs
unfolding sort
sort-Perm [] = Perm.refl []
sort-Perm (x ∷ xs) = Perm.trans (insert_name-Perm x (sort xs)) (Perm.cons x (sort-Perm xs))

abbrev All : (String → Type 0) → List String → Type 0
All Q [] = Unit {0}
All Q (x ∷ xs) = Q x × All Q xs

module _ (Q : String → Type 0) where
  insert_name-All : (x : String) (ys : List String) → Q x → All Q ys → All Q (insert_name x ys)
  unfolding insert_name
  insert_name-All x [] q a = (q, tt)
  insert_name-All x (y ∷ ys) q a = elim (Bool-cases (leb_string x y)) [
    | inl e ↦ rw (insert_name-below x y ys e) (q, a)
    | inr e ↦ rw (insert_name-above x y ys e) (a.0, insert_name-All x ys q a.1)
  ]

  sort-All : (xs : List String) → All Q xs → All Q (sort xs)
  unfolding sort
  sort-All [] a = tt
  sort-All (x ∷ xs) a = insert_name-All x (sort xs) a.0 (sort-All xs a.1)

  All-mono :
      (R : String → Type 0) → ((x : String) → Q x → R x) → (xs : List String) → All Q xs → All R xs
  All-mono R f [] a = tt
  All-mono R f (x ∷ xs) a = (f x a.0, All-mono R f xs a.1)

module _ {A : Type 0} where
  index-later :
      (j k : String) (a : A) (rest : List (String × A))
      → index rest k ≢ none
      → index ((j, a) ∷ rest) k ≢ none
  unfolding index
  index-later j k a rest h = ground arith

  index-first : (j : String) (a : A) (rest : List (String × A)) → index ((j, a) ∷ rest) j ≢ none
  unfolding index
  index-first j a rest = ground (arith, string_eq.beq_iff j j)

  index-keys : (m : List (String × A)) → All (λ k. index m k ≢ none) (map (λ e. e.0) m)
  index-keys [] = tt
  index-keys ((j, a) ∷ rest) = (
    index-first j a rest,
    All-mono (λ k. index rest k ≢ none) (λ k. index ((j, a) ∷ rest) k ≢ none)
        (λ k. index-later j k a rest) (map (λ e. e.0) rest) (index-keys rest),
  )

collect-cons :
    {A B : Type 0} (f : A → Option B) (x : A) (xs : List A) (y : B) (ys : List B)
    → f x ≡ some y
    → collect f xs ≡ some ys
    → collect f (x ∷ xs) ≡ some (y ∷ ys)
unfolding collect
collect-cons f x xs y ys h g = simp (collect, h, g)

module _ (json : Json) (parsed : List (String × json.JsonValue)) where
  open json use {JsonValue}

  -- Each name with the entry of its port, in order.
  pub data Lists : List String → List JsonValue → Type 0 where
    no_ports : Lists [] []
    one_port :
        {name : String} {v : JsonValue} {names : List String} {values : List JsonValue}
        → index parsed name ≡ some v
        → Lists names values
        → Lists (name ∷ names) (port_entry json name (port_of json (json.as_string v) v) ∷ values)

  entry_of-found :
      (name : String) (v : JsonValue)
      → index parsed name ≡ some v
      → entry_of json parsed name ≡ some (port_entry json name (port_of json (json.as_string v) v))
  entry_of-found name v e = rw (e, entry_of) refl

  collect-Lists :
      (names : List String)
      → All (λ k. index parsed k ≢ none) names
      → (values : List JsonValue) × (collect (entry_of json parsed) names ≡ some values)
        × Lists names values
  unfolding collect
  collect-Lists [] a = ([], refl, no_ports)
  collect-Lists (name ∷ names) a = elim (Option-cases (index parsed name)) [
    | inl n ↦ absurd (a.0 n)
    | inr (v, e) ↦
        let (values, c, l) = collect-Lists names a.1 in
        (
          port_entry json name (port_of json (json.as_string v) v) ∷ values,
          collect-cons (entry_of json parsed) name names _ values (entry_of-found name v e) c,
          one_port e l,
        )
  ]

  pub ports-Lists :
      (values : List JsonValue) × (names : List String) × (ports json parsed ≡ some values)
      × Lists names values
      × IsSorted names
      × Perm names (map (λ e. e.0) parsed)
  unfolding ports
  ports-Lists =
      let keys = map (λ e. e.0) parsed in
      let (values, c, l) = collect-Lists (sort keys) (sort-All _ keys (index-keys parsed)) in
      (values, sort keys, c, l, sort-IsSorted keys, sort-Perm keys)
