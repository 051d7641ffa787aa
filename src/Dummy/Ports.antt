-- ===== src/Dummy/Ports.antt =====
-- `ports_schema_blob` of src/plugins/dummy/src/main.rs. `Json` is what it takes from serde_json: the
-- values, the parse of an object as its entries, and the text of a value as bytes.
use Prim.Native.String.{String}
use rules_systemtest.Prelude.{
  ℕ, List, [], ◌∷◌, map, Bool, false, Option, none, some, ◌==◌, string_eq, if◌then◌else◌,
}
use rules_systemtest.Result.{Result, ok, err, Error}
use rules_systemtest.Proto.{Bytes}
use rules_systemtest.Dummy.Decimal.{parse_u64}
use rules_systemtest.Dummy.Names.{sort}

pub record Json : Type 1 where
  pub JsonValue : Type 0
  pub Number : Type 0
  pub from_str : String → Result Error (List (String × JsonValue))
  -- the strings and the numbers among the values
  pub as_string : JsonValue → Option String
  pub as_number : JsonValue → Option Number
  pub as_u64 : Number → Option ℕ
  -- the values that `json!` builds
  pub string : String → JsonValue
  pub boolean : Bool → JsonValue
  pub number : ℕ → JsonValue
  pub array : List JsonValue → JsonValue
  pub object : List (String × JsonValue) → JsonValue
  pub to_vec : JsonValue → Result Error Bytes

-- `unwrap_or_default` and `unwrap_or(0)`
abbrev pub list_or_default : {A : Type 0} → Result Error (List A) → List A
list_or_default (ok xs) = xs
list_or_default (err _) = []

abbrev pub or_zero : Option ℕ → ℕ
or_zero none = 0
or_zero (some n) = n

-- The map at a key; `none` is where `parsed[*name]` panics.
unfoldable pub index : {A : Type 0} → List (String × A) → String → Option A
index [] k = none
index ((j, a) ∷ rest) k = if j == k then some a else index rest k

-- What a list of optional results gives if none of them panics.
unfoldable pub collect : {A B : Type 0} → (A → Option B) → List A → Option (List B)
collect f [] = some []
collect f (x ∷ xs) = elim (f x) [
  | none ↦ none
  | some y ↦ elim (collect f xs) [ none ↦ none | some ys ↦ some (y ∷ ys) ]
]

module _ (json : Json) where
  open json use {JsonValue, Number}

  abbrev pub number_port : Option Number → ℕ
  number_port none = 0
  number_port (some n) = or_zero (json.as_u64 n)

  -- The `match` on the value of a name.
  abbrev pub port_of : Option String → JsonValue → ℕ
  port_of (some s) v = or_zero (parse_u64 s)
  port_of none v = number_port (json.as_number v)

  -- `json!({ "name": name, … })`
  abbrev pub port_entry : String → ℕ → JsonValue
  port_entry name port = json.object (
      ("name", json.string name)
      ∷ ("protocol", json.string "tcp")
      ∷ ("tunnel", json.boolean false)
      ∷ ("host", json.string "127.0.0.1")
      ∷ ("port", json.number port)
      ∷ [])

  -- The body of the `map` over the names.
  abbrev pub entry_of : List (String × JsonValue) → String → Option JsonValue
  entry_of parsed name = elim (index parsed name) [
    | none ↦ none
    | some v ↦ some (port_entry name (port_of (json.as_string v) v))
  ]

  unfoldable pub ports : List (String × JsonValue) → Option (List JsonValue)
  ports parsed = collect (entry_of parsed) (sort (map (λ e. e.0) parsed))

  abbrev pub blob : List JsonValue → Bytes
  blob values = list_or_default (json.to_vec (json.object (("ports", json.array values) ∷ [])))

  -- The bytes of the list; `none` is a panic.
  abbrev pub blob_of : Option (List JsonValue) → Option Bytes
  blob_of none = none
  blob_of (some values) = some (blob values)

  unfoldable pub ports_schema_blob : String → Option Bytes
  ports_schema_blob ports_input = blob_of (ports (list_or_default (json.from_str ports_input)))
