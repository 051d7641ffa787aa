-- ===== src/Tests/Dummy.antt =====
-- The stub plugin with a small JSON: an object of two ports.
use Prim.Native.String.{String}
use rules_systemtest.Prelude.{ℕ, ◌≡◌, refl, List, [], ◌∷◌, Option, none, some, Bool}
use rules_systemtest.Result.{ok, Error, Status}
use rules_systemtest.Proto.{CreateRequest}
use rules_systemtest.Dummy.Decimal.{parse_u64}
use rules_systemtest.Dummy.Names.{sort, insert_name, leb_string, leb_codes}
use rules_systemtest.Dummy.Ports.{Json}

pub data Tree : Type 0 where
  text : String → Tree
  count : ℕ → Tree
  flag : Bool → Tree
  nothing : Tree
  field : String → Tree → Tree → Tree

abbrev text_of : Tree → Option String
text_of (text s) = some s
text_of (count n) = none
text_of (flag b) = none
text_of nothing = none
text_of (field k v rest) = none

abbrev count_of : Tree → Option ℕ
count_of (text s) = none
count_of (count n) = some n
count_of (flag b) = none
count_of nothing = none
count_of (field k v rest) = none

abbrev array_of : List Tree → Tree
array_of [] = nothing
array_of (v ∷ vs) = field "" v (array_of vs)

abbrev object_of : List (String × Tree) → Tree
object_of [] = nothing
object_of ((k, v) ∷ rest) = field k v (object_of rest)

abbrev pub json : Json
json = record {
  JsonValue = Tree;
  Number = ℕ;
  from_str = λ _. ok (("main", text "6379") ∷ ("admin", count 80) ∷ []);
  as_string = text_of;
  as_number = count_of;
  as_u64 = λ n. some n;
  string = text;
  boolean = flag;
  number = count;
  array = array_of;
  object = object_of;
  to_vec = λ _. ok (123 ∷ 125 ∷ []);
}

port_parses : parse_u64 "+6379" ≡ some 6379
unfolding parse_u64
port_parses = refl

port_overflows : parse_u64 "18446744073709551616" ≡ none
unfolding parse_u64
port_overflows = refl

names_sorted : sort ("main" ∷ "admin" ∷ []) ≡ "admin" ∷ "main" ∷ []
unfolding sort insert_name leb_string leb_codes
names_sorted = refl

abbrev parsed : List (String × Tree)
parsed = ("main", text "6379") ∷ ("admin", count 80) ∷ []

abbrev pub request : CreateRequest
request = record { impl_id = "redis"; inputs = []; metadata = none }

abbrev pub status_error : Status → Error
status_error s = "status" ∷ []
