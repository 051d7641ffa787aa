-- ===== src/Dummy/Decimal.antt =====
-- `s.parse::<u64>()` of src/plugins/dummy/src/main.rs, as the standard library has it: an optional
-- plus sign, one decimal digit or more, and a value that fits.
use Prim.Native.Char.{code}
use Prim.Native.String.{String}
use rules_systemtest.Prelude.{
  ℕ, ◌+◌, ◌-◌, ◌*◌, ◌^◌, List, [], ◌∷◌, Option, none, some, Bool, ◌&&◌, ltb, leb, if◌then◌else◌,
}

abbrev pub codes : String → List ℕ
codes String.[] = []
codes (String.◌∷◌ c s) = code c ∷ codes s

abbrev pub is_digit : ℕ → Bool
is_digit c = leb 48 c && leb c 57

-- Digits from the left, each step checked for overflow.
unfoldable pub digits : List ℕ → ℕ → Option ℕ
digits [] n = some n
digits (c ∷ cs) n =
    if is_digit c && ltb (n * 10 + (c - 48)) (2 ^ 64) then digits cs (n * 10 + (c - 48)) else none

unfoldable pub unsigned : List ℕ → Option ℕ
unfolding digits
unsigned [] = none
unsigned (c ∷ cs) = digits (c ∷ cs) 0

abbrev pub without_plus : List ℕ → List ℕ
without_plus [] = []
without_plus (c ∷ cs) = if leb c 43 && leb 43 c then cs else c ∷ cs

unfoldable pub parse_u64 : String → Option ℕ
unfolding unsigned
parse_u64 s = unsigned (without_plus (codes s))
