-- ===== src/Dummy/Numerals.antt =====
-- `s.parse::<u64>()` of src/plugins/dummy/src/main.rs against what a numeral is.
use Prim.Native.String.{String}
use rules_systemtest.Prelude.{
  ℕ, ◌+◌, ◌-◌, ◌*◌, ◌^◌, ◌<◌, ◌≤◌, ◌≡◌, ◌↔◌, List, [], ◌∷◌, some, ◌&&◌, leb, arith, Bool-cases, ◌⊎◌,
  inl, inr,
}
use rules_systemtest.Dummy.Decimal.{codes, digits, unsigned, without_plus, parse_u64}

-- Decimal digits, and their value after a value on the left.
abbrev pub AreDigits : List ℕ → Type 0
AreDigits [] = Unit {0}
AreDigits (c ∷ cs) = (48 ≤ c) × (c ≤ 57) × AreDigits cs

unfoldable pub value : List ℕ → ℕ → ℕ
value [] n = n
value (c ∷ cs) n = value cs (n * 10 + (c - 48))

abbrev pub IsEmpty : List ℕ → Type 0
IsEmpty [] = Unit {0}
IsEmpty (c ∷ cs) = ⊥

value-grows : (cs : List ℕ) (n : ℕ) → n ≤ value cs n
unfolding value
value-grows [] n = omega arith
value-grows (c ∷ cs) n = ground (arith, value-grows cs (n * 10 + (c - 48)))

digits_sound :
    (cs : List ℕ) (n m : ℕ)
    → n < 2 ^ 64
    → digits cs n ≡ some m
    → AreDigits cs × (value cs n ≡ m) × (m < 2 ^ 64)
unfolding digits value
digits_sound [] n m h e = ground arith
digits_sound (c ∷ cs) n m h e = ground (arith, digits_sound cs (n * 10 + (c - 48)) m)

digits_complete :
    (cs : List ℕ) (n m : ℕ) → AreDigits cs → value cs n ≡ m → m < 2 ^ 64 → digits cs n ≡ some m
unfolding digits value
digits_complete [] n m d e h = ground arith
digits_complete (c ∷ cs) n m d e h =
    ground (arith, digits_complete cs (n * 10 + (c - 48)) m d.2, value-grows cs (n * 10 + (c - 48)))

-- A numeral of `n`: one digit or more, and a value of 64 bits.
abbrev pub IsNumeral : List ℕ → ℕ → Type 0
IsNumeral [] n = ⊥
IsNumeral (c ∷ cs) n = AreDigits (c ∷ cs) × (value (c ∷ cs) 0 ≡ n) × (n < 2 ^ 64)

-- A numeral, or a plus sign and a numeral.
abbrev pub IsU64Text : List ℕ → ℕ → Type 0
IsU64Text [] n = ⊥
IsU64Text (c ∷ cs) n = IsNumeral (c ∷ cs) n ⊎ (c ≡ 43) × IsNumeral cs n

unsigned-eq_iff : (cs : List ℕ) (n : ℕ) → (unsigned cs ≡ some n) ↔ IsNumeral cs n
unfolding unsigned
unsigned-eq_iff [] n = (λ e. cc, λ e. absurd e)
unsigned-eq_iff (c ∷ cs) n =
    (digits_sound (c ∷ cs) 0 n (omega arith), λ h. digits_complete (c ∷ cs) 0 n h.0 h.1 h.2)

-- A digit is no plus sign.
numeral-not_plus : (c : ℕ) (cs : List ℕ) (n : ℕ) → IsNumeral (c ∷ cs) n → 48 ≤ c
numeral-not_plus c cs n h = h.0.0

without_plus-IsU64Text : (cs : List ℕ) (n : ℕ) → IsNumeral (without_plus cs) n ↔ IsU64Text cs n
without_plus-IsU64Text [] n = (λ e. e, λ e. e)
without_plus-IsU64Text (c ∷ cs) n = elim (Bool-cases (leb c 43 && leb 43 c)) [
  | inl e ↦ rw e (
    λ h. inr (ground (arith, e), h),
    λ h. elim h [
      | inl numeral ↦
          let low : 48 ≤ c = numeral-not_plus c cs n numeral in absurd (ground (arith, e, low))
      | inr (_, numeral) ↦ numeral
    ],
  )
  | inr e ↦ rw e (
    λ h. inl h,
    λ h. elim h [ inl numeral ↦ numeral | inr (plus, _) ↦ absurd (ground (arith, e, plus)) ],
  )
]

-- A text parses to a number exactly when it is decimal digits, at least one, after a plus sign or
-- nothing, whose value is that number and fits in 64 bits.
pub parse_u64-eq_iff : (s : String) (n : ℕ) → (parse_u64 s ≡ some n) ↔ IsU64Text (codes s) n
unfolding parse_u64
parse_u64-eq_iff s n =
    let u = unsigned-eq_iff (without_plus (codes s)) n in
    let p = without_plus-IsU64Text (codes s) n in (λ e. p.0 (u.0 e), λ h. u.1 (p.1 h))
