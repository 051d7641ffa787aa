-- ===== src/Fixture/Hex.antt =====
-- `hex_encode` of src/coordinator/src/fixture.rs.
use Prim.Native.Char.{Char, code}
use Prim.Native.Nat.{◌-◌}
use text.Mathlib.TextLemmas
use rules_systemtest.Prelude.{
  ℕ, zero, suc, ◌/◌, ◌%◌, ◌<◌, ◌≡◌, refl, ap, sym, ◌∙◌, Bool, true, ◌&&◌, String, List, [], ◌∷◌,
  arith, leb, ◌==◌, nat_eq, if◌then◌else◌,
}

-- The lower-case hexadecimal digit of a number below 16.
unfoldable pub hex_digit : ℕ → Char
hex_digit n =
    if n == 0
    then "0"
    else if n == 1
    then "1"
    else if n == 2
    then "2"
    else if n == 3
    then "3"
    else if n == 4
    then "4"
    else if n == 5
    then "5"
    else if n == 6
    then "6"
    else if n == 7
    then "7"
    else if n == 8
    then "8"
    else if n == 9
    then "9"
    else if n == 10
    then "a"
    else if n == 11
    then "b"
    else if n == 12
    then "c"
    else if n == 13
    then "d"
    else if n == 14
    then "e"
    else "f"

-- `bytes.iter().map(|b| format!("{b:02x}")).collect()`
unfoldable pub hex_encode : List ℕ → String
unfolding hex_digit
hex_encode [] = String.[]
hex_encode (b ∷ bytes) =
    String.◌∷◌ (hex_digit (b / 16)) (String.◌∷◌ (hex_digit (b % 16)) (hex_encode bytes))

abbrev pub IsBytes : List ℕ → Type 0
IsBytes [] = Unit {0}
IsBytes (b ∷ bytes) = (b < 256) × IsBytes bytes

digit_value : Char → ℕ
digit_value c = if leb 97 (code c) then code c - 87 else code c - 48

-- A finite check of the first numbers, by evaluation.
holds_below : (ℕ → Bool) → ℕ → Bool
holds_below test zero = true
holds_below test (suc bound) = holds_below test bound && test bound

holds_at :
    (test : ℕ → Bool) (bound d : ℕ) → d < bound → holds_below test bound ≡ true → test d ≡ true
unfolding holds_below
holds_at test zero d below checked = absurd (omega arith)
holds_at test (suc bound) d below checked = ground (arith, holds_at test bound d)

digit_table : holds_below (λ d. digit_value (hex_digit d) == d) 16 ≡ true
unfolding holds_below digit_value hex_digit
digit_table = refl

digit_value-hex_digit : (x : ℕ) → x < 16 → digit_value (hex_digit x) ≡ x
digit_value-hex_digit x h =
    (nat_eq.beq_iff _ x).0 (holds_at (λ d. digit_value (hex_digit d) == d) 16 x h digit_table)

hex_digit-injective : (x y : ℕ) → x < 16 → y < 16 → hex_digit x ≡ hex_digit y → x ≡ y
hex_digit-injective x y hx hy e =
    sym (digit_value-hex_digit x hx) ∙ ap digit_value e ∙ digit_value-hex_digit y hy

byte-injective :
    (b c : ℕ)
    → b < 256
    → c < 256
    → hex_digit (b / 16) ≡ hex_digit (c / 16)
    → hex_digit (b % 16) ≡ hex_digit (c % 16)
    → b ≡ c
byte-injective b c hb hc e f =
    let high = hex_digit-injective (b / 16) (c / 16) (omega arith) (omega arith) e in
    let low = hex_digit-injective (b % 16) (c % 16) (omega arith) (omega arith) f in
    omega (arith, high, low)

-- Two strings of bytes with the same hex text are equal.
pub hex_encode-injective :
    (xs ys : List ℕ) → IsBytes xs → IsBytes ys → hex_encode xs ≡ hex_encode ys → xs ≡ ys
unfolding hex_encode
hex_encode-injective [] [] hx hy e = refl
hex_encode-injective [] (y ∷ ys) hx hy e = absurd (TextLemmas.nil≢cons e)
hex_encode-injective (x ∷ xs) [] hx hy e = absurd (TextLemmas.cons≢nil e)
hex_encode-injective (x ∷ xs) (y ∷ ys) hx hy e =
    let rest = TextLemmas.tail-eq_of_cons-eq e in
    let high = TextLemmas.head-eq_of_cons-eq e in
    let low = TextLemmas.head-eq_of_cons-eq rest in
    let tails = TextLemmas.tail-eq_of_cons-eq rest in
    cc (byte-injective x y hx.0 hy.0 high low, hex_encode-injective xs ys hx.1 hy.1 tails)
