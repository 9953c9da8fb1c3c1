-- ===== src/Prelude/Decimal.antt =====
-- The number that a digit string writes, and the digit string of a number (`std::to_string`).
use resonantia.Prelude.{
  ltb, length, true, [], ◌∷◌, if◌then◌else◌, ℕ, zero, suc, ◌+◌, ◌-◌, ◌*◌, ◌/◌, ◌%◌, ◌^◌, ◌≤◌, ◌<◌,
  ◌≡◌, Bytes, is_digit, arith,
}
use native.Mathlib.Nat.{pow-suc}

-- The value of the digits, after those that gave `acc`.
abbrev pub decimal : ℕ → Bytes → ℕ
decimal acc [] = acc
decimal acc (c ∷ cs) = decimal (acc * 10 + (c - b'0')) cs

abbrev pub AllDigits : Bytes → Type 0
AllDigits [] = Unit {0}
AllDigits (c ∷ cs) = (is_digit c ≡ true) × AllDigits cs

pub decimal-ge : (acc : ℕ) (cs : Bytes) → acc ≤ decimal acc cs
decimal-ge acc [] = omega arith
decimal-ge acc (c ∷ cs) = omega (arith, decimal-ge (acc * 10 + (c - b'0')) cs)

-- The digits of a number below 10 ^ (fuel + 1), highest first, in front of `rest`.
unfoldable pub digits_of : ℕ → ℕ → Bytes → Bytes
digits_of zero n rest = (b'0' + n % 10) ∷ rest
digits_of (suc fuel) n rest =
    let shifted = digits_of fuel (n / 10) ((b'0' + n % 10) ∷ rest) in
    if ltb n 10 then (b'0' + n) ∷ rest else shifted

-- `std::to_string` of a 64-bit number, which has at most twenty digits.
unfoldable pub to_string : ℕ → Bytes
to_string n = digits_of 19 n []

pub digits_of-decimal :
    (fuel n : ℕ) (rest : Bytes)
    → n < 10 ^ suc fuel
    → decimal 0 (digits_of fuel n rest) ≡ decimal n rest
unfolding digits_of
digits_of-decimal zero n rest h = ground (arith, pow-suc 10 0)
digits_of-decimal (suc fuel) n rest h =
    ground (arith, pow-suc 10 (suc fuel), digits_of-decimal fuel (n / 10) ((b'0' + n % 10) ∷ rest))

pub digits_of-AllDigits :
    (fuel n : ℕ) (rest : Bytes) → AllDigits rest → AllDigits (digits_of fuel n rest)
unfolding digits_of
digits_of-AllDigits zero n rest h = ground arith
digits_of-AllDigits (suc fuel) n rest h =
    let more = digits_of-AllDigits fuel (n / 10) ((b'0' + n % 10) ∷ rest) (ground arith) in
    ground (arith, more)

pub length-digits_of :
    (fuel n : ℕ) (rest : Bytes) → length (digits_of fuel n rest) ≤ length rest + suc fuel
unfolding digits_of
length-digits_of zero n rest = omega arith
length-digits_of (suc fuel) n rest =
    ground (arith, length-digits_of fuel (n / 10) ((b'0' + n % 10) ∷ rest))

digits_of-ne-nil : (fuel n : ℕ) (rest : Bytes) → 0 < length (digits_of fuel n rest)
unfolding digits_of
digits_of-ne-nil zero n rest = omega arith
digits_of-ne-nil (suc fuel) n rest =
    ground (arith, digits_of-ne-nil fuel (n / 10) ((b'0' + n % 10) ∷ rest))

-- `to_string` writes digits only, one to twenty of them, and they stand for the number.
pub to_string_lem :
    (n : ℕ)
    → n < 10 ^ 20
    → (decimal 0 (to_string n) ≡ n)
      × AllDigits (to_string n)
      × (0 < length (to_string n))
      × (length (to_string n) ≤ 20)
unfolding to_string
to_string_lem n h = (
  digits_of-decimal 19 n [] h,
  digits_of-AllDigits 19 n [] tt,
  digits_of-ne-nil 19 n [],
  length-digits_of 19 n [],
)
