-- ===== src/Prelude/Number.antt =====
-- The strict reading of a 64-bit number that the request, task and progress readers share: `from_chars`
-- behind a test of the length and the digits.
use resonantia.Prelude.{
  length, ltb, leb, not, all_bytes, is_digit, Bytes, Option, some, none, true, [], ◌∷◌, ◌-◌, ◌^◌,
  ◌==◌, ◌||◌, ◌≤◌, ◌≡◌, if◌then◌else◌, ℕ, refl, arith,
}
use resonantia.Prelude.Decimal.{decimal, to_string, AllDigits, to_string_lem}

abbrev pub u64_max : ℕ
u64_max = 2 ^ 64 - 1

-- `number`: up to twenty digits whose value `from_chars` finds in range.
unfoldable pub number : Bytes → Option ℕ
number text =
    if length text == 0 || ltb 20 (length text) || not (all_bytes is_digit text)
    then none
    else if leb (decimal 0 text) u64_max
    then some (decimal 0 text)
    else none

all_bytes-AllDigits : (s : Bytes) → AllDigits s → all_bytes is_digit s ≡ true
unfolding all_bytes
all_bytes-AllDigits [] h = refl
all_bytes-AllDigits (c ∷ s) h = ground (arith, all_bytes-AllDigits s h.1)

-- It reads back what `std::to_string` writes.
pub number-to_string : (n : ℕ) → n ≤ u64_max → number (to_string n) ≡ some n
unfolding number
number-to_string n h =
    let (value, digits, some_digits, few) = to_string_lem n (omega arith) in
    ground (arith, value, some_digits, few, all_bytes-AllDigits (to_string n) digits)
