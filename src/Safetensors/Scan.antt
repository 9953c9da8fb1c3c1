-- ===== src/Safetensors/Scan.antt =====
-- The character scanner of src/io/safetensors.cpp: whitespace, strings with their escapes, numbers.
-- `char` is signed or not by platform; no test below tells bytes from 128 on apart.
pub mod Total
pub mod RoundTrip
use resonantia.Prelude.{
  ℕ, zero, suc, ◌+◌, ◌-◌, ◌*◌, ◌/◌, ◌%◌, ◌^◌, Bool, false, not, ◌&&◌, ◌||◌, Option, none, some, [],
  ◌∷◌, ◌++◌, Bytes, is_digit, ltb, leb, ◌==◌, if◌then◌else◌, length,
}
use resonantia.Outcome.{Outcome, found, refused, spent, ◌>>=◌, ◌>>◌, guard, of_option}

abbrev pub u64_max : ℕ
u64_max = 2 ^ 64 - 1

unfoldable pub is_ws : ℕ → Bool
is_ws c = c == b' ' || c == b'\n' || c == b'\t' || c == b'\r'

unfoldable pub skip_ws : Bytes → Bytes
unfolding is_ws
skip_ws [] = []
skip_ws (c ∷ s) = if is_ws c then skip_ws s else c ∷ s

-- `if (p >= end || *p++ != c) return false;`
unfoldable pub expect : ℕ → Bytes → Outcome Bytes
expect k [] = refused
expect k (c ∷ s) = if c == k then found s else refused

unfoldable pub hex_digit : ℕ → Option ℕ
hex_digit c =
    if is_digit c
    then some (c - b'0')
    else if leb b'a' c && leb c b'f'
    then some (c - b'a' + 10)
    else if leb b'A' c && leb c b'F'
    then some (c - b'A' + 10)
    else none

-- The loop of `parse_hex4`. A value of at most four digits fits `uint32_t`, and the low four bits
-- that `|=` writes are zero after the shift, so the two are `* 16` and `+`.
unfoldable pub hex_loop : ℕ → ℕ → Bytes → Outcome (ℕ × Bytes)
hex_loop zero value s = found (value, s)
hex_loop (suc n) value [] = refused
hex_loop (suc n) value (c ∷ s) = do d ← of_option (hex_digit c); hex_loop n (value * 16 + d) s

unfoldable pub parse_hex4 : Bytes → Outcome (ℕ × Bytes)
parse_hex4 s = do guard (leb 4 (length s)); hex_loop 4 0 s

-- The bytes that `append_utf8` pushes. The marker bits and the shifted value share no bit, so `|`
-- is `+`; `& 0x3f` is `% 64`.
unfoldable pub append_utf8 : ℕ → Option Bytes
append_utf8 cp =
    if leb cp 0x7f
    then some (cp ∷ [])
    else if leb cp 0x7ff
    then some ((0xc0 + cp / 64) ∷ (0x80 + cp % 64) ∷ [])
    else if leb cp 0xffff
    then (if leb 0xd800 cp && leb cp 0xdfff
        then none
        else some ((0xe0 + cp / 4096) ∷ (0x80 + cp / 64 % 64) ∷ (0x80 + cp % 64) ∷ []))
    else if leb cp 0x10ffff
    then some (
        (0xf0 + cp / 262144)
        ∷ (0x80 + cp / 4096 % 64)
        ∷ (0x80 + cp / 64 % 64)
        ∷ (0x80 + cp % 64)
        ∷ [])
    else none

-- The one-character escapes of the switch in `parse_string`.
unfoldable pub simple_escape : ℕ → Option ℕ
simple_escape e =
    if e == b'"'
    then some b'"'
    else if e == b'\\'
    then some b'\\'
    else if e == b'/'
    then some b'/'
    else if e == b'b'
    then some 8
    else if e == b'f'
    then some 12
    else if e == b'n'
    then some b'\n'
    else if e == b'r'
    then some b'\r'
    else if e == b't'
    then some b'\t'
    else none

abbrev pub is_high_surrogate : ℕ → Bool
is_high_surrogate cp = leb 0xd800 cp && leb cp 0xdbff

abbrev pub is_low_surrogate : ℕ → Bool
is_low_surrogate cp = leb 0xdc00 cp && leb cp 0xdfff

-- After a high surrogate: `\u` and the low one.
unfoldable pub low_half : ℕ → Bytes → Outcome (ℕ × Bytes)
low_half high s = do
  s₁ ← expect b'\\' s
  s₂ ← expect b'u' s₁
  (low, s₃) ← parse_hex4 s₂
  guard (is_low_surrogate low)
  found (0x10000 + (high - 0xd800) * 1024 + (low - 0xdc00), s₃)

-- `case 'u'`, without the bytes that it pushes.
unfoldable pub code_point : Bytes → Outcome (ℕ × Bytes)
code_point s = do
  (cp, s₁) ← parse_hex4 s
  if is_high_surrogate cp
      then low_half cp s₁
      else if is_low_surrogate cp
      then refused
      else found (cp, s₁)

unfoldable pub unicode_escape : Bytes → Outcome (Bytes × Bytes)
unicode_escape s = do (cp, s₁) ← code_point s; out ← of_option (append_utf8 cp); found (out, s₁)

-- Behind a backslash: the bytes to push and the cursor.
unfoldable pub escape : Bytes → Outcome (Bytes × Bytes)
escape [] = refused
escape (e ∷ s) =
    if e == b'u' then unicode_escape s else (do b ← of_option (simple_escape e); found (b ∷ [], s))

-- The loop of `parse_string`; the fuel is the number of bytes left.
unfoldable pub string_loop : ℕ → Bytes → Bytes → Outcome (Bytes × Bytes)
string_loop n out [] = refused
string_loop zero out (c ∷ s) = spent
string_loop (suc n) out (c ∷ s) =
    let plain = string_loop n (out ++ c ∷ []) s in
    let escaped = (do (bs, s₁) ← escape s; string_loop n (out ++ bs) s₁) in
    if c == b'"'
    then found (out, s)
    else if ltb c 0x20
    then refused
    else if not (c == b'\\')
    then plain
    else escaped

unfoldable pub parse_string : Bytes → Outcome (Bytes × Bytes)
parse_string s = do s₁ ← expect b'"' s; string_loop (length s₁) [] s₁

-- The `do … while` of `parse_uint64`, which is entered at a digit.
unfoldable pub digits_loop : ℕ → Bytes → Outcome (ℕ × Bytes)
digits_loop value [] = found (value, [])
digits_loop value (c ∷ s) =
    let rest = digits_loop (value * 10 + (c - b'0')) s in
    if not (is_digit c)
    then found (value, c ∷ s)
    else if ltb ((u64_max - (c - b'0')) / 10) value
    then refused
    else rest

-- `*p == '0' && p + 1 < end && p[1] is a digit`
unfoldable pub has_leading_zero : Bytes → Bool
has_leading_zero [] = false
has_leading_zero (c ∷ []) = false
has_leading_zero (c ∷ d ∷ s) = c == b'0' && is_digit d

unfoldable pub starts_with_digit : Bytes → Bool
starts_with_digit [] = false
starts_with_digit (c ∷ s) = is_digit c

unfoldable pub parse_uint64 : Bytes → Outcome (ℕ × Bytes)
parse_uint64 s = do
  let s₁ = skip_ws s
  guard (starts_with_digit s₁)
  guard (not (has_leading_zero s₁))
  digits_loop 0 s₁

-- `do { ++p; } while (p < end && *p is a digit);` behind the first digit.
unfoldable pub skip_digits : Bytes → Bytes
skip_digits [] = []
skip_digits (c ∷ s) = if is_digit c then skip_digits s else c ∷ s

-- At least one digit.
unfoldable pub some_digits : Bytes → Outcome Bytes
some_digits s = do guard (starts_with_digit s); found (skip_digits s)

-- Skip one byte if it is among those that the test takes.
unfoldable pub skip_if : (ℕ → Bool) → Bytes → Bytes
skip_if test [] = []
skip_if test (c ∷ s) = if test c then s else c ∷ s

unfoldable pub skip_fraction : Bytes → Outcome Bytes
skip_fraction [] = found []
skip_fraction (c ∷ s) = if c == b'.' then some_digits s else found (c ∷ s)

unfoldable pub skip_exponent : Bytes → Outcome Bytes
skip_exponent [] = found []
skip_exponent (c ∷ s) =
    if c == b'e' || c == b'E'
    then some_digits (skip_if (λ d. d == b'+' || d == b'-') s)
    else found (c ∷ s)

unfoldable pub skip_whole : Bytes → Outcome Bytes
skip_whole [] = refused
skip_whole (c ∷ s) =
    if c == b'0' then found s else if is_digit c then found (skip_digits s) else refused

unfoldable pub skip_number : Bytes → Outcome Bytes
skip_number s = do
  s₁ ← skip_whole (skip_if (λ c. c == b'-') s)
  s₂ ← skip_fraction s₁
  skip_exponent s₂
