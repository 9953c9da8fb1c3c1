-- ===== src/Safetensors/Scan/RoundTrip.antt =====
-- The string and number scanners of src/io/safetensors.cpp against independent printers.
use mathlib.Core.List.{append-nil, append_assoc}
use resonantia.Prelude.{
  length-append, zero, ◌∙◌, ◌≤◌, ltb, refl, some, suc, [], ◌∷◌, ◌++◌, ◌+◌, ◌-◌, ◌/◌, ◌%◌, ◌==◌, ◌<◌,
  ◌≡◌, if◌then◌else◌, ℕ, Bytes, length, arith,
}
use resonantia.Outcome.{found}
use resonantia.Safetensors.Scan.{
  expect, hex_loop, parse_hex4, code_point, unicode_escape, escape, string_loop, parse_string,
  hex_digit, simple_escape, append_utf8,
}

abbrev hex_char : ℕ → ℕ
hex_char d = if ltb d 10 then b'0' + d else b'a' + d - 10

-- A JSON printer: quotes, backslashes and control characters are escaped.
quote_byte : ℕ → Bytes
quote_byte b =
    if b == b'"'
    then b'\\' ∷ b'"' ∷ []
    else if b == b'\\'
    then b'\\' ∷ b'\\' ∷ []
    else if ltb b 0x20
    then b'\\' ∷ b'u' ∷ b'0' ∷ b'0' ∷ hex_char (b / 16) ∷ hex_char (b % 16) ∷ []
    else b ∷ []

quote_bytes : Bytes → Bytes
quote_bytes [] = []
quote_bytes (b ∷ s) = quote_byte b ++ quote_bytes s

pub quote : Bytes → Bytes
quote s = b'"' ∷ (quote_bytes s ++ b'"' ∷ [])

hex_digit-hex_char : (d : ℕ) → d < 16 → hex_digit (hex_char d) ≡ some d
unfolding hex_digit
hex_digit-hex_char d h = ground arith

escape_control :
    (b : ℕ) (t : Bytes)
    → b < 0x20
    → escape (b'u' ∷ b'0' ∷ b'0' ∷ hex_char (b / 16) ∷ hex_char (b % 16) ∷ t) ≡ found (b ∷ [], t)
unfolding escape unicode_escape code_point parse_hex4 hex_loop
escape_control b t h =
    ground (arith, hex_digit-hex_char (b / 16), hex_digit-hex_char (b % 16), zero_digit, utf)
  where
    zero_digit : hex_digit b'0' ≡ some 0
    zero_digit = unfold hex_digit in refl

    utf : append_utf8 b ≡ some (b ∷ [])
    utf = unfold append_utf8 in ground arith

string_loop-quote_byte :
    (n b : ℕ) (out t : Bytes)
    → string_loop (suc n) out (quote_byte b ++ t) ≡ string_loop n (out ++ b ∷ []) t
unfolding string_loop quote_byte
string_loop-quote_byte n b out t = ground (arith, escape_control b t, quoted, slashed)
  where
    quoted : escape (b'"' ∷ t) ≡ found (b'"' ∷ [], t)
    quoted = unfold escape simple_escape in refl

    slashed : escape (b'\\' ∷ t) ≡ found (b'\\' ∷ [], t)
    slashed = unfold escape simple_escape in refl

string_loop-quote_bytes :
    (n : ℕ) (out s rest : Bytes)
    → length s < n
    → string_loop n out (quote_bytes s ++ (b'"' ∷ rest)) ≡ found (out ++ s, rest)
unfolding quote_bytes
string_loop-quote_bytes zero out s rest h = absurd (omega arith)
string_loop-quote_bytes (suc n) out [] rest h = rw append-nil (unfold string_loop in refl)
string_loop-quote_bytes (suc n) out (b ∷ s) rest h = rw append_assoc (
    string_loop-quote_byte n b out (quote_bytes s ++ (b'"' ∷ rest))
    ∙ string_loop-quote_bytes n (out ++ b ∷ []) s rest (omega arith)
    ∙ rw append_assoc)

length-quote_bytes : (s : Bytes) → length s ≤ length (quote_bytes s)
unfolding quote_bytes quote_byte
length-quote_bytes [] = omega arith
length-quote_bytes (b ∷ s) =
    omega (arith, length-quote_bytes s, length-append (quote_byte b) (quote_bytes s), one)
  where
    one : 1 ≤ length (quote_byte b)
    one = ground arith

-- `parse_string` reads back what the printer writes, for every byte string and whatever follows.
pub parse_string-quote : (s rest : Bytes) → parse_string (quote s ++ rest) ≡ found (s, rest)
unfolding quote parse_string expect
parse_string-quote s rest = rw append_assoc (
    string_loop-quote_bytes (length (quote_bytes s ++ (b'"' ∷ rest))) [] s rest
      (omega (arith, length-append (quote_bytes s) (b'"' ∷ rest), length-quote_bytes s)))
