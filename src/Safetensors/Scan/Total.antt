-- ===== src/Safetensors/Scan/Total.antt =====
-- The scanners of src/io/safetensors.cpp end, and consume at least one byte where they succeed.
use resonantia.Prelude.{
  Bool, not, ◌≡◌, true, ◌-◌, ◌==◌, ◌||◌, leb, [], ◌++◌, ◌*◌, suc, zero, ◌∷◌, ◌+◌, ◌≤◌, ℕ, Bytes,
  length, arith,
}
use resonantia.Outcome.{Ends-of_option, Ends-mono, Ends-guard, ◌>>=◌, Ends, Ends-bind, left}
use resonantia.Safetensors.Scan.{
  has_leading_zero, skip_ws, expect, hex_loop, parse_hex4, low_half, code_point, unicode_escape,
  escape, string_loop, parse_string, digits_loop, parse_uint64, skip_digits, some_digits, skip_if,
  skip_fraction, skip_exponent, skip_whole, skip_number, hex_digit, simple_escape, append_utf8,
  starts_with_digit,
}

pub skip_ws-le : (s : Bytes) → length (skip_ws s) ≤ length s
unfolding skip_ws
skip_ws-le [] = omega arith
skip_ws-le (c ∷ s) = ground (arith, skip_ws-le s)

pub expect-Ends : (k : ℕ) (s : Bytes) → Ends length (length s) (expect k s)
unfolding expect
expect-Ends k [] = tt
expect-Ends k (c ∷ s) = ground arith

hex_loop-Ends : (n value : ℕ) (s : Bytes) → Ends left (length s + 1) (hex_loop n value s)
unfolding hex_loop
hex_loop-Ends zero value s = omega arith
hex_loop-Ends (suc n) value [] = tt
hex_loop-Ends (suc n) value (c ∷ s) = Ends-of_option left (length (c ∷ s) + 1) (hex_digit c) _ λ d.
    Ends-mono left (length s + 1) (length (c ∷ s) + 1) (hex_loop n (value * 16 + d) s)
      (hex_loop-Ends n (value * 16 + d) s) (omega arith)

hex_loop_four : (c : ℕ) (s : Bytes) → Ends left (length (c ∷ s)) (hex_loop 4 0 (c ∷ s))
unfolding hex_loop
hex_loop_four c s = Ends-of_option left (length (c ∷ s)) (hex_digit c) _ λ d.
    Ends-mono left (length s + 1) (length (c ∷ s)) (hex_loop 3 (0 * 16 + d) s)
      (hex_loop-Ends 3 (0 * 16 + d) s) (omega arith)

parse_hex4-Ends : (s : Bytes) → Ends left (length s) (parse_hex4 s)
unfolding parse_hex4
parse_hex4-Ends [] = tt
parse_hex4-Ends (c ∷ s) =
    Ends-guard left (length (c ∷ s)) (leb 4 (length (c ∷ s))) (hex_loop 4 0 (c ∷ s))
      λ _. hex_loop_four c s

low_half-Ends : (high : ℕ) (s : Bytes) → Ends left (length s) (low_half high s)
unfolding low_half
low_half-Ends high s =
    Ends-bind length (length s) left (length s) (expect b'\\' s) _ (expect-Ends b'\\' s) λ s₁ h₁.
      Ends-bind length (length s₁) left (length s) (expect b'u' s₁) _ (expect-Ends b'u' s₁) λ s₂ h₂.
        Ends-bind left (length s₂) left (length s) (parse_hex4 s₂) _ (parse_hex4-Ends s₂)
          λ (low, s₃) h₃. ground arith

code_point-Ends : (s : Bytes) → Ends left (length s) (code_point s)
unfolding code_point
code_point-Ends s =
    Ends-bind left (length s) left (length s) (parse_hex4 s) _ (parse_hex4-Ends s) λ (cp, s₁) h₁.
      let low =
        Ends-mono left (length s₁) (length s) (low_half cp s₁) (low_half-Ends cp s₁)
          (omega arith) in
      ground (arith, low)

escape-Ends : (s : Bytes) → Ends left (length s) (escape s)
unfolding escape unicode_escape
escape-Ends [] = tt
escape-Ends (e ∷ s) = ground (arith, unicode, simple_escape e)
  where
    unicode : Ends left (length (e ∷ s)) (unicode_escape s)
    unicode =
        Ends-bind left (length s) left (length (e ∷ s)) (code_point s) _ (code_point-Ends s)
          λ (cp, s₁) h₁. Ends-of_option left (length (e ∷ s)) (append_utf8 cp) _ λ out. omega arith

string_loop-Ends :
    (n : ℕ) (out s : Bytes) → length s ≤ n → Ends left (length s) (string_loop n out s)
unfolding string_loop
string_loop-Ends n out [] h = tt
string_loop-Ends zero out (c ∷ s) h = absurd (omega arith)
string_loop-Ends (suc n) out (c ∷ s) h =
    let plain : Ends left (length (c ∷ s)) (string_loop n (out ++ c ∷ []) s) =
      Ends-mono left (length s) (length (c ∷ s)) (string_loop n (out ++ c ∷ []) s)
        (string_loop-Ends n (out ++ c ∷ []) s (omega arith)) (omega arith) in
    let escaped : Ends left (length (c ∷ s)) (escape s >>= λ r. string_loop n (out ++ r.0) r.1) =
      Ends-bind left (length s) left (length (c ∷ s)) (escape s) _ (escape-Ends s) λ (bs, s₁) h₁.
        Ends-mono left (length s₁) (length (c ∷ s)) (string_loop n (out ++ bs) s₁)
          (string_loop-Ends n (out ++ bs) s₁ (omega arith)) (omega arith) in
    ground (arith, plain, escaped)

pub parse_string-Ends : (s : Bytes) → Ends left (length s) (parse_string s)
unfolding parse_string
parse_string-Ends s =
    Ends-bind length (length s) left (length s) (expect b'"' s) _ (expect-Ends b'"' s) λ s₁ h₁.
      Ends-mono left (length s₁) (length s) (string_loop (length s₁) [] s₁)
        (string_loop-Ends (length s₁) [] s₁ (omega arith)) (omega arith)

digits_loop-Ends : (value : ℕ) (s : Bytes) → Ends left (length s + 1) (digits_loop value s)
unfolding digits_loop
digits_loop-Ends value [] = omega arith
digits_loop-Ends value (c ∷ s) =
    let rest =
      Ends-mono left (length s + 1) (length (c ∷ s) + 1) (digits_loop (value * 10 + (c - b'0')) s)
        (digits_loop-Ends (value * 10 + (c - b'0')) s) (omega arith) in
    ground (arith, rest)

digits_loop_digit :
    (value : ℕ) (s : Bytes)
    → starts_with_digit s ≡ true
    → Ends left (length s) (digits_loop value s)
unfolding digits_loop starts_with_digit
digits_loop_digit value [] h = cc
digits_loop_digit value (c ∷ s) h =
    let rest =
      Ends-mono left (length s + 1) (length (c ∷ s)) (digits_loop (value * 10 + (c - b'0')) s)
        (digits_loop-Ends (value * 10 + (c - b'0')) s) (omega arith) in
    ground (arith, rest)

pub parse_uint64-Ends : (s : Bytes) → Ends left (length s) (parse_uint64 s)
unfolding parse_uint64
parse_uint64-Ends s = Ends-guard left (length s) (starts_with_digit (skip_ws s)) _ λ d.
    Ends-guard left (length s) (not (has_leading_zero (skip_ws s))) _ λ _.
      Ends-mono left (length (skip_ws s)) (length s) (digits_loop 0 (skip_ws s))
        (digits_loop_digit 0 (skip_ws s) d) (skip_ws-le s)

skip_digits-le : (s : Bytes) → length (skip_digits s) ≤ length s
unfolding skip_digits
skip_digits-le [] = omega arith
skip_digits-le (c ∷ s) = ground (arith, skip_digits-le s)

some_digits-Ends : (s : Bytes) → Ends length (length s) (some_digits s)
unfolding some_digits starts_with_digit skip_digits
some_digits-Ends [] = tt
some_digits-Ends (c ∷ s) = ground (arith, skip_digits-le s)

skip_if-le : (test : ℕ → Bool) (s : Bytes) → length (skip_if test s) ≤ length s
unfolding skip_if
skip_if-le test [] = omega arith
skip_if-le test (c ∷ s) = ground arith

skip_fraction-Ends : (s : Bytes) → Ends length (length s + 1) (skip_fraction s)
unfolding skip_fraction
skip_fraction-Ends [] = omega arith
skip_fraction-Ends (c ∷ s) =
    let rest =
      Ends-mono length (length s) (length (c ∷ s) + 1) (some_digits s) (some_digits-Ends s)
        (omega arith) in
    ground (arith, rest)

skip_exponent-Ends : (s : Bytes) → Ends length (length s + 1) (skip_exponent s)
unfolding skip_exponent
skip_exponent-Ends [] = omega arith
skip_exponent-Ends (c ∷ s) =
    let t = skip_if (λ d. d == b'+' || d == b'-') s in
    let rest =
      Ends-mono length (length t) (length (c ∷ s) + 1) (some_digits t) (some_digits-Ends t)
        (omega (arith, skip_if-le (λ d. d == b'+' || d == b'-') s)) in
    ground (arith, rest)

skip_whole-Ends : (s : Bytes) → Ends length (length s) (skip_whole s)
unfolding skip_whole
skip_whole-Ends [] = tt
skip_whole-Ends (c ∷ s) = ground (arith, skip_digits-le s)

pub skip_number-Ends : (s : Bytes) → Ends length (length s) (skip_number s)
unfolding skip_number
skip_number-Ends s =
    let s₀ = skip_if (λ c. c == b'-') s in
    let le = skip_if-le (λ c. c == b'-') s in
    Ends-bind length (length s₀) length (length s) (skip_whole s₀) _ (skip_whole-Ends s₀) λ s₁ h₁.
      Ends-bind length (length s₁ + 1) length (length s) (skip_fraction s₁) _
        (skip_fraction-Ends s₁)
        λ s₂ h₂.
          Ends-mono length (length s₂ + 1) (length s) (skip_exponent s₂) (skip_exponent-Ends s₂)
            (omega arith)
