-- ===== src/Prelude/Bits.antt =====
-- When `|` and `^` give zero, at every width: from the digit recursions that they stand for.
use Prim.Native.Nat.{max, bit_or, bit_xor, digits, differ, bit_or-bitwise, bit_xor-bitwise}
use resonantia.Prelude.{ℕ, zero, suc, ◌/◌, ◌%◌, ◌≤◌, ◌≡◌, ◌↔◌, refl, arith}

abbrev or_digits : ℕ → ℕ → ℕ → ℕ
or_digits n a b = digits (λ b. b) max n a b

abbrev xor_digits : ℕ → ℕ → ℕ → ℕ
xor_digits n a b = digits (λ b. b) differ n a b

or_digits-eq_zero : (n a b : ℕ) → a ≤ n → or_digits n a b ≡ 0 → (a ≡ 0) × (b ≡ 0)
or_digits-eq_zero zero a b h e = omega arith
or_digits-eq_zero (suc n) zero b h e = omega arith
or_digits-eq_zero (suc n) (suc a) b h e =
    let top : or_digits n (suc a / 2) (b / 2) ≡ 0 = omega arith in
    omega (arith, or_digits-eq_zero n (suc a / 2) (b / 2) (omega arith) top)

differ-eq_zero : (x y : ℕ) → differ x y ≡ 0 → x ≡ y
differ-eq_zero zero y e = omega arith
differ-eq_zero (suc x) zero e = omega arith
differ-eq_zero (suc x) (suc y) e = omega (arith, differ-eq_zero x y e)

differ_self : (x : ℕ) → differ x x ≡ 0
differ_self zero = refl
differ_self (suc x) = differ_self x

xor_digits-eq_zero : (n a b : ℕ) → a ≤ n → xor_digits n a b ≡ 0 → a ≡ b
xor_digits-eq_zero zero a b h e = omega arith
xor_digits-eq_zero (suc n) zero b h e = omega arith
xor_digits-eq_zero (suc n) (suc a) b h e =
    let top : xor_digits n (suc a / 2) (b / 2) ≡ 0 = omega arith in
    let low : differ (suc a % 2) (b % 2) ≡ 0 = omega arith in
    omega (
      arith,
      xor_digits-eq_zero n (suc a / 2) (b / 2) (omega arith) top,
      differ-eq_zero (suc a % 2) (b % 2) low,
    )

xor_digits_self : (n a : ℕ) → a ≤ n → xor_digits n a a ≡ 0
xor_digits_self zero a h = omega arith
xor_digits_self (suc n) zero h = refl
xor_digits_self (suc n) (suc a) h =
    omega (arith, xor_digits_self n (suc a / 2) (omega arith), differ_self (suc a % 2))

pub bit_or-eq_zero_iff : (a b : ℕ) → (bit_or a b ≡ 0) ↔ ((a ≡ 0) × (b ≡ 0))
bit_or-eq_zero_iff a b = (
  λ e. or_digits-eq_zero a a b (omega arith) (omega (arith, bit_or-bitwise a b)),
  λ (p, q). both p q,
)
  where
    both : a ≡ 0 → b ≡ 0 → bit_or a b ≡ 0
    both p q = rw (p, q) refl

pub bit_xor-eq_zero_iff : (a b : ℕ) → (bit_xor a b ≡ 0) ↔ (a ≡ b)
bit_xor-eq_zero_iff a b = (
  λ e. xor_digits-eq_zero a a b (omega arith) (omega (arith, bit_xor-bitwise a b)),
  λ p. rw p (omega (arith, bit_xor-bitwise b b, xor_digits_self b b (omega arith))),
)
