-- ===== src/Http/Auth/Laws.antt =====
-- What the checks of sizes and tokens decide.
use resonantia.Prelude.Decimal.{decimal, decimal-ge}
use Prim.Native.Nat.{max, bit_or, bit_xor}
use resonantia.Prelude.{
  drop-append, length-append, take-append-drop, ap, lower, inr, inl, some, none, ◌++◌, ◌-◌, ◌*◌,
  ◌≤◌, ◌⊎◌, ◌&&◌, if◌then◌else◌, sym, refl, true, suc, zero, [], ◌∷◌, ◌+◌, ◌∙◌, ◌↔◌, ◌≡◌, ℕ, arith,
}
use resonantia.Prelude.Bits.{bit_or-eq_zero_iff, bit_xor-eq_zero_iff}
use resonantia.Http.Auth.{
  ltb, is_digit, take, leb, size_max, not, drop, Bool, size_loop, length, Bytes, byte_at,
  difference_loop, constant_time_equal, matches_prefix, bearer, authorized,
}

-- The two texts agree at the places from `i` on, for so many places.
Agree : Bytes → Bytes → ℕ → ℕ → Type 0
Agree left right zero i = Unit {0}
Agree left right (suc rounds) i =
    (byte_at left i ≡ byte_at right i) × Agree left right rounds (i + 1)

difference_loop_iff :
    (left right : Bytes) (rounds i difference : ℕ)
    → (difference_loop left right rounds i difference ≡ 0)
      ↔ ((difference ≡ 0) × Agree left right rounds i)
unfolding difference_loop Agree
difference_loop_iff left right zero i difference = (λ e. (e, tt), λ p. p.0)
difference_loop_iff left right (suc rounds) i difference =
    let d = bit_or difference (bit_xor (byte_at left i) (byte_at right i)) in
    let rest = difference_loop_iff left right rounds (i + 1) d in
    let or = bit_or-eq_zero_iff difference (bit_xor (byte_at left i) (byte_at right i)) in
    let xor = bit_xor-eq_zero_iff (byte_at left i) (byte_at right i) in
    (
      λ e. let (z, agree) = rest.0 e in let (p, q) = or.0 z in (p, (xor.0 q, agree)),
      λ p. rest.1 (or.1 (p.0, xor.1 p.1.0), p.1.1),
    )

byte_at_suc : (c : ℕ) (s : Bytes) (i : ℕ) → byte_at (c ∷ s) (i + 1) ≡ byte_at s i
unfolding byte_at
byte_at_suc c s i = let e : i + 1 ≡ suc i = omega arith in rw e refl

Agree-tail :
    (c d : ℕ) (s t : Bytes) (rounds i : ℕ)
    → Agree (c ∷ s) (d ∷ t) rounds (i + 1)
    → Agree s t rounds i
unfolding Agree
Agree-tail c d s t zero i h = tt
Agree-tail c d s t (suc rounds) i h =
    (sym (byte_at_suc c s i) ∙ h.0 ∙ byte_at_suc d t i, Agree-tail c d s t rounds (i + 1) h.1)

Agree-eq : (s t : Bytes) → length s ≡ length t → Agree s t (length s) 0 → s ≡ t
unfolding Agree byte_at
Agree-eq [] [] l h = refl
Agree-eq [] (d ∷ t) l h = absurd (omega arith)
Agree-eq (c ∷ s) [] l h = absurd (omega arith)
Agree-eq (c ∷ s) (d ∷ t) l h =
    let tails = Agree-tail c d s t (length s) 0 h.1 in
    let same = Agree-eq s t (omega arith) tails in let first : c ≡ d = h.0 in cc (same, first)

Agree-self : (s : Bytes) (rounds i : ℕ) → Agree s s rounds i
unfolding Agree
Agree-self s zero i = tt
Agree-self s (suc rounds) i = (refl, Agree-self s rounds (i + 1))

-- The comparison that looks at every byte is equality.
pub constant_time_equal_iff :
    (left right : Bytes) → (constant_time_equal left right ≡ true) ↔ (left ≡ right)
unfolding constant_time_equal
constant_time_equal_iff left right =
    (λ e. equal (ground (arith, e)), λ e. rw e (ground (arith, same right)))
  where
    equal :
        difference_loop left right
            (max (length left) (length right))
            0
            (bit_xor (length left) (length right))
          ≡ 0
        → left ≡ right
    equal z =
        let (x, agree) = (difference_loop_iff left right _ 0 _).0 z in
        let lengths = (bit_xor-eq_zero_iff (length left) (length right)).0 x in
        let rounds : max (length left) (length right) ≡ length left = omega arith in
        Agree-eq left right lengths (rw rounds at agree)

    same :
        (s : Bytes)
        → difference_loop s s (max (length s) (length s)) 0 (bit_xor (length s) (length s)) ≡ 0
    same s =
        (difference_loop_iff s s _ 0 _).1
          ((bit_xor-eq_zero_iff (length s) (length s)).1 refl, Agree-self s _ 0)

length-lower : (s : Bytes) → length (lower s) ≡ length s
unfolding lower
length-lower [] = refl
length-lower (c ∷ s) = ap suc (length-lower s)

matches_prefix-take :
    (ks s : Bytes)
    → matches_prefix ks s ≡ true
    → (lower (take (length ks) s) ≡ lower ks) × (length ks ≤ length s)
unfolding matches_prefix lower
matches_prefix-take [] s h = (refl, omega arith)
matches_prefix-take (k ∷ ks) [] h = cc
matches_prefix-take (k ∷ ks) (c ∷ s) h = ground (arith, matches_prefix-take ks s)

matches_prefix-append : (ks p t : Bytes) → lower p ≡ lower ks → matches_prefix ks (p ++ t) ≡ true
unfolding matches_prefix lower
matches_prefix-append [] p t h = refl
matches_prefix-append (k ∷ ks) [] t h = cc
matches_prefix-append (k ∷ ks) (c ∷ p) t h = ground (arith, matches_prefix-append ks p t)

-- A request is let through exactly if the server has no token, or the header is `Bearer `, in any
-- case, with the token behind it.
pub authorized_iff :
    (authorization token : Bytes)
    → (authorized authorization token ≡ true)
      ↔ ((token ≡ []) ⊎ ((p : Bytes) × (lower p ≡ lower bearer) × (authorization ≡ p ++ token)))
unfolding authorized
authorized_iff a token = (forth token, back)
  where
    given :
        (t : Bytes)
        → (not (ltb (length a) 7) && matches_prefix bearer a && constant_time_equal (drop 7 a) t)
          ≡ true
        → (p : Bytes) × (lower p ≡ lower bearer) × (a ≡ p ++ t)
    given t h =
        let m : matches_prefix bearer a ≡ true = ground arith in
        let e : drop 7 a ≡ t = (constant_time_equal_iff (drop 7 a) t).0 (ground arith) in
        (take 7 a, (matches_prefix-take bearer a m).0, rw (← e) (sym (take-append-drop 7 a)))

    forth :
        (t : Bytes)
        → authorized a t ≡ true
        → (t ≡ []) ⊎ ((p : Bytes) × (lower p ≡ lower bearer) × (a ≡ p ++ t))
    forth [] h = inl refl
    forth (c ∷ t) h = inr (given (c ∷ t) (ground arith))

    back :
        (token ≡ []) ⊎ ((p : Bytes) × (lower p ≡ lower bearer) × (a ≡ p ++ token))
        → authorized a token ≡ true
    back (inl e) = rw e refl
    back (inr (p, l, e)) =
        let seven : length p ≡ 7 =
          omega (arith, length-lower p, ap length l, length-lower bearer) in
        rw e (
          ground (
            arith,
            matches_prefix-append bearer p token l,
            drop-append p token 7 seven,
            seven,
            length-append p token,
            (constant_time_equal_iff (drop 7 (p ++ token)) token).1 (drop-append p token 7 seven),
          ))

abbrev pub all_digits : Bytes → Bool
all_digits [] = true
all_digits (c ∷ s) = is_digit c && all_digits s

size_loop-decimal :
    (parsed : ℕ) (s : Bytes)
    → parsed ≤ size_max
    → size_loop parsed s
      ≡ (if all_digits s && leb (decimal parsed s) size_max then some (decimal parsed s) else none)
unfolding size_loop
size_loop-decimal parsed [] h = ground arith
size_loop-decimal parsed (c ∷ s) h = ground (
  arith,
  decimal-ge (parsed * 10 + (c - b'0')) s,
  λ (k : parsed * 10 + (c - b'0') ≤ size_max). size_loop-decimal (parsed * 10 + (c - b'0')) s k,
)
