-- ===== src/Safetensors/Skip.antt =====
-- `skip_array`, `skip_object` and `skip_value` of src/io/safetensors.cpp. They call one another, with
-- a depth that is checked against `kMaxJsonDepth`: here the two containers take the recursive call
-- as a function, and `skip_value` recurs on fuel for the nesting.
pub mod Total
use resonantia.Prelude.{
  strip_prefix, refl, ◌≡◌, inr, inl, ◌⊎◌, ℕ, zero, suc, ◌+◌, Bool, ◌||◌, not, true, false, List, [],
  ◌∷◌, Bytes, codes, is_digit, ltb, ◌==◌, if◌then◌else◌, Option, none, some, length, contains,
}
use resonantia.Outcome.{Outcome, found, refused, spent, ◌>>=◌, ◌>>◌, guard, of_option}
use resonantia.Safetensors.Scan.{skip_ws, expect, parse_string, skip_number}

abbrev pub max_json_depth : ℕ
max_json_depth = 64

-- What follows an element: the closing byte ends the container, a comma goes on with the next one.
pub data Next : Type 0 where
  closed : Bytes → Next
  more : Bytes → Next

-- What the loop does in the two cases.
abbrev pub branch {ℓ} : {A : Type ℓ} → Next → (Bytes → A) → (Bytes → A) → A
branch (closed r) f g = f r
branch (more r) f g = g r

pub branch-cases {ℓ} :
    {A : Type ℓ} (next : Next) (f g : Bytes → A) {b : A}
    → branch next f g ≡ b
    → ((r : Bytes) × (next ≡ closed r) × (f r ≡ b)) ⊎ ((r : Bytes) × (next ≡ more r) × (g r ≡ b))
branch-cases (closed r) f g h = inl (r, refl, h)
branch-cases (more r) f g h = inr (r, refl, h)

unfoldable pub separator : ℕ → Bytes → Outcome Next
separator close s = elim (skip_ws s) [
  | [] ↦ refused
  | c ∷ r ↦
      if c == close
      then found (closed r)
      else if c == b','
      then found (more (skip_ws r))
      else refused
]

-- `if (p < end && *p == close) { ++p; return true; }` in front of the loop.
unfoldable pub opens_empty : ℕ → Bytes → Option Bytes
opens_empty close [] = none
opens_empty close (c ∷ s) = if c == close then some s else none

-- The `while (p < end)` of `skip_array`, for at most as many rounds as the fuel allows.
unfoldable pub elements_loop : (Bytes → Outcome Bytes) → ℕ → Bytes → Outcome Bytes
elements_loop value fuel [] = refused
elements_loop value zero (c ∷ s) = spent
elements_loop value (suc fuel) (c ∷ s) = do
  s₁ ← value (c ∷ s)
  next ← separator b']' s₁
  branch next (λ r. found r) (λ r. elements_loop value fuel r)

unfoldable pub skip_array : (ℕ → Bytes → Outcome Bytes) → ℕ → Bytes → Outcome Bytes
skip_array value depth s = do
  guard (not (ltb max_json_depth depth))
  s₁ ← expect b'[' s
  let s₂ = skip_ws s₁
  elim (opens_empty b']' s₂) [
    | some r ↦ found r
    | none ↦ elements_loop (value (depth + 1)) (length s₂) s₂
  ]

-- The `while (p < end)` of `skip_object`, with the keys seen so far.
unfoldable pub members_loop : (Bytes → Outcome Bytes) → ℕ → List Bytes → Bytes → Outcome Bytes
members_loop value fuel keys [] = refused
members_loop value zero keys (c ∷ s) = spent
members_loop value (suc fuel) keys (c ∷ s) = do
  (key, s₁) ← parse_string (c ∷ s)
  guard (not (contains key keys))
  s₂ ← expect b':' (skip_ws s₁)
  s₃ ← value s₂
  next ← separator b'}' s₃
  branch next (λ r. found r) (λ r. members_loop value fuel (key ∷ keys) r)

unfoldable pub skip_object : (ℕ → Bytes → Outcome Bytes) → ℕ → Bytes → Outcome Bytes
skip_object value depth s = do
  guard (not (ltb max_json_depth depth))
  s₁ ← expect b'{' s
  let s₂ = skip_ws s₁
  elim (opens_empty b'}' s₂) [
    | some r ↦ found r
    | none ↦ members_loop (value (depth + 1)) (length s₂) [] s₂
  ]

unfoldable pub skip_literals : List Bytes → Bytes → Outcome Bytes
skip_literals [] s = refused
skip_literals (l ∷ ls) s = elim (strip_prefix l s) [ some r ↦ found r | none ↦ skip_literals ls s ]

abbrev pub literals : List Bytes
literals = codes "true" ∷ codes "false" ∷ codes "null" ∷ []

-- The dispatch of `skip_value` on the first byte; the recursive calls go through `value`.
unfoldable pub skip_at : (ℕ → Bytes → Outcome Bytes) → ℕ → Bytes → Outcome Bytes
skip_at value depth [] = refused
skip_at value depth (c ∷ s) =
    if c == b'{'
    then skip_object value depth (c ∷ s)
    else if c == b'['
    then skip_array value depth (c ∷ s)
    else if c == b'"'
    then (do (ignored, r) ← parse_string (c ∷ s); found r)
    else if c == b'-' || is_digit c
    then skip_number (c ∷ s)
    else skip_literals literals (c ∷ s)

unfoldable pub skip_value : ℕ → ℕ → Bytes → Outcome Bytes
skip_value zero depth s = if ltb max_json_depth depth then refused else spent
skip_value (suc fuel) depth s =
    let dispatched = skip_at (λ d r. skip_value fuel d r) depth (skip_ws s) in
    if ltb max_json_depth depth then refused else dispatched

-- Calls are at depth 1 or deeper, and depth 65 is refused.
abbrev pub nesting_fuel : ℕ
nesting_fuel = 64
