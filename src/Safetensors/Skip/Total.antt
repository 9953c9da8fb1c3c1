-- ===== src/Safetensors/Skip/Total.antt =====
-- `skip_value` and its loops end: the element loops consume a byte a round, and the nesting is bounded.
use resonantia.Prelude.{
  strip_prefix, codes, Bool-cases, ◌≡◌, if◌then◌else◌, contains, ltb, Option-cases, List, not, inr,
  inl, some, none, suc, zero, [], ◌∷◌, ◌+◌, ◌==◌, ◌≤◌, ◌<◌, ℕ, Bytes, length, arith,
}
use resonantia.Outcome.{Outcome, found, refused, Ends, Ends-bind, Ends-mono, Ends-guard, left}
use resonantia.Safetensors.Scan.{skip_ws, expect, parse_string}
use resonantia.Safetensors.Scan.Total.{skip_ws-le, expect-Ends, parse_string-Ends, skip_number-Ends}
use resonantia.Safetensors.Skip.{
  Next, closed, more, branch, separator, opens_empty, elements_loop, skip_array, members_loop,
  skip_object, skip_literals, skip_at, skip_value, max_json_depth, literals,
}

abbrev pub after : Next → ℕ
after next = branch next length length

pub separator-Ends : (close : ℕ) (s : Bytes) → Ends after (length s) (separator close s)
unfolding separator
separator-Ends close s = go (skip_ws s) (skip_ws-le s)
  where
    go :
        (u : Bytes)
        → length u ≤ length s
        → Ends after (length s) (elim u [
          | [] ↦ refused
          | c ∷ r ↦
              if c == close
              then found (closed r)
              else if c == b','
              then found (more (skip_ws r))
              else refused
        ])
    go [] h = tt
    go (c ∷ r) h = ground (arith, skip_ws-le r)

module _ (value : Bytes → Outcome Bytes)
    (ends : (s : Bytes) → Ends length (length s) (value s)) where
  elements_loop-Ends :
      (fuel : ℕ) (s : Bytes) → length s ≤ fuel → Ends length (length s) (elements_loop value fuel s)
  unfolding elements_loop
  elements_loop-Ends fuel [] h = tt
  elements_loop-Ends zero (c ∷ s) h = absurd (omega arith)
  elements_loop-Ends (suc fuel) (c ∷ s) h =
      Ends-bind length (length (c ∷ s)) length (length (c ∷ s)) (value (c ∷ s)) _ (ends (c ∷ s))
        λ s₁ h₁.
          Ends-bind after (length s₁) length (length (c ∷ s)) (separator b']' s₁) _
            (separator-Ends b']' s₁)
            (elim [
              | closed r ↦ λ h₂. omega arith
              | more r ↦ λ h₂.
                  Ends-mono length (length r) (length (c ∷ s)) (elements_loop value fuel r)
                    (elements_loop-Ends fuel r (omega arith)) (omega arith)
            ])

  members_loop-Ends :
      (fuel : ℕ) (keys : List Bytes) (s : Bytes)
      → length s ≤ fuel
      → Ends length (length s) (members_loop value fuel keys s)
  unfolding members_loop
  members_loop-Ends fuel keys [] h = tt
  members_loop-Ends zero keys (c ∷ s) h = absurd (omega arith)
  members_loop-Ends (suc fuel) keys (c ∷ s) h =
      let n = length (c ∷ s) in
      Ends-bind left n length n (parse_string (c ∷ s)) _ (parse_string-Ends (c ∷ s)) λ (key, s₁) h₁.
        Ends-guard length n (not (contains key keys)) _ λ _.
          Ends-bind length (length (skip_ws s₁)) length n (expect b':' (skip_ws s₁)) _
            (expect-Ends b':' (skip_ws s₁))
            λ s₂ h₂. Ends-bind length (length s₂) length n (value s₂) _ (ends s₂) λ s₃ h₃.
              Ends-bind after (length s₃) length n (separator b'}' s₃) _ (separator-Ends b'}' s₃)
                (elim [
                  | closed r ↦ λ h₄. omega (arith, skip_ws-le s₁)
                  | more r ↦ λ h₄.
                      Ends-mono length (length r) n (members_loop value fuel (key ∷ keys) r)
                        (members_loop-Ends fuel (key ∷ keys) r (omega (arith, skip_ws-le s₁)))
                        (omega (arith, skip_ws-le s₁))
                ])

-- Where the brackets close at once, or the loop over the elements ends, so does the container.
opens_empty-Ends :
    (n close : ℕ) (s : Bytes) (loop : Outcome Bytes)
    → length s < n
    → Ends length n loop
    → Ends length n (elim (opens_empty close s) [ some r ↦ found r | none ↦ loop ])
unfolding opens_empty
opens_empty-Ends n close [] loop h e = e
opens_empty-Ends n close (c ∷ s) loop h e = ground arith

module _ (value : ℕ → Bytes → Outcome Bytes) (depth : ℕ)
    (ends : depth ≤ max_json_depth
      → (s : Bytes) → Ends length (length s) (value (depth + 1) s)) where
  skip_array-Ends : (s : Bytes) → Ends length (length s) (skip_array value depth s)
  unfolding skip_array
  skip_array-Ends s = Ends-guard length (length s) (not (ltb max_json_depth depth)) _ λ d.
      Ends-bind length (length s) length (length s) (expect b'[' s) _ (expect-Ends b'[' s) λ s₁ h₁.
        opens_empty-Ends (length s) b']' (skip_ws s₁) _ (omega (arith, skip_ws-le s₁)) (
          Ends-mono length (length (skip_ws s₁)) (length s)
            (elements_loop (value (depth + 1)) (length (skip_ws s₁)) (skip_ws s₁))
            (elements_loop-Ends (value (depth + 1)) (ends (ground arith)) (length (skip_ws s₁))
              (skip_ws s₁) (omega arith))
            (omega (arith, skip_ws-le s₁)))

  pub skip_object-Ends : (s : Bytes) → Ends length (length s) (skip_object value depth s)
  unfolding skip_object
  skip_object-Ends s = Ends-guard length (length s) (not (ltb max_json_depth depth)) _ λ d.
      Ends-bind length (length s) length (length s) (expect b'{' s) _ (expect-Ends b'{' s) λ s₁ h₁.
        opens_empty-Ends (length s) b'}' (skip_ws s₁) _ (omega (arith, skip_ws-le s₁)) (
          Ends-mono length (length (skip_ws s₁)) (length s)
            (members_loop (value (depth + 1)) (length (skip_ws s₁)) [] (skip_ws s₁))
            (members_loop-Ends (value (depth + 1)) (ends (ground arith)) (length (skip_ws s₁)) []
              (skip_ws s₁) (omega arith))
            (omega (arith, skip_ws-le s₁)))

strip_prefix-le :
    (l s : Bytes) (c : ℕ) {r : Bytes} → strip_prefix (c ∷ l) s ≡ some r → length r < length s
unfolding strip_prefix
strip_prefix-le l [] c h = cc
strip_prefix-le [] (d ∷ s) c {r} h = elim (Bool-cases (c == d)) [
  | inl e ↦ let same : s ≡ r = cc (rw e at h) in rw (← same) (omega arith)
  | inr e ↦ absurd (let x = rw e at h in cc)
]
strip_prefix-le (b ∷ l) (d ∷ s) c {r} h = elim (Bool-cases (c == d)) [
  | inl e ↦ let q = strip_prefix-le l s b (rw e at h) in omega arith
  | inr e ↦ absurd (let x = rw e at h in cc)
]

literal-Ends :
    (c : ℕ) (l : Bytes) (ls : List Bytes) (s : Bytes)
    → Ends length (length s) (skip_literals ls s)
    → Ends length (length s) (skip_literals ((c ∷ l) ∷ ls) s)
unfolding skip_literals
literal-Ends c l ls s h = elim (Option-cases (strip_prefix (c ∷ l) s)) [
  | inl e ↦ rw (e, Ends) h
  | inr (r, e) ↦ rw (e, Ends) (strip_prefix-le l s c e)
]

skip_literals-Ends : (s : Bytes) → Ends length (length s) (skip_literals literals s)
unfolding skip_literals
skip_literals-Ends s =
    let last = literal-Ends b'n' (codes "ull") [] s tt in
    let two = literal-Ends b'f' (codes "alse") (codes "null" ∷ []) s last in
    literal-Ends b't' (codes "rue") (codes "false" ∷ codes "null" ∷ []) s two

module _ (value : ℕ → Bytes → Outcome Bytes) (depth : ℕ)
    (ends : depth ≤ max_json_depth
      → (s : Bytes) → Ends length (length s) (value (depth + 1) s)) where
  skip_at-Ends : (s : Bytes) → Ends length (length s) (skip_at value depth s)
  unfolding skip_at
  skip_at-Ends [] = tt
  skip_at-Ends (c ∷ s) =
      let string =
        Ends-bind left (length (c ∷ s)) length (length (c ∷ s)) (parse_string (c ∷ s))
          (λ r. found r.1) (parse_string-Ends (c ∷ s)) (λ r h. h) in
      let object = skip_object-Ends value depth ends (c ∷ s) in
      let array = skip_array-Ends value depth ends (c ∷ s) in
      let number = skip_number-Ends (c ∷ s) in
      let literal = skip_literals-Ends (c ∷ s) in
      ground (arith, string, object, array, number, literal)

-- The nesting fuel suffices: depth 65 is refused before it runs out.
pub skip_value-Ends :
    (fuel depth : ℕ) (s : Bytes)
    → max_json_depth < depth + fuel
    → Ends length (length s) (skip_value fuel depth s)
unfolding skip_value
skip_value-Ends zero depth s h = ground arith
skip_value-Ends (suc fuel) depth s h =
    let at =
      skip_at-Ends (skip_value fuel) depth (λ d r. skip_value-Ends fuel (depth + 1) r (omega arith))
        (skip_ws s) in
    let whole = Ends-mono length (length (skip_ws s)) (length s) _ at (skip_ws-le s) in
    ground (arith, whole)
