-- ===== src/Http/Parameters/Shorter.antt =====
-- One parameter leaves less than it was given, so the loop over parameters ends.
use resonantia.Prelude.{
  ℕ, zero, suc, Bool, ◌&&◌, not, [], ◌∷◌, Bytes, ◌==◌, ◌≤◌, length, Bool-cases, inl, inr, arith,
}
use resonantia.Outcome.{
  Outcome, found, refused, spent, Ends, Ends-bind, Ends-guard, Ends-mono, left,
}
use resonantia.Http.Request.{is_blank, trim_front}
use resonantia.Http.Parameters.{
  skip_comments, skip_blanks, take_token, prepend, quoted_value, token_value, parameter_value,
  expect_byte, ends_parameter, one_parameter, parameter_loop,
}

pub skip_comments-Ends :
    (depth : ℕ) (s : Bytes) → Ends length (suc (length s)) (skip_comments depth s)
unfolding skip_comments
skip_comments-Ends zero [] = omega arith
skip_comments-Ends (suc depth) [] = tt
skip_comments-Ends zero (c ∷ s) =
    let blank =
      Ends-mono length _ (suc (suc (length s))) _ (skip_comments-Ends zero s) (omega arith) in
    let comment =
      Ends-mono length _ (suc (suc (length s))) _ (skip_comments-Ends 1 s) (omega arith) in
    elim (Bool-cases (is_blank c)) [
      | inl e ↦ rw e blank
      | inr e ↦
          rw e (elim (Bool-cases (c == b'(')) [
            | inl e' ↦ rw e' comment
            | inr e' ↦ rw e' (omega arith)
          ])
    ]
skip_comments-Ends (suc depth) (c ∷ []) = elim (Bool-cases (c == b')' && depth == 0)) [
  | inl e ↦ rw e (omega arith)
  | inr e ↦ rw e tt
]
skip_comments-Ends (suc depth) (c ∷ d ∷ s) =
    let n = suc (suc (suc (length s))) in
    let escaped = Ends-mono length _ n _ (skip_comments-Ends (suc depth) s) (omega arith) in
    let deeper =
      Ends-mono length _ n _ (skip_comments-Ends (suc (suc depth)) (d ∷ s)) (omega arith) in
    let closed = Ends-mono length _ n _ (skip_comments-Ends depth (d ∷ s)) (omega arith) in
    let plain = Ends-mono length _ n _ (skip_comments-Ends (suc depth) (d ∷ s)) (omega arith) in
    elim (Bool-cases (c == b'\\')) [
      | inl e ↦ rw e escaped
      | inr e ↦ rw e (elim (Bool-cases (c == b'(')) [
        | inl e' ↦ rw e' deeper
        | inr e' ↦
            rw e'
              (elim (Bool-cases (c == b')')) [ inl e'' ↦ rw e'' closed | inr e'' ↦ rw e'' plain ])
      ])
    ]

trim_front-le : (s : Bytes) → length (trim_front s) ≤ length s
unfolding trim_front
trim_front-le [] = omega arith
trim_front-le (c ∷ s) = ground (arith, trim_front-le s)

pub skip_blanks-Ends : (s : Bytes) → Ends length (suc (length s)) (skip_blanks s)
unfolding skip_blanks
skip_blanks-Ends s = omega (arith, trim_front-le s)

take_token-le : (is_token : ℕ → Bool) (s : Bytes) → length (take_token is_token s).1 ≤ length s
unfolding take_token
take_token-le is_token [] = omega arith
take_token-le is_token (c ∷ s) = elim (Bool-cases (is_token c)) [
  | inl e ↦ rw (e, take_token) (omega (arith, take_token-le is_token s))
  | inr e ↦ rw (e, take_token) (omega arith)
]

prepend-Ends : (c n : ℕ) (o : Outcome (Bytes × Bytes)) → Ends left n o → Ends left n (prepend c o)
prepend-Ends c n (found (s, rest)) h = h
prepend-Ends c n refused h = tt
prepend-Ends c n spent h = h

quoted_value-Ends :
    (allowed : ℕ → Bool) (s : Bytes) → Ends left (suc (length s)) (quoted_value allowed s)
unfolding quoted_value
quoted_value-Ends allowed [] = tt
quoted_value-Ends allowed (c ∷ []) = elim (Bool-cases (c == b'"')) [
  | inl e ↦ rw e (omega arith)
  | inr e ↦ rw e tt
]
quoted_value-Ends allowed (c ∷ d ∷ s) =
    let n = suc (suc (suc (length s))) in
    let escaped = Ends-guard left n (allowed d) _ (λ _.
      prepend-Ends d n (quoted_value allowed s)
        (Ends-mono left _ n _ (quoted_value-Ends allowed s) (omega arith))) in
    let plain = Ends-guard left n (allowed c) _ (λ _.
      prepend-Ends c n (quoted_value allowed (d ∷ s))
        (Ends-mono left _ n _ (quoted_value-Ends allowed (d ∷ s)) (omega arith))) in
    elim (Bool-cases (c == b'"')) [
      | inl e ↦ rw e (omega arith)
      | inr e ↦
          rw e (elim (Bool-cases (c == b'\\')) [ inl e' ↦ rw e' escaped | inr e' ↦ rw e' plain ])
    ]

token_value-Ends :
    (is_token : ℕ → Bool) (s : Bytes) → Ends left (suc (length s)) (token_value is_token s)
unfolding token_value
token_value-Ends is_token s =
    Ends-guard left (suc (length s)) (not (length (take_token is_token s).0 == 0)) _
      (λ _. omega (arith, take_token-le is_token s))

parameter_value-Ends :
    (is_token allowed : ℕ → Bool) (s : Bytes)
    → Ends left (suc (length s)) (parameter_value is_token allowed s)
unfolding parameter_value
parameter_value-Ends is_token allowed [] = token_value-Ends is_token []
parameter_value-Ends is_token allowed (c ∷ s) = elim (Bool-cases (c == b'"')) [
  | inl e ↦
      rw e (Ends-mono left _ (suc (suc (length s))) _ (quoted_value-Ends allowed s) (omega arith))
  | inr e ↦ rw e (token_value-Ends is_token (c ∷ s))
]

expect_byte-Ends : (k : ℕ) (s : Bytes) → Ends length (length s) (expect_byte k s)
unfolding expect_byte
expect_byte-Ends k [] = tt
expect_byte-Ends k (c ∷ s) = elim (Bool-cases (c == k)) [
  | inl e ↦ rw e (omega arith)
  | inr e ↦ rw e tt
]

-- A skip never gains bytes.
abbrev pub Skips : (Bytes → Outcome Bytes) → Type 0
Skips skip = (s : Bytes) → Ends length (suc (length s)) (skip s)

pub one_parameter-Ends :
    (skip : Bytes → Outcome Bytes) (is_token allowed : ℕ → Bool) (s : Bytes)
    → Skips skip
    → Ends left (length s) (one_parameter skip is_token allowed s)
unfolding one_parameter
one_parameter-Ends skip is_token allowed s skips =
    Ends-bind length (length s) left (length s) (expect_byte b';' s) _ (expect_byte-Ends b';' s)
      (λ s1 l1. Ends-bind length (suc (length s1)) left (length s) (skip s1) _ (skips s1) (λ s2 l2.
        let s3 = (take_token is_token s2).1 in
        let l3 = take_token-le is_token s2 in
        Ends-guard left (length s) (not (length (take_token is_token s2).0 == 0)) _ (λ _.
          Ends-bind length (suc (length s3)) left (length s) (skip s3) _ (skips s3) (λ s4 l4.
            Ends-bind length (length s4) left (length s) (expect_byte b'=' s4) _
              (expect_byte-Ends b'=' s4)
              (λ s5 l5.
                Ends-bind length (suc (length s5)) left (length s) (skip s5) _ (skips s5) (λ s6 l6.
                  Ends-bind left (suc (length s6)) left (length s)
                    (parameter_value is_token allowed s6) _
                    (parameter_value-Ends is_token allowed s6)
                    (λ v l7.
                      Ends-bind length (suc (length v.1)) left (length s) (skip v.1) _ (skips v.1)
                        (λ s8 l8.
                          Ends-guard left (length s) (ends_parameter s8) _
                            (λ _. omega arith)))))))))

abbrev pub no_size {ℓ} : {A : Type ℓ} → A → ℕ
no_size a = 0

-- A `set` that does not run out of fuel, as it has none.
abbrev pub Answers {ℓ} : {A : Type ℓ} → (Bytes → Bytes → A → Outcome A) → Type ℓ
Answers {A = A} set = (name value : Bytes) (a : A) → Ends no_size 1 (set name value a)

pub parameter_loop-Ends {ℓ} :
    {A : Type ℓ} (one : Bytes → Outcome ((Bytes × Bytes) × Bytes))
    (set : Bytes → Bytes → A → Outcome A) (fuel : ℕ) (a : A) (s : Bytes)
    → ((t : Bytes) → Ends left (length t) (one t))
    → Answers set
    → length s ≤ fuel
    → Ends no_size 1 (parameter_loop one set fuel a s)
unfolding parameter_loop
parameter_loop-Ends one set zero a [] o k h = omega arith
parameter_loop-Ends one set (suc fuel) a [] o k h = omega arith
parameter_loop-Ends one set zero a (c ∷ s) o k h = absurd (omega arith)
parameter_loop-Ends {A = A} one set (suc fuel) a (c ∷ s) o k h =
    Ends-bind left (suc (length s)) no_size 1 (one (c ∷ s)) _ (o (c ∷ s)) (λ p l.
      Ends-bind no_size 1 no_size 1 (set p.0.0 p.0.1 a) _ (k p.0.0 p.0.1 a)
        (λ b _. parameter_loop-Ends one set fuel b p.1 o k (omega arith)))
