-- ===== src/Http/Parameters/Boundary.antt =====
-- What a boundary is that `extract_boundary` takes from a content type.
use resonantia.Prelude.{
  ℕ, zero, suc, true, ◌&&◌, ◌||◌, not, [], ◌∷◌, Bytes, codes, ltb, leb, ◌==◌, ◌<◌, ◌≤◌, ◌≡◌, Option,
  none, some, length, bytes_eq, all_bytes, split_byte, Bool-cases, inl, inr, arith, lower,
}
use resonantia.Outcome.{Outcome, found, guard, of_option, >>=-eq-found, guard-eq-found}
use resonantia.Http.Request.{trim_front, is_some}
use resonantia.Http.Parameters.{
  trim_back, skip_blanks, one_parameter, parameter_loop, parameter_token, set_boundary,
  extract_boundary, is_control,
}

-- What every parameter keeps, the loop keeps.
parameter_loop-keeps {ℓ κ} :
    {A : Type ℓ} (P : A → Type κ) (one : Bytes → Outcome ((Bytes × Bytes) × Bytes))
    (set : Bytes → Bytes → A → Outcome A) (fuel : ℕ) (a : A) (s : Bytes) {b : A}
    → ((name value : Bytes) (a' b' : A) → P a' → set name value a' ≡ found b' → P b')
    → P a
    → parameter_loop one set fuel a s ≡ found b
    → P b
unfolding parameter_loop
parameter_loop-keeps P one set zero a [] {b} k h e = let same : a ≡ b = cc e in rw (← same) h
parameter_loop-keeps P one set (suc fuel) a [] {b} k h e = let same : a ≡ b = cc e in rw (← same) h
parameter_loop-keeps P one set zero a (c ∷ s) k h e = cc
parameter_loop-keeps P one set (suc fuel) a (c ∷ s) k h e =
    let (((name, value), rest), _, e1) = >>=-eq-found (one (c ∷ s)) _ e in
    let (a', e2, e3) = >>=-eq-found (set name value a) _ e1 in
    parameter_loop-keeps P one set fuel a' rest k (k name value a a' h e2) e3

-- A boundary of one to two hundred printable bytes and blanks.
pub record IsBoundary (boundary : Bytes) : Type 0 where
  pub some_bytes : 0 < length boundary
  pub few : length boundary ≤ 200
  pub printable : all_bytes (λ c. leb 32 c && ltb c 127) boundary ≡ true

abbrev Boundary : Option Bytes → Type 0
Boundary none = Unit {0}
Boundary (some b) = IsBoundary b

set_boundary-Boundary :
    (key value : Bytes) (a b : Option Bytes)
    → Boundary a
    → set_boundary key value a ≡ found b
    → Boundary b
unfolding set_boundary
set_boundary-Boundary key value a b h e = elim (Bool-cases (bytes_eq key (codes "boundary"))) [
  | inl yes' ↦
      let e' = rw yes' at e in
      let (_, tested, e1) =
        >>=-eq-found (guard (not (is_some a || length value == 0 || ltb 200 (length value)))) _
          e' in
      let (_, printable, e2) =
        >>=-eq-found (guard (all_bytes (λ c. leb 32 c && ltb c 127) value)) _ e1 in
      let sizes = guard-eq-found _ tested in
      let same : some value ≡ b = cc e2 in
      rw (← same) (record {
        some_bytes = ground arith;
        few = ground arith;
        printable = guard-eq-found _ printable;
      })
  | inr no' ↦ let e' = rw no' at e in let same : a ≡ b = cc e' in rw (← same) h
]

of_option_found : {A : Type 0} (o : Option A) {a : A} → of_option o ≡ found a → o ≡ some a
of_option_found none e = cc
of_option_found (some b) e = cc

-- A boundary that is taken from a content type has one to two hundred bytes, all of them printable or
-- blanks: it holds no end of a line.
pub extract_boundary-IsBoundary :
    (content_type : Bytes) {boundary : Bytes}
    → extract_boundary content_type ≡ found boundary
    → IsBoundary boundary
unfolding extract_boundary
extract_boundary-IsBoundary content_type h =
    let ((media, rest), _, e1) = >>=-eq-found (of_option (split_byte b';' content_type)) _ h in
    let (_, _, e2) =
      >>=-eq-found
        (guard (bytes_eq (trim_back (trim_front (lower media))) (codes "multipart/form-data"))) _
        e1 in
    let one = one_parameter skip_blanks parameter_token (λ c. not (is_control c)) in
    let (o, e3, e4) =
      >>=-eq-found (parameter_loop one set_boundary (suc (length rest)) none (b';' ∷ rest)) _ e2 in
    let boundary =
      parameter_loop-keeps Boundary one set_boundary (suc (length rest)) none (b';' ∷ rest)
        set_boundary-Boundary tt e3 in
    rw (of_option_found o e4) at boundary
