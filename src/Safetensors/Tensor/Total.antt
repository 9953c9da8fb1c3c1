-- ===== src/Safetensors/Tensor/Total.antt =====
-- `parse_tensor` of src/io/safetensors.cpp ends, and consumes at least one byte where it succeeds.
use resonantia.Prelude.{
  refl, leb, contains, ltb, not, List, some, none, suc, zero, [], ◌∷◌, ◌++◌, ◌+◌, ◌≢◌, ◌≤◌, ◌<◌, ℕ,
  Bytes, length, arith,
}
use resonantia.Outcome.{
  Outcome, found, refused, spent, ◌>>=◌, Ends, Ends-bind, Ends-mono, Ends-guard, left,
}
use resonantia.Safetensors.Scan.{skip_ws, expect, parse_string, parse_uint64}
use resonantia.Safetensors.Scan.Total.{
  skip_ws-le, expect-Ends, parse_string-Ends, parse_uint64-Ends,
}
use resonantia.Safetensors.Skip.{closed, more, separator, opens_empty, skip_value, nesting_fuel}
use resonantia.Safetensors.Skip.Total.{after, separator-Ends, skip_value-Ends}
use resonantia.Safetensors.Tensor.{
  shape_loop, parse_shape, parse_offsets, Fields, field_value, fields_loop, conclude, place,
  parse_tensor, no_fields, max_tensor_rank, i64_max,
}

shape_loop-Ends :
    (fuel : ℕ) (shape : List ℕ) (s : Bytes)
    → length s ≤ fuel
    → Ends left (length s) (shape_loop fuel shape s)
unfolding shape_loop
shape_loop-Ends fuel shape [] h = tt
shape_loop-Ends zero shape (c ∷ s) h = absurd (omega arith)
shape_loop-Ends (suc fuel) shape (c ∷ s) h =
    let n = length (c ∷ s) in
    Ends-guard left n (ltb (length shape) max_tensor_rank) _ λ _.
      Ends-bind left n left n (parse_uint64 (c ∷ s)) _ (parse_uint64-Ends (c ∷ s)) λ (dim, s₁) h₁.
        Ends-guard left n (leb dim i64_max) _ λ _.
          Ends-bind after (length s₁) left n (separator b']' s₁) _ (separator-Ends b']' s₁) (elim [
            | closed r ↦ λ h₂. omega arith
            | more r ↦ λ h₂.
                Ends-mono left (length r) n (shape_loop fuel (shape ++ dim ∷ []) r)
                  (shape_loop-Ends fuel (shape ++ dim ∷ []) r (omega arith)) (omega arith)
          ])

parse_shape-Ends : (s : Bytes) → Ends left (length s) (parse_shape s)
unfolding parse_shape opens_empty
parse_shape-Ends s =
    Ends-bind length (length s) left (length s) (expect b'[' s) _ (expect-Ends b'[' s)
      λ s₁ h₁. go (skip_ws s₁) (omega (arith, skip_ws-le s₁))
  where
    go :
        (u : Bytes)
        → length u < length s
        → Ends left (length s) (elim (opens_empty b']' u) [
          | some r ↦ found ([], r)
          | none ↦ shape_loop (length u) [] u
        ])
    go [] h = unfold shape_loop in tt
    go (c ∷ u) h =
        let loop =
          Ends-mono left (length (c ∷ u)) (length s) (shape_loop (length (c ∷ u)) [] (c ∷ u))
            (shape_loop-Ends (length (c ∷ u)) [] (c ∷ u) (omega arith)) (omega arith) in
        ground (arith, loop)

parse_offsets-Ends : (s : Bytes) → Ends left (length s) (parse_offsets s)
unfolding parse_offsets
parse_offsets-Ends s =
    let n = length s in
    Ends-bind length n left n (expect b'[' s) _ (expect-Ends b'[' s) λ s₁ h₁.
      Ends-bind left (length s₁) left n (parse_uint64 s₁) _ (parse_uint64-Ends s₁) λ (start, s₂) h₂.
        Ends-bind length (length (skip_ws s₂)) left n (expect b',' (skip_ws s₂)) _
          (expect-Ends b',' (skip_ws s₂))
          λ s₃ h₃.
            Ends-bind left (length s₃) left n (parse_uint64 s₃) _ (parse_uint64-Ends s₃)
              λ (finish, s₄) h₄.
                Ends-bind length (length (skip_ws s₄)) left n (expect b']' (skip_ws s₄)) _
                  (expect-Ends b']' (skip_ws s₄))
                  λ s₅ h₅. omega (arith, skip_ws-le s₂, skip_ws-le s₄)

field_value-Ends :
    (key : Bytes) (f : Fields) (s : Bytes) → Ends left (length s) (field_value key f s)
unfolding field_value
field_value-Ends key f s =
    let n = length s in
    let dtype =
      Ends-bind left n left n (parse_string s) (λ r. found (record f { dtype = some r.0 }, r.1))
        (parse_string-Ends s) (λ r h. h) in
    let shape =
      Ends-bind left n left n (parse_shape s) (λ r. found (record f { shape = some r.0 }, r.1))
        (parse_shape-Ends s) (λ r h. h) in
    let offsets =
      Ends-bind left n left n (parse_offsets s) (λ r. found (record f { offsets = some r.0 }, r.1))
        (parse_offsets-Ends s) (λ r h. h) in
    let other =
      Ends-bind length n left n (skip_value nesting_fuel 1 s) (λ r. found (f, r))
        (skip_value-Ends nesting_fuel 1 s (omega arith)) (λ r h. h) in
    ground (arith, dtype, shape, offsets, other)

fields_loop-Ends :
    (fuel : ℕ) (keys : List Bytes) (f : Fields) (s : Bytes)
    → length s ≤ fuel
    → Ends left (length s + 1) (fields_loop fuel keys f s)
unfolding fields_loop
fields_loop-Ends fuel keys f [] h = omega arith
fields_loop-Ends zero keys f (c ∷ s) h = absurd (omega arith)
fields_loop-Ends (suc fuel) keys f (c ∷ s) h =
    let n = length (c ∷ s) in
    let m = n + 1 in
    Ends-bind left n left m (parse_string (c ∷ s)) _ (parse_string-Ends (c ∷ s)) λ (key, s₁) h₁.
      Ends-guard left m (not (contains key keys)) _ λ _.
        Ends-bind length (length (skip_ws s₁)) left m (expect b':' (skip_ws s₁)) _
          (expect-Ends b':' (skip_ws s₁))
          λ s₂ h₂.
            Ends-bind left (length (skip_ws s₂)) left m (field_value key f (skip_ws s₂)) _
              (field_value-Ends key f (skip_ws s₂))
              λ (f₁, s₃) h₃.
                Ends-bind after (length s₃) left m (separator b'}' s₃) _ (separator-Ends b'}' s₃)
                  (elim [
                    | closed r ↦ λ h₄. omega (arith, skip_ws-le s₁, skip_ws-le s₂)
                    | more r ↦ λ h₄.
                        Ends-mono left (length r + 1) m (fields_loop fuel (key ∷ keys) f₁ r)
                          (fields_loop-Ends fuel (key ∷ keys) f₁ r
                            (omega (arith, skip_ws-le s₁, skip_ws-le s₂)))
                          (omega (arith, skip_ws-le s₁, skip_ws-le s₂))
                  ])

-- The checks behind the loop have no loop of their own but the one over the shape.
conclude-ne-spent :
    (name : Bytes) (data_start size : ℕ) (f : Fields) → conclude name data_start size f ≢ spent
unfolding conclude place
conclude-ne-spent name data_start size f h = ground (arith)

pub parse_tensor-Ends :
    (name : Bytes) (data_start size : ℕ) (s : Bytes)
    → Ends left (length s) (parse_tensor name data_start size s)
unfolding parse_tensor opens_empty
parse_tensor-Ends name data_start size s =
    let n = length s in
    Ends-bind length n left n (expect b'{' s) _ (expect-Ends b'{' s) λ s₁ h₁.
      let rest : Ends left n (
          fields_loop (length (skip_ws s₁)) [] no_fields (skip_ws s₁) >>= λ r.
          conclude name data_start size r.0 >>= λ t. found (t, r.1)) =
        Ends-bind left (length (skip_ws s₁) + 1) left n
          (fields_loop (length (skip_ws s₁)) [] no_fields (skip_ws s₁)) _
          (fields_loop-Ends (length (skip_ws s₁)) [] no_fields (skip_ws s₁) (omega arith))
          λ (f, s₃) h₃.
            keeps (conclude name data_start size f) s₃ (conclude-ne-spent name data_start size f)
              (omega (arith, skip_ws-le s₁)) in
      ground (arith, rest)
  where
    keeps :
        {A : Type 0} (o : Outcome A) (r : Bytes)
        → o ≢ spent
        → length r < length s
        → Ends left (length s) (o >>= λ t. found (t, r))
    keeps (found a) r h k = k
    keeps refused r h k = tt
    keeps spent r h k = absurd (h refl)
