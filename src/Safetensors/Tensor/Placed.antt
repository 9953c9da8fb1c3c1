-- ===== src/Safetensors/Tensor/Placed.antt =====
-- The layout that `parse_tensor` accepts: row-major strides of four-byte elements, within bounds.
use resonantia.Prelude.{
  length, ◌⊎◌, ℕ, ◌+◌, ◌*◌, ◌≤◌, ◌≡◌, List, [], ◌∷◌, Bytes, codes, bytes_eq_iff, none, some, arith,
  Option-cases, inl, inr, ap,
}
use resonantia.Outcome.{>>=-eq-found, found, of_option}
use resonantia.Safetensors.Tensor.{
  no_fields, Fields, conclude, fields_loop, skip_ws, opens_empty, expect, parse_tensor, Tensor,
  Range, Layout, layout, checked_mul, checked_add, place,
}

abbrev pub product : List ℕ → ℕ
product [] = 1
product (d ∷ ds) = product ds * d

-- The distance in bytes between neighbours along each axis of a dense row-major array of floats.
abbrev pub row_major : List ℕ → List ℕ
row_major [] = []
row_major (d ∷ ds) = (4 * product ds) ∷ row_major ds

-- A checked operation gives the exact result, or none.
pub checked_mul_cases : (a b : ℕ) → (checked_mul a b ≡ none) ⊎ (checked_mul a b ≡ some (a * b))
unfolding checked_mul
checked_mul_cases a b = ground arith

pub checked_add_cases : (a b : ℕ) → (checked_add a b ≡ none) ⊎ (checked_add a b ≡ some (a + b))
unfolding checked_add
checked_add_cases a b = ground arith

pub layout-row_major :
    (shape : List ℕ) {l : Layout}
    → layout shape ≡ some l
    → (l.elements ≡ product shape) × (l.stride ≡ 4 * product shape) × (l.strides ≡ row_major shape)
unfolding layout
layout-row_major [] h = ground arith
layout-row_major (d ∷ ds) {l} h = elim (Option-cases (layout ds)) [
  | inl e ↦ absurd (let x = rw (e, layout) at h in cc)
  | inr (l₁, e) ↦
      let (elements_are, stride_is, strides_are) = layout-row_major ds e in
      ground (
        arith,
        e,
        strides_are,
        ap (λ (k : ℕ). k * d) elements_are,
        ap (λ (k : ℕ). k * d) stride_is,
        stride_is,
        checked_mul_cases l₁.stride d,
        checked_mul_cases l₁.elements d,
      )
]

-- A tensor that lies where its range says, dense and of four-byte floats.
pub record IsPlaced (data_start size : ℕ) (name : Bytes) (t : Tensor) (r : Range) : Type 0 where
  pub name_is : t.name ≡ name
  pub dtype_is : t.dtype ≡ codes "F32"
  pub strides_are : t.strides ≡ row_major t.shape
  pub bytes_are : t.data_nbytes ≡ 4 * product t.shape
  pub offset_is : t.data_offset ≡ data_start + r.0
  pub length_is : r.0 + t.data_nbytes ≡ r.1
  pub within : r.1 ≤ size

pub place-IsPlaced :
    (name : Bytes) (data_start size : ℕ) (dtype : Bytes) (shape : List ℕ) (start finish : ℕ)
    {t : Tensor} {r : Range}
    → place name data_start size dtype shape start finish ≡ found (t, r)
    → IsPlaced data_start size name t r
unfolding place checked_mul
place-IsPlaced name data_start size dtype shape start finish {t} {r} h =
    elim (Option-cases (layout shape)) [
      | inl e ↦ absurd (ground (arith, e))
      | inr (l, e) ↦ ground (
        arith,
        e,
        layout-row_major shape e,
        bytes_eq_iff dtype (codes "F32"),
        checked_mul_cases l.elements 4,
        checked_add_cases data_start start,
      )
    ]

conclude-IsPlaced :
    (name : Bytes) (data_start size : ℕ) (f : Fields) {t : Tensor} {r : Range}
    → conclude name data_start size f ≡ found (t, r)
    → IsPlaced data_start size name t r
unfolding conclude
conclude-IsPlaced name data_start size f h =
    let (dtype, _, h₁) = >>=-eq-found (of_option f.dtype) _ h in
    let (shape, _, h₂) = >>=-eq-found (of_option f.shape) _ h₁ in
    let ((start, finish), _, h₃) = >>=-eq-found (of_option f.offsets) _ h₂ in
    place-IsPlaced name data_start size dtype shape start finish h₃

-- The tensor that `parse_tensor` returns lies in the range that it returns.
pub parse_tensor-IsPlaced :
    (name : Bytes) (data_start size : ℕ) (s : Bytes) {t : Tensor} {r : Range} {rest : Bytes}
    → parse_tensor name data_start size s ≡ found ((t, r), rest)
    → IsPlaced data_start size name t r
unfolding parse_tensor
parse_tensor-IsPlaced name data_start size s {t} {r} {rest} h =
    let (s₁, _, h₁) = >>=-eq-found (expect b'{' s) _ h in
    elim (Option-cases (opens_empty b'}' (skip_ws s₁))) [
      | inl e ↦
          let ((f, s₃), _, h₂) =
            >>=-eq-found (fields_loop (length (skip_ws s₁)) [] no_fields (skip_ws s₁)) _
              (rw e at h₁) in
          let (t₁, e₃, h₃) = >>=-eq-found (conclude name data_start size f) _ h₂ in
          conclude-IsPlaced name data_start size f (cc (e₃, h₃))
      | inr (u, e) ↦ absurd (let x = rw e at h₁ in cc)
    ]
