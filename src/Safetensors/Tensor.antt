-- ===== src/Safetensors/Tensor.antt =====
-- `parse_shape`, `parse_offsets` and `parse_tensor` of src/io/safetensors.cpp.
pub mod Placed
pub mod Total
use resonantia.Prelude.{
  ℕ, zero, suc, ◌+◌, ◌-◌, ◌*◌, ◌/◌, ◌^◌, Bool, ◌&&◌, ◌||◌, not, true, false, List, [], ◌∷◌, ◌++◌,
  Bytes, codes, ltb, leb, ◌==◌, if◌then◌else◌, Option, none, some, length, contains, bytes_eq,
}
use resonantia.Outcome.{Outcome, found, refused, spent, ◌>>=◌, ◌>>◌, guard, of_option}
use resonantia.Safetensors.Scan.{skip_ws, expect, parse_string, parse_uint64}
use resonantia.Safetensors.Skip.{
  branch, Next, closed, more, separator, opens_empty, skip_value, nesting_fuel,
}

-- `std::size_t` has 64 bits on the product's platform.
abbrev pub size_max : ℕ
size_max = 2 ^ 64 - 1

abbrev pub i64_max : ℕ
i64_max = 2 ^ 63 - 1

abbrev pub max_tensor_rank : ℕ
max_tensor_rank = 32

unfoldable pub checked_add : ℕ → ℕ → Option ℕ
checked_add a b = if ltb (size_max - a) b then none else some (a + b)

unfoldable pub checked_mul : ℕ → ℕ → Option ℕ
checked_mul a b = if not (a == 0) && ltb (size_max / a) b then none else some (a * b)

unfoldable pub shape_loop : ℕ → List ℕ → Bytes → Outcome (List ℕ × Bytes)
shape_loop fuel shape [] = refused
shape_loop zero shape (c ∷ s) = spent
shape_loop (suc fuel) shape (c ∷ s) = do
  guard (ltb (length shape) max_tensor_rank)
  (dim, s₁) ← parse_uint64 (c ∷ s)
  guard (leb dim i64_max)
  next ← separator b']' s₁
  branch next (λ r. found (shape ++ dim ∷ [], r)) (λ r. shape_loop fuel (shape ++ dim ∷ []) r)

-- The vector that it appends to is empty: a second "shape" key is refused before the call.
unfoldable pub parse_shape : Bytes → Outcome (List ℕ × Bytes)
parse_shape s = do
  s₁ ← expect b'[' s
  let s₂ = skip_ws s₁
  elim (opens_empty b']' s₂) [ some r ↦ found ([], r) | none ↦ shape_loop (length s₂) [] s₂ ]

unfoldable pub parse_offsets : Bytes → Outcome ((ℕ × ℕ) × Bytes)
parse_offsets s = do
  s₁ ← expect b'[' s
  (start, s₂) ← parse_uint64 s₁
  s₃ ← expect b',' (skip_ws s₂)
  (finish, s₄) ← parse_uint64 s₃
  s₅ ← expect b']' (skip_ws s₄)
  found ((start, finish), s₅)

-- The locals of `parse_tensor` that its loop writes; `none` is a `has_…` flag that is not set.
pub record Fields : Type 0 where
  pub dtype : Option Bytes
  pub shape : Option (List ℕ)
  pub offsets : Option (ℕ × ℕ)

abbrev pub no_fields : Fields
no_fields = record { dtype = none; shape = none; offsets = none }

-- One value of the loop, chosen by its key.
unfoldable pub field_value : Bytes → Fields → Bytes → Outcome (Fields × Bytes)
field_value key f s =
    if bytes_eq key (codes "dtype")
    then (do (d, r) ← parse_string s; found (record f { dtype = some d }, r))
    else if bytes_eq key (codes "shape")
    then (do (d, r) ← parse_shape s; found (record f { shape = some d }, r))
    else if bytes_eq key (codes "data_offsets")
    then (do (d, r) ← parse_offsets s; found (record f { offsets = some d }, r))
    else (do r ← skip_value nesting_fuel 1 s; found (f, r))

-- The `while (p < end)` of `parse_tensor`. It ends at the brace, and also where the bytes run out
-- behind a comma.
unfoldable pub fields_loop : ℕ → List Bytes → Fields → Bytes → Outcome (Fields × Bytes)
fields_loop fuel keys f [] = found (f, [])
fields_loop zero keys f (c ∷ s) = spent
fields_loop (suc fuel) keys f (c ∷ s) = do
  (key, s₁) ← parse_string (c ∷ s)
  guard (not (contains key keys))
  s₂ ← expect b':' (skip_ws s₁)
  (f₁, s₃) ← field_value key f (skip_ws s₂)
  next ← separator b'}' s₃
  branch next (λ r. found (f₁, r)) (λ r. fields_loop fuel (key ∷ keys) f₁ r)

-- `struct Tensor`.
pub record Tensor : Type 0 where
  pub name : Bytes
  pub dtype : Bytes
  pub shape : List ℕ
  pub strides : List ℕ
  pub data_offset : ℕ
  pub data_nbytes : ℕ

-- The loop over the dimensions, last first: the next stride, the number of elements, the strides.
pub record Layout : Type 0 where
  pub stride : ℕ
  pub elements : ℕ
  pub strides : List ℕ

unfoldable pub layout : List ℕ → Option Layout
layout [] = some (record { stride = 4; elements = 1; strides = [] })
layout (dim ∷ dims) = elim (layout dims) [
  | none ↦ none
  | some l ↦ if ltb i64_max l.stride then none else elim (checked_mul l.stride dim) [
    | none ↦ none
    | some stride ↦ elim (checked_mul l.elements dim) [
      | none ↦ none
      | some elements ↦
          some (record { stride = stride; elements = elements; strides = l.stride ∷ l.strides })
    ]
  ]
]

abbrev pub Range : Type 0
Range = ℕ × ℕ

-- The checks behind the loop of `parse_tensor`: the tensor and its range in the data section.
unfoldable pub place : Bytes → ℕ → ℕ → Bytes → List ℕ → ℕ → ℕ → Outcome (Tensor × Range)
place name data_start data_section_size dtype shape start finish = do
  guard (bytes_eq dtype (codes "F32"))
  guard (leb start finish && leb finish data_section_size)
  guard (leb start size_max && leb finish size_max)
  l ← of_option (layout shape)
  expected_bytes ← of_option (checked_mul l.elements 4)
  guard (finish - start == expected_bytes)
  data_offset ← of_option (checked_add data_start start)
  found (
    record {
      name = name;
      dtype = dtype;
      shape = shape;
      strides = l.strides;
      data_offset = data_offset;
      data_nbytes = expected_bytes;
    },
    (start, finish),
  )

-- What `parse_tensor` does behind its loop: all three keys were there, and the tensor fits.
unfoldable pub conclude : Bytes → ℕ → ℕ → Fields → Outcome (Tensor × Range)
conclude name data_start data_section_size f = do
  dtype ← of_option f.dtype
  shape ← of_option f.shape
  (start, finish) ← of_option f.offsets
  place name data_start data_section_size dtype shape start finish

-- An empty object is refused before the loop.
unfoldable pub parse_tensor : Bytes → ℕ → ℕ → Bytes → Outcome ((Tensor × Range) × Bytes)
parse_tensor name data_start data_section_size s = do
  s₁ ← expect b'{' s
  let s₂ = skip_ws s₁
  elim (opens_empty b'}' s₂) [
    | some r ↦ refused
    | none ↦ do
      (f, s₃) ← fields_loop (length s₂) [] no_fields s₂
      t ← conclude name data_start data_section_size f
      found (t, s₃)
  ]
