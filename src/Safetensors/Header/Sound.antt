-- ===== src/Safetensors/Header/Sound.antt =====
-- What a file that `parse_header` accepts is known to be.
use resonantia.Prelude.{
  zero, ◌||◌, suc, ℕ, ◌+◌, ◌-◌, ◌*◌, ◌≤◌, ◌≡◌, refl, true, false, not, List, [], ◌∷◌, ◌++◌, ltb,
  ◌==◌, some, arith, Bool-cases, Option-cases, inl, inr, Bytes, codes, length, contains, bytes_eq,
  take, drop,
}
use resonantia.Outcome.{of_option-eq_found, found, guard, of_option, >>=-eq-found}
use resonantia.Safetensors.Skip.{
  branch-cases, separator, skip_object, skip_value, nesting_fuel, opens_empty,
}
use resonantia.Safetensors.Scan.{expect, parse_string, skip_ws}
use resonantia.Safetensors.Tensor.{Tensor, Range, parse_tensor}
use resonantia.Safetensors.Tensor.Placed.{IsPlaced, product, row_major, parse_tensor-IsPlaced}
use resonantia.Safetensors.Header.Partition.{
  holds, holding, holding-append, holding-sort, holding-covered_by,
}
use resonantia.Safetensors.Header.{
  size_max, max_header_size, Index, names, member, members_loop, empty_index, parse_index, sort,
  covered_by, parse_header, read_u64_le,
}

-- A tensor that may be read as dense floats, from bytes of the data section only.
pub record IsSound (data_start size : ℕ) (name : Bytes) (t : Tensor) : Type 0 where
  pub name_is : t.name ≡ name
  pub dtype_is : t.dtype ≡ codes "F32"
  pub strides_are : t.strides ≡ row_major t.shape
  pub bytes_are : t.data_nbytes ≡ 4 * product t.shape
  pub starts : data_start ≤ t.data_offset
  pub ends : t.data_offset + t.data_nbytes ≤ data_start + size

abbrev pub AllSound : ℕ → ℕ → List (Bytes × Tensor) → Type 0
AllSound data_start size [] = Unit {0}
AllSound data_start size ((n, t) ∷ ts) = IsSound data_start size n t × AllSound data_start size ts

-- No two tensors have one name.
abbrev pub Distinct : List (Bytes × Tensor) → Type 0
Distinct [] = Unit {0}
Distinct ((n, t) ∷ ts) = (contains n (names ts) ≡ false) × Distinct ts

-- How many of the tensors hold the byte at `p` of the file.
abbrev pub holders : ℕ → List (Bytes × Tensor) → ℕ
holders p [] = 0
holders p ((n, t) ∷ ts) = holds t.data_offset (t.data_offset + t.data_nbytes) p + holders p ts

pub record IsIndexed (data_start size : ℕ) (i : Index) : Type 0 where
  pub sound : AllSound data_start size i.tensors
  pub distinct : Distinct i.tensors
  pub counted : (q : ℕ) → holding q i.ranges ≡ holders (data_start + q) i.tensors

IsIndexed-add :
    (data_start size : ℕ) (name : Bytes) (i : Index) (t : Tensor) (r : Range)
    → IsIndexed data_start size i
    → IsPlaced data_start size name t r
    → contains name (names i.tensors) ≡ false
    → IsIndexed data_start size
        (record i { tensors = (name, t) ∷ i.tensors; ranges = i.ranges ++ r ∷ [] })
IsIndexed-add data_start size name i t (lo, hi) v p new = record {
  sound = (
    record {
      name_is = p.name_is;
      dtype_is = p.dtype_is;
      strides_are = p.strides_are;
      bytes_are = p.bytes_are;
      starts = omega arith;
      ends = omega arith;
    },
    v.sound,
  );
  distinct = (new, v.distinct);
  counted = λ q. ground (arith, v.counted q, holding-append q i.ranges ((lo, hi) ∷ []));
}

member-IsIndexed :
    (data_start size : ℕ) (name : Bytes) (i : Index) (s : Bytes) {j : Index} {r : Bytes}
    → IsIndexed data_start size i
    → member data_start size name i s ≡ found (j, r)
    → IsIndexed data_start size j
unfolding member
member-IsIndexed data_start size name i s {j} {r} v h =
    elim (Bool-cases (bytes_eq name (codes "__metadata__"))) [
      | inl meta ↦
          let (_, _, h₁) = >>=-eq-found (guard (not i.has_metadata)) _ (rw meta at h) in
          let (r₁, _, h₂) = >>=-eq-found (skip_object (skip_value nesting_fuel) 1 s) _ h₁ in
          let same : record i { has_metadata = true } ≡ j = cc h₂ in
          rw (← same) (record { sound = v.sound; distinct = v.distinct; counted = v.counted })
      | inr other ↦
          let (((t, range), r₁), e, h₁) =
            >>=-eq-found (parse_tensor name data_start size s) _ (rw other at h) in
          let (_, new, h₂) = >>=-eq-found (guard (not (contains name (names i.tensors)))) _ h₁ in
          let same : record i { tensors = (name, t) ∷ i.tensors; ranges = i.ranges ++ range ∷ [] }
              ≡ j =
            cc h₂ in
          rw (← same) (
            IsIndexed-add data_start size name i t range v
              (parse_tensor-IsPlaced name data_start size s e) (ground (arith, new)))
    ]

members_loop-IsIndexed :
    (data_start size fuel : ℕ) (i : Index) (s : Bytes) {j : Index} {r : Bytes}
    → IsIndexed data_start size i
    → members_loop data_start size fuel i s ≡ found (j, r)
    → IsIndexed data_start size j
unfolding members_loop
members_loop-IsIndexed data_start size fuel i [] {j} v h = let same : i ≡ j = cc h in rw (← same) v
members_loop-IsIndexed data_start size zero i (c ∷ s) v h = cc
members_loop-IsIndexed data_start size (suc fuel) i (c ∷ s) {j} {r} v h =
    let ((name, s₁), _, h₁) = >>=-eq-found (parse_string (c ∷ s)) _ h in
    let (s₂, _, h₂) = >>=-eq-found (expect b':' (skip_ws s₁)) _ h₁ in
    let ((i₁, s₃), e, h₃) = >>=-eq-found (member data_start size name i (skip_ws s₂)) _ h₂ in
    let v₁ = member-IsIndexed data_start size name i (skip_ws s₂) v e in
    let (next, _, h₄) = >>=-eq-found (separator b'}' s₃) _ h₃ in
    elim (branch-cases next (λ q. found (i₁, q)) (members_loop data_start size fuel i₁) h₄) [
      | inl (q, _, x) ↦ let same : i₁ ≡ j = cc x in rw (← same) v₁
      | inr (q, _, x) ↦ members_loop-IsIndexed data_start size fuel i₁ q v₁ x
    ]

parse_index-IsIndexed :
    (data_start size : ℕ) (s : Bytes) {i : Index}
    → parse_index data_start size s ≡ found i
    → IsIndexed data_start size i
unfolding parse_index
parse_index-IsIndexed data_start size s {i} h =
    let (s₁, _, h₁) = >>=-eq-found (expect b'{' (skip_ws s)) _ h in
    elim (Option-cases (opens_empty b'}' (skip_ws s₁))) [
      | inl e ↦
          let ((j, s₃), e₂, h₂) =
            >>=-eq-found
              (members_loop data_start size (length (skip_ws s₁)) empty_index (skip_ws s₁)) _
              (rw e at h₁) in
          let v =
            members_loop-IsIndexed data_start size (length (skip_ws s₁)) empty_index (skip_ws s₁)
              empty_IsIndexed e₂ in
          let (_, _, h₃) = >>=-eq-found (guard (length (skip_ws s₃) == 0)) _ h₂ in
          let same : j ≡ i = cc h₃ in rw (← same) v
      | inr (u, e) ↦
          let (_, _, h₃) = >>=-eq-found (guard (length (skip_ws u) == 0)) _ (rw e at h₁) in
          let same : empty_index ≡ i = cc h₃ in rw (← same) empty_IsIndexed
    ]
  where
    empty_IsIndexed : IsIndexed data_start size empty_index
    empty_IsIndexed = record { sound = tt; distinct = tt; counted = λ q. refl }

-- The start of the data section, by the length that stands in front of the header.
abbrev pub data_start_of : Bytes → ℕ
data_start_of file = 8 + read_u64_le (take 8 file)

-- An accepted file as its readers rely on it.
pub record IsChecked (file : Bytes) (ts : List (Bytes × Tensor)) : Type 0 where
  pub sound : AllSound (data_start_of file) (length file - data_start_of file) ts
  pub distinct : Distinct ts
  pub header_fits : data_start_of file ≤ length file
  pub covered :
      (p : ℕ)
      → holders (data_start_of file + p) ts
        ≡ holds (data_start_of file) (length file) (data_start_of file + p)

-- Whatever `parse_header` accepts has distinct names, F32 tensors with row-major strides and four bytes
-- for each element, inside the data section, and each byte of the data section belongs to exactly one
-- tensor, no byte before it to any.
pub parse_header-IsChecked :
    (file : Bytes) {ts : List (Bytes × Tensor)} → parse_header file ≡ found ts → IsChecked file ts
unfolding parse_header
parse_header-IsChecked file {ts} h =
    let (_, g₁, h₁) = >>=-eq-found (guard (not (ltb (length file) 8))) _ h in
    let (_, g₂, h₂) = >>=-eq-found (guard (not (n == 0 || ltb max_header_size n))) _ h₁ in
    let (_, g₃, h₃) = >>=-eq-found (guard (not (ltb (length file - 8) n || ltb size_max n))) _ h₂ in
    let (i, e, h₄) =
      >>=-eq-found (parse_index (8 + n) (length file - (8 + n)) (take n (drop 8 file))) _ h₃ in
    let (total, c, h₅) = >>=-eq-found (of_option (covered_by 0 (sort i.ranges))) _ h₄ in
    let (_, g₄, h₆) = >>=-eq-found (guard (total == length file - (8 + n))) _ h₅ in
    let same : i.tensors ≡ ts = cc h₆ in
    let v = parse_index-IsIndexed (8 + n) (length file - (8 + n)) (take n (drop 8 file)) e in
    rw (← same) (record {
      sound = v.sound;
      distinct = v.distinct;
      header_fits = ground (arith, g₁, g₂, g₃);
      covered =
          λ p. cover p i.ranges total (v.counted p) (of_option-eq_found _ c) (ground (arith, g₄));
    })
  where
    n : ℕ
    n = read_u64_le (take 8 file)

    cover :
        (p : ℕ) (rs : List Range) (total : ℕ) {k : ℕ}
        → holding p rs ≡ k
        → covered_by 0 (sort rs) ≡ some total
        → total ≡ length file - (8 + n)
        → k ≡ holds (8 + n) (length file) (8 + n + p)
    cover p rs total count c t =
        let q = holding-covered_by p 0 (sort rs) c in
        let s = holding-sort p rs in ground (arith, q, s)
