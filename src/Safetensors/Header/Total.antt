-- ===== src/Safetensors/Header/Total.antt =====
-- `parse_header` ends on every input: no loop of the model runs out of fuel.
use resonantia.Prelude.{
  contains, drop, not, take, true, some, none, suc, zero, [], ◌∷◌, ◌++◌, ◌+◌, ◌-◌, ◌==◌, ◌≢◌, ◌≤◌,
  ℕ, Bytes, length, arith,
}
use resonantia.Outcome.{
  found, spent, ◌>>=◌, ◌>>◌, guard, Ends, Ends-bind, Ends-mono, Ends-guard, left,
}
use resonantia.Safetensors.Scan.{skip_ws, expect, parse_string}
use resonantia.Safetensors.Scan.Total.{skip_ws-le, expect-Ends, parse_string-Ends}
use resonantia.Safetensors.Skip.{
  closed, more, separator, opens_empty, skip_value, nesting_fuel, skip_object,
}
use resonantia.Safetensors.Skip.Total.{after, separator-Ends, skip_value-Ends, skip_object-Ends}
use resonantia.Safetensors.Tensor.{parse_tensor}
use resonantia.Safetensors.Tensor.Total.{parse_tensor-Ends}
use resonantia.Safetensors.Header.{
  Index, names, member, members_loop, empty_index, parse_index, parse_header, read_u64_le,
}

member-Ends :
    (data_start size : ℕ) (name : Bytes) (i : Index) (s : Bytes)
    → Ends left (length s) (member data_start size name i s)
unfolding member
member-Ends data_start size name i s =
    let n = length s in
    let metadata =
      Ends-guard left n (not i.has_metadata)
        (skip_object (skip_value nesting_fuel) 1 s >>= λ r.
          found (record i { has_metadata = true }, r))
        λ _.
          Ends-bind length n left n (skip_object (skip_value nesting_fuel) 1 s) _
            (skip_object-Ends (skip_value nesting_fuel) 1
              (λ _ r. skip_value-Ends nesting_fuel 2 r (omega arith)) s)
            (λ r h. h) in
    let tensor =
      Ends-bind left n left n (parse_tensor name data_start size s)
        (λ t.
          guard (not (contains name (names i.tensors)))
          >> found (
            record i { tensors = (name, t.0.0) ∷ i.tensors; ranges = i.ranges ++ t.0.1 ∷ [] },
            t.1,
          ))
        (parse_tensor-Ends name data_start size s)
        (λ t h. Ends-guard left n (not (contains name (names i.tensors))) _ (λ _. h)) in
    ground (arith, metadata, tensor)

members_loop-Ends :
    (data_start size fuel : ℕ) (i : Index) (s : Bytes)
    → length s ≤ fuel
    → Ends left (length s + 1) (members_loop data_start size fuel i s)
unfolding members_loop
members_loop-Ends data_start size fuel i [] h = omega arith
members_loop-Ends data_start size zero i (c ∷ s) h = absurd (omega arith)
members_loop-Ends data_start size (suc fuel) i (c ∷ s) h =
    let n = length (c ∷ s) in
    let m = n + 1 in
    Ends-bind left n left m (parse_string (c ∷ s)) _ (parse_string-Ends (c ∷ s)) λ (name, s₁) h₁.
      Ends-bind length (length (skip_ws s₁)) left m (expect b':' (skip_ws s₁)) _
        (expect-Ends b':' (skip_ws s₁))
        λ s₂ h₂.
          Ends-bind left (length (skip_ws s₂)) left m (member data_start size name i (skip_ws s₂)) _
            (member-Ends data_start size name i (skip_ws s₂))
            λ (i₁, s₃) h₃.
              Ends-bind after (length s₃) left m (separator b'}' s₃) _ (separator-Ends b'}' s₃)
                (elim [
                  | closed r ↦ λ h₄. omega (arith, skip_ws-le s₁, skip_ws-le s₂)
                  | more r ↦ λ h₄.
                      Ends-mono left (length r + 1) m (members_loop data_start size fuel i₁ r)
                        (members_loop-Ends data_start size fuel i₁ r
                          (omega (arith, skip_ws-le s₁, skip_ws-le s₂)))
                        (omega (arith, skip_ws-le s₁, skip_ws-le s₂))
                ])

abbrev no_size : Index → ℕ
no_size i = 0

parse_index-Ends :
    (data_start size : ℕ) (s : Bytes) → Ends no_size 1 (parse_index data_start size s)
unfolding parse_index opens_empty
parse_index-Ends data_start size s =
    Ends-bind length (length (skip_ws s)) no_size 1 (expect b'{' (skip_ws s)) _
      (expect-Ends b'{' (skip_ws s))
      λ s₁ h₁.
        let u = skip_ws s₁ in
        let body : Ends left (length u + 1) (elim (opens_empty b'}' u) [
          | some r ↦ found (empty_index, r)
          | none ↦ members_loop data_start size (length u) empty_index u
        ]) =
          body_Ends u in
        Ends-bind left (length u + 1) no_size 1 _ _ body
          λ (i, s₃) h₃. Ends-guard no_size 1 (length (skip_ws s₃) == 0) _ λ _. omega arith
  where
    body_Ends :
        (u : Bytes)
        → Ends left (length u + 1) (elim (opens_empty b'}' u) [
          | some r ↦ found (empty_index, r)
          | none ↦ members_loop data_start size (length u) empty_index u
        ])
    body_Ends [] = members_loop-Ends data_start size 0 empty_index [] (omega arith)
    body_Ends (c ∷ u) =
        let loop =
          members_loop-Ends data_start size (length (c ∷ u)) empty_index (c ∷ u) (omega arith) in
        ground (arith, loop)

-- No loop of `parse_header` runs out of its fuel, on any input.
pub parse_header-ne-spent : (file : Bytes) → parse_header file ≢ spent
unfolding parse_header
parse_header-ne-spent file h =
    ground (arith, parse_index-Ends (8 + n) (length file - (8 + n)) (take n (drop 8 file)))
  where
    n : ℕ
    n = read_u64_le (take 8 file)
