-- ===== src/Safetensors/Header.antt =====
-- `parse_header` of src/io/safetensors.cpp: the length prefix, the JSON object and the layout of the
-- data section.
pub mod Partition
pub mod Sound
pub mod Total
pub mod Unclosed
use resonantia.Prelude.{
  ℕ, zero, suc, ◌+◌, ◌-◌, ◌*◌, ◌^◌, Bool, ◌&&◌, ◌||◌, not, true, false, List, [], ◌∷◌, ◌++◌, map,
  Bytes, codes, ltb, leb, ◌==◌, if◌then◌else◌, Option, none, some, length, take, drop, contains,
  bytes_eq,
}
use resonantia.Outcome.{Outcome, found, refused, spent, ◌>>=◌, ◌>>◌, guard, of_option}
use resonantia.Safetensors.Scan.{skip_ws, expect, parse_string}
use resonantia.Safetensors.Skip.{
  branch, Next, closed, more, separator, opens_empty, skip_object, skip_value, nesting_fuel,
}
use resonantia.Safetensors.Tensor.{Tensor, Range, parse_tensor, size_max}

abbrev pub max_header_size : ℕ
max_header_size = 100_000_000

-- The first byte is the lowest; the shifted bytes share no bit, so `|=` is `+`.
unfoldable pub read_u64_le : Bytes → ℕ
read_u64_le [] = 0
read_u64_le (b ∷ bs) = b + 256 * read_u64_le bs

-- What the loop over the members has gathered; `emplace` refuses a name that is there.
pub record Index : Type 0 where
  pub tensors : List (Bytes × Tensor)
  pub ranges : List Range
  pub has_metadata : Bool

abbrev pub names : List (Bytes × Tensor) → List Bytes
names = map (λ t. t.0)

unfoldable pub member : ℕ → ℕ → Bytes → Index → Bytes → Outcome (Index × Bytes)
member data_start data_section_size name i s =
    if bytes_eq name (codes "__metadata__")
    then (do
      guard (not i.has_metadata)
      r ← skip_object (skip_value nesting_fuel) 1 s
      found (record i { has_metadata = true }, r))
    else (do
      ((tensor, range), r) ← parse_tensor name data_start data_section_size s
      guard (not (contains name (names i.tensors)))
      found (record i { tensors = (name, tensor) ∷ i.tensors; ranges = i.ranges ++ range ∷ [] }, r))

-- The members of the object. The loop ends at the brace, and also where the bytes run out behind a
-- comma or right behind the opening brace.
unfoldable pub members_loop : ℕ → ℕ → ℕ → Index → Bytes → Outcome (Index × Bytes)
members_loop data_start size fuel i [] = found (i, [])
members_loop data_start size zero i (c ∷ s) = spent
members_loop data_start size (suc fuel) i (c ∷ s) = do
  (name, s₁) ← parse_string (c ∷ s)
  s₂ ← expect b':' (skip_ws s₁)
  (i₁, s₃) ← member data_start size name i (skip_ws s₂)
  next ← separator b'}' s₃
  branch next (λ r. found (i₁, r)) (λ r. members_loop data_start size fuel i₁ r)

abbrev pub empty_index : Index
empty_index = record { tensors = []; ranges = []; has_metadata = false }

-- The bytes of the object, up to `end`.
unfoldable pub parse_index : ℕ → ℕ → Bytes → Outcome Index
parse_index data_start size s = do
  s₁ ← expect b'{' (skip_ws s)
  let s₂ = skip_ws s₁
  (i, s₃) ← elim (opens_empty b'}' s₂) [
    | some r ↦ found (empty_index, r)
    | none ↦ members_loop data_start size (length s₂) empty_index s₂
  ]
  guard (length (skip_ws s₃) == 0)
  found i

-- `std::sort` on pairs: by the first component, then by the second.
unfoldable pub range_leb : Range → Range → Bool
range_leb (a, b) (c, d) = ltb a c || a == c && leb b d

unfoldable pub insert : Range → List Range → List Range
unfolding range_leb
insert r [] = r ∷ []
insert r (x ∷ xs) = if range_leb r x then r ∷ x ∷ xs else x ∷ insert r xs

unfoldable pub sort : List Range → List Range
unfolding insert
sort [] = []
sort (r ∷ rs) = insert r (sort rs)

-- The loop over the sorted ranges: `none` where a range leaves a gap or overlaps.
unfoldable pub covered_by : ℕ → List Range → Option ℕ
covered_by covered [] = some covered
covered_by covered ((first, second) ∷ rs) =
    if not (first == covered) || ltb second first then none else covered_by second rs

unfoldable pub parse_header : Bytes → Outcome (List (Bytes × Tensor))
parse_header file = do
  let file_size = length file
  guard (not (ltb file_size 8))
  let header_length = read_u64_le (take 8 file)
  guard (not (header_length == 0 || ltb max_header_size header_length))
  guard (not (ltb (file_size - 8) header_length || ltb size_max header_length))
  let data_start = 8 + header_length
  let data_section_size = file_size - data_start
  i ← parse_index data_start data_section_size (take header_length (drop 8 file))
  covered ← of_option (covered_by 0 (sort i.ranges))
  guard (covered == data_section_size)
  found i.tensors
