-- ===== src/Http/Range/Laws.antt =====
-- Which bytes a range header selects, and that these bytes are sent.
use Prim.Native.Nat.{min}
use resonantia.Prelude.{
  Option-cases, Bool-cases, ◌==◌, inr, inl, length-append, ◌∙◌, refl, some, none, [], ◌∷◌, ◌++◌,
  ◌-◌, ◌≤◌, ◌<◌, ◌&&◌, ◌≡◌, if◌then◌else◌, ℕ, arith,
}
use resonantia.Prelude.Decimal.{to_string, AllDigits, to_string_lem}
use resonantia.Prelude.{length, leb, ltb, codes, Bytes, strip_prefix, Option, split_byte}
use resonantia.Prelude.Number.{u64_max, number, number-to_string}
use resonantia.Http.Range.{suffix_range, prefix_range, bounded_range, byte_range}

-- What a client may ask for.
pub data Spec : Type 0 where
  whole : Spec
  from : ℕ → Spec
  span : ℕ → ℕ → Spec
  suffix : ℕ → Spec

-- The header that asks for it.
unfoldable pub header : Spec → Bytes
header whole = []
header (from a) = codes "bytes=" ++ (to_string a ++ b'-' ∷ [])
header (span a b) = codes "bytes=" ++ (to_string a ++ b'-' ∷ to_string b)
header (suffix n) = codes "bytes=" ++ (b'-' ∷ to_string n)

-- The bytes that it means, first and last, in a file of `size` bytes.
unfoldable pub resolve : ℕ → Spec → Option (ℕ × ℕ)
resolve size whole = some (0, size - 1)
resolve size (from a) = if ltb a size then some (a, size - 1) else none
resolve size (span a b) = if ltb a size && leb a b then some (a, min b (size - 1)) else none
resolve size (suffix n) = if ltb 0 n then some (size - min size n, size - 1) else none

-- The numbers of a header fit 64 bits.
abbrev pub IsWord : Spec → Type 0
IsWord whole = Unit {0}
IsWord (from a) = a ≤ u64_max
IsWord (span a b) = (a ≤ u64_max) × (b ≤ u64_max)
IsWord (suffix n) = n ≤ u64_max

split_byte-AllDigits :
    (s rest : Bytes) → AllDigits s → split_byte b'-' (s ++ b'-' ∷ rest) ≡ some (s, rest)
unfolding split_byte
split_byte-AllDigits [] rest h = refl
split_byte-AllDigits (c ∷ s) rest h = rw (split_byte-AllDigits s rest h.1) (ground arith)

byte_range-digits :
    (size : ℕ) (s rest : Bytes)
    → AllDigits s
    → 0 < length s
    → length s ≤ 20
    → length rest ≤ 20
    → byte_range size (codes "bytes=" ++ (s ++ b'-' ∷ rest)) ≡ prefix_range size s rest
unfolding byte_range strip_prefix
byte_range-digits size [] rest d n l k = absurd (omega arith)
byte_range-digits size (c ∷ s) rest d n l k =
    rw (split_byte-AllDigits (c ∷ s) rest d) (ground (arith, length-append s (b'-' ∷ rest)))

-- A reading of the numbers, whole.
prefix_range-from :
    (size a : ℕ)
    → a ≤ u64_max
    → prefix_range size (to_string a) [] ≡ (if ltb a size then some (a, size - 1) else none)
unfolding prefix_range
prefix_range-from size a h = rw (number-to_string a h, prefix_range) (ground arith)

prefix_range-span :
    (size a b : ℕ)
    → a ≤ u64_max
    → b ≤ u64_max
    → prefix_range size (to_string a) (to_string b)
      ≡ (if ltb a size && leb a b then some (a, min b (size - 1)) else none)
unfolding prefix_range
prefix_range-span size a b h k =
    let (_, _, some_digits, _) = to_string_lem b (omega arith) in
    rw (number-to_string a h, prefix_range) (rw (number-to_string b k, prefix_range) (ground arith))

byte_range-suffix :
    (size n : ℕ)
    → n ≤ u64_max
    → byte_range size (codes "bytes=" ++ (b'-' ∷ to_string n))
      ≡ (if ltb 0 n then some (size - min size n, size - 1) else none)
unfolding byte_range strip_prefix split_byte suffix_range
byte_range-suffix size n h =
    let (_, _, _, few) = to_string_lem n (omega arith) in
    rw (number-to_string n h, suffix_range, split_byte) (ground (arith, few))

-- Every well-formed header is read as what it means.
pub byte_range-header :
    (size : ℕ) (spec : Spec) → IsWord spec → byte_range size (header spec) ≡ resolve size spec
unfolding header resolve
byte_range-header size whole h = unfold byte_range in refl
byte_range-header size (from a) h =
    let (_, digits, some_digits, few) = to_string_lem a (omega arith) in
    byte_range-digits size (to_string a) [] digits some_digits few (omega arith)
    ∙ prefix_range-from size a h
byte_range-header size (span a b) h =
    let (_, digits, some_digits, few) = to_string_lem a (omega arith) in
    let (_, _, _, few') = to_string_lem b (omega arith) in
    let (small, small') = h in
    byte_range-digits size (to_string a) (to_string b) digits some_digits few few'
    ∙ prefix_range-span size a b small small'
byte_range-header size (suffix n) h = byte_range-suffix size n h

-- Both ends inside a file of `size` bytes, in order.
abbrev pub IsWithin : ℕ → Option (ℕ × ℕ) → Type 0
IsWithin size none = Unit {0}
IsWithin size (some (first, last)) = (first ≤ last) × (last < size)

bounded_range-IsWithin : (size first last : ℕ) → IsWithin size (bounded_range size first last)
bounded_range-IsWithin size first last = elim (Bool-cases (ltb first size && leb first last)) [
  | inl e ↦ rw e (ground arith, ground arith)
  | inr e ↦ rw e tt
]

suffix_range-IsWithin :
    (size : ℕ) (text : Bytes) → 0 < size → IsWithin size (suffix_range size text)
unfolding suffix_range
suffix_range-IsWithin size text pos = elim (Option-cases (number text)) [
  | inl e ↦ rw (e, suffix_range) tt
  | inr (count, e) ↦
      rw (e, suffix_range)
        (elim (Bool-cases (ltb 0 count)) [
          | inl some_bytes ↦ rw some_bytes (ground arith, ground arith)
          | inr no_bytes ↦ rw no_bytes tt
        ])
]

prefix_range-IsWithin :
    (size : ℕ) (before after : Bytes) → IsWithin size (prefix_range size before after)
unfolding prefix_range
prefix_range-IsWithin size before after = elim (Option-cases (number before)) [
  | inl e ↦ rw (e, prefix_range) tt
  | inr (first, e) ↦
      rw (e, prefix_range)
        (elim (Bool-cases (length after == 0)) [
          | inl none_after ↦ rw none_after (bounded_range-IsWithin size first (size - 1))
          | inr some_after ↦ rw some_after (elim (Option-cases (number after)) [
            | inl e' ↦ rw e' tt
            | inr (last, e') ↦ rw e' (bounded_range-IsWithin size first last)
          ])
        ])
]

pub byte_range-IsWithin :
    (size : ℕ) (range : Bytes) → 0 < size → IsWithin size (byte_range size range)
unfolding byte_range
byte_range-IsWithin size [] pos = (omega arith, omega arith)
byte_range-IsWithin size (c ∷ range) pos = elim (Bool-cases (ltb 96 (length (c ∷ range)))) [
  | inl long ↦ rw (long, byte_range) tt
  | inr short ↦
      rw (short, byte_range)
        (elim (Option-cases (strip_prefix (codes "bytes=") (c ∷ range))) [
          | inl e ↦ rw e tt
          | inr (bytes, e) ↦ rw e (elim (Option-cases (split_byte b'-' bytes)) [
            | inl e' ↦ rw e' tt
            | inr (([], after), e') ↦ rw e' (suffix_range-IsWithin size after pos)
            | inr ((d ∷ before, after), e') ↦ rw e' (prefix_range-IsWithin size (d ∷ before) after)
          ])
        ])
]
