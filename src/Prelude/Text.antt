-- ===== src/Prelude/Text.antt =====
-- Byte strings: literals, equality and membership as the sources' `==`, `find` and key sets use them.
use Prim.Native.Char.{code}
use Prim.Native.String.{String}
use Prim.Native.Nat.{◌+◌, ℕ}
use mathlib.Core.Path.{◌≡◌}
use mathlib.Core.Logic.{◌↔◌}
use mathlib.Core.Bool.{Bool, true, false, ◌&&◌, ◌||◌}
use mathlib.Core.List.{List, [], ◌∷◌}
use mathlib.Core.Option.{Option, none, some}
use native.Mathlib.Omega.{arith}
use resonantia.Prelude.Tests.{if◌then◌else◌, ◌==◌, leb}

abbrev pub Bytes : Type 0
Bytes = List ℕ

-- The bytes of an ASCII literal.
abbrev pub codes : String → Bytes
codes String.[] = []
codes (String.◌∷◌ c s) = code c ∷ codes s

unfoldable pub bytes_eq : Bytes → Bytes → Bool
bytes_eq [] [] = true
bytes_eq [] (y ∷ ys) = false
bytes_eq (x ∷ xs) [] = false
bytes_eq (x ∷ xs) (y ∷ ys) = x == y && bytes_eq xs ys

pub bytes_eq_iff : (a b : Bytes) → (bytes_eq a b ≡ true) ↔ (a ≡ b)
unfolding bytes_eq
bytes_eq_iff [] [] = ground arith
bytes_eq_iff [] (y ∷ ys) = ground arith
bytes_eq_iff (x ∷ xs) [] = ground arith
bytes_eq_iff (x ∷ xs) (y ∷ ys) = ground (arith, bytes_eq_iff xs ys)

unfoldable pub contains : Bytes → List Bytes → Bool
unfolding bytes_eq
contains k [] = false
contains k (x ∷ xs) = bytes_eq k x || contains k xs

abbrev pub is_digit : ℕ → Bool
is_digit c = leb b'0' c && leb c b'9'

-- `starts_with`, `compare(position, n, k) == 0`, `memcmp`: what follows the prefix `k`.
unfoldable pub strip_prefix : Bytes → Bytes → Option Bytes
strip_prefix [] s = some s
strip_prefix (k ∷ ks) [] = none
strip_prefix (k ∷ ks) (c ∷ s) = if k == c then strip_prefix ks s else none

abbrev pub is_alpha : ℕ → Bool
is_alpha c = leb b'a' c && leb c b'z' || leb b'A' c && leb c b'Z'

-- `std::tolower` of the C locale.
unfoldable pub to_lower : ℕ → ℕ
to_lower c = if leb b'A' c && leb c b'Z' then c + 32 else c

unfoldable pub lower : Bytes → Bytes
unfolding to_lower
lower [] = []
lower (c ∷ s) = to_lower c ∷ lower s

abbrev pub prepend : ℕ → Option (Bytes × Bytes) → Option (Bytes × Bytes)
prepend c none = none
prepend c (some (a, b)) = some (c ∷ a, b)

-- `find(k)`: the text in front of the first `k` and the text behind it.
unfoldable pub split_byte : ℕ → Bytes → Option (Bytes × Bytes)
split_byte k [] = none
split_byte k (c ∷ s) =
    let rest = prepend c (split_byte k s) in if c == k then some ([], s) else rest

-- The same for a text that is not empty.
unfoldable pub split_text : Bytes → Bytes → Option (Bytes × Bytes)
unfolding strip_prefix
split_text k [] = none
split_text k (c ∷ s) =
    let rest = prepend c (split_text k s) in
    elim (strip_prefix k (c ∷ s)) [ some r ↦ some ([], r) | none ↦ rest ]

unfoldable pub all_bytes : (ℕ → Bool) → Bytes → Bool
all_bytes test [] = true
all_bytes test (c ∷ s) = test c && all_bytes test s

-- `find_first_of(set)`, `find_first_not_of(set)`: is a byte in the set.
unfoldable pub one_of : Bytes → ℕ → Bool
one_of [] c = false
one_of (k ∷ ks) c = c == k || one_of ks c
