-- ===== src/Http/Auth.antt =====
-- `parse_size`, `constant_time_equal` and `authorized` of tools/web/http_transport.cpp.
pub mod Laws
use Prim.Native.Nat.{bit_or, bit_xor, max}
use resonantia.Prelude.{
  ℕ, zero, suc, ◌+◌, ◌-◌, ◌*◌, ◌/◌, ◌^◌, Bool, true, false, ◌&&◌, ◌||◌, not, List, [], ◌∷◌, Bytes,
  codes, is_digit, ltb, leb, ◌==◌, if◌then◌else◌, Option, none, some, length, take, drop, to_lower,
}

abbrev pub size_max : ℕ
size_max = 2 ^ 64 - 1

unfoldable pub size_loop : ℕ → Bytes → Option ℕ
size_loop parsed [] = some parsed
size_loop parsed (c ∷ s) =
    let rest = size_loop (parsed * 10 + (c - b'0')) s in
    if not (is_digit c)
    then none
    else if ltb ((size_max - (c - b'0')) / 10) parsed
    then none
    else rest

unfoldable pub parse_size : Bytes → Option ℕ
unfolding size_loop
parse_size [] = none
parse_size (c ∷ s) = size_loop 0 (c ∷ s)

-- `i < size ? text[i] : 0`
unfoldable pub byte_at : Bytes → ℕ → ℕ
byte_at [] i = 0
byte_at (c ∷ s) zero = c
byte_at (c ∷ s) (suc i) = byte_at s i

-- The loop from `i` on, for as many rounds as are left.
unfoldable pub difference_loop : Bytes → Bytes → ℕ → ℕ → ℕ → ℕ
difference_loop left right zero i difference = difference
difference_loop left right (suc rounds) i difference =
    difference_loop left right rounds (i + 1)
      (bit_or difference (bit_xor (byte_at left i) (byte_at right i)))

unfoldable pub constant_time_equal : Bytes → Bytes → Bool
constant_time_equal left right =
    difference_loop left right (max (length left) (length right)) 0
      (bit_xor (length left) (length right))
    == 0

abbrev pub bearer : Bytes
bearer = codes "Bearer "

-- The loop over the prefix, with `tolower` on both sides.
unfoldable pub matches_prefix : Bytes → Bytes → Bool
unfolding to_lower
matches_prefix [] s = true
matches_prefix (k ∷ ks) [] = false
matches_prefix (k ∷ ks) (c ∷ s) = to_lower c == to_lower k && matches_prefix ks s

-- The token that the server was started with is empty, or the header carries it.
unfoldable pub authorized : Bytes → Bytes → Bool
authorized authorization token =
    length token == 0
    || (not (ltb (length authorization) 7)
        && matches_prefix bearer authorization
        && constant_time_equal (drop 7 authorization) token)
