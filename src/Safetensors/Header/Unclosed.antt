-- ===== src/Safetensors/Header/Unclosed.antt =====
-- A gap of `parse_header`: its member loop also ends where the bytes run out, without the brace.
use resonantia.Prelude.{ℕ, Bytes, ◌≡◌, refl, [], ◌∷◌}
use resonantia.Outcome.{found}
use resonantia.Safetensors.Scan.{skip_ws, is_ws, expect}
use resonantia.Safetensors.Skip.{opens_empty}
use resonantia.Safetensors.Header.{parse_index, members_loop, empty_index}

-- An object that is opened and never closed is accepted as the empty one.
pub parse_index-unclosed :
    (data_start size : ℕ) (u : Bytes)
    → skip_ws u ≡ []
    → parse_index data_start size (b'{' ∷ u) ≡ found empty_index
unfolding parse_index expect opens_empty is_ws
parse_index-unclosed data_start size u h =
    rw skip_brace (rw (h, parse_index) (rw h (unfold members_loop skip_ws in refl)))
  where
    skip_brace : skip_ws (b'{' ∷ u) ≡ b'{' ∷ u
    skip_brace = unfold skip_ws in refl
