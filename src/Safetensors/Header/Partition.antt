-- ===== src/Safetensors/Header/Partition.antt =====
-- The sorted ranges of `parse_header` cover the data section: each byte is held by one range.
use resonantia.Prelude.{
  ℕ, ◌+◌, ◌≤◌, ◌≡◌, refl, ◌&&◌, List, [], ◌∷◌, ◌++◌, ltb, leb, if◌then◌else◌, some, arith,
  Bool-cases, inl, inr, ◌∙◌,
}
use resonantia.Safetensors.Tensor.{Range}
use resonantia.Safetensors.Header.{range_leb, insert, sort, covered_by}

-- One if the half-open range from `lo` to `hi` holds `q`.
abbrev pub holds : ℕ → ℕ → ℕ → ℕ
holds lo hi q = if leb lo q && ltb q hi then 1 else 0

-- How many of the ranges hold `q`.
abbrev pub holding : ℕ → List Range → ℕ
holding q [] = 0
holding q ((lo, hi) ∷ rs) = holds lo hi q + holding q rs

pub holding-append :
    (q : ℕ) (rs ss : List Range) → holding q (rs ++ ss) ≡ holding q rs + holding q ss
holding-append q [] ss = omega arith
holding-append q ((lo, hi) ∷ rs) ss = omega (arith, holding-append q rs ss)

holding-insert :
    (q : ℕ) (r : Range) (rs : List Range) → holding q (insert r rs) ≡ holding q (r ∷ rs)
unfolding insert
holding-insert q r [] = refl
holding-insert q (lo, hi) ((a, b) ∷ rs) = elim (Bool-cases (range_leb (lo, hi) (a, b))) [
  | inl e ↦ rw e
  | inr e ↦ rw e (omega (arith, holding-insert q (lo, hi) rs))
]

pub holding-sort : (q : ℕ) (rs : List Range) → holding q (sort rs) ≡ holding q rs
unfolding sort
holding-sort q [] = refl
holding-sort q ((lo, hi) ∷ rs) =
    holding-insert q (lo, hi) (sort rs) ∙ omega (arith, holding-sort q rs)

-- Ranges that follow one another hold exactly what lies between the ends.
pub holding-covered_by :
    (q covered : ℕ) (rs : List Range) {total : ℕ}
    → covered_by covered rs ≡ some total
    → (covered ≤ total) × (holding q rs ≡ holds covered total q)
unfolding covered_by
holding-covered_by q covered [] h = ground arith
holding-covered_by q covered ((lo, hi) ∷ rs) {total} h =
    ground (arith, λ (e : covered_by hi rs ≡ some total). holding-covered_by q hi rs e)
