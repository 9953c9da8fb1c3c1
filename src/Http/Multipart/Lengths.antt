-- ===== src/Http/Multipart/Lengths.antt =====
-- What the cuts of `parse_multipart` leave is shorter, and their fuel suffices.
use resonantia.Prelude.{
  ℕ, zero, suc, ◌+◌, ◌||◌, [], ◌∷◌, ◌++◌, Bytes, codes, leb, ◌==◌, ◌<◌, ◌≤◌, ◌≡◌, some, length,
  strip_prefix, split_text, Bool-cases, Option-cases, inl, inr, arith,
}
use resonantia.Outcome.{Ends, Ends-bind, Ends-guard, Ends-mono, left}
use resonantia.Http.Request.{max_header_bytes, is_some}
use resonantia.Http.Multipart.{new_line, is_closing, content_loop, cut_part}

pub strip_prefix-length :
    (k s : Bytes) {r : Bytes} → strip_prefix k s ≡ some r → length s ≡ length k + length r
unfolding strip_prefix
strip_prefix-length [] s h = ground arith
strip_prefix-length (x ∷ k) [] h = cc
strip_prefix-length (x ∷ k) (c ∷ s) h = elim (Bool-cases (x == c)) [
  | inl e ↦ let h' = rw e at h in omega (arith, strip_prefix-length k s h')
  | inr e ↦ let h' = rw e at h in cc
]

split_text-length :
    (k s : Bytes) {a r : Bytes}
    → split_text k s ≡ some (a, r)
    → length s ≡ length a + length k + length r
unfolding split_text
split_text-length k [] h = cc
split_text-length k (c ∷ s) {a} {r} h = elim (Option-cases (strip_prefix k (c ∷ s))) [
  | inr (r', e) ↦
      let h' = rw (e, split_text) at h in
      let first : [] ≡ a = cc h' in
      let second : r' ≡ r = cc h' in
      rw (← first, ← second) (omega (arith, strip_prefix-length k (c ∷ s) e))
  | inl e ↦
      let h' = rw (e, split_text) at h in
      elim (Option-cases (split_text k s)) [
        | inl e' ↦ let h'' = rw e' at h' in cc
        | inr ((a', r'), e') ↦
            let h'' = rw e' at h' in
            let first : c ∷ a' ≡ a = cc h'' in
            let second : r' ≡ r = cc h'' in
            rw (← first, ← second) (omega (arith, split_text-length k s e'))
      ]
]

content_loop-Ends :
    (fuel : ℕ) (marker content s : Bytes)
    → 0 < length marker
    → length s ≤ fuel
    → Ends left (suc (length s)) (content_loop fuel marker content s)
unfolding content_loop
content_loop-Ends zero marker content [] m h = tt
content_loop-Ends (suc fuel) marker content [] m h = tt
content_loop-Ends zero marker content (c ∷ s) m h = absurd (omega arith)
content_loop-Ends (suc fuel) marker content (c ∷ s) m h =
    elim (Option-cases (split_text marker (c ∷ s))) [
      | inl e ↦ rw (e, content_loop) tt
      | inr ((before, suffix), e) ↦
          let size = split_text-length marker (c ∷ s) e in
          let more =
            Ends-mono left _ (suc (suc (length s))) _
              (content_loop-Ends fuel marker (content ++ before ++ marker) suffix m (omega arith))
              (omega arith) in
          rw (e, content_loop)
            (elim (Bool-cases (is_some (strip_prefix new_line suffix) || is_closing suffix)) [
              | inl stop ↦ rw stop (omega arith)
              | inr go ↦ rw go more
            ])
    ]

-- The rest behind a part.
abbrev pub behind : Bytes × Bytes × Bytes → ℕ
behind t = length t.2

pub cut_part-Ends :
    (marker s : Bytes) → 0 < length marker → Ends behind (suc (length s)) (cut_part marker s)
unfolding cut_part
cut_part-Ends marker s m = elim (Option-cases (split_text (codes "\r\n\r\n") s)) [
  | inl e ↦ rw (e, cut_part) tt
  | inr ((headers, content), e) ↦
      let size = split_text-length (codes "\r\n\r\n") s e in
      rw (e, cut_part)
        (Ends-guard behind (suc (length s)) (leb (length headers) max_header_bytes) _ (λ _.
          Ends-bind left (suc (length content)) behind (suc (length s))
            (content_loop (length content) marker [] content) _
            (content_loop-Ends (length content) marker [] content m (omega arith))
            (λ p l. omega arith)))
]
