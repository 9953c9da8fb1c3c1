-- ===== src/Http/Request/Body.antt =====
-- Receiving: what the two loops of `read_request` get does not depend on how the bytes were cut up.
use Prim.Native.Nat.{min}
use mathlib.Core.List.{List, append_assoc, append-nil}
use resonantia.Prelude.{
  length-drop, length-take, take-append-drop, drop, Option-cases, length-append, take, length, ◌-◌,
  ◌∙◌, ap, Bool-cases, refl, inr, inl, some, none, suc, zero, [], ◌∷◌, ◌++◌, ◌+◌, ◌≤◌, ◌<◌, ◌≡◌,
  if◌then◌else◌, ℕ, arith,
}
use resonantia.Http.Request.{
  leb, Bytes, bad_request, Step, next, stop, receive, body_loop, read_body, chunk_size,
}

-- The stream that the pieces make up.
abbrev pub joined : List Bytes → Bytes
joined [] = []
joined (p ∷ ps) = p ++ joined ps

-- No receive fails before the stream ends.
abbrev pub Steady : List Bytes → Type 0
Steady [] = Unit {0}
Steady (p ∷ ps) = (0 < length p) × Steady ps

-- What one receive does to a steady stream.
abbrev Received : ℕ → List Bytes → Bytes → List Bytes → Type 0
Received size pieces got rest =
    (got ++ joined rest ≡ joined pieces) × (0 < length got) × (length got ≤ size) × Steady rest

receive-Received :
    (size : ℕ) (pieces : List Bytes) {got : Bytes} {rest : List Bytes}
    → 0 < size
    → Steady pieces
    → receive size pieces ≡ some (got, rest)
    → Received size pieces got rest
unfolding receive
receive-Received size [] z s h = cc
receive-Received size ([] ∷ pieces) z s h = cc
receive-Received size ((c ∷ piece) ∷ pieces) {got} {rest} z s h =
    elim (Bool-cases (leb (length (c ∷ piece)) size)) [
      | inl e ↦
          let h' = rw e at h in
          let first : c ∷ piece ≡ got = cc h' in
          let second : pieces ≡ rest = cc h' in
          rw (← first, ← second) (refl, omega arith, ground arith, s.1)
      | inr e ↦
          let h' = rw e at h in
          let first : take size (c ∷ piece) ≡ got = cc h' in
          let second : drop size (c ∷ piece) ∷ pieces ≡ rest = cc h' in
          rw (← first, ← second)
            (
              rw (← append_assoc)
                  (ap (λ (b : Bytes). b ++ joined pieces) (take-append-drop size (c ∷ piece))),
              ground (arith, length-take size (c ∷ piece)),
              ground (arith, length-take size (c ∷ piece)),
              (ground (arith, length-drop size (c ∷ piece)), s.1),
            )
    ]

receive-none :
    (size : ℕ) (pieces : List Bytes)
    → Steady pieces
    → receive size pieces ≡ none
    → joined pieces ≡ []
unfolding receive
receive-none size [] s h = refl
receive-none size ([] ∷ pieces) s h = absurd (omega arith)
receive-none size ((c ∷ piece) ∷ pieces) s h = ground arith

take-append : (n : ℕ) (a b : Bytes) → n ≤ length a → take n (a ++ b) ≡ take n a
take-append zero a b h = refl
take-append (suc n) [] b h = absurd (omega arith)
take-append (suc n) (c ∷ a) b h = ap (◌∷◌ c) (take-append n a b (omega arith))

take_short : (n : ℕ) (a : Bytes) → length a ≤ n → take n a ≡ a
take_short zero [] h = refl
take_short zero (c ∷ a) h = absurd (omega arith)
take_short (suc n) [] h = refl
take_short (suc n) (c ∷ a) h = ap (◌∷◌ c) (take_short n a (omega arith))

-- The body is the first bytes of the stream, if the stream is long enough.
abbrev pub body_of : ℕ → Bytes → Step Bytes
body_of n stream = if leb n (length stream) then next (take n stream) else stop bad_request

body_loop-body_of :
    (fuel n : ℕ) (body : Bytes) (pieces : List Bytes)
    → Steady pieces
    → length body ≤ n
    → n ≤ length body + fuel
    → body_loop fuel n body pieces ≡ body_of n (body ++ joined pieces)
unfolding body_loop
body_loop-body_of zero n body pieces s le h =
    let full : length body ≡ n = omega arith in
    ground (
      arith,
      full,
      take-append n body (joined pieces),
      take_short n body (omega arith),
      length-append body (joined pieces),
    )
body_loop-body_of (suc fuel) n body pieces s le h = elim (Bool-cases (leb n (length body))) [
  | inl full ↦
      let same : length body ≡ n = ground arith in
      rw full (
        ground (
          arith,
          take-append n body (joined pieces),
          take_short n body (omega arith),
          length-append body (joined pieces),
        ))
  | inr short ↦
      let wanted = min chunk_size (n - length body) in
      elim (Option-cases (receive wanted pieces)) [
        | inl e ↦
            rw (short, e)
              (ground (
                arith,
                short,
                receive-none wanted pieces s e,
                append-nil body,
                length-append body (joined pieces),
              ))
        | inr ((got, rest), e) ↦
            let (join, some_bytes, fits, steady) =
              receive-Received wanted pieces (ground (arith, short)) s e in
            let grows = length-append body got in
            rw (short, e)
              (body_loop-body_of fuel n (body ++ got) rest steady (omega arith) (omega arith)
                ∙ rw (append_assoc, join))
      ]
]

-- However the stream is cut up, the body is its first `content_length` bytes, those behind the
-- head included; a stream that ends before is refused.
pub read_body-body_of :
    (n : ℕ) (body : Bytes) (pieces : List Bytes)
    → Steady pieces
    → read_body n body pieces ≡ body_of n (body ++ joined pieces)
unfolding read_body
read_body-body_of n body pieces s = elim (Bool-cases (leb (length body) n)) [
  | inl fits ↦
      rw (take_short n body (ground arith))
        (body_loop-body_of n n body pieces s (ground arith) (omega arith))
  | inr over ↦
      let cut = length-take n body in
      let size : length (take n body) ≡ n = ground arith in
      body_loop-body_of n n (take n body) pieces s (omega arith) (omega arith)
      ∙ ground (
        arith,
        size,
        length-append (take n body) (joined pieces),
        length-append body (joined pieces),
        take-append n body (joined pieces),
        take-append n (take n body) (joined pieces),
        take_short n (take n body) (omega arith),
      )
]

receive-le :
    (size : ℕ) (pieces : List Bytes) {got : Bytes} {rest : List Bytes}
    → receive size pieces ≡ some (got, rest)
    → length got ≤ size
unfolding receive
receive-le size [] h = cc
receive-le size ([] ∷ pieces) h = cc
receive-le size ((c ∷ piece) ∷ pieces) {got} h = elim (Bool-cases (leb (length (c ∷ piece)) size)) [
  | inl e ↦ let first : c ∷ piece ≡ got = cc (rw e at h) in rw (← first) (ground arith)
  | inr e ↦
      let first : take size (c ∷ piece) ≡ got = cc (rw e at h) in
      rw (← first) (omega (arith, length-take size (c ∷ piece)))
]

body_loop-length :
    (fuel n : ℕ) (body : Bytes) (pieces : List Bytes) {b : Bytes}
    → length body ≤ n
    → body_loop fuel n body pieces ≡ next b
    → length b ≡ n
unfolding body_loop
body_loop-length zero n body pieces le h = ground arith
body_loop-length (suc fuel) n body pieces {b} le h = elim (Bool-cases (leb n (length body))) [
  | inl full ↦ let same : body ≡ b = cc (rw full at h) in rw (← same) (ground (arith, full))
  | inr short ↦
      let wanted = min chunk_size (n - length body) in
      elim (Option-cases (receive wanted pieces)) [
        | inl e ↦ absurd (let x = rw (short, e) at h in cc)
        | inr ((got, rest), e) ↦
            body_loop-length fuel n (body ++ got) rest
              (ground (arith, short, receive-le wanted pieces e, length-append body got))
              (rw (short, e) at h)
      ]
]

-- A body that is returned has the length that was asked for, whatever the stream.
pub read_body-length :
    (n : ℕ) (body : Bytes) (pieces : List Bytes) {b : Bytes}
    → read_body n body pieces ≡ next b
    → length b ≡ n
unfolding read_body
read_body-length n body pieces h =
    body_loop-length n n (take n body) pieces (omega (arith, length-take n body)) h
