-- ===== src/Operations/Progress/RoundTrip.antt =====
-- A progress record that was written is read back.
use resonantia.Prelude.{
  true, ◌&&◌, not, List, [], ◌∷◌, ◌++◌, Bytes, codes, leb, ◌≤◌, ◌<◌, ◌≡◌, refl, none, some, length,
  bytes_eq, bytes_eq_iff, contains, all_bytes, split_byte, strip_prefix, Bool-cases, inl, inr,
  arith, length-append,
}
use resonantia.Prelude.Decimal.{to_string, AllDigits, to_string_lem}
use resonantia.Prelude.Number.{u64_max, number-to_string}
use resonantia.Outcome.{found, guard, >>=-eq-found, guard-eq-found}
use resonantia.Operations.Progress.{
  ProgressMessage, is_phase_byte, valid_progress_phase, units, valid_progress_unit, marker,
  breaks_line, words_loop, message_of, parse_progress_message, line_of, write_progress_message,
}

-- No blank and no control byte.
abbrev IsPlain : Bytes → Type 0
IsPlain [] = Unit {0}
IsPlain (c ∷ s) = (32 < c) × IsPlain s

-- Neither kind of byte but blanks.
abbrev IsLine : Bytes → Type 0
IsLine [] = Unit {0}
IsLine (c ∷ s) = (32 ≤ c) × IsLine s

split_byte-IsPlain :
    (s rest : Bytes) → IsPlain s → split_byte b' ' (s ++ b' ' ∷ rest) ≡ some (s, rest)
unfolding split_byte
split_byte-IsPlain [] rest h = refl
split_byte-IsPlain (c ∷ s) rest h = rw (split_byte-IsPlain s rest h.1) (ground arith)

split_byte-IsPlain-none : (s : Bytes) → IsPlain s → split_byte b' ' s ≡ none
unfolding split_byte
split_byte-IsPlain-none [] h = refl
split_byte-IsPlain-none (c ∷ s) h = rw (split_byte-IsPlain-none s h.1) (ground arith)

IsLine-append : (s t : Bytes) → IsPlain s → IsLine t → IsLine (s ++ t)
IsLine-append [] t h k = k
IsLine-append (c ∷ s) t h k = (omega arith, IsLine-append s t h.1 k)

IsLine-IsPlain : (s : Bytes) → IsPlain s → IsLine s
IsLine-IsPlain [] h = tt
IsLine-IsPlain (c ∷ s) h = (omega arith, IsLine-IsPlain s h.1)

all_bytes-IsLine : (s : Bytes) → IsLine s → all_bytes (λ c. not (breaks_line c)) s ≡ true
unfolding all_bytes
all_bytes-IsLine [] h = refl
all_bytes-IsLine (c ∷ s) h = ground (arith, all_bytes-IsLine s h.1)

IsPlain-AllDigits : (s : Bytes) → AllDigits s → IsPlain s
IsPlain-AllDigits [] h = tt
IsPlain-AllDigits (c ∷ s) h = (ground arith, IsPlain-AllDigits s h.1)

IsPlain-phase : (s : Bytes) → all_bytes is_phase_byte s ≡ true → IsPlain s
unfolding all_bytes
IsPlain-phase [] h = tt
IsPlain-phase (c ∷ s) h = (ground arith, IsPlain-phase s (ground arith))

-- What holds of every text of a list holds of one that the list contains.
abbrev ForAll : (Bytes → Type 0) → List Bytes → Type 0
ForAll P [] = Unit {0}
ForAll P (k ∷ ks) = P k × ForAll P ks

contains-ForAll :
    (P : Bytes → Type 0) (s : Bytes) (ks : List Bytes) → contains s ks ≡ true → ForAll P ks → P s
unfolding contains
contains-ForAll P s [] h all = cc
contains-ForAll P s (k ∷ ks) h all = elim (Bool-cases (bytes_eq s k)) [
  | inl e ↦ let same : s ≡ k = (bytes_eq_iff s k).0 e in rw same all.0
  | inr e ↦ contains-ForAll P s ks (rw e at h) all.1
]

abbrev IsUnit : Bytes → Type 0
IsUnit s = IsPlain s × (length s ≤ 11)

valid_progress_unit-IsUnit : (s : Bytes) → valid_progress_unit s ≡ true → IsUnit s
unfolding valid_progress_unit
valid_progress_unit-IsUnit s h = contains-ForAll IsUnit s units h (omega arith)

-- The parts of a record that is written.
record IsWritten (p : ProgressMessage) : Type 0 where
  phase_valid : valid_progress_phase p.phase ≡ true
  phase_plain : IsPlain p.phase
  phase_short : length p.phase ≤ 48
  unit_valid : valid_progress_unit p.unit ≡ true
  unit_plain : IsPlain p.unit
  unit_short : length p.unit ≤ 11
  ordered : leb p.completed p.total ≡ true

write_progress_message-IsWritten :
    (p : ProgressMessage) {line : Bytes}
    → write_progress_message p ≡ found line
    → IsWritten p × (line ≡ line_of p ++ b'\n' ∷ [])
unfolding write_progress_message valid_progress_phase
write_progress_message-IsWritten p h =
    let test =
      valid_progress_phase p.phase && valid_progress_unit p.unit && leb p.completed p.total in
    let (_, tested, h1) = >>=-eq-found (guard test) _ h in
    let holds : test ≡ true = guard-eq-found _ tested in
    let unit : valid_progress_unit p.unit ≡ true = ground arith in
    let unit_parts = valid_progress_unit-IsUnit p.unit unit in
    (
      record {
        phase_valid = ground arith;
        phase_plain = IsPlain-phase p.phase (ground arith);
        phase_short = ground arith;
        unit_valid = unit;
        unit_plain = unit_parts.0;
        unit_short = unit_parts.1;
        ordered = ground arith;
      },
      cc h1,
    )

-- The words of the line.
words_loop-line_of :
    (p : ProgressMessage)
    → IsWritten p
    → p.completed ≤ u64_max
    → p.total ≤ u64_max
    → words_loop 5 (line_of p)
      ≡ found
          (marker ∷ codes "1" ∷ p.phase ∷ to_string p.completed ∷ to_string p.total ∷ p.unit ∷ [])
unfolding words_loop line_of split_byte
words_loop-line_of p w c t =
    let (_, digits, _, _) = to_string_lem p.completed (omega arith) in
    let (_, digits', _, _) = to_string_lem p.total (omega arith) in
    let from_total = to_string p.total ++ b' ' ∷ p.unit in
    let from_completed = to_string p.completed ++ b' ' ∷ from_total in
    rw (split_byte-IsPlain p.phase from_completed w.phase_plain) (
      rw (split_byte-IsPlain (to_string p.completed) from_total (IsPlain-AllDigits _ digits)) (
        rw (split_byte-IsPlain (to_string p.total) p.unit (IsPlain-AllDigits _ digits'))
          (rw (split_byte-IsPlain-none p.unit w.unit_plain) refl)))

IsLine-line_of :
    (p : ProgressMessage)
    → IsWritten p
    → p.completed ≤ u64_max
    → p.total ≤ u64_max
    → IsLine (line_of p) × (length (line_of p) ≤ 192)
unfolding line_of
IsLine-line_of p w c t =
    let (_, digits, _, few) = to_string_lem p.completed (omega arith) in
    let (_, digits', _, few') = to_string_lem p.total (omega arith) in
    let from_total = to_string p.total ++ b' ' ∷ p.unit in
    let from_completed = to_string p.completed ++ b' ' ∷ from_total in
    let tail =
      IsLine-append (to_string p.total) (b' ' ∷ p.unit) (IsPlain-AllDigits _ digits')
        (omega arith, IsLine-IsPlain p.unit w.unit_plain) in
    let tail' =
      IsLine-append (to_string p.completed) (b' ' ∷ from_total) (IsPlain-AllDigits _ digits)
        (omega arith, tail) in
    let tail'' = IsLine-append p.phase (b' ' ∷ from_completed) w.phase_plain (omega arith, tail') in
    (
      ground (arith, tail''),
      omega (
        arith,
        w.phase_short,
        w.unit_short,
        length-append p.phase (b' ' ∷ from_completed),
        length-append (to_string p.completed) (b' ' ∷ from_total),
        length-append (to_string p.total) (b' ' ∷ p.unit),
      ),
    )

message_of-line_of :
    (p : ProgressMessage)
    → IsWritten p
    → p.completed ≤ u64_max
    → p.total ≤ u64_max
    → message_of
        (marker ∷ codes "1" ∷ p.phase ∷ to_string p.completed ∷ to_string p.total ∷ p.unit ∷ [])
      ≡ found p
unfolding message_of bytes_eq
message_of-line_of p w c t =
    rw (w.phase_valid, w.unit_valid)
      (rw (number-to_string p.completed c) (rw (number-to_string p.total t) (rw w.ordered refl)))

-- What `parse_progress_message` does with a line that starts with the marker.
strip_prefix-line_of :
    (p : ProgressMessage) → (rest : Bytes) × (strip_prefix marker (line_of p) ≡ some rest)
unfolding strip_prefix line_of
strip_prefix-line_of p = (_, refl)

-- A message whose counters fit 64 bits and that the writer accepts is put out as one line, and the
-- reader takes that line for the same message: it is neither ignored nor refused.
pub parse-write_progress_message :
    (p : ProgressMessage) {text : Bytes}
    → p.completed ≤ u64_max
    → p.total ≤ u64_max
    → write_progress_message p ≡ found text
    → (text ≡ line_of p ++ b'\n' ∷ []) × (parse_progress_message (line_of p) ≡ found (some p))
unfolding parse_progress_message
parse-write_progress_message p c t h =
    let (w, text) = write_progress_message-IsWritten p h in
    let (is_line, short) = IsLine-line_of p w c t in
    let fits : leb (length (line_of p)) 192 ≡ true = ground arith in
    let (_, marked) = strip_prefix-line_of p in
    (
      text,
      rw (marked, parse_progress_message)
          (rw (fits, all_bytes-IsLine (line_of p) is_line)
            (rw (words_loop-line_of p w c t) (rw (message_of-line_of p w c t) refl))),
    )
