-- ===== src/Operations/Progress.antt =====
-- tools/app_support/progress_protocol.h: progress records between the lines of a log.
pub mod RoundTrip
use resonantia.Prelude.{
  ℕ, zero, suc, Bool, true, false, ◌&&◌, ◌||◌, not, List, [], ◌∷◌, ◌++◌, Bytes, codes, is_digit,
  ltb, leb, ◌==◌, if◌then◌else◌, Option, none, some, length, bytes_eq, contains, all_bytes,
  split_byte, strip_prefix,
}
use resonantia.Prelude.Decimal.{to_string}
use resonantia.Prelude.Number.{number}
use resonantia.Outcome.{Outcome, found, refused, ◌>>=◌, ◌>>◌, guard, of_option}

pub record ProgressMessage : Type 0 where
  pub phase : Bytes
  pub unit : Bytes
  pub completed : ℕ
  pub total : ℕ

abbrev pub is_lower : ℕ → Bool
is_lower c = leb b'a' c && leb c b'z'

abbrev pub is_phase_byte : ℕ → Bool
is_phase_byte c = is_lower c || is_digit c || c == b'-' || c == b'_'

abbrev pub starts_lower : Bytes → Bool
starts_lower [] = false
starts_lower (c ∷ s) = is_lower c

unfoldable pub valid_progress_phase : Bytes → Bool
valid_progress_phase phase =
    not (length phase == 0)
    && leb (length phase) 48
    && starts_lower phase
    && all_bytes is_phase_byte phase

abbrev pub units : List Bytes
units =
    codes "unknown"
    ∷ codes "files"
    ∷ codes "chunks"
    ∷ codes "steps"
    ∷ codes "samples16k"
    ∷ codes "frames100hz"
    ∷ []

unfoldable pub valid_progress_unit : Bytes → Bool
valid_progress_unit unit = contains unit units

abbrev pub marker : Bytes
marker = codes "RESONANTIA_PROGRESS"

abbrev pub breaks_line : ℕ → Bool
breaks_line c = c == b'\r' || c == b'\n' || c == b'\t'

-- The loop that cuts the line at its blanks: so many words and one more, which is the rest.
unfoldable pub words_loop : ℕ → Bytes → Outcome (List Bytes)
words_loop zero line = elim (split_byte b' ' line) [ none ↦ found (line ∷ []) | some _ ↦ refused ]
words_loop (suc n) line = elim (split_byte b' ' line) [
  | none ↦ refused
  | some (w, rest) ↦ do ws ← words_loop n rest; found (w ∷ ws)
]

unfoldable pub message_of : List Bytes → Outcome ProgressMessage
message_of (w0 ∷ w1 ∷ w2 ∷ w3 ∷ w4 ∷ w5 ∷ []) = do
  guard (bytes_eq w0 marker && bytes_eq w1 (codes "1"))
  guard (valid_progress_phase w2 && valid_progress_unit w5)
  completed ← of_option (number w3)
  total ← of_option (number w4)
  guard (leb completed total)
  found (record { phase = w2; unit = w5; completed = completed; total = total })
message_of _ = refused

-- `none` is an ordinary line of the log, `refused` the exception for a malformed record.
unfoldable pub parse_progress_message : Bytes → Outcome (Option ProgressMessage)
parse_progress_message line = elim (strip_prefix marker line) [
  | none ↦ found none
  | some _ ↦ do
    guard (leb (length line) 192 && all_bytes (λ c. not (breaks_line c)) line)
    ws ← words_loop 5 line
    m ← message_of ws
    found (some m)
]

-- The text in front of the line's end.
unfoldable pub line_of : ProgressMessage → Bytes
line_of p =
    codes "RESONANTIA_PROGRESS 1 "
    ++ (p.phase ++ b' ' ∷ (to_string p.completed ++ b' ' ∷ (to_string p.total ++ b' ' ∷ p.unit)))

-- What goes into the stream, if it takes it.
unfoldable pub write_progress_message : ProgressMessage → Outcome Bytes
write_progress_message p = do
  guard (valid_progress_phase p.phase && valid_progress_unit p.unit && leb p.completed p.total)
  found (line_of p ++ b'\n' ∷ [])
