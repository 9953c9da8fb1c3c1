-- ===== src/Http/Range.antt =====
-- `send_audio_file` of tools/web/http_transport.cpp: one byte range of a retained audio file.
pub mod Laws
pub mod Content
use Prim.Native.Nat.{min}
use resonantia.Prelude.{
  split_byte, is_digit, codes, all_bytes, strip_prefix, leb, length, ltb, not, Option, List, Bytes,
  Bool, some, none, [], ◌∷◌, ◌++◌, ◌+◌, ◌-◌, ◌^◌, ◌==◌, ◌&&◌, ◌||◌, if◌then◌else◌, ℕ, zero, suc,
  arith,
}
use resonantia.Prelude.Decimal.{decimal, to_string}
use resonantia.Prelude.Number.{number}
use resonantia.Outcome.{Outcome, found, refused, spent, ◌>>=◌, ◌>>◌, guard, of_option}
use resonantia.System.{Attempt, retry}

-- `-count`: the last bytes.
unfoldable pub suffix_range : ℕ → Bytes → Option (ℕ × ℕ)
suffix_range size text = elim (number text) [
  | none ↦ none
  | some count ↦ if ltb 0 count then some (size - min size count, size - 1) else none
]

abbrev pub bounded_range : ℕ → ℕ → ℕ → Option (ℕ × ℕ)
bounded_range size first last =
    if ltb first size && leb first last then some (first, min last (size - 1)) else none

-- `first-` and `first-last`; without a last byte it is the file's.
unfoldable pub prefix_range : ℕ → Bytes → Bytes → Option (ℕ × ℕ)
prefix_range size before after = elim (number before) [
  | none ↦ none
  | some first ↦
      if length after == 0
      then bounded_range size first (size - 1)
      else elim (number after) [ none ↦ none | some last ↦ bounded_range size first last ]
]

-- The range that the header asks for, of a file of `size` bytes; `none` is the answer 416.
unfoldable pub byte_range : ℕ → Bytes → Option (ℕ × ℕ)
byte_range size [] = some (0, size - 1)
byte_range size (c ∷ range) =
    if ltb 96 (length (c ∷ range)) then none else elim (strip_prefix (codes "bytes=") (c ∷ range)) [
      | none ↦ none
      | some bytes ↦ elim (split_byte b'-' bytes) [
        | none ↦ none
        | some ([], after) ↦ suffix_range size after
        | some (d ∷ before, after) ↦ prefix_range size (d ∷ before) after
      ]
    ]

abbrev pub block_size : ℕ
block_size = 65536

-- What one `pread` leads to: a failure or the end of the file ends the loop.
abbrev pub with_block : Outcome Bytes → Bytes → (Bytes → Outcome Bytes) → Outcome Bytes
with_block spent sent go = spent
with_block refused sent go = found sent
with_block (found []) sent go = found sent
with_block (found (c ∷ block)) sent go = go (c ∷ block)

-- The loop that sends the blocks: what has been sent when it ends. `accepts` is the answer of
-- `send_all` for a block; a block that it does not take ends the loop.
unfoldable pub send_loop :
    (ℕ → ℕ → List (Attempt Bytes)) → (Bytes → Bool) → ℕ → ℕ → ℕ → Bytes → Outcome Bytes
send_loop pread accepts zero offset last sent = if leb offset last then spent else found sent
send_loop pread accepts (suc fuel) offset last sent =
    let rest = with_block (retry (pread offset (min block_size (last - offset + 1)))) sent (λ block.
      let more = send_loop pread accepts fuel (offset + length block) last (sent ++ block) in
      if accepts block then more else found sent) in
    if leb offset last then rest else found sent

abbrev pub max_artifact : ℕ
max_artifact = 2 ^ 30

-- What goes out: an error response, or the header's range, the size, and the bytes behind it.
pub data Reply : Type 0 where
  gone too_large : Reply
  not_satisfiable : ℕ → Reply
  content : Bool → ℕ → ℕ → ℕ → Bytes → Reply

-- Behind the checks of the file, from the range that was found.
unfoldable pub send_range :
    (ℕ → ℕ → List (Attempt Bytes)) → (Bytes → Bool) → ℕ → Bool → Option (ℕ × ℕ) → Outcome Reply
send_range pread accepts size partial none = found (not_satisfiable size)
send_range pread accepts size partial (some (first, last)) = do
  sent ← send_loop pread accepts (last - first + 1) first last []
  found (content partial first last size sent)

-- The third argument is the size of the opened regular file, if there is one.
unfoldable pub send_audio_file :
    (ℕ → ℕ → List (Attempt Bytes)) → (Bytes → Bool) → Option ℕ → Bytes → Outcome Reply
send_audio_file pread accepts none range = found gone
send_audio_file pread accepts (some size) range =
    if size == 0
    then found gone
    else if ltb max_artifact size
    then found too_large
    else send_range pread accepts size (not (length range == 0)) (byte_range size range)
