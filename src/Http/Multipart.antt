-- ===== src/Http/Multipart.antt =====
-- `parse_multipart` and `request_parts` of tools/web/http_transport.cpp.
pub mod Lengths
pub mod Laws
use resonantia.Prelude.{
  ℕ, zero, suc, ◌+◌, ◌*◌, ◌^◌, Bool, true, false, ◌&&◌, ◌||◌, not, List, [], ◌∷◌, ◌++◌, Bytes,
  codes, ltb, leb, ◌==◌, if◌then◌else◌, Option, none, some, length, bytes_eq, one_of, all_bytes,
  strip_prefix, split_text,
}
use resonantia.Outcome.{Outcome, found, refused, spent, ◌>>=◌, ◌>>◌, guard}
use resonantia.Http.Request.{max_header_bytes, is_some, or_empty, Request}
use resonantia.Http.Parameters.{parse_part_headers, extract_boundary}

abbrev pub max_file_bytes : ℕ
max_file_bytes = 64 * 2 ^ 20

abbrev pub max_field_bytes : ℕ
max_field_bytes = 16 * 2 ^ 10

abbrev pub max_multipart_parts : ℕ
max_multipart_parts = 128

pub data MultipartResult : Type 0 where
  ok malformed too_large too_many_parts : MultipartResult

pub record Part : Type 0 where
  pub name : Bytes
  pub filename : Bytes
  pub data_ : Bytes

abbrev pub new_line : Bytes
new_line = codes "\r\n"

abbrev pub dashes : Bytes
dashes = codes "--"

-- Behind a delimiter: `--` and then the end or a line's end.
unfoldable pub is_closing : Bytes → Bool
is_closing suffix = elim (strip_prefix dashes suffix) [
  | none ↦ false
  | some rest ↦ length rest == 0 || is_some (strip_prefix new_line rest)
]

-- The search for the delimiter line that ends a part: the content, and what follows the delimiter.
unfoldable pub content_loop : ℕ → Bytes → Bytes → Bytes → Outcome (Bytes × Bytes)
content_loop fuel marker content [] = refused
content_loop zero marker content (c ∷ s) = spent
content_loop (suc fuel) marker content (c ∷ s) = elim (split_text marker (c ∷ s)) [
  | none ↦ refused
  | some (before, suffix) ↦
      let more = content_loop fuel marker (content ++ before ++ marker) suffix in
      if is_some (strip_prefix new_line suffix) || is_closing suffix
      then found (content ++ before, suffix)
      else more
]

abbrev pub limit_of : Bytes → ℕ
limit_of filename = if length filename == 0 then max_field_bytes else max_file_bytes

-- The checks of a part that was cut out, and the part.
unfoldable pub admit_part : List Part → Bytes → Bytes → Outcome (MultipartResult × List Part)
admit_part parts headers content =
    if leb max_multipart_parts (length parts)
    then found (too_many_parts, parts)
    else elim (parse_part_headers headers) [
      | found (name, filename) ↦
          if ltb (limit_of filename) (length content)
          then found (too_large, parts)
          else found
              (ok, parts ++ record { name = name; filename = filename; data_ = content } ∷ [])
      | refused ↦ found (malformed, parts)
      | spent ↦ spent
    ]

-- Goes on where the part was taken.
abbrev pub if_ok :
    (List Part → Outcome (MultipartResult × List Part))
    → MultipartResult × List Part
    → Outcome (MultipartResult × List Part)
if_ok go (ok, parts) = go parts
if_ok go (malformed, parts) = found (malformed, parts)
if_ok go (too_large, parts) = found (too_large, parts)
if_ok go (too_many_parts, parts) = found (too_many_parts, parts)

-- The part that starts behind a delimiter line: its headers, its content, and the next delimiter's rest.
unfoldable pub cut_part : Bytes → Bytes → Outcome (Bytes × Bytes × Bytes)
cut_part marker s = elim (split_text (codes "\r\n\r\n") s) [
  | none ↦ refused
  | some (headers, content) ↦ do
    guard (leb (length headers) max_header_bytes)
    (body, suffix) ← content_loop (length content) marker [] content
    found (headers, body, suffix)
]

-- The main loop, behind a delimiter.
unfoldable pub parts_loop : ℕ → Bytes → List Part → Bytes → Outcome (MultipartResult × List Part)
parts_loop zero marker parts suffix = spent
parts_loop (suc fuel) marker parts suffix = elim (strip_prefix dashes suffix) [
  | some rest ↦
      if length rest == 0 || bytes_eq rest new_line
      then found (ok, parts)
      else found (malformed, parts)
  | none ↦ elim (strip_prefix new_line suffix) [
    | none ↦ found (malformed, parts)
    | some s ↦ elim (cut_part marker s) [
      | found (headers, content, suffix') ↦ admit_part parts headers content >>= λ r.
          if_ok (λ grown. parts_loop fuel marker grown suffix') r
      | refused ↦ found (malformed, parts)
      | spent ↦ spent
    ]
  ]
]

unfoldable pub is_boundary : Bytes → Bool
is_boundary boundary =
    not (length boundary == 0)
    && leb (length boundary) 200
    && all_bytes (λ c. not (c == b'\r' || c == b'\n')) boundary

-- The result and the parts that were taken before it.
unfoldable pub parse_multipart : Bytes → Bytes → Outcome (MultipartResult × List Part)
parse_multipart body boundary =
    if not (is_boundary boundary)
    then found (malformed, [])
    else elim (strip_prefix (dashes ++ boundary) body) [
      | none ↦ found (malformed, [])
      | some suffix ↦ parts_loop (suc (length body)) (new_line ++ dashes ++ boundary) [] suffix
    ]

-- The status of the error response that `request_parts` sends, if it sends one, and the parts.
abbrev pub answer_of : MultipartResult × List Part → Option ℕ × List Part
answer_of (ok, parts) = (none, parts)
answer_of (malformed, parts) = (some 400, parts)
answer_of (too_large, parts) = (some 413, parts)
answer_of (too_many_parts, parts) = (some 413, parts)

-- It returns true where it sends nothing.
unfoldable pub request_parts : Request → Outcome (Option ℕ × List Part)
request_parts r = elim (extract_boundary (or_empty r.content_type)) [
  | found boundary ↦ do result ← parse_multipart r.body boundary; found (answer_of result)
  | refused ↦ found (some 400, [])
  | spent ↦ spent
]
