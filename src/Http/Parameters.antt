-- ===== src/Http/Parameters.antt =====
-- The parameters of `multipart/form-data` in tools/web/http_transport.cpp: `parse_disposition`,
-- `parse_part_headers` and `extract_boundary`.
pub mod Boundary
pub mod Shorter
pub mod Total
use resonantia.Prelude.{
  ℕ, zero, suc, ◌+◌, Bool, true, false, ◌&&◌, ◌||◌, not, List, [], ◌∷◌, ◌++◌, Bytes, codes, ltb,
  leb, ◌==◌, is_alpha, is_digit, if◌then◌else◌, Option, none, some, length, bytes_eq, all_bytes,
  one_of, lower, split_byte,
}
use resonantia.Outcome.{Outcome, found, refused, spent, ◌>>=◌, ◌>>◌, guard, of_option}
use resonantia.Http.Request.{is_blank, is_some, or_empty, starts_badly, trim_front, trim_back}

-- `skip_space` of `parse_disposition`, at a depth of comments: blanks, and comments with what they nest.
unfoldable pub skip_comments : ℕ → Bytes → Outcome Bytes
skip_comments zero [] = found []
skip_comments (suc depth) [] = refused
skip_comments zero (c ∷ s) =
    let blank = skip_comments zero s in
    let comment = skip_comments 1 s in
    if is_blank c then blank else if c == b'(' then comment else found (c ∷ s)
skip_comments (suc depth) (c ∷ []) = if c == b')' && depth == 0 then found [] else refused
skip_comments (suc depth) (c ∷ d ∷ s) =
    let escaped = skip_comments (suc depth) s in
    let deeper = skip_comments (suc (suc depth)) (d ∷ s) in
    let closed = skip_comments depth (d ∷ s) in
    let plain = skip_comments (suc depth) (d ∷ s) in
    if c == b'\\'
    then escaped
    else if c == b'('
    then deeper
    else if c == b')'
    then closed
    else plain

-- `skip_space` of `extract_boundary`.
unfoldable pub skip_blanks : Bytes → Outcome Bytes
skip_blanks s = found (trim_front s)

unfoldable pub take_token : (ℕ → Bool) → Bytes → Bytes × Bytes
take_token is_token [] = ([], [])
take_token is_token (c ∷ s) =
    let (token, rest) = take_token is_token s in
    if is_token c then (c ∷ token, rest) else ([], c ∷ s)

abbrev pub prepend : ℕ → Outcome (Bytes × Bytes) → Outcome (Bytes × Bytes)
prepend c o = do (s, rest) ← o; found (c ∷ s, rest)

-- A value behind its opening quote, of allowed bytes.
unfoldable pub quoted_value : (ℕ → Bool) → Bytes → Outcome (Bytes × Bytes)
quoted_value allowed [] = refused
quoted_value allowed (c ∷ []) = if c == b'"' then found ([], []) else refused
quoted_value allowed (c ∷ d ∷ s) =
    let escaped = guard (allowed d) >> prepend d (quoted_value allowed s) in
    let plain = guard (allowed c) >> prepend c (quoted_value allowed (d ∷ s)) in
    if c == b'"' then found ([], d ∷ s) else if c == b'\\' then escaped else plain

unfoldable pub token_value : (ℕ → Bool) → Bytes → Outcome (Bytes × Bytes)
token_value is_token s = do
  let (token, rest) = take_token is_token s
  guard (not (length token == 0))
  found (token, rest)

unfoldable pub parameter_value : (ℕ → Bool) → (ℕ → Bool) → Bytes → Outcome (Bytes × Bytes)
parameter_value is_token allowed [] = token_value is_token []
parameter_value is_token allowed (c ∷ s) =
    if c == b'"' then quoted_value allowed s else token_value is_token (c ∷ s)

-- The byte that must stand here.
unfoldable pub expect_byte : ℕ → Bytes → Outcome Bytes
expect_byte k [] = refused
expect_byte k (c ∷ s) = if c == k then found s else refused

abbrev pub ends_parameter : Bytes → Bool
ends_parameter [] = true
ends_parameter (c ∷ s) = c == b';'

-- One `;name=value`; the name in lower case.
unfoldable pub one_parameter :
    (Bytes → Outcome Bytes) → (ℕ → Bool) → (ℕ → Bool) → Bytes → Outcome ((Bytes × Bytes) × Bytes)
one_parameter skip is_token allowed s = do
  s1 ← expect_byte b';' s
  s2 ← skip s1
  let (token, s3) = take_token is_token s2
  guard (not (length token == 0))
  s4 ← skip s3
  s5 ← expect_byte b'=' s4
  s6 ← skip s5
  (value, s7) ← parameter_value is_token allowed s6
  s8 ← skip s7
  guard (ends_parameter s8)
  found ((lower token, value), s8)

-- The loop that the two functions share in shape: what a parameter does is `set`.
unfoldable pub parameter_loop {ℓ} :
    {A : Type ℓ}
    → (Bytes → Outcome ((Bytes × Bytes) × Bytes))
    → (Bytes → Bytes → A → Outcome A)
    → ℕ
    → A
    → Bytes
    → Outcome A
parameter_loop one set fuel a [] = found a
parameter_loop one set zero a (c ∷ s) = spent
parameter_loop one set (suc fuel) a (c ∷ s) = do
  ((name, value), rest) ← one (c ∷ s)
  b ← set name value a
  parameter_loop one set fuel b rest

abbrev pub mime_parameter_token : ℕ → Bool
mime_parameter_token c = ltb 32 c && ltb c 127 && not (one_of (codes "()<>@,;:\\\"/[]?=") c)

-- What `parse_disposition` has found: the name and the file name.
abbrev pub Disposition : Type 0
Disposition = Option Bytes × Option Bytes

unfoldable pub set_disposition : Bytes → Bytes → Disposition → Outcome Disposition
set_disposition key value (name, filename) =
    if bytes_eq key (codes "name")
    then guard (not (is_some name)) >> found (some value, filename)
    else if bytes_eq key (codes "filename")
    then guard (not (is_some filename)) >> found (name, some value)
    else if bytes_eq key (codes "filename*")
    then refused
    else found (name, filename)

unfoldable pub parse_disposition : Bytes → Outcome (Bytes × Bytes)
parse_disposition value = do
  s1 ← skip_comments 0 value
  let (token, s2) = take_token mime_parameter_token s1
  guard (bytes_eq (lower token) (codes "form-data"))
  s3 ← skip_comments 0 s2
  (name, filename) ←
      parameter_loop (one_parameter (skip_comments 0) mime_parameter_token (λ c. true))
        set_disposition (length s3) (none, none) s3
  given ← of_option name
  found (given, or_empty filename)

-- The lines between the `\r\n`, of which the last may lack its own.
unfoldable pub crlf_lines : Bytes → Bytes → List Bytes
crlf_lines [] [] = []
crlf_lines (d ∷ line) [] = (d ∷ line) ∷ []
crlf_lines line (c ∷ []) = (line ++ c ∷ []) ∷ []
crlf_lines line (c ∷ d ∷ s) =
    let cut = crlf_lines [] s in
    let more = crlf_lines (line ++ c ∷ []) (d ∷ s) in
    if c == b'\r' && d == b'\n' then line ∷ cut else more

-- The loop of `parse_part_headers`: the header being read, and the disposition once it was.
pub record PartHeaders : Type 0 where
  pub key : Bytes
  pub value : Bytes
  pub disposition : Option (Bytes × Bytes)

unfoldable pub finish_header : PartHeaders → Outcome PartHeaders
finish_header h = if not (bytes_eq h.key (codes "content-disposition")) then found h else (do
  guard (not (is_some h.disposition))
  d ← parse_disposition h.value
  found (record h { disposition = some d }))

abbrev pub is_control : ℕ → Bool
is_control c = ltb c 32 && not (c == b'\t') || c == 127

unfoldable pub start_header : Bytes → PartHeaders → Outcome PartHeaders
start_header line h = do
  finished ← finish_header h
  (name, value) ← of_option (split_byte b':' line)
  guard (not (length name == 0) && all_bytes (λ c. leb 33 c && leb c 126) name)
  found (record finished { key = lower name; value = value })

unfoldable pub part_header_line : Bytes → PartHeaders → Outcome PartHeaders
part_header_line line h = do
  guard (not (length line == 0))
  guard (all_bytes (λ c. not (is_control c)) line)
  (if starts_badly line
      then guard (not (length h.key == 0)) >> found (record h { value = h.value ++ line })
      else start_header line h)

unfoldable pub part_header_lines : List Bytes → PartHeaders → Outcome PartHeaders
part_header_lines [] h = found h
part_header_lines (l ∷ ls) h = do h' ← part_header_line l h; part_header_lines ls h'

unfoldable pub parse_part_headers : Bytes → Outcome (Bytes × Bytes)
parse_part_headers headers = do
  h ←
      part_header_lines (crlf_lines [] headers)
        (record { key = []; value = []; disposition = none })
  finished ← finish_header h
  of_option finished.disposition

abbrev pub parameter_token : ℕ → Bool
parameter_token c = is_alpha c || is_digit c || one_of (codes "!#$%&'*+-.^_`|~") c

unfoldable pub set_boundary : Bytes → Bytes → Option Bytes → Outcome (Option Bytes)
set_boundary key value boundary =
    if bytes_eq key (codes "boundary")
    then (do
      guard (not (is_some boundary || length value == 0 || ltb 200 (length value)))
      guard (all_bytes (λ c. leb 32 c && ltb c 127) value)
      found (some value))
    else found boundary

unfoldable pub extract_boundary : Bytes → Outcome Bytes
extract_boundary content_type = do
  (media, rest) ← of_option (split_byte b';' content_type)
  guard (bytes_eq (trim_back (trim_front (lower media))) (codes "multipart/form-data"))
  found_boundary ←
      parameter_loop (one_parameter skip_blanks parameter_token (λ c. not (is_control c)))
        set_boundary (suc (length rest)) none (b';' ∷ rest)
  of_option found_boundary
