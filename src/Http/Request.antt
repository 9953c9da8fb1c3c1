-- ===== src/Http/Request.antt =====
-- `read_request` of tools/web/http_transport.cpp. The socket is the list of the pieces in which its
-- bytes arrive; an empty piece is a call of `recv` that fails, times out or finds the stream closed.
pub mod Body
pub mod Sound
use Prim.Native.Nat.{min}
use resonantia.Prelude.{
  ℕ, zero, suc, ◌+◌, ◌-◌, ◌*◌, ◌/◌, ◌^◌, Bool, true, false, ◌&&◌, ◌||◌, not, List, [], ◌∷◌, ◌++◌,
  Bytes, codes, is_digit, is_alpha, ltb, leb, ◌==◌, if◌then◌else◌, Option, none, some, length, take,
  drop, to_lower, bytes_eq, lower, split_byte, split_text, strip_prefix, all_bytes,
}
use resonantia.Http.Auth.{parse_size, authorized}

abbrev pub max_header_bytes : ℕ
max_header_bytes = 64 * 2 ^ 10

abbrev pub max_body_bytes : ℕ
max_body_bytes = 128 * 2 ^ 20

abbrev pub max_inflight_body_bytes : ℕ
max_inflight_body_bytes = 256 * 2 ^ 20

abbrev pub chunk_size : ℕ
chunk_size = 8192

pub data ReadResult : Type 0 where
  ok bad_request payload_too_large unauthorized server_busy : ReadResult

-- A computation that ends the function early with a result other than `kOk`.
pub data Step {ℓ} (A : Type ℓ) : Type ℓ where
  next : A → Step A
  stop : ReadResult → Step A

infixl 5 ◌>>=◌ ◌>>◌
abbrev pub ◌>>=◌ {ℓ κ} : {A : Type ℓ} {B : Type κ} → Step A → (A → Step B) → Step B
next a >>= f = f a
stop r >>= f = stop r

abbrev pub ◌>>◌ {ℓ} : {B : Type ℓ} → Step (Unit {0}) → Step B → Step B
m >> k = m >>= λ _. k

-- `if (b) return r;`
abbrev pub stop_if : Bool → ReadResult → Step (Unit {0})
stop_if true r = stop r
stop_if false r = next tt

abbrev pub or_stop {ℓ} : {A : Type ℓ} → Option A → ReadResult → Step A
or_stop none r = stop r
or_stop (some a) r = next a

-- `receive_before` for at most `size` bytes: what it got and the pieces still to come. Bytes that do
-- not fit stay for the next call.
unfoldable pub receive : ℕ → List Bytes → Option (Bytes × List Bytes)
receive size [] = none
receive size ([] ∷ pieces) = none
receive size ((c ∷ piece) ∷ pieces) =
    if leb (length (c ∷ piece)) size
    then some (c ∷ piece, pieces)
    else some (take size (c ∷ piece), drop size (c ∷ piece) ∷ pieces)

abbrev pub blank_line : Bytes
blank_line = codes "\r\n\r\n"

-- The first loop: the head, what has arrived behind it, and the pieces still to come. The buffer
-- grows by at least a byte a round, so one round more than the limit on it suffices.
unfoldable pub head_loop : ℕ → Bytes → List Bytes → Step (Bytes × Bytes × List Bytes)
head_loop zero buffer pieces = stop payload_too_large
head_loop (suc fuel) buffer pieces = do
  (received, rest) ← or_stop (receive chunk_size pieces) bad_request
  let grown = buffer ++ received
  elim (split_text blank_line grown) [
    | some (head, body) ↦ next (head, body, rest)
    | none ↦
        let more = head_loop fuel grown rest in
        if ltb max_header_bytes (length grown) then stop payload_too_large else more
  ]

unfoldable pub read_head : List Bytes → Step (Bytes × Bytes × List Bytes)
read_head pieces = do
  (head, body, rest) ← head_loop (max_header_bytes + 2) [] pieces
  stop_if (ltb max_header_bytes (length head)) payload_too_large
  next (head, body, rest)

-- `std::getline` until it fails: an empty rest is no line.
unfoldable pub lines : Bytes → Bytes → List Bytes
lines [] [] = []
lines (d ∷ acc) [] = (d ∷ acc) ∷ []
lines acc (c ∷ s) =
    let rest = lines (if c == b'\n' then [] else acc ++ c ∷ []) s in
    if c == b'\n' then acc ∷ rest else rest

-- `std::isspace` of the C locale, where `>>` splits.
abbrev pub is_space : ℕ → Bool
is_space c = c == b' ' || leb 9 c && leb c 13

unfoldable pub words : Bytes → Bytes → List Bytes
words [] [] = []
words (d ∷ acc) [] = (d ∷ acc) ∷ []
words [] (c ∷ s) = words (if is_space c then [] else c ∷ []) s
words (d ∷ acc) (c ∷ s) =
    let rest = words (if is_space c then [] else (d ∷ acc) ++ c ∷ []) s in
    if is_space c then (d ∷ acc) ∷ rest else rest

-- `struct Request`, with the headers as the loop finds them: `none` is a `have_…` flag not set.
pub record Request : Type 0 where
  pub method : Bytes
  pub path : Bytes
  pub query : Bytes
  pub content_type : Option Bytes
  pub authorization : Option Bytes
  pub range : Option Bytes
  pub content_length : Option ℕ
  pub body : Bytes

abbrev pub or_empty : Option Bytes → Bytes
or_empty none = []
or_empty (some s) = s

unfoldable pub split_target : Bytes → Bytes × Bytes
split_target target = elim (split_byte b'?' target) [ none ↦ (target, []) | some (p, q) ↦ (p, q) ]

abbrev pub starts_with_slash : Bytes → Bool
starts_with_slash [] = false
starts_with_slash (c ∷ s) = c == b'/'

unfoldable pub request_of_words : List Bytes → Step Request
request_of_words (method ∷ target ∷ version ∷ []) = do
  stop_if (not (bytes_eq version (codes "HTTP/1.0")) && not (bytes_eq version (codes "HTTP/1.1")))
      bad_request
  let (path, query) = split_target target
  stop_if (not (starts_with_slash path)) bad_request
  next (record {
    method = method;
    path = path;
    query = query;
    content_type = none;
    authorization = none;
    range = none;
    content_length = none;
    body = [];
  })
request_of_words _ = stop bad_request

unfoldable pub drop_last_if : (ℕ → Bool) → Bytes → Bytes
drop_last_if test [] = []
drop_last_if test (c ∷ []) = if test c then [] else c ∷ []
drop_last_if test (c ∷ d ∷ s) = c ∷ drop_last_if test (d ∷ s)

abbrev pub is_blank : ℕ → Bool
is_blank c = c == b' ' || c == b'\t'

unfoldable pub trim_front : Bytes → Bytes
trim_front [] = []
trim_front (c ∷ s) = if is_blank c then trim_front s else c ∷ s

-- Blanks at the back: the recursion finds out first whether anything else follows.
unfoldable pub trim_back : Bytes → Bytes
trim_back [] = []
trim_back (c ∷ s) = elim (trim_back s) [
  | [] ↦ if is_blank c then [] else c ∷ []
  | d ∷ r ↦ c ∷ d ∷ r
]

unfoldable pub is_header_name : Bytes → Bool
is_header_name = all_bytes (λ c. is_alpha c || is_digit c || c == b'-')

abbrev pub is_some {ℓ} : {A : Type ℓ} → Option A → Bool
is_some none = false
is_some (some a) = true

-- What one header does, by its lower-case name.
unfoldable pub apply_header : Bytes → Bytes → Request → Step Request
apply_header key value r =
    if bytes_eq key (codes "content-length")
    then (do
      stop_if (is_some r.content_length) bad_request
      parsed ← or_stop (parse_size value) bad_request
      next (record r { content_length = some parsed }))
    else if bytes_eq key (codes "content-type")
    then (do
      stop_if (is_some r.content_type) bad_request
      next (record r { content_type = some value }))
    else if bytes_eq key (codes "authorization")
    then (do
      stop_if (is_some r.authorization) bad_request
      next (record r { authorization = some value }))
    else if bytes_eq key (codes "range")
    then (do stop_if (is_some r.range) bad_request; next (record r { range = some value }))
    else if bytes_eq key (codes "transfer-encoding")
    then stop bad_request
    else next r

abbrev pub starts_badly : Bytes → Bool
starts_badly [] = true
starts_badly (c ∷ s) = is_blank c

unfoldable pub header_line : Bytes → Request → Step Request
header_line raw r = do
  let line = drop_last_if (λ c. c == b'\r') raw
  stop_if (starts_badly line) bad_request
  (name, value) ← or_stop (split_byte b':' line) bad_request
  stop_if (length name == 0) bad_request
  let key = lower name
  stop_if (not (is_header_name key)) bad_request
  apply_header key (trim_back (trim_front value)) r

unfoldable pub header_lines : List Bytes → Request → Step Request
header_lines [] r = next r
header_lines (l ∷ ls) r = do r₁ ← header_line l r; header_lines ls r₁

abbrev pub or_zero : Option ℕ → ℕ
or_zero none = 0
or_zero (some n) = n

unfoldable pub parse_head : Bytes → Step Request
parse_head head = elim (lines [] head) [
  | [] ↦ stop bad_request
  | first ∷ rest ↦ do r ← request_of_words (words [] first); header_lines rest r
]

abbrev pub needs_length : Request → Bool
needs_length r = bytes_eq r.method (codes "POST") || bytes_eq r.method (codes "PUT")

abbrev pub is_api : Bytes → Bool
is_api path = is_some (strip_prefix (codes "/api/") path)

-- The checks between the headers and the body, in the order of the code.
unfoldable pub admit : Bytes → Request → Step (Unit {0})
admit auth_token r = do
  stop_if (ltb max_body_bytes (or_zero r.content_length)) payload_too_large
  stop_if (needs_length r && not (is_some r.content_length)) bad_request
  stop_if (is_api r.path && not (authorized (or_empty r.authorization) auth_token)) unauthorized

-- One successful round of the compare-and-exchange loop on `inflight_body_bytes`.
unfoldable pub reserve : ℕ → ℕ → Option ℕ
reserve inflight content_length =
    if ltb max_inflight_body_bytes inflight
      || ltb (max_inflight_body_bytes - inflight) content_length
    then none
    else some (inflight + content_length)

-- The second loop. Each round receives at least a byte.
unfoldable pub body_loop : ℕ → ℕ → Bytes → List Bytes → Step Bytes
body_loop zero content_length body pieces =
    if leb content_length (length body) then next body else stop bad_request
body_loop (suc fuel) content_length body pieces =
    let more = (do
      (received, rest) ←
          or_stop (receive (min chunk_size (content_length - length body)) pieces) bad_request
      body_loop fuel content_length (body ++ received) rest) in
    if leb content_length (length body) then next body else more

unfoldable pub read_body : ℕ → Bytes → List Bytes → Step Bytes
read_body content_length body pieces =
    body_loop content_length content_length (take content_length body) pieces

-- What `read_request` leaves behind: its result or the request, the value of `inflight_body_bytes`
-- and the share of it that the request holds until it is destroyed.
pub record ReadOutcome : Type 0 where
  pub result : Step Request
  pub inflight : ℕ
  pub reserved : ℕ

abbrev pub refused : ReadResult → ℕ → ReadOutcome
refused r inflight = record { result = stop r; inflight = inflight; reserved = 0 }

-- Behind the reservation: a failure of the body keeps it until the request is destroyed.
unfoldable pub receive_body : Request → Bytes → List Bytes → ℕ → ReadOutcome
receive_body r body pieces inflight = elim (reserve inflight (or_zero r.content_length)) [
  | none ↦ refused server_busy inflight
  | some grown ↦ record {
    result = (do
      b ← read_body (or_zero r.content_length) body pieces
      next (record r { body = b }));
    inflight = grown;
    reserved = or_zero r.content_length;
  }
]

unfoldable pub front : Bytes → List Bytes → Step (Request × Bytes × List Bytes)
front auth_token pieces = do
  (head, body, rest) ← read_head pieces
  r ← parse_head head
  admit auth_token r
  next (r, body, rest)

abbrev pub settle : ℕ → Step (Request × Bytes × List Bytes) → ReadOutcome
settle inflight (stop r) = refused r inflight
settle inflight (next (r, body, rest)) = receive_body r body rest inflight

unfoldable pub read_request : Bytes → List Bytes → ℕ → ReadOutcome
read_request auth_token pieces inflight = settle inflight (front auth_token pieces)

-- `~Request`: the reservation is given back.
unfoldable pub destroy : ReadOutcome → ℕ
destroy o = o.inflight - o.reserved
