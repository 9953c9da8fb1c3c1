-- ===== src/Http/Tests.antt =====
-- The theorems on tools/web/http_transport.cpp at concrete requests.
use resonantia.Http.Parameters.{
  skip_comments, skip_blanks, take_token, quoted_value, token_value, parameter_value, expect_byte,
  one_parameter, parameter_loop, set_disposition, parse_disposition, finish_header, start_header,
  part_header_line, part_header_lines, parse_part_headers, crlf_lines, set_boundary,
  extract_boundary,
}
use resonantia.Http.Parameters.Boundary.{IsBoundary, extract_boundary-IsBoundary}
use resonantia.Http.Multipart.{
  MultipartResult, ok, Part, is_closing, content_loop, admit_part, cut_part, parts_loop,
  is_boundary, parse_multipart,
}
use resonantia.Http.Multipart.Laws.{Takes, parse_multipart-Takes}
use resonantia.Prelude.{
  one_of, bytes_eq, to_lower, split_byte, strip_prefix, drop, lower, take, split_text, codes, Bytes,
  List, all_bytes, ◌↔◌, ◌⊎◌, refl, true, some, none, [], ◌∷◌, ◌++◌, ◌≤◌, ◌≡◌, ℕ, arith,
}
use resonantia.Http.Auth.{
  constant_time_equal, authorized, bearer, parse_size, size_loop, byte_at, difference_loop,
  matches_prefix,
}
use resonantia.Http.Auth.Laws.{authorized_iff}
use resonantia.Http.Request.{
  Request, ReadOutcome, next, receive, head_loop, read_head, lines, words, request_of_words,
  split_target, trim_front, trim_back, drop_last_if, is_header_name, apply_header, header_line,
  header_lines, parse_head, admit, reserve, body_loop, read_body, receive_body, front, read_request,
  destroy, max_inflight_body_bytes,
}
use resonantia.Http.Request.Body.{read_body-body_of}
use resonantia.Http.Request.Sound.{IsAdmitted, read_request-IsAdmitted, read_request-balanced}
use resonantia.Http.Server.{
  Reach, IsValid, idle, Server, accept, start, reserve_body, here, then_, waiting, counted, reading,
  holding, Reach-IsValid,
}
use resonantia.Http.Range.{content, send_audio_file}
use resonantia.Http.Range.Laws.{suffix, header, resolve}
use resonantia.Http.Range.Content.{Reads, send_audio_file-header}
use resonantia.Outcome.{Outcome, found}
use resonantia.Prelude.Decimal.{to_string, digits_of}
use resonantia.System.{Attempt, retry, returned, interrupted}

abbrev token : Bytes
token = codes "key"

authorized_iff_example :
    (authorized (codes "bEARER key") token ≡ true)
    ↔ ((token ≡ []) ⊎ ((p : Bytes) × (lower p ≡ lower bearer) × (codes "bEARER key" ≡ p ++ token)))
authorized_iff_example = authorized_iff (codes "bEARER key") token

abbrev steady_pieces : List Bytes
steady_pieces = codes "cd" ∷ codes "efg" ∷ []

read_body-body_of_example : read_body 5 (codes "ab") steady_pieces ≡ next (codes "abcde")
read_body-body_of_example =
    read_body-body_of 5 (codes "ab") steady_pieces (omega arith, (omega arith, tt))

abbrev upload : List Bytes
upload =
    codes "POST /api/x?q HTTP/1.1\r\nAuthorizat"
    ∷ codes "ion: Bearer key\r\nContent-Length: 3\r\n\r\nab"
    ∷ codes "c"
    ∷ []

abbrev uploaded : Request
uploaded = record {
  method = codes "POST";
  path = codes "/api/x";
  query = codes "q";
  content_type = none;
  authorization = some (codes "Bearer key");
  range = none;
  content_length = some 3;
  body = codes "abc";
}

run_request : Bytes → List Bytes → ℕ → ReadOutcome
unfolding read_request front read_head head_loop receive split_text strip_prefix parse_head lines
    words request_of_words split_target split_byte header_lines header_line drop_last_if trim_front
    trim_back is_header_name all_bytes lower to_lower apply_header bytes_eq parse_size size_loop
    admit authorized matches_prefix constant_time_equal difference_loop byte_at receive_body reserve
    read_body body_loop
run_request = read_request

read_request-IsAdmitted_example : IsAdmitted token uploaded (read_request token upload 7)
unfolding run_request
read_request-IsAdmitted_example = read_request-IsAdmitted token upload 7 refl

read_request-balanced_example :
    ((read_request token upload 7).inflight ≤ max_inflight_body_bytes)
    × (destroy (read_request token upload 7) ≡ 7)
read_request-balanced_example = read_request-balanced token upload 7 (omega arith)

-- One connection, from its acceptance to its end.
abbrev one_accepted : Server
one_accepted = record {
  acceptor = counted 0;
  workers = [];
  active_connections = 1;
  inflight_body_bytes = 0;
}

abbrev one_reading : Server
one_reading = record {
  acceptor = waiting;
  workers = reading ∷ [];
  active_connections = 1;
  inflight_body_bytes = 0;
}

abbrev one_holding : Server
one_holding = record {
  acceptor = waiting;
  workers = holding 9 ∷ [];
  active_connections = 1;
  inflight_body_bytes = 9;
}

one_held : Reach idle one_holding
unfolding reserve
one_held =
    then_ (then_ (then_ here (accept idle refl)) (start one_accepted 0 refl (omega arith)))
      (reserve_body one_reading [] [] 9 9 refl refl)

Reach-IsValid_example : IsValid one_holding
Reach-IsValid_example = Reach-IsValid one_held

abbrev audio : Bytes
audio = codes "0123456789"

-- A read that is interrupted once and gives one byte at a time.
slow_pread : ℕ → ℕ → List (Attempt Bytes)
slow_pread offset count = interrupted ∷ returned (take 1 (drop offset audio)) ∷ []

slow_pread-Reads : Reads slow_pread audio
unfolding slow_pread retry
slow_pread-Reads offset count pos inside = (1, omega arith, pos, refl)

send_audio_file-header_example :
    send_audio_file slow_pread (λ _. true) (some 10) (codes "bytes=-3")
    ≡ found (content true 7 9 10 (codes "789"))
unfolding header resolve to_string digits_of
send_audio_file-header_example =
    send_audio_file-header slow_pread audio (suffix 3) slow_pread-Reads (omega arith) (omega arith)
      (omega arith)

abbrev form_type : Bytes
form_type = codes "Multipart/Form-Data; charset=\"a;b\"; boundary=\"x y\""

run_boundary : Bytes → Outcome Bytes
unfolding extract_boundary parameter_loop one_parameter skip_blanks trim_front trim_back take_token
    expect_byte parameter_value token_value quoted_value set_boundary split_byte lower to_lower
    one_of all_bytes bytes_eq
run_boundary = extract_boundary

extract_boundary-IsBoundary_example : IsBoundary (codes "x y")
unfolding run_boundary
extract_boundary-IsBoundary_example = extract_boundary-IsBoundary form_type refl

abbrev form : Bytes
form =
    codes "--x\r\nContent-Disposition: form-data (a (b)); name=\"speed\"\r\n\r\n1.5\r\n--xy\r\n"
    ++ codes
        "--x\r\nContent-Disposition: form-data;\r\n name=f; filename=\"a\\\"b\"\r\n\r\n\r\n--x--\r\n"

run_form : Bytes → Bytes → Outcome (MultipartResult × List Part)
unfolding run_boundary parse_multipart parts_loop cut_part content_loop is_closing is_boundary
    admit_part split_text strip_prefix parse_part_headers part_header_lines part_header_line
    start_header finish_header crlf_lines parse_disposition skip_comments set_disposition
run_form = parse_multipart

-- The first part holds the start of a delimiter.
form-parts :
    run_form form (codes "x")
    ≡ found (
      ok,
      record { name = codes "speed"; filename = []; data_ = codes "1.5\r\n--xy" }
          ∷ record { name = codes "f"; filename = codes "a\"b"; data_ = [] }
          ∷ [],
    )
unfolding run_form
form-parts = refl

parse_multipart-Takes_example : Takes (parse_multipart form (codes "x"))
parse_multipart-Takes_example = parse_multipart-Takes form (codes "x")
