-- ===== src/Http/Parameters/Total.antt =====
-- The readers of parameters and headers end: their fuel suffices.
use resonantia.Http.Parameters.Shorter.{
  no_size, Answers, skip_comments-Ends, skip_blanks-Ends, one_parameter-Ends, parameter_loop-Ends,
}
use resonantia.Prelude.{
  suc, true, ◌&&◌, ◌||◌, not, List, [], ◌∷◌, Bytes, codes, ltb, leb, ◌==◌, ◌≢◌, Option, none, some,
  length, bytes_eq, all_bytes, split_byte, Bool-cases, inl, inr, arith, lower,
}
use resonantia.Outcome.{
  Outcome, found, refused, spent, of_option, Ends, Ends-bind, Ends-guard, Ends-of_option,
}
use resonantia.Http.Request.{trim_front, is_some}
use resonantia.Http.Parameters.{
  starts_badly, trim_back, skip_comments, skip_blanks, take_token, one_parameter, parameter_loop,
  mime_parameter_token, set_disposition, parse_disposition, PartHeaders, finish_header,
  start_header, part_header_line, part_header_lines, parse_part_headers, crlf_lines,
  parameter_token, set_boundary, extract_boundary, is_control,
}

set_disposition-Ends : Answers set_disposition
unfolding set_disposition
set_disposition-Ends key value (name, filename) = elim (Bool-cases (bytes_eq key (codes "name"))) [
  | inl e ↦ rw e (Ends-guard no_size 1 (not (is_some name)) _ (λ _. omega arith))
  | inr e ↦ rw e (elim (Bool-cases (bytes_eq key (codes "filename"))) [
    | inl e' ↦ rw e' (Ends-guard no_size 1 (not (is_some filename)) _ (λ _. omega arith))
    | inr e' ↦ rw e' (elim (Bool-cases (bytes_eq key (codes "filename*"))) [
      | inl e'' ↦ rw e'' tt
      | inr e'' ↦ rw e'' (omega arith)
    ])
  ])
]

parse_disposition-Ends : (value : Bytes) → Ends no_size 1 (parse_disposition value)
unfolding parse_disposition
parse_disposition-Ends value =
    Ends-bind length (suc (length value)) no_size 1 (skip_comments 0 value) _
      (skip_comments-Ends 0 value)
      (λ s1 _.
        let s2 = (take_token mime_parameter_token s1).1 in
        let token = (take_token mime_parameter_token s1).0 in
        Ends-guard no_size 1 (bytes_eq (lower token) (codes "form-data")) _ (λ _.
          Ends-bind length (suc (length s2)) no_size 1 (skip_comments 0 s2) _
            (skip_comments-Ends 0 s2)
            (λ s3 _.
              let one = one_parameter (skip_comments 0) mime_parameter_token (λ c. true) in
              Ends-bind no_size 1 no_size 1
                (parameter_loop one set_disposition (length s3) (none, none) s3) _
                (parameter_loop-Ends one set_disposition (length s3) (none, none) s3
                  (λ t.
                    one_parameter-Ends (skip_comments 0) mime_parameter_token (λ c. true) t
                      (skip_comments-Ends 0))
                  set_disposition-Ends (omega arith))
                (λ d _. Ends-of_option no_size 1 d.0 _ (λ given. omega arith)))))

finish_header-Ends : (h : PartHeaders) → Ends no_size 1 (finish_header h)
unfolding finish_header
finish_header-Ends h = elim (Bool-cases (bytes_eq h.key (codes "content-disposition"))) [
  | inl e ↦
      rw (e, finish_header)
        (Ends-guard no_size 1 (not (is_some h.disposition)) _ (λ _.
          Ends-bind no_size 1 no_size 1 (parse_disposition h.value) _
            (parse_disposition-Ends h.value) (λ d _. omega arith)))
  | inr e ↦ rw (e, finish_header) (omega arith)
]

part_header_line-Ends : (line : Bytes) (h : PartHeaders) → Ends no_size 1 (part_header_line line h)
unfolding part_header_line start_header
part_header_line-Ends line h = Ends-guard no_size 1 (not (length line == 0)) _ (λ _.
    Ends-guard no_size 1 (all_bytes (λ c. not (is_control c)) line) _ (λ _.
      elim (Bool-cases (starts_badly line)) [
        | inl e ↦ rw e (Ends-guard no_size 1 (not (length h.key == 0)) _ (λ _. omega arith))
        | inr e ↦ rw e (
            Ends-bind no_size 1 no_size 1 (finish_header h) _ (finish_header-Ends h) (λ finished _.
              Ends-of_option no_size 1 (split_byte b':' line) _ (λ p.
                Ends-guard no_size 1
                  (not (length p.0 == 0) && all_bytes (λ c. leb 33 c && leb c 126) p.0) _
                  (λ _. omega arith))))
      ]))

part_header_lines-Ends :
    (ls : List Bytes) (h : PartHeaders) → Ends no_size 1 (part_header_lines ls h)
unfolding part_header_lines
part_header_lines-Ends [] h = omega arith
part_header_lines-Ends (l ∷ ls) h =
    Ends-bind no_size 1 no_size 1 (part_header_line l h) _ (part_header_line-Ends l h)
      (λ h' _. part_header_lines-Ends ls h')

parse_part_headers-Ends : (headers : Bytes) → Ends no_size 1 (parse_part_headers headers)
unfolding parse_part_headers
parse_part_headers-Ends headers =
    Ends-bind no_size 1 no_size 1 (part_header_lines (crlf_lines [] headers) _) _
      (part_header_lines-Ends (crlf_lines [] headers) _)
      (λ h _.
        Ends-bind no_size 1 no_size 1 (finish_header h) _ (finish_header-Ends h)
          (λ finished _. of_option_Ends finished.disposition))
  where
    of_option_Ends : (o : Option (Bytes × Bytes)) → Ends no_size 1 (of_option o)
    of_option_Ends none = tt
    of_option_Ends (some d) = omega arith

ne-spent : {A : Type 0} (o : Outcome A) → Ends no_size 1 o → o ≢ spent
ne-spent (found a) h e = cc
ne-spent refused h e = cc
ne-spent spent h e = h

-- No loop over the headers of a part runs out of its fuel.
pub parse_part_headers-ne-spent : (headers : Bytes) → parse_part_headers headers ≢ spent
parse_part_headers-ne-spent headers =
    ne-spent (parse_part_headers headers) (parse_part_headers-Ends headers)

set_boundary-Ends : Answers set_boundary
unfolding set_boundary
set_boundary-Ends key value o = elim (Bool-cases (bytes_eq key (codes "boundary"))) [
  | inl e ↦ rw e (
      Ends-guard no_size 1 (not (is_some o || length value == 0 || ltb 200 (length value))) _ (λ _.
        Ends-guard no_size 1 (all_bytes (λ c. leb 32 c && ltb c 127) value) _ (λ _. omega arith)))
  | inr e ↦ rw e (omega arith)
]

extract_boundary-Ends : (content_type : Bytes) → Ends no_size 1 (extract_boundary content_type)
unfolding extract_boundary
extract_boundary-Ends content_type = Ends-of_option no_size 1 (split_byte b';' content_type) _ (λ p.
    Ends-guard no_size 1
      (bytes_eq (trim_back (trim_front (lower p.0))) (codes "multipart/form-data")) _
      (λ _.
        let one = one_parameter skip_blanks parameter_token (λ c. not (is_control c)) in
        Ends-bind no_size 1 no_size 1
          (parameter_loop one set_boundary (suc (length p.1)) none (b';' ∷ p.1)) _
          (parameter_loop-Ends one set_boundary (suc (length p.1)) none (b';' ∷ p.1)
            (λ t.
              one_parameter-Ends skip_blanks parameter_token (λ c. not (is_control c)) t
                skip_blanks-Ends)
            set_boundary-Ends (omega arith))
          (λ o _. of_option_Ends o)))
  where
    of_option_Ends : (o : Option Bytes) → Ends no_size 1 (of_option o)
    of_option_Ends none = tt
    of_option_Ends (some d) = omega arith

-- Nor does the loop over the parameters of a content type.
pub extract_boundary-ne-spent : (content_type : Bytes) → extract_boundary content_type ≢ spent
extract_boundary-ne-spent content_type =
    ne-spent (extract_boundary content_type) (extract_boundary-Ends content_type)
