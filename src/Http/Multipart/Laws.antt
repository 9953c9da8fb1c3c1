-- ===== src/Http/Multipart/Laws.antt =====
-- The limits that `parse_multipart` keeps, and that it ends.
use resonantia.Prelude.{
  ℕ, zero, suc, ◌||◌, List, [], ◌∷◌, ◌++◌, Bytes, ltb, leb, ◌==◌, ◌<◌, ◌≤◌, ◌≡◌, if◌then◌else◌,
  length, length-append, bytes_eq, strip_prefix, refl, Bool-cases, Option-cases, inl, inr, arith,
}
use resonantia.Outcome.{Outcome, found, refused, spent, ◌>>=◌, Ends, Ends-mono}
use resonantia.Http.Parameters.{parse_part_headers}
use resonantia.Http.Parameters.Total.{parse_part_headers-ne-spent}
use resonantia.Http.Multipart.Lengths.{strip_prefix-length, behind, cut_part-Ends}
use resonantia.Http.Multipart.{
  max_multipart_parts, MultipartResult, ok, malformed, too_large, too_many_parts, Part, new_line,
  dashes, limit_of, admit_part, if_ok, cut_part, parts_loop, is_boundary, parse_multipart,
}

-- What is taken: at most `max_multipart_parts`, each within the limit of its kind.
abbrev pub AllWithin : List Part → Type 0
AllWithin [] = Unit {0}
AllWithin (p ∷ ps) = (length p.data_ ≤ limit_of p.filename) × AllWithin ps

pub record IsTaken (parts : List Part) : Type 0 where
  pub count : length parts ≤ max_multipart_parts
  pub sizes : AllWithin parts

AllWithin-append :
    (ps : List Part) (p : Part)
    → AllWithin ps
    → length p.data_ ≤ limit_of p.filename
    → AllWithin (ps ++ p ∷ [])
AllWithin-append [] p h k = (k, tt)
AllWithin-append (q ∷ ps) p h k = (h.0, AllWithin-append ps p h.1 k)

-- A result, which is there, with parts within the limits.
abbrev pub Takes : Outcome (MultipartResult × List Part) → Type 0
Takes (found (r, parts)) = IsTaken parts
Takes refused = ⊥
Takes spent = ⊥

admit_part-Takes :
    (parts : List Part) (headers content : Bytes)
    → IsTaken parts
    → Takes (admit_part parts headers content)
unfolding admit_part
admit_part-Takes parts headers content t =
    elim (Bool-cases (leb max_multipart_parts (length parts))) [
      | inl full ↦ rw (full, admit_part) t
      | inr room ↦ rw (room, admit_part) (read (ground arith) (parse_part_headers headers) refl)
    ]
  where
    read :
        length parts < max_multipart_parts
        → (o : Outcome (Bytes × Bytes)) → parse_part_headers headers ≡ o
        → Takes (elim o [
          | found (name, filename) ↦
              if ltb (limit_of filename) (length content)
              then found (too_large, parts)
              else found
                  (ok, parts ++ record { name = name; filename = filename; data_ = content } ∷ [])
          | refused ↦ found (malformed, parts)
          | spent ↦ spent
        ])
    read l refused e = t
    read l spent e = parse_part_headers-ne-spent headers e
    read l (found (name, filename)) e =
        elim (Bool-cases (ltb (limit_of filename) (length content))) [
          | inl over ↦ rw over t
          | inr fits ↦
              let part : Part = record { name = name; filename = filename; data_ = content } in
              rw fits (record {
                count = omega (arith, l, length-append parts (part ∷ []));
                sizes = AllWithin-append parts part t.sizes (ground arith);
              })
        ]

parts_loop-Takes :
    (fuel : ℕ) (marker : Bytes) (parts : List Part) (suffix : Bytes)
    → 0 < length marker
    → IsTaken parts
    → length suffix < fuel
    → Takes (parts_loop fuel marker parts suffix)
unfolding parts_loop
parts_loop-Takes zero marker parts suffix m t h = absurd (omega arith)
parts_loop-Takes (suc fuel) marker parts suffix m t h =
    elim (Option-cases (strip_prefix dashes suffix)) [
      | inr (rest, e) ↦
          rw (e, parts_loop)
            (elim (Bool-cases (length rest == 0 || bytes_eq rest new_line)) [
              | inl last ↦ rw last t
              | inr more ↦ rw more t
            ])
      | inl e ↦
          rw (e, parts_loop)
            (elim (Option-cases (strip_prefix new_line suffix)) [
              | inl e' ↦ rw e' t
              | inr (s, e') ↦
                  let size = strip_prefix-length new_line suffix e' in
                  rw e' (
                    part (λ grown suffix' k l. parts_loop-Takes fuel marker grown suffix' m k l)
                      (cut_part marker s)
                      (Ends-mono behind _ fuel _ (cut_part-Ends marker s m) (omega arith)))
            ])
    ]
  where
    admitted :
        ((grown : List Part) (suffix' : Bytes)
          → IsTaken grown
          → length suffix' < fuel
          → Takes (parts_loop fuel marker grown suffix'))
        → (suffix' : Bytes) (o : Outcome (MultipartResult × List Part)) → length suffix' < fuel
        → Takes o
        → Takes (o >>= λ r. if_ok (λ grown. parts_loop fuel marker grown suffix') r)
    admitted go suffix' (found (ok, grown)) l k = go grown suffix' k l
    admitted go suffix' (found (malformed, grown)) l k = k
    admitted go suffix' (found (too_large, grown)) l k = k
    admitted go suffix' (found (too_many_parts, grown)) l k = k
    admitted go suffix' refused l k = k
    admitted go suffix' spent l k = k

    part :
        ((grown : List Part) (suffix' : Bytes)
          → IsTaken grown
          → length suffix' < fuel
          → Takes (parts_loop fuel marker grown suffix'))
        → (o : Outcome (Bytes × Bytes × Bytes)) → Ends behind fuel o
        → Takes (elim o [
          | found (headers, content, suffix') ↦ admit_part parts headers content >>= λ r.
              if_ok (λ grown. parts_loop fuel marker grown suffix') r
          | refused ↦ found (malformed, parts)
          | spent ↦ spent
        ])
    part go (found (headers, content, suffix')) l =
        admitted go suffix' (admit_part parts headers content) l
          (admit_part-Takes parts headers content t)
    part go refused l = t
    part go spent l = l

-- `parse_multipart` gives a result for every body and boundary, and the parts that it has taken, whatever
-- the result, are at most 128, each no larger than the limit of a field or, with a file name, of a file.
pub parse_multipart-Takes : (body boundary : Bytes) → Takes (parse_multipart body boundary)
unfolding parse_multipart
parse_multipart-Takes body boundary =
    let nothing : IsTaken [] = record { count = omega arith; sizes = tt } in
    elim (Bool-cases (is_boundary boundary)) [
      | inr bad ↦ rw (bad, parse_multipart) nothing
      | inl good ↦
          rw (good, parse_multipart)
            (elim (Option-cases (strip_prefix (dashes ++ boundary) body)) [
              | inl e ↦ rw e nothing
              | inr (suffix, e) ↦
                  let size = strip_prefix-length (dashes ++ boundary) body e in
                  rw e (
                    parts_loop-Takes (suc (length body)) (new_line ++ dashes ++ boundary) [] suffix
                      (omega arith) nothing (omega arith))
            ])
    ]
