-- ===== src/Http/Range/Content.antt =====
-- The bytes that a reply with a range carries.
use Prim.Native.Nat.{min}
use mathlib.Core.List.{List, append_assoc, append-nil}
use resonantia.Prelude.{
  ltb, take-append-take, drop-drop, ap, false, ◌==◌, ◌∙◌, length-drop, length-take, leb, Bool-cases,
  drop, take, length, Bytes, inr, inl, ◌+◌, refl, true, some, none, [], ◌∷◌, ◌++◌, ◌-◌, ◌≤◌, ◌<◌,
  ◌≡◌, ℕ, zero, suc, arith,
}
use resonantia.Outcome.{Outcome, found}
use resonantia.System.{Attempt, retry}
use resonantia.Http.Range.{
  Option, Bool, not, block_size, with_block, send_loop, Reply, not_satisfiable, content, send_range,
  send_audio_file, max_artifact, byte_range,
}
use resonantia.Http.Range.Laws.{
  IsWithin, byte_range-IsWithin, Spec, header, resolve, IsWord, byte_range-header,
}

-- `pread` gives some of the bytes that are there, at least one, and at most as many as asked.
abbrev pub Reads : (ℕ → ℕ → List (Attempt Bytes)) → Bytes → Type 0
Reads pread file =
    (offset count : ℕ)
    → 0 < count
    → offset + count ≤ length file
    → (n : ℕ) × (0 < n)
      × (n ≤ count)
      × (retry (pread offset count) ≡ found (take n (drop offset file)))

with_block_some :
    (block sent : Bytes) (go : Bytes → Outcome Bytes)
    → 0 < length block
    → with_block (found block) sent go ≡ go block
with_block_some [] sent go h = absurd (omega arith)
with_block_some (c ∷ block) sent go h = refl

slices :
    (n k offset : ℕ) (sent file : Bytes) {m : ℕ}
    → n + k ≡ m
    → (sent ++ take n (drop offset file)) ++ take k (drop (offset + n) file)
      ≡ sent ++ take m (drop offset file)
slices n k offset sent file e =
    let rest = drop offset file in
    rw (← e, ← drop-drop n offset file)
      (append_assoc sent (take n rest) (take k (drop n rest))
        ∙ ap (λ s. sent ++ s) (take-append-take n k rest))

send_loop-slice :
    (pread : ℕ → ℕ → List (Attempt Bytes)) (file : Bytes) (fuel offset last : ℕ) (sent : Bytes)
    → Reads pread file
    → last < length file
    → last + 1 ≤ offset + fuel
    → send_loop pread (λ _. true) fuel offset last sent
      ≡ found (sent ++ take (last + 1 - offset) (drop offset file))
unfolding send_loop
send_loop-slice pread file zero offset last sent reads inside enough =
    let all_sent : last + 1 - offset ≡ 0 = omega arith in
    rw all_sent (ground (arith, append-nil sent))
send_loop-slice pread file (suc fuel) offset last sent reads inside enough =
    elim (Bool-cases (leb offset last)) [
      | inl more ↦
          let asked = min block_size (last - offset + 1) in
          let (n, some_bytes, few, got) = reads offset asked (ground arith) (ground arith) in
          let block = take n (drop offset file) in
          let size : length block ≡ n =
            ground (arith, length-take n (drop offset file), length-drop offset file) in
          let left : n + (last + 1 - (offset + n)) ≡ last + 1 - offset = ground arith in
          rw (more, got)
            (with_block_some block sent _ (omega arith)
              ∙ send_loop-slice pread file fuel (offset + length block) last (sent ++ block) reads
                  inside (omega arith)
              ∙ rw size (ap found (slices n (last + 1 - (offset + n)) offset sent file left)))
      | inr done ↦
          let all_sent : last + 1 - offset ≡ 0 = ground arith in
          rw (done, all_sent) (ground (arith, append-nil sent))
    ]

-- The reply to what the range resolves to: the file's bytes from the first to the last.
abbrev pub reply_of : Bytes → Bool → Option (ℕ × ℕ) → Reply
reply_of file partial none = not_satisfiable (length file)
reply_of file partial (some (first, last)) =
    content partial first last (length file) (take (last + 1 - first) (drop first file))

send_range-reply_of :
    (pread : ℕ → ℕ → List (Attempt Bytes)) (file : Bytes) (partial : Bool) (range : Option (ℕ × ℕ))
    → Reads pread file
    → IsWithin (length file) range
    → send_range pread (λ _. true) (length file) partial range ≡ found (reply_of file partial range)
unfolding send_range
send_range-reply_of pread file partial none reads within = refl
send_range-reply_of pread file partial (some (first, last)) reads within =
    let (ordered, inside) = within in
    rw (send_loop-slice pread file (last - first + 1) first last [] reads inside (omega arith)) refl

-- If `pread` reads the file and the client takes every block, a header that asks for a part of a
-- file that is not empty and at most the limit is answered by exactly the bytes of that part, or by
-- 416 and the size where there is no such part.
pub send_audio_file-header :
    (pread : ℕ → ℕ → List (Attempt Bytes)) (file : Bytes) (spec : Spec)
    → Reads pread file
    → 0 < length file
    → length file ≤ max_artifact
    → IsWord spec
    → send_audio_file pread (λ _. true) (some (length file)) (header spec)
      ≡ found (reply_of file (not (length (header spec) == 0)) (resolve (length file) spec))
unfolding send_audio_file
send_audio_file-header pread file spec reads pos small word =
    let within = byte_range-IsWithin (length file) (header spec) pos in
    let e : (length file == 0) ≡ false = ground arith in
    let e' : ltb max_artifact (length file) ≡ false = ground arith in
    rw (e, e', ← byte_range-header (length file) spec word)
      (send_range-reply_of pread file _ (byte_range (length file) (header spec)) reads within)
