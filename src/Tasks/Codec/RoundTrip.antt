-- ===== src/Tasks/Codec/RoundTrip.antt =====
-- `decode` reads back what `encode` writes.
use mathlib.Core.List.{append_assoc, append-nil}
use resonantia.Prelude.{
  bytes_eq, split_byte, ◌<◌, ℕ, suc, true, false, List, [], ◌∷◌, ◌++◌, Bytes, leb, ◌==◌, ◌≤◌, ◌≢◌,
  ◌≡◌, ◌∙◌, ap, refl, length, arith, Bool-cases, inl, inr,
}
use resonantia.Prelude.Decimal.{to_string, AllDigits, to_string_lem}
use resonantia.Prelude.Number.{u64_max, number-to_string}
use resonantia.Outcome.{found, guard, >>=-eq-found, guard-eq-found}
use resonantia.Tasks.{TaskRecord, validate}
use resonantia.Tasks.Codec.{
  max_record_bytes, put_escaped, put_quoted, put_texts, put_number, put_numbers, put_parameters,
  texts_of, counters_of, text_of, encode, is_space, skip_space, word, read_word, prepend,
  read_escaped, read_quoted, read_texts, read_number, read_numbers, bytes_less, emplace,
  read_parameters, first_line, record_of, read_attempt, decode,
}

read_escaped-plain :
    (c : ℕ) (s : Bytes)
    → (c == b'"') ≡ false
    → (c == b'\\') ≡ false
    → read_escaped (c ∷ s) ≡ prepend c (read_escaped s)
unfolding read_escaped
read_escaped-plain c [] h k = rw h refl
read_escaped-plain c (d ∷ s) h k = rw (h, k) refl

read_escaped-put_escaped : (s rest : Bytes) → read_escaped (put_escaped s rest) ≡ found (s, rest)
unfolding read_escaped put_escaped
read_escaped-put_escaped [] [] = refl
read_escaped-put_escaped [] (d ∷ rest) = refl
read_escaped-put_escaped (c ∷ s) rest = elim (Bool-cases (c == b'"')) [
  | inl quote ↦ rw quote (rw (read_escaped-put_escaped s rest) refl)
  | inr e ↦ elim (Bool-cases (c == b'\\')) [
    | inl slash ↦ rw (e, slash) (rw (read_escaped-put_escaped s rest) refl)
    | inr e' ↦
        rw (e, e')
          (read_escaped-plain c (put_escaped s rest) e e'
            ∙ ap (prepend c) (read_escaped-put_escaped s rest))
  ]
]

-- White space in front makes no difference.
read_quoted-put_quoted : (s rest : Bytes) → read_quoted (put_quoted s rest) ≡ found (s, rest)
unfolding read_quoted put_quoted skip_space
read_quoted-put_quoted s rest = read_escaped-put_escaped s rest

read_quoted_space : (c : ℕ) (s : Bytes) → is_space c ≡ true → read_quoted (c ∷ s) ≡ read_quoted s
unfolding read_quoted skip_space
read_quoted_space c s h = rw (h, read_quoted, skip_space) refl

read_texts-put_texts :
    (ts : List Bytes) (rest : Bytes)
    → read_texts (length ts) (b'\n' ∷ put_texts ts rest) ≡ found (ts, b'\n' ∷ rest)
unfolding read_texts put_texts
read_texts-put_texts [] rest = refl
read_texts-put_texts (s ∷ ts) rest =
    rw (read_quoted_space b'\n' (put_quoted s (b'\n' ∷ put_texts ts rest)) refl) (
      rw (read_quoted-put_quoted s (b'\n' ∷ put_texts ts rest))
        (rw (read_texts-put_texts ts rest) refl))

word-AllDigits :
    (s : Bytes) (c : ℕ) (rest : Bytes)
    → AllDigits s
    → is_space c ≡ true
    → word (s ++ c ∷ rest) ≡ (s, c ∷ rest)
unfolding word
word-AllDigits [] c rest h k = rw k refl
word-AllDigits (d ∷ s) c rest h k =
    let e : is_space d ≡ false = ground arith in rw (word-AllDigits s c rest h.1 k) (rw e refl)

read_word-AllDigits :
    (s : Bytes) (c : ℕ) (rest : Bytes)
    → AllDigits s
    → 0 < length s
    → is_space c ≡ true
    → read_word (s ++ c ∷ rest) ≡ found (s, c ∷ rest)
unfolding read_word skip_space
read_word-AllDigits [] c rest h n k = absurd (omega arith)
read_word-AllDigits (d ∷ s) c rest h n k =
    let e : is_space d ≡ false = ground arith in
    rw (e, read_word, skip_space) (ap found (word-AllDigits (d ∷ s) c rest h k))

read_word_space : (c : ℕ) (s : Bytes) → is_space c ≡ true → read_word (c ∷ s) ≡ read_word s
unfolding read_word skip_space
read_word_space c s h = rw (h, read_word, skip_space) refl

read_number-put_number :
    (n c d : ℕ) (rest : Bytes)
    → n ≤ u64_max
    → is_space c ≡ true
    → is_space d ≡ true
    → read_number (c ∷ put_number n (d ∷ rest)) ≡ found (n, d ∷ rest)
unfolding read_number put_number
read_number-put_number n c d rest h k l =
    let (_, digits, some_digits, _) = to_string_lem n (omega arith) in
    rw (read_word_space c (to_string n ++ d ∷ rest) k) (
      rw (read_word-AllDigits (to_string n) d rest digits some_digits l)
        (rw (number-to_string n h) refl))

abbrev pub AllWords : List ℕ → Type 0
AllWords [] = Unit {0}
AllWords (n ∷ ns) = (n ≤ u64_max) × AllWords ns

read_numbers-put_numbers :
    (c : ℕ) (n : ℕ) (ns : List ℕ) (m : ℕ) (rest : Bytes)
    → is_space c ≡ true
    → AllWords (n ∷ ns)
    → read_numbers (suc (length ns)) (c ∷ put_numbers (n ∷ ns ++ m ∷ []) rest)
      ≡ found (n ∷ ns, b' ' ∷ put_numbers (m ∷ []) rest)
unfolding read_numbers put_numbers
read_numbers-put_numbers c n [] m rest h w =
    rw (read_number-put_number n c b' ' (put_numbers (m ∷ []) rest) w.0 h refl) refl
read_numbers-put_numbers c n (k ∷ ns) m rest h w =
    rw (read_number-put_number n c b' ' (put_numbers (k ∷ ns ++ m ∷ []) rest) w.0 h refl)
      (rw (read_numbers-put_numbers b' ' k ns m rest refl w.1) refl)

bytes_less_asym : (a b : Bytes) → bytes_less a b ≡ true → bytes_less b a ≡ false
unfolding bytes_less
bytes_less_asym [] [] h = cc
bytes_less_asym [] (y ∷ b) h = refl
bytes_less_asym (x ∷ a) [] h = cc
bytes_less_asym (x ∷ a) (y ∷ b) h = ground (arith, bytes_less_asym a b)

-- All the keys are less than this one.
abbrev pub Below : Bytes → List (Bytes × Bytes) → Type 0
Below key [] = Unit {0}
Below key ((k, v) ∷ ps) = (bytes_less k key ≡ true) × Below key ps

-- Each key is greater than those in front of it, the first list's too.
abbrev pub InOrder : List (Bytes × Bytes) → List (Bytes × Bytes) → Type 0
InOrder before [] = Unit {0}
InOrder before ((k, v) ∷ ps) = Below k before × InOrder (before ++ (k, v) ∷ []) ps

emplace_last :
    (key value : Bytes) (ps : List (Bytes × Bytes))
    → Below key ps
    → emplace key value ps ≡ found (ps ++ (key, value) ∷ [])
unfolding emplace
emplace_last key value [] h = refl
emplace_last key value ((k, v) ∷ ps) h =
    rw (h.0, bytes_less_asym k key h.0) (rw (emplace_last key value ps h.1) refl)

read_parameters-put_parameters :
    (before ps : List (Bytes × Bytes)) (rest : Bytes)
    → InOrder before ps
    → read_parameters (length ps) before (b'\n' ∷ put_parameters ps rest)
      ≡ found (before ++ ps, b'\n' ∷ rest)
unfolding read_parameters put_parameters
read_parameters-put_parameters before [] rest h = rw (append-nil before) refl
read_parameters-put_parameters before ((k, v) ∷ ps) rest h =
    let behind = b'\n' ∷ put_parameters ps rest in
    rw (read_quoted_space b'\n' (put_quoted k (b' ' ∷ put_quoted v behind)) refl) (
      rw (read_quoted-put_quoted k (b' ' ∷ put_quoted v behind)) (
        rw (read_quoted_space b' ' (put_quoted v behind) refl) (
          rw (read_quoted-put_quoted v behind) (
            rw (emplace_last k v before h.0) (
              rw (read_parameters-put_parameters (before ++ (k, v) ∷ []) ps rest h.1)
                (rw (append_assoc before ((k, v) ∷ []) ps) refl))))))

-- What the types of the source bound: counters of 64 bits, a map in the order of its keys; and a
-- record that was saved has a revision.
pub record IsStorable (r : TaskRecord) : Type 0 where
  pub counters : AllWords (counters_of r)
  pub saved : r.revision ≢ 0
  pub ordered : InOrder [] r.parameters

pub encode-text_of :
    (r : TaskRecord) {bytes : Bytes}
    → encode r ≡ found bytes
    → (validate r ≡ found tt) × (text_of r ≡ bytes)
unfolding encode
encode-text_of r h =
    let (_, valid, h1) = >>=-eq-found (validate r) _ h in
    let (_, small, h2) = >>=-eq-found (guard (leb (length (text_of r)) max_record_bytes)) _ h1 in
    (valid, cc h2)

pub encode-length :
    (r : TaskRecord) {bytes : Bytes}
    → encode r ≡ found bytes
    → (0 < length bytes) × (length bytes ≤ max_record_bytes)
unfolding encode text_of
encode-length r {bytes} h =
    let (_, valid, h1) = >>=-eq-found (validate r) _ h in
    let (_, small, h2) = >>=-eq-found (guard (leb (length (text_of r)) max_record_bytes)) _ h1 in
    let within = guard-eq-found _ small in
    let same : text_of r ≡ bytes = cc h2 in rw (← same) (omega arith, ground arith)

few_parameters : (r : TaskRecord) → validate r ≡ found tt → leb (length r.parameters) 64 ≡ true
unfolding validate
few_parameters r h = ground arith

-- The four steps of `decode`, each on what `text_of` left for it.
read_texts-text_of :
    (r : TaskRecord) (rest : Bytes)
    → read_texts 9 (put_texts (texts_of r) rest) ≡ found (texts_of r, b'\n' ∷ rest)
unfolding read_texts
read_texts-text_of r rest =
    rw (← read_quoted_space b'\n' (put_texts (texts_of r) rest) refl)
      (read_texts-put_texts (texts_of r) rest)

abbrev first_counters : TaskRecord → List ℕ
first_counters r =
    r.revision ∷ r.created_ms ∷ r.updated_ms ∷ r.started_ms ∷ r.finished_ms ∷ r.progress_at_ms
    ∷ r.completed ∷ r.total ∷ []

read_numbers-text_of :
    (r : TaskRecord) (rest : Bytes)
    → AllWords (counters_of r)
    → read_numbers 8 (b'\n' ∷ put_numbers (counters_of r) rest)
      ≡ found (first_counters r, b' ' ∷ put_numbers (r.attempt ∷ []) rest)
read_numbers-text_of r rest w =
    read_numbers-put_numbers b'\n' r.revision
      (r.created_ms ∷ r.updated_ms ∷ r.started_ms ∷ r.finished_ms ∷ r.progress_at_ms ∷ r.completed
        ∷ r.total ∷ [])
      r.attempt rest refl (ground arith)

decode-text_of :
    (r : TaskRecord) → IsStorable r → validate r ≡ found tt → decode (text_of r) ≡ found r
unfolding decode text_of read_attempt record_of first_line split_byte bytes_eq put_numbers
    skip_space
decode-text_of r s valid =
    let few = few_parameters r valid in
    let saved : (r.revision == 0) ≡ false = ground (arith, s.saved) in
    let small : r.attempt ≤ u64_max = ground (arith, s.counters) in
    let s4 = put_parameters r.parameters [] in
    let s3 = put_number (length r.parameters) (b'\n' ∷ s4) in
    rw (read_texts-text_of r (put_numbers (counters_of r) s3), decode)
      (rw (read_numbers-text_of r s3 s.counters) (
        rw (read_number-put_number r.attempt b' ' b'\n' s3 small refl refl) (
          rw (read_number-put_number (length r.parameters) b'\n' b'\n' s4 (ground arith) refl refl)
            (rw (saved, few)
              (rw (read_parameters-put_parameters [] r.parameters [] s.ordered) (rw valid refl))))))

-- A record whose counters fit 64 bits, which has a revision, and whose parameters stand in the order of
-- their keys is read back from what `encode` makes of it.
pub decode-encode :
    (r : TaskRecord) {bytes : Bytes}
    → IsStorable r
    → encode r ≡ found bytes
    → decode bytes ≡ found r
decode-encode r s h = let (valid, e) = encode-text_of r h in rw (← e) (decode-text_of r s valid)
