-- ===== src/Tasks/Codec.antt =====
-- `encode` and `decode` of tools/web/task_store.cpp: a record as text, through the stream operators.
-- What is put into a stream is put in front of what follows; what is taken leaves the rest.
pub mod RoundTrip
pub mod Assign
use resonantia.Prelude.{
  ℕ, zero, suc, Bool, true, false, ◌&&◌, ◌||◌, not, List, [], ◌∷◌, ◌++◌, Bytes, codes, ltb, leb,
  ◌==◌, if◌then◌else◌, Option, none, some, length, bytes_eq, split_byte, ◌^◌,
}
use resonantia.Prelude.Decimal.{to_string}
use resonantia.Prelude.Number.{number}
use resonantia.Outcome.{Outcome, found, refused, ◌>>=◌, ◌>>◌, guard, of_option}
use resonantia.Tasks.{TaskRecord, validate}

abbrev pub max_record_bytes : ℕ
max_record_bytes = 65536

-- The inside of `std::quoted` and the closing quote.
unfoldable pub put_escaped : Bytes → Bytes → Bytes
put_escaped [] rest = b'"' ∷ rest
put_escaped (c ∷ s) rest =
    let more = c ∷ put_escaped s rest in if c == b'"' || c == b'\\' then b'\\' ∷ more else more

unfoldable pub put_quoted : Bytes → Bytes → Bytes
put_quoted s rest = b'"' ∷ put_escaped s rest

unfoldable pub put_texts : List Bytes → Bytes → Bytes
put_texts [] rest = rest
put_texts (s ∷ ss) rest = put_quoted s (b'\n' ∷ put_texts ss rest)

unfoldable pub put_number : ℕ → Bytes → Bytes
put_number n rest = to_string n ++ rest

-- Numbers with blanks between them and a line's end behind the last.
unfoldable pub put_numbers : List ℕ → Bytes → Bytes
put_numbers [] rest = rest
put_numbers (n ∷ []) rest = put_number n (b'\n' ∷ rest)
put_numbers (n ∷ m ∷ ns) rest = put_number n (b' ' ∷ put_numbers (m ∷ ns) rest)

unfoldable pub put_parameters : List (Bytes × Bytes) → Bytes → Bytes
put_parameters [] rest = rest
put_parameters ((k, v) ∷ ps) rest =
    put_quoted k (b' ' ∷ put_quoted v (b'\n' ∷ put_parameters ps rest))

abbrev pub texts_of : TaskRecord → List Bytes
texts_of r = r.id ∷ r.kind ∷ r.name ∷ r.state ∷ r.stage ∷ r.error ∷ r.unit ∷ r.result ∷ r.phase ∷ []

abbrev pub counters_of : TaskRecord → List ℕ
counters_of r =
    r.revision ∷ r.created_ms ∷ r.updated_ms ∷ r.started_ms ∷ r.finished_ms ∷ r.progress_at_ms
    ∷ r.completed ∷ r.total ∷ r.attempt ∷ []

abbrev pub version_2 : Bytes
version_2 = codes "RESONANTIA_TASK 2"

unfoldable pub text_of : TaskRecord → Bytes
text_of r =
    version_2
    ++ b'\n'
      ∷ put_texts (texts_of r) (
          put_numbers (counters_of r)
            (put_numbers (length r.parameters ∷ []) (put_parameters r.parameters [])))

unfoldable pub encode : TaskRecord → Outcome Bytes
encode r = do validate r; guard (leb (length (text_of r)) max_record_bytes); found (text_of r)

-- `std::isspace` of the C locale.
abbrev pub is_space : ℕ → Bool
is_space c = c == b' ' || leb 9 c && leb c 13

unfoldable pub skip_space : Bytes → Bytes
skip_space [] = []
skip_space (c ∷ s) = let rest = skip_space s in if is_space c then rest else c ∷ s

-- A word up to the next white space.
unfoldable pub word : Bytes → Bytes × Bytes
word [] = ([], [])
word (c ∷ s) = let (w, rest) = word s in if is_space c then ([], c ∷ s) else (c ∷ w, rest)

-- `in >> token`; `refused` is a stream that failed, which makes the rest of `decode` throw.
unfoldable pub read_word : Bytes → Outcome (Bytes × Bytes)
read_word s = elim (skip_space s) [ [] ↦ refused | c ∷ rest ↦ found (word (c ∷ rest)) ]

abbrev pub prepend : ℕ → Outcome (Bytes × Bytes) → Outcome (Bytes × Bytes)
prepend c o = do (s, rest) ← o; found (c ∷ s, rest)

-- Behind the opening quote.
unfoldable pub read_escaped : Bytes → Outcome (Bytes × Bytes)
read_escaped [] = refused
read_escaped (c ∷ []) = if c == b'"' then found ([], []) else refused
read_escaped (c ∷ d ∷ s) =
    let escaped = prepend d (read_escaped s) in
    let plain = prepend c (read_escaped (d ∷ s)) in
    if c == b'"' then found ([], d ∷ s) else if c == b'\\' then escaped else plain

-- `in >> std::quoted(value)`; without an opening quote it reads a word.
unfoldable pub read_quoted : Bytes → Outcome (Bytes × Bytes)
read_quoted s = elim (skip_space s) [
  | [] ↦ refused
  | c ∷ rest ↦ if c == b'"' then read_escaped rest else found (word (c ∷ rest))
]

unfoldable pub read_texts : ℕ → Bytes → Outcome (List Bytes × Bytes)
read_texts zero s = found ([], s)
read_texts (suc n) s = do
  (text, rest) ← read_quoted s
  (texts, rest') ← read_texts n rest
  found (text ∷ texts, rest')

unfoldable pub read_number : Bytes → Outcome (ℕ × Bytes)
read_number s = do (token, rest) ← read_word s; n ← of_option (number token); found (n, rest)

unfoldable pub read_numbers : ℕ → Bytes → Outcome (List ℕ × Bytes)
read_numbers zero s = found ([], s)
read_numbers (suc n) s = do
  (value, rest) ← read_number s
  (values, rest') ← read_numbers n rest
  found (value ∷ values, rest')

-- `<` of `std::string`.
unfoldable pub bytes_less : Bytes → Bytes → Bool
bytes_less [] [] = false
bytes_less [] (y ∷ ys) = true
bytes_less (x ∷ xs) [] = false
bytes_less (x ∷ xs) (y ∷ ys) = ltb x y || x == y && bytes_less xs ys

-- `parameters.emplace(key, value)`; a key that is there refuses.
unfoldable pub emplace : Bytes → Bytes → List (Bytes × Bytes) → Outcome (List (Bytes × Bytes))
emplace key value [] = found ((key, value) ∷ [])
emplace key value ((k, v) ∷ ps) =
    let later = (do qs ← emplace key value ps; found ((k, v) ∷ qs)) in
    if bytes_less key k
    then found ((key, value) ∷ (k, v) ∷ ps)
    else if bytes_less k key
    then later
    else refused

unfoldable pub read_parameters :
    ℕ → List (Bytes × Bytes) → Bytes → Outcome (List (Bytes × Bytes) × Bytes)
read_parameters zero ps s = found (ps, s)
read_parameters (suc n) ps s = do
  (key, rest) ← read_quoted s
  (value, rest') ← read_quoted rest
  qs ← emplace key value ps
  read_parameters n qs rest'

-- `std::getline`
unfoldable pub first_line : Bytes → Bytes × Bytes
first_line s = elim (split_byte b'\n' s) [ none ↦ (s, []) | some (line, rest) ↦ (line, rest) ]

-- The fields from the texts and counters, in the order of the file.
unfoldable pub record_of : List Bytes → List ℕ → ℕ → List (Bytes × Bytes) → Outcome TaskRecord
record_of (i ∷ k ∷ n ∷ s ∷ g ∷ e ∷ u ∷ r ∷ p ∷ []) (v ∷ c ∷ d ∷ t ∷ f ∷ a ∷ m ∷ l ∷ []) attempt ps =
    found (record {
      id = i;
      kind = k;
      name = n;
      state = s;
      stage = g;
      error = e;
      unit = u;
      result = r;
      phase = p;
      revision = v;
      attempt = attempt;
      created_ms = c;
      updated_ms = d;
      started_ms = t;
      finished_ms = f;
      progress_at_ms = a;
      completed = m;
      total = l;
      parameters = ps;
    })
record_of _ _ _ _ = refused

-- The attempt came with the second version; a record of the first is the first attempt.
unfoldable pub read_attempt : Bytes → Bytes → Outcome (ℕ × Bytes)
read_attempt header s = if bytes_eq header version_2 then read_number s else found (1, s)

unfoldable pub decode : Bytes → Outcome TaskRecord
decode bytes = do
  let (header, in0) = first_line bytes
  guard (bytes_eq header (codes "RESONANTIA_TASK 1") || bytes_eq header version_2)
  (texts, in1) ← read_texts 9 in0
  (counters, in2) ← read_numbers 8 in1
  (attempt, in3) ← read_attempt header in2
  (count, in4) ← read_number in3
  r ← record_of texts counters attempt []
  guard (not (r.revision == 0) && leb count 64)
  (parameters, in5) ← read_parameters count [] in4
  guard (length (skip_space in5) == 0)
  let result = record r { parameters = parameters }
  validate result
  found result
