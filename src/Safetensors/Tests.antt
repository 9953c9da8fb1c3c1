-- ===== src/Safetensors/Tests.antt =====
-- Small files and texts for src/io/safetensors.cpp.
use resonantia.System.{interrupted, returned, retry}
use resonantia.Safetensors.Loader.{
  Loader, Kernel, Status, no_identity, load, stage_mapped, finish, reset, checked_regular_file_size,
  load_snapshot, stage_snapshot, copy_loop, same_file_status, source_identity_from, data_at,
  get_tensor, find,
}
use resonantia.Safetensors.Loader.Sound.{
  IsLoaded, Loads, MapsWhole, ReadsFrom, Snapshot, load-Loads, load_snapshot-Loads,
  data_at-IsLoaded,
}
use resonantia.Safetensors.Loader.Live.{Answers, load-returns}
use resonantia.Safetensors.Header.Sound.{IsChecked, data_start_of, parse_header-IsChecked}
use resonantia.Safetensors.Header.Total.{parse_header-ne-spent}
use resonantia.Safetensors.Header.Unclosed.{parse_index-unclosed}
use resonantia.Safetensors.Scan.RoundTrip.{quote, parse_string-quote}
use resonantia.Safetensors.Skip.Total.{skip_value-Ends}
use resonantia.Prelude.{
  take_again, strip_prefix, ==_iff, length-take, Bool, arith, sym, drop, Option, Bool-cases, take,
  false, true, inr, inl, some, none, ◌==◌, ◌≢◌, ◌≤◌, if◌then◌else◌, ◌≡◌, refl, List, [], ◌∷◌, ◌++◌,
  Bytes, codes, length, replicate, ◌+◌, bytes_eq, contains,
}
use resonantia.Outcome.{spent, Ends, Outcome, found}
use resonantia.Safetensors.Header
use resonantia.Safetensors.Scan.{
  is_ws, skip_ws, expect, hex_digit, hex_loop, parse_hex4, append_utf8, simple_escape, low_half,
  code_point, unicode_escape, escape, string_loop, parse_string, digits_loop, has_leading_zero,
  starts_with_digit, parse_uint64, skip_digits, some_digits, skip_if, skip_fraction, skip_exponent,
  skip_whole, skip_number,
}
use resonantia.Safetensors.Skip.{
  separator, opens_empty, elements_loop, skip_array, members_loop, skip_object, skip_literals,
  skip_at, skip_value, nesting_fuel,
}
use resonantia.Safetensors.Tensor.{
  checked_add, checked_mul, shape_loop, parse_shape, parse_offsets, field_value, fields_loop,
  layout, place, conclude, parse_tensor, Tensor,
}
use resonantia.Safetensors.Header.{
  empty_index, read_u64_le, member, parse_index, range_leb, insert, sort, covered_by, parse_header,
}

abbrev header_text : Bytes
header_text = codes "{\"w\":{\"dtype\":\"F32\",\"shape\":[2,1],\"data_offsets\":[0,8]}}"

abbrev file : Bytes
file = length header_text ∷ replicate 7 0 ++ (header_text ++ replicate 8 7)

abbrev w : Tensor
w = record {
  name = codes "w";
  dtype = codes "F32";
  shape = 2 ∷ 1 ∷ [];
  strides = 4 ∷ 4 ∷ [];
  data_offset = 8 + length header_text;
  data_nbytes = 8;
}

run_skip : Bytes → Outcome Bytes
unfolding is_ws skip_ws expect hex_digit hex_loop parse_hex4 append_utf8 simple_escape low_half
    code_point unicode_escape escape string_loop parse_string digits_loop has_leading_zero
    starts_with_digit parse_uint64 skip_digits some_digits skip_if skip_fraction skip_exponent
    skip_whole skip_number separator opens_empty elements_loop skip_array members_loop skip_object
    strip_prefix skip_literals skip_at skip_value bytes_eq contains
run_skip = skip_value nesting_fuel 1

run_header : Bytes → Outcome (List (Bytes × Tensor))
unfolding run_skip checked_add checked_mul shape_loop parse_shape parse_offsets field_value
    fields_loop layout place conclude parse_tensor read_u64_le member Header.members_loop
    parse_index range_leb insert sort covered_by parse_header
run_header = parse_header

parse_header-file : run_header file ≡ found ((codes "w", w) ∷ [])
unfolding run_header
parse_header-file = refl

skip_value-nested : run_skip (codes "{\"a\":[1,-2.5e3,null],\"b\":{}},") ≡ found (codes ",")
unfolding run_skip
skip_value-nested = refl

parse_string-escapes :
    parse_string (codes "\"a\\u00e9\\ud83d\\ude00\"x")
    ≡ found (97 ∷ 195 ∷ 169 ∷ 240 ∷ 159 ∷ 152 ∷ 128 ∷ [], codes "x")
unfolding run_skip
parse_string-escapes = refl

-- The theorems at these inputs.
loaded : Loader
loaded = record {
  mapping = some file;
  data_size = length file;
  tensors = (codes "w", w) ∷ [];
  source_identity = no_identity;
  source_identity_valid = false;
}

loaded-IsLoaded : IsLoaded loaded file
unfolding loaded run_header
loaded-IsLoaded = record { mapped = refl; sized = refl; checked = parse_header-IsChecked file refl }

abbrev regular : Status
regular = record no_identity { mode = 0x8000; size = length file }

-- A kernel that is interrupted once and reads everything at the first try.
abbrev kernel : Kernel
kernel = record {
  opens = interrupted ∷ returned tt ∷ [];
  stats = returned regular ∷ [];
  restats = returned regular ∷ [];
  map_file = λ n. if n == length file then some file else none;
  map_anonymous = true;
  protect = true;
  pread = λ o n. returned (take n (drop o file)) ∷ [];
}

kernel-MapsWhole : MapsWhole kernel
kernel-MapsWhole n b h = elim (Bool-cases (n == length file)) [
  | inl e ↦ let same : file ≡ b = cc (rw e at h) in rw (← same) (sym ((==_iff n (length file)).0 e))
  | inr e ↦ absurd (let x = rw e at h in cc)
]

kernel-ReadsFrom : ReadsFrom kernel file
unfolding retry
kernel-ReadsFrom o n b h =
    let same : take n (drop o file) ≡ b = cc h in
    rw (← same) (omega (arith, length-take n (drop o file)), take_again n (drop o file))

kernel-Answers : Answers kernel
unfolding retry
kernel-Answers = record { opens = λ e. cc; stats = λ e. cc; restats = λ e. cc; pread = λ o n e. cc }

run_load : Loader → Option (Bool × Loader)
unfolding load stage_mapped finish reset retry checked_regular_file_size run_header
run_load = load kernel

parse_header-IsChecked_example : IsChecked file ((codes "w", w) ∷ [])
unfolding run_header
parse_header-IsChecked_example = parse_header-IsChecked file refl

load-Loads_example : Loads (true, loaded)
unfolding run_load loaded
load-Loads_example = load-Loads kernel loaded kernel-MapsWhole refl

run_snapshot : Loader → Option (Bool × Loader)
unfolding load_snapshot stage_snapshot copy_loop finish reset retry checked_regular_file_size
    same_file_status source_identity_from run_header
run_snapshot = load_snapshot kernel 1000

snapshot : Loader
unfolding loaded
snapshot = record loaded { source_identity = regular; source_identity_valid = true }

load_snapshot-Loads_example :
    Loads (true, snapshot) × (true ≡ true → Snapshot kernel file 1000 snapshot)
unfolding run_snapshot snapshot
load_snapshot-Loads_example = load_snapshot-Loads kernel file 1000 loaded kernel-ReadsFrom refl

load-returns_example : (load kernel loaded ≢ none) × (load_snapshot kernel 1000 loaded ≢ none)
load-returns_example = load-returns kernel 1000 loaded kernel-Answers

data_at-IsLoaded_example :
    (data_at loaded (codes "w") ≡ some w.data_offset)
    × (data_start_of file ≤ w.data_offset)
    × (w.data_offset + w.data_nbytes ≤ length file)
unfolding loaded get_tensor find bytes_eq
data_at-IsLoaded_example = data_at-IsLoaded loaded file (codes "w") w loaded-IsLoaded refl

parse_header-ne-spent_example : parse_header file ≢ spent
parse_header-ne-spent_example = parse_header-ne-spent file

parse_string-quote_example :
    parse_string (quote (codes "a\"\n") ++ codes ":") ≡ found (codes "a\"\n", codes ":")
parse_string-quote_example = parse_string-quote (codes "a\"\n") (codes ":")

-- 2^64 is refused.
skip_value-Ends_example : Ends length 6 (skip_value nesting_fuel 1 (codes "[1,2],"))
skip_value-Ends_example = skip_value-Ends nesting_fuel 1 (codes "[1,2],") (omega arith)

parse_index-unclosed_example : parse_index 9 0 (codes "{  ") ≡ found empty_index
unfolding skip_ws
parse_index-unclosed_example = parse_index-unclosed 9 0 (codes "  ") refl
