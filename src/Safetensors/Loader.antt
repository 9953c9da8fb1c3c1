-- ===== src/Safetensors/Loader.antt =====
-- `SafetensorsLoader` of src/io/safetensors.cpp: the state of a loaded file, the two ways to load one
-- and the accessors. What the system calls answer is the `Kernel` argument.
pub mod Sound
pub mod Live
use resonantia.System.{Attempt, interrupted, failed, returned, retry}
use Prim.Native.Nat.{min}
use resonantia.Prelude.{
  bytes_eq, ltb, not, Bool, Option, List, leb, false, true, some, none, suc, zero, [], ◌∷◌, ◌++◌,
  ◌-◌, ◌^◌, ◌/◌, ◌%◌, ◌==◌, ◌&&◌, ◌||◌, if◌then◌else◌, ℕ, Bytes, length, arith,
}
use resonantia.Outcome.{Outcome, found, refused, spent, ◌>>=◌, ◌>>◌, guard, of_option}
use resonantia.Safetensors.Tensor.{Tensor, size_max}
use resonantia.Safetensors.Header.{parse_header}

-- The fields of `struct stat` that the code reads. Times are compared and copied only; a size is not
-- negative.
pub record Status : Type 0 where
  pub dev : ℕ
  pub ino : ℕ
  pub mode : ℕ
  pub size : ℕ
  pub mtime_sec : ℕ
  pub mtime_nsec : ℕ
  pub ctime_sec : ℕ
  pub ctime_nsec : ℕ

-- What the calls of one load answer, attempt by attempt.
pub record Kernel : Type 0 where
  pub opens : List (Attempt (Unit {0}))
  -- The first and the second `fstat`.
  pub stats : List (Attempt Status)
  pub restats : List (Attempt Status)
  -- The file as `mmap` shows that many bytes of it.
  pub map_file : ℕ → Option Bytes
  pub map_anonymous : Bool
  pub protect : Bool
  -- By offset and size.
  pub pread : ℕ → ℕ → List (Attempt Bytes)

-- `S_ISREG`: the file type is in the four bits from 0x1000 on.
unfoldable pub is_regular : Status → Bool
is_regular s = s.mode / 0x1000 % 16 == 8

unfoldable pub checked_regular_file_size : Status → Outcome ℕ
unfolding is_regular
checked_regular_file_size s =
    if not (is_regular s) || ltb s.size 8 || ltb size_max s.size then refused else found s.size

unfoldable pub same_file_status : Status → Status → Bool
unfolding is_regular
same_file_status before after =
    is_regular after
    && before.dev == after.dev
    && before.ino == after.ino
    && before.mode == after.mode
    && before.size == after.size
    && before.mtime_sec == after.mtime_sec
    && before.mtime_nsec == after.mtime_nsec
    && before.ctime_sec == after.ctime_sec
    && before.ctime_nsec == after.ctime_nsec

-- `SafetensorsSourceIdentity`: the same eight numbers.
abbrev pub Identity : Type 0
Identity = Status

-- `source_identity_from`
unfoldable pub source_identity_from : Status → Identity
source_identity_from s = record {
  dev = s.dev;
  ino = s.ino;
  mode = s.mode;
  size = s.size;
  mtime_sec = s.mtime_sec;
  mtime_nsec = s.mtime_nsec;
  ctime_sec = s.ctime_sec;
  ctime_nsec = s.ctime_nsec;
}

abbrev pub no_identity : Identity
no_identity = record {
  dev = 0;
  ino = 0;
  mode = 0;
  size = 0;
  mtime_sec = 0;
  mtime_nsec = 0;
  ctime_sec = 0;
  ctime_nsec = 0;
}

-- `mapping` is `data_`: the bytes behind the pointer, if it is not null.
pub record Loader : Type 0 where
  pub mapping : Option Bytes
  pub data_size : ℕ
  pub tensors : List (Bytes × Tensor)
  pub source_identity : Identity
  pub source_identity_valid : Bool

-- `reset`: whatever was loaded before is gone.
unfoldable pub reset : Loader → Loader
reset l = record {
  mapping = none;
  data_size = 0;
  tensors = [];
  source_identity = no_identity;
  source_identity_valid = false;
}

-- The body of `load` behind its `reset`.
unfoldable pub stage_mapped : Kernel → Loader → Outcome Loader
stage_mapped k l = do
  opened ← retry k.opens
  st ← retry k.stats
  staged_size ← checked_regular_file_size st
  mapped ← of_option (k.map_file staged_size)
  parsed ← parse_header mapped
  found (record l { tensors = parsed; data_size = staged_size; mapping = some mapped })

abbrev pub snapshot_read_chunk : ℕ
snapshot_read_chunk = 2 ^ 20

-- The copy loop of `load_snapshot`: `copied` is what stands in the anonymous mapping.
unfoldable pub copy_loop : (ℕ → ℕ → List (Attempt Bytes)) → ℕ → ℕ → Bytes → Outcome Bytes
copy_loop pread zero staged_size copied =
    if leb staged_size (length copied) then found copied else spent
copy_loop pread (suc fuel) staged_size copied =
    let rest = (do
      chunk ← retry (pread (length copied) (min snapshot_read_chunk (staged_size - length copied)))
      guard (not (length chunk == 0))
      copy_loop pread fuel staged_size (copied ++ chunk)) in
    if leb staged_size (length copied) then found copied else rest

unfoldable pub stage_snapshot : Kernel → ℕ → Loader → Outcome Loader
stage_snapshot k max_bytes l = do
  opened ← retry k.opens
  before ← retry k.stats
  staged_size ← checked_regular_file_size before
  guard (leb staged_size max_bytes)
  guard k.map_anonymous
  copied ← copy_loop k.pread staged_size staged_size []
  after ← retry k.restats
  guard (same_file_status before after)
  guard k.protect
  parsed ← parse_header copied
  found (record l {
    tensors = parsed;
    source_identity = source_identity_from after;
    source_identity_valid = true;
    data_size = staged_size;
    mapping = some copied;
  })

-- The result of a load and the state behind it. A failure leaves the state of `reset`; so does an
-- allocation failure, whose handler resets again.
unfoldable pub finish : Loader → Outcome Loader → Option (Bool × Loader)
finish cleared (found l) = some (true, l)
finish cleared refused = some (false, cleared)
finish cleared spent = none

unfoldable pub load : Kernel → Loader → Option (Bool × Loader)
load k l = finish (reset l) (stage_mapped k (reset l))

unfoldable pub load_snapshot : Kernel → ℕ → Loader → Option (Bool × Loader)
load_snapshot k max_bytes l = finish (reset l) (stage_snapshot k max_bytes (reset l))

-- Move assignment from another loader: the target's new state and the source's. `tensors_` of the
-- source is moved from, so it is empty; its identity keeps its value without being valid.
unfoldable pub move_from : Loader → Loader → Loader × Loader
move_from target other = (
  other,
  record other { mapping = none; data_size = 0; tensors = []; source_identity_valid = false },
)

unfoldable pub find : Bytes → List (Bytes × Tensor) → Option Tensor
find name [] = none
find name ((n, t) ∷ ts) = if bytes_eq name n then some t else find name ts

unfoldable pub get_tensor : Loader → Bytes → Option Tensor
get_tensor l name = find name l.tensors

-- `data(name)`: the offset into the mapping, or the null pointer.
unfoldable pub data_at : Loader → Bytes → Option ℕ
data_at l name = elim (get_tensor l name) [
  | none ↦ none
  | some t ↦ elim l.mapping [
    | none ↦ none
    | some bytes ↦
        if ltb l.data_size t.data_offset || ltb (l.data_size - t.data_offset) t.data_nbytes
        then none
        else some t.data_offset
  ]
]
