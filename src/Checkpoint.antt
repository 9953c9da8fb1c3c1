-- ===== src/Checkpoint.antt =====
-- src/io/block_checkpoint.cpp, include/voxmutatio/io/block_checkpoint.h: the parts that every operation
-- of a checkpoint directory uses. `refused` is an exception.
pub mod Session
pub mod Open
pub mod Entries
pub mod Listing
pub mod Format
pub mod Image
pub mod Names
pub mod Publish
pub mod Spec
pub mod Refinement
pub mod Scan
pub mod Recovery
pub mod Safety
mod Tests
use resonantia.Prelude.{
  ℕ, zero, suc, ◌+◌, ◌-◌, ◌*◌, ◌/◌, ◌%◌, ◌^◌, Bool, true, false, not, ◌&&◌, ◌||◌, List, [], ◌∷◌,
  ◌++◌, Bytes, codes, ltb, leb, ◌==◌, if◌then◌else◌, Option, none, some, length, take, drop,
  replicate, bytes_eq, all_bytes, is_digit,
}
use resonantia.Prelude.Decimal.{to_string}
use resonantia.Outcome.{Outcome, found, refused, ◌>>=◌, ◌>>◌, guard}
use resonantia.Digest.{initial, update, finish}
use resonantia.Directory.{Store}

abbrev pub header_size : ℕ
header_size = 160

-- A float by its four bytes in memory, the lowest first (the format requires little endian).
pub record Float : Type 0 where
  pub b0 : ℕ
  pub b1 : ℕ
  pub b2 : ℕ
  pub b3 : ℕ

-- `std::isfinite`: the exponent, which is seven bits of the last byte and one of the third, is not all
-- ones.
abbrev pub is_finite : Float → Bool
is_finite f = not (f.b3 % 128 == 127 && leb 128 f.b2)

unfoldable pub finite : List Float → Bool
finite [] = true
finite (f ∷ fs) = is_finite f && finite fs

-- The memory of a span of floats, and the span in so much memory.
unfoldable pub memory_of : List Float → Bytes
memory_of [] = []
memory_of (f ∷ fs) = f.b0 ∷ f.b1 ∷ f.b2 ∷ f.b3 ∷ memory_of fs

unfoldable pub floats_of : Bytes → List Float
floats_of (x ∷ y ∷ z ∷ w ∷ s) = record { b0 = x; b1 = y; b2 = z; b3 = w } ∷ floats_of s
floats_of _ = []

abbrev pub is_key_byte : ℕ → Bool
is_key_byte c = leb b'a' c && leb c b'z' || is_digit c || c == b'_' || c == b'-'

unfoldable pub valid_key : Bytes → Bool
valid_key key = not (length key == 0) && leb (length key) 64 && all_bytes is_key_byte key

-- `put64` in front of `rest`, and `get64` at a place of a header.
unfoldable pub little_endian : ℕ → ℕ → Bytes → Bytes
little_endian zero value rest = rest
little_endian (suc k) value rest = value % 256 ∷ little_endian k (value / 256) rest

unfoldable pub put64 : ℕ → Bytes → Bytes
put64 value rest = little_endian 8 value rest

unfoldable pub value_of : Bytes → ℕ
value_of [] = 0
value_of (b ∷ s) = b + 256 * value_of s

unfoldable pub get64 : Bytes → ℕ → ℕ
get64 h p = value_of (take 8 (drop p h))

abbrev pub line : Bytes → Bytes → Bytes
line s rest = s ++ b'\n' ∷ rest

unfoldable pub prefix_of : Bytes → Bytes → ℕ → ℕ → Bytes
prefix_of identity key offset count =
    line identity (line key (line (to_string offset) (line (to_string count) [])))

unfoldable pub digest : Bytes → Bytes → ℕ → List Float → Outcome Bytes
digest identity key offset data_ = do
  h ← update initial (prefix_of identity key offset (length data_))
  h' ← update h (memory_of data_)
  found (finish h')

abbrev pub magic : Bytes
magic = codes "RSBLK001"

-- The header that `save` writes: its fields tile the 160 bytes, the last eight of which stay zero.
unfoldable pub header : Bytes → ℕ → ℕ → Bytes → Bytes
header identity offset count checksum =
    magic ++ (take 64 identity ++ put64 offset (put64 count (take 64 checksum ++ replicate 8 0)))

abbrev pub block_suffix : Bytes
block_suffix = codes ".block"

abbrev pub pending_suffix : Bytes
pending_suffix = codes ".pending"

abbrev pub identity_name : Bytes
identity_name = codes "identity"

abbrev pub block_name : Bytes → Bytes
block_name key = key ++ block_suffix

abbrev pub pending_name : Bytes → Bytes
pending_name name = name ++ pending_suffix

unfoldable pub ends_with : Bytes → Bytes → Bool
ends_with suffix s =
    leb (length suffix) (length s) && bytes_eq (drop (length s - length suffix) s) suffix

-- `name.substr(0, name.size() - n)`
abbrev pub without : ℕ → Bytes → Bytes
without n name = take (length name - n) name

abbrev pub manifest_head : Bytes
manifest_head = codes "RESONANTIA_BLOCKS 1\n"

abbrev pub manifest : Bytes → Bytes
manifest identity = manifest_head ++ line identity []

pub record Limits : Type 0 where
  pub block_bytes : ℕ
  pub total_bytes : ℕ
  pub blocks : ℕ

pub data Mode : Type 0 where
  create resume read_only : Mode

-- `Impl`, with the directory that it owns; the callback `pause` is an argument of `boundary`.
pub record Impl : Type 0 where
  pub store : Store
  pub identity : Bytes
  pub limits : Limits
  pub bytes : ℕ
  pub hits : ℕ
  pub blocks : ℕ
  pub healthy : Bool
  pub is_read_only : Bool
