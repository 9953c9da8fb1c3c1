-- ===== src/Checkpoint/Session.antt =====
-- src/io/block_checkpoint.cpp: the operations of an open checkpoint.
use resonantia.Prelude.{
  ℕ, ◌+◌, ◌-◌, ◌*◌, ◌/◌, ◌%◌, ◌^◌, Bool, true, false, not, ◌&&◌, List, ◌++◌, Bytes, ltb, leb, ◌==◌,
  Option, none, some, length, take, drop, bytes_eq,
}
use resonantia.Outcome.{Outcome, found, refused, spent, ◌>>=◌, ◌>>◌, guard}
use resonantia.Directory.{Node, vacant, file, foreign, Store, node_of, put}
use resonantia.Checkpoint.{
  header_size, Float, finite, memory_of, floats_of, valid_key, get64, digest, magic, header,
  block_name, pending_name, Impl,
}

-- What the disk does to a publication: all of it; nothing that shows, since the write, its `fsync` or the
-- rename fails; or the rename, with the directory's `fsync` failing behind it.
pub data Disk : Type 0 where
  sound unwritten unsynced : Disk

-- The three exits of `publish` once the staging file exists.
unfoldable pub publish_as : Disk → Bytes → Bytes → Store → Store × Outcome (Unit {0})
publish_as sound name image staged =
    (put name (file image) (put (pending_name name) vacant staged), found tt)
publish_as unwritten name image staged = (put (pending_name name) vacant staged, refused)
publish_as unsynced name image staged =
    (put name (file image) (put (pending_name name) vacant staged), refused)

-- `O_EXCL`: a staging file that is there is not written over.
unfoldable pub publish : Disk → Bytes → Bytes → Store → Store × Outcome (Unit {0})
publish disk name image store = elim (node_of (pending_name name) store) [
  | vacant ↦ publish_as disk name image (put (pending_name name) (file image) store)
  | file _ ↦ (store, refused)
  | foreign ↦ (store, refused)
]

unfoldable pub matches_header : Bytes → ℕ → ℕ → Bytes → Bool
matches_header identity offset count h =
    bytes_eq (take 8 h) magic
    && (bytes_eq (take 64 (drop 8 h)) identity
        && (get64 h 72 == offset && (get64 h 80 == count && get64 h 152 == 0)))

-- A block's file, header and floats.
unfoldable pub read_image : Bytes → Bytes → ℕ → ℕ → Bytes → Outcome (List Float)
read_image identity key offset count image = do
  guard (length image == header_size + count * 4)
  let h = take header_size image
  guard (matches_header identity offset count h)
  let data_ = floats_of (drop header_size image)
  guard (finite data_)
  checksum ← digest identity key offset data_
  guard (bytes_eq (take 64 (drop 88 h)) (take 64 checksum))
  found data_

unfoldable pub read_block : Bytes → Bytes → ℕ → ℕ → Node → Outcome (Option (List Float))
read_block identity key offset count vacant = found none
read_block identity key offset count foreign = refused
read_block identity key offset count (file image) = do
  data_ ← read_image identity key offset count image
  found (some data_)

unfoldable pub read : Impl → Bytes → ℕ → ℕ → Outcome (Option (List Float))
read s key offset count = do
  guard s.healthy
  guard (valid_key key)
  guard (not (count == 0) && leb count (s.limits.block_bytes / 4))
  read_block s.identity key offset count (node_of (block_name key) s.store)

-- `if(value)++hits;`
abbrev pub with_hit : Impl → Outcome (Option (List Float)) → Impl
with_hit s (found (some _)) = record s { hits = s.hits + 1 }
with_hit s _ = s

unfoldable pub load : Impl → Bytes → ℕ → ℕ → Impl × Outcome (Option (List Float))
load s key offset count = let value = read s key offset count in (with_hit s value, value)

-- A difference of 64-bit numbers.
abbrev pub minus64 : ℕ → ℕ → ℕ
minus64 a b = (a + 2 ^ 64 - b) % 2 ^ 64

abbrev pub image_size : List Float → ℕ
image_size data_ = header_size + length data_ * 4

-- The image of a block that is not there yet, where the limits leave room for it.
unfoldable pub fresh_image : Impl → Bytes → ℕ → List Float → Outcome Bytes
fresh_image s key offset data_ = do
  guard (
      ltb s.blocks s.limits.blocks && leb (image_size data_) (minus64 s.limits.total_bytes s.bytes))
  checksum ← digest s.identity key offset data_
  found (header s.identity offset (length data_) checksum ++ memory_of data_)

-- The block that was read decides: one with other bytes is an error, one with the same is kept.
unfoldable pub image_beside :
    Impl → Bytes → ℕ → List Float → Option (List Float) → Outcome (Option Bytes)
image_beside s key offset data_ (some old) = do
  guard (bytes_eq (memory_of old) (memory_of data_))
  found none
image_beside s key offset data_ none = do image ← fresh_image s key offset data_; found (some image)

-- Everything in front of the publication: the image to publish, or none where it is there already.
unfoldable pub prepare : Impl → Bytes → ℕ → List Float → Outcome (Option Bytes)
prepare s key offset data_ = do
  guard (not s.is_read_only)
  guard (valid_key key)
  guard (not (length data_ == 0) && leb (length data_) (s.limits.block_bytes / 4))
  guard (finite data_)
  old ← read s key offset (length data_)
  image_beside s key offset data_ old

-- `++blocks; bytes+=size;`, or `healthy=false` where the publication threw.
abbrev pub published : Impl → ℕ → Store × Outcome (Unit {0}) → Impl × Outcome (Unit {0})
published s size (store, found _) = (
  record s { store = store; blocks = (s.blocks + 1) % 2 ^ 32; bytes = (s.bytes + size) % 2 ^ 64 },
  found tt,
)
published s size (store, refused) = (record s { store = store; healthy = false }, refused)
published s size (store, spent) = (record s { store = store; healthy = false }, spent)

unfoldable pub save : Disk → Impl → Bytes → ℕ → List Float → Impl × Outcome (Unit {0})
save disk s key offset data_ = elim (prepare s key offset data_) [
  | found (some image) ↦
      published s (image_size data_) (publish disk (block_name key) image s.store)
  | found none ↦ (s, found tt)
  | refused ↦ (s, refused)
  | spent ↦ (s, spent)
]

-- What `boundary` does: nothing, the exception `OperationPaused`, or another one.
pub data Boundary : Type 0 where
  passed paused failed : Boundary

-- What the callback answers, where there is one; `none` inside is its exception.
unfoldable pub ask : Option (Option Bool) → Boundary
ask none = passed
ask (some none) = failed
ask (some (some true)) = paused
ask (some (some false)) = passed

unfoldable pub boundary : Impl → Option (Option Bool) → Boundary
boundary s pause = elim s.healthy [ true ↦ ask pause | false ↦ failed ]
