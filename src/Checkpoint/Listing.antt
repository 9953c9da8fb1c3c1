-- ===== src/Checkpoint/Listing.antt =====
-- src/io/block_checkpoint.cpp: what `entries` lists of a block.
use resonantia.Checkpoint.{
  Float, Limits, block_name, block_suffix, header, magic, memory_of, valid_key,
}
use resonantia.Checkpoint.Entries.{entry_of}
use resonantia.Checkpoint.Format.{IsBlock}
use resonantia.Checkpoint.Image.{
  count_at, image_of, length-header, length-image_of, offset_at, take_64, take_8, zero_at,
}
use resonantia.Checkpoint.Scan.Names.{without-append}
use resonantia.Checkpoint.Spec.{in_bounds}
use resonantia.Directory.{bytes_eq_self}
use resonantia.Outcome.{found}
use resonantia.Prelude.{
  Bytes, List, arith, length, ltb, not, refl, take-prefix, true, ℕ, ◌*◌, ◌++◌, ◌+◌, ◌/◌, ◌<◌, ◌==◌,
  ◌^◌, ◌||◌, ◌≡◌,
}

-- A block that `save` published is listed under its key, with its offset and its count.
pub entry_of-image_of :
    (limits : Limits) (identity key : Bytes) (offset : ℕ) (fs : List Float) (checksum : Bytes)
    → IsBlock identity key offset fs
    → valid_key key ≡ true
    → in_bounds limits (length fs) ≡ true
    → length checksum ≡ 64
    → entry_of limits identity (block_name key) (image_of identity offset fs checksum)
      ≡ found (record { key = key; offset = offset; count = length fs })
unfolding entry_of
entry_of-image_of limits identity key offset fs checksum h v b c =
    let n = length fs in
    let i = h.identified in
    let head = header identity offset n checksum in
    let wide : n < 2 ^ 64 = omega (arith, h.small) in
    let size = length-image_of identity offset fs checksum i c h.placed wide in
    let enough : not (ltb (length (head ++ memory_of fs)) 164) ≡ true = ground (arith, size, b) in
    let some' : not (n == 0 || ltb (limits.block_bytes / 4) n) ≡ true = ground (arith, b) in
    let exact : (length (head ++ memory_of fs) == 160 + 4 * n) ≡ true = ground (arith, size) in
    rw
      (
        without-append key block_suffix,
        v,
        enough,
        take-prefix head (memory_of fs) 160
            (length-header identity offset n checksum i c h.placed wide),
        take_8 identity offset n checksum i c h.placed wide,
        take_64 identity offset n checksum i c h.placed wide,
        bytes_eq_self magic,
        bytes_eq_self identity,
        count_at identity offset n checksum i c h.placed wide,
        zero_at identity offset n checksum i c h.placed wide,
        some',
        exact,
        offset_at identity offset n checksum i c h.placed wide,
      )
      refl
