-- ===== src/Checkpoint/Image.antt =====
-- src/io/block_checkpoint.cpp: `read` of the image that `save` publishes.
use resonantia.Checkpoint.{Float, digest, get64, memory_of, value_of, header, magic, put64}
use resonantia.Checkpoint.Format.{
  IsBlock, drop-put64, floats_of-memory_of, length-memory_of, value_of-put64, length-put64,
}
use resonantia.Prelude.{
  Bool-cases, false, inl, inr, ◌&&◌, ◌==◌, ==_iff, List, ap, drop, drop-append, drop-drop, sym,
  take, take-prefix, true, ◌*◌, ◌+◌, ◌∙◌, Bytes, arith, length, length-append, refl, replicate,
  take-all, ℕ, ◌++◌, ◌<◌, ◌^◌, ◌≡◌,
}
use resonantia.Checkpoint.Session.{image_size, matches_header, read_image}
use resonantia.Directory.{bytes_eq_self}
use resonantia.Outcome.{guard, ◌>>◌, found}

abbrev tail_of : Bytes → Bytes
tail_of checksum = checksum ++ replicate 8 0

-- The header's fields, in the order of the file.
module _ (identity : Bytes) (offset count : ℕ) (checksum : Bytes) (i : length identity ≡ 64)
    (c : length checksum ≡ 64) (o : offset < 2 ^ 64) (n : count < 2 ^ 64) where
  header-eq :
      (header identity offset count checksum)
      ≡ magic ++ (identity ++ put64 offset (put64 count (tail_of checksum)))
  unfolding header
  header-eq = rw (take-all identity 64 i, take-all checksum 64 c) refl

  pub length-header : length (header identity offset count checksum) ≡ 160
  length-header = rw header-eq (
      omega (
        arith,
        length-append magic (identity ++ put64 offset (put64 count (tail_of checksum))),
        length-append identity (put64 offset (put64 count (tail_of checksum))),
        length-put64 offset (put64 count (tail_of checksum)),
        length-put64 count (tail_of checksum),
        length-append checksum (replicate 8 0),
      ))

  drop_8 :
      drop 8 (header identity offset count checksum)
      ≡ identity ++ put64 offset (put64 count (tail_of checksum))
  drop_8 =
      ap (drop 8) header-eq
      ∙ drop-append magic (identity ++ put64 offset (put64 count (tail_of checksum))) 8 refl

  drop_72 :
      drop 72 (header identity offset count checksum)
      ≡ put64 offset (put64 count (tail_of checksum))
  drop_72 =
      sym (drop-drop 64 8 (header identity offset count checksum))
      ∙ ap (drop 64) drop_8
      ∙ drop-append identity (put64 offset (put64 count (tail_of checksum))) 64 i

  drop_80 : drop 80 (header identity offset count checksum) ≡ put64 count (tail_of checksum)
  drop_80 =
      sym (drop-drop 8 72 (header identity offset count checksum))
      ∙ ap (drop 8) drop_72
      ∙ drop-put64 offset (put64 count (tail_of checksum))

  drop_88 : drop 88 (header identity offset count checksum) ≡ (tail_of checksum)
  drop_88 =
      sym (drop-drop 8 80 (header identity offset count checksum))
      ∙ ap (drop 8) drop_80
      ∙ drop-put64 count (tail_of checksum)

  drop_152 : drop 152 (header identity offset count checksum) ≡ replicate 8 0
  drop_152 =
      sym (drop-drop 64 88 (header identity offset count checksum))
      ∙ ap (drop 64) drop_88
      ∙ drop-append checksum (replicate 8 0) 64 c

  pub take_8 : take 8 (header identity offset count checksum) ≡ magic
  take_8 =
      ap (take 8) header-eq
      ∙ take-prefix magic (identity ++ put64 offset (put64 count (tail_of checksum))) 8 refl

  pub take_64 : take 64 (drop 8 (header identity offset count checksum)) ≡ identity
  take_64 =
      ap (take 64) drop_8
      ∙ take-prefix identity (put64 offset (put64 count (tail_of checksum))) 64 i

  pub offset_at : get64 (header identity offset count checksum) 72 ≡ offset
  unfolding get64
  offset_at = rw drop_72 (value_of-put64 offset (put64 count (tail_of checksum)) o)

  pub count_at : get64 (header identity offset count checksum) 80 ≡ count
  unfolding get64
  count_at = rw drop_80 (value_of-put64 count (tail_of checksum) n)

  pub zero_at : get64 (header identity offset count checksum) 152 ≡ 0
  unfolding get64 value_of
  zero_at = rw drop_152 refl

  checksum_at : take 64 (drop 88 (header identity offset count checksum)) ≡ checksum
  checksum_at = rw drop_88 (take-prefix checksum (replicate 8 0) 64 c)

  pub matches_header-header :
      (o' n' : ℕ)
      → matches_header identity o' n' (header identity offset count checksum)
        ≡ (offset == o' && count == n')
  unfolding matches_header
  matches_header-header o' n' =
      rw (take_8, take_64, offset_at, count_at, zero_at)
        (ground (arith, bytes_eq_self magic, bytes_eq_self identity))

-- What `save` publishes.
abbrev pub image_of : Bytes → ℕ → List Float → Bytes → Bytes
image_of identity offset data_ checksum =
    header identity offset (length data_) checksum ++ memory_of data_

pub length-image_of :
    (identity : Bytes) (offset : ℕ) (data_ : List Float) (checksum : Bytes)
    → length identity ≡ 64
    → length checksum ≡ 64
    → offset < 2 ^ 64
    → length data_ < 2 ^ 64
    → length (image_of identity offset data_ checksum) ≡ image_size data_
length-image_of identity offset data_ checksum i c o w = omega (
  arith,
  length-append (header identity offset (length data_) checksum) (memory_of data_),
  length-header identity offset (length data_) checksum i c o w,
  length-memory_of data_,
)

trivial_test : (a b : ℕ) → (a == a && b == b) ≡ true
trivial_test a b = ground arith

-- The image of a block reads as the block, with its key, offset and count.
pub read_image-image_of :
    (identity key : Bytes) (offset : ℕ) (data_ : List Float) (checksum : Bytes)
    → IsBlock identity key offset data_
    → digest identity key offset data_ ≡ found checksum
    → length checksum ≡ 64
    → read_image identity key offset (length data_) (image_of identity offset data_ checksum)
      ≡ found data_
unfolding read_image
read_image-image_of identity key offset data_ checksum h d c =
    let n = length data_ in
    let head = header identity offset n checksum in
    let wide : n < 2 ^ 64 = omega (arith, h.small) in
    let size = length-image_of identity offset data_ checksum h.identified c h.placed wide in
    let long = length-header identity offset n checksum h.identified c h.placed wide in
    let matches =
      matches_header-header identity offset n checksum h.identified c h.placed wide offset n in
    let both : matches_header identity offset n head ≡ true = matches ∙ trivial_test offset n in
    let sum = checksum_at identity offset n checksum h.identified c h.placed wide in
    rw
      (
        (==_iff (length (head ++ memory_of data_)) (160 + n * 4)).1 size,
        take-prefix head (memory_of data_) 160 long,
        both,
        drop-append head (memory_of data_) 160 long,
        floats_of-memory_of data_,
        h.numeric,
        d,
        sum,
        take-all checksum 64 c,
        bytes_eq_self checksum,
      )
      refl

-- At any offset and count: the block is found where they are its own, and nothing else is.
pub read_image-eq :
    (identity key : Bytes) (offset : ℕ) (data_ : List Float) (checksum : Bytes) (o' n' : ℕ)
    → IsBlock identity key offset data_
    → digest identity key offset data_ ≡ found checksum
    → length checksum ≡ 64
    → read_image identity key o' n' (image_of identity offset data_ checksum)
      ≡ (guard (offset == o' && length data_ == n') >> found data_)
unfolding read_image
read_image-eq identity key offset data_ checksum o' n' h d c =
    let n = length data_ in
    let wide : n < 2 ^ 64 = omega (arith, h.small) in
    let size = length-image_of identity offset data_ checksum h.identified c h.placed wide in
    let long = length-header identity offset n checksum h.identified c h.placed wide in
    let matches =
      matches_header-header identity offset n checksum h.identified c h.placed wide o' n' in
    elim (Bool-cases (n == n')) [
      | inr e ↦
          let off : (length (image_of identity offset data_ checksum) == 160 + n' * 4) ≡ false =
            ground (arith, size, e) in
          let no : (offset == o' && n == n') ≡ false = ground arith in rw (off, no) refl
      | inl e ↦ elim (Bool-cases (offset == o')) [
        | inr f ↦
            let on : (length (image_of identity offset data_ checksum) == 160 + n' * 4) ≡ true =
              ground (arith, size, e) in
            let no : (offset == o' && n == n') ≡ false = ground arith in
            rw
              (
                on,
                take-prefix (header identity offset n checksum) (memory_of data_) 160 long,
                matches,
                no,
              )
              refl
        | inl f ↦
            let same : o' ≡ offset = ground arith in
            let equal : n' ≡ n = ground arith in
            let yes' : (offset == offset && n == n) ≡ true = ground arith in
            unfold read_image in
            rw (same, equal, yes') (read_image-image_of identity key offset data_ checksum h d c)
      ]
    ]
