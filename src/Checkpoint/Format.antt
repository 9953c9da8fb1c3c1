-- ===== src/Checkpoint/Format.antt =====
-- src/io/block_checkpoint.cpp: a block's image, written and read back.
use mathlib.Core.List.{List}
use native.Mathlib.Nat.{pow-suc}
use resonantia.Checkpoint.{
  finish, Float, digest, finite, floats_of, line, little_endian, memory_of, prefix_of, put64,
  value_of,
}
use resonantia.Digest.{update, initial, sha256}
use resonantia.Digest.Stream.{update_twice, initial-IsStream, length-finish, update-found}
use resonantia.Outcome.{>>=_assoc, ◌>>=◌, found}
use resonantia.Prelude.{
  drop, take, Bytes, [], ap, arith, drop-append, length, length-append, refl, suc, take-prefix,
  true, zero, ℕ, ◌%◌, ◌*◌, ◌++◌, ◌+◌, ◌/◌, ◌<◌, ◌^◌, ◌∙◌, ◌∷◌, ◌≡◌, ◌≤◌,
}
use resonantia.Prelude.Decimal.{length-digits_of, to_string}

length-little_endian : (k v : ℕ) (rest : Bytes) → length (little_endian k v rest) ≡ k + length rest
unfolding little_endian
length-little_endian zero v rest = omega arith
length-little_endian (suc k) v rest = omega (arith, length-little_endian k (v / 256) rest)

little_endian-append :
    (k v : ℕ) (rest : Bytes) → little_endian k v rest ≡ little_endian k v [] ++ rest
unfolding little_endian
little_endian-append zero v rest = refl
little_endian-append (suc k) v rest = ap (◌∷◌ (v % 256)) (little_endian-append k (v / 256) rest)

value_of-little_endian : (k v : ℕ) → v < 256 ^ k → value_of (little_endian k v []) ≡ v
unfolding little_endian value_of
value_of-little_endian zero v h = omega arith
value_of-little_endian (suc k) v h =
    let more = value_of-little_endian k (v / 256) (omega (arith, pow-suc 256 k)) in
    omega (arith, more)

pub length-put64 : (v : ℕ) (rest : Bytes) → length (put64 v rest) ≡ 8 + length rest
unfolding put64
length-put64 v rest = length-little_endian 8 v rest

put64-append : (v : ℕ) (rest : Bytes) → put64 v rest ≡ put64 v [] ++ rest
unfolding put64
put64-append v rest = little_endian-append 8 v rest

pub drop-put64 : (v : ℕ) (rest : Bytes) → drop 8 (put64 v rest) ≡ rest
drop-put64 v rest =
    ap (drop 8) (put64-append v rest) ∙ drop-append (put64 v []) rest 8 (length-put64 v [])

pub value_of-put64 : (v : ℕ) (rest : Bytes) → v < 2 ^ 64 → value_of (take 8 (put64 v rest)) ≡ v
value_of-put64 v rest h =
    ap (λ s. value_of (take 8 s)) (put64-append v rest)
    ∙ ap value_of (take-prefix (put64 v []) rest 8 (length-put64 v []))
    ∙ unfold put64 in value_of-little_endian 8 v (omega arith)

pub floats_of-memory_of : (fs : List Float) → floats_of (memory_of fs) ≡ fs
unfolding floats_of memory_of
floats_of-memory_of [] = refl
floats_of-memory_of (f ∷ fs) = ap (◌∷◌ f) (floats_of-memory_of fs)

pub length-memory_of : (fs : List Float) → length (memory_of fs) ≡ length fs * 4
unfolding memory_of
length-memory_of [] = refl
length-memory_of (f ∷ fs) = omega (arith, length-memory_of fs)

length-to_string : (n : ℕ) → length (to_string n) ≤ 20
unfolding to_string
length-to_string n = omega (arith, length-digits_of 19 n [])

length-line : (s rest : Bytes) → length (line s rest) ≡ length s + suc (length rest)
length-line s rest = length-append s (b'\n' ∷ rest)

-- What `save` and the constructor know of a block.
pub record IsBlock (identity key : Bytes) (offset : ℕ) (data_ : List Float) : Type 0 where
  pub identified : length identity ≡ 64
  pub named : length key ≤ 64
  pub placed : offset < 2 ^ 64
  pub small : length data_ < 2 ^ 32
  pub numeric : finite data_ ≡ true

length-prefix_of :
    (identity key : Bytes) (offset count : ℕ)
    → length identity ≡ 64
    → length key ≤ 64
    → length (prefix_of identity key offset count) < 2 ^ 10
unfolding prefix_of
length-prefix_of identity key offset count h k =
    let third = line (to_string count) [] in
    let second = line (to_string offset) third in
    omega (
      arith,
      length-line identity (line key second),
      length-line key second,
      length-line (to_string offset) third,
      length-line (to_string count) [],
      length-to_string offset,
      length-to_string count,
    )

-- The checksum is the digest of the prefix and the memory in one piece.
pub digest-sha256 :
    (identity key : Bytes) (offset : ℕ) (data_ : List Float)
    → digest identity key offset data_
      ≡ sha256 (prefix_of identity key offset (length data_) ++ memory_of data_)
unfolding digest sha256
digest-sha256 identity key offset data_ =
    let text = prefix_of identity key offset (length data_) in
    >>=_assoc (update initial text) (λ h. update h (memory_of data_)) (λ h'. found (finish h'))
    ∙ ap (λ o. o >>= λ h. found (finish h))
        (update_twice initial text (memory_of data_) initial-IsStream)

pub digest-found :
    (identity key : Bytes) (offset : ℕ) (data_ : List Float)
    → IsBlock identity key offset data_
    → (checksum : Bytes) × (digest identity key offset data_ ≡ found checksum)
      × (length checksum ≡ 64)
unfolding sha256
digest-found identity key offset data_ h =
    let text = prefix_of identity key offset (length data_) ++ memory_of data_ in
    let size = length-prefix_of identity key offset (length data_) h.identified h.named in
    let (t, e, _, _) = update-found initial text initial-IsStream (
      omega (
        arith,
        length-append (prefix_of identity key offset (length data_)) (memory_of data_),
        length-memory_of data_,
        h.small,
      )) in
    (finish t, digest-sha256 identity key offset data_ ∙ rw e refl, length-finish t)
