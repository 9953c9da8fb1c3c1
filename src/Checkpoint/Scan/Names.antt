-- ===== src/Checkpoint/Scan/Names.antt =====
-- src/io/block_checkpoint.cpp: the tests of the scan, at the names that the format uses.
use mathlib.Core.List.{append_assoc}
use resonantia.Checkpoint.{
  block_name, block_suffix, ends_with, identity_name, pending_name, pending_suffix, valid_key,
  without,
}
use resonantia.Checkpoint.Names.{ne-bytes_eq, bytes_eq-ne, last, last-append}
use resonantia.Checkpoint.Open.{is_block, is_staged_block}
use resonantia.Directory.{bytes_eq_self}
use resonantia.Prelude.{
  Bool-cases, Bytes, [], ap, arith, bytes_eq, bytes_eq_iff, codes, drop, drop-append, false, inl,
  inr, length, length-append, refl, sym, take, take-append-drop, take-prefix, true, ℕ, ◌++◌, ◌-◌,
  ◌∙◌, ◌∷◌, ◌≡◌,
}

pub ends_with-append : (a s : Bytes) → ends_with s (a ++ s) ≡ true
unfolding ends_with
ends_with-append a s =
    let size = length-append a s in
    let off : length (a ++ s) - length s ≡ length a = omega (arith, size) in
    rw (off, drop-append a s (length a) refl) (ground (arith, size, bytes_eq_self s))

-- A name that ends so is so composed.
ends_with-composed : (s name : Bytes) → ends_with s name ≡ true → (a : Bytes) × (name ≡ a ++ s)
unfolding ends_with
ends_with-composed s name h =
    let n = length name - length s in
    let same : bytes_eq (drop n name) s ≡ true = ground (arith, h) in
    (
      take n name,
      sym (take-append-drop n name)
          ∙ ap (λ t. take n name ++ t) ((bytes_eq_iff (drop n name) s).0 same),
    )

pub without-append : (a s : Bytes) → without (length s) (a ++ s) ≡ a
without-append a s = take-prefix a s (length (a ++ s) - length s) (omega (arith, length-append a s))

ends_with-ne :
    (a name : Bytes) (c d : ℕ) (s t : Bytes)
    → ¬ (last c s ≡ last d t)
    → ends_with (d ∷ t) (a ++ c ∷ s) ≡ false
ends_with-ne a name c d s t h = elim (Bool-cases (ends_with (d ∷ t) (a ++ c ∷ s))) [
  | inr e ↦ e
  | inl e ↦
      let (b, same) = ends_with-composed (d ∷ t) (a ++ c ∷ s) e in
      absurd (h (sym (last-append 0 a c s) ∙ ap (last 0) same ∙ last-append 0 b d t))
]

pub is_block-block_name : (key : Bytes) → valid_key key ≡ true → is_block (block_name key) ≡ true
is_block-block_name key h =
    rw (ends_with-append key block_suffix, without-append key block_suffix) h

pub is_block-pending_name : (name : Bytes) → is_block (pending_name name) ≡ false
is_block-pending_name name =
    rw
      (ends_with-ne name [] b'.' b'.' (codes "pending") (codes "block")
        (λ (e : b'g' ≡ b'k'). absurd (omega arith)))
      refl

pub is_block-identity_name : is_block identity_name ≡ false
unfolding ends_with bytes_eq
is_block-identity_name = refl

pub is_staged_block-block_name : (key : Bytes) → is_staged_block (block_name key) ≡ false
is_staged_block-block_name key =
    rw
      (ends_with-ne key [] b'.' b'.' (codes "block") (codes "block.pending")
        (λ (e : b'k' ≡ b'g'). absurd (omega arith)))
      refl

pub is_staged_block-pending_name :
    (key : Bytes) → valid_key key ≡ true → is_staged_block (pending_name (block_name key)) ≡ true
is_staged_block-pending_name key h = rw (append_assoc key block_suffix pending_suffix) (
    rw
      (
        ends_with-append key (block_suffix ++ pending_suffix),
        without-append key (block_suffix ++ pending_suffix),
      )
      h)

pub is_staged_block-identity_name : is_staged_block identity_name ≡ false
unfolding ends_with bytes_eq
is_staged_block-identity_name = refl

pub block_name-ne-identity_name : (key : Bytes) → bytes_eq (block_name key) identity_name ≡ false
block_name-ne-identity_name key =
    bytes_eq-ne (block_name key) identity_name (λ (e : block_name key ≡ identity_name).
      let ends : b'k' ≡ b'y' = sym (last-append 0 key _ _) ∙ ap (last 0) e in absurd (omega arith))

pub pending_name-ne-identity_name :
    (name : Bytes) → bytes_eq (pending_name name) identity_name ≡ false
pending_name-ne-identity_name name =
    bytes_eq-ne (pending_name name) identity_name (λ (e : pending_name name ≡ identity_name).
      let ends : b'g' ≡ b'y' = sym (last-append 0 name _ _) ∙ ap (last 0) e in absurd (omega arith))

pub is_staged_block-is_block : (name : Bytes) → is_staged_block name ≡ true → is_block name ≡ false
is_staged_block-is_block name h =
    let ends : ends_with (block_suffix ++ pending_suffix) name ≡ true = ground (arith, h) in
    let (a, same) = ends_with-composed (block_suffix ++ pending_suffix) name ends in
    ap is_block (same ∙ sym (append_assoc a block_suffix pending_suffix))
    ∙ is_block-pending_name (a ++ block_suffix)

pub bytes_eq_comm : (a b : Bytes) → bytes_eq a b ≡ false → bytes_eq b a ≡ false
bytes_eq_comm a b h = bytes_eq-ne b a (λ (e : b ≡ a). ne-bytes_eq a b h (sym e))

pub identity_name-ne-pending_name :
    (name : Bytes) → bytes_eq identity_name (pending_name name) ≡ false
identity_name-ne-pending_name name =
    bytes_eq_comm (pending_name name) identity_name (pending_name-ne-identity_name name)
