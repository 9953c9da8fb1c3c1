-- ===== src/Checkpoint/Refinement/Step.antt =====
-- One call of src/io/block_checkpoint.cpp, against the promise.
use resonantia.Checkpoint.{Float, Impl, Limits, digest, finite, memory_of, valid_key}
use resonantia.Checkpoint.Format.{IsBlock, digest-found}
use resonantia.Checkpoint.Image.{image_of}
use resonantia.Checkpoint.Open.{valid_limits}
use resonantia.Checkpoint.Refinement.{Refines, read-load_block}
use resonantia.Checkpoint.Session.{fresh_image, image_beside, image_size, minus64, prepare, read}
use resonantia.Checkpoint.Spec.{
  Block, Blocks, beside, block_at, has_room, in_bounds, is_new, load_block, lookup, total,
}
use resonantia.Outcome.{found, refused}
use resonantia.Prelude.{
  Bool-cases, Bytes, List, Option, arith, bytes_eq, false, inl, inr, leb, length, ltb, none, refl,
  some, true, ℕ, ◌&&◌, ◌-◌, ◌<◌, ◌==◌, ◌^◌, ◌∙◌, ◌≡◌, ◌≤◌, ◌⊎◌,
}

-- What `save` decides before it writes, against what the promise decides.
pub data Decision (s : Impl) (m : Blocks) (key : Bytes) (offset : ℕ) (fs : List Float)
    : Type 0 where
  rejected :
      prepare s key offset fs ≡ refused
      → is_new s.limits m key offset fs ≡ refused
      → Decision s m key offset fs
  kept :
      prepare s key offset fs ≡ found none
      → is_new s.limits m key offset fs ≡ found false
      → Decision s m key offset fs
  accepted :
      (checksum : Bytes)
      → digest s.identity key offset fs ≡ found checksum
      → length checksum ≡ 64
      → IsBlock s.identity key offset fs
      → valid_key key ≡ true
      → in_bounds s.limits (length fs) ≡ true
      → lookup key m ≡ none
      → has_room s.limits m fs ≡ true
      → prepare s key offset fs ≡ found (some (image_of s.identity offset fs checksum))
      → is_new s.limits m key offset fs ≡ found true
      → Decision s m key offset fs

-- The difference of 64-bit numbers does not wrap.
minus64-eq : (a b : ℕ) → b ≤ a → a < 2 ^ 64 → minus64 a b ≡ a - b
minus64-eq a b h k = omega arith

pub limits-small :
    (l : Limits)
    → valid_limits l ≡ true
    → (l.block_bytes ≤ 2 ^ 25) × (l.total_bytes ≤ 2 ^ 31) × (l.blocks ≤ 4096)
unfolding valid_limits
limits-small l h = ground (arith, h)

block_at-cases :
    (offset n : ℕ) (b : Option Block)
    → (block_at offset n b ≡ refused)
      ⊎ ((o : Option (List Float)) × (block_at offset n b ≡ found o))
unfolding block_at
block_at-cases offset n none = inr (none, refl)
block_at-cases offset n (some b) = elim (Bool-cases (b.offset == offset && length b.content == n)) [
  | inl e ↦ inr (some b.content, rw e refl)
  | inr e ↦ inl (rw e refl)
]

block_at-none : (offset n : ℕ) (b : Option Block) → block_at offset n b ≡ found none → b ≡ none
unfolding block_at
block_at-none offset n none h = refl
block_at-none offset n (some b) h =
    elim (Bool-cases (b.offset == offset && length b.content == n)) [
      | inl e ↦ let k = rw e at h in cc
      | inr e ↦ let k = rw e at h in cc
    ]

valid_key-short : (key : Bytes) → valid_key key ≡ true → length key ≤ 64
unfolding valid_key
valid_key-short key h = ground (arith, h)

module _ (s : Impl) (m : Blocks) (key : Bytes) (offset : ℕ) (fs : List Float) (h : Refines s m)
    (o : offset < 2 ^ 64) (v : valid_key key ≡ true) (b : in_bounds s.limits (length fs) ≡ true)
    (f : finite fs ≡ true) where
  kept-IsBlock : IsBlock s.identity key offset fs
  kept-IsBlock =
      let (small, _, _) = limits-small s.limits h.limited in
      record {
        identified = h.identified;
        named = valid_key-short key v;
        placed = o;
        small = ground (arith, small, b);
        numeric = f;
      }

  -- A block that is not there.
  decide_fresh :
      read s key offset (length fs) ≡ found none
      → load_block s.limits m key offset (length fs) ≡ found none
      → block_at offset (length fs) (lookup key m) ≡ found none
      → Decision s m key offset fs
  decide_fresh r l l' =
      let (_, whole, _) = limits-small s.limits h.limited in
      let room : (ltb s.blocks s.limits.blocks
            && leb (image_size fs) (minus64 s.limits.total_bytes s.bytes))
          ≡ has_room s.limits m fs =
        rw (h.counted, h.summed, minus64-eq s.limits.total_bytes (total m) h.fits (omega arith))
          refl in
      let (checksum, d, c) = digest-found s.identity key offset fs kept-IsBlock in
      elim (Bool-cases (has_room s.limits m fs)) [
        | inl e ↦
            accepted checksum d c kept-IsBlock v b
              (block_at-none offset (length fs) (lookup key m) l') e
              (unfold prepare image_beside fresh_image in
                rw (r, room ∙ e, d, v, b, f, h.writable) refl)
              (unfold is_new beside in rw (v, b, f, l, e) refl)
        | inr e ↦
            rejected
              (unfold prepare image_beside fresh_image in
                rw (r, room ∙ e, v, b, f, h.writable) refl)
              (unfold is_new beside in rw (v, b, f, l, e) refl)
      ]

  decide_checked : Decision s m key offset fs
  decide_checked =
      let r = read-load_block s m key offset (length fs) h in
      let l : load_block s.limits m key offset (length fs)
          ≡ block_at offset (length fs) (lookup key m) =
        unfold load_block in rw (v, b) refl in
      elim (block_at-cases offset (length fs) (lookup key m)) [
        | inl e ↦
            rejected (unfold prepare in rw (r ∙ l ∙ e, v, b, f, h.writable) refl)
              (unfold is_new in rw (v, b, f, l ∙ e) refl)
        | inr (none, e) ↦ decide_fresh (r ∙ l ∙ e) (l ∙ e) e
        | inr (some old, e) ↦ elim (Bool-cases (bytes_eq (memory_of old) (memory_of fs))) [
          | inl t ↦
              kept (unfold prepare image_beside in rw (r ∙ l ∙ e, t, v, b, f, h.writable) refl)
                (unfold is_new beside in rw (v, b, f, l ∙ e, t) refl)
          | inr t ↦
              rejected (unfold prepare image_beside in rw (r ∙ l ∙ e, t, v, b, f, h.writable) refl)
                (unfold is_new beside in rw (v, b, f, l ∙ e, t) refl)
        ]
      ]

pub decide :
    (s : Impl) (m : Blocks) (key : Bytes) (offset : ℕ) (fs : List Float)
    → Refines s m
    → offset < 2 ^ 64
    → Decision s m key offset fs
unfolding prepare is_new
decide s m key offset fs h o = elim (Bool-cases (valid_key key)) [
  | inr v ↦ rejected (rw (h.writable, v) refl) (rw v refl)
  | inl v ↦ elim (Bool-cases (in_bounds s.limits (length fs))) [
    | inr b ↦ rejected (rw (h.writable, v, b) refl) (rw (v, b) refl)
    | inl b ↦ elim (Bool-cases (finite fs)) [
      | inr f ↦ rejected (rw (h.writable, v, b, f) refl) (rw (v, b, f) refl)
      | inl f ↦ decide_checked s m key offset fs h o v b f
    ]
  ]
]
