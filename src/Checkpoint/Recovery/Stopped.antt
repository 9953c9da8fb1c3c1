-- ===== src/Checkpoint/Recovery/Stopped.antt =====
-- src/io/block_checkpoint.cpp: a process that stops in a publication, and the next that resumes.
use mathlib.Core.Path.{subst}
use resonantia.Checkpoint.{Float, Impl, block_name, pending_name, valid_key}
use resonantia.Checkpoint.Image.{image_of, length-image_of}
use resonantia.Checkpoint.Names.{block_name-ne-pending_name}
use resonantia.Checkpoint.Open.{sized}
use resonantia.Checkpoint.Publish.{after_publish}
use resonantia.Checkpoint.Recovery.{
  Holds, Holds_more, Stop, before, block-Holds, left_by, renamed, stage-Holds, unstage-Holds,
  writing,
}
use resonantia.Checkpoint.Refinement.{IsStored, Refines, Stands}
use resonantia.Checkpoint.Refinement.Step.{accepted, decide, kept, rejected}
use resonantia.Checkpoint.Session.{image_size, prepare}
use resonantia.Checkpoint.Spec.{Blocks, has_room, lookup, total}
use resonantia.Directory.{file, node_of, node_of-put_ne, node_of-put_self, put, vacant}
use resonantia.Outcome.{found, refused}
use resonantia.Prelude.{
  Bytes, List, ap, arith, length, none, some, suc, sym, take, true, ℕ, ◌-◌, ◌<◌, ◌^◌, ◌∙◌, ◌∷◌, ◌≡◌,
  ◌≤◌,
}

-- The blocks that stand behind a stop.
abbrev pub standing : Stop → Bytes → ℕ → List Float → Blocks → Blocks
standing before key offset fs m = m
standing (writing n) key offset fs m = m
standing renamed key offset fs m = (key, record { offset = offset; content = fs }) ∷ m

-- An accepted save, with the image that it publishes.
pub record Accepted (s : Impl) (m : Blocks) (key : Bytes) (offset : ℕ) (fs : List Float)
    (image : Bytes) : Type 0 where
  pub stored : IsStored s.identity key (record { offset = offset; content = fs }) (file image)
  pub valid : valid_key key ≡ true
  pub fresh : lookup key m ≡ none
  pub room : has_room s.limits m fs ≡ true
  pub whole : length image ≡ image_size fs
  pub fits : sized s.limits (length image) ≡ true

pub prepare-Accepted :
    (s : Impl) (m : Blocks) (key : Bytes) (offset : ℕ) (fs : List Float) (image : Bytes)
    → Refines s m
    → offset < 2 ^ 64
    → prepare s key offset fs ≡ found (some image)
    → Accepted s m key offset fs image
prepare-Accepted s m key offset fs image h o p = elim (decide s m key offset fs h o) [
  | rejected p' q ↦ let no : refused ≡ found (some image) = sym p' ∙ p in cc
  | kept p' q ↦ let no : found none ≡ found (some image) = sym p' ∙ p in cc
  | accepted checksum d c i v b z r p' q ↦
      let same : found (some image) ≡ found (some (image_of s.identity offset fs checksum)) =
        sym p ∙ p' in
      let image-eq : image ≡ image_of s.identity offset fs checksum = cc in
      let size : length image ≡ image_size fs =
        ap length image-eq
        ∙ length-image_of s.identity offset fs checksum i.identified c i.placed
            (omega (arith, i.small)) in
      record {
        stored = record {
          checksum = checksum;
          summed = d;
          wide = c;
          block = i;
          written = ap file image-eq;
        };
        valid = v;
        fresh = z;
        room = r;
        whole = size;
        fits = ground (arith, size, b);
      }
]

-- Under a key that is not there stands nothing.
vacant_at :
    (s : Impl) (m : Blocks) (key : Bytes)
    → Refines s m
    → lookup key m ≡ none
    → node_of (block_name key) s.store ≡ vacant
vacant_at s m key h z =
    subst (λ b. Stands s.identity key b (node_of (block_name key) s.store)) z (h.stands key)

-- A whole publication: the staging file comes and goes, and the block stands.
pub published-Holds :
    (s : Impl) (m : Blocks) (key : Bytes) (offset : ℕ) (fs : List Float) (image : Bytes) (extra : ℕ)
    → Refines s m
    → Holds extra s.limits s.identity s.store m
    → Accepted s m key offset fs image
    → Holds extra s.limits s.identity
        (after_publish (block_name key) image s.store)
        ((key, record { offset = offset; content = fs }) ∷ m)
published-Holds s m key offset fs image extra h g a =
    let name = pending_name (block_name key) in
    let staged = put name (file image) s.store in
    let off = block_name-ne-pending_name key (block_name key) in
    let there = stage-Holds key image s.store extra a.valid (h.unstaged key) g in
    let gone =
      unstage-Holds key image staged extra (node_of-put_self name (file image) s.store) there in
    let still : node_of (block_name key) (put name vacant staged) ≡ vacant =
      node_of-put_ne name (block_name key) vacant staged off
      ∙ node_of-put_ne name (block_name key) (file image) s.store off
      ∙ vacant_at s m key h a.fresh in
    block-Holds key image (record { offset = offset; content = fs }) (put name vacant staged) extra
      a.valid a.fits a.whole still a.stored gone

pub left_by-Holds :
    (stop : Stop) (s : Impl) (m : Blocks) (key : Bytes) (offset : ℕ) (fs : List Float)
    (image : Bytes) (extra : ℕ)
    → Refines s m
    → Holds extra s.limits s.identity s.store m
    → Accepted s m key offset fs image
    → Holds
        (suc extra)
        s.limits
        s.identity
        (left_by stop (block_name key) image s.store)
        (standing stop key offset fs m)
unfolding left_by
left_by-Holds before s m key offset fs image extra h g a = Holds_more extra g
left_by-Holds (writing n) s m key offset fs image extra h g a =
    stage-Holds key (take n image) s.store extra a.valid (h.unstaged key) g
left_by-Holds renamed s m key offset fs image extra h g a =
    Holds_more extra (published-Holds s m key offset fs image extra h g a)

-- The blocks of an accepted save are within the limits.
pub standing-fits :
    (stop : Stop) (s : Impl) (m : Blocks) (key : Bytes) (offset : ℕ) (fs : List Float)
    (image : Bytes)
    → Refines s m
    → Accepted s m key offset fs image
    → (length (standing stop key offset fs m) ≤ s.limits.blocks)
      × (total (standing stop key offset fs m) ≤ s.limits.total_bytes)
standing-fits before s m key offset fs image h a = (h.few, h.fits)
standing-fits (writing n) s m key offset fs image h a = (h.few, h.fits)
standing-fits renamed s m key offset fs image h a =
    let room : (length m < s.limits.blocks) × (image_size fs ≤ s.limits.total_bytes - total m) =
      ground (arith, a.room) in
    (omega (arith, room.0), omega (arith, room.1, h.fits))
