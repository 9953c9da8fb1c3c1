-- ===== src/Checkpoint/Refinement.antt =====
-- src/io/block_checkpoint.cpp keeps the promise of `Spec`.
pub mod Step
pub mod Run
use mathlib.Core.Path.{subst}
use resonantia.Checkpoint.{block_suffix, Impl, block_name, digest, pending_name}
use resonantia.Checkpoint.Format.{IsBlock}
use resonantia.Checkpoint.Image.{image_of, read_image-eq}
use resonantia.Checkpoint.Open.{valid_limits}
use resonantia.Checkpoint.Session.{read, read_block}
use resonantia.Checkpoint.Spec.{Block, Blocks, block_at, load_block, lookup, total}
use resonantia.Directory.{Store, node_of-put_ne, node_of-put_self, put, Node, file, node_of, vacant}
use resonantia.Outcome.{found}
use resonantia.Prelude.{
  ap, bytes_eq, bytes_eq_iff, sym, ◌∙◌, ◌∷◌, Bool-cases, Bytes, Option, false, inl, inr, length,
  none, refl, some, true, ℕ, ◌&&◌, ◌==◌, ◌≡◌, ◌≤◌,
}
use resonantia.Checkpoint.Names.{suffixed-ne}

-- What stands under a block's name.
pub record IsStored (identity key : Bytes) (b : Block) (node : Node) : Type 0 where
  pub checksum : Bytes
  pub summed : digest identity key b.offset b.content ≡ found checksum
  pub wide : length checksum ≡ 64
  pub block : IsBlock identity key b.offset b.content
  pub written : node ≡ file (image_of identity b.offset b.content checksum)

abbrev pub Stands : Bytes → Bytes → Option Block → Node → Type 0
Stands identity key none node = node ≡ vacant
Stands identity key (some b) node = IsStored identity key b node

read_block-block_at :
    (identity key : Bytes) (offset n : ℕ) (b : Option Block) (node : Node)
    → Stands identity key b node
    → read_block identity key offset n node ≡ block_at offset n b
unfolding read_block block_at
read_block-block_at identity key offset n none node h = rw h refl
read_block-block_at identity key offset n (some b) node h =
    rw
      (
        h.written,
        read_image-eq identity key b.offset b.content h.checksum offset n h.block h.summed h.wide,
      )
      (elim (Bool-cases (b.offset == offset && length b.content == n)) [
        | inl e ↦ rw e refl
        | inr e ↦ rw e refl
      ])

-- A session that holds the blocks `m`.
pub record Refines (s : Impl) (m : Blocks) : Type 0 where
  pub well : s.healthy ≡ true
  pub writable : s.is_read_only ≡ false
  pub identified : length s.identity ≡ 64
  pub limited : valid_limits s.limits ≡ true
  pub counted : s.blocks ≡ length m
  pub summed : s.bytes ≡ total m
  pub few : length m ≤ s.limits.blocks
  pub fits : total m ≤ s.limits.total_bytes
  pub unstaged : (key : Bytes) → node_of (pending_name (block_name key)) s.store ≡ vacant
  pub stands :
      (key : Bytes) → Stands s.identity key (lookup key m) (node_of (block_name key) s.store)

pub read-load_block :
    (s : Impl) (m : Blocks) (key : Bytes) (offset n : ℕ)
    → Refines s m
    → read s key offset n ≡ load_block s.limits m key offset n
unfolding read load_block
read-load_block s m key offset n h =
    rw
      (
        h.well,
        read_block-block_at s.identity key offset n (lookup key m)
            (node_of (block_name key) s.store) (h.stands key),
      )
      refl

-- A block's file, put anew, stands for it, and the others stand as before.
pub put-Stands :
    {identity : Bytes} (m : Blocks) (key image : Bytes) (b : Block) (store : Store) (k : Bytes)
    → IsStored identity key b (file image)
    → Stands identity k (lookup k m) (node_of (block_name k) store)
    → Stands identity k
        (lookup k ((key, b) ∷ m))
        (node_of (block_name k) (put (block_name key) (file image) store))
unfolding lookup
put-Stands {identity = identity} m key image b store k w h = elim (Bool-cases (bytes_eq k key)) [
  | inl e ↦
      let same : k ≡ key = (bytes_eq_iff k key).0 e in
      let name = block_name key in
      let at : node_of (block_name k) (put name (file image) store) ≡ file image =
        ap (λ x. node_of (block_name x) (put name (file image) store)) same
        ∙ node_of-put_self name (file image) store in
      rw (e, at) (subst (λ x. IsStored identity x b (file image)) (sym same) w)
  | inr e ↦
      let at =
        node_of-put_ne (block_name key) (block_name k) (file image) store
          (suffixed-ne k key block_suffix e) in
      rw (e, at) h
]
