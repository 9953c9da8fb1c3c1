-- ===== src/Checkpoint/Recovery.antt =====
-- src/io/block_checkpoint.cpp: a checkpoint opened again after its process stopped.
pub mod Reopen
pub mod Stopped
pub mod Created
pub mod Calls
use mathlib.Core.Path.{subst}
use resonantia.Checkpoint.{Limits, block_name, identity_name, manifest, pending_name, valid_key}
use resonantia.Checkpoint.Names.{block_name-ne-pending_name}
use resonantia.Checkpoint.Open.{sized, is_block}
use resonantia.Checkpoint.Publish.{after_publish}
use resonantia.Checkpoint.Refinement.{IsStored, put-Stands, Stands}
use resonantia.Checkpoint.Scan.Names.{
  block_name-ne-identity_name, bytes_eq_comm, is_block-block_name, identity_name-ne-pending_name,
  is_block-pending_name,
}
use resonantia.Checkpoint.Spec.{Block, Blocks, lookup, total}
use resonantia.Directory.{Node, Store, file, foreign, node_of, node_of-put_ne, put, vacant}
use resonantia.Prelude.{
  ◌∷◌, Bytes, arith, bytes_eq, false, length, refl, suc, sym, take, true, ℕ, ◌∙◌, ◌≡◌, ◌≤◌,
}
use resonantia.Checkpoint.Session.{image_size}
use resonantia.Checkpoint.Scan.{
  AllEntries, IsEntry, blocks_in, bytes_in, is_committed, is_staged, is_vacant, measure,
  measure-put, others_in, put-AllEntries,
}

-- Where a process stops in a publication: in front of it; with so many bytes in the staging file; behind
-- the rename.
pub data Stop : Type 0 where
  before : Stop
  writing : ℕ → Stop
  renamed : Stop

-- The directory that it leaves.
unfoldable pub left_by : Stop → Bytes → Bytes → Store → Store
left_by before name image store = store
left_by (writing n) name image store = put (pending_name name) (file (take n image)) store
left_by renamed name image store = after_publish name image store

-- A directory with the blocks `m` and the identity, and with `extra` other files at most.
pub record Holds (extra : ℕ) (limits : Limits) (id : Bytes) (store : Store) (m : Blocks)
    : Type 0 where
  pub entries : AllEntries limits store
  pub counted : measure blocks_in store ≡ length m
  pub summed : measure bytes_in store ≡ total m
  pub others : measure others_in store ≤ extra
  pub named : node_of identity_name store ≡ file (manifest id)
  pub stands : (key : Bytes) → Stands id key (lookup key m) (node_of (block_name key) store)

-- A name that is no block weighs nothing among the blocks, and a file of it is another file.
light :
    (name : Bytes) (node : Node)
    → is_block name ≡ false
    → (blocks_in name node ≡ 0) × (bytes_in name node ≡ 0)
light name vacant b = (refl, refl)
light name (file image) b = rw b (refl, refl)
light name foreign b = (refl, refl)

-- A name that is no block and not the identity, put anew.
pub put-Holds :
    {limits : Limits} {id : Bytes} {m : Blocks} (name : Bytes) (node : Node) (store : Store)
    (x y : ℕ)
    → is_block name ≡ false
    → bytes_eq identity_name name ≡ false
    → ((key : Bytes) → bytes_eq (block_name key) name ≡ false)
    → IsEntry limits name node
    → Holds x limits id store m
    → measure others_in (put name node store) ≤ y
    → Holds y limits id (put name node store) m
put-Holds {id = id} {m = m} name node store x y b i k e h less =
    let old = light name (node_of name store) b in
    let new = light name node b in
    record {
      entries = put-AllEntries _ name node store e h.entries;
      counted = omega (
        arith,
        measure-put blocks_in name node store (λ (n : Bytes). refl),
        old.0,
        new.0,
        h.counted,
      );
      summed = omega (
        arith,
        measure-put bytes_in name node store (λ (n : Bytes). refl),
        old.1,
        new.1,
        h.summed,
      );
      others = less;
      named = node_of-put_ne name identity_name node store i ∙ h.named;
      stands = λ (key : Bytes).
          subst (Stands id key (lookup key m))
            (sym (node_of-put_ne name (block_name key) node store (k key))) (h.stands key);
    }

-- A staging file comes.
pub stage-Holds :
    {limits : Limits} {id : Bytes} {m : Blocks} (key text : Bytes) (store : Store) (x : ℕ)
    → valid_key key ≡ true
    → node_of (pending_name (block_name key)) store ≡ vacant
    → Holds x limits id store m
    → Holds (suc x) limits id (put (pending_name (block_name key)) (file text) store) m
stage-Holds key text store x v z h =
    let name = pending_name (block_name key) in
    let b = is_block-pending_name (block_name key) in
    let new : others_in name (file text) ≡ 1 = rw b refl in
    put-Holds name (file text) store x (suc x) b (identity_name-ne-pending_name (block_name key))
      (λ (k : Bytes). block_name-ne-pending_name k (block_name key)) (is_staged key text v) h
      (omega
        (arith, measure-put others_in name (file text) store (λ (n : Bytes). refl), new, h.others))

-- It goes.
pub unstage-Holds :
    {limits : Limits} {id : Bytes} {m : Blocks} (key text : Bytes) (store : Store) (x : ℕ)
    → node_of (pending_name (block_name key)) store ≡ file text
    → Holds (suc x) limits id store m
    → Holds x limits id (put (pending_name (block_name key)) vacant store) m
unstage-Holds key text store x z h =
    let name = pending_name (block_name key) in
    let b = is_block-pending_name (block_name key) in
    let old : others_in name (node_of name store) ≡ 1 = rw z (rw b refl) in
    put-Holds name vacant store (suc x) x b (identity_name-ne-pending_name (block_name key))
      (λ (k : Bytes). block_name-ne-pending_name k (block_name key)) (is_vacant name) h
      (omega (arith, measure-put others_in name vacant store (λ (n : Bytes). refl), old, h.others))

-- A block that is not there comes.
pub block-Holds :
    {limits : Limits} {id : Bytes} {m : Blocks} (key image : Bytes) (b : Block) (store : Store)
    (x : ℕ)
    → valid_key key ≡ true
    → sized limits (length image) ≡ true
    → length image ≡ image_size b.content
    → node_of (block_name key) store ≡ vacant
    → IsStored id key b (file image)
    → Holds x limits id store m
    → Holds x limits id (put (block_name key) (file image) store) ((key, b) ∷ m)
block-Holds {id = id} {m = m} key image b store x v s size z w h =
    let name = block_name key in
    let is = is_block-block_name key v in
    let one : blocks_in name (file image) ≡ 1 = rw is refl in
    let all : bytes_in name (file image) ≡ length image = rw is refl in
    let none' : others_in name (file image) ≡ 0 = rw is refl in
    let gone : (blocks_in name (node_of name store) ≡ 0)
        × (bytes_in name (node_of name store) ≡ 0)
        × (others_in name (node_of name store) ≡ 0) =
      rw z (refl, refl, refl) in
    record {
      entries = put-AllEntries _ name (file image) store (is_committed key image v s) h.entries;
      counted = omega (
        arith,
        measure-put blocks_in name (file image) store (λ (n : Bytes). refl),
        one,
        gone.0,
        h.counted,
      );
      summed = omega (
        arith,
        measure-put bytes_in name (file image) store (λ (n : Bytes). refl),
        all,
        gone.1,
        h.summed,
        size,
      );
      others = omega (
        arith,
        measure-put others_in name (file image) store (λ (n : Bytes). refl),
        none',
        gone.2,
        h.others,
      );
      named =
          node_of-put_ne name identity_name (file image) store
            (bytes_eq_comm name identity_name (block_name-ne-identity_name key))
          ∙ h.named;
      stands = λ (k : Bytes). put-Stands m key image b store k w (h.stands k);
    }

pub Holds_more :
    {limits : Limits} {id : Bytes} {store : Store} {m : Blocks} (x : ℕ)
    → Holds x limits id store m
    → Holds (suc x) limits id store m
Holds_more x h = record {
  entries = h.entries;
  counted = h.counted;
  summed = h.summed;
  others = omega (arith, h.others);
  named = h.named;
  stands = h.stands;
}
