-- ===== src/Checkpoint/Recovery/Created.antt =====
-- src/io/block_checkpoint.cpp: a checkpoint from its creation on.
use resonantia.Digest.{valid_digest}
use resonantia.Checkpoint.{
  line, manifest_head, Impl, Limits, block_name, create, identity_name, manifest, pending_name,
  pending_suffix,
}
use resonantia.Checkpoint.Names.{block_name-ne-pending_name, suffixed-ne}
use resonantia.Checkpoint.Open.{
  identity_in, stored_identity, check_open, initialized, initializes, open_as, open_checkpoint,
  opened, opened_synced, scan_loop, valid_limits,
}
use resonantia.Checkpoint.Recovery.{Holds}
use resonantia.Checkpoint.Recovery.Reopen.{valid_digest-length}
use resonantia.Checkpoint.Refinement.{Refines}
use resonantia.Checkpoint.Scan.{is_identity, is_vacant, measure}
use resonantia.Checkpoint.Scan.Names.{
  block_name-ne-identity_name, is_block-identity_name, pending_name-ne-identity_name,
}
use resonantia.Checkpoint.Session.{publish, publish_as, sound}
use resonantia.Checkpoint.Spec.{Blocks, lookup}
use resonantia.Directory.{bytes_eq_self, Store, file, node_of, put, vacant}
use resonantia.Outcome.{found}
use resonantia.Prelude.{
  ==_iff, drop, drop-append, drop-drop, length, length-append, take, take-prefix, sym, Bytes, [],
  ap, arith, bytes_eq, refl, true, ◌∙◌, ◌∷◌, ◌≡◌,
}

-- The directory that the constructor makes, and the session on it.
abbrev pub first_store : Bytes → Store
first_store id = (pending_name identity_name, vacant) ∷ (identity_name, file (manifest id)) ∷ []

abbrev pub first_session : Limits → Bytes → Impl
first_session limits id =
    opened create limits id (record { blocks = 0; bytes = 0 }) (first_store id)

publish-identity :
    (id : Bytes) → publish sound identity_name (manifest id) [] ≡ (first_store id, found tt)
unfolding publish publish_as put bytes_eq node_of
publish-identity id = refl

pub create-first :
    (limits : Limits) (id : Bytes)
    → valid_digest id ≡ true
    → valid_limits limits ≡ true
    → open_checkpoint true sound true create limits id []
      ≡ (first_store id, found (first_session limits id))
unfolding open_checkpoint open_as initialized scan_loop
create-first limits id v l =
    let checked : check_open true create limits id [] ≡ found true =
      unfold check_open initializes in rw (v, l) refl in
    ap (open_as sound true create limits id []) checked
    ∙ ap (opened_synced create limits id (record { blocks = 0; bytes = 0 }) true)
        (publish-identity id)

first_block : (id key : Bytes) → node_of (block_name key) (first_store id) ≡ vacant
unfolding node_of
first_block id key =
    rw (block_name-ne-pending_name key identity_name, block_name-ne-identity_name key) refl

first_staged : (id key : Bytes) → node_of (pending_name (block_name key)) (first_store id) ≡ vacant
unfolding node_of
first_staged id key =
    rw
      (
        suffixed-ne (block_name key) identity_name pending_suffix (block_name-ne-identity_name key),
        pending_name-ne-identity_name (block_name key),
      )
      refl

pub first-Refines :
    (limits : Limits) (id : Bytes)
    → valid_digest id ≡ true
    → valid_limits limits ≡ true
    → Refines (first_session limits id) []
unfolding lookup
first-Refines limits id v l = record {
  well = refl;
  writable = refl;
  identified = valid_digest-length id v;
  limited = l;
  counted = refl;
  summed = refl;
  few = omega arith;
  fits = omega arith;
  unstaged = first_staged id;
  stands = first_block id;
}

first-Holds : (limits : Limits) (id : Bytes) → Holds 1 limits id (first_store id) []
unfolding lookup measure node_of bytes_eq
first-Holds limits id = record {
  entries = (is_vacant _, (is_identity _, tt));
  counted = rw is_block-identity_name refl;
  summed = rw is_block-identity_name refl;
  others = rw is_block-identity_name (omega arith);
  named = refl;
  stands = first_block id;
}

-- What holds of a session that was created with these limits and this identity.
pub record Reached (limits : Limits) (id : Bytes) (s : Impl) (m : Blocks) : Type 0 where
  pub refines : Refines s m
  pub holds : Holds 1 limits id s.store m
  pub same_limits : s.limits ≡ limits
  pub same_id : s.identity ≡ id

pub first-Reached :
    (limits : Limits) (id : Bytes)
    → valid_digest id ≡ true
    → valid_limits limits ≡ true
    → Reached limits id (first_session limits id) []
first-Reached limits id v l = record {
  refines = first-Refines limits id v l;
  holds = first-Holds limits id;
  same_limits = refl;
  same_id = refl;
}

-- What `stored_identity` reads in a directory with a manifest is the identity that it was written for.
pub stored_identity-manifest :
    (id : Bytes) (store : Store)
    → valid_digest id ≡ true
    → node_of identity_name store ≡ file (manifest id)
    → stored_identity store ≡ found id
unfolding stored_identity identity_in
stored_identity-manifest id store v e =
    let wide = valid_digest-length id v in
    let size : length (manifest id) ≡ 85 =
      omega
        (arith, length-append manifest_head (line id []), length-append id (b'\n' ∷ []), wide) in
    let tail = line id [] in
    let at = drop-append manifest_head tail 20 refl in
    let end : drop 84 (manifest id) ≡ b'\n' ∷ [] =
      sym (drop-drop 64 20 (manifest id)) ∙ ap (drop 64) at ∙ drop-append id (b'\n' ∷ []) 64 wide in
    let head = take-prefix manifest_head tail 20 refl in
    let id' : take 64 (drop 20 (manifest id)) ≡ id =
      ap (take 64) at ∙ take-prefix id (b'\n' ∷ []) 64 wide in
    ap identity_in e
    ∙ rw
        (
          (==_iff (length (manifest id)) 85).1 size,
          id',
          head,
          end,
          bytes_eq_self manifest_head,
          bytes_eq_self (b'\n' ∷ []),
          v,
        )
        refl
