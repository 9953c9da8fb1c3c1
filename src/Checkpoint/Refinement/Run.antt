-- ===== src/Checkpoint/Refinement/Run.antt =====
-- Any calls of src/io/block_checkpoint.cpp, against the promise.
use resonantia.Checkpoint.{Float, Impl, block_name, pending_name}
use resonantia.Checkpoint.Image.{image_of}
use resonantia.Checkpoint.Names.{block_name-ne-pending_name, pending_name-ne-block_name}
use resonantia.Checkpoint.Publish.{after_publish, publish-node_of, publish-sound}
use resonantia.Checkpoint.Refinement.{put-Stands, read-load_block, IsStored, Refines, Stands}
use resonantia.Checkpoint.Refinement.Step.{limits-small, accepted, decide, kept, rejected}
use resonantia.Checkpoint.Session.{load, read, with_hit, image_size, save, sound}
use resonantia.Checkpoint.Spec.{
  InRange, performed, promised, Blocks, Call, has_room, loading, lookup, offset_of, perform,
  promise, save_block, saving, total,
}
use resonantia.Directory.{file, node_of, node_of-put_ne, put, vacant, node_of-put_self}
use resonantia.Prelude.{
  Option, [], none, some, Bool-cases, Bytes, List, ap, arith, bytes_eq, bytes_eq_iff, false, inl,
  inr, length, refl, sym, true, ℕ, ◌%◌, ◌+◌, ◌-◌, ◌<◌, ◌^◌, ◌∙◌, ◌∷◌, ◌≡◌, ◌≤◌,
}
use resonantia.Outcome.{Outcome, found, refused, spent}

-- The session behind a publication.
abbrev committed : Impl → Bytes → List Float → Bytes → Impl
committed s key fs image = record s {
  store = after_publish (block_name key) image s.store;
  blocks = (s.blocks + 1) % 2 ^ 32;
  bytes = (s.bytes + image_size fs) % 2 ^ 64;
}

module _ (s : Impl) (m : Blocks) (key : Bytes) (offset : ℕ) (fs : List Float) (image : Bytes)
    (h : Refines s m) where
  other_name :
      (other : Bytes)
      → bytes_eq other (block_name key) ≡ false
      → bytes_eq other (pending_name (block_name key)) ≡ false
      → node_of other (after_publish (block_name key) image s.store) ≡ node_of other s.store
  other_name other p q =
      ap (λ r. node_of other r.0)
        (sym (publish-sound (block_name key) image s.store (h.unstaged key)))
      ∙ publish-node_of sound (block_name key) image other s.store p q

  still_unstaged :
      (k : Bytes)
      → node_of (pending_name (block_name k)) (after_publish (block_name key) image s.store)
        ≡ vacant
  still_unstaged k =
      let off = pending_name-ne-block_name (block_name k) key in
      let staged = put (pending_name (block_name key)) (file image) s.store in
      elim (Bool-cases (bytes_eq (pending_name (block_name k)) (pending_name (block_name key)))) [
        | inl e ↦
            let same =
              (bytes_eq_iff (pending_name (block_name k)) (pending_name (block_name key))).0 e in
            node_of-put_ne (block_name key) (pending_name (block_name k)) (file image)
              (put (pending_name (block_name key)) vacant staged) off
            ∙ ap (λ name. node_of name (put (pending_name (block_name key)) vacant staged)) same
            ∙ node_of-put_self (pending_name (block_name key)) vacant staged
        | inr e ↦ other_name (pending_name (block_name k)) off e ∙ h.unstaged k
      ]

  still-Stands :
      IsStored s.identity key (record { offset = offset; content = fs }) (file image)
      → (k : Bytes)
      → Stands s.identity k
          (lookup k ((key, record { offset = offset; content = fs }) ∷ m))
          (node_of (block_name k) (after_publish (block_name key) image s.store))
  still-Stands w k =
      let name = pending_name (block_name key) in
      let staged = put name (file image) s.store in
      let off = block_name-ne-pending_name k (block_name key) in
      put-Stands m key image (record { offset = offset; content = fs }) (put name vacant staged) k w
        (rw
          (
            node_of-put_ne name (block_name k) vacant staged off,
            node_of-put_ne name (block_name k) (file image) s.store off,
          )
          (h.stands k))

  committed-Refines :
      IsStored s.identity key (record { offset = offset; content = fs }) (file image)
      → has_room s.limits m fs ≡ true
      → Refines (committed s key fs image) ((key, record { offset = offset; content = fs }) ∷ m)
  committed-Refines w r =
      let (_, whole, most) = limits-small s.limits h.limited in
      let room : (length m < s.limits.blocks) × (image_size fs ≤ s.limits.total_bytes - total m) =
        ground (arith, r) in
      let size : 0 < image_size fs = omega arith in
      record {
        well = h.well;
        writable = h.writable;
        identified = h.identified;
        limited = h.limited;
        counted = omega (arith, h.counted, room.0, most);
        summed = omega (arith, h.summed, room.1, whole, h.fits, size);
        few = omega (arith, room.0);
        fits = omega (arith, room.1, h.fits, size);
        unstaged = still_unstaged;
        stands = still-Stands w;
      }

-- Only the count of hits changes.
hit-Refines :
    (s : Impl) (m : Blocks) (value : Outcome (Option (List Float)))
    → Refines s m
    → Refines (with_hit s value) m × ((with_hit s value).limits ≡ s.limits)
hit-Refines s m (found (some _)) h = (
  record {
    well = h.well;
    writable = h.writable;
    identified = h.identified;
    limited = h.limited;
    counted = h.counted;
    summed = h.summed;
    few = h.few;
    fits = h.fits;
    unstaged = h.unstaged;
    stands = h.stands;
  },
  refl,
)
hit-Refines s m (found none) h = (h, refl)
hit-Refines s m refused h = (h, refl)
hit-Refines s m spent h = (h, refl)

-- A call answers as promised, and leaves a session that holds what was promised.
pub perform-promise :
    (c : Call) (s : Impl) (m : Blocks)
    → Refines s m
    → offset_of c < 2 ^ 64
    → ((perform c s).1 ≡ (promise s.limits c m).1)
      × Refines (perform c s).0 (promise s.limits c m).0
      × ((perform c s).0.limits ≡ s.limits)
unfolding perform promise save save_block
perform-promise (loading key offset n) s m h o =
    let (r, l) = hit-Refines s m (read s key offset n) h in
    unfold load in (read-load_block s m key offset n h, r, l)
perform-promise (saving key offset fs) s m h o = elim (decide s m key offset fs h o) [
  | rejected p q ↦ rw (p, q, save, save_block) (refl, h, refl)
  | kept p q ↦ rw (p, q, save, save_block) (refl, h, refl)
  | accepted checksum d c i v b z r p q ↦
      let image = image_of s.identity offset fs checksum in
      let w : IsStored s.identity key (record { offset = offset; content = fs }) (file image) =
        record { checksum = checksum; summed = d; wide = c; block = i; written = refl } in
      rw (p, q, save, save_block, publish-sound (block_name key) image s.store (h.unstaged key))
        (refl, committed-Refines s m key offset fs image h w r, refl)
]

-- Whatever the calls, a session on a disk that does not fail answers each of them as the map of blocks
-- does that is written once: files, headers, checksums and counters show in no answer.
pub performed-promised :
    (cs : List Call) (s : Impl) (m : Blocks)
    → Refines s m
    → InRange cs
    → performed cs s ≡ promised s.limits cs m
unfolding performed promised
performed-promised [] s m h o = refl
performed-promised (c ∷ cs) s m h o =
    let (answer, next, same) = perform-promise c s m h o.0 in
    rw (answer, performed-promised cs (perform c s).0 (promise s.limits c m).0 next o.1, same) refl
