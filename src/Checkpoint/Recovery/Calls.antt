-- ===== src/Checkpoint/Recovery/Calls.antt =====
-- src/io/block_checkpoint.cpp: a checkpoint that is created, called, stopped and resumed.
use mathlib.Core.Path.{subst}
use resonantia.Digest.{valid_digest}
use resonantia.Checkpoint.{Float, Impl, Limits, block_name, create, resume}
use resonantia.Checkpoint.Image.{image_of}
use resonantia.Checkpoint.Open.{open_checkpoint, valid_limits}
use resonantia.Checkpoint.Publish.{publish-sound}
use resonantia.Checkpoint.Recovery.{Holds, Stop, left_by}
use resonantia.Checkpoint.Recovery.Created.{
  Reached, create-first, first-Reached, first-Refines, first_session,
}
use resonantia.Checkpoint.Recovery.Reopen.{Holds-Resumed}
use resonantia.Checkpoint.Recovery.Stopped.{
  left_by-Holds, prepare-Accepted, published-Holds, standing, standing-fits,
}
use resonantia.Checkpoint.Refinement.{Refines}
use resonantia.Checkpoint.Refinement.Run.{perform-promise, performed-promised}
use resonantia.Checkpoint.Refinement.Step.{accepted, decide, kept, rejected}
use resonantia.Checkpoint.Session.{Disk, load, prepare, read, save, sound, with_hit}
use resonantia.Checkpoint.Spec.{
  Blocks, Call, InRange, loading, offset_of, perform, performed, performed_after, promise, promised,
  promised_after, save_block, saving,
}
use resonantia.Directory.{Store}
use resonantia.Outcome.{Outcome, found, refused, spent}
use resonantia.Prelude.{
  Bytes, List, Option, [], ap, arith, none, refl, some, sym, true, ℕ, ◌<◌, ◌^◌, ◌∙◌, ◌∷◌, ◌≡◌,
}

with_hit-same :
    (s : Impl) (value : Outcome (Option (List Float)))
    → ((with_hit s value).store ≡ s.store) × ((with_hit s value).identity ≡ s.identity)
with_hit-same s (found (some _)) = (refl, refl)
with_hit-same s (found none) = (refl, refl)
with_hit-same s refused = (refl, refl)
with_hit-same s spent = (refl, refl)

-- The directory behind a call.
perform-Holds :
    (c : Call) (s : Impl) (m : Blocks)
    → Refines s m
    → Holds 1 s.limits s.identity s.store m
    → offset_of c < 2 ^ 64
    → Holds 1 s.limits s.identity (perform c s).0.store (promise s.limits c m).0
      × ((perform c s).0.identity ≡ s.identity)
unfolding perform promise save save_block
perform-Holds (loading key offset n) s m h g o =
    let (e, f) = with_hit-same s (read s key offset n) in unfold load in (rw e g, f)
perform-Holds (saving key offset fs) s m h g o = elim (decide s m key offset fs h o) [
  | rejected p q ↦ rw (p, q, save, save_block) (g, refl)
  | kept p q ↦ rw (p, q, save, save_block) (g, refl)
  | accepted checksum d c i v b z r p q ↦
      let image = image_of s.identity offset fs checksum in
      let a = prepare-Accepted s m key offset fs image h o p in
      rw (p, q, save, save_block, publish-sound (block_name key) image s.store (h.unstaged key))
        (published-Holds s m key offset fs image 1 h g a, refl)
]

-- The limits and the identity of a session are those it was opened with.
retyped :
    {limits limits' : Limits} {id id' : Bytes} {store : Store} {m : Blocks} {x : ℕ}
    → limits ≡ limits'
    → id ≡ id'
    → Holds x limits id store m
    → Holds x limits' id' store m
retyped {limits' = limits'} {id = id} {store = store} {m = m} {x = x} e f h =
    subst (λ i. Holds x limits' i store m) f (subst (λ l. Holds x l id store m) e h)

Reached-Holds :
    (limits : Limits) (id : Bytes) (s : Impl) (m : Blocks)
    → Reached limits id s m
    → Holds 1 s.limits s.identity s.store m
Reached-Holds limits id s m r = retyped (sym r.same_limits) (sym r.same_id) r.holds

perform-Reached :
    (limits : Limits) (id : Bytes) (c : Call) (s : Impl) (m : Blocks)
    → Reached limits id s m
    → offset_of c < 2 ^ 64
    → Reached limits id (perform c s).0 (promise limits c m).0
perform-Reached limits id c s m r o =
    let (_, next, same) = perform-promise c s m r.refines o in
    let (held, id-eq) = perform-Holds c s m r.refines (Reached-Holds limits id s m r) o in
    let after : Holds 1 limits id (perform c s).0.store (promise limits c m).0 =
      subst (λ l. Holds 1 limits id (perform c s).0.store (promise l c m).0) r.same_limits
        (retyped r.same_limits r.same_id held) in
    record {
      refines = subst (λ l. Refines (perform c s).0 (promise l c m).0) r.same_limits next;
      holds = after;
      same_limits = same ∙ r.same_limits;
      same_id = id-eq ∙ r.same_id;
    }

performed_after-Reached :
    (limits : Limits) (id : Bytes) (cs : List Call) (s : Impl) (m : Blocks)
    → Reached limits id s m
    → InRange cs
    → Reached limits id (performed_after cs s) (promised_after limits cs m)
unfolding performed_after promised_after
performed_after-Reached limits id [] s m r o = r
performed_after-Reached limits id (c ∷ cs) s m r o =
    performed_after-Reached limits id cs (perform c s).0 (promise limits c m).0
      (perform-Reached limits id c s m r o.0) o.1

-- On a disk on which no write, rename or `fsync` fails, a checkpoint that is created in an empty directory
-- answers any loads and saves, at offsets below 2^64, as the empty map of blocks does.
pub create-promised :
    (limits : Limits) (id : Bytes) (cs : List Call)
    → valid_digest id ≡ true
    → valid_limits limits ≡ true
    → InRange cs
    → (s : Impl) × (open_checkpoint true sound true create limits id [] ≡ (s.store, found s))
      × (performed cs s ≡ promised limits cs [])
create-promised limits id cs v l o = (
  first_session limits id,
  create-first limits id v l,
  performed-promised cs (first_session limits id) [] (first-Refines limits id v l) o,
)

-- On a disk on which no write, rename, removal or `fsync` fails: a checkpoint that was created, then called,
-- and whose process stopped at any point of a save, is resumed as a session that answers every further call
-- as the map of blocks does that the calls left, with the block of that save where its rename was reached.
pub create-resumes :
    (limits : Limits) (id : Bytes) (cs : List Call) (stop : Stop) (key : Bytes) (offset : ℕ)
    (fs : List Float) (image : Bytes)
    → valid_digest id ≡ true
    → valid_limits limits ≡ true
    → InRange cs
    → offset < 2 ^ 64
    → prepare (performed_after cs (first_session limits id)) key offset fs ≡ found (some image)
    → (t : Impl) × ((disk : Disk)
        → open_checkpoint true disk true resume limits id (
            left_by stop
              (block_name key)
              image
              (performed_after cs (first_session limits id)).store)
          ≡ (t.store, found t))
      × ((cs' : List Call)
          → InRange cs'
          → performed cs' t
            ≡ promised limits cs' (standing stop key offset fs (promised_after limits cs [])))
create-resumes limits id cs stop key offset fs image v l k o p =
    let s = performed_after cs (first_session limits id) in
    let m = promised_after limits cs [] in
    let r =
      performed_after-Reached limits id cs (first_session limits id) []
        (first-Reached limits id v l) k in
    let a = prepare-Accepted s m key offset fs image r.refines o p in
    let h =
      left_by-Holds stop s m key offset fs image 1 r.refines (Reached-Holds limits id s m r) a in
    let (few, fits) = standing-fits stop s m key offset fs image r.refines a in
    let u =
      Holds-Resumed 2 limits id (left_by stop (block_name key) image s.store)
        (standing stop key offset fs m) v l
        (omega (arith, few, ap (λ (x : Limits). x.blocks) r.same_limits))
        (omega (arith, fits, ap (λ (x : Limits). x.total_bytes) r.same_limits)) (omega arith)
        (retyped r.same_limits r.same_id h) in
    (
      u.session,
      u.opens,
      λ (cs' : List Call) (k' : InRange cs').
          performed-promised cs' u.session (standing stop key offset fs m) u.refines k'
          ∙ ap (λ x. promised x cs' (standing stop key offset fs m)) u.same_limits,
    )
