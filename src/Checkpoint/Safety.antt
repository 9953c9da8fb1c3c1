-- ===== src/Checkpoint/Safety.antt =====
-- src/io/block_checkpoint.cpp: what holds whatever the disk does.
use resonantia.Checkpoint.{Float, Impl, block_name, finite, memory_of, valid_key}
use resonantia.Checkpoint.Names.{block_name-ne-pending_name, bytes_eq-ne}
use resonantia.Checkpoint.Publish.{publish-node_of}
use resonantia.Checkpoint.Session.{
  Disk, boundary, failed, image_beside, image_size, load, prepare, publish, published, read,
  read_block, read_image, save,
}
use resonantia.Directory.{Node, Store, file, foreign, node_of, vacant}
use resonantia.Outcome.{>>=-eq-found, Outcome, found, guard, refused, spent, ◌>>=◌, ◌>>◌}
use resonantia.Prelude.{
  sym, Bool, Bytes, List, Option, ap, bytes_eq, false, length, none, not, refl, some, true, ℕ, ◌∙◌,
  ◌≡◌, ◌≢◌,
}
use resonantia.Checkpoint.Spec.{in_bounds}

read_block-none :
    (id key : Bytes) (offset n : ℕ) (node : Node)
    → read_block id key offset n node ≡ found none
    → node ≡ vacant
unfolding read_block
read_block-none id key offset n vacant h = refl
read_block-none id key offset n foreign h = cc
read_block-none id key offset n (file image) h =
    let (data_, _, e) = >>=-eq-found (read_image id key offset n image) _ h in cc

image_beside-none :
    (s : Impl) (key : Bytes) (offset : ℕ) (fs : List Float) (o : Option (List Float))
    (image : Bytes)
    → image_beside s key offset fs o ≡ found (some image)
    → o ≡ none
unfolding image_beside
image_beside-none s key offset fs none image h = refl
image_beside-none s key offset fs (some old) image h =
    let (_, _, e) = >>=-eq-found (guard (bytes_eq (memory_of old) (memory_of fs))) _ h in cc

-- An image is made only for a block that is not there.
prepare-vacant :
    (s : Impl) (key : Bytes) (offset : ℕ) (fs : List Float) (image : Bytes)
    → prepare s key offset fs ≡ found (some image)
    → node_of (block_name key) s.store ≡ vacant
unfolding prepare read
prepare-vacant s key offset fs image h =
    let (_, _, h1) = >>=-eq-found (guard (not s.is_read_only)) _ h in
    let (_, _, h2) = >>=-eq-found (guard (valid_key key)) _ h1 in
    let (_, _, h3) = >>=-eq-found (guard (in_bounds s.limits (length fs))) _ h2 in
    let (_, _, h4) = >>=-eq-found (guard (finite fs)) _ h3 in
    let (old, r, h5) = >>=-eq-found (read s key offset (length fs)) _ h4 in
    let fresh = image_beside-none s key offset fs old image h5 in
    let r' : read s key offset (length fs) ≡ found none = r ∙ ap found fresh in
    let (_, _, r1) = >>=-eq-found (guard s.healthy) _ r' in
    let (_, _, r2) = >>=-eq-found (guard (valid_key key)) _ r1 in
    let (_, _, r3) = >>=-eq-found (guard (in_bounds s.limits (length fs))) _ r2 in
    read_block-none s.identity key offset (length fs) (node_of (block_name key) s.store) r3

published-store :
    (s : Impl) (size : ℕ) (r : Store × Outcome (Unit {0})) → (published s size r).0.store ≡ r.0
published-store s size (store, found _) = refl
published-store s size (store, refused) = refl
published-store s size (store, spent) = refl

-- Whatever the disk does to a save, and whatever key it is of, a block that stands is neither replaced
-- nor removed.
pub save-keeps :
    (disk : Disk) (s : Impl) (key : Bytes) (offset : ℕ) (fs : List Float) (other : Bytes)
    → node_of (block_name other) s.store ≢ vacant
    → node_of (block_name other) (save disk s key offset fs).0.store
      ≡ node_of (block_name other) s.store
unfolding save
save-keeps disk s key offset fs other h = go (prepare s key offset fs) refl
  where
    saved : Outcome (Option Bytes) → Impl × Outcome (Unit {0})
    saved o = elim o [
      | found (some image) ↦
          published s (image_size fs) (publish disk (block_name key) image s.store)
      | found none ↦ (s, found tt)
      | refused ↦ (s, refused)
      | spent ↦ (s, spent)
    ]

    go :
        (o : Outcome (Option Bytes))
        → prepare s key offset fs ≡ o
        → node_of (block_name other) (saved o).0.store ≡ node_of (block_name other) s.store
    go (found (some image)) e =
        let gone = prepare-vacant s key offset fs image e in
        let off : bytes_eq (block_name other) (block_name key) ≡ false =
          bytes_eq-ne (block_name other) (block_name key)
            (λ (same : block_name other ≡ block_name key).
              h (ap (λ name. node_of name s.store) same ∙ gone)) in
        ap (node_of (block_name other))
          (published-store s (image_size fs) (publish disk (block_name key) image s.store))
        ∙ publish-node_of disk (block_name key) image (block_name other) s.store off
            (block_name-ne-pending_name other (block_name key))
    go (found none) e = refl
    go refused e = refl
    go spent e = refl

-- A session that is broken refuses everything and stays as it is.
pub record Broken (t : Impl) : Type 0 where
  pub loads : (key : Bytes) (offset n : ℕ) → load t key offset n ≡ (t, refused)
  pub saves :
      (disk : Disk) (key : Bytes) (offset : ℕ) (fs : List Float)
      → save disk t key offset fs ≡ (t, refused)
  pub stops : (pause : Option (Option Bool)) → boundary t pause ≡ failed

prepare-unhealthy :
    (t : Impl) (key : Bytes) (offset : ℕ) (fs : List Float)
    → t.healthy ≡ false
    → prepare t key offset fs ≡ refused
unfolding prepare read
prepare-unhealthy t key offset fs h =
    let r : read t key offset (length fs) ≡ refused = rw h refl in
    first (not t.is_read_only) (valid_key key) (in_bounds t.limits (length fs)) (finite fs)
      (image_beside t key offset fs) r
  where
    first :
        {A B : Type 0} (a b c d : Bool) {o : Outcome A} (f : A → Outcome B)
        → o ≡ refused
        → (guard a >> (guard b >> (guard c >> (guard d >> (o >>= f))))) ≡ refused
    first true true true true f e = rw e refl
    first true true true false f e = refl
    first true true false d f e = refl
    first true false c d f e = refl
    first false b c d f e = refl

unhealthy-Broken : (t : Impl) → t.healthy ≡ false → Broken t
unfolding load save boundary
unhealthy-Broken t h = record {
  loads =
      λ key offset n. let r : read t key offset n ≡ refused = unfold read in rw h refl in rw r refl;
  saves = λ disk key offset fs. rw (prepare-unhealthy t key offset fs h, save) refl;
  stops = λ pause. rw h refl;
}

published-unhealthy :
    (s : Impl) (size : ℕ) (r : Store × Outcome (Unit {0}))
    → (published s size r).1 ≡ refused
    → (published s size r).0.healthy ≡ false
published-unhealthy s size (store, found _) h = cc
published-unhealthy s size (store, refused) h = refl
published-unhealthy s size (store, spent) h = refl

-- A publication that throws breaks its session: every later load and save throws and changes nothing, and
-- no boundary is passed.
pub save-Broken :
    (disk : Disk) (s : Impl) (key : Bytes) (offset : ℕ) (fs : List Float) (image : Bytes)
    → prepare s key offset fs ≡ found (some image)
    → (save disk s key offset fs).1 ≡ refused
    → Broken (save disk s key offset fs).0
unfolding save
save-Broken disk s key offset fs image p h =
    let r = publish disk (block_name key) image s.store in
    let e : save disk s key offset fs ≡ published s (image_size fs) r = rw (p, save) refl in
    let h' : (published s (image_size fs) r).1 ≡ refused = sym (ap (λ x. x.1) e) ∙ h in
    unhealthy-Broken (save disk s key offset fs).0
      (ap (λ x. x.0.healthy) e ∙ published-unhealthy s (image_size fs) r h')
