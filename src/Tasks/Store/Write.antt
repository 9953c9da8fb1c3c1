-- ===== src/Tasks/Store/Write.antt =====
-- What a save that is let through has checked and written.
use resonantia.Prelude.{
  length, arith, ==_iff, Bool, Bool-cases, Bytes, Option, refl, inr, inl, ◌<◌, ltb, leb, true,
  false, some, ◌+◌, ◌==◌, ◌≡◌, ℕ,
}
use resonantia.Prelude.Number.{u64_max}
use resonantia.Outcome.{Outcome, found, refused, spent, ◌>>◌, guard, >>=-eq-found, guard-eq-found}
use resonantia.Tasks.{TaskRecord, valid_id, validate}
use resonantia.Tasks.Codec.{max_record_bytes, encode, counters_of}
use resonantia.Tasks.Codec.RoundTrip.{encode-length, IsStorable, AllWords, decode-encode}
use resonantia.Directory.{file, Store, put, bytes_eq_self, node_of-put_self}
use resonantia.Tasks.Store.{
  read_node, read_locked, Disk, sound, unwritten, unsynced, write_bytes, write_locked, is_stale,
  within_capacity, may_save, Saved, saved_as, unsaved, save,
}

-- What holds where `may_save` lets a write through.
pub record MaySave (store : Store) (r : TaskRecord) (expected : ℕ) : Type 0 where
  pub valid : validate r ≡ found tt
  pub same : r.revision ≡ expected
  pub named : valid_id r.id ≡ true
  pub old : Option TaskRecord
  pub present : read_locked r.id store ≡ found old
  pub fresh : is_stale old expected ≡ false
  pub room : expected < u64_max

pub may_save-MaySave :
    (capacity : ℕ) (store : Store) (r : TaskRecord) (expected : ℕ)
    → may_save capacity store r expected ≡ found true
    → MaySave store r expected
unfolding may_save read_locked
may_save-MaySave capacity store r expected h =
    let (_, valid, h1) = >>=-eq-found (validate r) _ h in
    let (_, same, h2) = >>=-eq-found (guard (r.revision == expected)) _ h1 in
    let (old, present, h3) = >>=-eq-found (read_locked r.id store) _ h2 in
    let (_, named, _) = >>=-eq-found (guard (valid_id r.id)) _ present in
    elim (Bool-cases (is_stale old expected)) [
      | inl stale ↦ let h4 = rw stale at h3 in cc
      | inr fresh ↦
          let h4 = rw fresh at h3 in
          let admitted = within_capacity capacity store old in
          let (_, h5, _) = >>=-eq-found (admitted >> guard (ltb expected u64_max)) _ h4 in
          let (_, _, h6) = >>=-eq-found admitted _ h5 in
          let small = guard-eq-found _ h6 in
          record {
            valid = valid;
            same = (==_iff r.revision expected).0 (guard-eq-found _ same);
            named = guard-eq-found _ named;
            old = old;
            present = present;
            fresh = fresh;
            room = ground arith;
          }
    ]

-- The next record of a save.
abbrev pub next_of : TaskRecord → ℕ → TaskRecord
next_of r expected = record r { revision = expected + 1 }

write_locked-found :
    (disk : Disk) (r : TaskRecord) (store : Store) (old new : ℕ)
    → (saved_as old new (write_locked disk r store)).outcome ≡ found true
    → (bytes : Bytes) × (encode r ≡ found bytes)
      × (write_locked disk r store ≡ (put r.id (file bytes) store, found tt))
unfolding write_locked write_bytes
write_locked-found disk r store old new h = go (encode r) refl disk h
  where
    written : Outcome Bytes → Disk → Store × Outcome (Unit {0})
    written o d = elim o [
      | found bytes ↦ write_bytes d r.id bytes store
      | refused ↦ (store, refused)
      | spent ↦ (store, spent)
    ]

    go :
        (o : Outcome Bytes)
        → encode r ≡ o
        → (d : Disk) → (saved_as old new (written o d)).outcome ≡ found true
        → (bytes : Bytes) × (o ≡ found bytes)
          × (written o d ≡ (put r.id (file bytes) store, found tt))
    go (found bytes) e sound k = (bytes, refl, refl)
    go (found bytes) e unwritten k = cc
    go (found bytes) e unsynced k = cc
    go refused e d k = cc
    go spent e d k = cc

-- A save that answers true was let through, and wrote the whole record.
pub save-true :
    (capacity : ℕ) (disk : Disk) (store : Store) (r : TaskRecord) (expected : ℕ)
    → (save capacity disk store r expected).outcome ≡ found true
    → MaySave store r expected
      × (bytes : Bytes) × (encode (next_of r expected) ≡ found bytes)
      × (save capacity disk store r expected ≡ record {
        store = put r.id (file bytes) store;
        outcome = found true;
        revision = expected + 1;
      })
unfolding save
save-true capacity disk store r expected h = go (may_save capacity store r expected) refl h
  where
    answer : Outcome Bool → Saved
    answer o = elim o [
      | found true ↦
          saved_as r.revision (expected + 1) (write_locked disk (next_of r expected) store)
      | found false ↦ unsaved store r (found false)
      | refused ↦ unsaved store r refused
      | spent ↦ unsaved store r spent
    ]

    go :
        (o : Outcome Bool)
        → may_save capacity store r expected ≡ o
        → (answer o).outcome ≡ found true
        → MaySave store r expected
          × (bytes : Bytes) × (encode (next_of r expected) ≡ found bytes)
          × (answer o ≡ record {
            store = put r.id (file bytes) store;
            outcome = found true;
            revision = expected + 1;
          })
    go (found true) e k =
        let (bytes, text, done) =
          write_locked-found disk (next_of r expected) store r.revision (expected + 1) k in
        (may_save-MaySave capacity store r expected e, bytes, text, rw done refl)
    go (found false) e k = cc
    go refused e k = cc
    go spent e k = cc

pub AllWords-next :
    (r : TaskRecord) (expected : ℕ)
    → AllWords (counters_of r)
    → expected < u64_max
    → AllWords (counters_of (next_of r expected))
AllWords-next r expected w h = ground arith

pub read_locked-put :
    (r : TaskRecord) (bytes : Bytes) (store : Store)
    → IsStorable r
    → valid_id r.id ≡ true
    → encode r ≡ found bytes
    → read_locked r.id (put r.id (file bytes) store) ≡ found (some r)
unfolding read_locked read_node
read_locked-put r bytes store s named h =
    let (some_bytes, few) = encode-length r h in
    let e : ltb 0 (length bytes) ≡ true = ground arith in
    let e' : leb (length bytes) max_record_bytes ≡ true = ground arith in
    rw (named, node_of-put_self r.id (file bytes) store)
      (rw (e, e', decode-encode r s h) (rw (bytes_eq_self r.id) refl))
