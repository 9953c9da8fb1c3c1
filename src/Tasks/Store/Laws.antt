-- ===== src/Tasks/Store/Laws.antt =====
-- Compare and swap: what `save` of the task store promises.
use resonantia.Tasks.Store.Write.{
  may_save-MaySave, next_of, save-true, AllWords-next, read_locked-put,
}
use resonantia.Prelude.{arith, Bool, refl, [], not, true, false, some, ◌+◌, ◌==◌, ◌≡◌, ◌≢◌, ℕ}
use resonantia.Outcome.{Outcome, found, refused, spent}
use resonantia.Tasks.{TaskRecord}
use resonantia.Tasks.Codec.{counters_of}
use resonantia.Tasks.Codec.RoundTrip.{IsStorable, AllWords, InOrder}
use resonantia.Tasks.Store.{
  read_locked, Disk, write_locked, is_stale, may_save, Saved, saved_as, unsaved, save,
}
use resonantia.Directory.{Store}

-- A save that answers true advances the caller's revision by one, and a read of the store behind it
-- gives the record with that revision, if the counters fit 64 bits and the parameters are in order.
pub save-read_locked :
    (capacity : ℕ) (disk : Disk) (store : Store) (r : TaskRecord) (expected : ℕ)
    → AllWords (counters_of r)
    → InOrder [] r.parameters
    → (save capacity disk store r expected).outcome ≡ found true
    → ((save capacity disk store r expected).revision ≡ expected + 1)
      × (read_locked r.id (save capacity disk store r expected).store
          ≡ found (some (next_of r expected)))
save-read_locked capacity disk store r expected words ordered h =
    let (may, bytes, text, done) = save-true capacity disk store r expected h in
    let storable : IsStorable (next_of r expected) = record {
      counters = AllWords-next r expected words may.room;
      saved = omega arith;
      ordered = ordered;
    } in
    rw done (refl, read_locked-put (next_of r expected) bytes store storable may.named text)

-- Where the stored record has another revision than the caller expects, no save answers true or changes
-- the store.
pub save-stale :
    (capacity : ℕ) (disk : Disk) (store : Store) (r : TaskRecord) (expected : ℕ) {old : TaskRecord}
    → read_locked r.id store ≡ found (some old)
    → old.revision ≢ expected
    → ((save capacity disk store r expected).store ≡ store)
      × ((save capacity disk store r expected).outcome ≢ found true)
unfolding save is_stale
save-stale capacity disk store r expected {old} present ne =
    go (may_save capacity store r expected) refl
  where
    answer : Outcome Bool → Saved
    answer o = elim o [
      | found true ↦
          saved_as r.revision (expected + 1) (write_locked disk (next_of r expected) store)
      | found false ↦ unsaved store r (found false)
      | refused ↦ unsaved store r refused
      | spent ↦ unsaved store r spent
    ]

    go :
        (o : Outcome Bool)
        → may_save capacity store r expected ≡ o
        → ((answer o).store ≡ store) × ((answer o).outcome ≢ found true)
    go (found true) e =
        let may = may_save-MaySave capacity store r expected e in
        let same : found may.old ≡ found (some old) = cc (may.present, present) in
        let same' : may.old ≡ some old = cc same in
        let fresh : not (old.revision == expected) ≡ false = rw same' at may.fresh in
        absurd (ne (ground arith))
    go (found false) e = (refl, λ k. cc)
    go refused e = (refl, λ k. cc)
    go spent e = (refl, λ k. cc)

-- Of two saves of a task that expect the same revision, the second fails if the first answered true:
-- no update is lost.
pub save-once :
    (capacity : ℕ) (disk disk' : Disk) (store : Store) (r r' : TaskRecord) (expected : ℕ)
    → AllWords (counters_of r)
    → InOrder [] r.parameters
    → r'.id ≡ r.id
    → (save capacity disk store r expected).outcome ≡ found true
    → ((save capacity disk' (save capacity disk store r expected).store r' expected).store
        ≡ (save capacity disk store r expected).store)
      × ((save capacity disk' (save capacity disk store r expected).store r' expected).outcome
          ≢ found true)
save-once capacity disk disk' store r r' expected words ordered same h =
    let (_, present) = save-read_locked capacity disk store r expected words ordered h in
    let behind = (save capacity disk store r expected).store in
    let present' : read_locked r'.id behind ≡ found (some (next_of r expected)) = rw same present in
    save-stale capacity disk' behind r' expected present' (omega arith)
