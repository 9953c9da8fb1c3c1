-- ===== src/Tasks/Store.antt =====
-- `TaskStore` of tools/web/task_store.cpp: the directory of records, and what its operations make of it.
pub mod Write
pub mod Laws
use resonantia.Prelude.{
  drop, take, ℕ, zero, suc, Bool, true, false, ◌&&◌, ◌||◌, not, List, [], ◌∷◌, Bytes, codes, ltb,
  leb, ◌==◌, ◌+◌, if◌then◌else◌, Option, none, some, length, bytes_eq, contains,
}
use resonantia.Prelude.Number.{u64_max}
use resonantia.Outcome.{Outcome, found, refused, spent, ◌>>=◌, ◌>>◌, guard}
use resonantia.Directory.{Node, vacant, file, foreign, Store, node_of, put}
use resonantia.Tasks.{TaskRecord, valid_id, validate, parameter}
use resonantia.Tasks.Codec.{max_record_bytes, encode, decode, bytes_less}

unfoldable pub read_node : Bytes → Node → Outcome (Option TaskRecord)
read_node id vacant = found none
read_node id foreign = refused
read_node id (file bytes) = do
  guard (ltb 0 (length bytes) && leb (length bytes) max_record_bytes)
  r ← decode bytes
  guard (bytes_eq r.id id)
  found (some r)

unfoldable pub read_locked : Bytes → Store → Outcome (Option TaskRecord)
read_locked id store = do guard (valid_id id); read_node id (node_of id store)

-- `push_back` of a record that was read.
abbrev pub push : Option TaskRecord → List TaskRecord → List TaskRecord
push none records = records
push (some r) records = r ∷ records

-- The loop over the directory, with what it has scanned and found so far.
unfoldable pub scan_loop : Store → ℕ → List TaskRecord → Store → Outcome (List TaskRecord)
scan_loop store scanned records [] = found records
scan_loop store scanned records ((name, node) ∷ rest) =
    let skipped = scan_loop store (scanned + 1) records rest in
    let taken = (do
      r ← read_locked name store
      guard (leb (length (push r records)) 4096)
      scan_loop store (scanned + 1) (push r records) rest) in
    guard (leb (scanned + 1) 16384) >> (if valid_id name then taken else skipped)

-- The newest first, and of one time the greatest id first.
unfoldable pub precedes : TaskRecord → TaskRecord → Bool
precedes a b =
    if a.created_ms == b.created_ms then bytes_less b.id a.id else ltb b.created_ms a.created_ms

unfoldable pub insert_record : TaskRecord → List TaskRecord → List TaskRecord
insert_record r [] = r ∷ []
insert_record r (q ∷ qs) =
    let rest = insert_record r qs in if precedes r q then r ∷ q ∷ qs else q ∷ rest

unfoldable pub sort_records : List TaskRecord → List TaskRecord
sort_records [] = []
sort_records (r ∷ rs) = insert_record r (sort_records rs)

unfoldable pub list_locked : Store → Outcome (List TaskRecord)
list_locked store = do records ← scan_loop store 0 [] store; found (sort_records records)

-- `list`: a page of the records.
unfoldable pub list : ℕ → ℕ → Store → Outcome (List TaskRecord)
list offset limit store = do
  guard (ltb 0 limit && leb limit 100)
  records ← list_locked store
  found (take limit (drop offset records))

-- What the disk does to a write: all of it; nothing that shows; or the rename, with a failure behind it.
pub data Disk : Type 0 where
  sound unwritten unsynced : Disk

unfoldable pub write_bytes : Disk → Bytes → Bytes → Store → Store × Outcome (Unit {0})
write_bytes unwritten id bytes store = (store, refused)
write_bytes unsynced id bytes store = (put id (file bytes) store, refused)
write_bytes sound id bytes store = (put id (file bytes) store, found tt)

unfoldable pub write_locked : Disk → TaskRecord → Store → Store × Outcome (Unit {0})
write_locked disk r store = elim (encode r) [
  | found bytes ↦ write_bytes disk r.id bytes store
  | refused ↦ (store, refused)
  | spent ↦ (store, spent)
]

unfoldable pub is_stale : Option TaskRecord → ℕ → Bool
is_stale none expected = not (expected == 0)
is_stale (some old) expected = not (old.revision == expected)

-- The records that still hold their data.
unfoldable pub count_retained : List TaskRecord → ℕ
count_retained [] = 0
count_retained (r ∷ rs) = elim (parameter (codes "retention") r.parameters) [
  | none ↦ suc (count_retained rs)
  | some v ↦ count_retained rs
]

-- Only a new record counts against the capacity.
unfoldable pub within_capacity : ℕ → Store → Option TaskRecord → Outcome (Unit {0})
within_capacity capacity store (some old) = found tt
within_capacity capacity store none = do
  records ← list_locked store
  guard (ltb (length records) 4096 && ltb (count_retained records) capacity)

-- Everything in front of the write: whether it is to be done.
unfoldable pub may_save : ℕ → Store → TaskRecord → ℕ → Outcome Bool
may_save capacity store r expected = do
  validate r
  guard (r.revision == expected)
  old ← read_locked r.id store
  let fresh = within_capacity capacity store old >> guard (ltb expected u64_max) >> found true
  (if is_stale old expected then found false else fresh)

-- The store behind `save`, its answer, and the caller's revision.
pub record Saved : Type 0 where
  pub store : Store
  pub outcome : Outcome Bool
  pub revision : ℕ

abbrev pub saved_as : ℕ → ℕ → Store × Outcome (Unit {0}) → Saved
saved_as old new (store, found _) = record { store = store; outcome = found true; revision = new }
saved_as old new (store, refused) = record { store = store; outcome = refused; revision = old }
saved_as old new (store, spent) = record { store = store; outcome = spent; revision = old }

abbrev pub unsaved : Store → TaskRecord → Outcome Bool → Saved
unsaved store r o = record { store = store; outcome = o; revision = r.revision }

unfoldable pub save : ℕ → Disk → Store → TaskRecord → ℕ → Saved
save capacity disk store r expected = elim (may_save capacity store r expected) [
  | found true ↦
      saved_as r.revision (expected + 1)
        (write_locked disk (record r { revision = expected + 1 }) store)
  | found false ↦ unsaved store r (found false)
  | refused ↦ unsaved store r refused
  | spent ↦ unsaved store r spent
]

abbrev pub active_states : List Bytes
active_states = codes "preparing" ∷ codes "queued" ∷ codes "running" ∷ codes "pause_requested" ∷ []

-- One record of the loop of `recover_interrupted`.
abbrev pub interrupted : ℕ → TaskRecord → TaskRecord
interrupted now r = record r {
  state = codes "interrupted";
  updated_ms = now;
  error = codes "Service restarted; explicit recovery is required.";
  revision = r.revision + 1;
}

abbrev pub continue_with :
    (Store → Store × Outcome ℕ) → Store × Outcome (Unit {0}) → Store × Outcome ℕ
continue_with go (store, found _) = go store
continue_with go (store, refused) = (store, refused)
continue_with go (store, spent) = (store, spent)

unfoldable pub recover_loop : Disk → ℕ → ℕ → List TaskRecord → Store → Store × Outcome ℕ
recover_loop disk now count [] store = (store, found count)
recover_loop disk now count (r ∷ rs) store =
    let skipped = recover_loop disk now count rs store in
    let written =
      continue_with (recover_loop disk now (count + 1) rs)
        (write_locked disk (interrupted now r) store) in
    if not (contains r.state active_states)
    then skipped
    else if ltb r.revision u64_max
    then written
    else (store, refused)

unfoldable pub recover_interrupted : Disk → ℕ → Store → Store × Outcome ℕ
recover_interrupted disk now store = elim (list_locked store) [
  | found records ↦ recover_loop disk now 0 records store
  | refused ↦ (store, refused)
  | spent ↦ (store, spent)
]
