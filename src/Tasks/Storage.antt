-- ===== src/Tasks/Storage.antt =====
-- tools/web/task_storage.cpp and task_storage.h: how much the tasks occupy, and the removal of copies
-- that a finished task no longer needs.
pub mod Measured
pub mod Total
pub mod Prune
pub mod Pruned
pub mod Cleanup
mod Tests
use resonantia.Outcome.{Outcome, found, guard, of_option, refused, ◌>>=◌, ◌>>◌}
use resonantia.Prelude.{
  Bool, Bytes, List, Option, [], all_bytes, bytes_eq, codes, false, if◌then◌else◌, is_alpha,
  is_digit, leb, length, ltb, none, not, some, true, ℕ, ◌&&◌, ◌*◌, ◌+◌, ◌-◌, ◌/◌, ◌==◌, ◌||◌, ◌∷◌,
}
use resonantia.Prelude.Number.{u64_max}
use resonantia.Tasks.{TaskRecord, parameter, valid_id}

-- A directory tree. `retired` is a name that `readdir` lists and that is gone when it is looked at;
-- `linked` is a regular file that has other names as well, `special` is neither
-- a regular file nor a directory.
mutual
  pub data Item : Type 0 where
    regular : Bytes → Item
    linked : Bytes → Item
    folder : Items → Item
    retired : Item
    special : Item

  pub data Items : Type 0 where
    end : Items
    entry : Bytes → Item → Items → Items

abbrev pub max_entries : ℕ
max_entries = 262144

abbrev pub max_depth : ℕ
max_depth = 16

-- `Scan::entry` and the loop of `Scan::tree`, with the entries counted so far.
unfoldable mutual
  pub scan_item : ℕ → ℕ → Item → Outcome (ℕ × ℕ)
  scan_item depth scanned (regular s) =
      guard (leb (scanned + 1) max_entries) >> found (length s, scanned + 1)
  scan_item depth scanned (linked s) =
      guard (leb (scanned + 1) max_entries) >> found (length s, scanned + 1)
  scan_item depth scanned retired = guard (leb (scanned + 1) max_entries) >> found (0, scanned + 1)
  scan_item depth scanned special = refused
  scan_item depth scanned (folder items) = do
    guard (leb (scanned + 1) max_entries)
    guard (leb (depth + 1) max_depth)
    scan_items (depth + 1) 0 (scanned + 1) items

  pub scan_items : ℕ → ℕ → ℕ → Items → Outcome (ℕ × ℕ)
  scan_items depth bytes scanned end = found (bytes, scanned)
  scan_items depth bytes scanned (entry name item rest) = do
    (more, scanned') ← scan_item depth scanned item
    guard (leb more (u64_max - bytes))
    scan_items depth (bytes + more) scanned' rest

-- `Scan::tree`
unfoldable pub scan_tree : ℕ → ℕ → Items → Outcome (ℕ × ℕ)
scan_tree depth scanned items = do guard (leb depth max_depth); scan_items depth 0 scanned items

-- `fstatat` of a name in a directory.
unfoldable pub find : Bytes → Items → Item
find name end = retired
find name (entry n item rest) = let more = find name rest in if bytes_eq name n then item else more

-- `child_directory`
unfoldable pub child_folder : Bytes → Items → Outcome Items
child_folder name items = elim (find name items) [
  | folder inside ↦ found inside
  | regular _ ↦ refused
  | linked _ ↦ refused
  | retired ↦ refused
  | special ↦ refused
]

unfoldable pub full_training : TaskRecord → Bool
full_training r =
    bytes_eq r.kind (codes "training")
    && elim (parameter (codes "recovery") r.parameters) as (λ _. Bool) [
      | none ↦ false
      | some v ↦ bytes_eq v (codes "training-full-v1")
    ]

abbrev pub is_name_byte : ℕ → Bool
is_name_byte c = is_alpha c || is_digit c || c == b'_' || c == b'-'

-- The text of a private regular file.
unfoldable pub text_of_item : Item → Outcome Bytes
text_of_item (regular s) = found s
text_of_item (linked _) = refused
text_of_item (folder _) = refused
text_of_item retired = refused
text_of_item special = refused

abbrev pub text_in : Bytes → Items → Outcome Bytes
text_in name items = text_of_item (find name items)

unfoldable pub owned_training : Items → TaskRecord → Outcome Items
owned_training runs r = do
  guard (not (length r.name == 0) && leb (length r.name) 64 && all_bytes is_name_byte r.name)
  run ← child_folder r.name runs
  full ← child_folder (codes "full_training") run
  marker ← text_in (codes "web-task") full
  guard (bytes_eq marker r.id)
  found full

-- The bytes that are claimed for each task.
abbrev pub Shares : Type 0
Shares = List (Bytes × ℕ)

pub record Usage : Type 0 where
  pub managed_bytes : ℕ
  pub available_bytes : ℕ
  pub tasks : Shares

unfoldable pub share_of : Bytes → Shares → Option ℕ
share_of id [] = none
share_of id ((k, n) ∷ shares) =
    let rest = share_of id shares in if bytes_eq id k then some n else rest

unfoldable pub set_share : Bytes → ℕ → Shares → Shares
set_share id n [] = []
set_share id n ((k, old) ∷ shares) =
    let rest = set_share id n shares in if bytes_eq id k then (k, n) ∷ shares else (k, old) ∷ rest

-- The loop that enters the records.
unfoldable pub enter_records : Shares → List TaskRecord → Outcome Shares
enter_records shares [] = found shares
enter_records shares (r ∷ rs) = do
  guard (valid_id r.id)
  guard (elim (share_of r.id shares) as (λ _. Bool) [ none ↦ true | some _ ↦ false ])
  enter_records ((r.id, 0) ∷ shares) rs

-- The loop over the root, where each name that is a task gets its bytes.
unfoldable pub root_loop : ℕ → ℕ → Shares → Items → Outcome (ℕ × ℕ × Shares)
root_loop managed scanned shares end = found (managed, scanned, shares)
root_loop managed scanned shares (entry name item rest) = do
  (bytes, scanned') ← scan_item 0 scanned item
  guard (leb bytes (u64_max - managed))
  root_loop (managed + bytes) scanned' (set_share name bytes shares) rest

-- The loop over the full trainings, whose directories stand apart.
unfoldable pub training_loop : Items → ℕ → ℕ → Shares → List TaskRecord → Outcome (ℕ × Shares)
training_loop runs managed scanned shares [] = found (managed, shares)
training_loop runs managed scanned shares (r ∷ rs) =
    let skipped = training_loop runs managed scanned shares rs in
    let counted = (do
      full ← owned_training runs r
      (bytes, scanned') ← scan_tree 0 scanned full
      guard (leb bytes (u64_max - managed))
      share ← of_option (share_of r.id shares)
      guard (leb bytes (u64_max - share))
      training_loop runs (managed + bytes) scanned' (set_share r.id (share + bytes) shares) rs) in
    if full_training r then counted else skipped

-- `space` is what `fstatvfs` says: the size of a fragment and the number of those that are free.
unfoldable pub measure_task_storage : Items → Items → ℕ × ℕ → List TaskRecord → Outcome Usage
measure_task_storage root runs space records = do
  guard (leb (length records) 4096)
  guard (ltb 0 space.0 && leb space.1 (u64_max / space.0))
  shares ← enter_records [] records
  (managed, scanned, shares') ← root_loop 0 0 shares root
  (managed', shares'') ← training_loop runs managed scanned shares' records
  found (record { managed_bytes = managed'; available_bytes = space.1 * space.0; tasks = shares'' })

pub record StorageLimits : Type 0 where
  pub managed_bytes : ℕ
  pub task_bytes : ℕ
  pub reserve_bytes : ℕ

-- The texts that `storage_limit_reason` returns, of which the last is empty.
pub data Reason : Type 0 where
  disk_reserve all_tasks this_task no_reason : Reason

unfoldable pub storage_limit_reason : Usage → StorageLimits → Bytes → Reason
storage_limit_reason usage limits id =
    let own = elim (share_of id usage.tasks) as (λ _. Bool) [
      | none ↦ false
      | some n ↦ leb limits.task_bytes n
    ] in
    if ltb usage.available_bytes limits.reserve_bytes
    then disk_reserve
    else if leb limits.managed_bytes usage.managed_bytes
    then all_tasks
    else if own
    then this_task
    else no_reason
