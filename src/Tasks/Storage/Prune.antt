-- ===== src/Tasks/Storage/Prune.antt =====
-- tools/web/task_storage.cpp: `prune_task_copies`, the removal of redundant copies.
use resonantia.Digest.{valid_digest, sha256}
use resonantia.Outcome.{Outcome, found, guard, of_option, refused, spent, ◌>>=◌, ◌>>◌}
use resonantia.Prelude.{
  Bool, Bytes, List, Option, [], bytes_eq, codes, false, if◌then◌else◌, leb, length, ltb, none,
  some, ℕ, ◌&&◌, ◌*◌, ◌++◌, ◌+◌, ◌-◌, ◌∷◌,
}
use resonantia.Prelude.Number.{u64_max}
use resonantia.Tasks.{TaskRecord, has_succeeded, is_audio_kind, parameter, valid_id}
use resonantia.Tasks.Storage.{
  Item, linked, Items, child_folder, end, entry, find, folder, full_training, owned_training,
  regular, retired, special, text_in,
}

-- `unlinkat`
unfoldable pub remove : Bytes → Items → Items
remove name end = end
remove name (entry n item rest) =
    let more = remove name rest in
    if bytes_eq name n then entry n retired rest else entry n item more

-- `remove_copy`: the directory behind it, and the bytes that were freed. `unlinks` says of a name whether
-- `unlinkat` succeeds.
unfoldable pub remove_copy : (Bytes → Bool) → Bytes → Items → Items × Outcome ℕ
remove_copy unlinks name work = elim (find name work) [
  | retired ↦ (work, found 0)
  | regular s ↦ if unlinks name then (remove name work, found (length s)) else (work, refused)
  | linked _ ↦ (work, refused)
  | folder _ ↦ (work, refused)
  | special ↦ (work, refused)
]

-- `freed=add(freed,…)` in front of the next name.
abbrev pub freeing : (ℕ → Items → Items × Outcome ℕ) → ℕ → Items × Outcome ℕ → Items × Outcome ℕ
freeing go freed (work, found n) =
    if leb n (u64_max - freed) then go (freed + n) work else (work, refused)
freeing go freed (work, refused) = (work, refused)
freeing go freed (work, spent) = (work, spent)

unfoldable pub remove_copies : (Bytes → Bool) → List Bytes → ℕ → Items → Items × Outcome ℕ
remove_copies unlinks [] freed work = (work, found freed)
remove_copies unlinks (name ∷ names) freed work =
    freeing (remove_copies unlinks names) freed (remove_copy unlinks name work)

-- `protected_file`
unfoldable pub protected_file : Bytes → Items → Outcome (Unit {0})
protected_file name items = do s ← text_in name items; guard (ltb 0 (length s))

-- What `sha256_file` reads; it takes a file with other names as well.
unfoldable pub content_of_item : Item → Outcome Bytes
content_of_item (regular s) = found s
content_of_item (linked s) = found s
content_of_item (folder _) = refused
content_of_item retired = refused
content_of_item special = refused

-- `sha256_file` of a file of the work directory, up to its default bound.
unfoldable pub file_digest : Bytes → Items → Outcome Bytes
file_digest name items = do
  s ← content_of_item (find name items)
  guard (leb (length s) (2 * 1024 * 1024 * 1024))
  sha256 s

abbrev pub training_copies : List Bytes
training_copies = codes "generator.safetensors" ∷ codes "discriminator.safetensors" ∷ []

abbrev pub audio_copies : List Bytes
audio_copies = codes "model.safetensors" ∷ codes "model.index" ∷ codes "cover.wav" ∷ []

abbrev pub is_mix : TaskRecord → Bool
is_mix r = elim (parameter (codes "output_kind") r.parameters) as (λ _. Bool) [
  | none ↦ false
  | some v ↦ bytes_eq v (codes "mix")
]

-- The copies of an audio task: a mixed result does not replace the voice.
unfoldable pub copies_of : TaskRecord → List Bytes
copies_of r = if is_mix r then audio_copies else audio_copies ++ codes "output.wav" ∷ []

-- What must be there before anything is removed.
unfoldable pub check_training : Items → TaskRecord → Outcome (Unit {0})
check_training runs r = do
  full ← owned_training runs r
  result ← child_folder (codes "result") full
  protected_file (codes "model.safetensors") result
  protected_file (codes "model.index") result

unfoldable pub check_audio : Items → TaskRecord → Outcome (Unit {0})
check_audio work r = do
  guard (bytes_eq r.result (codes "work/result.wav"))
  protected_file (codes "source.wav") work
  protected_file (codes "result.wav") work
  digest ← of_option (parameter (codes "result_sha256") r.parameters)
  guard (valid_digest digest)
  actual ← file_digest (codes "result.wav") work
  guard (bytes_eq actual digest)

-- The two kinds of plan: the work directory, and the names that may go where all checks pass.
unfoldable pub plan_training : Items → Items → TaskRecord → Outcome (Option (Items × List Bytes))
plan_training runs task r = do
  work ← child_folder (codes "work") task
  check_training runs r
  found (some (work, training_copies))

unfoldable pub plan_audio : Items → TaskRecord → Outcome (Option (Items × List Bytes))
plan_audio task r = do
  work ← child_folder (codes "work") task
  check_audio work r
  found (some (work, copies_of r))

-- `none` for a kind that keeps everything.
unfoldable pub plan : Items → Items → TaskRecord → Outcome (Option (Items × List Bytes))
plan root runs r = do
  guard (valid_id r.id && has_succeeded r)
  task ← child_folder r.id root
  (if full_training r
      then plan_training runs task r
      else (if is_audio_kind r.kind then plan_audio task r else found none))

-- The freed bytes, where the last `fsync` succeeds.
unfoldable pub synced_after : Bool → Outcome ℕ → Outcome ℕ
synced_after synced freed = do n ← freed; guard synced; found n

-- The work directory behind it, where it was opened, and the bytes that were freed. `synced` is whether the
-- last `fsync` succeeds.
unfoldable pub prune_task_copies :
    Items → Items → (Bytes → Bool) → Bool → TaskRecord → Option Items × Outcome ℕ
prune_task_copies root runs unlinks synced r = elim (plan root runs r) [
  | found none ↦ (none, found 0)
  | found (some (work, names)) ↦
      let (work', freed) = remove_copies unlinks names 0 work in
      (some work', synced_after synced freed)
  | refused ↦ (none, refused)
  | spent ↦ (none, spent)
]
