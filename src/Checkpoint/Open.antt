-- ===== src/Checkpoint/Open.antt =====
-- src/io/block_checkpoint.cpp: the constructor and `stored_identity`. The directory is listed
-- without `.`, `..` and the lock, which the scans skip.
use resonantia.Prelude.{
  ℕ, ◌+◌, ◌-◌, ◌*◌, Bool, true, false, not, ◌&&◌, ◌||◌, [], ◌∷◌, ◌++◌, Bytes, ltb, leb, ◌==◌,
  if◌then◌else◌, length, take, drop, bytes_eq,
}
use resonantia.Outcome.{Outcome, found, refused, spent, ◌>>◌, guard}
use resonantia.Digest.{valid_digest}
use resonantia.Directory.{Node, vacant, file, foreign, Store, node_of, put}
use resonantia.Checkpoint.{
  header_size, valid_key, block_suffix, pending_suffix, identity_name, ends_with, without, manifest,
  manifest_head, pending_name, Limits, Mode, create, resume, read_only, Impl,
}
use resonantia.Checkpoint.Session.{Disk, publish}

unfoldable pub valid_limits : Limits → Bool
valid_limits l = not (
    ltb l.block_bytes 4
    || ltb (32 * 1024 * 1024) l.block_bytes
    || ltb l.total_bytes (header_size + 4)
    || ltb (2 * 1024 * 1024 * 1024) l.total_bytes
    || l.blocks == 0
    || ltb 4096 l.blocks)

abbrev pub is_create : Mode → Bool
is_create create = true
is_create _ = false

abbrev pub is_reading : Mode → Bool
is_reading read_only = true
is_reading _ = false

-- Whether the identity is to be written, after the check of one that is there.
unfoldable pub initializes : Mode → Bytes → Node → Outcome Bool
initializes create identity node = found true
initializes resume identity vacant = found true
initializes mode identity (file text) = do guard (bytes_eq text (manifest identity)); found false
initializes mode identity _ = refused

-- What the scan does with an entry: go on, remove it, or count it as a block.
pub data Verdict : Type 0 where
  skip discard tally : Verdict

abbrev pub is_staged_block : Bytes → Bool
is_staged_block name =
    ends_with (block_suffix ++ pending_suffix) name && valid_key (without 14 name)

abbrev pub is_block : Bytes → Bool
is_block name = ends_with block_suffix name && valid_key (without 6 name)

abbrev pub sized : Limits → ℕ → Bool
sized limits size =
    not (ltb size (header_size + 4)) && not (ltb (header_size + limits.block_bytes) size)

-- The tests of the loop on a regular file.
unfoldable pub judge : Mode → Limits → Bool → Bytes → ℕ → Outcome Verdict
judge mode limits initialize name size =
    let counted = guard (is_block name && sized limits size) >> found tally in
    let staged = if is_staged_block name then found discard else counted in
    let partial =
      guard (bytes_eq name (pending_name identity_name) && leb size 256) >> found skip in
    guard (not (is_create mode))
    >> (if bytes_eq name identity_name then found skip else if initialize then partial else staged)

-- The blocks and bytes counted so far.
pub record Totals : Type 0 where
  pub blocks : ℕ
  pub bytes : ℕ

unfoldable pub count_block : Limits → ℕ → Totals → Outcome Totals
count_block limits size t = do
  guard (leb (t.blocks + 1) limits.blocks && leb size (limits.total_bytes - t.bytes))
  found (record { blocks = t.blocks + 1; bytes = t.bytes + size })

-- One pass of the loop for a regular file, the `scanned`-th.
unfoldable pub scan_entry :
    Mode → Limits → Bool → ℕ → Totals → Store → Bytes → ℕ → Store × Outcome Totals
scan_entry mode limits initialize scanned t store name size =
    let judged = elim (judge mode limits initialize name size) as (λ _. Store × Outcome Totals) [
      | found skip ↦ (store, found t)
      | found discard ↦ (if is_reading mode then store else put name vacant store, found t)
      | found tally ↦ (store, count_block limits size t)
      | refused ↦ (store, refused)
      | spent ↦ (store, spent)
    ] in
    if ltb 8194 scanned then (store, refused) else judged

-- The next pass, where the pass before it threw nothing.
abbrev pub continue_with :
    (Totals → Store → Store × Outcome Totals) → Store × Outcome Totals → Store × Outcome Totals
continue_with go (store, found t) = go t store
continue_with go (store, refused) = (store, refused)
continue_with go (store, spent) = (store, spent)

-- The loop; `rest` is what `readdir` still lists, `store` the directory with what was removed.
unfoldable pub scan_loop :
    Mode → Limits → Bool → ℕ → Totals → Store → Store → Store × Outcome Totals
scan_loop mode limits initialize scanned t store [] = (store, found t)
scan_loop mode limits initialize scanned t store ((name, vacant) ∷ rest) =
    scan_loop mode limits initialize scanned t store rest
scan_loop mode limits initialize scanned t store ((name, foreign) ∷ rest) = (store, refused)
scan_loop mode limits initialize scanned t store ((name, file image) ∷ rest) =
    continue_with
      (λ (t' : Totals) (store' : Store).
        scan_loop mode limits initialize (scanned + 1) t' store' rest)
      (scan_entry mode limits initialize (scanned + 1) t store name (length image))

abbrev pub opened : Mode → Limits → Bytes → Totals → Store → Impl
opened mode limits identity t store = record {
  store = store;
  identity = identity;
  limits = limits;
  bytes = t.bytes;
  hits = 0;
  blocks = t.blocks;
  healthy = true;
  is_read_only = is_reading mode;
}

-- `unlinkat` of the staged identity, in a resumed directory.
abbrev pub without_partial : Mode → Store → Store
without_partial resume store = put (pending_name identity_name) vacant store
without_partial _ store = store

abbrev pub opened_after :
    Mode → Limits → Bytes → Totals → Store × Outcome (Unit {0}) → Store × Outcome Impl
opened_after mode limits identity t (store, found _) =
    (store, found (opened mode limits identity t store))
opened_after mode limits identity t (store, refused) = (store, refused)
opened_after mode limits identity t (store, spent) = (store, spent)

-- The last `fsync` of the directory, which a reader does not make.
abbrev pub sync_directory : Mode → Bool → Outcome (Unit {0})
sync_directory mode synced = guard (is_reading mode || synced)

-- The object, where neither the publication of the identity nor the last `fsync` threw.
abbrev pub opened_synced :
    Mode → Limits → Bytes → Totals → Bool → Store × Outcome (Unit {0}) → Store × Outcome Impl
opened_synced mode limits identity t synced (store, written) =
    opened_after mode limits identity t (store, written >> sync_directory mode synced)

-- What follows the scan. `synced` is whether the last `fsync` succeeds.
unfoldable pub initialized :
    Disk → Bool → Mode → Limits → Bytes → Bool → Store × Outcome Totals → Store × Outcome Impl
initialized disk synced mode limits identity initialize (store, found t) =
    opened_synced mode limits identity t synced (
      if initialize
      then publish disk identity_name (manifest identity) (without_partial mode store)
      else (store, found tt))
initialized disk synced mode limits identity initialize (store, refused) = (store, refused)
initialized disk synced mode limits identity initialize (store, spent) = (store, spent)

-- What the constructor asks before it scans. `locked` is whether the directory and its lock could be
-- opened and owned.
unfoldable pub check_open : Bool → Mode → Limits → Bytes → Store → Outcome Bool
check_open locked mode limits identity store = do
  guard (valid_digest identity && valid_limits limits)
  guard locked
  initializes mode identity (node_of identity_name store)

unfoldable pub open_as :
    Disk → Bool → Mode → Limits → Bytes → Store → Outcome Bool → Store × Outcome Impl
open_as disk synced mode limits identity store (found initialize) =
    initialized disk synced mode limits identity initialize
      (scan_loop mode limits initialize 0 (record { blocks = 0; bytes = 0 }) store store)
open_as disk synced mode limits identity store refused = (store, refused)
open_as disk synced mode limits identity store spent = (store, spent)

-- The constructor.
unfoldable pub open_checkpoint :
    Bool → Disk → Bool → Mode → Limits → Bytes → Store → Store × Outcome Impl
open_checkpoint locked disk synced mode limits identity store =
    open_as disk synced mode limits identity store (check_open locked mode limits identity store)

-- The identity that a manifest names.
unfoldable pub identity_in : Node → Outcome Bytes
identity_in vacant = refused
identity_in foreign = refused
identity_in (file text) = do
  guard (length text == length manifest_head + 65)
  let id = take 64 (drop (length manifest_head) text)
  guard (
      bytes_eq (take (length manifest_head) text) manifest_head
      && (bytes_eq (drop (length manifest_head + 64) text) (b'\n' ∷ []) && valid_digest id))
  found id

unfoldable pub stored_identity : Store → Outcome Bytes
stored_identity store = identity_in (node_of identity_name store)
