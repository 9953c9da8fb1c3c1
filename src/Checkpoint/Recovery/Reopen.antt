-- ===== src/Checkpoint/Recovery/Reopen.antt =====
-- src/io/block_checkpoint.cpp: the constructor, resuming a directory that holds blocks.
use resonantia.Digest.{valid_digest}
use resonantia.Checkpoint.{Impl, Limits, block_name, identity_name, manifest, pending_name, resume}
use resonantia.Checkpoint.Names.{block_name-ne-pending_name, bytes_eq-ne, ne-bytes_eq}
use resonantia.Checkpoint.Open.{
  Totals, scan_loop, check_open, open_as, initialized, initializes, is_staged_block,
  open_checkpoint, opened, valid_limits,
}
use resonantia.Checkpoint.Recovery.{Holds, put-Holds}
use resonantia.Checkpoint.Refinement.{Refines}
use resonantia.Checkpoint.Refinement.Step.{limits-small}
use resonantia.Checkpoint.Scan.{
  AllEntries, IsEntry, blocks_in, bytes_in, cleared, foreign-not-IsEntry, is_committed, is_identity,
  is_staged, is_vacant, measure, measure-files, measure-put, others_in, scan_loop-cleared,
}
use resonantia.Checkpoint.Scan.Names.{
  identity_name-ne-pending_name, is_staged_block-block_name, is_staged_block-identity_name,
  is_staged_block-is_block, is_staged_block-pending_name,
}
use resonantia.Checkpoint.Session.{Disk}
use resonantia.Checkpoint.Spec.{Blocks, total}
use resonantia.Directory.{
  Store, bytes_eq_self, file, foreign, node_of, node_of-put_ne, node_of-put_self, put, vacant,
}
use resonantia.Outcome.{found}
use resonantia.Prelude.{
  false, Bool-cases, Bytes, [], ap, arith, bytes_eq, bytes_eq_iff, inl, inr, length, refl, sym,
  true, ℕ, ◌+◌, ◌∙◌, ◌∷◌, ◌≡◌, ◌≤◌,
}

-- A staged block that the scan removes, whatever it holds.
discard-Holds :
    {limits : Limits} {id : Bytes} {m : Blocks} (name : Bytes) (store : Store) (x : ℕ)
    → is_staged_block name ≡ true
    → Holds x limits id store m
    → Holds x limits id (put name vacant store) m
discard-Holds name store x s h =
    put-Holds name vacant store x x (is_staged_block-is_block name s)
      (bytes_eq-ne identity_name name (λ (e : identity_name ≡ name).
        let t : is_staged_block identity_name ≡ true = ap is_staged_block e ∙ s in
        let f = is_staged_block-identity_name in cc))
      (λ (key : Bytes). bytes_eq-ne (block_name key) name (λ (e : block_name key ≡ name).
        let t : is_staged_block (block_name key) ≡ true = ap is_staged_block e ∙ s in
        let f = is_staged_block-block_name key in cc))
      (is_vacant name) h
      (omega (arith, measure-put others_in name vacant store (λ (n : Bytes). refl), h.others))

cleared-Holds :
    {limits : Limits} {id : Bytes} {m : Blocks} (store rest : Store) (x : ℕ)
    → Holds x limits id store m
    → Holds x limits id (cleared store rest) m
unfolding cleared
cleared-Holds store [] x h = h
cleared-Holds store ((name, vacant) ∷ rest) x h = cleared-Holds store rest x h
cleared-Holds store ((name, foreign) ∷ rest) x h = cleared-Holds store rest x h
cleared-Holds store ((name, file image) ∷ rest) x h = elim (Bool-cases (is_staged_block name)) [
  | inl s ↦ rw s (cleared-Holds (put name vacant store) rest x (discard-Holds name store x s h))
  | inr s ↦ rw s (cleared-Holds store rest x h)
]

-- A file under the name of a staged block is one.
staged_entry :
    (limits : Limits) (name image k : Bytes)
    → IsEntry limits name (file image)
    → name ≡ pending_name (block_name k)
    → is_staged_block name ≡ true
staged_entry limits name image k (is_identity text) e =
    let off = identity_name-ne-pending_name (block_name k) in
    absurd (ne-bytes_eq identity_name (pending_name (block_name k)) off e)
staged_entry limits name image k (is_committed key image' v s) e = absurd (
    ne-bytes_eq (block_name key) (pending_name (block_name k))
      (block_name-ne-pending_name key (block_name k)) e)
staged_entry limits name image k (is_staged key image' v) e = is_staged_block-pending_name key v

-- Removing an entry leaves what is vacant vacant.
vacated :
    (name other : Bytes) (store : Store)
    → node_of name store ≡ vacant
    → node_of name (put other vacant store) ≡ vacant
vacated name other store h = elim (Bool-cases (bytes_eq name other)) [
  | inl e ↦
      let same : name ≡ other = (bytes_eq_iff name other).0 e in
      ap (λ x. node_of x (put other vacant store)) same ∙ node_of-put_self other vacant store
  | inr e ↦ node_of-put_ne other name vacant store e ∙ h
]

-- No staged block is left: one that the list does not show is not there.
cleared-unstaged :
    (limits : Limits) (k : Bytes) (store rest : Store)
    → AllEntries limits rest
    → (node_of (pending_name (block_name k)) rest ≡ vacant
        → node_of (pending_name (block_name k)) store ≡ vacant)
    → node_of (pending_name (block_name k)) (cleared store rest) ≡ vacant
unfolding cleared node_of
cleared-unstaged limits k store [] a h = h refl
cleared-unstaged limits k store ((name, foreign) ∷ rest) a h = absurd (foreign-not-IsEntry a.0)
cleared-unstaged limits k store ((name, vacant) ∷ rest) a h =
    cleared-unstaged limits k store rest a.1
      (λ (z : node_of (pending_name (block_name k)) rest ≡ vacant).
        elim (Bool-cases (bytes_eq (pending_name (block_name k)) name)) [
          | inl e ↦ h (rw e refl)
          | inr e ↦ h (rw e z)
        ])
cleared-unstaged limits k store ((name, file image) ∷ rest) a h =
    let staged = pending_name (block_name k) in
    elim (Bool-cases (bytes_eq staged name)) [
      | inl e ↦
          let same : staged ≡ name = (bytes_eq_iff staged name).0 e in
          let s = staged_entry limits name image k a.0 (sym same) in
          let gone : node_of staged (put name vacant store) ≡ vacant =
            ap (λ x. node_of x (put name vacant store)) same ∙ node_of-put_self name vacant store in
          rw s (
            cleared-unstaged limits k (put name vacant store) rest a.1
              (λ (z : node_of staged rest ≡ vacant). gone))
      | inr e ↦ elim (Bool-cases (is_staged_block name)) [
        | inr s ↦ rw s (
            cleared-unstaged limits k store rest a.1
              (λ (z : node_of staged rest ≡ vacant). h (rw e z)))
        | inl s ↦ rw s (
            cleared-unstaged limits k (put name vacant store) rest a.1
              (λ (z : node_of staged rest ≡ vacant). vacated staged name store (h (rw e z))))
      ]
    ]

pub valid_digest-length : (id : Bytes) → valid_digest id ≡ true → length id ≡ 64
unfolding valid_digest
valid_digest-length id v = ground (arith, v)

-- A session that resuming gives.
pub record Resumed (extra : ℕ) (limits : Limits) (id : Bytes) (store : Store) (m : Blocks)
    : Type 0 where
  pub session : Impl
  pub opens :
      (disk : Disk)
      → open_checkpoint true disk true resume limits id store ≡ (session.store, found session)
  pub refines : Refines session m
  pub holds : Holds extra limits id session.store m
  pub same_limits : session.limits ≡ limits
  pub same_id : session.identity ≡ id

-- A directory that holds blocks within the limits is resumed, with its staged blocks gone and its blocks
-- all there.
pub Holds-Resumed :
    (extra : ℕ) (limits : Limits) (id : Bytes) (store : Store) (m : Blocks)
    → valid_digest id ≡ true
    → valid_limits limits ≡ true
    → length m ≤ limits.blocks
    → total m ≤ limits.total_bytes
    → extra ≤ 4098
    → Holds extra limits id store m
    → Resumed extra limits id store m
unfolding open_checkpoint open_as initialized
Holds-Resumed extra limits id store m v l few fits small h =
    let (_, _, most) = limits-small limits l in
    let n : 0 + measure blocks_in store ≡ length m = omega (arith, h.counted) in
    let b : 0 + measure bytes_in store ≡ total m = omega (arith, h.summed) in
    let scanned =
      scan_loop-cleared limits 0 (record { blocks = 0; bytes = 0 }) store store h.entries
        (omega (arith, measure-files store, h.others, h.counted, few, most))
        (omega (arith, h.counted, few)) (omega (arith, h.summed, fits)) in
    let none_yet : Totals = record { blocks = 0; bytes = 0 } in
    let counted : Totals = record { blocks = length m; bytes = total m } in
    let scanned' : scan_loop resume limits false 0 none_yet store store
        ≡ (cleared store store, found counted) =
      scanned ∙ rw (n, b) refl in
    let checked : check_open true resume limits id store ≡ found false =
      unfold check_open initializes in rw (v, l, h.named, bytes_eq_self (manifest id)) refl in
    let still = cleared-Holds store store extra h in
    record {
      session =
          opened resume limits id (record { blocks = length m; bytes = total m })
            (cleared store store);
      opens = λ disk.
          ap (open_as disk true resume limits id store) checked
          ∙ ap (initialized disk true resume limits id false) scanned';
      refines = record {
        well = refl;
        writable = refl;
        identified = valid_digest-length id v;
        limited = l;
        counted = refl;
        summed = refl;
        few = few;
        fits = fits;
        unstaged = λ (k : Bytes). cleared-unstaged limits k store store h.entries (λ z. z);
        stands = still.stands;
      };
      holds = still;
      same_limits = refl;
      same_id = refl;
    }
