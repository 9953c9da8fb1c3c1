-- ===== src/Tasks/Storage/Total.antt =====
-- tools/web/task_storage.cpp: what the measurement adds up.
use resonantia.Outcome.{
  >>=-eq-found, Outcome, found, guard, guard-eq-found, of_option, refused, spent, ◌>>◌,
}
use resonantia.Prelude.{
  Bool, Bool-cases, List, [], ap, arith, false, if◌then◌else◌, inl, inr, leb, length, ltb, sym,
  true, ℕ, ◌&&◌, ◌+◌, ◌-◌, ◌/◌, ◌∙◌, ◌∷◌, ◌≡◌, ◌≤◌,
}
use resonantia.Prelude.Number.{u64_max}
use resonantia.Tasks.{TaskRecord}
use resonantia.Tasks.Storage.{
  linked, Item, Items, Shares, Usage, end, enter_records, entry, folder, full_training, max_depth,
  max_entries, measure_task_storage, owned_training, regular, retired, root_loop, scan_item,
  scan_tree, set_share, share_of, special, training_loop,
}
use resonantia.Tasks.Storage.Measured.{
  allows, bytes_below, bytes_of, fits_below, names_below, scan_items-eq,
}

guard_found : {A : Type 0} (b : Bool) {x y : A} → (guard b >> found x) ≡ found y → x ≡ y
guard_found true {x = x} h = ap (λ o. elim o [ found a ↦ a | _ ↦ x ]) h
guard_found false h = cc

counted_once :
    (scanned size : ℕ) {r : ℕ × ℕ}
    → (guard (leb (scanned + 1) max_entries) >> found (size, scanned + 1)) ≡ found r
    → (r.0 ≡ size) × (r.1 ≤ max_entries)
counted_once scanned size {r = r} h =
    let (_, first, _) = >>=-eq-found (guard (leb (scanned + 1) max_entries)) _ h in
    let ok = guard-eq-found _ first in
    let p = guard_found (leb (scanned + 1) max_entries) h in
    let n : scanned + 1 ≡ r.1 = ap (λ p. p.1) p in (sym (ap (λ p. p.0) p), ground (arith, ok, n))

-- What a scan that succeeds adds up.
scan_item-bytes :
    (depth scanned : ℕ) (item : Item) {r : ℕ × ℕ}
    → scan_item depth scanned item ≡ found r
    → (r.0 ≡ bytes_of item) × (r.1 ≤ max_entries)
unfolding scan_item bytes_of
scan_item-bytes depth scanned (regular s) h = counted_once scanned (length s) h
scan_item-bytes depth scanned (linked s) h = counted_once scanned (length s) h
scan_item-bytes depth scanned retired h = counted_once scanned 0 h
scan_item-bytes depth scanned special h = cc
scan_item-bytes depth scanned (folder items) {r = r} h =
    let (_, first, h1) = >>=-eq-found (guard (leb (scanned + 1) max_entries)) _ h in
    let (_, _, h2) = >>=-eq-found (guard (leb (depth + 1) max_depth)) _ h1 in
    let small = guard-eq-found _ first in
    let e = scan_items-eq (depth + 1) 0 (scanned + 1) items (ground (arith, small)) (omega arith) in
    let test =
      allows (fits_below (depth + 1) items) (scanned + 1 + names_below items)
        (0 + bytes_below items) in
    let h3 = sym e ∙ h2 in
    let (_, last, _) = >>=-eq-found (guard test) _ h3 in
    let ok : test ≡ true = guard-eq-found _ last in
    let p = guard_found test h3 in
    let b : 0 + bytes_below items ≡ r.0 = ap (λ p. p.0) p in
    let n : scanned + 1 + names_below items ≡ r.1 = ap (λ p. p.1) p in
    (omega arith, ground (arith, ok, n))

root_loop-bytes :
    (managed scanned : ℕ) (shares : Shares) (items : Items) {r : ℕ × ℕ × Shares}
    → scanned ≤ max_entries
    → root_loop managed scanned shares items ≡ found r
    → (r.0 ≡ managed + bytes_below items) × (r.1 ≤ max_entries)
unfolding root_loop bytes_below
root_loop-bytes managed scanned shares end {r = r} k h =
    let e : managed ≡ r.0 = ap (λ o. elim o [ found a ↦ a.0 | _ ↦ managed ]) h in
    let n : scanned ≡ r.1 = ap (λ o. elim o [ found a ↦ a.1 | _ ↦ scanned ]) h in
    (omega arith, omega arith)
root_loop-bytes managed scanned shares (entry name item rest) k h =
    let ((bytes, scanned'), first, h1) = >>=-eq-found (scan_item 0 scanned item) _ h in
    let (_, _, h2) = >>=-eq-found (guard (leb bytes (u64_max - managed))) _ h1 in
    let (size, few) = scan_item-bytes 0 scanned item first in
    let (total', few') =
      root_loop-bytes (managed + bytes) scanned' (set_share name bytes shares) rest few h2 in
    (omega (arith, total', size), few')

-- The bytes of the trainings that the records own.
abbrev pub training_bytes : Outcome Items → ℕ
training_bytes (found full) = bytes_below full
training_bytes refused = 0
training_bytes spent = 0

unfoldable pub trainings_below : Items → List TaskRecord → ℕ
trainings_below runs [] = 0
trainings_below runs (r ∷ rs) =
    let rest = trainings_below runs rs in
    if full_training r then training_bytes (owned_training runs r) + rest else rest

scan_tree-bytes :
    (scanned : ℕ) (full : Items) {r : ℕ × ℕ}
    → scanned ≤ max_entries
    → scan_tree 0 scanned full ≡ found r
    → (r.0 ≡ bytes_below full) × (r.1 ≤ max_entries)
unfolding scan_tree
scan_tree-bytes scanned full {r = r} k h =
    let e = scan_items-eq 0 0 scanned full k (omega arith) in
    let h' = sym e ∙ h in
    let test = allows (fits_below 0 full) (scanned + names_below full) (0 + bytes_below full) in
    let (_, first, _) = >>=-eq-found (guard test) _ h' in
    let ok : test ≡ true = guard-eq-found _ first in
    let p : (0 + bytes_below full, scanned + names_below full) ≡ r = guard_found test h' in
    let b : 0 + bytes_below full ≡ r.0 = ap (λ p. p.0) p in
    let n : scanned + names_below full ≡ r.1 = ap (λ p. p.1) p in
    (omega arith, ground (arith, ok, n))

training_loop-bytes :
    (runs : Items) (managed scanned : ℕ) (shares : Shares) (rs : List TaskRecord) {o : ℕ × Shares}
    → scanned ≤ max_entries
    → training_loop runs managed scanned shares rs ≡ found o
    → o.0 ≡ managed + trainings_below runs rs
unfolding training_loop trainings_below
training_loop-bytes runs managed scanned shares [] {o = o} k h =
    let e : managed ≡ o.0 = ap (λ p. elim p [ found a ↦ a.0 | _ ↦ managed ]) h in omega arith
training_loop-bytes runs managed scanned shares (r ∷ rs) {o = o} k h =
    elim (Bool-cases (full_training r)) [
      | inr e ↦ let h' = rw e at h in rw e (training_loop-bytes runs managed scanned shares rs k h')
      | inl e ↦
          let h' = rw e at h in
          let (full, owned, h1) = >>=-eq-found (owned_training runs r) _ h' in
          let ((bytes, scanned'), scan, h2) = >>=-eq-found (scan_tree 0 scanned full) _ h1 in
          let (_, _, h3) = >>=-eq-found (guard (leb bytes (u64_max - managed))) _ h2 in
          let (share, _, h4) = >>=-eq-found (of_option (share_of r.id shares)) _ h3 in
          let (_, _, h5) = >>=-eq-found (guard (leb bytes (u64_max - share))) _ h4 in
          let (size, more) = scan_tree-bytes scanned full k scan in
          let rest =
            training_loop-bytes runs (managed + bytes) scanned'
              (set_share r.id (share + bytes) shares) rs more h5 in
          rw (e, owned) (omega (arith, rest, size))
    ]

-- A measurement that succeeds has counted each name of a file once, with the bytes of the file: all names
-- under the root, and all names in the directories that the full trainings own. A file with several names
-- counts at each of them.
pub measure-managed_bytes :
    (root runs : Items) (space : ℕ × ℕ) (records : List TaskRecord) (u : Usage)
    → measure_task_storage root runs space records ≡ found u
    → u.managed_bytes ≡ bytes_below root + trainings_below runs records
unfolding measure_task_storage
measure-managed_bytes root runs space records u h =
    let (_, _, h1) = >>=-eq-found (guard (leb (length records) 4096)) _ h in
    let (_, _, h2) = >>=-eq-found (guard (ltb 0 space.0 && leb space.1 (u64_max / space.0))) _ h1 in
    let (shares, _, h3) = >>=-eq-found (enter_records [] records) _ h2 in
    let ((managed, scanned, shares'), first, h4) = >>=-eq-found (root_loop 0 0 shares root) _ h3 in
    let ((managed', shares''), last, h5) =
      >>=-eq-found (training_loop runs managed scanned shares' records) _ h4 in
    let (total', few) = root_loop-bytes 0 0 shares root (omega arith) first in
    let rest = training_loop-bytes runs managed scanned shares' records few last in
    let e : managed' ≡ u.managed_bytes =
      ap (λ o. elim o [ found a ↦ a.managed_bytes | _ ↦ managed' ]) h5 in
    omega (arith, total', rest)
