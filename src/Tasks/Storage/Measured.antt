-- ===== src/Tasks/Storage/Measured.antt =====
-- tools/web/task_storage.cpp: the scan against the sizes of the tree.
use resonantia.Outcome.{Outcome, ◌>>=◌, found, guard, ◌>>◌}
use resonantia.Prelude.{
  ◌∙◌, Bool-cases, arith, inl, inr, ◌-◌, Bool, false, leb, length, refl, suc, true, ℕ, ◌&&◌, ◌+◌,
  ◌≡◌, ◌≤◌,
}
use resonantia.Prelude.Number.{u64_max}
use resonantia.Tasks.Storage.{
  linked, end, retired, special, linked, entry, folder, regular, Item, Items, max_depth,
  max_entries, scan_item, scan_items,
}

-- The bytes of all files below, and the names.
unfoldable mutual
  pub bytes_of : Item → ℕ
  bytes_of (regular s) = length s
  bytes_of (linked s) = length s
  bytes_of (folder items) = bytes_below items
  bytes_of retired = 0
  bytes_of special = 0

  pub bytes_below : Items → ℕ
  bytes_below end = 0
  bytes_below (entry name item rest) = bytes_of item + bytes_below rest

unfoldable mutual
  pub names_of : Item → ℕ
  names_of (regular s) = 1
  names_of (linked s) = 1
  names_of (folder items) = suc (names_below items)
  names_of retired = 1
  names_of special = 1

  pub names_below : Items → ℕ
  names_below end = 0
  names_below (entry name item rest) = names_of item + names_below rest

-- Only files and directories, none below the greatest depth.
unfoldable mutual
  pub fits : ℕ → Item → Bool
  fits depth (regular s) = true
  fits depth (linked s) = true
  fits depth (folder items) = leb (depth + 1) max_depth && fits_below (depth + 1) items
  fits depth retired = true
  fits depth special = false

  pub fits_below : ℕ → Items → Bool
  fits_below depth end = true
  fits_below depth (entry name item rest) = fits depth item && fits_below depth rest

abbrev pub allows : Bool → ℕ → ℕ → Bool
allows plain scanned bytes = plain && (leb scanned max_entries && leb bytes u64_max)

guard_then :
    {A B : Type 0} (a : Bool) (x : A) (f : A → Outcome B)
    → ((guard a >> found x) >>= f) ≡ (guard a >> f x)
guard_then true x f = refl
guard_then false x f = refl

-- Two tests in a row are one.
two_guards :
    {A : Type 0} (a b c : Bool) (o : Outcome A)
    → c ≡ (a && b)
    → (guard a >> (guard b >> o)) ≡ (guard c >> o)
two_guards true true c o e = rw e refl
two_guards true false c o e = rw e refl
two_guards false b c o e = rw e refl

mutual
  unfolding scan_item scan_items bytes_of names_of fits

  -- An entry whose bytes are then added.
  scan_item-eq :
      (depth scanned bytes : ℕ) (item : Item) (k : ℕ × ℕ → Outcome (ℕ × ℕ))
      → bytes ≤ u64_max
      → (scan_item depth scanned item >>= λ r. guard (leb r.0 (u64_max - bytes)) >> k r) ≡ (
          guard (allows (fits depth item) (scanned + names_of item) (bytes + bytes_of item))
          >> k (bytes_of item, scanned + names_of item))
  scan_item-eq depth scanned bytes (regular s) k h =
      guard_then (leb (scanned + 1) max_entries) (length s, scanned + 1)
        (λ (r : ℕ × ℕ). guard (leb r.0 (u64_max - bytes)) >> k r)
      ∙ two_guards (leb (scanned + 1) max_entries) (leb (length s) (u64_max - bytes))
          (allows true (scanned + 1) (bytes + length s)) (k (length s, scanned + 1)) (ground arith)
  scan_item-eq depth scanned bytes (linked s) k h =
      guard_then (leb (scanned + 1) max_entries) (length s, scanned + 1)
        (λ (r : ℕ × ℕ). guard (leb r.0 (u64_max - bytes)) >> k r)
      ∙ two_guards (leb (scanned + 1) max_entries) (leb (length s) (u64_max - bytes))
          (allows true (scanned + 1) (bytes + length s)) (k (length s, scanned + 1)) (ground arith)
  scan_item-eq depth scanned bytes retired k h =
      guard_then (leb (scanned + 1) max_entries) (0, scanned + 1)
        (λ (r : ℕ × ℕ). guard (leb r.0 (u64_max - bytes)) >> k r)
      ∙ two_guards (leb (scanned + 1) max_entries) (leb (0) (u64_max - bytes))
          (allows true (scanned + 1) (bytes + 0)) (k (0, scanned + 1)) (ground arith)
  scan_item-eq depth scanned bytes special k h = refl
  scan_item-eq depth scanned bytes (folder items) k h =
      elim (Bool-cases (leb (scanned + 1) max_entries)) [
        | inr e ↦
            let no : allows (leb (depth + 1) max_depth && fits_below (depth + 1) items)
                  (scanned + suc (names_below items)) (bytes + bytes_below items)
                ≡ false =
              ground arith in
            rw (e, no) refl
        | inl e ↦ elim (Bool-cases (leb (depth + 1) max_depth)) [
          | inr f ↦ rw (e, f) refl
          | inl f ↦
              let n = scanned + suc (names_below items) in
              let inner =
                allows (fits_below (depth + 1) items) (scanned + 1 + names_below items)
                  (0 + bytes_below items) in
              let outer = allows (fits_below (depth + 1) items) n (bytes + bytes_below items) in
              let same : scanned + 1 + names_below items ≡ n = omega arith in
              let zero' : 0 + bytes_below items ≡ bytes_below items = omega arith in
              let inner' = allows (fits_below (depth + 1) items) n (bytes_below items) in
              let tests : outer ≡ (inner' && leb (bytes_below items) (u64_max - bytes)) =
                ground arith in
              rw
                (e, f, scan_items-eq (depth + 1) 0 (scanned + 1) items (ground arith) (omega arith))
                (guard_then inner (0 + bytes_below items, scanned + 1 + names_below items)
                    (λ (r : ℕ × ℕ). guard (leb r.0 (u64_max - bytes)) >> k r)
                  ∙ rw (same, zero')
                      (two_guards inner' (leb (bytes_below items) (u64_max - bytes)) outer
                        (k (bytes_below items, n)) tests))
        ]
      ]

  pub scan_items-eq :
      (depth bytes scanned : ℕ) (items : Items)
      → scanned ≤ max_entries
      → bytes ≤ u64_max
      → scan_items depth bytes scanned items ≡ (
          guard (
            allows
              (fits_below depth items)
              (scanned + names_below items)
              (bytes + bytes_below items))
          >> found (bytes + bytes_below items, scanned + names_below items))
  scan_items-eq depth bytes scanned end h k =
      let n : scanned + 0 ≡ scanned = omega arith in
      let b : bytes + 0 ≡ bytes = omega arith in
      let ok : allows true scanned bytes ≡ true = ground arith in rw (n, b, ok) refl
  scan_items-eq depth bytes scanned (entry name item rest) h k =
      let more = bytes_of item in
      let here = allows (fits depth item) (scanned + names_of item) (bytes + more) in
      let n : scanned + (names_of item + names_below rest)
          ≡ scanned + names_of item + names_below rest =
        omega arith in
      let b : bytes + (more + bytes_below rest) ≡ bytes + more + bytes_below rest = omega arith in
      scan_item-eq depth scanned bytes item (λ (r : ℕ × ℕ). scan_items depth (bytes + r.0) r.1 rest)
        k
      ∙ rw (n, b)
          (elim (Bool-cases here) [
            | inr e ↦
                let no : allows (fits depth item && fits_below depth rest)
                      (scanned + names_of item + names_below rest) (bytes + more + bytes_below rest)
                    ≡ false =
                  ground arith in
                rw (e, no) refl
            | inl e ↦
                let same : allows (fits depth item && fits_below depth rest)
                      (scanned + names_of item + names_below rest) (bytes + more + bytes_below rest)
                    ≡ allows (fits_below depth rest) (scanned + names_of item + names_below rest)
                        (bytes + more + bytes_below rest) =
                  ground arith in
                rw (e, same)
                  (scan_items-eq depth (bytes + more) (scanned + names_of item) rest
                    (ground (arith, e)) (ground (arith, e)))
          ])
