-- ===== src/Tasks/Storage/Pruned.antt =====
-- tools/web/task_storage.cpp: what `prune_task_copies` leaves, whatever becomes of it.
use resonantia.Outcome.{spent, Outcome, found, refused}
use resonantia.Prelude.{
  Bool, if◌then◌else◌, leb, ◌-◌, ◌∙◌, Bool-cases, Bytes, List, [], ap, arith, bytes_eq,
  bytes_eq_iff, contains, false, inl, inr, length, refl, sym, ℕ, ◌+◌, ◌∷◌, ◌≡◌,
}
use resonantia.Tasks.Storage.{
  linked, Item, Items, end, entry, find, folder, regular, retired, special,
}
use resonantia.Tasks.Storage.Measured.{bytes_below, bytes_of}
use resonantia.Tasks.Storage.Prune.{freeing, remove_copies, remove, remove_copy}
use resonantia.Prelude.Number.{u64_max}

find-remove_ne :
    (other name : Bytes) (items : Items)
    → bytes_eq other name ≡ false
    → find other (remove name items) ≡ find other items
unfolding find remove
find-remove_ne other name end h = refl
find-remove_ne other name (entry n item rest) h = elim (Bool-cases (bytes_eq name n)) [
  | inr e ↦ rw e (rw (find-remove_ne other name rest h) refl)
  | inl e ↦
      let same : name ≡ n = (bytes_eq_iff name n).0 e in
      let off : bytes_eq other n ≡ false = rw (← same) h in rw e (rw off refl)
]

remove-bytes :
    (name : Bytes) (items : Items) (s : Bytes)
    → find name items ≡ regular s
    → bytes_below (remove name items) + length s ≡ bytes_below items
unfolding find remove bytes_below
remove-bytes name end s h = cc
remove-bytes name (entry n item rest) s h = elim (Bool-cases (bytes_eq name n)) [
  | inl e ↦ let h' : item ≡ regular s = rw e at h in rw (e, h') (unfold bytes_of in omega arith)
  | inr e ↦ let h' = rw e at h in rw e (omega (arith, remove-bytes name rest s h'))
]

-- One removal: nothing but the name is touched, and the freed bytes are missing.
pub record Removed (names : List Bytes) (freed : ℕ) (work : Items) (r : Items × Outcome ℕ)
    : Type 0 where
  pub keeps : (other : Bytes) → contains other names ≡ false → find other r.0 ≡ find other work
  pub counts : (n : ℕ) → r.1 ≡ found n → n + bytes_below r.0 ≡ freed + bytes_below work

untouched :
    (names : List Bytes) (freed : ℕ) (work : Items) (o : Outcome ℕ)
    → ((n : ℕ) → o ≡ found n → n ≡ freed)
    → Removed names freed work (work, o)
untouched names freed work o h = record {
  keeps = λ other k. refl;
  counts = λ n e. ap (λ m. m + bytes_below work) (h n e);
}

not_first :
    (other name : Bytes) (names : List Bytes)
    → contains other (name ∷ names) ≡ false
    → bytes_eq other name ≡ false
unfolding contains
not_first other name names h = ground (arith, h)

remove_copy-Removed :
    (unlinks : Bytes → Bool) (name : Bytes) (work : Items)
    → Removed (name ∷ []) 0 work (remove_copy unlinks name work)
unfolding remove_copy
remove_copy-Removed unlinks name work = go (find name work) refl
  where
    removed : Item → Items × Outcome ℕ
    removed item = elim item [
      | retired ↦ (work, found 0)
      | regular s ↦ if unlinks name then (remove name work, found (length s)) else (work, refused)
      | linked _ ↦ (work, refused)
      | folder _ ↦ (work, refused)
      | special ↦ (work, refused)
    ]

    taken :
        (s : Bytes)
        → find name work ≡ regular s
        → Removed (name ∷ []) 0 work (remove name work, found (length s))
    taken s e = record {
      keeps = λ (other : Bytes) (k : contains other (name ∷ []) ≡ false).
          find-remove_ne other name work (not_first other name [] k);
      counts = λ (n : ℕ) (k : found (length s) ≡ found n).
          let m : n ≡ length s = ap (λ o. elim o [ found m ↦ m | _ ↦ 0 ]) (sym k) in
          omega (arith, remove-bytes name work s e);
    }

    go : (item : Item) → find name work ≡ item → Removed (name ∷ []) 0 work (removed item)
    go retired e =
        untouched (name ∷ []) 0 work (found 0)
          (λ (n : ℕ) (k : found 0 ≡ found n). ap (λ o. elim o [ found m ↦ m | _ ↦ 0 ]) (sym k))
    go (folder _) e = untouched (name ∷ []) 0 work refused (λ (n : ℕ) (k : refused ≡ found n). cc)
    go (linked _) e = untouched (name ∷ []) 0 work refused (λ (n : ℕ) (k : refused ≡ found n). cc)
    go special e = untouched (name ∷ []) 0 work refused (λ (n : ℕ) (k : refused ≡ found n). cc)
    go (regular s) e = elim (Bool-cases (unlinks name)) [
      | inl k ↦ rw k (taken s e)
      | inr k ↦ rw k (untouched (name ∷ []) 0 work refused (λ (n : ℕ) (k : refused ≡ found n). cc))
    ]

one_of_both :
    (other name : Bytes) (names : List Bytes)
    → contains other (name ∷ names) ≡ false
    → (contains other (name ∷ []) ≡ false) × (contains other names ≡ false)
unfolding contains
one_of_both other name names h = (ground (arith, h), ground (arith, h))

-- A removal in front of others.
freeing-Removed :
    (name : Bytes) (names : List Bytes) (freed : ℕ) (work : Items)
    (go : ℕ → Items → Items × Outcome ℕ) (r : Items × Outcome ℕ)
    → Removed (name ∷ []) 0 work r
    → ((f : ℕ) (w : Items) → Removed names f w (go f w))
    → Removed (name ∷ names) freed work (freeing go freed r)
freeing-Removed name names freed work go (w, refused) h k = record {
  keeps = λ (other : Bytes) (o : contains other (name ∷ names) ≡ false).
      h.keeps other (one_of_both other name names o).0;
  counts = λ (n : ℕ) (e : refused ≡ found n). cc;
}
freeing-Removed name names freed work go (w, spent) h k = record {
  keeps = λ (other : Bytes) (o : contains other (name ∷ names) ≡ false).
      h.keeps other (one_of_both other name names o).0;
  counts = λ (n : ℕ) (e : spent ≡ found n). cc;
}
freeing-Removed name names freed work go (w, found m) h k =
    elim (Bool-cases (leb m (u64_max - freed))) [
      | inr e ↦ rw e (record {
        keeps = λ (other : Bytes) (o : contains other (name ∷ names) ≡ false).
            h.keeps other (one_of_both other name names o).0;
        counts = λ (n : ℕ) (e : refused ≡ found n). cc;
      })
      | inl e ↦ rw e (record {
        keeps = λ (other : Bytes) (o : contains other (name ∷ names) ≡ false).
            let (first, rest) = one_of_both other name names o in
            (k (freed + m) w).keeps other rest ∙ h.keeps other first;
        counts = λ (n : ℕ) (e : (go (freed + m) w).1 ≡ found n).
            let a = (k (freed + m) w).counts n e in let b = h.counts m refl in omega (arith, a, b);
      })
    ]

-- All removals, one after the other, up to the first that fails.
pub remove_copies-Removed :
    (unlinks : Bytes → Bool) (names : List Bytes) (freed : ℕ) (work : Items)
    → Removed names freed work (remove_copies unlinks names freed work)
unfolding remove_copies
remove_copies-Removed unlinks [] freed work =
    untouched [] freed work (found freed)
      (λ (n : ℕ) (k : found freed ≡ found n). ap (λ o. elim o [ found m ↦ m | _ ↦ freed ]) (sym k))
remove_copies-Removed unlinks (name ∷ names) freed work =
    freeing-Removed name names freed work (remove_copies unlinks names)
      (remove_copy unlinks name work) (remove_copy-Removed unlinks name work)
      (λ f w. remove_copies-Removed unlinks names f w)
