-- ===== src/Checkpoint/Scan.antt =====
-- src/io/block_checkpoint.cpp: what the constructor's scan makes of a directory of this format.
pub mod Names
use mathlib.Core.Path.{subst}
use resonantia.Checkpoint.{resume, Limits, block_name, identity_name, pending_name, valid_key}
use resonantia.Checkpoint.Open.{
  continue_with, Totals, count_block, scan_entry, scan_loop, discard, judge, skip, tally, is_block,
  is_staged_block, sized,
}
use resonantia.Directory.{bytes_eq_self, Node, Store, file, foreign, node_of, put, vacant}
use resonantia.Prelude.{
  ◌∙◌, leb, ltb, ◌&&◌, ◌-◌, ◌≤◌, false, Bool-cases, Bytes, [], ap, arith, bytes_eq, bytes_eq_iff,
  if◌then◌else◌, inl, inr, length, refl, true, ℕ, ◌+◌, ◌∷◌, ◌≡◌,
}
use resonantia.Outcome.{found}
use resonantia.Checkpoint.Scan.Names.{
  is_staged_block-is_block, block_name-ne-identity_name, is_block-block_name,
  is_block-identity_name, is_staged_block-block_name, is_staged_block-identity_name,
  is_staged_block-pending_name, pending_name-ne-identity_name,
}

-- A sum over the entries, where a vacant one weighs nothing.
unfoldable pub measure : (Bytes → Node → ℕ) → Store → ℕ
measure w [] = 0
measure w ((name, node) ∷ store) = w name node + measure w store

pub measure-put :
    (w : Bytes → Node → ℕ) (name : Bytes) (node : Node) (store : Store)
    → ((n : Bytes) → w n vacant ≡ 0)
    → measure w (put name node store) + w name (node_of name store) ≡ measure w store + w name node
unfolding measure put node_of
measure-put w name node [] h = omega (arith, h name)
measure-put w name node ((n, old) ∷ store) h = elim (Bool-cases (bytes_eq name n)) [
  | inl e ↦
      let same : name ≡ n = (bytes_eq_iff name n).0 e in
      let weight : w name old ≡ w n old = ap (λ x. w x old) same in
      let weight' : w name node ≡ w n node = ap (λ x. w x node) same in
      let at : node_of name ((n, old) ∷ store) ≡ old = rw e refl in
      let new : put name node ((n, old) ∷ store) ≡ (n, node) ∷ store = rw e refl in
      rw (new, at) (omega (arith, weight, weight'))
  | inr e ↦ rw e (omega (arith, measure-put w name node store h))
]

abbrev pub files : Bytes → Node → ℕ
files name (file image) = 1
files name _ = 0

-- The blocks, their bytes, and the other files.
abbrev pub blocks_in : Bytes → Node → ℕ
blocks_in name (file image) = if is_block name then 1 else 0
blocks_in name _ = 0

abbrev pub bytes_in : Bytes → Node → ℕ
bytes_in name (file image) = if is_block name then length image else 0
bytes_in name _ = 0

abbrev pub others_in : Bytes → Node → ℕ
others_in name (file image) = if is_block name then 0 else 1
others_in name _ = 0

pub measure-files :
    (store : Store) → measure files store ≡ measure blocks_in store + measure others_in store
unfolding measure
measure-files [] = refl
measure-files ((name, vacant) ∷ store) = omega (arith, measure-files store)
measure-files ((name, foreign) ∷ store) = omega (arith, measure-files store)
measure-files ((name, file image) ∷ store) = elim (Bool-cases (is_block name)) [
  | inl e ↦ rw e (omega (arith, measure-files store))
  | inr e ↦ rw e (omega (arith, measure-files store))
]

-- What an entry of a checkpoint directory can be.
pub data IsEntry (limits : Limits) : Bytes → Node → Type 0 where
  is_vacant : (name : Bytes) → IsEntry limits name vacant
  is_identity : (text : Bytes) → IsEntry limits identity_name (file text)
  is_committed :
      (key image : Bytes)
      → valid_key key ≡ true
      → sized limits (length image) ≡ true
      → IsEntry limits (block_name key) (file image)
  is_staged :
      (key image : Bytes)
      → valid_key key ≡ true
      → IsEntry limits (pending_name (block_name key)) (file image)

abbrev pub AllEntries : Limits → Store → Type 0
AllEntries limits [] = Unit {0}
AllEntries limits ((name, node) ∷ store) = IsEntry limits name node × AllEntries limits store

pub put-AllEntries :
    (limits : Limits) (name : Bytes) (node : Node) (store : Store)
    → IsEntry limits name node
    → AllEntries limits store
    → AllEntries limits (put name node store)
unfolding put
put-AllEntries limits name node [] e h = (e, tt)
put-AllEntries limits name node ((n, old) ∷ store) e h = elim (Bool-cases (bytes_eq name n)) [
  | inl t ↦
      let same : name ≡ n = (bytes_eq_iff name n).0 t in
      rw t (subst (λ x. IsEntry limits x node) same e, h.1)
  | inr t ↦ rw t (h.0, put-AllEntries limits name node store e h.1)
]

-- The directory without the staged blocks that are listed.
unfoldable pub cleared : Store → Store → Store
cleared store [] = store
cleared store ((name, vacant) ∷ rest) = cleared store rest
cleared store ((name, foreign) ∷ rest) = cleared store rest
cleared store ((name, file image) ∷ rest) =
    cleared (if is_staged_block name then put name vacant store else store) rest

pub foreign-not-IsEntry : {limits : Limits} {name : Bytes} → ¬ IsEntry limits name foreign
foreign-not-IsEntry h = elim h [ ]

judge_entry :
    (limits : Limits) (name image : Bytes)
    → IsEntry limits name (file image)
    → judge resume limits false name (length image)
      ≡ found (if is_staged_block name then discard else if is_block name then tally else skip)
unfolding judge
judge_entry limits name image (is_identity text) =
    rw (is_staged_block-identity_name, is_block-identity_name, bytes_eq_self identity_name) refl
judge_entry limits name image (is_committed key image' v s) =
    rw
      (
        block_name-ne-identity_name key,
        is_staged_block-block_name key,
        is_block-block_name key v,
        s,
      )
      refl
judge_entry limits name image (is_staged key image' v) =
    rw (pending_name-ne-identity_name (block_name key), is_staged_block-pending_name key v) refl

-- What an entry leaves: a staged block is gone, and a block is counted.
scan_entry-eq :
    (limits : Limits) (scanned : ℕ) (t : Totals) (store : Store) (name image : Bytes)
    → IsEntry limits name (file image)
    → scanned ≤ 8194
    → scan_entry resume limits false scanned t store name (length image) ≡ (
      if is_staged_block name then put name vacant store else store,
      if is_block name then count_block limits (length image) t else found t,
    )
unfolding scan_entry
scan_entry-eq limits scanned t store name image h few =
    let off : ltb 8194 scanned ≡ false = ground arith in
    let judged = judge_entry limits name image h in
    elim (Bool-cases (is_staged_block name)) [
      | inl s ↦ rw (off, judged, s, is_staged_block-is_block name s) refl
      | inr s ↦ elim (Bool-cases (is_block name)) [
        | inl b ↦ rw (off, judged, s, b) refl
        | inr b ↦ rw (off, judged, s, b) refl
      ]
    ]

scan_loop-file :
    (limits : Limits) (scanned : ℕ) (t : Totals) (store rest : Store) (name image : Bytes)
    (t' : Totals) (store' : Store)
    → scan_entry resume limits false (scanned + 1) t store name (length image) ≡ (store', found t')
    → scan_loop resume limits false scanned t store ((name, file image) ∷ rest)
      ≡ scan_loop resume limits false (scanned + 1) t' store' rest
unfolding scan_loop
scan_loop-file limits scanned t store rest name image t' store' h =
    ap
      (continue_with
        (λ (t : Totals) (store : Store). scan_loop resume limits false (scanned + 1) t store rest))
      h

-- A directory of such entries within the limits is scanned to its end, and counted exactly.
pub scan_loop-cleared :
    (limits : Limits) (scanned : ℕ) (t : Totals) (store rest : Store)
    → AllEntries limits rest
    → scanned + measure files rest ≤ 8194
    → t.blocks + measure blocks_in rest ≤ limits.blocks
    → t.bytes + measure bytes_in rest ≤ limits.total_bytes
    → scan_loop resume limits false scanned t store rest ≡ (
      cleared store rest,
      found (record {
        blocks = t.blocks + measure blocks_in rest;
        bytes = t.bytes + measure bytes_in rest;
      }),
    )
unfolding cleared measure scan_loop
scan_loop-cleared limits scanned t store [] h few b s =
    let e : t.blocks + 0 ≡ t.blocks = omega arith in
    let f : t.bytes + 0 ≡ t.bytes = omega arith in unfold scan_loop in rw (e, f) refl
scan_loop-cleared limits scanned t store ((name, vacant) ∷ rest) h few b s =
    let e : t.blocks + (0 + measure blocks_in rest) ≡ t.blocks + measure blocks_in rest =
      omega arith in
    let f : t.bytes + (0 + measure bytes_in rest) ≡ t.bytes + measure bytes_in rest = omega arith in
    rw (e, f)
      (scan_loop-cleared limits scanned t store rest h.1 (omega arith) (omega arith) (omega arith))
scan_loop-cleared limits scanned t store ((name, foreign) ∷ rest) h few b s =
    absurd (foreign-not-IsEntry h.0)
scan_loop-cleared limits scanned t store ((name, file image) ∷ rest) h few b s =
    let entry = scan_entry-eq limits (scanned + 1) t store name image h.0 (omega arith) in
    let store' = if is_staged_block name then put name vacant store else store in
    elim (Bool-cases (is_block name)) [
      | inr e ↦
          let k : blocks_in name (file image) ≡ 0 = rw e refl in
          let l : bytes_in name (file image) ≡ 0 = rw e refl in
          let p : t.blocks + (blocks_in name (file image) + measure blocks_in rest)
              ≡ t.blocks + measure blocks_in rest =
            omega arith in
          let q : t.bytes + (bytes_in name (file image) + measure bytes_in rest)
              ≡ t.bytes + measure bytes_in rest =
            omega arith in
          rw (p, q)
            (scan_loop-file limits scanned t store rest name image t store' (entry ∙ rw e refl)
              ∙ scan_loop-cleared limits (scanned + 1) t store' rest h.1 (omega arith) (omega arith)
                  (omega arith))
      | inl e ↦
          let k : blocks_in name (file image) ≡ 1 = rw e refl in
          let l : bytes_in name (file image) ≡ length image = rw e refl in
          let t' : Totals = record { blocks = t.blocks + 1; bytes = t.bytes + length image } in
          let p : t.blocks + (blocks_in name (file image) + measure blocks_in rest)
              ≡ t'.blocks + measure blocks_in rest =
            omega arith in
          let q : t.bytes + (bytes_in name (file image) + measure bytes_in rest)
              ≡ t'.bytes + measure bytes_in rest =
            omega arith in
          let room : (leb (t.blocks + 1) limits.blocks
                && leb (length image) (limits.total_bytes - t.bytes))
              ≡ true =
            ground (arith, b, s, k, l) in
          let counted : count_block limits (length image) t ≡ found t' =
            unfold count_block in rw room refl in
          rw (p, q)
            (scan_loop-file limits scanned t store rest name image t' store'
                (entry ∙ rw (e, counted) refl)
              ∙ scan_loop-cleared limits (scanned + 1) t' store' rest h.1 (omega arith)
                  (omega arith) (omega arith))
    ]
