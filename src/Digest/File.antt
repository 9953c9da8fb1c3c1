-- ===== src/Digest/File.antt =====
-- include/voxmutatio/io/file_digest.h: the digest of a bounded regular file.
use resonantia.Digest.{sha256, Sha256, finish, initial, max_bytes, update}
use resonantia.Digest.Stream.{initial-IsStream, update-nil, IsStream, update_twice, update-found}
use resonantia.Outcome.{
  >>=-eq-found, guard-eq-found, ◌>>◌, Outcome, found, guard, refused, spent, ◌>>=◌,
}
use resonantia.Prelude.{
  ap, Bool, Bytes, List, [], arith, leb, length, length-append, ltb, not, refl, sym, true, ℕ, ◌&&◌,
  ◌++◌, ◌+◌, ◌==◌, ◌||◌, ◌∙◌, ◌∷◌, ◌≡◌, ◌≤◌,
}
use resonantia.System.{failed, interrupted, Attempt, returned}

-- What `fstat` says of the open file; `is_stable` is whether the second call agrees with the first.
pub record Status : Type 0 where
  pub is_regular : Bool
  pub size : ℕ
  pub is_stable : Bool

-- The loop; the answers of `read`, where an empty piece is the end of the file.
unfoldable pub hash_loop : ℕ → ℕ → Sha256 → ℕ → List (Attempt Bytes) → Outcome (Sha256 × ℕ)
hash_loop limit size hash count [] = spent
hash_loop limit size hash count (interrupted ∷ rest) = hash_loop limit size hash count rest
hash_loop limit size hash count (failed ∷ rest) = refused
hash_loop limit size hash count (returned [] ∷ rest) = found (hash, count)
hash_loop limit size hash count (returned (c ∷ s) ∷ rest) = do
  let count' = count + length (c ∷ s)
  guard (not (ltb limit count' || ltb size count'))
  hash' ← update hash (c ∷ s)
  hash_loop limit size hash' count' rest

unfoldable pub sha256_file : ℕ → Status → List (Attempt Bytes) → Outcome Bytes
sha256_file limit status reads = do
  guard (status.is_regular && leb status.size limit)
  (hash, count) ← hash_loop limit status.size initial 0 reads
  guard (count == status.size && status.is_stable)
  found (finish hash)

-- The answers that give a text, in pieces of any size and with any interruptions.
pub data Reads : Bytes → List (Attempt Bytes) → Type 0 where
  ended : {rest : List (Attempt Bytes)} → Reads [] (returned [] ∷ rest)
  again :
      {text : Bytes} {rest : List (Attempt Bytes)}
      → Reads text rest
      → Reads text (interrupted ∷ rest)
  piece :
      {text : Bytes} {rest : List (Attempt Bytes)} (c : ℕ) (s : Bytes)
      → Reads text rest
      → Reads ((c ∷ s) ++ text) (returned (c ∷ s) ∷ rest)

hash_loop-update :
    (max_bytes' size : ℕ) (hash : Sha256) (count : ℕ) {text : Bytes} {reads : List (Attempt Bytes)}
    → Reads text reads
    → IsStream hash
    → count + length text ≤ size
    → size ≤ max_bytes'
    → hash.bytes + length text ≤ max_bytes
    → hash_loop max_bytes' size hash count reads
      ≡ (update hash text >>= λ h. found (h, count + length text))
unfolding hash_loop
hash_loop-update m size hash count ended i fits small room =
    let n : count + 0 ≡ count = omega arith in rw (update-nil hash i, n) refl
hash_loop-update m size hash count (again r) i fits small room =
    hash_loop-update m size hash count r i fits small room
hash_loop-update m size hash count (piece {text = text} c s r) i fits small room =
    let long = length-append (c ∷ s) text in
    let (t, e, i', b) = update-found hash (c ∷ s) i (omega (arith, long)) in
    let ok : not (ltb m (count + length (c ∷ s)) || ltb size (count + length (c ∷ s))) ≡ true =
      ground (arith, long) in
    let whole : update hash ((c ∷ s) ++ text) ≡ update t text =
      sym (update_twice hash (c ∷ s) text i) ∙ rw e refl in
    let sum : count + length ((c ∷ s) ++ text) ≡ count + length (c ∷ s) + length text =
      omega (arith, long) in
    rw (ok, e, whole, sum)
      (hash_loop-update m size t (count + length (c ∷ s)) r i' (omega (arith, long)) small
        (omega (arith, long, b)))

-- However the file is read, its digest is that of its bytes.
pub sha256_file-sha256 :
    (limit : ℕ) (status : Status) (text : Bytes) (reads : List (Attempt Bytes))
    → Reads text reads
    → status.is_regular ≡ true
    → status.is_stable ≡ true
    → status.size ≡ length text
    → length text ≤ limit
    → length text ≤ max_bytes
    → sha256_file limit status reads ≡ sha256 text
unfolding sha256_file sha256
sha256_file-sha256 limit status text reads r regular stable size fits room =
    let small : leb status.size limit ≡ true = ground arith in
    let loop =
      hash_loop-update limit status.size initial 0 r initial-IsStream (omega arith) (omega arith)
        (omega arith) in
    let (t, e, _, _) = update-found initial text initial-IsStream (omega arith) in
    let n : (0 + length text == status.size) ≡ true = ground arith in
    rw (regular, small, loop, e, n, stable) refl

-- A loop that ends has read a text.
hash_loop-Reads :
    (limit size : ℕ) (hash : Sha256) (count : ℕ) (reads : List (Attempt Bytes)) {h : Sha256} {n : ℕ}
    → hash_loop limit size hash count reads ≡ found (h, n)
    → (text : Bytes) × Reads text reads × (n ≡ count + length text)
unfolding hash_loop
hash_loop-Reads limit size hash count [] h = cc
hash_loop-Reads limit size hash count (interrupted ∷ rest) h =
    let (text, r, e) = hash_loop-Reads limit size hash count rest h in (text, again r, e)
hash_loop-Reads limit size hash count (failed ∷ rest) h = cc
hash_loop-Reads limit size hash count (returned [] ∷ rest) {n = n} h =
    let same : n ≡ count = ap (λ o. elim o [ found r ↦ r.1 | _ ↦ n ]) (sym h) in
    ([], ended, omega arith)
hash_loop-Reads limit size hash count (returned (c ∷ s) ∷ rest) h =
    let (_, _, h1) =
      >>=-eq-found
        (guard (not (ltb limit (count + length (c ∷ s)) || ltb size (count + length (c ∷ s))))) _
        h in
    let (hash', _, h2) = >>=-eq-found (update hash (c ∷ s)) _ h1 in
    let (text, r, e) = hash_loop-Reads limit size hash' (count + length (c ∷ s)) rest h2 in
    ((c ∷ s) ++ text, piece c s r, omega (arith, length-append (c ∷ s) text))

-- A file has a digest only where its status was the same before and behind, and the answers gave a text
-- of that size; the digest is the text's.
pub sha256_file-Reads :
    (limit : ℕ) (status : Status) (reads : List (Attempt Bytes)) (d : Bytes)
    → limit ≤ max_bytes
    → sha256_file limit status reads ≡ found d
    → (text : Bytes) × Reads text reads
      × (status.size ≡ length text)
      × (status.is_stable ≡ true)
      × (sha256 text ≡ found d)
unfolding sha256_file
sha256_file-Reads limit status reads d room h =
    let (_, first, h1) = >>=-eq-found (guard (status.is_regular && leb status.size limit)) _ h in
    let ((hash, count), loop, h2) =
      >>=-eq-found (hash_loop limit status.size initial 0 reads) _ h1 in
    let (_, last, _) = >>=-eq-found (guard (count == status.size && status.is_stable)) _ h2 in
    let a = guard-eq-found _ first in
    let b = guard-eq-found _ last in
    let (text, r, n) = hash_loop-Reads limit status.size initial 0 reads loop in
    let regular : status.is_regular ≡ true = ground (arith, a) in
    let stable : status.is_stable ≡ true = ground (arith, b) in
    let small : status.size ≤ limit = ground (arith, a) in
    let size : status.size ≡ length text = ground (arith, b, n) in
    let same =
      sha256_file-sha256 limit status text reads r regular stable size (omega arith)
        (omega arith) in
    (text, r, size, stable, sym same ∙ h)
