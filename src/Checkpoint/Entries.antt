-- ===== src/Checkpoint/Entries.antt =====
-- src/io/block_checkpoint.cpp: `entries`, the listing of the blocks without their floats.
use resonantia.Checkpoint.{
  Impl, Limits, block_suffix, ends_with, get64, header_size, magic, valid_key, without,
}
use resonantia.Directory.{Store, file, foreign, vacant}
use resonantia.Outcome.{◌>>=◌, Outcome, found, guard, refused, ◌>>◌}
use resonantia.Prelude.{
  Bytes, List, [], bytes_eq, drop, false, if◌then◌else◌, leb, length, ltb, not, take, true, ℕ, ◌&&◌,
  ◌*◌, ◌++◌, ◌+◌, ◌/◌, ◌==◌, ◌||◌, ◌∷◌,
}

pub record Entry : Type 0 where
  pub key : Bytes
  pub offset : ℕ
  pub count : ℕ

-- One pass of `entries` for a block's file: its key, offset and count.
unfoldable pub entry_of : Limits → Bytes → Bytes → Bytes → Outcome Entry
entry_of limits identity name image = do
  let key = without 6 name
  guard (valid_key key)
  guard (not (ltb (length image) (header_size + 4)))
  let header = take header_size image
  let n = get64 header 80
  guard (bytes_eq (take 8 header) magic && bytes_eq (take 64 (drop 8 header)) identity)
  guard (get64 header 152 == 0 && not (n == 0 || ltb (limits.block_bytes / 4) n))
  guard (length image == header_size + 4 * n)
  found (record { key = key; offset = get64 header 72; count = n })

unfoldable pub new_entries : Limits → Bytes → Bytes → Bytes → Outcome (List Entry)
new_entries limits identity name image = elim (ends_with block_suffix name) [
  | false ↦ found []
  | true ↦ do e ← entry_of limits identity name image; found (e ∷ [])
]

-- The loop of `entries`, with the entries so far; only names of blocks are opened.
unfoldable pub entries_loop : Limits → Bytes → ℕ → List Entry → Store → Outcome (List Entry)
entries_loop limits identity scanned result [] = found result
entries_loop limits identity scanned result ((name, vacant) ∷ rest) =
    entries_loop limits identity scanned result rest
entries_loop limits identity scanned result ((name, foreign) ∷ rest) =
    let more = entries_loop limits identity (scanned + 1) result rest in
    guard (leb (scanned + 1) 8196) >> (if ends_with block_suffix name then refused else more)
entries_loop limits identity scanned result ((name, file image) ∷ rest) = do
  guard (leb (scanned + 1) 8196)
  more ← new_entries limits identity name image
  guard (leb (length (result ++ more)) limits.blocks)
  entries_loop limits identity (scanned + 1) (result ++ more) rest

-- `.`, `..` and the lock are listed and counted too.
unfoldable pub entries : Impl → Outcome (List Entry)
entries s = entries_loop s.limits s.identity 3 [] s.store
