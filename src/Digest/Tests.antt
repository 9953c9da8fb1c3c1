-- ===== src/Digest/Tests.antt =====
-- Known digests, and the theorems on include/voxmutatio/core/sha256.h at small inputs.
use resonantia.Prelude.{List, [], arith, length, true, ◌∷◌, ◌≡◌, refl, codes, Bytes}
use resonantia.Outcome.{Outcome, found, ◌>>=◌}
use resonantia.Digest.{
  Sha256, initial, block_words, schedule_loop, round, rounds_loop, compress, flush, absorb_loop,
  update, big_endian, pad, put_hex, hex_text, finish, sha256,
}
use resonantia.Digest.Stream.{IsStream, initial-IsStream, update-append}
use resonantia.Digest.File.{Reads, Status, hash_loop, sha256_file, sha256_file-Reads}
use resonantia.System.{interrupted, Attempt, returned}

run_sha256 : Bytes → Outcome Bytes
unfolding sha256 update absorb_loop flush compress rounds_loop round schedule_loop block_words
    finish pad big_endian hex_text put_hex
run_sha256 = sha256

sha256_abc :
    sha256 (codes "abc")
    ≡ found (codes "ba7816bf8f01cfea414140de5dae2223b00361a396177a9cb410ff61f20015ad")
unfolding run_sha256
sha256_abc = refl

-- Two blocks.
sha256_two_blocks :
    sha256 (codes "abcdbcdecdefdefgefghfghighijhijkijkljklmklmnlmnomnopnopq")
    ≡ found (codes "248d6a61d20638b8e5c026930c3e6039a33ce45964ff2167f6ecedd419db06c1")
unfolding run_sha256
sha256_two_blocks = refl

update-append_example :
    ((update initial (codes "voice") >>= λ t. update t (codes " conversion"))
      ≡ update initial (codes "voice conversion"))
    × ((t : Sha256) → update initial (codes "voice") ≡ found t → IsStream t)
update-append_example = update-append initial (codes "voice") (codes " conversion") initial-IsStream

-- A file of five bytes, read in two pieces with an interruption between them.
abbrev five_bytes : Status
five_bytes = record { is_regular = true; size = 5; is_stable = true }

abbrev five_reads : List (Attempt Bytes)
five_reads = returned (codes "he") ∷ interrupted ∷ returned (codes "llo") ∷ returned [] ∷ []

run_file : List (Attempt Bytes) → Outcome Bytes
unfolding sha256_file hash_loop run_sha256
run_file = sha256_file 1024 five_bytes

file-hello :
    sha256_file 1024 five_bytes five_reads
    ≡ found (codes "2cf24dba5fb0a30e26e83b2ac5b9e29e1b161e5c1fa7425e73043362938b9824")
unfolding run_file
file-hello = refl

sha256_file-Reads_example :
    (text : Bytes) × Reads text five_reads
    × (five_bytes.size ≡ length text)
    × (five_bytes.is_stable ≡ true)
    × (sha256 text
        ≡ found (codes "2cf24dba5fb0a30e26e83b2ac5b9e29e1b161e5c1fa7425e73043362938b9824"))
sha256_file-Reads_example =
    sha256_file-Reads 1024 five_bytes five_reads
      (codes "2cf24dba5fb0a30e26e83b2ac5b9e29e1b161e5c1fa7425e73043362938b9824") (omega arith)
      file-hello
