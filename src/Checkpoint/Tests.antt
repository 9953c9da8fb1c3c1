-- ===== src/Checkpoint/Tests.antt =====
-- src/io/block_checkpoint.cpp on small directories, and the theorems on it at concrete inputs.
use resonantia.Digest
use resonantia.Digest.{
  valid_digest, update, absorb_loop, flush, compress, rounds_loop, round, schedule_loop,
  block_words, pad, big_endian, hex_text, put_hex,
}
use resonantia.Checkpoint.{
  Outcome, block_name, resume, Float, Impl, Limits, create, digest, finite, floats_of, get64,
  header, little_endian, memory_of, prefix_of, put64, valid_key, value_of,
}
use resonantia.Checkpoint.Open.{open_checkpoint, valid_limits}
use resonantia.Checkpoint.Recovery.Calls.{create-resumes, create-promised}
use resonantia.Checkpoint.Recovery.Created.{first_session}
use resonantia.Checkpoint.Session.{
  Disk, unsynced, fresh_image, image_beside, load, matches_header, prepare, publish, publish_as,
  read, read_block, read_image, save, sound,
}
use resonantia.Checkpoint.Spec.{
  InRange, performed_after, promised_after, Answer, Call, loading, perform, performed, promised,
  saving,
}
use resonantia.Digest.{
  absorb_loop, big_endian, block_words, compress, flush, hex_text, pad, put_hex, round, rounds_loop,
  schedule_loop, update, valid_digest,
}
use resonantia.Directory.{Node, vacant, node_of, put}
use resonantia.Outcome.{guard, ◌>>◌, found, refused}
use resonantia.Prelude.{
  Bool, Option, ap, false, sym, ◌&&◌, ◌==◌, ◌∙◌, ◌≢◌, Bytes, List, [], all_bytes, arith, bytes_eq,
  codes, none, refl, some, true, ◌*◌, ◌∷◌, ◌≡◌,
}
use resonantia.Prelude.Decimal.{digits_of, to_string}
use resonantia.Checkpoint.Format.{IsBlock}
use resonantia.Checkpoint.Image.{image_of, read_image-eq}
use resonantia.Checkpoint.Recovery.{left_by, writing}
use resonantia.Checkpoint.Recovery.Stopped.{standing}
use resonantia.Checkpoint.Safety.{Broken, save-Broken, save-keeps}

abbrev test_id : Bytes
test_id = codes "00112233445566778899aabbccddeeff00112233445566778899aabbccddeeff"

abbrev default_limits : Limits
default_limits = record {
  block_bytes = 32 * 1024 * 1024;
  total_bytes = 2 * 1024 * 1024 * 1024;
  blocks = 4096;
}

-- 1.0 and -0.5.
abbrev one : Float
one = record { b0 = 0; b1 = 0; b2 = 128; b3 = 63 }

abbrev minus_half : Float
minus_half = record { b0 = 0; b1 = 0; b2 = 0; b3 = 191 }

abbrev infinity : Float
infinity = record { b0 = 0; b1 = 0; b2 = 128; b3 = 127 }

abbrev some_calls : List Call
some_calls =
    saving (codes "mel-0") 7 (one ∷ minus_half ∷ [])
    ∷ loading (codes "mel-0") 7 2
    ∷ loading (codes "mel-0") 8 2
    ∷ loading (codes "mel-1") 0 4
    ∷ saving (codes "mel-0") 7 (one ∷ one ∷ [])
    ∷ saving (codes "mel-1") 0 (infinity ∷ [])
    ∷ []

run_calls : List Call → Impl → List Answer
unfolding performed perform load save prepare read read_block read_image fresh_image image_beside
    publish publish_as node_of put matches_header valid_key finite digest header put64 get64
    little_endian value_of memory_of floats_of prefix_of to_string digits_of bytes_eq all_bytes
    update absorb_loop flush compress rounds_loop round schedule_loop block_words Digest.finish pad
    big_endian hex_text put_hex
run_calls = performed

some_calls-answers :
    performed some_calls (first_session default_limits test_id)
    ≡ found none
      ∷ found (some (one ∷ minus_half ∷ []))
      ∷ refused
      ∷ found none
      ∷ refused
      ∷ refused
      ∷ []
unfolding run_calls
some_calls-answers = refl

test_id-valid : valid_digest test_id ≡ true
unfolding valid_digest all_bytes
test_id-valid = refl

default_limits-valid : valid_limits default_limits ≡ true
unfolding valid_limits
default_limits-valid = refl

create-promised_example :
    (s : Impl) × (open_checkpoint true sound true create default_limits test_id []
      ≡ (s.store, found s))
    × (performed some_calls s ≡ promised default_limits some_calls [])
create-promised_example =
    create-promised default_limits test_id some_calls test_id-valid default_limits-valid
      (ground arith)

abbrev first_call : List Call
first_call = saving (codes "mel-0") 7 (one ∷ minus_half ∷ []) ∷ []

-- The image of the block that is saved next.
abbrev next_checksum : Bytes
next_checksum = codes "34cb906ca933753591e6128ed663f16d39d59d3af58a2318a36c53a527b8e1fe"

abbrev next_image : Bytes
next_image = image_of test_id 0 (one ∷ []) next_checksum

run_prepare : List Call → Outcome (Option Bytes)
unfolding performed_after perform load save prepare read read_block read_image fresh_image
    image_beside publish publish_as node_of put matches_header valid_key finite digest header put64
    get64 little_endian value_of memory_of floats_of prefix_of to_string digits_of bytes_eq
    all_bytes update absorb_loop flush compress rounds_loop round schedule_loop block_words
    Digest.finish pad big_endian hex_text put_hex
run_prepare cs =
    prepare (performed_after cs (first_session default_limits test_id)) (codes "mel-1") 0 (one ∷ [])

prepare-next :
    prepare
      (performed_after first_call (first_session default_limits test_id))
      (codes "mel-1")
      0
      (one ∷ [])
    ≡ found (some next_image)
unfolding run_prepare
prepare-next = refl

-- A process that stops with a hundred bytes of the second block written.
create-resumes_example :
    (t : Impl) × ((disk : Disk)
      → open_checkpoint true disk true resume default_limits test_id (
          left_by
            (writing 100)
            (block_name (codes "mel-1"))
            next_image
            (performed_after first_call (first_session default_limits test_id)).store)
        ≡ (t.store, found t))
    × ((cs : List Call)
        → InRange cs
        → performed cs t
          ≡ promised default_limits cs (
              standing
                (writing 100)
                (codes "mel-1")
                0
                (one ∷ [])
                (promised_after default_limits first_call [])))
create-resumes_example =
    create-resumes default_limits test_id first_call (writing 100) (codes "mel-1") 0 (one ∷ [])
      next_image test_id-valid default_limits-valid (ground arith) (omega arith) prepare-next

next-digest : digest test_id (codes "mel-1") 0 (one ∷ []) ≡ found next_checksum
unfolding digest prefix_of to_string digits_of memory_of update absorb_loop flush compress
    rounds_loop round schedule_loop block_words Digest.finish pad big_endian hex_text put_hex
next-digest = refl

next-IsBlock : IsBlock test_id (codes "mel-1") 0 (one ∷ [])
unfolding finite
next-IsBlock = record {
  identified = refl;
  named = omega arith;
  placed = omega arith;
  small = omega arith;
  numeric = refl;
}

-- At another offset the image is refused.
read_image-eq_example :
    read_image test_id (codes "mel-1") 5 1 next_image
    ≡ (guard (0 == 5 && 1 == 1) >> found (one ∷ []))
read_image-eq_example =
    read_image-eq test_id (codes "mel-1") 0 (one ∷ []) next_checksum 5 1 next-IsBlock next-digest
      refl

-- A session whose first block stands, and a second save on a disk whose rename is not synchronised.
abbrev called : Impl
called = performed_after first_call (first_session default_limits test_id)

abbrev is_vacant_node : Node → Bool
is_vacant_node vacant = true
is_vacant_node _ = false

run_node : Bytes → Bool
unfolding performed_after perform load save prepare read read_block read_image fresh_image
    image_beside publish publish_as node_of put matches_header valid_key finite digest header put64
    get64 little_endian value_of memory_of floats_of prefix_of to_string digits_of bytes_eq
    all_bytes update absorb_loop flush compress rounds_loop round schedule_loop block_words
    Digest.finish pad big_endian hex_text put_hex
run_node name = is_vacant_node (node_of name called.store)

stands-first : is_vacant_node (node_of (block_name (codes "mel-0")) called.store) ≡ false
unfolding run_node
stands-first = refl

stands-ne-vacant : node_of (block_name (codes "mel-0")) called.store ≢ vacant
stands-ne-vacant e = let no : true ≡ false = sym (ap is_vacant_node e) ∙ stands-first in cc

save-keeps_example :
    node_of (block_name (codes "mel-0")) (save unsynced called (codes "mel-1") 0 (one ∷ [])).0.store
    ≡ node_of (block_name (codes "mel-0")) called.store
save-keeps_example =
    save-keeps unsynced called (codes "mel-1") 0 (one ∷ []) (codes "mel-0") stands-ne-vacant

run_save : Disk → Outcome (Unit {0})
unfolding save publish publish_as node_of put bytes_eq run_prepare
run_save disk = (save disk called (codes "mel-1") 0 (one ∷ [])).1

save-unsynced : (save unsynced called (codes "mel-1") 0 (one ∷ [])).1 ≡ refused
unfolding run_save
save-unsynced = refl

save-Broken_example : Broken (save unsynced called (codes "mel-1") 0 (one ∷ [])).0
save-Broken_example =
    save-Broken unsynced called (codes "mel-1") 0 (one ∷ []) next_image prepare-next save-unsynced
