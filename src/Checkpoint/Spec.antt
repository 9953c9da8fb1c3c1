-- ===== src/Checkpoint/Spec.antt =====
-- What a checkpoint promises its client, without files, headers or digests: a map from keys to blocks
-- that are written once (include/voxmutatio/io/block_checkpoint.h, the comments on `load` and `save`).
use resonantia.Checkpoint.{Float, Impl, Limits, finite, memory_of, valid_key}
use resonantia.Checkpoint.Session.{image_size, load, save, sound}
use resonantia.Outcome.{Outcome, found, guard, refused, spent, ◌>>◌, ◌>>=◌}
use resonantia.Prelude.{
  Bool, Bytes, List, Option, [], bytes_eq, false, if◌then◌else◌, leb, length, ltb, none, not, some,
  true, ℕ, ◌&&◌, ◌+◌, ◌-◌, ◌/◌, ◌<◌, ◌==◌, ◌^◌, ◌∷◌,
}

pub record Block : Type 0 where
  pub offset : ℕ
  pub content : List Float

abbrev pub Blocks : Type 0
Blocks = List (Bytes × Block)

unfoldable pub lookup : Bytes → Blocks → Option Block
lookup key [] = none
lookup key ((name, b) ∷ m) = let rest = lookup key m in if bytes_eq key name then some b else rest

abbrev pub total : Blocks → ℕ
total [] = 0
total ((name, b) ∷ m) = image_size b.content + total m

abbrev pub Answer : Type 0
Answer = Outcome (Option (List Float))

abbrev pub in_bounds : Limits → ℕ → Bool
in_bounds limits n = not (n == 0) && leb n (limits.block_bytes / 4)

-- A block is given only at its own offset and count.
unfoldable pub block_at : ℕ → ℕ → Option Block → Answer
block_at offset n none = found none
block_at offset n (some b) =
    guard (b.offset == offset && length b.content == n) >> found (some b.content)

unfoldable pub load_block : Limits → Blocks → Bytes → ℕ → ℕ → Answer
load_block limits m key offset n = do
  guard (valid_key key)
  guard (in_bounds limits n)
  block_at offset n (lookup key m)

abbrev pub has_room : Limits → Blocks → List Float → Bool
has_room limits m fs =
    ltb (length m) limits.blocks && leb (image_size fs) (limits.total_bytes - total m)

-- Whether a block is new; one that is there keeps its content.
unfoldable pub beside : Limits → Blocks → List Float → Option (List Float) → Outcome Bool
beside limits m fs (some old) = do guard (bytes_eq (memory_of old) (memory_of fs)); found false
beside limits m fs none = do guard (has_room limits m fs); found true

unfoldable pub is_new : Limits → Blocks → Bytes → ℕ → List Float → Outcome Bool
is_new limits m key offset fs = do
  guard (valid_key key)
  guard (in_bounds limits (length fs))
  guard (finite fs)
  old ← load_block limits m key offset (length fs)
  beside limits m fs old

abbrev pub added : Blocks → Bytes → ℕ → List Float → Outcome Bool → Blocks × Answer
added m key offset fs (found true) =
    ((key, record { offset = offset; content = fs }) ∷ m, found none)
added m key offset fs (found false) = (m, found none)
added m key offset fs refused = (m, refused)
added m key offset fs spent = (m, spent)

unfoldable pub save_block : Limits → Blocks → Bytes → ℕ → List Float → Blocks × Answer
save_block limits m key offset fs = added m key offset fs (is_new limits m key offset fs)

-- A client's call.
pub data Call : Type 0 where
  loading : Bytes → ℕ → ℕ → Call
  saving : Bytes → ℕ → List Float → Call

unfoldable pub promise : Limits → Call → Blocks → Blocks × Answer
promise limits (loading key offset n) m = (m, load_block limits m key offset n)
promise limits (saving key offset fs) m = save_block limits m key offset fs

-- The answers to calls, one after the other.
unfoldable pub promised : Limits → List Call → Blocks → List Answer
promised limits [] m = []
promised limits (c ∷ cs) m = let (m', answer) = promise limits c m in answer ∷ promised limits cs m'

-- The same calls of a session on a disk that fails nowhere.
unfoldable pub perform : Call → Impl → Impl × Answer
perform (loading key offset n) s = load s key offset n
perform (saving key offset fs) s =
    let (s', done) = save sound s key offset fs in (s', done >> found none)

unfoldable pub performed : List Call → Impl → List Answer
performed [] s = []
performed (c ∷ cs) s = let (s', answer) = perform c s in answer ∷ performed cs s'

-- The blocks and the session behind calls.
unfoldable pub promised_after : Limits → List Call → Blocks → Blocks
promised_after limits [] m = m
promised_after limits (c ∷ cs) m = promised_after limits cs (promise limits c m).0

unfoldable pub performed_after : List Call → Impl → Impl
performed_after [] s = s
performed_after (c ∷ cs) s = performed_after cs (perform c s).0

-- Offsets are 64-bit numbers.
abbrev pub offset_of : Call → ℕ
offset_of (loading key offset n) = offset
offset_of (saving key offset fs) = offset

abbrev pub InRange : List Call → Type 0
InRange [] = Unit {0}
InRange (c ∷ cs) = (offset_of c < 2 ^ 64) × InRange cs
