-- ===== src/Digest.antt =====
-- include/voxmutatio/core/sha256.h: the streaming SHA-256 of caches and checkpoints.
pub mod Stream
pub mod File
mod Tests
use Prim.Native.Nat.{min, bit_or, bit_xor, bit_and}
use resonantia.Prelude.{
  ℕ, zero, suc, ◌+◌, ◌-◌, ◌*◌, ◌/◌, ◌%◌, ◌^◌, Bool, true, false, List, [], ◌∷◌, ◌++◌, Bytes, ltb,
  leb, ◌==◌, if◌then◌else◌, length, take, drop, get_or, replicate, is_digit, all_bytes, ◌&&◌, ◌||◌,
}
use resonantia.Outcome.{Outcome, found, refused, spent, ◌>>=◌}

abbrev pub word : ℕ → ℕ
word x = x % 2 ^ 32

abbrev pub rotr : ℕ → ℕ → ℕ
rotr x n = bit_or (x / 2 ^ n) (word (x * 2 ^ (32 - n)))

abbrev pub xor3 : ℕ → ℕ → ℕ → ℕ
xor3 a b c = bit_xor (bit_xor a b) c

-- `~x` of 32 bits.
abbrev pub complement : ℕ → ℕ
complement x = (2 ^ 32 - 1) - x

abbrev pub round_constants : List ℕ
round_constants =
    0x428a2f98 ∷ 0x71374491 ∷ 0xb5c0fbcf ∷ 0xe9b5dba5 ∷ 0x3956c25b ∷ 0x59f111f1 ∷ 0x923f82a4
    ∷ 0xab1c5ed5 ∷ 0xd807aa98 ∷ 0x12835b01 ∷ 0x243185be ∷ 0x550c7dc3 ∷ 0x72be5d74 ∷ 0x80deb1fe
    ∷ 0x9bdc06a7 ∷ 0xc19bf174 ∷ 0xe49b69c1 ∷ 0xefbe4786 ∷ 0x0fc19dc6 ∷ 0x240ca1cc ∷ 0x2de92c6f
    ∷ 0x4a7484aa ∷ 0x5cb0a9dc ∷ 0x76f988da ∷ 0x983e5152 ∷ 0xa831c66d ∷ 0xb00327c8 ∷ 0xbf597fc7
    ∷ 0xc6e00bf3 ∷ 0xd5a79147 ∷ 0x06ca6351 ∷ 0x14292967 ∷ 0x27b70a85 ∷ 0x2e1b2138 ∷ 0x4d2c6dfc
    ∷ 0x53380d13 ∷ 0x650a7354 ∷ 0x766a0abb ∷ 0x81c2c92e ∷ 0x92722c85 ∷ 0xa2bfe8a1 ∷ 0xa81a664b
    ∷ 0xc24b8b70 ∷ 0xc76c51a3 ∷ 0xd192e819 ∷ 0xd6990624 ∷ 0xf40e3585 ∷ 0x106aa070 ∷ 0x19a4c116
    ∷ 0x1e376c08 ∷ 0x2748774c ∷ 0x34b0bcb5 ∷ 0x391c0cb3 ∷ 0x4ed8aa4a ∷ 0x5b9cca4f ∷ 0x682e6ff3
    ∷ 0x748f82ee ∷ 0x78a5636f ∷ 0x84c87814 ∷ 0x8cc70208 ∷ 0x90befffa ∷ 0xa4506ceb ∷ 0xbef9a3f7
    ∷ 0xc67178f2 ∷ []

-- The eight words `h_`, and the eight variables of a round.
pub record Words : Type 0 where
  pub a : ℕ
  pub b : ℕ
  pub c : ℕ
  pub d : ℕ
  pub e : ℕ
  pub f : ℕ
  pub g : ℕ
  pub h : ℕ

-- The first sixteen words of the schedule, from the block's bytes.
unfoldable pub block_words : ℕ → Bytes → List ℕ
block_words (suc n) (b0 ∷ b1 ∷ b2 ∷ b3 ∷ s) =
    (b0 * 2 ^ 24 + b1 * 2 ^ 16 + b2 * 2 ^ 8 + b3) ∷ block_words n s
block_words _ _ = []

-- The other words, each appended: `i` is the length of `w`.
unfoldable pub schedule_loop : ℕ → ℕ → List ℕ → List ℕ
schedule_loop zero i w = w
schedule_loop (suc n) i w =
    let x = get_or w (i - 15) 0 in
    let y = get_or w (i - 2) 0 in
    let next = word (
      get_or w (i - 16) 0
      + xor3 (rotr x 7) (rotr x 18) (x / 2 ^ 3)
      + get_or w (i - 7) 0
      + xor3 (rotr y 17) (rotr y 19) (y / 2 ^ 10)) in
    schedule_loop n (i + 1) (w ++ next ∷ [])

unfoldable pub round : ℕ → ℕ → Words → Words
round k w v =
    let t1 = word (
      v.h
      + xor3 (rotr v.e 6) (rotr v.e 11) (rotr v.e 25)
      + bit_xor (bit_and v.e v.f) (bit_and (complement v.e) v.g)
      + k
      + w) in
    let t2 = word (
      xor3 (rotr v.a 2) (rotr v.a 13) (rotr v.a 22)
      + xor3 (bit_and v.a v.b) (bit_and v.a v.c) (bit_and v.b v.c)) in
    record {
      a = word (t1 + t2);
      b = v.a;
      c = v.b;
      d = v.c;
      e = word (v.d + t1);
      f = v.e;
      g = v.f;
      h = v.g;
    }

unfoldable pub rounds_loop : List ℕ → List ℕ → Words → Words
rounds_loop (k ∷ ks) (w ∷ ws) v = rounds_loop ks ws (round k w v)
rounds_loop _ _ v = v

unfoldable pub compress : Words → Bytes → Words
compress v block =
    let r = rounds_loop round_constants (schedule_loop 48 16 (block_words 16 block)) v in
    record {
      a = word (v.a + r.a);
      b = word (v.b + r.b);
      c = word (v.c + r.c);
      d = word (v.d + r.d);
      e = word (v.e + r.e);
      f = word (v.f + r.f);
      g = word (v.g + r.g);
      h = word (v.h + r.h);
    }

-- The object; `block` holds the first `used_` bytes of `block_`.
pub record Sha256 : Type 0 where
  pub words : Words
  pub block : Bytes
  pub bytes : ℕ

abbrev pub initial : Sha256
initial = record {
  words = record {
    a = 0x6a09e667;
    b = 0xbb67ae85;
    c = 0x3c6ef372;
    d = 0xa54ff53a;
    e = 0x510e527f;
    f = 0x9b05688c;
    g = 0x1f83d9ab;
    h = 0x5be0cd19;
  };
  block = [];
  bytes = 0;
}

-- `if(used_==64){compress();used_=0;}`
unfoldable pub flush : Words → Bytes → Words × Bytes
flush v block = if length block == 64 then (compress v block, []) else (v, block)

-- The loop of `update`.
unfoldable pub absorb_loop : ℕ → Words → Bytes → Bytes → Outcome (Words × Bytes)
absorb_loop fuel v block [] = found (v, block)
absorb_loop zero v block (c ∷ s) = spent
absorb_loop (suc fuel) v block (c ∷ s) =
    let taken = min (length (c ∷ s)) (64 - length block) in
    let (v', block') = flush v (block ++ take taken (c ∷ s)) in
    absorb_loop fuel v' block' (drop taken (c ∷ s))

abbrev pub max_bytes : ℕ
max_bytes = (2 ^ 64 - 1) / 8

abbrev pub absorbed : ℕ → Outcome (Words × Bytes) → Outcome Sha256
absorbed bytes (found (v, block)) = found (record { words = v; block = block; bytes = bytes })
absorbed bytes refused = refused
absorbed bytes spent = spent

-- `refused` is the exception for an input that is too large.
unfoldable pub update : Sha256 → Bytes → Outcome Sha256
update s data_ =
    if ltb (max_bytes - s.bytes) (length data_)
    then refused
    else absorbed (s.bytes + length data_) (absorb_loop (length data_) s.words s.block data_)

-- The eight bytes of a number, highest first, in front of `rest`: `h` and its index counted down.
unfoldable pub big_endian : ℕ → ℕ → Bytes → Bytes
big_endian zero n rest = rest
big_endian (suc k) n rest = big_endian k (n / 2 ^ 8) (n % 2 ^ 8 ∷ rest)

-- The block behind the mark, padded to make room for the length.
unfoldable pub pad : Words → Bytes → Words × Bytes
pad v block =
    if ltb 56 (length block)
    then (compress v (block ++ replicate (64 - length block) 0), [])
    else (v, block)

abbrev pub hex_digit : ℕ → ℕ
hex_digit n = if ltb n 10 then b'0' + n else b'a' + (n - 10)

-- A word in so many hexadecimal digits, filled with zeros, in front of `rest`.
unfoldable pub put_hex : ℕ → ℕ → Bytes → Bytes
put_hex zero n rest = rest
put_hex (suc k) n rest = put_hex k (n / 16) (hex_digit (n % 16) ∷ rest)

unfoldable pub hex_text : Words → Bytes
hex_text v = put_hex 8 v.a (
    put_hex 8 v.b (
      put_hex 8 v.c
        (put_hex 8 v.d (put_hex 8 v.e (put_hex 8 v.f (put_hex 8 v.g (put_hex 8 v.h [])))))))

unfoldable pub finish : Sha256 → Bytes
finish s =
    let bits = s.bytes * 8 % 2 ^ 64 in
    let (v, block) = pad s.words (s.block ++ 0x80 ∷ []) in
    hex_text (compress v (block ++ (replicate (56 - length block) 0 ++ big_endian 8 bits [])))

unfoldable pub sha256 : Bytes → Outcome Bytes
sha256 text = do s ← update initial text; found (finish s)

abbrev pub is_hex : ℕ → Bool
is_hex c = is_digit c || leb b'a' c && leb c b'f'

unfoldable pub valid_digest : Bytes → Bool
valid_digest s = length s == 64 && all_bytes is_hex s
