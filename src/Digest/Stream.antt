-- ===== src/Digest/Stream.antt =====
-- The digest depends on the bytes, not on how `update` is given them.
use Prim.Native.Nat.{min}
use mathlib.Core.List.{append_assoc}
use mathlib.Core.Path.{subst}
use resonantia.Prelude.{
  all_bytes, ◌/◌, ◌%◌, length-drop, ℕ, zero, suc, ◌+◌, ◌-◌, true, false, [], ◌∷◌, ◌++◌, Bytes, ltb,
  leb, ◌==◌, ◌≡◌, ◌<◌, ◌≤◌, ◌∙◌, ap, refl, sym, length, take, drop, length-take, length-append,
  take-append-drop, Bool-cases, inl, inr, arith,
}
use resonantia.Outcome.{Outcome, ◌>>=◌, found, refused}
use resonantia.Digest.{
  initial, hex_text, is_hex, hex_digit, put_hex, finish, Words, Sha256, flush, absorb_loop,
  max_bytes, update,
}

-- One byte at a time.
unfoldable pub absorb_bytes : Words × Bytes → Bytes → Words × Bytes
absorb_bytes state [] = state
absorb_bytes state (c ∷ s) = absorb_bytes (flush state.0 (state.1 ++ c ∷ [])) s

absorb_bytes-append :
    (state : Words × Bytes) (s t : Bytes)
    → absorb_bytes state (s ++ t) ≡ absorb_bytes (absorb_bytes state s) t
unfolding absorb_bytes
absorb_bytes-append state [] t = refl
absorb_bytes-append state (c ∷ s) t = absorb_bytes-append (flush state.0 (state.1 ++ c ∷ [])) s t

-- A piece that fills the block at most.
absorb_bytes-flush :
    (v : Words) (block s : Bytes)
    → 0 < length s
    → length block + length s ≤ 64
    → absorb_bytes (v, block) s ≡ flush v (block ++ s)
unfolding absorb_bytes flush
absorb_bytes-flush v block [] p h = absurd (omega arith)
absorb_bytes-flush v block (c ∷ []) p h = refl
absorb_bytes-flush v block (c ∷ d ∷ s) p h =
    let e : (length (block ++ c ∷ []) == 64) ≡ false =
      ground (arith, length-append block (c ∷ [])) in
    rw (e, flush)
      (absorb_bytes-flush v (block ++ c ∷ []) (d ∷ s) (omega arith)
          (omega (arith, length-append block (c ∷ [])))
        ∙ ap (flush v) (append_assoc block (c ∷ []) (d ∷ s)))

flush-fits : (v : Words) (block : Bytes) → length block ≤ 64 → length (flush v block).1 < 64
unfolding flush
flush-fits v block h = elim (Bool-cases (length block == 64)) [
  | inl e ↦ rw (e, flush) (omega arith)
  | inr e ↦ rw (e, flush) (ground arith)
]

absorb_loop-absorb_bytes :
    (fuel : ℕ) (v : Words) (block s : Bytes)
    → length block < 64
    → length s ≤ fuel
    → absorb_loop fuel v block s ≡ found (absorb_bytes (v, block) s)
unfolding absorb_loop
absorb_loop-absorb_bytes zero v block [] b h = unfold absorb_bytes in refl
absorb_loop-absorb_bytes (suc fuel) v block [] b h = unfold absorb_bytes in refl
absorb_loop-absorb_bytes zero v block (c ∷ s) b h = absurd (omega arith)
absorb_loop-absorb_bytes (suc fuel) v block (c ∷ s) b h =
    let taken = min (length (c ∷ s)) (64 - length block) in
    let piece = take taken (c ∷ s) in
    let rest = drop taken (c ∷ s) in
    let size : length piece ≡ taken = omega (arith, length-take taken (c ∷ s)) in
    let full = flush v (block ++ piece) in
    let fits = flush-fits v (block ++ piece) (omega (arith, length-append block piece)) in
    absorb_loop-absorb_bytes fuel full.0 full.1 rest fits (omega (arith, length-drop taken (c ∷ s)))
    ∙ ap found (
        ap (λ state. absorb_bytes state rest)
          (sym (absorb_bytes-flush v block piece (omega arith) (omega arith)))
        ∙ sym (absorb_bytes-append (v, block) piece rest)
        ∙ ap (absorb_bytes (v, block)) (take-append-drop taken (c ∷ s)))

absorb_bytes-fits :
    (state : Words × Bytes) (s : Bytes) → length state.1 < 64 → length (absorb_bytes state s).1 < 64
unfolding absorb_bytes
absorb_bytes-fits state [] h = h
absorb_bytes-fits state (c ∷ s) h =
    absorb_bytes-fits (flush state.0 (state.1 ++ c ∷ [])) s
      (flush-fits state.0 (state.1 ++ c ∷ []) (omega (arith, length-append state.1 (c ∷ []))))

-- What holds between calls.
pub record IsStream (s : Sha256) : Type 0 where
  pub partial : length s.block < 64
  pub counted : s.bytes ≤ max_bytes

-- The object behind a call.
after : Sha256 → Bytes → Sha256
after s text =
    let state = absorb_bytes (s.words, s.block) text in
    record { words = state.0; block = state.1; bytes = s.bytes + length text }

update-after :
    (s : Sha256) (text : Bytes)
    → IsStream s
    → s.bytes + length text ≤ max_bytes
    → update s text ≡ found (after s text)
unfolding update after
update-after s text h fits =
    let e : ltb (max_bytes - s.bytes) (length text) ≡ false = ground arith in
    rw (e, update)
      (rw (absorb_loop-absorb_bytes (length text) s.words s.block text h.partial (omega arith))
        refl)

update-refused :
    (s : Sha256) (text : Bytes)
    → IsStream s
    → max_bytes < s.bytes + length text
    → update s text ≡ refused
unfolding update
update-refused s text h over =
    let e : ltb (max_bytes - s.bytes) (length text) ≡ true = ground (arith, h.counted) in
    rw (e, update) refl

after-IsStream :
    (s : Sha256) (text : Bytes)
    → IsStream s
    → s.bytes + length text ≤ max_bytes
    → IsStream (after s text)
unfolding after
after-IsStream s text h fits = record {
  partial = absorb_bytes-fits (s.words, s.block) text h.partial;
  counted = fits;
}

after-append : (s : Sha256) (a b : Bytes) → after (after s a) b ≡ after s (a ++ b)
unfolding after
after-append s a b =
    let count : s.bytes + length a + length b ≡ s.bytes + length (a ++ b) =
      omega (arith, length-append a b) in
    rw (absorb_bytes-append (s.words, s.block) a b, count) refl

pub update-found :
    (s : Sha256) (text : Bytes)
    → IsStream s
    → s.bytes + length text ≤ max_bytes
    → (t : Sha256) × (update s text ≡ found t) × IsStream t × (t.bytes ≡ s.bytes + length text)
unfolding after
update-found s text h fits =
    (after s text, update-after s text h fits, after-IsStream s text h fits, refl)

pub update-nil : (s : Sha256) → IsStream s → update s [] ≡ found s
unfolding update absorb_loop
update-nil s h =
    let off : ltb (max_bytes - s.bytes) 0 ≡ false = ground arith in
    let n : s.bytes + 0 ≡ s.bytes = omega arith in rw (off, n) refl

pub update_twice :
    (s : Sha256) (a b : Bytes) → IsStream s → (update s a >>= λ t. update t b) ≡ update s (a ++ b)
update_twice s a b h = elim (Bool-cases (leb (s.bytes + length a) max_bytes)) [
  | inr over ↦
      rw (update-refused s a h (ground arith))
        (sym (update-refused s (a ++ b) h (ground (arith, length-append a b))))
  | inl fits ↦
      let within : s.bytes + length a ≤ max_bytes = ground arith in
      let stream = after-IsStream s a h within in
      rw (update-after s a h within)
        (elim (Bool-cases (leb (s.bytes + length a + length b) max_bytes)) [
          | inl both ↦
              update-after (after s a) b stream (unfold after in ground arith)
              ∙ ap found (after-append s a b)
              ∙ sym (update-after s (a ++ b) h (ground (arith, length-append a b)))
          | inr over ↦
              update-refused (after s a) b stream (unfold after in ground arith)
              ∙ sym (update-refused s (a ++ b) h (ground (arith, length-append a b)))
        ])
]

update-IsStream :
    (s : Sha256) (a : Bytes) → IsStream s → (t : Sha256) → update s a ≡ found t → IsStream t
update-IsStream s a h t e = elim (Bool-cases (leb (s.bytes + length a) max_bytes)) [
  | inr over ↦ let no' = sym e ∙ update-refused s a h (ground arith) in cc
  | inl fits ↦
      let within : s.bytes + length a ≤ max_bytes = ground arith in
      let both : found (after s a) ≡ found t = sym (update-after s a h within) ∙ e in
      let same : after s a ≡ t = cc in subst IsStream same (after-IsStream s a h within)
]

-- From a state whose block is not full and whose count is within its limit, two updates are one of the bytes
-- together, and fail where it fails: the state depends on the bytes and not on how they are cut. The state
-- behind an update that does not fail has again a block that is not full and a count within its limit.
pub update-append :
    (s : Sha256) (a b : Bytes)
    → IsStream s
    → ((update s a >>= λ t. update t b) ≡ update s (a ++ b))
      × ((t : Sha256) → update s a ≡ found t → IsStream t)
update-append s a b h = (update_twice s a b h, update-IsStream s a h)

-- What follows an update may count on a stream.
pub update-bind {ℓ} :
    {A : Type ℓ} (s : Sha256) (text : Bytes) (f g : Sha256 → Outcome A)
    → IsStream s
    → ((t : Sha256) → IsStream t → f t ≡ g t)
    → (update s text >>= f) ≡ (update s text >>= g)
update-bind s text f g h e = elim (Bool-cases (leb (s.bytes + length text) max_bytes)) [
  | inr over ↦ rw (update-refused s text h (ground arith)) refl
  | inl fits ↦
      let within : s.bytes + length text ≤ max_bytes = ground arith in
      rw (update-after s text h within) (e (after s text) (after-IsStream s text h within))
]

put_hex-all_bytes :
    (k n : ℕ) (rest : Bytes)
    → all_bytes is_hex rest ≡ true
    → all_bytes is_hex (put_hex k n rest) ≡ true
unfolding put_hex all_bytes
put_hex-all_bytes zero n rest h = h
put_hex-all_bytes (suc k) n rest h =
    put_hex-all_bytes k (n / 16) (hex_digit (n % 16) ∷ rest) (ground (arith, h))

length-put_hex : (k n : ℕ) (rest : Bytes) → length (put_hex k n rest) ≡ k + length rest
unfolding put_hex
length-put_hex zero n rest = omega arith
length-put_hex (suc k) n rest = omega (arith, length-put_hex k (n / 16) (hex_digit (n % 16) ∷ rest))

-- Eight digits in front of digits.
abbrev IsDigits : ℕ → Bytes → Type 0
IsDigits n s = (length s ≡ n) × (all_bytes is_hex s ≡ true)

put_word : (w n : ℕ) (rest : Bytes) → IsDigits n rest → IsDigits (8 + n) (put_hex 8 w rest)
put_word w n rest h = (omega (arith, length-put_hex 8 w rest, h.0), put_hex-all_bytes 8 w rest h.1)

hex_text-IsDigits : (v : Words) → IsDigits 64 (hex_text v)
unfolding hex_text all_bytes
hex_text-IsDigits v = put_word v.a 56 _ (
    put_word v.b 48 _ (
      put_word v.c 40 _ (
        put_word v.d 32 _ (
          put_word v.e 24 _
            (put_word v.f 16 _ (put_word v.g 8 _ (put_word v.h 0 [] (refl, refl))))))))

pub length-finish : (s : Sha256) → length (finish s) ≡ 64
unfolding finish
length-finish s = (hex_text-IsDigits _).0

pub initial-IsStream : IsStream initial
initial-IsStream = record { partial = omega arith; counted = omega arith }
