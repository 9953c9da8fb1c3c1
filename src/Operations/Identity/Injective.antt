-- ===== src/Operations/Identity/Injective.antt =====
-- tools/app_support/operation_checkpoint.h: the length in front of each part prevents an ambiguous
-- concatenation.
-- The bytes up to a colon, which no digit is.
use mathlib.Core.List.{append_assoc, append-nil}
use resonantia.Operations.Identity.{field_text, fields_text, part_text}
use resonantia.Prelude.{
  Bytes, List, [], ap, arith, drop, drop-append, false, if◌then◌else◌, length, length-append, refl,
  sym, take, take-prefix, ◌++◌, ◌<◌, ◌==◌, ◌^◌, ◌∙◌, ◌∷◌, ◌≡◌,
}
use resonantia.Prelude.Decimal.{AllDigits, decimal, to_string, to_string_lem}

unfoldable pub before_colon : Bytes → Bytes
before_colon [] = []
before_colon (c ∷ s) = let rest = before_colon s in if c == b':' then [] else c ∷ rest

before_colon-digits : (s rest : Bytes) → AllDigits s → before_colon (s ++ b':' ∷ rest) ≡ s
unfolding before_colon
before_colon-digits [] rest h = refl
before_colon-digits (c ∷ s) rest h =
    let off : (c == b':') ≡ false = ground (arith, h.0) in
    rw off (ap (◌∷◌ c) (before_colon-digits s rest h.1))

append_cancel-left : (a b c : Bytes) → a ++ b ≡ a ++ c → b ≡ c
append_cancel-left a b c h =
    sym (drop-append a b (length a) refl) ∙ ap (drop (length a)) h ∙ drop-append a c (length a) refl

-- Numbers of up to twenty digits.
abbrev pub IsShort : Bytes → Type 0
IsShort s = length s < 10 ^ 20

-- The length that stands in front says where a part ends.
part_text-injective :
    (p q r s : Bytes) → IsShort p → IsShort q → part_text p r ≡ part_text q s → (p ≡ q) × (r ≡ s)
unfolding part_text
part_text-injective p q r s hp hq h =
    let (value, digits, _, _) = to_string_lem (length p) hp in
    let (value', digits', _, _) = to_string_lem (length q) hq in
    let same : to_string (length p) ≡ to_string (length q) =
      sym (before_colon-digits (to_string (length p)) (p ++ r) digits)
      ∙ ap before_colon h
      ∙ before_colon-digits (to_string (length q)) (q ++ s) digits' in
    let size : length p ≡ length q = sym value ∙ ap (decimal 0) same ∙ value' in
    let h' : to_string (length q) ++ b':' ∷ (p ++ r) ≡ to_string (length q) ++ b':' ∷ (q ++ s) =
      ap (λ t. t ++ b':' ∷ (p ++ r)) (sym same) ∙ h in
    let tails = append_cancel-left (to_string (length q)) (b':' ∷ (p ++ r)) (b':' ∷ (q ++ s)) h' in
    let tails' : p ++ r ≡ q ++ s = ap (drop 1) tails in
    let first : p ≡ q =
      sym (take-prefix p r (length q) size)
      ∙ ap (take (length q)) tails'
      ∙ take-prefix q s (length q) refl in
    (
      first,
      sym (drop-append p r (length q) size)
          ∙ ap (drop (length q)) tails'
          ∙ drop-append q s (length q) refl,
    )

pub part_text-append : (p rest : Bytes) → part_text p rest ≡ part_text p [] ++ rest
unfolding part_text
part_text-append p rest =
    ap (λ s. to_string (length p) ++ b':' ∷ (s ++ rest)) (sym (append-nil p))
    ∙ ap (λ s. to_string (length p) ++ b':' ∷ s) refl
    ∙ sym (append_assoc (to_string (length p)) (b':' ∷ (p ++ [])) rest)

abbrev pub AllShort : List (Bytes × Bytes) → Type 0
AllShort [] = Unit {0}
AllShort ((name, value) ∷ rest) = IsShort name × (IsShort value × AllShort rest)

part_text-ne_nil : (p rest : Bytes) → ¬ (part_text p rest ≡ [])
unfolding part_text
part_text-ne_nil p rest h =
    let size = ap length h in
    absurd (omega (arith, length-append (to_string (length p)) (b':' ∷ (p ++ rest)), size))

-- Different fields have different texts.
pub fields_text-injective :
    (f g : List (Bytes × Bytes)) → AllShort f → AllShort g → fields_text f ≡ fields_text g → f ≡ g
unfolding fields_text field_text
fields_text-injective [] [] hf hg h = refl
fields_text-injective [] ((m, w) ∷ g) hf hg h = absurd (part_text-ne_nil m _ (sym h))
fields_text-injective ((n, v) ∷ f) [] hf hg h = absurd (part_text-ne_nil n _ h)
fields_text-injective ((n, v) ∷ f) ((m, w) ∷ g) hf hg h =
    let (name, h1) =
      part_text-injective n m (part_text v (fields_text f)) (part_text w (fields_text g)) hf.0 hg.0
        h in
    let (value, h2) = part_text-injective v w (fields_text f) (fields_text g) hf.1.0 hg.1.0 h1 in
    let rest = fields_text-injective f g hf.1.1 hg.1.1 h2 in rw (name, value, rest) refl
