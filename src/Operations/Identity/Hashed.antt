-- ===== src/Operations/Identity/Hashed.antt =====
-- tools/app_support/operation_checkpoint.h: the identity is the digest of the fields' text.
use mathlib.Core.List.{append_assoc, append-nil}
use resonantia.Digest.{finish, valid_digest, Sha256, initial, sha256, update}
use resonantia.Digest.Stream.{IsStream, initial-IsStream, update_twice, update-bind, update-nil}
use resonantia.Operations.Identity.{
  field, field_text, fields, fields_text, hash_part, operation_fields, operation_identity,
  part_text,
}
use resonantia.Operations.Identity.Injective.{AllShort, fields_text-injective, part_text-append}
use resonantia.Outcome.{found, ◌>>=◌}
use resonantia.Prelude.{Bytes, List, [], ap, length, sym, true, ◌++◌, ◌∙◌, ◌∷◌, ◌≡◌}
use resonantia.Prelude.Decimal.{to_string}

hash_part-update :
    (hash : Sha256) (part : Bytes)
    → IsStream hash
    → hash_part hash part ≡ update hash (part_text part [])
unfolding hash_part part_text
hash_part-update hash part h =
    update_twice hash (to_string (length part) ++ b':' ∷ []) part h
    ∙ ap (update hash) (
        append_assoc (to_string (length part)) (b':' ∷ []) part
        ∙ ap (λ s. to_string (length part) ++ b':' ∷ s) (sym (append-nil part)))

field-update :
    (hash : Sha256) (name value : Bytes)
    → IsStream hash
    → field hash name value ≡ update hash (field_text name value [])
unfolding field field_text
field-update hash name value h =
    ap (λ o. o >>= λ hash'. hash_part hash' value) (hash_part-update hash name h)
    ∙ update-bind hash (part_text name []) (λ t. hash_part t value)
        (λ t. update t (part_text value [])) h (λ t i. hash_part-update t value i)
    ∙ update_twice hash (part_text name []) (part_text value []) h
    ∙ ap (update hash) (sym (part_text-append name (part_text value [])))

field_text-append :
    (name value rest : Bytes) → field_text name value rest ≡ field_text name value [] ++ rest
unfolding field_text
field_text-append name value rest =
    part_text-append name (part_text value rest)
    ∙ ap (λ s. part_text name [] ++ s) (part_text-append value rest)
    ∙ sym (append_assoc (part_text name []) (part_text value []) rest)
    ∙ ap (λ s. s ++ rest) (sym (part_text-append name (part_text value [])))

fields-update :
    (hash : Sha256) (fs : List (Bytes × Bytes))
    → IsStream hash
    → fields hash fs ≡ update hash (fields_text fs)
unfolding fields fields_text
fields-update hash [] h = sym (update-nil hash h)
fields-update hash ((name, value) ∷ rest) h =
    ap (λ o. o >>= λ hash'. fields hash' rest) (field-update hash name value h)
    ∙ update-bind hash (field_text name value []) (λ t. fields t rest)
        (λ t. update t (fields_text rest)) h (λ t i. fields-update t rest i)
    ∙ update_twice hash (field_text name value []) (fields_text rest) h
    ∙ ap (update hash) (sym (field_text-append name value (fields_text rest)))

-- The identity of an operation is the digest of one text, and no two operations have the same text: it
-- determines the domain, the executable and every field, with its name and its place.
pub operation_identity-injective :
    (domain executable : Bytes) (rest : List (Bytes × Bytes))
    → valid_digest executable ≡ true
    → AllShort (operation_fields domain executable rest)
    → (operation_identity domain executable rest
        ≡ sha256 (fields_text (operation_fields domain executable rest)))
      × ((domain' executable' : Bytes) (rest' : List (Bytes × Bytes))
          → AllShort (operation_fields domain' executable' rest')
          → fields_text (operation_fields domain executable rest)
            ≡ fields_text (operation_fields domain' executable' rest')
          → (domain ≡ domain') × (executable ≡ executable') × (rest ≡ rest'))
unfolding operation_identity sha256
operation_identity-injective domain executable rest v short = (
  rw v (
      ap (λ o. o >>= λ hash. found (finish hash))
        (fields-update initial (operation_fields domain executable rest) initial-IsStream)),
  λ domain' executable' rest' short' e.
      let same =
        fields_text-injective (operation_fields domain executable rest)
          (operation_fields domain' executable' rest') short short' e in
      (cc same, cc same, cc same),
)
