-- ===== src/Operations/Identity.antt =====
-- tools/app_support/operation_checkpoint.h: `OperationIdentity`, the digest that names a resumable
-- operation, and `OperationCheckpointSession`, the directories of its stages.
pub mod Injective
pub mod Hashed
use resonantia.Digest.{finish, valid_digest, Sha256, initial, update}
use resonantia.Outcome.{Outcome, found, guard, ◌>>=◌, ◌>>◌}
use resonantia.Prelude.{
  Bytes, List, [], ap, arith, codes, drop, drop-append, false, if◌then◌else◌, length, refl, sym,
  take, take-prefix, ◌++◌, ◌<◌, ◌==◌, ◌^◌, ◌∙◌, ◌∷◌, ◌≡◌,
}
use resonantia.Prelude.Decimal.{AllDigits, decimal, to_string, to_string_lem}

-- A part of a field, behind its length.
unfoldable pub part_text : Bytes → Bytes → Bytes
part_text part rest = to_string (length part) ++ b':' ∷ (part ++ rest)

-- The two parts that `field` hashes, in front of `rest`.
unfoldable pub field_text : Bytes → Bytes → Bytes → Bytes
field_text name value rest = part_text name (part_text value rest)

-- `field`: the updates, one after the other.
unfoldable pub hash_part : Sha256 → Bytes → Outcome Sha256
hash_part hash part = do
  hash' ← update hash (to_string (length part) ++ b':' ∷ [])
  update hash' part

unfoldable pub field : Sha256 → Bytes → Bytes → Outcome Sha256
field hash name value = do hash' ← hash_part hash name; hash_part hash' value

unfoldable pub fields : Sha256 → List (Bytes × Bytes) → Outcome Sha256
fields hash [] = found hash
fields hash ((name, value) ∷ rest) = do hash' ← field hash name value; fields hash' rest

-- The fields of an operation, in the order of their hashing.
abbrev pub operation_fields : Bytes → Bytes → List (Bytes × Bytes) → List (Bytes × Bytes)
operation_fields domain executable rest =
    (codes "format", codes "operation-blocks-v1")
    ∷ (codes "domain", domain)
    ∷ (codes "executable", executable)
    ∷ rest

-- The constructor with a given executable, and then the fields of the caller.
unfoldable pub operation_identity : Bytes → Bytes → List (Bytes × Bytes) → Outcome Bytes
operation_identity domain executable rest = do
  guard (valid_digest executable)
  hash ← fields initial (operation_fields domain executable rest)
  found (finish hash)

-- The text of fields.
unfoldable pub fields_text : List (Bytes × Bytes) → Bytes
fields_text [] = []
fields_text ((name, value) ∷ rest) = field_text name value (fields_text rest)
