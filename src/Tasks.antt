-- ===== src/Tasks.antt =====
-- tools/web/task_store.h and task_store.cpp: the persisted records of the web service's tasks.
pub mod Codec
pub mod Store
pub mod Storage
mod Tests
use resonantia.Prelude.{
  ℕ, Bool, true, false, ◌&&◌, ◌||◌, not, List, [], ◌∷◌, Bytes, codes, is_digit, is_alpha, ltb, leb,
  ◌==◌, if◌then◌else◌, Option, none, some, length, bytes_eq, contains, all_bytes,
}
use resonantia.Outcome.{Outcome, found, refused, ◌>>=◌, ◌>>◌, guard}

-- `struct TaskRecord`; the parameters are the map's pairs in the order of the keys.
pub record TaskRecord : Type 0 where
  pub id : Bytes
  pub kind : Bytes
  pub name : Bytes
  pub state : Bytes
  pub stage : Bytes
  pub error : Bytes
  pub unit : Bytes
  pub result : Bytes
  pub phase : Bytes
  pub revision : ℕ
  pub attempt : ℕ
  pub created_ms : ℕ
  pub updated_ms : ℕ
  pub started_ms : ℕ
  pub finished_ms : ℕ
  pub progress_at_ms : ℕ
  pub completed : ℕ
  pub total : ℕ
  pub parameters : List (Bytes × Bytes)

abbrev pub is_id_byte : ℕ → Bool
is_id_byte c = is_alpha c || is_digit c || c == b'_' || c == b'-'

unfoldable pub valid_id : Bytes → Bool
valid_id id = leb 8 (length id) && leb (length id) 96 && all_bytes is_id_byte id

-- `parameters.find(key)`
unfoldable pub parameter : Bytes → List (Bytes × Bytes) → Option Bytes
parameter key [] = none
parameter key ((k, v) ∷ ps) = let rest = parameter key ps in if bytes_eq key k then some v else rest

unfoldable pub is_text : ℕ → Bytes → Bool
is_text limit s = leb (length s) limit && all_bytes (λ c. not (c == 0)) s

abbrev pub is_audio_kind : Bytes → Bool
is_audio_kind kind = bytes_eq kind (codes "convert") || bytes_eq kind (codes "preprocess")

abbrev pub has_succeeded : TaskRecord → Bool
has_succeeded r = bytes_eq r.state (codes "succeeded")

abbrev pub is_hex : ℕ → Bool
is_hex c = is_digit c || leb b'a' c && leb c b'f'

unfoldable pub valid_retention : TaskRecord → Bool
valid_retention r = elim (parameter (codes "retention") r.parameters) [
  | none ↦ true
  | some v ↦ bytes_eq v (codes "pruned-v1") && has_succeeded r
]

unfoldable pub valid_digest : TaskRecord → Bool
valid_digest r = elim (parameter (codes "result_sha256") r.parameters) [
  | none ↦ true
  | some v ↦ is_audio_kind r.kind && has_succeeded r && length v == 64 && all_bytes is_hex v
]

unfoldable pub valid_source : TaskRecord → Bool
valid_source r = elim (parameter (codes "source_task") r.parameters) [
  | none ↦ true
  | some v ↦ valid_id v && not (bytes_eq v r.id) && is_audio_kind r.kind
]

unfoldable pub all_texts : List Bytes → Bool
all_texts [] = true
all_texts (s ∷ ss) = is_text 4096 s && all_texts ss

unfoldable pub all_parameters : List (Bytes × Bytes) → Bool
all_parameters [] = true
all_parameters ((k, v) ∷ ps) =
    not (length k == 0) && is_text 64 k && is_text 4096 v && all_parameters ps

abbrev pub kinds : List Bytes
kinds = codes "convert" ∷ codes "preprocess" ∷ codes "training" ∷ codes "step" ∷ []

abbrev pub states : List Bytes
states =
    codes "preparing"
    ∷ codes "queued"
    ∷ codes "running"
    ∷ codes "pause_requested"
    ∷ codes "paused"
    ∷ codes "interrupted"
    ∷ codes "succeeded"
    ∷ codes "failed"
    ∷ codes "cancelled"
    ∷ []

-- `validate`, each `require` in the order of the code; `refused` is the exception.
unfoldable pub validate : TaskRecord → Outcome (Unit {0})
validate r = do
  guard (valid_id r.id)
  guard (ltb 0 r.attempt && leb r.attempt 2147483647)
  guard (contains r.kind kinds)
  guard (contains r.state states)
  guard (all_texts (r.name ∷ r.stage ∷ r.error ∷ r.unit ∷ r.result ∷ r.phase ∷ []))
  guard (length r.result == 0 || bytes_eq r.result (codes "work/result.wav"))
  guard (r.total == 0 || leb r.completed r.total)
  guard (leb (length r.parameters) 64)
  guard (valid_retention r)
  guard (valid_digest r)
  guard (valid_source r)
  guard (all_parameters r.parameters)
