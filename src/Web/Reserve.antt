-- ===== src/Web/Reserve.antt =====
-- tools/web/web_service.cpp: how a job is taken, and the record that it starts with.
use resonantia.Tasks.{TaskRecord}
use resonantia.Tasks.Store.{save, read_locked, list_locked, count_retained}
use resonantia.Directory.{Store}
use resonantia.Outcome.{Outcome, found, refused, spent}
use resonantia.Prelude.{
  Bool, Bytes, Option, [], codes, false, if◌then◌else◌, length, ltb, none, not, some, true, ℕ, ◌&&◌,
  ◌+◌, ◌==◌, ◌||◌,
}
use resonantia.Prelude.Number.{u64_max}
use resonantia.Web.Job.{JobKind, Service, World, conversion_job, preprocess_job, training_job}

-- The ticket of a job that was taken; its attempt is the first.
pub record Ticket : Type 0 where
  pub generation : ℕ
  pub public_id : Bytes

abbrev pub kind_name : JobKind → Bytes
kind_name training_job = codes "training"
kind_name conversion_job = codes "convert"
kind_name preprocess_job = codes "preprocess"
kind_name _ = codes "step"

-- The record that `TaskRecord r` starts as, with the defaults of task_store.h.
abbrev pub new_record : ℕ → Bytes → Bytes → JobKind → TaskRecord
new_record now id name kind = record {
  id = id;
  kind = kind_name kind;
  name = name;
  state = codes "queued";
  stage = codes "queued";
  error = [];
  unit = [];
  result = [];
  phase = [];
  revision = 0;
  attempt = 1;
  created_ms = now;
  updated_ms = now;
  started_ms = 0;
  finished_ms = 0;
  progress_at_ms = 0;
  completed = 0;
  total = 0;
  parameters = [];
}

-- The job of a new generation.
abbrev pub reserved : Service → Ticket → Bytes → JobKind → Service
reserved s t name kind = record s {
  job = record {
    generation = t.generation;
    attempt = 1;
    public_id = t.public_id;
    kind = kind;
    cancel_requested = false;
    pause_requested = false;
    recoverable_training = false;
    storage_notice = [];
    cancel_error = false;
    cancelled = false;
    name = name;
    stage = codes "queued";
    running = true;
    done = false;
    error = false;
  };
}

-- Whether `save` of a new record throws `TaskCapacityError`.
unfoldable pub is_full : ℕ → Store → Bytes → Bool
is_full capacity store id = elim (read_locked id store) [
  | found none ↦ elim (list_locked store) [
    | found records ↦ not (ltb (length records) 4096 && ltb (count_retained records) capacity)
    | refused ↦ false
    | spent ↦ false
  ]
  | found (some _) ↦ false
  | refused ↦ false
  | spent ↦ false
]

-- What becomes of the reservation behind the first save.
abbrev pub reserve_as :
    Service
    → Ticket
    → Bytes
    → JobKind
    → Bool
    → Store
    → Outcome Bool
    → Service × Outcome (Option Ticket)
reserve_as s t name kind full store (found true) =
    (reserved (record s { store = store }) t name kind, found (some t))
reserve_as s t name kind full store (found false) = (record s { store = store }, found none)
reserve_as s t name kind true store _ = (record s { store = store }, refused)
reserve_as s t name kind false store _ =
    (record s { store = store; storage_failed = true }, refused)

-- `reserve_job`. `room` is whether `require_storage_room` lets it pass; `id` is the requested id or the
-- one made of the instance and the generation.
unfoldable pub reserve_job :
    World → Bool → Bytes → JobKind → (ℕ → Bytes) → Service → Service × Outcome (Option Ticket)
reserve_job w room name kind id s =
    let g = s.job.generation + 1 in
    let t : Ticket = record { generation = g; public_id = id g } in
    let saved = save s.capacity w.disk s.store (new_record w.now (id g) name kind) 0 in
    if s.job.running
    then (s, found none)
    else if not room || (s.job.generation == u64_max || s.storage_failed)
    then (s, refused)
    else if s.has_tasks
    then reserve_as s t name kind (is_full s.capacity s.store (id g)) saved.store saved.outcome
    else (reserved s t name kind, found (some t))
