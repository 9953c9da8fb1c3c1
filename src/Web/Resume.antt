-- ===== src/Web/Resume.antt =====
-- tools/web/web_service.cpp: the resumption of a stored task in `handle_task_control`, the storage guard, and
-- what becomes of a control channel.
use resonantia.Tasks.{TaskRecord, parameter}
use resonantia.Tasks.Codec.Assign.{assign}
use resonantia.Tasks.Store.{read_locked, save}
use resonantia.Directory.{Store}
use resonantia.Outcome.{Outcome, found, refused, spent}
use resonantia.Prelude.{
  [], Bool, Bytes, Option, bytes_eq, codes, false, if◌then◌else◌, leb, none, not, some, true, ℕ,
  ◌&&◌, ◌+◌, ◌==◌, ◌||◌,
}
use resonantia.Prelude.Decimal.{to_string}
use resonantia.Prelude.Number.{u64_max}
use resonantia.Web.Job.{
  Job, JobKind, Service, World, change_read, conversion_job, persist_job, preprocess_job,
  training_job,
}
use resonantia.Web.Control.{can_pause}

-- The answers to a request to resume: the attempt that goes on already, a new one, or an error.
pub data ResumeAnswer : Type 0 where
  resumed_before resumed_now : ℕ → ResumeAnswer
  not_resumed : ResumeAnswer

abbrev pub holds : Option Bytes → Bytes → Bool
holds none value = false
holds (some v) value = bytes_eq v value

abbrev pub resumes_training : TaskRecord → Bool
resumes_training r =
    bytes_eq r.kind (codes "training")
    && holds (parameter (codes "recovery") r.parameters) (codes "training-full-v1")

abbrev pub can_resume : TaskRecord → Bool
can_resume r =
    bytes_eq r.state (codes "paused")
    || bytes_eq r.state (codes "interrupted")
    || bytes_eq r.state (codes "failed")
    || resumes_training r && bytes_eq r.state (codes "cancelled")

-- The record of the new attempt.
abbrev pub resumed_record : ℕ → ℕ → TaskRecord → TaskRecord
resumed_record now attempt' r = record r {
  attempt = r.attempt + 1;
  parameters = assign (codes "resumed_from") (to_string attempt') r.parameters;
  state = codes "queued";
  stage = codes "queued";
  phase = [];
  unit = [];
  completed = 0;
  total = 0;
  error = [];
  result = [];
  finished_ms = 0;
  updated_ms = now;
  progress_at_ms = now;
}

abbrev pub resumed_kind : TaskRecord → Bool → JobKind
resumed_kind r preprocess_only =
    if resumes_training r
    then training_job
    else if preprocess_only
    then preprocess_job
    else conversion_job

abbrev pub resumed_job : Bytes → Bool → TaskRecord → Job → Job
resumed_job id preprocess_only r job = record job {
  generation = job.generation + 1;
  attempt = r.attempt + 1;
  public_id = id;
  name = r.name;
  stage = codes "queued";
  kind = resumed_kind r preprocess_only;
  recoverable_training = resumes_training r;
  storage_notice = [];
  done = false;
  error = false;
  cancel_requested = false;
  pause_requested = false;
  cancelled = false;
  cancel_error = false;
  running = true;
}

-- What becomes of it behind the save.
abbrev pub resume_saved :
    Bytes → Bool → TaskRecord → Service → Store → Outcome Bool → Service × ResumeAnswer
resume_saved id preprocess_only r s store (found true) = (
  record s { store = store; job = resumed_job id preprocess_only r s.job },
  resumed_now (r.attempt + 1),
)
resume_saved id preprocess_only r s store _ =
    (record s { store = store; storage_failed = true }, not_resumed)

abbrev pub resume_as :
    World → ℕ → Bytes → TaskRecord → Service → Outcome Bool → Service × ResumeAnswer
resume_as w attempt id r s (found preprocess_only) =
    let saved = save s.capacity w.disk s.store (resumed_record w.now attempt r) r.revision in
    if leb 2147483647 r.attempt || s.job.generation == u64_max
    then (s, not_resumed)
    else resume_saved id preprocess_only r s saved.store saved.outcome
resume_as w attempt id r s refused = (s, not_resumed)
resume_as w attempt id r s spent = (s, not_resumed)

-- `room` is whether `require_storage_room` lets it pass; `plan` is what `restore_audio_plan` answers: whether
-- there is nothing to do but the preparation.
unfoldable pub resume_read :
    World
    → Bool
    → Outcome Bool
    → ℕ
    → Bytes
    → Service
    → Outcome (Option TaskRecord)
    → Service × ResumeAnswer
resume_read w room plan attempt id s (found (some r)) =
    let plan' = if resumes_training r then found false else plan in
    if r.attempt == attempt + 1
      && holds (parameter (codes "resumed_from") r.parameters) (to_string attempt)
    then (s, resumed_before r.attempt)
    else if not (r.attempt == attempt) || s.job.running
    then (s, not_resumed)
    else if not room || not (can_resume r)
    then (s, not_resumed)
    else resume_as w attempt id r s plan'
resume_read w room plan attempt id s (found none) = (s, not_resumed)
resume_read w room plan attempt id s refused = (s, not_resumed)
resume_read w room plan attempt id s spent = (s, not_resumed)

unfoldable pub resume_task :
    World → Bool → Outcome Bool → ℕ → Bytes → Service → Service × ResumeAnswer
resume_task w room plan attempt id s =
    if s.storage_failed
    then (s, not_resumed)
    else resume_read w room plan attempt id s (read_locked id s.store)

-- Whether `guard_task_storage` goes on to measure the storage, for the task of the job.
unfoldable pub is_guarded : ℕ → Service → Bool
is_guarded g s =
    s.job.generation == g
    && s.job.running
    && not s.job.pause_requested
    && (can_pause s.job.kind || s.job.recoverable_training)

abbrev pub persist_guarded : World → Service × Outcome (Unit {0}) → Service × Outcome (Unit {0})
persist_guarded w (s, found _) = persist_job w (codes "pause_requested") false s
persist_guarded w (s, refused) = (s, refused)
persist_guarded w (s, spent) = (s, spent)

-- What it does where the measurement gave a reason to pause the task `id`.
unfoldable pub guard_task_storage :
    World → ℕ → Bytes → Bytes → Service → Service × Outcome (Unit {0})
guard_task_storage w g id reason s =
    let asked = record s {
      job = record s.job { pause_requested = true; storage_notice = reason };
    } in
    let noted =
      change_read w (λ r. found (record r { error = reason })) asked (read_locked id s.store) in
    if not (s.job.generation == g)
      || not s.job.running
      || bytes_eq s.job.stage (codes "publishing")
      || bytes_eq s.job.stage (codes "saving")
    then (s, found tt)
    else persist_guarded w noted

-- The destructor of the lease; `clean` is what `close` of the channel answers.
unfoldable pub close_lease : ℕ → Bool → Service → Service
close_lease g clean s =
    if s.job.generation == g
    then record s { job = record s.job { cancel_error = s.job.cancel_error || not clean } }
    else s

-- A request that the channel could not deliver, for a generation or for an attempt at a task.
unfoldable pub delivery_failed : ℕ → Service → Service
delivery_failed g s =
    if s.job.generation == g then record s { job = record s.job { cancel_error = true } } else s

unfoldable pub pause_failed : Bytes → ℕ → Service → Service
pause_failed id attempt s =
    if bytes_eq s.job.public_id id && s.job.attempt == attempt
    then record s { job = record s.job { cancel_error = true } }
    else s
