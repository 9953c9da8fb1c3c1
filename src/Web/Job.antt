-- ===== src/Web/Job.antt =====
-- tools/web/web_service.cpp: the operations on `JobState`, each under its mutex, and what they write to the
-- task store.
use resonantia.Tasks.{TaskRecord}
use resonantia.Tasks.Store.{Disk, save, read_locked}
use resonantia.Directory.{Store}
use resonantia.Outcome.{Outcome, found, guard, refused, spent, ◌>>◌}
use resonantia.Prelude.{
  Bool, Bytes, Option, [], bytes_eq, codes, false, if◌then◌else◌, none, not, some, true, ℕ, ◌&&◌,
  ◌++◌, ◌==◌, ◌||◌,
}

pub data JobKind : Type 0 where
  no_kind step_job training_job conversion_job preprocess_job : JobKind

pub data TrainingOutcome : Type 0 where
  outcome_done outcome_error outcome_cancelled outcome_paused : TrainingOutcome

-- `JobState`, without the control channel and its file, and without the time of the last progress.
pub record Job : Type 0 where
  pub generation : ℕ
  pub attempt : ℕ
  pub public_id : Bytes
  pub kind : JobKind
  pub cancel_requested : Bool
  pub pause_requested : Bool
  pub recoverable_training : Bool
  pub storage_notice : Bytes
  pub cancel_error : Bool
  pub cancelled : Bool
  pub name : Bytes
  pub stage : Bytes
  pub running : Bool
  pub done : Bool
  pub error : Bool

-- The service: the job, the task store where there is one, and `task_storage_failed_`.
pub record Service : Type 0 where
  pub job : Job
  pub has_tasks : Bool
  pub capacity : ℕ
  pub store : Store
  pub storage_failed : Bool

-- What the calls that an operation makes answer: the clock, the disk, and whether the log could be kept.
pub record World : Type 0 where
  pub now : ℕ
  pub disk : Disk
  pub logged : Bool

abbrev pub storage_fails : Service → Service × Outcome (Unit {0})
storage_fails s = (record s { storage_failed = true }, refused)

abbrev pub stored_as : Service → Store → Outcome Bool → Service × Outcome (Unit {0})
stored_as s store (found true) = (record s { store = store }, found tt)
stored_as s store (found false) = storage_fails (record s { store = store })
stored_as s store refused = storage_fails (record s { store = store })
stored_as s store spent = storage_fails (record s { store = store })

unfoldable pub save_changed :
    World → Service → TaskRecord → Outcome TaskRecord → Service × Outcome (Unit {0})
save_changed w s r (found r') =
    let saved = save s.capacity w.disk s.store r' r.revision in
    stored_as s saved.store saved.outcome
save_changed w s r refused = storage_fails s
save_changed w s r spent = storage_fails s

-- The `try` block that the operations share: the record is read, changed, and saved at the revision that
-- was read; an exception in it sets `task_storage_failed_`.
unfoldable pub change_read :
    World
    → (TaskRecord → Outcome TaskRecord)
    → Service
    → Outcome (Option TaskRecord)
    → Service × Outcome (Unit {0})
change_read w f s (found (some r)) = save_changed w s r (f r)
change_read w f s (found none) = storage_fails s
change_read w f s refused = storage_fails s
change_read w f s spent = storage_fails s

unfoldable pub change_task :
    World → (TaskRecord → Outcome TaskRecord) → Service → Service × Outcome (Unit {0})
change_task w f s = change_read w f s (read_locked s.job.public_id s.store)

-- The stage of the job; another stage starts without progress.
unfoldable pub staged : World → Job → TaskRecord → TaskRecord
staged w job r =
    let fresh = record r {
      stage = job.stage;
      progress_at_ms = w.now;
      phase = [];
      completed = 0;
      total = 0;
      unit = [];
    } in
    if bytes_eq r.stage job.stage then r else fresh

unfoldable pub in_state : World → Bytes → TaskRecord → TaskRecord
in_state w state' r = record r {
  state = state';
  updated_ms = w.now;
  started_ms =
      if r.started_ms == 0 && bytes_eq state' (codes "running") then w.now else r.started_ms;
}

unfoldable pub terminated : World → Bytes → TaskRecord → TaskRecord
terminated w state' r = record r {
  finished_ms = if bytes_eq state' (codes "paused") then 0 else w.now;
  error =
      if bytes_eq state' (codes "failed")
      then codes "Stage failed: " ++ (r.stage ++ codes ". See retained task log.")
      else r.error;
}

-- The record of `persist_job_locked`.
unfoldable pub persisted : World → Job → Bytes → Bool → TaskRecord → Outcome TaskRecord
persisted w job state' false r = found (in_state w state' (staged w job r))
persisted w job state' true r =
    guard w.logged >> found (terminated w state' (in_state w state' (staged w job r)))

unfoldable pub persist_job : World → Bytes → Bool → Service → Service × Outcome (Unit {0})
persist_job w state' terminal s =
    if not s.has_tasks
    then (s, found tt)
    else if s.storage_failed
    then (s, refused)
    else change_task w (persisted w s.job state' terminal) s

-- `set_stage`; for another generation it does nothing.
unfoldable pub set_stage : World → ℕ → Bytes → Service → Service × Outcome (Unit {0})
set_stage w g stage' s =
    let state' =
      if s.job.pause_requested
      then codes "pause_requested"
      else if bytes_eq stage' (codes "queued")
      then codes "queued"
      else codes "running" in
    if s.job.generation == g
    then persist_job w state' false (record s { job = record s.job { stage = stage' } })
    else (s, found tt)

abbrev pub finished : Bytes → Bool → Service → Service
finished stage' error' s = record s {
  job = record s.job {
    stage = stage';
    error = error' || s.storage_failed;
    done = true;
    running = false;
  };
}

-- `finish`; `persist_terminal_locked` keeps an exception in.
unfoldable pub finish : World → ℕ → Bytes → Bool → Service → Service
finish w g stage' error' s =
    let state' = if error' then codes "failed" else codes "succeeded" in
    if s.job.generation == g then finished stage' error' (persist_job w state' true s).0 else s

abbrev pub state_of : TrainingOutcome → Bytes
state_of outcome_paused = codes "paused"
state_of outcome_cancelled = codes "cancelled"
state_of outcome_error = codes "failed"
state_of outcome_done = codes "succeeded"

abbrev pub stage_of : TrainingOutcome → Bytes
stage_of outcome_paused = codes "paused"
stage_of outcome_cancelled = codes "cancelled"
stage_of outcome_error = codes "error"
stage_of outcome_done = codes "done"

abbrev pub is_paused : TrainingOutcome → Bool
is_paused outcome_paused = true
is_paused _ = false

abbrev pub is_cancelled : TrainingOutcome → Bool
is_cancelled outcome_cancelled = true
is_cancelled _ = false

abbrev pub is_error : TrainingOutcome → Bool
is_error outcome_error = true
is_error _ = false

abbrev pub concluded : TrainingOutcome → Service → Service
concluded outcome s =
    let outcome' = if s.storage_failed then outcome_error else outcome in
    record s {
      job = record s.job {
        cancelled = is_cancelled outcome';
        error = is_error outcome';
        stage = stage_of outcome';
        done = not (is_paused outcome');
        running = false;
      };
    }

abbrev pub is_training : JobKind → Bool
is_training training_job = true
is_training _ = false

unfoldable pub finish_training : World → ℕ → TrainingOutcome → Service → Service
finish_training w g outcome s =
    let outcome' = if s.job.cancel_error then outcome_error else outcome in
    if s.job.generation == g && is_training s.job.kind
    then concluded outcome' (persist_job w (state_of outcome') true s).0
    else s

-- `training_checkpoint`: whether the training may go on in the stage.
unfoldable pub training_checkpoint : World → ℕ → Bytes → Service → Service × Outcome Bool
training_checkpoint w g stage' s =
    let (s', done) =
      persist_job w (codes "running") false (record s { job = record s.job { stage = stage' } }) in
    if not (s.job.generation == g) || (s.job.cancel_requested || s.job.cancel_error)
    then (s, found false)
    else (s', done >> found true)
