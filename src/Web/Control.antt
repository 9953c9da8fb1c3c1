-- ===== src/Web/Control.antt =====
-- tools/web/web_service.cpp: how a job is followed, paused and cancelled.
use resonantia.Operations.Progress.{ProgressMessage, parse_progress_message}
use resonantia.Tasks.{TaskRecord}
use resonantia.Tasks.Store.{read_locked}
use resonantia.Outcome.{Outcome, found, refused, spent}
use resonantia.Prelude.{
  Bool, Bytes, Option, bytes_eq, codes, false, if◌then◌else◌, length, ltb, none, not, some, true, ℕ,
  ◌&&◌, ◌==◌, ◌||◌,
}
use resonantia.Web.Job.{
  JobKind, Service, World, conversion_job, is_training, persist_job, preprocess_job, save_changed,
  storage_fails,
}

abbrev pub same_phase : TaskRecord → ProgressMessage → Bool
same_phase r p = bytes_eq r.phase p.phase && (bytes_eq r.unit p.unit && r.total == p.total)

abbrev pub progressed : ℕ → ProgressMessage → TaskRecord → TaskRecord
progressed now p r = record r {
  phase = p.phase;
  unit = p.unit;
  completed = p.completed;
  total = p.total;
  progress_at_ms = now;
  updated_ms = now;
}

-- The inside of `observe_progress` for the record that was read. `recent` is whether the last progress was
-- saved less than a second ago.
unfoldable pub observe_read :
    World
    → Bool
    → ProgressMessage
    → Service
    → Outcome (Option TaskRecord)
    → Service × Outcome (Unit {0})
observe_read w recent p s (found (some r)) =
    let changed = not (same_phase r p) in
    if not changed && ltb p.completed r.completed
    then storage_fails s
    else if not changed && (p.completed == r.completed || not (p.completed == p.total) && recent)
    then (s, found tt)
    else save_changed w s r (found (progressed w.now p r))
observe_read w recent p s (found none) = storage_fails s
observe_read w recent p s refused = storage_fails s
observe_read w recent p s spent = storage_fails s

-- `observe_progress` for a message, behind the storage guard.
unfoldable pub observe_message :
    World → Bool → ℕ → ProgressMessage → Service → Service × Outcome (Unit {0})
observe_message w recent g p s =
    if not (s.job.generation == g) || not s.job.running
    then (s, found tt)
    else if s.storage_failed
    then (s, refused)
    else observe_read w recent p s (read_locked s.job.public_id s.store)

unfoldable pub observe_parsed :
    World → Bool → ℕ → Service → Outcome (Option ProgressMessage) → Service × Outcome (Unit {0})
observe_parsed w recent g s (found (some p)) = observe_message w recent g p s
observe_parsed w recent g s (found none) = (s, found tt)
observe_parsed w recent g s refused = (s, refused)
observe_parsed w recent g s spent = (s, refused)

-- `observe_progress` for a line of the log.
unfoldable pub observe_progress : World → Bool → ℕ → Bytes → Service → Service × Outcome (Unit {0})
observe_progress w recent g line s = observe_parsed w recent g s (parse_progress_message line)

-- The answers of `handle_cancel_train` to a valid request.
pub data CancelAnswer : Type 0 where
  no_job other_job not_training resumed too_late already_stopped accepted repeated : CancelAnswer

-- What `handle_cancel_train` does under the mutex.
unfoldable pub cancel_train : Bytes → Service → Service × CancelAnswer
cancel_train id s =
    let requested = record s { job = record s.job { cancel_requested = true } } in
    if length s.job.public_id == 0
    then (s, no_job)
    else if not (bytes_eq id s.job.public_id)
    then (s, other_job)
    else if not (is_training s.job.kind)
    then (s, not_training)
    else if s.job.recoverable_training && ltb 1 s.job.attempt
    then (s, resumed)
    else if s.job.cancelled && not s.job.running
    then (s, already_stopped)
    else if not s.job.running || bytes_eq s.job.stage (codes "publishing")
    then (s, too_late)
    else (requested, if s.job.cancel_requested then repeated else accepted)

abbrev pub can_pause : JobKind → Bool
can_pause conversion_job = true
can_pause preprocess_job = true
can_pause _ = false

-- The answers of `handle_task_control` to a request for a pause; the first says whether the request could
-- be kept.
pub data PauseAnswer : Type 0 where
  pausing_job : Bool → PauseAnswer
  paused_before no_pause : PauseAnswer

abbrev pub is_kept : Outcome (Unit {0}) → Bool
is_kept (found _) = true
is_kept refused = false
is_kept spent = false

-- The answer for a task that does not run.
unfoldable pub pause_stored : ℕ → Outcome (Option TaskRecord) → PauseAnswer
pause_stored attempt (found (some r)) =
    if r.attempt == attempt && bytes_eq r.state (codes "paused") then paused_before else no_pause
pause_stored attempt (found none) = no_pause
pause_stored attempt refused = no_pause
pause_stored attempt spent = no_pause

-- What `handle_task_control` does under the mutex to pause a task, without the control channel.
unfoldable pub pause_task : World → Bytes → ℕ → Service → Service × PauseAnswer
pause_task w id attempt s =
    let requested = record s { job = record s.job { pause_requested = true } } in
    let (s', done) = persist_job w (codes "pause_requested") false requested in
    let fits =
      (can_pause s.job.kind || s.job.recoverable_training)
      && not (bytes_eq s.job.stage (codes "saving") || bytes_eq s.job.stage (codes "publishing")) in
    if s.job.running && bytes_eq s.job.public_id id
    then if s.job.attempt == attempt && fits
      then (s', pausing_job (is_kept done))
      else (s, no_pause)
    else if s.storage_failed
    then (s, no_pause)
    else (s, pause_stored attempt (read_locked id s.store))

-- Where an audio job stops for a request, or goes on in a stage.
pub data Passage : Type 0 where
  lost stopped passed : Passage

abbrev pub passage_of : Outcome (Unit {0}) → Passage
passage_of (found _) = passed
passage_of refused = lost
passage_of spent = lost

-- `audio_boundary` behind the storage guard; an empty stage is not written.
unfoldable pub audio_boundary : World → ℕ → Bytes → Service → Service × Passage
audio_boundary w g stage' s =
    let (s', done) =
      persist_job w (codes "running") false (record s { job = record s.job { stage = stage' } }) in
    if g == 0
    then (s, passed)
    else if not (s.job.generation == g) || s.job.cancel_error
    then (s, lost)
    else if s.job.pause_requested || s.job.recoverable_training && s.job.cancel_requested
    then (s, stopped)
    else if length stage' == 0
    then (s, passed)
    else (s', passage_of done)
