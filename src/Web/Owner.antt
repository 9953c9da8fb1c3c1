-- ===== src/Web/Owner.antt =====
-- tools/web/web_service.cpp: a running job belongs to one generation until an operation of that generation
-- ends it.
mod Stages
mod Resumed
use resonantia.Operations.Progress.{ProgressMessage, parse_progress_message}
use mathlib.Core.Path.{subst}
use resonantia.Tasks.Store.{read_locked}
use resonantia.Tasks.{TaskRecord, parameter}
use resonantia.Prelude.Decimal.{to_string}
use resonantia.Web.Audio.{finish_audio_task}
use resonantia.Web.Resume.{
  ResumeAnswer, close_lease, delivery_failed, guard_task_storage, holds, pause_failed,
  persist_guarded, resume_read, resume_task,
}
use resonantia.Outcome.{refused, spent, Outcome, found}
use resonantia.Prelude.{
  ◌+◌, some, bytes_eq, length, ltb, not, ◌||◌, Bool, Bytes, List, Option, [], arith, codes, false,
  none, refl, sym, true, ℕ, ◌&&◌, ◌==◌, ◌∙◌, ◌∷◌, ◌≡◌,
}
use resonantia.Web.Calls.{
  change_read-job, closing_lease, ending_audio, failing_delivery, failing_pause, guarding, noting,
  resuming, if_cases, Op, Owns, Owns-same, any_ends, cancelling, checking, ending, ends, finishing,
  observe_read-job, observing, passing, pausing, perform, persist_job-Owns, reserving, run, staging,
}
use resonantia.Web.Control.{
  observe_message, observe_parsed, can_pause, CancelAnswer, PauseAnswer, Passage, audio_boundary,
  cancel_train, observe_progress, pause_task,
}
use resonantia.Web.Reserve.{Ticket, reserve_job}
use resonantia.Web.Job.{
  change_read, JobKind, Service, TrainingOutcome, World, finish, finish_training, is_training,
  set_stage, training_checkpoint,
}
use resonantia.Web.Owner.Stages.{
  audio_boundary-Owns, cancel_train-Owns, finish-Owns, finish_training-Owns, observe_progress-Owns,
  pause_task-Owns, reserve_job-Owns, set_stage-Owns, training_checkpoint-Owns,
}
use resonantia.Web.Owner.Resumed.{
  close_lease-Owns, delivery_failed-Owns, finish_audio_task-Owns, guard_task_storage-Owns,
  pause_failed-Owns, resume_task-Owns,
}

module _ (g : ℕ) (id : Bytes) (s : Service) (h : Owns g id s.job) where
  perform-Owns : (op : Op) → ends g op ≡ false → Owns g id (perform op s).job
  unfolding perform
  perform-Owns (reserving w room name kind make) e =
      subst (λ (r : Service × Outcome (Option Ticket)). Owns g id r.0.job)
        (sym (reserve_job-Owns g id s h w room name kind make)) h
  perform-Owns (staging w g' stage) e = set_stage-Owns g id s h w g' stage
  perform-Owns (finishing w g' stage error) e = finish-Owns g id s h w g' stage error e
  perform-Owns (ending w g' outcome) e = finish_training-Owns g id s h w g' outcome e
  perform-Owns (checking w g' stage) e = training_checkpoint-Owns g id s h w g' stage
  perform-Owns (observing w recent g' line) e = observe_progress-Owns g id s h w recent g' line
  perform-Owns (cancelling id') e = cancel_train-Owns g id s h id'
  perform-Owns (pausing w id' attempt) e = pause_task-Owns g id s h w id' attempt
  perform-Owns (passing w g' stage) e = audio_boundary-Owns g id s h w g' stage
  perform-Owns (ending_audio w digest g' id' result error paused) e =
      finish_audio_task-Owns g id s h w digest g' id' result error paused e
  perform-Owns (resuming w room plan attempt id') e =
      resume_task-Owns g id s h w room plan attempt id'
  perform-Owns (guarding w g' id' reason) e = guard_task_storage-Owns g id s h w g' id' reason
  perform-Owns (closing_lease g' clean) e = close_lease-Owns g id s h g' clean
  perform-Owns (failing_delivery g') e = delivery_failed-Owns g id s h g'
  perform-Owns (failing_pause id' attempt) e = pause_failed-Owns g id s h id' attempt
  perform-Owns (noting store failed kept) e = Owns-same refl refl refl h

run-Owns :
    (g : ℕ) (id : Bytes) (ops : List Op) (s : Service)
    → Owns g id s.job
    → any_ends g ops ≡ false
    → Owns g id (run ops s).job
unfolding run any_ends
run-Owns g id [] s h e = h
run-Owns g id (op ∷ ops) s h e =
    let now : ends g op ≡ false = ground (arith, e) in
    let later : any_ends g ops ≡ false = ground (arith, e) in
    run-Owns g id ops (perform op s) (perform-Owns g id s h op now) later

-- While a job runs for a generation, no operations but `finish`, `finish_training` and `finish_audio_task` of
-- that generation take the job from it; behind any others a reservation answers that there is a running
-- job and changes nothing.
pub run-exclusive :
    (g : ℕ) (id : Bytes) (ops : List Op) (s : Service) (w : World) (room : Bool) (name : Bytes)
    (kind : JobKind) (make : ℕ → Bytes)
    → Owns g id s.job
    → any_ends g ops ≡ false
    → Owns g id (run ops s).job
      × (reserve_job w room name kind make (run ops s) ≡ (run ops s, found none))
run-exclusive g id ops s w room name kind make h e =
    let owned = run-Owns g id ops s h e in
    (owned, reserve_job-Owns g id (run ops s) owned w room name kind make)
