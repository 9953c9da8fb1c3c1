-- ===== src/Web/Owner/Stages.antt =====
-- tools/web/web_service.cpp: the operations of the owner, its progress, pause and cancellation keep the
-- ownership of a running job.
use resonantia.Operations.Progress.{ProgressMessage, parse_progress_message}
use mathlib.Core.Path.{subst}
use resonantia.Tasks.Store.{read_locked}
use resonantia.Outcome.{refused, spent, Outcome, found}
use resonantia.Prelude.{
  some, bytes_eq, length, ltb, not, ◌||◌, Bool, Bytes, Option, arith, codes, false, none, refl, sym,
  true, ℕ, ◌&&◌, ◌==◌, ◌∙◌, ◌≡◌,
}
use resonantia.Web.Calls.{if_cases, Owns, Owns-same, observe_read-job, persist_job-Owns}
use resonantia.Web.Control.{
  observe_message, observe_parsed, can_pause, CancelAnswer, PauseAnswer, Passage, audio_boundary,
  cancel_train, observe_progress, pause_task,
}
use resonantia.Web.Reserve.{Ticket, reserve_job}
use resonantia.Web.Job.{
  JobKind, Service, TrainingOutcome, World, finish, finish_training, is_training, set_stage,
  training_checkpoint,
}

module _ (g : ℕ) (id : Bytes) (s : Service) (h : Owns g id s.job) where
  staged-Owns : (stage : Bytes) → Owns g id (record s.job { stage = stage })
  staged-Owns stage = Owns-same refl refl refl h

  pub reserve_job-Owns :
      (w : World) (room : Bool) (name : Bytes) (kind : JobKind) (make : ℕ → Bytes)
      → reserve_job w room name kind make s ≡ (s, found none)
  unfolding reserve_job
  reserve_job-Owns w room name kind make =
      if_cases (λ (r : Service × Outcome (Option Ticket)). r ≡ (s, found none)) s.job.running
        (λ _. refl) (λ (e : s.job.running ≡ false). let clash = sym h.running ∙ e in cc)

  pub set_stage-Owns :
      (w : World) (g' : ℕ) (stage : Bytes) → Owns g id (set_stage w g' stage s).0.job
  unfolding set_stage
  set_stage-Owns w g' stage =
      if_cases (λ (r : Service × Outcome (Unit {0})). Owns g id r.0.job) (s.job.generation == g')
        (λ _. persist_job-Owns w _ false _ (staged-Owns stage)) (λ _. h)

  pub finish-Owns :
      (w : World) (g' : ℕ) (stage : Bytes) (error : Bool)
      → (g' == g) ≡ false
      → Owns g id (finish w g' stage error s).job
  unfolding finish
  finish-Owns w g' stage error off =
      if_cases (λ (r : Service). Owns g id r.job) (s.job.generation == g')
        (λ (e : (s.job.generation == g') ≡ true). absurd (ground (arith, e, off, h.generation)))
        (λ _. h)

  pub finish_training-Owns :
      (w : World) (g' : ℕ) (outcome : TrainingOutcome)
      → (g' == g) ≡ false
      → Owns g id (finish_training w g' outcome s).job
  unfolding finish_training
  finish_training-Owns w g' outcome off =
      if_cases (λ (r : Service). Owns g id r.job) (s.job.generation == g' && is_training s.job.kind)
        (λ (e : (s.job.generation == g' && is_training s.job.kind) ≡ true).
          absurd (ground (arith, e, off, h.generation)))
        (λ _. h)

  pub training_checkpoint-Owns :
      (w : World) (g' : ℕ) (stage : Bytes) → Owns g id (training_checkpoint w g' stage s).0.job
  unfolding training_checkpoint
  training_checkpoint-Owns w g' stage =
      if_cases (λ (r : Service × Outcome Bool). Owns g id r.0.job)
        (not (s.job.generation == g') || (s.job.cancel_requested || s.job.cancel_error)) (λ _. h)
        (λ _. persist_job-Owns w (codes "running") false _ (staged-Owns stage))

  observe_message-Owns :
      (w : World) (recent : Bool) (g' : ℕ) (p : ProgressMessage)
      → Owns g id (observe_message w recent g' p s).0.job
  unfolding observe_message
  observe_message-Owns w recent g' p =
      if_cases (λ (r : Service × Outcome (Unit {0})). Owns g id r.0.job)
        (not (s.job.generation == g') || not s.job.running) (λ _. h)
        (λ _.
          if_cases (λ (r : Service × Outcome (Unit {0})). Owns g id r.0.job) (s.storage_failed)
            (λ _. h)
            (λ _.
              subst (Owns g id)
                (sym (observe_read-job w recent p s (read_locked s.job.public_id s.store))) h))

  observe_parsed-Owns :
      (w : World) (recent : Bool) (g' : ℕ) (o : Outcome (Option ProgressMessage))
      → Owns g id (observe_parsed w recent g' s o).0.job
  unfolding observe_parsed
  observe_parsed-Owns w recent g' (found (some p)) = observe_message-Owns w recent g' p
  observe_parsed-Owns w recent g' (found none) = h
  observe_parsed-Owns w recent g' refused = h
  observe_parsed-Owns w recent g' spent = h

  pub observe_progress-Owns :
      (w : World) (recent : Bool) (g' : ℕ) (line : Bytes)
      → Owns g id (observe_progress w recent g' line s).0.job
  unfolding observe_progress
  observe_progress-Owns w recent g' line =
      observe_parsed-Owns w recent g' (parse_progress_message line)

  pub cancel_train-Owns : (id' : Bytes) → Owns g id (cancel_train id' s).0.job
  unfolding cancel_train
  cancel_train-Owns id' =
      let P = λ (r : Service × CancelAnswer). Owns g id r.0.job in
      if_cases P (length s.job.public_id == 0) (λ _. h)
        (λ _.
          if_cases P (not (bytes_eq id' s.job.public_id)) (λ _. h)
            (λ _.
              if_cases P (not (is_training s.job.kind)) (λ _. h)
                (λ _.
                  if_cases P (s.job.recoverable_training && ltb 1 s.job.attempt) (λ _. h)
                    (λ _.
                      if_cases P (s.job.cancelled && not s.job.running) (λ _. h)
                        (λ _.
                          if_cases P
                            (not s.job.running || bytes_eq s.job.stage (codes "publishing"))
                            (λ _. h) (λ _. Owns-same refl refl refl h))))))

  pub pause_task-Owns :
      (w : World) (id' : Bytes) (attempt : ℕ) → Owns g id (pause_task w id' attempt s).0.job
  unfolding pause_task
  pause_task-Owns w id' attempt =
      let P = λ (r : Service × PauseAnswer). Owns g id r.0.job in
      let fits =
        (can_pause s.job.kind || s.job.recoverable_training)
        && not
            (bytes_eq s.job.stage (codes "saving") || bytes_eq s.job.stage (codes "publishing")) in
      if_cases P (s.job.running && bytes_eq s.job.public_id id')
        (λ _.
          if_cases P (s.job.attempt == attempt && fits)
            (λ _. persist_job-Owns w (codes "pause_requested") false _ (Owns-same refl refl refl h))
            (λ _. h))
        (λ _. if_cases P s.storage_failed (λ _. h) (λ _. h))

  pub audio_boundary-Owns :
      (w : World) (g' : ℕ) (stage : Bytes) → Owns g id (audio_boundary w g' stage s).0.job
  unfolding audio_boundary
  audio_boundary-Owns w g' stage =
      let P = λ (r : Service × Passage). Owns g id r.0.job in
      let stop = s.job.pause_requested || s.job.recoverable_training && s.job.cancel_requested in
      if_cases P (g' == 0) (λ _. h)
        (λ _.
          if_cases P (not (s.job.generation == g') || s.job.cancel_error) (λ _. h)
            (λ _.
              if_cases P stop (λ _. h)
                (λ _.
                  if_cases P (length stage == 0) (λ _. h)
                    (λ _. persist_job-Owns w (codes "running") false _ (staged-Owns stage)))))
