-- ===== src/Web/Calls.antt =====
-- tools/web/web_service.cpp: the operations in any order, as the threads of the service make them.
use resonantia.Operations.Progress.{ProgressMessage}
use mathlib.Core.Path.{subst}
use resonantia.Tasks.{TaskRecord}
use resonantia.Tasks.Store.{save, read_locked}
use resonantia.Web.Audio.{finish_audio_task}
use resonantia.Web.Resume.{
  close_lease, delivery_failed, guard_task_storage, pause_failed, resume_task,
}
use resonantia.Directory.{Store}
use resonantia.Outcome.{Outcome, found, refused, spent}
use resonantia.Prelude.{
  if◌then◌else◌, not, ltb, ◌&&◌, sym, ◌∙◌, Bool, Bytes, List, Option, [], false, none, refl, some,
  true, ℕ, ◌==◌, ◌||◌, ◌∷◌, ◌≡◌,
}
use resonantia.Web.Control.{
  same_phase, observe_read, progressed, audio_boundary, cancel_train, observe_progress, pause_task,
}
use resonantia.Web.Reserve.{reserve_job}
use resonantia.Web.Job.{
  Job, JobKind, Service, TrainingOutcome, World, change_read, change_task, finish, finish_training,
  persist_job, persisted, save_changed, set_stage, stored_as, training_checkpoint,
}

-- One operation under the mutex, with what its calls answer. `noting` is any other writer of task records:
-- what it leaves in the store, whether it sets `task_storage_failed_`, and whether it keeps the recipe of a
-- training, which can then be recovered.
pub data Op : Type 0 where
  reserving : World → Bool → Bytes → JobKind → (ℕ → Bytes) → Op
  staging : World → ℕ → Bytes → Op
  finishing : World → ℕ → Bytes → Bool → Op
  ending : World → ℕ → TrainingOutcome → Op
  checking : World → ℕ → Bytes → Op
  observing : World → Bool → ℕ → Bytes → Op
  cancelling : Bytes → Op
  pausing : World → Bytes → ℕ → Op
  passing : World → ℕ → Bytes → Op
  ending_audio : World → Outcome Bytes → ℕ → Bytes → Bytes → Bytes → Bool → Op
  resuming : World → Bool → Outcome Bool → ℕ → Bytes → Op
  guarding : World → ℕ → Bytes → Bytes → Op
  closing_lease : ℕ → Bool → Op
  failing_delivery : ℕ → Op
  failing_pause : Bytes → ℕ → Op
  noting : Store → Bool → Bool → Op

unfoldable pub perform : Op → Service → Service
perform (reserving w room name kind id) s = (reserve_job w room name kind id s).0
perform (staging w g stage) s = (set_stage w g stage s).0
perform (finishing w g stage error) s = finish w g stage error s
perform (ending w g outcome) s = finish_training w g outcome s
perform (checking w g stage) s = (training_checkpoint w g stage s).0
perform (observing w recent g line) s = (observe_progress w recent g line s).0
perform (cancelling id) s = (cancel_train id s).0
perform (pausing w id attempt) s = (pause_task w id attempt s).0
perform (passing w g stage) s = (audio_boundary w g stage s).0
perform (ending_audio w digest g id result error paused) s =
    finish_audio_task w digest g id result error paused s
perform (resuming w room plan attempt id) s = (resume_task w room plan attempt id s).0
perform (guarding w g id reason) s = (guard_task_storage w g id reason s).0
perform (closing_lease g clean) s = close_lease g clean s
perform (failing_delivery g) s = delivery_failed g s
perform (failing_pause id attempt) s = pause_failed id attempt s
perform (noting store failed kept) s = record s {
  store = store;
  storage_failed = s.storage_failed || failed;
  job = record s.job { recoverable_training = s.job.recoverable_training || kept };
}

unfoldable pub run : List Op → Service → Service
run [] s = s
run (op ∷ ops) s = run ops (perform op s)

-- The operations that end a generation.
abbrev pub ends : ℕ → Op → Bool
ends g (finishing w g' stage error) = g' == g
ends g (ending w g' outcome) = g' == g
ends g (ending_audio w digest g' id result error paused) = g' == g
ends g _ = false

unfoldable pub any_ends : ℕ → List Op → Bool
any_ends g [] = false
any_ends g (op ∷ ops) = ends g op || any_ends g ops

-- The job is run for the ticket of a generation.
pub record Owns (g : ℕ) (id : Bytes) (job : Job) : Type 0 where
  pub running : job.running ≡ true
  pub generation : job.generation ≡ g
  pub public_id : job.public_id ≡ id

-- A conditional has what both branches have, each under its test.
pub if_cases :
    {A : Type 0} (P : A → Type 0) (b : Bool) {x y : A}
    → (b ≡ true → P x)
    → (b ≡ false → P y)
    → P (if b then x else y)
if_cases P true h k = h refl
if_cases P false h k = k refl

stored_as-job :
    (s : Service) (store : Store) (o : Outcome Bool) → (stored_as s store o).0.job ≡ s.job
stored_as-job s store (found true) = refl
stored_as-job s store (found false) = refl
stored_as-job s store refused = refl
stored_as-job s store spent = refl

pub save_changed-job :
    (w : World) (s : Service) (r : TaskRecord) (o : Outcome TaskRecord)
    → (save_changed w s r o).0.job ≡ s.job
unfolding save_changed
save_changed-job w s r (found r') =
    let saved = save s.capacity w.disk s.store r' r.revision in
    stored_as-job s saved.store saved.outcome
save_changed-job w s r refused = refl
save_changed-job w s r spent = refl

pub change_read-job :
    (w : World) (f : TaskRecord → Outcome TaskRecord) (s : Service)
    (o : Outcome (Option TaskRecord))
    → (change_read w f s o).0.job ≡ s.job
unfolding change_read
change_read-job w f s (found (some r)) = save_changed-job w s r (f r)
change_read-job w f s (found none) = refl
change_read-job w f s refused = refl
change_read-job w f s spent = refl

-- What is written to the store changes nothing of the job.
pub persist_job-job :
    (w : World) (state : Bytes) (terminal : Bool) (s : Service)
    → (persist_job w state terminal s).0.job ≡ s.job
unfolding persist_job change_task
persist_job-job w state terminal s =
    if_cases same (not s.has_tasks) (λ _. refl)
      (λ _.
        if_cases same s.storage_failed (λ _. refl)
          (λ _.
            change_read-job w (persisted w s.job state terminal) s
              (read_locked s.job.public_id s.store)))
  where
    same : Service × Outcome (Unit {0}) → Type 0
    same r = r.0.job ≡ s.job

pub observe_read-job :
    (w : World) (recent : Bool) (p : ProgressMessage) (s : Service)
    (o : Outcome (Option TaskRecord))
    → (observe_read w recent p s o).0.job ≡ s.job
unfolding observe_read
observe_read-job w recent p s (found none) = refl
observe_read-job w recent p s refused = refl
observe_read-job w recent p s spent = refl
observe_read-job w recent p s (found (some r)) =
    if_cases same (not (not (same_phase r p)) && ltb p.completed r.completed) (λ _. refl)
      (λ _.
        if_cases same
          (not (not (same_phase r p))
            && (p.completed == r.completed || not (p.completed == p.total) && recent))
          (λ _. refl) (λ _. save_changed-job w s r (found (progressed w.now p r))))
  where
    same : Service × Outcome (Unit {0}) → Type 0
    same x = x.0.job ≡ s.job

-- What the store has to do with leaves the ownership.
pub persist_job-Owns :
    (w : World) (state : Bytes) (terminal : Bool) (s : Service) {g : ℕ} {id : Bytes}
    → Owns g id s.job
    → Owns g id (persist_job w state terminal s).0.job
persist_job-Owns w state terminal s h =
    subst (Owns _ _) (sym (persist_job-job w state terminal s)) h

-- The stage and the requests have nothing to do with the ownership.
pub Owns-same :
    {g : ℕ} {id : Bytes} {job job' : Job}
    → job'.running ≡ job.running
    → job'.generation ≡ job.generation
    → job'.public_id ≡ job.public_id
    → Owns g id job
    → Owns g id job'
Owns-same e f k h = record {
  running = e ∙ h.running;
  generation = f ∙ h.generation;
  public_id = k ∙ h.public_id;
}
