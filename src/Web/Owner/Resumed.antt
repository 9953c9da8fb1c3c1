-- ===== src/Web/Owner/Resumed.antt =====
-- tools/web/web_service.cpp: the end of an audio task, resumption, the storage guard and the control channel
-- keep the ownership of a running job.
use mathlib.Core.Path.{subst}
use resonantia.Tasks.Store.{read_locked}
use resonantia.Tasks.{TaskRecord, parameter}
use resonantia.Prelude.Decimal.{to_string}
use resonantia.Web.Audio.{finish_audio_task}
use resonantia.Web.Resume.{
  ResumeAnswer, close_lease, delivery_failed, guard_task_storage, holds, pause_failed,
  persist_guarded, resume_read, resume_task,
}
use resonantia.Outcome.{refused, spent, Outcome, found}
use resonantia.Prelude.{
  ◌+◌, some, bytes_eq, not, ◌||◌, Bool, Bytes, Option, arith, codes, false, none, refl, sym, true,
  ℕ, ◌&&◌, ◌==◌, ◌≡◌,
}
use resonantia.Web.Calls.{change_read-job, if_cases, Owns, Owns-same, persist_job-Owns}
use resonantia.Web.Job.{change_read, Service, World}

module _ (g : ℕ) (id : Bytes) (s : Service) (h : Owns g id s.job) where
  pub finish_audio_task-Owns :
      (w : World) (digest : Outcome Bytes) (g' : ℕ) (id' result error : Bytes) (paused : Bool)
      → (g' == g) ≡ false
      → Owns g id (finish_audio_task w digest g' id' result error paused s).job
  unfolding finish_audio_task
  finish_audio_task-Owns w digest g' id' result error paused off =
      if_cases (λ (r : Service). Owns g id r.job) (s.job.generation == g')
        (λ (e : (s.job.generation == g') ≡ true). absurd (ground (arith, e, off, h.generation)))
        (λ _. h)

  resume_read-Owns :
      (w : World) (room : Bool) (plan : Outcome Bool) (attempt : ℕ) (id' : Bytes)
      (o : Outcome (Option TaskRecord))
      → Owns g id (resume_read w room plan attempt id' s o).0.job
  unfolding resume_read
  resume_read-Owns w room plan attempt id' (found none) = h
  resume_read-Owns w room plan attempt id' refused = h
  resume_read-Owns w room plan attempt id' spent = h
  resume_read-Owns w room plan attempt id' (found (some r)) =
      let P = λ (x : Service × ResumeAnswer). Owns g id x.0.job in
      let before =
        r.attempt == attempt + 1
        && holds (parameter (codes "resumed_from") r.parameters) (to_string attempt) in
      if_cases P before (λ _. h)
        (λ _.
          if_cases P (not (r.attempt == attempt) || s.job.running) (λ _. h)
            (λ (e : (not (r.attempt == attempt) || s.job.running) ≡ false).
              absurd (ground (arith, e, h.running))))

  pub resume_task-Owns :
      (w : World) (room : Bool) (plan : Outcome Bool) (attempt : ℕ) (id' : Bytes)
      → Owns g id (resume_task w room plan attempt id' s).0.job
  unfolding resume_task
  resume_task-Owns w room plan attempt id' =
      if_cases (λ (x : Service × ResumeAnswer). Owns g id x.0.job) s.storage_failed (λ _. h)
        (λ _. resume_read-Owns w room plan attempt id' (read_locked id' s.store))

  persist_guarded-Owns :
      (w : World) (r : Service × Outcome (Unit {0}))
      → Owns g id r.0.job
      → Owns g id (persist_guarded w r).0.job
  persist_guarded-Owns w (s', found _) k = persist_job-Owns w (codes "pause_requested") false s' k
  persist_guarded-Owns w (s', refused) k = k
  persist_guarded-Owns w (s', spent) k = k

  pub guard_task_storage-Owns :
      (w : World) (g' : ℕ) (id' reason : Bytes)
      → Owns g id (guard_task_storage w g' id' reason s).0.job
  unfolding guard_task_storage
  guard_task_storage-Owns w g' id' reason =
      let asked = record s {
        job = record s.job { pause_requested = true; storage_notice = reason };
      } in
      let note : TaskRecord → Outcome TaskRecord = λ r. found (record r { error = reason }) in
      let o = read_locked id' s.store in
      let off =
        not (s.job.generation == g')
        || not s.job.running
        || bytes_eq s.job.stage (codes "publishing")
        || bytes_eq s.job.stage (codes "saving") in
      if_cases (λ (x : Service × Outcome (Unit {0})). Owns g id x.0.job) off (λ _. h)
        (λ _.
          persist_guarded-Owns w (change_read w note asked o)
            (subst (Owns g id) (sym (change_read-job w note asked o)) (Owns-same refl refl refl h)))

  pub close_lease-Owns : (g' : ℕ) (clean : Bool) → Owns g id (close_lease g' clean s).job
  unfolding close_lease
  close_lease-Owns g' clean =
      if_cases (λ (x : Service). Owns g id x.job) (s.job.generation == g')
        (λ _. Owns-same refl refl refl h) (λ _. h)

  pub delivery_failed-Owns : (g' : ℕ) → Owns g id (delivery_failed g' s).job
  unfolding delivery_failed
  delivery_failed-Owns g' =
      if_cases (λ (x : Service). Owns g id x.job) (s.job.generation == g')
        (λ _. Owns-same refl refl refl h) (λ _. h)

  pub pause_failed-Owns : (id' : Bytes) (attempt : ℕ) → Owns g id (pause_failed id' attempt s).job
  unfolding pause_failed
  pause_failed-Owns id' attempt =
      if_cases (λ (x : Service). Owns g id x.job)
        (bytes_eq s.job.public_id id' && s.job.attempt == attempt) (λ _. Owns-same refl refl refl h)
        (λ _. h)
