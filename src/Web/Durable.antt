-- ===== src/Web/Durable.antt =====
-- tools/web/web_service.cpp: what the task store holds behind the end of a job.
use resonantia.Prelude.Number.{u64_max}
use mathlib.Core.Path.{subst}
use resonantia.Tasks.{TaskRecord}
use resonantia.Tasks.Codec.{counters_of}
use resonantia.Tasks.Codec.RoundTrip.{AllWords, InOrder}
use resonantia.Tasks.Store.{read_locked, save}
use resonantia.Tasks.Store.Write.{next_of}
use resonantia.Tasks.Store.Laws.{save-read_locked}
use resonantia.Outcome.{refused, spent, Outcome, found, guard, ◌>>◌}
use resonantia.Prelude.{
  if◌then◌else◌, codes, ◌&&◌, ◌==◌, bytes_eq, Bool, Bytes, [], arith, false, not, refl, some, true,
  ℕ, ◌+◌, ◌≡◌, ◌≤◌,
}
use resonantia.Directory.{Store}
use resonantia.Web.Calls.{if_cases}
use resonantia.Web.Job.{
  TrainingOutcome, finish, finish_training, is_training, outcome_error, stage_of, state_of,
  training_job, change_read, change_task, persist_job, persisted, Job, Service, World, in_state,
  save_changed, staged, stored_as, terminated,
}

-- A record that the store reads back as it is written, under an id.
pub record Sound (name : Bytes) (r : TaskRecord) : Type 0 where
  pub named : r.id ≡ name
  pub words : AllWords (counters_of r)
  pub ordered : InOrder [] r.parameters

-- The record that the end of a job writes.
abbrev pub last_record : World → Job → Bytes → TaskRecord → TaskRecord
last_record w job state r =
    next_of (terminated w state (in_state w state (staged w job r))) r.revision

module _ (w : World) (fits : w.now ≤ u64_max) (id : Bytes) (r : TaskRecord) (h : Sound id r) where
  pub staged-Sound : (job : Job) → Sound id (staged w job r)
  unfolding staged
  staged-Sound job =
      if_cases (Sound id) (bytes_eq r.stage job.stage) (λ _. h)
        (λ _. record {
          named = h.named;
          words = ground (arith, h.words, fits);
          ordered = h.ordered;
        })

  pub in_state-Sound : (state : Bytes) → Sound id (in_state w state r)
  unfolding in_state
  in_state-Sound state =
      let (a, (b, (c, (d, rest)))) = h.words in
      let starts = r.started_ms == 0 && bytes_eq state (codes "running") in
      record {
        named = h.named;
        words =
            (a, (b, (fits, (if_cases (λ (n : ℕ). n ≤ u64_max) starts (λ _. fits) (λ _. d), rest))));
        ordered = h.ordered;
      }

  pub terminated-Sound : (state : Bytes) → Sound id (terminated w state r)
  unfolding terminated
  terminated-Sound state =
      let (a, (b, (c, (d, (e, rest))))) = h.words in
      let paused = bytes_eq state (codes "paused") in
      record {
        named = h.named;
        words = (
          a,
          (
            b,
            (
              c,
              (d, (if_cases (λ (n : ℕ). n ≤ u64_max) paused (λ _. omega arith) (λ _. fits), rest)),
            ),
          ),
        );
        ordered = h.ordered;
      }

stored_as-stored :
    (s : Service) (store : Store) (o : Outcome Bool)
    → (stored_as s store o).0.storage_failed ≡ false
    → (o ≡ found true) × ((stored_as s store o).0.store ≡ store)
stored_as-stored s store (found true) h = (refl, refl)
stored_as-stored s store (found false) h = cc
stored_as-stored s store refused h = cc
stored_as-stored s store spent h = cc

-- Without a failure the changed record is read back.
pub save_changed-stored :
    (w : World) (s : Service) (r r' : TaskRecord) (id : Bytes)
    → Sound id r'
    → (save_changed w s r (found r')).0.storage_failed ≡ false
    → read_locked id (save_changed w s r (found r')).0.store ≡ found (some (next_of r' r.revision))
unfolding save_changed
save_changed-stored w s r r' id sound h =
    let saved = save s.capacity w.disk s.store r' r.revision in
    let (done, store) = stored_as-stored s saved.store saved.outcome h in
    let (_, present) =
      save-read_locked s.capacity w.disk s.store r' r.revision sound.words sound.ordered done in
    rw store (
      subst (λ (i : Bytes). read_locked i saved.store ≡ found (some (next_of r' r.revision)))
        sound.named present)

-- The same where the log has to be kept first.
save_guarded-stored :
    (logged : Bool) (w : World) (s : Service) (r r' : TaskRecord) (id : Bytes)
    → Sound id r'
    → (save_changed w s r (guard logged >> found r')).0.storage_failed ≡ false
    → read_locked id (save_changed w s r (guard logged >> found r')).0.store
      ≡ found (some (next_of r' r.revision))
unfolding save_changed
save_guarded-stored true w s r r' id sound h = save_changed-stored w s r r' id sound h
save_guarded-stored false w s r r' id sound h = cc

-- The last record of a job, from the record that was read.
persisted-stored :
    (w : World) (s : Service) (id state : Bytes) (r : TaskRecord)
    → w.now ≤ u64_max
    → Sound id r
    → (save_changed w s r (persisted w s.job state true r)).0.storage_failed ≡ false
    → read_locked id (save_changed w s r (persisted w s.job state true r)).0.store
      ≡ found (some (last_record w s.job state r))
unfolding persisted
persisted-stored w s id state r fits sound =
    let next = staged w s.job r in
    let next-Sound = in_state-Sound w fits id next (staged-Sound w fits id r sound s.job) state in
    save_guarded-stored w.logged w s r (terminated w state (in_state w state next)) id
      (terminated-Sound w fits id (in_state w state next) next-Sound state)

-- What `persist_job` leaves in the store for the end of a job, unless it sets `storage_failed`.
pub persist_job-stored :
    (w : World) (s : Service) (state : Bytes) (r : TaskRecord)
    → w.now ≤ u64_max
    → Sound s.job.public_id r
    → s.has_tasks ≡ true
    → read_locked s.job.public_id s.store ≡ found (some r)
    → (persist_job w state true s).0.storage_failed ≡ false
    → read_locked s.job.public_id (persist_job w state true s).0.store
      ≡ found (some (last_record w s.job state r))
unfolding persist_job change_task change_read
persist_job-stored w s state r fits sound has present =
    if_cases P (not s.has_tasks) (λ e _. absurd (ground (arith, e, has)))
      (λ _.
        if_cases P s.storage_failed
          (λ (e : s.storage_failed ≡ true) k. absurd (ground (arith, e, k)))
          (λ _. rw present (persisted-stored w s s.job.public_id state r fits sound)))
  where
    P : Service × Outcome (Unit {0}) → Type 0
    P x =
        x.0.storage_failed ≡ false
        → read_locked s.job.public_id x.0.store ≡ found (some (last_record w s.job state r))

-- With a clock of 64 bits, where the store holds a record of the current job, with counters of 64 bits and
-- parameters in order, and `finish` ends the job without an error, the store behind it holds a record of
-- the state "succeeded" at the next revision: no success is shown that was not kept.
pub finish-durable :
    (w : World) (g : ℕ) (stage : Bytes) (error : Bool) (s : Service) (r : TaskRecord)
    → w.now ≤ u64_max
    → Sound s.job.public_id r
    → s.has_tasks ≡ true
    → read_locked s.job.public_id s.store ≡ found (some r)
    → s.job.generation ≡ g
    → (finish w g stage error s).job.error ≡ false
    → (kept : TaskRecord) × (read_locked s.job.public_id (finish w g stage error s).store
        ≡ found (some kept))
      × (kept.state ≡ codes "succeeded")
      × (kept.revision ≡ r.revision + 1)
unfolding finish terminated in_state
finish-durable w g stage true s r fits sound has present same =
    let e : (s.job.generation == g) ≡ true = ground (arith, same) in rw e (λ h. cc)
finish-durable w g stage false s r fits sound has present same =
    let e : (s.job.generation == g) ≡ true = ground (arith, same) in
    rw e (λ h. (
      last_record w s.job (codes "succeeded") r,
      persist_job-stored w s (codes "succeeded") r fits sound has present h,
      refl,
      refl,
    ))

-- With a clock of 64 bits, where the store holds a record of the current training, with counters of 64
-- bits and parameters in order, and its end does not set `task_storage_failed_`, the store behind it holds
-- the state of the outcome that the stage of the job shows, which is an error if the control channel
-- failed.
pub finish_training-agrees :
    (w : World) (g : ℕ) (outcome : TrainingOutcome) (s : Service) (r : TaskRecord)
    → w.now ≤ u64_max
    → Sound s.job.public_id r
    → s.has_tasks ≡ true
    → read_locked s.job.public_id s.store ≡ found (some r)
    → s.job.generation ≡ g
    → s.job.kind ≡ training_job
    → (finish_training w g outcome s).storage_failed ≡ false
    → let shown = if s.job.cancel_error then outcome_error else outcome in
      (kept : TaskRecord) × (read_locked s.job.public_id (finish_training w g outcome s).store
        ≡ found (some kept))
      × (kept.state ≡ state_of shown)
      × ((finish_training w g outcome s).job.stage ≡ stage_of shown)
unfolding finish_training terminated in_state
finish_training-agrees w g outcome s r fits sound has present same training =
    if_cases P (s.job.generation == g && is_training s.job.kind)
      (λ _ (h : ended.storage_failed ≡ false). (
        last_record w s.job (state_of shown) r,
        persist_job-stored w s (state_of shown) r fits sound has present h,
        refl,
        rw h refl,
      ))
      (λ e. absurd (off e))
  where
    shown : TrainingOutcome
    shown = if s.job.cancel_error then outcome_error else outcome

    ended : Service
    ended = (persist_job w (state_of shown) true s).0

    off : (s.job.generation == g && is_training s.job.kind) ≡ false → ⊥
    off e = let e' = rw training at e in ground (arith, e', same)

    P : Service → Type 0
    P x =
        x.storage_failed ≡ false
        → (kept : TaskRecord) × (read_locked s.job.public_id x.store ≡ found (some kept))
          × (kept.state ≡ state_of shown)
          × (x.job.stage ≡ stage_of shown)
