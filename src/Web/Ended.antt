-- ===== src/Web/Ended.antt =====
-- tools/web/web_service.cpp: what the task store holds behind the end of an audio task.
use mathlib.Core.Path.{subst}
use resonantia.Prelude.Number.{u64_max}
use resonantia.Tasks.{TaskRecord, parameter}
use resonantia.Tasks.Codec.Assign.{assign, assign-InOrder, assign-parameter}
use resonantia.Tasks.Store.{read_locked}
use resonantia.Tasks.Store.Write.{next_of}
use resonantia.Outcome.{Outcome, found, guard, refused, spent, >>=-eq-found}
use resonantia.Prelude.{
  sym, ap, ◌∙◌, Bool, Bytes, [], arith, bytes_eq, codes, false, if◌then◌else◌, length, not, refl,
  some, true, ℕ, ◌&&◌, ◌+◌, ◌==◌, ◌||◌, ◌≡◌, ◌≤◌,
}
use resonantia.Web.Audio.{
  audio_error, audio_record, audio_state, digested, finish_audio_task, has_failed, has_paused,
}
use resonantia.Web.Calls.{if_cases, save_changed-job}
use resonantia.Web.Durable.{Sound, save_changed-stored}
use resonantia.Web.Job.{Job, Service, World, change_read, save_changed}

-- The three states in which an audio task ends, by whether it failed and whether it paused.
pub record IsEnd (state : Bytes) (failed paused : Bool) : Type 0 where
  pub if_failed : bytes_eq state (codes "failed") ≡ failed
  pub if_paused : bytes_eq state (codes "paused") ≡ (paused && not failed)
  pub if_succeeded : bytes_eq state (codes "succeeded") ≡ (not paused && not failed)

audio_state-IsEnd : (failed paused : Bool) → IsEnd (audio_state failed paused) failed paused
unfolding bytes_eq
audio_state-IsEnd true true = record { if_failed = refl; if_paused = refl; if_succeeded = refl }
audio_state-IsEnd true false = record { if_failed = refl; if_paused = refl; if_succeeded = refl }
audio_state-IsEnd false true = record { if_failed = refl; if_paused = refl; if_succeeded = refl }
audio_state-IsEnd false false = record { if_failed = refl; if_paused = refl; if_succeeded = refl }

-- The digest of the result stands among the parameters.
abbrev pub Hashed : Outcome Bytes → TaskRecord → Type 0
Hashed digest r =
    (d : Bytes) × (digest ≡ found d) × (parameter (codes "result_sha256") r.parameters ≡ some d)

-- What the last record keeps of the job.
record Ended (digest : Outcome Bytes) (id result state : Bytes) (r : TaskRecord) : Type 0 where
  sound : Sound id r
  named_state : r.state ≡ state
  named_result : r.result ≡ result
  hashed : bytes_eq state (codes "succeeded") ≡ true → Hashed digest r

digested-Ended :
    (b : Bool) (digest : Outcome Bytes) (id result state : Bytes) (r r' : TaskRecord)
    → Sound id r
    → r.state ≡ state
    → r.result ≡ result
    → bytes_eq state (codes "succeeded") ≡ b
    → digested b digest r ≡ found r'
    → Ended digest id result state r'
unfolding digested
digested-Ended false digest id result state r r' sound named_state named_result no_success e =
    let same : r ≡ r' = cc in
    subst (Ended digest id result state) same (record {
      sound = sound;
      named_state = named_state;
      named_result = named_result;
      hashed = λ k. absurd (ground (arith, k, no_success));
    })
digested-Ended true digest id result state r r' sound named_state named_result success e =
    let (d, there, e') = >>=-eq-found digest _ e in
    let next : TaskRecord = record r {
      parameters = assign (codes "result_sha256") d r.parameters;
    } in
    let same : next ≡ r' = cc in
    subst (Ended digest id result state) same (record {
      sound = record {
        named = sound.named;
        words = sound.words;
        ordered = assign-InOrder (codes "result_sha256") d [] r.parameters tt sound.ordered;
      };
      named_state = named_state;
      named_result = named_result;
      hashed = λ _. (d, there, assign-parameter (codes "result_sha256") d r.parameters);
    })

audio_record-Ended :
    (w : World) (job : Job) (digest : Outcome Bytes) (id result error : Bytes) (paused : Bool)
    (r r' : TaskRecord)
    → w.now ≤ u64_max
    → Sound id r
    → audio_record w job digest result error paused r ≡ found r'
    → Ended digest id result (audio_state (has_failed job error) (has_paused job paused)) r'
unfolding audio_record
audio_record-Ended w job digest id result error paused r r' fits sound e =
    let state = audio_state (has_failed job error) (has_paused job paused) in
    let held = has_paused job paused in
    let start : TaskRecord = record r {
      error = audio_error job error paused;
      state = state;
      result = result;
    } in
    let (_, _, e1) = >>=-eq-found (guard w.logged) _ e in
    let (next, there, e2) = >>=-eq-found (digested _ digest start) _ e1 in
    let begun : Sound id start = record {
      named = sound.named;
      words = sound.words;
      ordered = sound.ordered;
    } in
    let succeeds = (audio_state-IsEnd (has_failed job error) held).if_succeeded in
    let done =
      digested-Ended _ digest id result state start next begun refl refl (succeeds ∙ ground (arith))
        there in
    let last : TaskRecord = record next {
      updated_ms = w.now;
      finished_ms = if held then 0 else w.now;
    } in
    let same : last ≡ r' = cc in
    let (a, (b, (_, (d, (_, rest))))) = done.sound.words in
    let finished_at : (if held then 0 else w.now) ≤ u64_max =
      if_cases (λ (n : ℕ). n ≤ u64_max) held (λ _. omega arith) (λ _. fits) in
    subst (Ended digest id result state) same (record {
      sound = record {
        named = done.sound.named;
        words = (a, (b, (fits, (d, (finished_at, rest)))));
        ordered = done.sound.ordered;
      };
      named_state = done.named_state;
      named_result = done.named_result;
      hashed = done.hashed;
    })

-- The state of the record against what the job shows.
shown-IsEnd :
    (job : Job) (state error : Bytes) (paused shown : Bool)
    → state ≡ audio_state (has_failed job error) (has_paused job paused)
    → shown ≡ (not (length error == 0) || job.cancel_error)
    → IsEnd state shown paused
shown-IsEnd job state error paused shown e f =
    let base = audio_state-IsEnd (has_failed job error) (has_paused job paused) in
    record {
      if_failed = ap (λ z. bytes_eq z (codes "failed")) e ∙ base.if_failed ∙ ground (arith, f);
      if_paused = ap (λ z. bytes_eq z (codes "paused")) e ∙ base.if_paused ∙ ground (arith, f);
      if_succeeded =
          ap (λ z. bytes_eq z (codes "succeeded")) e ∙ base.if_succeeded ∙ ground (arith, f);
    }

-- A change that is saved is read back.
save_changed-Ended :
    (w : World) (s : Service) (r : TaskRecord) (digest : Outcome Bytes) (id result state : Bytes)
    (o : Outcome TaskRecord)
    → ((r' : TaskRecord) → o ≡ found r' → Ended digest id result state r')
    → (save_changed w s r o).0.storage_failed ≡ false
    → (kept : TaskRecord) × (read_locked id (save_changed w s r o).0.store ≡ found (some kept))
      × (kept.state ≡ state)
      × (kept.result ≡ result)
      × (kept.revision ≡ r.revision + 1)
      × (bytes_eq state (codes "succeeded") ≡ true → Hashed digest kept)
unfolding save_changed
save_changed-Ended w s r digest id result state (found r') h ok =
    let end = h r' refl in
    (
      next_of r' r.revision,
      save_changed-stored w s r r' id end.sound ok,
      end.named_state,
      end.named_result,
      refl,
      end.hashed,
    )
save_changed-Ended w s r digest id result state refused h ok = cc
save_changed-Ended w s r digest id result state spent h ok = cc

-- With a clock of 64 bits, where the store holds a record of the audio task of the current job, with
-- counters of 64 bits and parameters in order, and its end does not set `task_storage_failed_`: the store
-- behind it holds the record at the next revision, with the result, and in the state "failed" exactly if
-- the job shows an error, which it does if there is an error text or the control channel failed; else in
-- the state "paused" or "succeeded" as the end asked, and with a success goes the digest of the result
-- among the parameters. The job does not run.
pub finish_audio_task-agrees :
    (w : World) (digest : Outcome Bytes) (g : ℕ) (id result error : Bytes) (paused : Bool)
    (s : Service) (r : TaskRecord)
    → w.now ≤ u64_max
    → Sound id r
    → read_locked id s.store ≡ found (some r)
    → s.job.generation ≡ g
    → (finish_audio_task w digest g id result error paused s).storage_failed ≡ false
    → let s' = finish_audio_task w digest g id result error paused s in
      (s'.job.running ≡ false)
      × (s'.job.error ≡ (not (length error == 0) || s.job.cancel_error))
      × (kept : TaskRecord) × (read_locked id s'.store ≡ found (some kept))
      × IsEnd kept.state s'.job.error paused
      × (kept.result ≡ result)
      × (kept.revision ≡ r.revision + 1)
      × (bytes_eq kept.state (codes "succeeded") ≡ true → Hashed digest kept)
unfolding finish_audio_task change_read
finish_audio_task-agrees w digest g id result error paused s r fits sound present same =
    let e : (s.job.generation == g) ≡ true = ground (arith, same) in
    rw (e, present)
      (λ ok.
        let o = audio_record w s.job digest result error paused r in
        let same_job = save_changed-job w s r o in
        let channel = ap (λ (j : Job). j.cancel_error) same_job in
        let x = (save_changed w s r o).0 in
        let shown : (not (length error == 0) || x.job.cancel_error || x.storage_failed)
            ≡ (not (length error == 0) || s.job.cancel_error) =
          ground (arith, channel, ok) in
        let (kept, there, state, named, revised, hashed) =
          save_changed-Ended w s r digest id result
            (audio_state (has_failed s.job error) (has_paused s.job paused)) o
            (λ r' k. audio_record-Ended w s.job digest id result error paused r r' fits sound k)
            ok in
        (
          refl,
          shown,
          kept,
          there,
          shown-IsEnd s.job kept.state error paused _ state shown,
          named,
          revised,
          λ k. hashed (ap (λ z. bytes_eq z (codes "succeeded")) (sym state) ∙ k),
        ))
