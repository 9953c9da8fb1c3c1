-- ===== src/Web/Tests.antt =====
-- The theorems on the job of tools/web/web_service.cpp at a concrete service.
use resonantia.Tasks.{
  TaskRecord, valid_id, parameter, is_text, valid_retention, valid_digest, valid_source, all_texts,
  all_parameters, validate,
}
use resonantia.Prelude.Number.{number}
use resonantia.Prelude.{split_byte, bytes_eq}
use resonantia.Tasks.Store.Write.{next_of}
use resonantia.Tasks.Codec.{
  decode, first_line, read_texts, read_quoted, skip_space, read_escaped, read_numbers, read_number,
  read_word, word, read_attempt, record_of, read_parameters, put_escaped, put_quoted, put_texts,
  put_number, put_numbers, put_parameters, text_of, encode,
}
use resonantia.Tasks.Store.{
  Disk, Saved, sound, read_node, read_locked, scan_loop, sort_records, list_locked, write_bytes,
  write_locked, is_stale, count_retained, within_capacity, may_save, save,
}
use resonantia.Directory.{Store, node_of, put}
use resonantia.Outcome.{Outcome, found}
use resonantia.Prelude.{
  contains, all_bytes, codes, bytes_eq, Bytes, List, [], false, none, refl, some, true, ℕ, arith,
  ◌∷◌, ◌≡◌,
}
use resonantia.Prelude.Decimal.{to_string, digits_of}
use resonantia.Web.Calls.{
  Owns, any_ends, cancelling, checking, finishing, Op, perform, reserving, run, staging,
}
use resonantia.Web.Reserve.{new_record, reserved, is_full, reserve_job}
use resonantia.Web.Job.{
  finish_training, outcome_cancelled, step_job, training_job, in_state, Job, JobKind, Service,
  World, change_read, change_task, conversion_job, finish, in_state, no_kind, persist_job,
  persisted, save_changed, staged, terminated,
}
use resonantia.Web.Durable.{finish-durable, finish_training-agrees}
use resonantia.Web.Audio.{finish_audio_task, audio_record, digested}
use resonantia.Tasks.Codec.Assign.{assign}
use resonantia.Web.Ended.{Hashed, IsEnd, finish_audio_task-agrees}
use resonantia.Web.Calls.{ending_audio, resuming, closing_lease}
use resonantia.Web.Owner.{run-exclusive}

abbrev idle_job : Job
idle_job = record {
  generation = 0;
  attempt = 1;
  public_id = [];
  kind = no_kind;
  storage_notice = [];
  cancel_requested = false;
  pause_requested = false;
  recoverable_training = false;
  cancel_error = false;
  cancelled = false;
  name = [];
  stage = [];
  running = false;
  done = false;
  error = false;
}

abbrev idle : Service
idle = record { job = idle_job; has_tasks = true; capacity = 4; store = []; storage_failed = false }

abbrev world : World
world = record { now = 7; disk = sound; logged = true }

abbrev task_id : Bytes
task_id = codes "task-0001"

abbrev reserving_job : JobKind → Op
reserving_job kind = reserving world true (codes "a") kind (λ _. task_id)

run_encode : TaskRecord → Outcome Bytes
unfolding encode text_of validate valid_id all_bytes all_texts is_text contains bytes_eq parameter
    valid_retention valid_digest valid_source all_parameters put_escaped put_quoted put_texts
    put_number put_numbers put_parameters to_string digits_of
run_encode = encode

run_decode : Bytes → Outcome TaskRecord
unfolding decode first_line split_byte read_texts read_quoted skip_space read_escaped read_numbers
    read_number read_word number word read_attempt record_of read_parameters
run_decode = decode

run_save : ℕ → Disk → Store → TaskRecord → ℕ → Saved
unfolding run_encode run_decode save may_save within_capacity list_locked scan_loop sort_records
    count_retained is_stale read_locked read_node node_of put write_locked write_bytes
run_save = save

evaluate : List Op → Service → Service
unfolding perform run reserve_job persist_job change_task change_read save_changed persisted
    in_state staged terminated is_full run_save
evaluate = run

-- A job of each kind behind its reservation, with the record that it starts with.
abbrev started : JobKind → Service
started kind = run (reserving_job kind ∷ []) idle

abbrev started_record : JobKind → TaskRecord
started_record kind = next_of (new_record 7 task_id (codes "a") kind) 0

run_finish : Service → Service
unfolding evaluate finish terminated in_state
run_finish = finish world 1 (codes "step-done") false

finish-durable_example :
    (kept : TaskRecord) × (read_locked task_id
        (finish world 1 (codes "step-done") false (started step_job)).store
      ≡ found (some kept))
    × (kept.state ≡ codes "succeeded")
    × (kept.revision ≡ 2)
unfolding evaluate run_finish
finish-durable_example =
    finish-durable world 1 (codes "step-done") false (started step_job) (started_record step_job)
      (omega arith) (record { named = refl; words = omega arith; ordered = tt }) refl refl refl refl

-- A conversion that succeeds.
abbrev result_digest : Outcome Bytes
result_digest = found (codes "2cf24dba5fb0a30e26e83b2ac5b9e29e1b161e5c1fa7425e73043362938b9824")

abbrev converted : Service
converted =
    finish_audio_task world result_digest 1 task_id (codes "work/result.wav") [] false
      (started conversion_job)

run_finish_audio : Service → Service
unfolding evaluate finish_audio_task audio_record digested assign
run_finish_audio =
    finish_audio_task world result_digest 1 task_id (codes "work/result.wav") [] false

finish_audio_task-agrees_example :
    (converted.job.running ≡ false)
    × (converted.job.error ≡ false)
    × (kept : TaskRecord) × (read_locked task_id converted.store ≡ found (some kept))
    × IsEnd kept.state converted.job.error false
    × (kept.result ≡ codes "work/result.wav")
    × (kept.revision ≡ 2)
    × (bytes_eq kept.state (codes "succeeded") ≡ true → Hashed result_digest kept)
unfolding evaluate run_finish_audio
finish_audio_task-agrees_example =
    finish_audio_task-agrees world result_digest 1 task_id (codes "work/result.wav") [] false
      (started conversion_job) (started_record conversion_job) (omega arith)
      (record { named = refl; words = omega arith; ordered = tt }) refl refl refl

run_finish_training : Service → Service
unfolding evaluate finish_training terminated in_state
run_finish_training = finish_training world 1 outcome_cancelled

finish_training-agrees_example :
    (kept : TaskRecord) × (read_locked task_id
        (finish_training world 1 outcome_cancelled (started training_job)).store
      ≡ found (some kept))
    × (kept.state ≡ codes "cancelled")
    × ((finish_training world 1 outcome_cancelled (started training_job)).job.stage
        ≡ codes "cancelled")
unfolding evaluate run_finish_training
finish_training-agrees_example =
    finish_training-agrees world 1 outcome_cancelled (started training_job)
      (started_record training_job) (omega arith)
      (record { named = refl; words = omega arith; ordered = tt }) refl refl refl refl refl

abbrev owned : Service
owned = reserved idle (record { generation = 1; public_id = task_id }) (codes "a") training_job

abbrev late_calls : List Op
late_calls =
    staging world 2 (codes "x")
    ∷ finishing world 2 (codes "done") false
    ∷ cancelling task_id
    ∷ checking world 1 (codes "train")
    ∷ ending_audio world result_digest 2 task_id (codes "work/result.wav") [] false
    ∷ resuming world true (found false) 1 (codes "task-0002")
    ∷ closing_lease 1 false
    ∷ []

run-exclusive_example :
    Owns 1 task_id (run late_calls owned).job
    × (reserve_job world true (codes "b") step_job (λ _. task_id) (run late_calls owned)
        ≡ (run late_calls owned, found none))
unfolding any_ends
run-exclusive_example =
    run-exclusive 1 task_id late_calls owned world true (codes "b") step_job (λ _. task_id)
      (record { running = refl; generation = refl; public_id = refl }) refl
