-- ===== src/Web/Audio.antt =====
-- tools/web/web_service.cpp: `finish_audio_task`, the end of a conversion or a preparation.
use resonantia.Tasks.{TaskRecord}
use resonantia.Tasks.Codec.Assign.{assign}
use resonantia.Tasks.Store.{read_locked}
use resonantia.Outcome.{Outcome, found, guard, ◌>>=◌, ◌>>◌}
use resonantia.Prelude.{
  Bool, Bytes, codes, false, if◌then◌else◌, length, not, take, true, ℕ, ◌&&◌, ◌==◌, ◌||◌,
}
use resonantia.Web.Job.{Job, Service, World, change_read}

-- The digest of the result, which a success records. `digest` is what `sha256_file` answers.
unfoldable pub digested : Bool → Outcome Bytes → TaskRecord → Outcome TaskRecord
digested false digest r = found r
digested true digest r = do
  d ← digest
  found (record r { parameters = assign (codes "result_sha256") d r.parameters })

abbrev pub has_failed : Job → Bytes → Bool
has_failed job error' = job.cancel_error || not (length error' == 0)

-- Whether the end is a pause, where the control channel has not failed.
abbrev pub has_paused : Job → Bool → Bool
has_paused job paused = paused && not job.cancel_error

abbrev pub audio_state : Bool → Bool → Bytes
audio_state failed paused =
    if failed then codes "failed" else if paused then codes "paused" else codes "succeeded"

abbrev pub audio_error : Job → Bytes → Bool → Bytes
audio_error job error' paused =
    if job.cancel_error
    then codes "pause control I/O failed"
    else if paused && not (has_failed job error')
    then job.storage_notice
    else take 4096 error'

-- The record of the end.
unfoldable pub audio_record :
    World → Job → Outcome Bytes → Bytes → Bytes → Bool → TaskRecord → Outcome TaskRecord
audio_record w job digest result' error' paused r = do
  guard w.logged
  let failed = has_failed job error'
  let held = has_paused job paused
  ended ← digested (not failed && not held) digest (record r {
    error = audio_error job error' paused;
    state = audio_state failed held;
    result = result';
  })
  found (record ended { updated_ms = w.now; finished_ms = if held then 0 else w.now })

-- The job behind it; an exception in front is kept in.
abbrev pub audio_ended : Bytes → Service → Service
audio_ended error' s = record s {
  job = record s.job {
    done = true;
    error = not (length error' == 0) || s.job.cancel_error || s.storage_failed;
    running = false;
  };
}

-- The ticket is of generation `g` and names the task `id`; only a service with a task store calls it.
unfoldable pub finish_audio_task :
    World → Outcome Bytes → ℕ → Bytes → Bytes → Bytes → Bool → Service → Service
finish_audio_task w digest g id result' error' paused s =
    let change = audio_record w s.job digest result' error' paused in
    if s.job.generation == g
    then audio_ended error' (change_read w change s (read_locked id s.store)).0
    else s
