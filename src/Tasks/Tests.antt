-- ===== src/Tasks/Tests.antt =====
-- The theorems on tools/web/task_store.cpp at concrete records.
use resonantia.Prelude.{
  bytes_eq, contains, all_bytes, codes, Bytes, refl, true, some, [], ◌∷◌, ◌++◌, ◌≢◌, ◌≡◌, ℕ, arith,
}
use resonantia.Prelude.Decimal.{to_string, digits_of}
use resonantia.Outcome.{Outcome, found}
use resonantia.Tasks.{
  TaskRecord, valid_id, parameter, is_text, valid_retention, valid_digest, valid_source, all_texts,
  all_parameters, validate,
}
use resonantia.Tasks.Codec.{
  put_escaped, put_quoted, put_texts, put_number, put_numbers, put_parameters, counters_of, text_of,
  encode, decode, bytes_less,
}
use resonantia.Tasks.Codec.RoundTrip.{IsStorable, AllWords, InOrder, decode-encode}
use resonantia.Tasks.Store.{
  read_node, read_locked, Disk, sound, unsynced, scan_loop, sort_records, list_locked, write_bytes,
  write_locked, is_stale, count_retained, within_capacity, may_save, Saved, save,
}
use resonantia.Directory.{Store, node_of, put}
use resonantia.Tasks.Store.Write.{next_of}
use resonantia.Tasks.Store.Laws.{save-read_locked, save-once}

abbrev task : TaskRecord
task = record {
  id = codes "task-0001";
  kind = codes "convert";
  name = codes "a \"b\"\n";
  state = codes "queued";
  stage = codes "queued";
  error = [];
  unit = [];
  result = [];
  phase = [];
  revision = 0;
  attempt = 1;
  created_ms = 5;
  updated_ms = 5;
  started_ms = 0;
  finished_ms = 0;
  progress_at_ms = 0;
  completed = 0;
  total = 0;
  parameters = (codes "pitch", codes "2") ∷ (codes "speaker", codes "0") ∷ [];
}

run_encode : TaskRecord → Outcome Bytes
unfolding encode text_of validate valid_id all_bytes all_texts is_text contains bytes_eq parameter
    valid_retention valid_digest valid_source all_parameters put_escaped put_quoted put_texts
    put_number put_numbers put_parameters to_string digits_of
run_encode = encode

task-AllWords : AllWords (counters_of task)
task-AllWords = omega arith

task-InOrder : InOrder [] task.parameters
unfolding bytes_less
task-InOrder = (tt, ((refl, tt), tt))

first_saved-IsStorable : IsStorable (next_of task 0)
unfolding bytes_less
first_saved-IsStorable = record {
  counters = omega arith;
  saved = omega arith;
  ordered = task-InOrder;
}

abbrev file_text : Bytes
file_text =
    codes
      "RESONANTIA_TASK 2\n\"task-0001\"\n\"convert\"\n\"a \\\"b\\\"\n\"\n\"queued\"\n\"queued\"\n"
    ++ codes "\"\"\n\"\"\n\"\"\n\"\"\n1 5 5 0 0 0 0 0 1\n2\n\"pitch\" \"2\"\n\"speaker\" \"0\"\n"

decode-encode_example : decode file_text ≡ found (next_of task 0)
unfolding run_encode
decode-encode_example = decode-encode (next_of task 0) first_saved-IsStorable refl

run_save : ℕ → Disk → Store → TaskRecord → ℕ → Saved
unfolding run_encode save may_save within_capacity list_locked scan_loop sort_records count_retained
    is_stale read_locked read_node node_of put write_locked write_bytes
run_save = save

save-read_locked_example :
    ((save 2 sound [] task 0).revision ≡ 1)
    × (read_locked (codes "task-0001") (save 2 sound [] task 0).store
        ≡ found (some (next_of task 0)))
unfolding run_save
save-read_locked_example = save-read_locked 2 sound [] task 0 task-AllWords task-InOrder refl

save-once_example :
    ((save 2 unsynced (save 2 sound [] task 0).store task 0).store ≡ (save 2 sound [] task 0).store)
    × ((save 2 unsynced (save 2 sound [] task 0).store task 0).outcome ≢ found true)
unfolding run_save
save-once_example = save-once 2 sound unsynced [] task task 0 task-AllWords task-InOrder refl refl
