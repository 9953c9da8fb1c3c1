-- ===== src/Tasks/Storage/Tests.antt =====
-- tools/web/task_storage.cpp on small trees, and the theorems on it at concrete inputs.
use resonantia.Digest
use resonantia.Digest.{
  valid_digest, sha256, update, absorb_loop, flush, compress, rounds_loop, round, schedule_loop,
  block_words, pad, big_endian, hex_text, put_hex,
}
use resonantia.Digest.{
  absorb_loop, big_endian, block_words, compress, flush, hex_text, pad, put_hex, round, rounds_loop,
  schedule_loop, sha256, update,
}
use resonantia.Outcome.{Outcome, found}
use resonantia.Prelude.{
  true, Bytes, List, Option, [], all_bytes, bytes_eq, codes, refl, some, ℕ, ◌+◌, ◌∷◌, ◌≡◌,
}
use resonantia.Tasks.{TaskRecord, parameter, valid_id}
use resonantia.Tasks.Storage.{
  Items, Usage, child_folder, end, enter_records, entry, find, folder, full_training,
  measure_task_storage, regular, retired, root_loop, scan_item, scan_items, set_share, share_of,
  text_of_item, training_loop,
}
use resonantia.Tasks.Storage.Cleanup.{Pruned, prune-Pruned}
use resonantia.Tasks.Storage.Measured.{bytes_below}
use resonantia.Tasks.Storage.Prune.{
  synced_after, content_of_item, check_audio, check_training, content_of_item, copies_of,
  file_digest, plan, plan_audio, plan_training, protected_file, prune_task_copies, remove,
  remove_copies, remove_copy,
}
use resonantia.Tasks.Storage.Total.{measure-managed_bytes, trainings_below}

abbrev hello_digest : Bytes
hello_digest = codes "2cf24dba5fb0a30e26e83b2ac5b9e29e1b161e5c1fa7425e73043362938b9824"

-- A conversion with a mix that succeeded, whose result is the text `hello`.
abbrev converted : TaskRecord
converted = record {
  id = codes "task-0001";
  kind = codes "convert";
  name = codes "song";
  state = codes "succeeded";
  stage = codes "";
  error = [];
  unit = [];
  result = codes "work/result.wav";
  phase = [];
  revision = 3;
  attempt = 1;
  created_ms = 10;
  updated_ms = 20;
  started_ms = 11;
  finished_ms = 20;
  progress_at_ms = 20;
  completed = 1;
  total = 1;
  parameters = (codes "output_kind", codes "mix") ∷ (codes "result_sha256", hello_digest) ∷ [];
}

abbrev some_work : Items
some_work = entry (codes "source.wav") (regular (codes "in")) (
    entry (codes "result.wav") (regular (codes "hello")) (
      entry (codes "cover.wav") (regular (codes "abc"))
        (entry (codes "output.wav") (regular (codes "vocal")) end)))

abbrev some_root : Items
some_root = entry (codes "task-0001") (folder (entry (codes "work") (folder some_work) end)) end

run_prune : Items → TaskRecord → Option Items × Outcome ℕ
unfolding prune_task_copies synced_after plan plan_audio plan_training check_audio check_training
    protected_file file_digest content_of_item copies_of remove_copies remove_copy remove find
    child_folder text_of_item full_training parameter valid_id bytes_eq all_bytes valid_digest
    sha256 update absorb_loop flush compress rounds_loop round schedule_loop block_words
    Digest.finish pad big_endian hex_text put_hex
run_prune root r = prune_task_copies root end (λ _. true) true r

abbrev pruned_work : Items
pruned_work = entry (codes "source.wav") (regular (codes "in")) (
    entry (codes "result.wav") (regular (codes "hello")) (
      entry (codes "cover.wav") retired (entry (codes "output.wav") (regular (codes "vocal")) end)))

prune-converted :
    prune_task_copies some_root end (λ _. true) true converted ≡ (some pruned_work, found 3)
unfolding run_prune
prune-converted = refl

prune-Pruned_example : Pruned some_root converted pruned_work (found 3)
prune-Pruned_example =
    prune-Pruned some_root end (λ _. true) true converted pruned_work (found 3) prune-converted

run_measure : Items → List TaskRecord → Outcome Usage
unfolding measure_task_storage enter_records root_loop training_loop set_share share_of scan_item
    scan_items full_training parameter valid_id all_bytes bytes_eq
run_measure root records = measure_task_storage root end (4096, 1000) records

abbrev some_usage : Usage
some_usage = record {
  managed_bytes = 15;
  available_bytes = 4096000;
  tasks = (codes "task-0001", 15) ∷ [];
}

measure-some : measure_task_storage some_root end (4096, 1000) (converted ∷ []) ≡ found some_usage
unfolding run_measure
measure-some = refl

measure-managed_bytes_example :
    some_usage.managed_bytes ≡ bytes_below some_root + trainings_below end (converted ∷ [])
measure-managed_bytes_example =
    measure-managed_bytes some_root end (4096, 1000) (converted ∷ []) some_usage measure-some
