-- ===== src/Operations/Tests.antt =====
-- The theorems on tools/app_support at concrete records and calls.
use resonantia.Prelude.{
  List, refl, true, false, some, [], ◌∷◌, ◌++◌, ◌≢◌, ◌≡◌, ℕ, zero, suc, codes, Bytes, inl, arith,
  all_bytes, contains, bytes_eq,
}
use resonantia.Prelude.Decimal.{to_string, digits_of}
use resonantia.Outcome.{found}
use resonantia.System.{retry, interrupted, returned}
use resonantia.Operations.Progress.{
  ProgressMessage, valid_progress_phase, valid_progress_unit, parse_progress_message, line_of,
  write_progress_message,
}
use resonantia.Operations.Progress.RoundTrip.{parse-write_progress_message}
use resonantia.Operations.Cancel.{
  TrainingResult, completed, cancelled, CancelDelivery, delivered, poll, Source, request, close,
  iterations, run_training_iterations, Channel, here, then_, closing,
}
use resonantia.Operations.Cancel.Iterations.{IsStopped, run_training_iterations-IsStopped}
use resonantia.Operations.Cancel.Laws.{IsValid, request-poll, close-request}
use resonantia.Digest.{valid_digest, sha256}
use resonantia.Operations.Identity.{fields_text, operation_fields, operation_identity}
use resonantia.Operations.Identity.Hashed.{operation_identity-injective}
use resonantia.Operations.Identity.Injective.{AllShort}

abbrev progress : ProgressMessage
progress = record { phase = codes "step-2"; unit = codes "files"; completed = 3; total = 12 }

abbrev progress_line : Bytes
progress_line = codes "RESONANTIA_PROGRESS 1 step-2 3 12 files"

parse-write_progress_message_example :
    (progress_line ++ codes "\n" ≡ progress_line ++ codes "\n")
    × (parse_progress_message progress_line ≡ found (some progress))
unfolding write_progress_message line_of valid_progress_phase valid_progress_unit all_bytes contains
    bytes_eq to_string digits_of
parse-write_progress_message_example =
    parse-write_progress_message progress (omega arith) (omega arith) refl

abbrev waiting : Channel
waiting = record {
  source = record { has_fd = true; broken = false; requested = false };
  file = codes "0";
  reader = record { has_fd = true; broken = false };
}

waiting-IsValid : IsValid waiting.source waiting.file
waiting-IsValid = record { flag = inl refl; kept = λ e. cc }

abbrev asked : Source
asked = record { has_fd = true; broken = false; requested = true }

-- The source is closed between the request and the poll.
request-poll_example :
    poll (interrupted ∷ returned (codes "1") ∷ []) waiting.reader
    ≡ found (cancelled, waiting.reader)
unfolding request retry close
request-poll_example =
    request-poll waiting
      (record { source = (close true asked).1; file = codes "1"; reader = waiting.reader })
      (returned 1 ∷ []) (interrupted ∷ returned (codes "1") ∷ []) waiting-IsValid refl
      (then_ here (closing (record waiting { source = asked; file = codes "1" }) true)) refl refl
      refl

close-request_example : (codes "0" ≡ codes "0") × (CancelDelivery.closed ≢ delivered)
unfolding request retry close
close-request_example =
    close-request waiting (record waiting { source = (close true waiting.source).1 }) true
      (returned 1 ∷ []) here refl

abbrev third_cancels : ℕ → TrainingResult
third_cancels zero = completed
third_cancels (suc zero) = completed
third_cancels (suc (suc n)) = cancelled

run_training_iterations-IsStopped_example : IsStopped 0 5 third_cancels (λ _. true) cancelled 2
unfolding run_training_iterations iterations
run_training_iterations-IsStopped_example =
    run_training_iterations-IsStopped 5 third_cancels (λ _. true)

abbrev test_executable : Bytes
test_executable = codes "00112233445566778899aabbccddeeff00112233445566778899aabbccddeeff"

test_executable-valid : valid_digest test_executable ≡ true
unfolding valid_digest all_bytes
test_executable-valid = refl

operation_identity-injective_example :
    (operation_identity (codes "conversion") test_executable ((codes "recipe", codes "0 12") ∷ [])
      ≡ sha256 (
          fields_text (
            operation_fields
              (codes "conversion")
              test_executable
              ((codes "recipe", codes "0 12") ∷ []))))
    × ((domain executable : Bytes) (rest : List (Bytes × Bytes))
        → AllShort (operation_fields domain executable rest)
        → fields_text (
            operation_fields
              (codes "conversion")
              test_executable
              ((codes "recipe", codes "0 12") ∷ []))
          ≡ fields_text (operation_fields domain executable rest)
        → (codes "conversion" ≡ domain)
          × (test_executable ≡ executable)
          × ((codes "recipe", codes "0 12") ∷ [] ≡ rest))
operation_identity-injective_example =
    operation_identity-injective (codes "conversion") test_executable
      ((codes "recipe", codes "0 12") ∷ []) test_executable-valid (ground arith)
