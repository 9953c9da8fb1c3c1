-- ===== src/Operations/Cancel.antt =====
-- tools/app_support/training_cancel.h and training_cancel.cpp: a file of one byte through which the web
-- service stops the command that it started.
pub mod Laws
pub mod Iterations
use resonantia.Prelude.{
  ℕ, zero, suc, ◌+◌, Bool, true, false, ◌&&◌, ◌||◌, not, List, [], ◌∷◌, Bytes, codes, ◌==◌,
  bytes_eq, length, if◌then◌else◌, ◌≡◌, Option, none, some,
}
use resonantia.Outcome.{Outcome, found, refused, spent, ◌>>=◌}
use resonantia.System.{Attempt, retry}

pub data TrainingResult : Type 0 where
  completed error cancelled : TrainingResult

pub data CancelDelivery : Type 0 where
  delivered closed failed : CancelDelivery

-- `TrainingCancelReader`: whether it has a descriptor, and whether an error is recorded.
pub record Reader : Type 0 where
  pub has_fd : Bool
  pub broken : Bool

-- What `open` and `fstat` say of the path.
pub data Opening : Type 0 where
  not_opened no_status irregular : Opening
  regular : ℕ → Opening

-- The constructor; a command without a channel has the empty path.
unfoldable pub open_reader : Bytes → Opening → Reader
open_reader [] o = record { has_fd = false; broken = false }
open_reader (c ∷ path) not_opened = record { has_fd = false; broken = true }
open_reader (c ∷ path) no_status = record { has_fd = true; broken = true }
open_reader (c ∷ path) irregular = record { has_fd = true; broken = true }
open_reader (c ∷ path) (regular size) = record { has_fd = true; broken = not (size == 1) }

-- What the bytes that were read decide.
unfoldable pub decision : Bytes → TrainingResult
decision [] = error
decision (c ∷ []) = if c == b'1' then cancelled else if c == b'0' then completed else error
decision (c ∷ d ∷ s) = error

-- A decision and the reader behind it, which remembers an error.
abbrev pub decided : Reader → TrainingResult → TrainingResult × Reader
decided r completed = (completed, r)
decided r error = (error, record r { broken = true })
decided r cancelled = (cancelled, r)

unfoldable pub poll : List (Attempt Bytes) → Reader → Outcome (TrainingResult × Reader)
poll pread r =
    if r.broken
    then found (error, r)
    else if not r.has_fd
    then found (completed, r)
    else elim (retry pread) [
      | found bytes ↦ found (decided r (decision bytes))
      | refused ↦ found (error, record r { broken = true })
      | spent ↦ spent
    ]

-- `TrainingCancelSource`.
pub record Source : Type 0 where
  pub has_fd : Bool
  pub broken : Bool
  pub requested : Bool

-- The constructor: `none` is the exception. The file that it makes holds a zero.
unfoldable pub make_source : Bool → List (Attempt ℕ) → Outcome (Option (Source × Bytes))
make_source created pwrite = if not created then found none else elim (retry pwrite) [
  | found count ↦
      if count == 1
      then found (some (record { has_fd = true; broken = false; requested = false }, codes "0"))
      else found none
  | refused ↦ found none
  | spent ↦ spent
]

-- Behind the write of a request: the answer, the source, and the file.
abbrev pub written : Source → Bytes → Bool → CancelDelivery × Source × Bytes
written s file true = (delivered, record s { requested = true }, codes "1")
written s file false = (failed, record s { broken = true }, file)

unfoldable pub request :
    List (Attempt ℕ) → Source → Bytes → Outcome (CancelDelivery × Source × Bytes)
request pwrite s file =
    if s.broken
    then found (failed, s, file)
    else if not s.has_fd
    then found (closed, s, file)
    else if s.requested
    then found (delivered, s, file)
    else elim (retry pwrite) [
      | found count ↦ found (written s file (count == 1))
      | refused ↦ found (written s file false)
      | spent ↦ spent
    ]

-- `close_result` is what the system call says, if it is made.
unfoldable pub close : Bool → Source → Bool × Source
close close_result s =
    let broken = s.broken || (s.has_fd && not close_result) in
    (not broken, record s { has_fd = false; broken = broken })

-- `run_training_iterations` from an iteration on: the result, and how many bodies were run to the end.
unfoldable pub iterations : ℕ → ℕ → (ℕ → TrainingResult) → (ℕ → Bool) → ℕ → TrainingResult × ℕ
iterations zero i decisions complete_step ran = (decisions i, ran)
iterations (suc steps) i decisions complete_step ran =
    let rest = iterations steps (i + 1) decisions complete_step (ran + 1) in
    elim (decisions i) [
      | completed ↦ if complete_step i then rest else (error, ran)
      | error ↦ (error, ran)
      | cancelled ↦ (cancelled, ran)
    ]

unfoldable pub run_training_iterations : ℕ → (ℕ → TrainingResult) → (ℕ → Bool) → TrainingResult × ℕ
run_training_iterations steps decisions complete_step = iterations steps 0 decisions complete_step 0

-- The two processes and the file between them.
pub record Channel : Type 0 where
  pub source : Source
  pub file : Bytes
  pub reader : Reader

-- One call of either side. A read that succeeds shows the file as it is.
pub data Call : Channel → Channel → Type 0 where
  requesting :
      (c : Channel) (pwrite : List (Attempt ℕ)) (d : CancelDelivery) (s : Source) (file : Bytes)
      → request pwrite c.source c.file ≡ found (d, s, file)
      → Call c (record c { source = s; file = file })
  closing :
      (c : Channel) (close_result : Bool)
      → Call c (record c { source = (close close_result c.source).1 })
  polling :
      (c : Channel) (pread : List (Attempt Bytes)) (t : TrainingResult) (r : Reader)
      → poll pread c.reader ≡ found (t, r)
      → Call c (record c { reader = r })

pub data Calls (c : Channel) : Channel → Type 0 where
  here : Calls c c
  then_ : {d e : Channel} → Calls c d → Call d e → Calls c e
