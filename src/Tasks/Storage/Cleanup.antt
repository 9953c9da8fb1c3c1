-- ===== src/Tasks/Storage/Cleanup.antt =====
-- tools/web/task_storage.cpp: a whole cleanup, with the checks in front of the removals.
use resonantia.Digest.{valid_digest}
use resonantia.Outcome.{
  >>=-eq-found, Outcome, found, guard, guard-eq-found, of_option, of_option-eq_found, refused,
  spent, ◌>>=◌,
}
use resonantia.Prelude.{
  Bool, [], if◌then◌else◌, not, ◌++◌, ◌||◌, ◌∷◌, Bool-cases, Bytes, List, Option, ap, arith,
  bytes_eq, bytes_eq_iff, codes, contains, false, inl, inr, none, refl, some, sym, true, ℕ, ◌&&◌,
  ◌+◌, ◌∙◌, ◌≡◌,
}
use resonantia.Tasks.{TaskRecord, has_succeeded, is_audio_kind, parameter, valid_id}
use resonantia.Tasks.Storage.{Items, child_folder, find, full_training}
use resonantia.Tasks.Storage.Measured.{bytes_below}
use resonantia.Tasks.Storage.Prune.{
  audio_copies, check_audio, check_training, copies_of, file_digest, plan, plan_audio,
  plan_training, protected_file, prune_task_copies, synced_after, remove_copies, training_copies,
}
use resonantia.Tasks.Storage.Pruned.{remove_copies-Removed}

-- The work directory of a task.
unfoldable pub work_of : Items → Bytes → Outcome Items
work_of root id = child_folder id root >>= λ task. child_folder (codes "work") task

-- The names that are of no use once the task has succeeded: of a training the models that it started from;
-- of an audio task the model, its index and the cover, and the separate voice, unless the result is a mix.
abbrev voice_only : Option Bytes → Bool
voice_only none = true
voice_only (some kind) = not (bytes_eq kind (codes "mix"))

abbrev audio_may_go : Option Bytes → Bytes → Bool
audio_may_go kind name =
    bytes_eq name (codes "model.safetensors")
    || bytes_eq name (codes "model.index")
    || bytes_eq name (codes "cover.wav")
    || bytes_eq name (codes "output.wav") && voice_only kind

abbrev training_may_go : Bytes → Bool
training_may_go name =
    bytes_eq name (codes "generator.safetensors")
    || bytes_eq name (codes "discriminator.safetensors")

abbrev pub may_go : TaskRecord → Bytes → Bool
may_go r name =
    if full_training r
    then training_may_go name
    else audio_may_go (parameter (codes "output_kind") r.parameters) name

-- What a cleanup has done to the work directory, and what it found there before.
pub record Pruned (root : Items) (r : TaskRecord) (work' : Items) (freed : Outcome ℕ) : Type 0 where
  pub work : Items
  pub opened : work_of root r.id ≡ found work
  pub succeeded : has_succeeded r ≡ true
  pub keeps : (other : Bytes) → may_go r other ≡ false → find other work' ≡ find other work
  pub counts : (n : ℕ) → freed ≡ found n → n + bytes_below work' ≡ bytes_below work
  pub result :
      full_training r ≡ false
      → (digest : Bytes) × (parameter (codes "result_sha256") r.parameters ≡ some digest)
        × (file_digest (codes "result.wav") work' ≡ found digest)

-- What the checks have found, where something may be removed.
record Planned (root : Items) (r : TaskRecord) (work : Items) (names : List Bytes) : Type 0 where
  opened : work_of root r.id ≡ found work
  succeeded : has_succeeded r ≡ true
  allowed : (other : Bytes) → may_go r other ≡ false → contains other names ≡ false
  result :
      full_training r ≡ false
      → (digest : Bytes) × (parameter (codes "result_sha256") r.parameters ≡ some digest)
        × (file_digest (codes "result.wav") work ≡ found digest)

pair-eq :
    {p q : Items × List Bytes}
    → ◌≡◌ {A = Outcome (Option (Items × List Bytes))} (found (some p)) (found (some q))
    → p ≡ q
pair-eq {p = p} h =
    ap (λ o. elim o [ found (some x) ↦ x | found none ↦ p | refused ↦ p | spent ↦ p ]) h

training-allowed :
    (r : TaskRecord) (other : Bytes)
    → full_training r ≡ true
    → may_go r other ≡ false
    → contains other training_copies ≡ false
unfolding contains
training-allowed r other e h = let h' = rw e at h in ground (arith, h')

copies-allowed :
    (r : TaskRecord) (other : Bytes)
    → full_training r ≡ false
    → may_go r other ≡ false
    → contains other (copies_of r) ≡ false
unfolding contains copies_of
copies-allowed r other e h =
    let h' = rw e at h in go (parameter (codes "output_kind") r.parameters) h'
  where
    copies : Option Bytes → List Bytes
    copies kind =
        if elim kind as (λ _. Bool) [ none ↦ false | some v ↦ bytes_eq v (codes "mix") ]
        then audio_copies
        else audio_copies ++ codes "output.wav" ∷ []

    go :
        (kind : Option Bytes)
        → audio_may_go kind other ≡ false
        → contains other (copies kind) ≡ false
    go none k = ground (arith, k)
    go (some v) k = elim (Bool-cases (bytes_eq v (codes "mix"))) [
      | inl mix ↦ let k' = rw mix at k in rw mix (ground (arith, k'))
      | inr alone ↦ let k' = rw alone at k in rw alone (ground (arith, k'))
    ]

check_audio-digest :
    (work : Items) (r : TaskRecord)
    → check_audio work r ≡ found tt
    → (digest : Bytes) × (parameter (codes "result_sha256") r.parameters ≡ some digest)
      × (file_digest (codes "result.wav") work ≡ found digest)
unfolding check_audio
check_audio-digest work r h =
    let (_, _, h1) = >>=-eq-found (guard (bytes_eq r.result (codes "work/result.wav"))) _ h in
    let (_, _, h2) = >>=-eq-found (protected_file (codes "source.wav") work) _ h1 in
    let (_, _, h3) = >>=-eq-found (protected_file (codes "result.wav") work) _ h2 in
    let (digest, named, h4) =
      >>=-eq-found (of_option (parameter (codes "result_sha256") r.parameters)) _ h3 in
    let (_, _, h5) = >>=-eq-found (guard (valid_digest digest)) _ h4 in
    let (actual, hashed, h6) = >>=-eq-found (file_digest (codes "result.wav") work) _ h5 in
    let same : actual ≡ digest = (bytes_eq_iff actual digest).0 (guard-eq-found _ h6) in
    (
      digest,
      of_option-eq_found (parameter (codes "result_sha256") r.parameters) named,
      hashed ∙ ap found same,
    )

plan_training-work :
    (runs task : Items) (r : TaskRecord) {work : Items} {names : List Bytes}
    → plan_training runs task r ≡ found (some (work, names))
    → (child_folder (codes "work") task ≡ found work) × (names ≡ training_copies)
unfolding plan_training
plan_training-work runs task r h =
    let (w, opened, h1) = >>=-eq-found (child_folder (codes "work") task) _ h in
    let (_, _, h2) = >>=-eq-found (check_training runs r) _ h1 in
    let same = pair-eq h2 in (opened ∙ ap found (ap (λ p. p.0) same), sym (ap (λ p. p.1) same))

plan_audio-work :
    (task : Items) (r : TaskRecord) {work : Items} {names : List Bytes}
    → plan_audio task r ≡ found (some (work, names))
    → (child_folder (codes "work") task ≡ found work)
      × (names ≡ copies_of r)
      × (check_audio work r ≡ found tt)
unfolding plan_audio
plan_audio-work task r h =
    let (w, opened, h1) = >>=-eq-found (child_folder (codes "work") task) _ h in
    let (_, checked, h2) = >>=-eq-found (check_audio w r) _ h1 in
    let same = pair-eq h2 in
    let work-eq = ap (λ p. p.0) same in
    (
      opened ∙ ap found work-eq,
      sym (ap (λ p. p.1) same),
      ap (λ w. check_audio w r) (sym work-eq) ∙ checked,
    )

plan-Planned :
    (root runs : Items) (r : TaskRecord) (work : Items) (names : List Bytes)
    → plan root runs r ≡ found (some (work, names))
    → Planned root r work names
unfolding plan work_of
plan-Planned root runs r work names h =
    let (_, first, h1) = >>=-eq-found (guard (valid_id r.id && has_succeeded r)) _ h in
    let both = guard-eq-found _ first in
    let good : has_succeeded r ≡ true = ground (arith, both) in
    let (task, there, h2) = >>=-eq-found (child_folder r.id root) _ h1 in
    elim (Bool-cases (full_training r)) [
      | inl e ↦
          let (opened, same) = plan_training-work runs task r (rw e at h2) in
          record {
            opened = rw there opened;
            succeeded = good;
            allowed = λ other k. ap (contains other) same ∙ training-allowed r other e k;
            result = λ f. let no : true ≡ false = sym e ∙ f in cc;
          }
      | inr e ↦ elim (Bool-cases (is_audio_kind r.kind)) [
        | inr f ↦ let h3 = rw (e, f) at h2 in cc
        | inl f ↦
            let (opened, same, checked) = plan_audio-work task r (rw (e, f) at h2) in
            record {
              opened = rw there opened;
              succeeded = good;
              allowed = λ other k. ap (contains other) same ∙ copies-allowed r other e k;
              result = λ g. check_audio-digest work r checked;
            }
      ]
    ]

file_digest-same :
    (name : Bytes) (a b : Items)
    → find name a ≡ find name b
    → file_digest name a ≡ file_digest name b
unfolding file_digest
file_digest-same name a b h = rw h refl

result-stays : (r : TaskRecord) → full_training r ≡ false → may_go r (codes "result.wav") ≡ false
unfolding bytes_eq
result-stays r e = rw e refl

synced_after-found :
    (synced : Bool) (freed : Outcome ℕ) (n : ℕ)
    → synced_after synced freed ≡ found n
    → freed ≡ found n
unfolding synced_after
synced_after-found true (found m) n h = cc
synced_after-found false (found m) n h = cc
synced_after-found synced refused n h = cc
synced_after-found synced spent n h = cc

Planned-Pruned :
    (root : Items) (unlinks : Bytes → Bool) (synced : Bool) (r : TaskRecord) (work : Items)
    (names : List Bytes) (work' : Items) (freed : Outcome ℕ)
    → Planned root r work names
    → (remove_copies unlinks names 0 work).0 ≡ work'
    → synced_after synced (remove_copies unlinks names 0 work).1 ≡ freed
    → Pruned root r work' freed
Planned-Pruned root unlinks synced r work names work' freed h e f =
    let gone = remove_copies-Removed unlinks names 0 work in
    let kept : (other : Bytes) → may_go r other ≡ false → find other work' ≡ find other work =
      λ other k. ap (find other) (sym e) ∙ gone.keeps other (h.allowed other k) in
    record {
      work = work;
      opened = h.opened;
      succeeded = h.succeeded;
      keeps = kept;
      counts = λ n k.
          let a = gone.counts n (synced_after-found synced _ n (f ∙ k)) in
          let b : bytes_below (remove_copies unlinks names 0 work).0 ≡ bytes_below work' =
            ap bytes_below e in
          omega arith;
      result = λ g.
          let (digest, named, hashed) = h.result g in
          (
            digest,
            named,
            file_digest-same (codes "result.wav") work' work
                  (kept (codes "result.wav") (result-stays r g))
                ∙ hashed,
          );
    }

-- A cleanup that touches anything, however it ends, touches only the work directory of a task that
-- succeeded, and of it only names that are of no use: of a training the models that it started from; of an
-- audio task the model, its index and the cover, and the separate voice unless the result is a mix. The
-- bytes it reports are those that are missing, and the result of an audio task is still there, with the
-- digest of its record.
pub prune-Pruned :
    (root runs : Items) (unlinks : Bytes → Bool) (synced : Bool) (r : TaskRecord) (work' : Items)
    (freed : Outcome ℕ)
    → prune_task_copies root runs unlinks synced r ≡ (some work', freed)
    → Pruned root r work' freed
unfolding prune_task_copies
prune-Pruned root runs unlinks synced r work' freed h = go (plan root runs r) refl h
  where
    pruned : Outcome (Option (Items × List Bytes)) → Option Items × Outcome ℕ
    pruned o = elim o [
      | found none ↦ (none, found 0)
      | found (some (work, names)) ↦
          let (w, n) = remove_copies unlinks names 0 work in (some w, synced_after synced n)
      | refused ↦ (none, refused)
      | spent ↦ (none, spent)
    ]

    go :
        (o : Outcome (Option (Items × List Bytes)))
        → plan root runs r ≡ o
        → pruned o ≡ (some work', freed)
        → Pruned root r work' freed
    go (found none) e k = let no : none ≡ some work' = ap (λ p. p.0) k in cc
    go refused e k = let no : none ≡ some work' = ap (λ p. p.0) k in cc
    go spent e k = let no : none ≡ some work' = ap (λ p. p.0) k in cc
    go (found (some (work, names))) e k =
        Planned-Pruned root unlinks synced r work names work' freed
          (plan-Planned root runs r work names e)
          (ap (λ p. elim p.0 [ some w ↦ w | none ↦ work ]) k) (ap (λ p. p.1) k)
