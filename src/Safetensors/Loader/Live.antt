-- ===== src/Safetensors/Loader/Live.antt =====
-- Both loads return, if the system calls do.
use resonantia.System.{retry}
use Prim.Native.Nat.{min}
use resonantia.Prelude.{
  length-append, Bool-cases, Option, Bool, not, leb, refl, false, true, inr, inl, some, none, suc,
  zero, [], ◌++◌, ◌+◌, ◌-◌, ◌==◌, ◌≢◌, ◌≤◌, ◌<◌, ◌≡◌, ℕ, Bytes, length, arith,
}
use resonantia.Outcome.{Outcome, found, refused, spent, ◌>>=◌, guard, of_option, >>=-eq-spent}
use resonantia.Safetensors.Header.{parse_header}
use resonantia.Safetensors.Header.Total.{parse_header-ne-spent}
use resonantia.Safetensors.Loader.{
  Loader, Kernel, Status, reset, stage_mapped, stage_snapshot, copy_loop, finish, load,
  load_snapshot, checked_regular_file_size, same_file_status, snapshot_read_chunk,
}

-- No call is interrupted for ever.
pub record Answers (k : Kernel) : Type 0 where
  pub opens : retry k.opens ≢ spent
  pub stats : retry k.stats ≢ spent
  pub restats : retry k.restats ≢ spent
  pub pread : (o n : ℕ) → retry (k.pread o n) ≢ spent

>>=-ne-spent {ℓ κ} :
    {A : Type ℓ} {B : Type κ} (m : Outcome A) (f : A → Outcome B)
    → m ≢ spent
    → ((a : A) → f a ≢ spent)
    → (m >>= f) ≢ spent
>>=-ne-spent (found a) f h k e = k a e
>>=-ne-spent refused f h k e = cc
>>=-ne-spent spent f h k e = h refl

guard-ne-spent : (b : Bool) → guard b ≢ spent
guard-ne-spent true e = cc
guard-ne-spent false e = cc

of_option-ne-spent {ℓ} : {A : Type ℓ} (o : Option A) → of_option o ≢ spent
of_option-ne-spent none e = cc
of_option-ne-spent (some a) e = cc

-- Each read brings at least one byte, so as many rounds suffice as there are bytes.
copy_loop-ne-spent :
    (k : Kernel) (fuel staged_size : ℕ) (copied : Bytes)
    → Answers k
    → staged_size ≤ length copied + fuel
    → copy_loop k.pread fuel staged_size copied ≢ spent
unfolding copy_loop
copy_loop-ne-spent k zero staged_size copied a h e = ground arith
copy_loop-ne-spent k (suc fuel) staged_size copied a h e =
    elim (Bool-cases (leb staged_size (length copied))) [
      | inl done ↦ let x = rw done at e in cc
      | inr more ↦
          elim (>>=-eq-spent
            (retry
              (k.pread (length copied) (min snapshot_read_chunk (staged_size - length copied))))
            _ (rw more at e)) [
              | inl x ↦ a.pread _ _ x
              | inr (chunk, _, y) ↦ elim (>>=-eq-spent (guard (not (length chunk == 0))) _ y) [
                | inl x ↦ guard-ne-spent _ x
                | inr (_, g, z) ↦
                    copy_loop-ne-spent k fuel staged_size (copied ++ chunk) a
                      (omega (arith, length-append copied chunk, nonempty (length chunk) g)) z
              ]
            ]
    ]
  where
    nonempty : (n : ℕ) → guard (not (n == 0)) ≡ found tt → 0 < n
    nonempty n g = ground arith

size-ne-spent : (s : Status) → checked_regular_file_size s ≢ spent
unfolding checked_regular_file_size
size-ne-spent s e = ground arith

finish-ne-none : (l : Loader) (o : Outcome Loader) → o ≢ spent → finish l o ≢ none
unfolding finish
finish-ne-none l (found m) h e = cc
finish-ne-none l refused h e = cc
finish-ne-none l spent h e = h refl

-- Both ways to load return a result, on every file and every answer of the kernel.
pub load-returns :
    (k : Kernel) (max_bytes : ℕ) (l : Loader)
    → Answers k
    → (load k l ≢ none) × (load_snapshot k max_bytes l ≢ none)
unfolding load load_snapshot stage_mapped stage_snapshot
load-returns k max_bytes l a = (
  finish-ne-none (reset l) _ (
      >>=-ne-spent (retry k.opens) _ a.opens λ _. >>=-ne-spent (retry k.stats) _ a.stats λ st.
        >>=-ne-spent (checked_regular_file_size st) _ (size-ne-spent st) λ n.
          >>=-ne-spent (of_option (k.map_file n)) _ (of_option-ne-spent (k.map_file n)) λ mapped.
            >>=-ne-spent (parse_header mapped) _ (parse_header-ne-spent mapped) λ parsed. λ e. cc),
  finish-ne-none (reset l) _ (
      >>=-ne-spent (retry k.opens) _ a.opens λ _. >>=-ne-spent (retry k.stats) _ a.stats λ before.
        >>=-ne-spent (checked_regular_file_size before) _ (size-ne-spent before) λ n.
          >>=-ne-spent (guard (leb n max_bytes)) _ (guard-ne-spent (leb n max_bytes)) λ _.
            >>=-ne-spent (guard k.map_anonymous) _ (guard-ne-spent k.map_anonymous) λ _.
              >>=-ne-spent (copy_loop k.pread n n []) _
                (copy_loop-ne-spent k n n [] a (omega arith))
                λ copied. >>=-ne-spent (retry k.restats) _ a.restats λ after.
                  >>=-ne-spent (guard (same_file_status before after)) _
                    (guard-ne-spent (same_file_status before after))
                    λ _. >>=-ne-spent (guard k.protect) _ (guard-ne-spent k.protect) λ _.
                      >>=-ne-spent (parse_header copied) _ (parse_header-ne-spent copied)
                        λ parsed. λ e. cc),
)
