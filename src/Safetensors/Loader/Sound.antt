-- ===== src/Safetensors/Loader/Sound.antt =====
-- What a loader holds after any of its operations, and which bytes its accessors lead to.
use resonantia.System.{retry}
use Prim.Native.Nat.{min}
use resonantia.Prelude.{
  take-append-take, drop, take, ◌∙◌, length-append, bytes_eq_iff, bytes_eq, not, Bool-cases, ap,
  leb, List, sym, Bool, suc, zero, ◌∷◌, ◌++◌, ◌+◌, ◌-◌, ◌==◌, ◌≤◌, ◌<◌, refl, false, true, inr, inl,
  some, none, [], ◌⊎◌, ◌≡◌, ℕ, Bytes, length, arith,
}
use resonantia.Outcome.{
  of_option-eq_found, guard-eq-found, Outcome, found, refused, spent, guard, of_option,
  >>=-eq-found,
}
use resonantia.Safetensors.Tensor.{Tensor}
use resonantia.Safetensors.Header.{parse_header}
use resonantia.Safetensors.Header.Sound.{
  IsSound, AllSound, IsChecked, data_start_of, parse_header-IsChecked,
}
use resonantia.Safetensors.Loader.{
  Loader, Kernel, Status, reset, stage_mapped, stage_snapshot, copy_loop, finish, load,
  load_snapshot, move_from, find, get_tensor, data_at, checked_regular_file_size, same_file_status,
  source_identity_from, snapshot_read_chunk,
}

-- Nothing is loaded.
abbrev pub IsEmpty : Loader → Type 0
IsEmpty l = (l.mapping ≡ none) × (l.tensors ≡ []) × (l.source_identity_valid ≡ false)

-- A mapped file with the index that its header describes.
pub record IsLoaded (l : Loader) (bytes : Bytes) : Type 0 where
  pub mapped : l.mapping ≡ some bytes
  pub sized : l.data_size ≡ length bytes
  pub checked : IsChecked bytes l.tensors

-- What a load returns: a loaded file and `true`, or `false` and a loader with nothing in it.
abbrev pub Loads : Bool × Loader → Type 0
Loads (ok, l) = ((ok ≡ true) × (bytes : Bytes) × IsLoaded l bytes) ⊎ ((ok ≡ false) × IsEmpty l)

checked_size : (s : Status) {n : ℕ} → checked_regular_file_size s ≡ found n → n ≡ s.size
unfolding checked_regular_file_size
checked_size s h = ground arith

finish-Loads :
    (l : Loader) (o : Outcome Loader) {r : Bool × Loader}
    → ((l' : Loader) → o ≡ found l' → (bytes : Bytes) × IsLoaded l' bytes)
    → finish (reset l) o ≡ some r
    → Loads r
unfolding finish reset
finish-Loads l (found l') {r} h e =
    let same : (true, l') ≡ r = cc e in
    rw (← same) (let (bytes, v) = h l' refl in inl (refl, bytes, v))
finish-Loads l refused {r} h e =
    let same : (false, reset l) ≡ r = cc e in rw (← same) (inr (refl, (refl, refl, refl)))
finish-Loads l spent h e = cc

-- `mmap` shows as many bytes as it is asked for.
abbrev pub MapsWhole : Kernel → Type 0
MapsWhole k = (n : ℕ) (b : Bytes) → k.map_file n ≡ some b → length b ≡ n

stage_mapped-IsLoaded :
    (k : Kernel) (l : Loader) {l' : Loader}
    → MapsWhole k
    → stage_mapped k l ≡ found l'
    → (bytes : Bytes) × IsLoaded l' bytes
unfolding stage_mapped
stage_mapped-IsLoaded k l {l'} maps h =
    let (_, _, h₁) = >>=-eq-found (retry k.opens) _ h in
    let (st, _, h₂) = >>=-eq-found (retry k.stats) _ h₁ in
    let (staged_size, _, h₃) = >>=-eq-found (checked_regular_file_size st) _ h₂ in
    let (mapped, e₄, h₄) = >>=-eq-found (of_option (k.map_file staged_size)) _ h₃ in
    let (parsed, e₅, h₅) = >>=-eq-found (parse_header mapped) _ h₄ in
    let same : record l { tensors = parsed; data_size = staged_size; mapping = some mapped } ≡ l' =
      cc h₅ in
    rw (← same) (
      mapped,
      record {
        mapped = refl;
        sized = sym (maps staged_size mapped (of_option-eq_found _ e₄));
        checked = parse_header-IsChecked mapped e₅;
      },
    )

-- `load` returns `true` with a checked file, or `false` with nothing loaded, whatever it held before.
pub load-Loads :
    (k : Kernel) (l : Loader) {r : Bool × Loader} → MapsWhole k → load k l ≡ some r → Loads r
unfolding load
load-Loads k l maps e =
    finish-Loads l (stage_mapped k (reset l)) (λ l' h. stage_mapped-IsLoaded k (reset l) maps h) e

-- `pread` returns no more than it is asked for, from the content of the file at the offset.
abbrev pub ReadsFrom : Kernel → Bytes → Type 0
ReadsFrom k content =
    (o n : ℕ) (b : Bytes)
    → retry (k.pread o n) ≡ found b
    → (length b ≤ n) × (b ≡ take (length b) (drop o content))

extended :
    (copied chunk content : Bytes)
    → copied ≡ take (length copied) content
    → chunk ≡ take (length chunk) (drop (length copied) content)
    → copied ++ chunk ≡ take (length (copied ++ chunk)) content
extended copied chunk content a b =
    ap (λ s. s ++ chunk) a
    ∙ ap (λ s. take (length copied) content ++ s) b
    ∙ take-append-take (length copied) (length chunk) content
    ∙ ap (λ n. take n content) (sym (length-append copied chunk))

-- The copy is the content of the file, up to its size.
copy_loop-content :
    (k : Kernel) (content : Bytes) (fuel staged_size : ℕ) (copied : Bytes) {b : Bytes}
    → ReadsFrom k content
    → length copied ≤ staged_size
    → copied ≡ take (length copied) content
    → copy_loop k.pread fuel staged_size copied ≡ found b
    → (length b ≡ staged_size) × (b ≡ take (length b) content)
unfolding copy_loop
copy_loop-content k content zero staged_size copied {b} reads le part h =
    elim (Bool-cases (leb staged_size (length copied))) [
      | inl e ↦ let same : copied ≡ b = cc (rw e at h) in rw (← same) (ground arith, part)
      | inr e ↦ let h' = rw e at h in cc
    ]
copy_loop-content k content (suc fuel) staged_size copied {b} reads le part h =
    elim (Bool-cases (leb staged_size (length copied))) [
      | inl e ↦ let same : copied ≡ b = cc (rw e at h) in rw (← same) (ground arith, part)
      | inr e ↦
          let wanted = min snapshot_read_chunk (staged_size - length copied) in
          let (chunk, e₁, h₁) =
            >>=-eq-found (retry (k.pread (length copied) wanted)) _ (rw e at h) in
          let (_, _, h₂) = >>=-eq-found (guard (not (length chunk == 0))) _ h₁ in
          let (few, piece) = reads (length copied) wanted chunk e₁ in
          copy_loop-content k content fuel staged_size (copied ++ chunk) reads
            (omega (arith, length-append copied chunk, few, leb_false _ _ e))
            (extended copied chunk content part piece) h₂
    ]
  where
    leb_false : (m n : ℕ) → leb m n ≡ false → n < m
    leb_false m n h = ground arith

-- A snapshot: the content of the file up to its size, and the file's identity, which was the same before the
-- copy and after it.
abbrev pub Snapshot : Kernel → Bytes → ℕ → Loader → Type 0
Snapshot k content max_bytes l =
    (before after : Status) × (retry k.stats ≡ found before)
    × (retry k.restats ≡ found after)
    × (same_file_status before after ≡ true)
    × (l.source_identity ≡ source_identity_from after)
    × (l.source_identity_valid ≡ true)
    × (l.mapping ≡ some (take before.size content))
    × (l.data_size ≡ before.size)
    × (before.size ≤ max_bytes)

stage_snapshot-IsLoaded :
    (k : Kernel) (content : Bytes) (max_bytes : ℕ) (l : Loader) {l' : Loader}
    → ReadsFrom k content
    → stage_snapshot k max_bytes l ≡ found l'
    → ((bytes : Bytes) × IsLoaded l' bytes) × Snapshot k content max_bytes l'
unfolding stage_snapshot
stage_snapshot-IsLoaded k content max_bytes l {l'} reads h =
    let (_, _, h₁) = >>=-eq-found (retry k.opens) _ h in
    let (before, e₂, h₂) = >>=-eq-found (retry k.stats) _ h₁ in
    let (staged_size, e₃, h₃) = >>=-eq-found (checked_regular_file_size before) _ h₂ in
    let (_, e₄, h₄) = >>=-eq-found (guard (leb staged_size max_bytes)) _ h₃ in
    let (_, _, h₅) = >>=-eq-found (guard k.map_anonymous) _ h₄ in
    let (copied, e₆, h₆) = >>=-eq-found (copy_loop k.pread staged_size staged_size []) _ h₅ in
    let (after, e₇, h₇) = >>=-eq-found (retry k.restats) _ h₆ in
    let (_, e₈, h₈) = >>=-eq-found (guard (same_file_status before after)) _ h₇ in
    let (_, _, h₉) = >>=-eq-found (guard k.protect) _ h₈ in
    let (parsed, e₁₀, h₁₀) = >>=-eq-found (parse_header copied) _ h₉ in
    let same : record l {
      tensors = parsed;
      source_identity = source_identity_from after;
      source_identity_valid = true;
      data_size = staged_size;
      mapping = some copied;
    }
        ≡ l' =
      cc h₁₀ in
    let size_is = checked_size before e₃ in
    let (whole, part) =
      copy_loop-content k content staged_size staged_size [] reads (omega arith) refl e₆ in
    let held : some copied ≡ some (take before.size content) =
      ap some (part ∙ ap (λ n. take n content) (whole ∙ size_is)) in
    rw (← same) (
      (
        copied,
        record { mapped = refl; sized = sym whole; checked = parse_header-IsChecked copied e₁₀ },
      ),
      (
        before,
        after,
        e₂,
        e₇,
        guard-eq-found _ e₈,
        refl,
        refl,
        held,
        size_is,
        ground (arith, e₄, size_is),
      ),
    )

-- If every `pread` answers from one content of the file, at the offset and no more than asked, then
-- `load_snapshot` returns `true` with this content, up to the size of the file, checked; the file is within
-- the bound and its status was the same before and after the copy. Or it returns `false` with nothing loaded.
pub load_snapshot-Loads :
    (k : Kernel) (content : Bytes) (max_bytes : ℕ) (l : Loader) {ok : Bool} {l' : Loader}
    → ReadsFrom k content
    → load_snapshot k max_bytes l ≡ some (ok, l')
    → Loads (ok, l') × (ok ≡ true → Snapshot k content max_bytes l')
unfolding load_snapshot
load_snapshot-Loads k content max_bytes l {ok} {l'} reads e = (
  finish-Loads l (stage_snapshot k max_bytes (reset l))
      (λ l' h. (stage_snapshot-IsLoaded k content max_bytes (reset l) reads h).0) e,
  λ t.
      snap (stage_snapshot k max_bytes (reset l))
        (λ h. (stage_snapshot-IsLoaded k content max_bytes (reset l) reads h).1) e t,
)
  where
    snap :
        (o : Outcome Loader)
        → (o ≡ found l' → Snapshot k content max_bytes l')
        → finish (reset l) o ≡ some (ok, l')
        → ok ≡ true
        → Snapshot k content max_bytes l'
    snap (found m) f e t = let same : m ≡ l' = unfold finish in cc e in f (ap found same)
    snap refused f e t = unfold finish in cc
    snap spent f e t = unfold finish in cc

-- What was moved to holds the file, and what was moved from holds nothing.
move_from-IsLoaded :
    (target other : Loader) (bytes : Bytes)
    → IsLoaded other bytes
    → IsLoaded (move_from target other).0 bytes × IsEmpty (move_from target other).1
unfolding move_from
move_from-IsLoaded target other bytes v =
    (record { mapped = v.mapped; sized = v.sized; checked = v.checked }, (refl, refl, refl))

find-IsSound :
    (data_start size : ℕ) (name : Bytes) (ts : List (Bytes × Tensor)) {t : Tensor}
    → AllSound data_start size ts
    → find name ts ≡ some t
    → IsSound data_start size name t
unfolding find
find-IsSound data_start size name [] s h = cc
find-IsSound data_start size name ((n, u) ∷ ts) {t} s h = elim (Bool-cases (bytes_eq name n)) [
  | inl e ↦
      let same : u ≡ t = cc (rw e at h) in
      let named : n ≡ name = sym ((bytes_eq_iff name n).0 e) in rw (← same, ← named) s.0
  | inr e ↦ find-IsSound data_start size name ts s.1 (rw e at h)
]

-- Every tensor of a loaded file can be read: `data` gives its offset, and all its bytes, four for
-- each element, lie behind the header and within the mapping.
pub data_at-IsLoaded :
    (l : Loader) (bytes name : Bytes) (t : Tensor)
    → IsLoaded l bytes
    → get_tensor l name ≡ some t
    → (data_at l name ≡ some t.data_offset)
      × (data_start_of bytes ≤ t.data_offset)
      × (t.data_offset + t.data_nbytes ≤ length bytes)
unfolding data_at get_tensor
data_at-IsLoaded l bytes name t v h =
    let start = data_start_of bytes in
    let s = find-IsSound start (length bytes - start) name l.tensors v.checked.sound h in
    ground (arith, h, v.mapped, v.sized, v.checked.header_fits, s)
