-- ===== src/Separation/Laws.antt =====
-- What the list of models holds, and that a default is in it.
use resonantia.Prelude.{
  ◌∙◌, ap, true, false, List, [], ◌∷◌, ◌++◌, Bytes, ◌≡◌, ◌≢◌, ◌⊎◌, Option, none, some, bytes_eq,
  bytes_eq_iff, contains, refl, Bool-cases, Option-cases, inl, inr, arith,
}
use resonantia.Separation.{
  SepModel, Directory, builtins, sep_tasks, key_of, builtin_loop, described, is_taken,
  descriptor_loop, list_both, list_sep_models, default_builtin, first_of_task, default_sep_model,
  has_model, sep_model_available,
}

bytes_eq_self : (s : Bytes) → bytes_eq s s ≡ true
bytes_eq_self s = (bytes_eq_iff s s).1 refl

-- A model that is installed, for a known task.
abbrev pub Installed : Directory → List SepModel → Type 0
Installed dir [] = Unit {0}
Installed dir (m ∷ ms) =
    ((dir.weights_exist m.name ≡ true) × (contains m.task sep_tasks ≡ true)) × Installed dir ms

abbrev pub keys_of : List SepModel → List Bytes
keys_of [] = []
keys_of (m ∷ ms) = key_of m ∷ keys_of ms

abbrev pub NoRepeat : List Bytes → Type 0
NoRepeat [] = Unit {0}
NoRepeat (k ∷ ks) = (contains k ks ≡ false) × NoRepeat ks

pub record IsListed (dir : Directory) (out : List SepModel) : Type 0 where
  pub installed : Installed dir out
  pub distinct : NoRepeat (keys_of out)

Installed-append :
    (dir : Directory) (out : List SepModel) (m : SepModel)
    → Installed dir out
    → dir.weights_exist m.name ≡ true
    → contains m.task sep_tasks ≡ true
    → Installed dir (out ++ m ∷ [])
Installed-append dir [] m h w t = ((w, t), tt)
Installed-append dir (q ∷ out) m h w t = (h.0, Installed-append dir out m h.1 w t)

keys_of-append :
    (out : List SepModel) (m : SepModel) → keys_of (out ++ m ∷ []) ≡ keys_of out ++ key_of m ∷ []
keys_of-append [] m = refl
keys_of-append (q ∷ out) m = ap (◌∷◌ (key_of q)) (keys_of-append out m)

contains-append :
    (x k : Bytes) (ks : List Bytes)
    → contains x ks ≡ false
    → bytes_eq x k ≡ false
    → contains x (ks ++ k ∷ []) ≡ false
unfolding contains
contains-append x k [] h e = rw e refl
contains-append x k (y ∷ ks) h e = ground (arith, contains-append x k ks (ground arith) e)

bytes_eq_sym : (x y : Bytes) → bytes_eq x y ≡ false → bytes_eq y x ≡ false
bytes_eq_sym x y h = ground (arith, bytes_eq_iff x y, bytes_eq_iff y x)

NoRepeat-append :
    (ks : List Bytes) (k : Bytes) → NoRepeat ks → contains k ks ≡ false → NoRepeat (ks ++ k ∷ [])
unfolding contains
NoRepeat-append [] k h c = (refl, tt)
NoRepeat-append (x ∷ ks) k h c = (
  contains-append x k ks h.0 (bytes_eq_sym k x (ground arith)),
  NoRepeat-append ks k h.1 (ground arith),
)

-- One more model in the list and its key in the set.
IsListed-append :
    (dir : Directory) (out : List SepModel) (seen : List Bytes) (m : SepModel)
    → seen ≡ keys_of out
    → IsListed dir out
    → dir.weights_exist m.name ≡ true
    → contains m.task sep_tasks ≡ true
    → contains (key_of m) seen ≡ false
    → (seen ++ key_of m ∷ [] ≡ keys_of (out ++ m ∷ [])) × IsListed dir (out ++ m ∷ [])
IsListed-append dir out seen m s h w t c =
    let c' : contains (key_of m) (keys_of out) ≡ false = rw (← s) c in
    (
      rw (s, keys_of-append out m) refl,
      record {
        installed = Installed-append dir out m h.installed w t;
        distinct =
            rw (keys_of-append out m) (NoRepeat-append (keys_of out) (key_of m) h.distinct c');
      },
    )

is_taken-parts :
    (dir : Directory) (seen : List Bytes) (m : SepModel)
    → is_taken dir seen m ≡ true
    → (dir.weights_exist m.name ≡ true)
      × (contains m.task sep_tasks ≡ true)
      × (contains (key_of m) seen ≡ false)
unfolding is_taken
is_taken-parts dir seen m h = (ground arith, ground arith, ground arith)

descriptor_loop-IsListed :
    (dir : Directory) (ds : List (Bytes × Option Bytes)) (out : List SepModel) (seen : List Bytes)
    → seen ≡ keys_of out
    → IsListed dir out
    → IsListed dir (descriptor_loop dir ds out seen).0
unfolding descriptor_loop
descriptor_loop-IsListed dir [] out seen s h = h
descriptor_loop-IsListed dir ((name, none) ∷ ds) out seen s h =
    descriptor_loop-IsListed dir ds out seen s h
descriptor_loop-IsListed dir ((name, some text) ∷ ds) out seen s h =
    elim (Bool-cases (is_taken dir seen (described name text))) [
      | inl e ↦
          rw (e, descriptor_loop)
            (let m = described name text in
              let (weights, known, fresh) = is_taken-parts dir seen m e in
              let (s', h') = IsListed-append dir out seen m s h weights known fresh in
              descriptor_loop-IsListed dir ds (out ++ m ∷ []) (seen ++ key_of m ∷ []) s' h')
      | inr e ↦ rw (e, descriptor_loop) (descriptor_loop-IsListed dir ds out seen s h)
    ]

-- None of the models has its key in the set.
abbrev Fresh : List Bytes → List SepModel → Type 0
Fresh seen [] = Unit {0}
Fresh seen (b ∷ bs) = (contains (key_of b) seen ≡ false) × Fresh seen bs

-- Known tasks, and no key twice.
abbrev Apart : List SepModel → Type 0
Apart [] = Unit {0}
Apart (b ∷ bs) = (contains b.task sep_tasks ≡ true) × Fresh (key_of b ∷ []) bs × Apart bs

Fresh-append :
    (seen : List Bytes) (k : Bytes) (bs : List SepModel)
    → Fresh seen bs
    → Fresh (k ∷ []) bs
    → Fresh (seen ++ k ∷ []) bs
unfolding contains
Fresh-append seen k [] h g = tt
Fresh-append seen k (b ∷ bs) h g =
    (contains-append (key_of b) k seen h.0 (ground (arith, g.0)), Fresh-append seen k bs h.1 g.1)

builtin_loop-IsListed :
    (dir : Directory) (bs out : List SepModel) (seen : List Bytes)
    → Apart bs
    → Fresh seen bs
    → seen ≡ keys_of out
    → IsListed dir out
    → ((builtin_loop dir bs out seen).1 ≡ keys_of (builtin_loop dir bs out seen).0)
      × IsListed dir (builtin_loop dir bs out seen).0
unfolding builtin_loop
builtin_loop-IsListed dir [] out seen a f s h = (s, h)
builtin_loop-IsListed dir (b ∷ bs) out seen a f s h = elim (Bool-cases (dir.weights_exist b.name)) [
  | inl e ↦
      rw (e, builtin_loop)
        (let (s', h') = IsListed-append dir out seen b s h e a.0 f.0 in
          builtin_loop-IsListed dir bs (out ++ b ∷ []) (seen ++ key_of b ∷ []) a.2
            (Fresh-append seen (key_of b) bs f.1 a.1) s' h')
  | inr e ↦ rw (e, builtin_loop) (builtin_loop-IsListed dir bs out seen a.2 f.1 s h)
]

builtins-Apart : Apart builtins × Fresh [] builtins
unfolding contains bytes_eq
builtins-Apart = (
  (
    refl,
    (refl, (refl, (refl, (refl, tt)))),
    (
      refl,
      (refl, (refl, (refl, tt))),
      (refl, (refl, (refl, tt)), (refl, (refl, tt), (refl, tt, tt))),
    ),
  ),
  (refl, (refl, (refl, (refl, (refl, tt))))),
)

-- Every listed model is installed and of a known task, and no task and name are listed twice.
pub list_sep_models-IsListed : (dir : Directory) → IsListed dir (list_sep_models dir)
unfolding list_sep_models list_both
list_sep_models-IsListed dir =
    let (apart, fresh) = builtins-Apart in
    let (s, h) =
      builtin_loop-IsListed dir builtins [] [] apart fresh refl
        (record { installed = tt; distinct = tt }) in
    let first = builtin_loop dir builtins [] [] in
    descriptor_loop-IsListed dir dir.descriptors first.0 first.1 s h

-- What is listed stays listed.
has_model-append :
    (out : List SepModel) (m : SepModel) (task name : Bytes)
    → has_model out task name ≡ true
    → has_model (out ++ m ∷ []) task name ≡ true
unfolding has_model
has_model-append [] m task name h = cc
has_model-append (q ∷ out) m task name h = ground (arith, has_model-append out m task name)

has_model_self :
    (out : List SepModel) (m : SepModel) → has_model (out ++ m ∷ []) m.task m.name ≡ true
unfolding has_model
has_model_self [] m = ground (arith, bytes_eq_self m.task, bytes_eq_self m.name)
has_model_self (q ∷ out) m = ground (arith, has_model_self out m)

descriptor_loop-has_model :
    (dir : Directory) (ds : List (Bytes × Option Bytes)) (out : List SepModel) (seen : List Bytes)
    (task name : Bytes)
    → has_model out task name ≡ true
    → has_model (descriptor_loop dir ds out seen).0 task name ≡ true
unfolding descriptor_loop
descriptor_loop-has_model dir [] out seen task name h = h
descriptor_loop-has_model dir ((stem, none) ∷ ds) out seen task name h =
    descriptor_loop-has_model dir ds out seen task name h
descriptor_loop-has_model dir ((stem, some text) ∷ ds) out seen task name h =
    let m = described stem text in
    elim (Bool-cases (is_taken dir seen m)) [
      | inl e ↦
          rw (e, descriptor_loop)
            (descriptor_loop-has_model dir ds (out ++ m ∷ []) (seen ++ key_of m ∷ []) task name
              (has_model-append out m task name h))
      | inr e ↦ rw (e, descriptor_loop) (descriptor_loop-has_model dir ds out seen task name h)
    ]

builtin_loop-has_model :
    (dir : Directory) (bs out : List SepModel) (seen : List Bytes) (task name : Bytes)
    → (has_model out task name ≡ true) ⊎ (default_builtin dir bs task ≡ some name)
    → has_model (builtin_loop dir bs out seen).0 task name ≡ true
unfolding builtin_loop default_builtin
builtin_loop-has_model dir [] out seen task name (inl h) = h
builtin_loop-has_model dir [] out seen task name (inr e) = cc
builtin_loop-has_model dir (b ∷ bs) out seen task name h =
    elim (Bool-cases (dir.weights_exist b.name)) [
      | inr w ↦
          rw (w, builtin_loop) (builtin_loop-has_model dir bs out seen task name (skipped w h))
      | inl w ↦
          rw (w, builtin_loop)
            (builtin_loop-has_model dir bs (out ++ b ∷ []) (seen ++ key_of b ∷ []) task name
              (taken w h))
    ]
  where
    skipped :
        dir.weights_exist b.name ≡ false
        → (has_model out task name ≡ true) ⊎ (default_builtin dir (b ∷ bs) task ≡ some name)
        → (has_model out task name ≡ true) ⊎ (default_builtin dir bs task ≡ some name)
    skipped w (inl k) = inl k
    skipped w (inr e) = inr (ground (arith, w, e))

    taken :
        dir.weights_exist b.name ≡ true
        → (has_model out task name ≡ true) ⊎ (default_builtin dir (b ∷ bs) task ≡ some name)
        → (has_model (out ++ b ∷ []) task name ≡ true) ⊎ (default_builtin dir bs task ≡ some name)
    taken w (inl k) = inl (has_model-append out b task name k)
    taken w (inr e) = elim (Bool-cases (bytes_eq task b.task)) [
      | inl same ↦
          let same_task : task ≡ b.task = (bytes_eq_iff task b.task).0 same in
          let same_name : b.name ≡ name = ground (arith, w, e, same) in
          inl (rw (same_task, ← same_name) (has_model_self out b))
      | inr other ↦ inr (ground (arith, w, e, other))
    ]

first_of_task-has_model :
    (ms : List SepModel) (task : Bytes)
    → (first_of_task ms task ≡ []) ⊎ (has_model ms task (first_of_task ms task) ≡ true)
unfolding first_of_task has_model
first_of_task-has_model [] task = inl refl
first_of_task-has_model (m ∷ ms) task = elim (Bool-cases (bytes_eq m.task task)) [
  | inl e ↦ inr (rw (e, first_of_task) (ground (arith, bytes_eq_self m.name)))
  | inr e ↦ rw (e, first_of_task) (first_of_task-has_model ms task)
]

-- Where `default_sep_model` answers with a name, that model is available for the task.
pub default_sep_model-sep_model_available :
    (dir : Directory) (task : Bytes)
    → default_sep_model dir task ≢ []
    → sep_model_available dir task (default_sep_model dir task) ≡ true
unfolding default_sep_model sep_model_available list_sep_models list_both
default_sep_model-sep_model_available dir task h =
    elim (Option-cases (default_builtin dir builtins task)) [
      | inr (name, e) ↦
          let first = builtin_loop dir builtins [] [] in
          let there = builtin_loop-has_model dir builtins [] [] task name (inr e) in
          rw (e, default_sep_model)
            (descriptor_loop-has_model dir dir.descriptors first.0 first.1 task name there)
      | inl e ↦ elim (first_of_task-has_model (list_sep_models dir) task) [
        | inr there ↦ rw (e, default_sep_model) there
        | inl nothing ↦
            let same : default_sep_model dir task ≡ first_of_task (list_sep_models dir) task =
              rw (e, default_sep_model) refl in
            absurd (h (same ∙ nothing))
      ]
    ]
