-- ===== src/Separation.antt =====
-- src/separation/sep_registry.cpp: which separation models are installed.
pub mod Laws
mod Tests
use resonantia.Prelude.{
  ℕ, Bool, true, false, ◌&&◌, ◌||◌, not, List, [], ◌∷◌, ◌++◌, Bytes, codes, ◌==◌, if◌then◌else◌,
  Option, none, some, length, bytes_eq, contains, split_byte, split_text,
}

pub record SepModel : Type 0 where
  pub name : Bytes
  pub label : Bytes
  pub task : Bytes

-- The directory: which weights are in it, and its `.json` files in the order of their paths, each by its
-- stem with its text, if it can be opened.
pub record Directory : Type 0 where
  pub weights_exist : Bytes → Bool
  pub descriptors : List (Bytes × Option Bytes)

-- The labels in UTF-8.
abbrev pub builtins : List SepModel
builtins =
    record {
      task = codes "separate";
      name = codes "vocal_roformer";
      label =
          0xe4
          ∷ 0xba
          ∷ 0xba
          ∷ 0xe5
          ∷ 0xa3
          ∷ 0xb0
          ∷ 0xe5
          ∷ 0x88
          ∷ 0x86
          ∷ 0xe7
          ∷ 0xa6
          ∷ 0xbb
          ∷ 0x20
          ∷ 0xc2
          ∷ 0xb7
          ∷ codes " MelBand-RoFormer";
    }
    ∷ record {
      task = codes "deharmony";
      name = codes "karaoke_roformer";
      label =
          0xe5
          ∷ 0x8e
          ∷ 0xbb
          ∷ 0xe5
          ∷ 0x92
          ∷ 0x8c
          ∷ 0xe5
          ∷ 0xa3
          ∷ 0xb0
          ∷ 0x20
          ∷ 0xc2
          ∷ 0xb7
          ∷ codes " Karaoke RoFormer";
    }
    ∷ record {
      task = codes "dereverb";
      name = codes "dereverb_roformer";
      label =
          0xe5
          ∷ 0x8e
          ∷ 0xbb
          ∷ 0xe6
          ∷ 0xb7
          ∷ 0xb7
          ∷ 0xe5
          ∷ 0x93
          ∷ 0x8d
          ∷ 0x20
          ∷ 0xc2
          ∷ 0xb7
          ∷ codes " MelBand-RoFormer";
    }
    ∷ record {
      task = codes "deecho";
      name = codes "deecho_roformer";
      label =
          0xe5
          ∷ 0x8e
          ∷ 0xbb
          ∷ 0xe5
          ∷ 0x9b
          ∷ 0x9e
          ∷ 0xe5
          ∷ 0xa3
          ∷ 0xb0
          ∷ 0x20
          ∷ 0xc2
          ∷ 0xb7
          ∷ codes " MelBand-RoFormer";
    }
    ∷ record {
      task = codes "denoise";
      name = codes "denoise_roformer";
      label =
          0xe5 ∷ 0x8e ∷ 0xbb ∷ 0xe5 ∷ 0x99 ∷ 0xaa ∷ 0x20 ∷ 0xc2 ∷ 0xb7 ∷ codes " MelBand-RoFormer";
    }
    ∷ []

abbrev pub sep_tasks : List Bytes
sep_tasks =
    codes "separate" ∷ codes "deharmony" ∷ codes "dereverb" ∷ codes "deecho" ∷ codes "denoise" ∷ []

-- What stands behind the first byte `k`, and in front of it.
abbrev pub behind : Option (Bytes × Bytes) → (Bytes → Bytes) → Bytes
behind none go = []
behind (some (before, rest)) go = go rest

abbrev pub in_front : Option (Bytes × Bytes) → Bytes
in_front none = []
in_front (some (before, rest)) = before

unfoldable pub json_string_field : Bytes → Bytes → Bytes
json_string_field text key = behind (split_text (b'"' ∷ (key ++ b'"' ∷ [])) text) (λ r1.
    behind (split_byte b':' r1)
      (λ r2. behind (split_byte b'"' r2) (λ r3. in_front (split_byte b'"' r3))))

abbrev pub key_of : SepModel → Bytes
key_of m = m.task ++ b'|' ∷ m.name

-- The list so far and the keys that it has.
unfoldable pub builtin_loop :
    Directory → List SepModel → List SepModel → List Bytes → List SepModel × List Bytes
builtin_loop dir [] out seen = (out, seen)
builtin_loop dir (b ∷ bs) out seen =
    let taken = builtin_loop dir bs (out ++ b ∷ []) (seen ++ key_of b ∷ []) in
    let skipped = builtin_loop dir bs out seen in
    if dir.weights_exist b.name then taken else skipped

-- The model that a descriptor names.
unfoldable pub described : Bytes → Bytes → SepModel
described name text =
    let label = json_string_field text (codes "label") in
    record {
      name = name;
      label = if length label == 0 then name else label;
      task = json_string_field text (codes "task");
    }

-- The tests of a descriptor in front of `push_back`.
unfoldable pub is_taken : Directory → List Bytes → SepModel → Bool
is_taken dir seen m =
    not (length m.task == 0)
    && contains m.task sep_tasks
    && dir.weights_exist m.name
    && not (contains (key_of m) seen)

unfoldable pub descriptor_loop :
    Directory
    → List (Bytes × Option Bytes)
    → List SepModel
    → List Bytes
    → List SepModel × List Bytes
descriptor_loop dir [] out seen = (out, seen)
descriptor_loop dir ((name, none) ∷ ds) out seen = descriptor_loop dir ds out seen
descriptor_loop dir ((name, some text) ∷ ds) out seen =
    let m = described name text in
    let taken = descriptor_loop dir ds (out ++ m ∷ []) (seen ++ key_of m ∷ []) in
    let skipped = descriptor_loop dir ds out seen in if is_taken dir seen m then taken else skipped

unfoldable pub list_both : Directory → List SepModel × List Bytes
list_both dir =
    let (out, seen) = builtin_loop dir builtins [] [] in
    descriptor_loop dir dir.descriptors out seen

unfoldable pub list_sep_models : Directory → List SepModel
list_sep_models dir = (list_both dir).0

-- The first loop of `default_sep_model`.
unfoldable pub default_builtin : Directory → List SepModel → Bytes → Option Bytes
default_builtin dir [] task = none
default_builtin dir (b ∷ bs) task =
    let rest = default_builtin dir bs task in
    if bytes_eq task b.task && dir.weights_exist b.name then some b.name else rest

-- The second loop.
unfoldable pub first_of_task : List SepModel → Bytes → Bytes
first_of_task [] task = []
first_of_task (m ∷ ms) task =
    let rest = first_of_task ms task in if bytes_eq m.task task then m.name else rest

unfoldable pub default_sep_model : Directory → Bytes → Bytes
default_sep_model dir task = elim (default_builtin dir builtins task) [
  | some name ↦ name
  | none ↦ first_of_task (list_sep_models dir) task
]

unfoldable pub has_model : List SepModel → Bytes → Bytes → Bool
has_model [] task name = false
has_model (m ∷ ms) task name =
    bytes_eq m.task task && bytes_eq m.name name || has_model ms task name

unfoldable pub sep_model_available : Directory → Bytes → Bytes → Bool
sep_model_available dir task name = has_model (list_sep_models dir) task name
