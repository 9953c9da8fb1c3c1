-- ===== src/Separation/Tests.antt =====
-- The theorems on src/separation/sep_registry.cpp at a small directory.
use resonantia.Prelude.{
  true, some, none, [], ◌∷◌, ◌≡◌, codes, Bytes, contains, bytes_eq, strip_prefix, split_byte,
  split_text,
}
use resonantia.Separation.{
  SepModel, Directory, json_string_field, builtin_loop, described, is_taken, descriptor_loop,
  list_both, list_sep_models, default_builtin, first_of_task, default_sep_model,
  sep_model_available,
}
use resonantia.Separation.Laws.{
  IsListed, list_sep_models-IsListed, default_sep_model-sep_model_available,
}

abbrev directory : Directory
unfolding contains bytes_eq
directory = record {
  weights_exist = λ name. contains name (codes "denoise_roformer" ∷ codes "mine" ∷ []);
  descriptors =
      (codes "mine", some (codes "{\"task\": \"separate\"}"))
      ∷ (codes "other", some (codes "{\"task\": \"separate\"}"))
      ∷ (codes "unreadable", none)
      ∷ [];
}

abbrev mine : SepModel
mine = record { name = codes "mine"; label = codes "mine"; task = codes "separate" }

run_default : Directory → Bytes → Bytes
unfolding default_sep_model default_builtin first_of_task list_sep_models list_both builtin_loop
    descriptor_loop is_taken described json_string_field split_text split_byte strip_prefix contains
    bytes_eq directory
run_default = default_sep_model

list_sep_models-IsListed_example : IsListed directory (list_sep_models directory)
list_sep_models-IsListed_example = list_sep_models-IsListed directory

default_sep_model-sep_model_available_example :
    sep_model_available directory (codes "separate") (codes "mine") ≡ true
unfolding run_default
default_sep_model-sep_model_available_example =
    default_sep_model-sep_model_available directory (codes "separate") (λ e. cc)
