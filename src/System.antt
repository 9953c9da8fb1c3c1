-- ===== src/System.antt =====
-- The answers of system calls, as the models of the files that make them take them.
use resonantia.Prelude.{List, [], ◌∷◌}
use resonantia.Outcome.{Outcome, found, refused, spent}

-- One system call: cut short by a signal, failed, or done.
pub data Attempt (A : Type 0) : Type 0 where
  interrupted : Attempt A
  failed : Attempt A
  returned : A → Attempt A

-- `do … while (result < 0 && errno == EINTR)`; `spent` if the attempts are used up.
unfoldable pub retry : {A : Type 0} → List (Attempt A) → Outcome A
retry [] = spent
retry (interrupted ∷ rest) = retry rest
retry (failed ∷ rest) = refused
retry (returned a ∷ rest) = found a
