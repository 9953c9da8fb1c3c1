-- ===== src/Checkpoint/Names.antt =====
-- The file names of a checkpoint directory are told apart.
use resonantia.Checkpoint.{block_name, pending_name}
use resonantia.Prelude.{
  Bool-cases, Bytes, [], ap, arith, bytes_eq, bytes_eq_iff, false, inl, inr, length, length-append,
  refl, sym, take, take-prefix, ℕ, ◌++◌, ◌∙◌, ◌∷◌, ◌≡◌,
}

-- The last byte of a name, `d` where it has none.
abbrev pub last : ℕ → Bytes → ℕ
last d [] = d
last d (c ∷ s) = last c s

pub last-append : (d : ℕ) (a : Bytes) (c : ℕ) (s : Bytes) → last d (a ++ c ∷ s) ≡ last c s
last-append d [] c s = refl
last-append d (b ∷ a) c s = last-append b a c s

append_cancel : (a b s : Bytes) → a ++ s ≡ b ++ s → a ≡ b
append_cancel a b s h =
    let size : length a ≡ length b =
      omega (arith, length-append a s, length-append b s, ap length h) in
    sym (take-prefix a s (length b) size) ∙ ap (take (length b)) h ∙ take-prefix b s (length b) refl

pub bytes_eq-ne : (a b : Bytes) → ¬ (a ≡ b) → bytes_eq a b ≡ false
bytes_eq-ne a b h = elim (Bool-cases (bytes_eq a b)) [
  | inl e ↦ absurd (h ((bytes_eq_iff a b).0 e))
  | inr e ↦ e
]

pub ne-bytes_eq : (a b : Bytes) → bytes_eq a b ≡ false → ¬ (a ≡ b)
ne-bytes_eq a b h e = let t = (bytes_eq_iff a b).1 e in cc

-- Names with the same ending are as different as their beginnings.
pub suffixed-ne : (a b s : Bytes) → bytes_eq a b ≡ false → bytes_eq (a ++ s) (b ++ s) ≡ false
suffixed-ne a b s h =
    bytes_eq-ne (a ++ s) (b ++ s)
      (λ (e : a ++ s ≡ b ++ s). ne-bytes_eq a b h (append_cancel a b s e))

-- No block is a staging file.
pub block_name-ne-pending_name :
    (key name : Bytes) → bytes_eq (block_name key) (pending_name name) ≡ false
block_name-ne-pending_name key name =
    bytes_eq-ne (block_name key) (pending_name name) (λ (e : block_name key ≡ pending_name name).
      let ends : b'k' ≡ b'g' =
        sym (last-append 0 key _ _) ∙ ap (last 0) e ∙ last-append 0 name _ _ in
      absurd (omega arith))

pub pending_name-ne-block_name :
    (name key : Bytes) → bytes_eq (pending_name name) (block_name key) ≡ false
pending_name-ne-block_name name key =
    bytes_eq-ne (pending_name name) (block_name key) (λ (e : pending_name name ≡ block_name key).
      ne-bytes_eq (block_name key) (pending_name name) (block_name-ne-pending_name key name)
        (sym e))
