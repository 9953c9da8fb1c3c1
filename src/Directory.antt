-- ===== src/Directory.antt =====
-- A directory as the task store and the block checkpoints see it: what stands under each name.
use resonantia.Prelude.{
  List, [], ◌∷◌, Bytes, bytes_eq, bytes_eq_iff, ◌≡◌, true, false, refl, if◌then◌else◌, Bool-cases,
  inl, inr,
}

-- What stands under a name: nothing, a regular file with one link, or anything else.
pub data Node : Type 0 where
  vacant : Node
  file : Bytes → Node
  foreign : Node

abbrev pub Store : Type 0
Store = List (Bytes × Node)

unfoldable pub node_of : Bytes → Store → Node
node_of id [] = vacant
node_of id ((name, node) ∷ store) =
    let rest = node_of id store in if bytes_eq id name then node else rest

-- What `rename` does to a name, and with `vacant` what `unlink` does.
unfoldable pub put : Bytes → Node → Store → Store
put id new [] = (id, new) ∷ []
put id new ((name, node) ∷ store) =
    let rest = put id new store in
    if bytes_eq id name then (name, new) ∷ store else (name, node) ∷ rest

pub bytes_eq_self : (s : Bytes) → bytes_eq s s ≡ true
bytes_eq_self s = (bytes_eq_iff s s).1 refl

pub node_of-put_self :
    (id : Bytes) (new : Node) (store : Store) → node_of id (put id new store) ≡ new
unfolding node_of put
node_of-put_self id new [] = rw (bytes_eq_self id) refl
node_of-put_self id new ((name, node) ∷ store) = elim (Bool-cases (bytes_eq id name)) [
  | inl e ↦ rw e (rw e refl)
  | inr e ↦ rw e (rw e (node_of-put_self id new store))
]

pub node_of-put_ne :
    (id other : Bytes) (new : Node) (store : Store)
    → bytes_eq other id ≡ false
    → node_of other (put id new store) ≡ node_of other store
unfolding node_of put
node_of-put_ne id other new [] h = rw h refl
node_of-put_ne id other new ((name, node) ∷ store) h = elim (Bool-cases (bytes_eq id name)) [
  | inl e ↦
      let same : id ≡ name = (bytes_eq_iff id name).0 e in
      let off : bytes_eq other name ≡ false = rw (← same) h in rw e (rw off refl)
  | inr e ↦ rw e (rw (node_of-put_ne id other new store h) refl)
]
