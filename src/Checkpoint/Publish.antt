-- ===== src/Checkpoint/Publish.antt =====
-- src/io/block_checkpoint.cpp: what `publish` leaves under the names of the directory.
use resonantia.Checkpoint.{pending_name}
use resonantia.Checkpoint.Session.{Disk, publish, publish_as, sound, unsynced, unwritten}
use resonantia.Directory.{Node, Store, file, foreign, node_of, node_of-put_ne, put, vacant}
use resonantia.Outcome.{Outcome, found, refused}
use resonantia.Prelude.{Bytes, bytes_eq, false, refl, ◌∙◌, ◌≡◌}

-- A publication on a sound disk.
abbrev pub after_publish : Bytes → Bytes → Store → Store
after_publish name image store =
    put name (file image)
      (put (pending_name name) vacant (put (pending_name name) (file image) store))

pub publish-sound :
    (name image : Bytes) (store : Store)
    → node_of (pending_name name) store ≡ vacant
    → publish sound name image store ≡ (after_publish name image store, found tt)
unfolding publish publish_as
publish-sound name image store h = rw (h, publish) refl

-- Another name, whatever the disk does.
pub publish-node_of :
    (disk : Disk) (name image other : Bytes) (store : Store)
    → bytes_eq other name ≡ false
    → bytes_eq other (pending_name name) ≡ false
    → node_of other (publish disk name image store).0 ≡ node_of other store
unfolding publish
publish-node_of disk name image other store h k = go (node_of (pending_name name) store) disk
  where
    -- Staged and renamed, or staged and removed.
    staged :
        (node : Node)
        → node_of other (put (pending_name name) node (put (pending_name name) (file image) store))
          ≡ node_of other store
    staged node =
        node_of-put_ne (pending_name name) other node (put (pending_name name) (file image) store) k
        ∙ node_of-put_ne (pending_name name) other (file image) store k

    renamed : node_of other (after_publish name image store) ≡ node_of other store
    renamed =
        node_of-put_ne name other (file image)
          (put (pending_name name) vacant (put (pending_name name) (file image) store)) h
        ∙ staged vacant

    go :
        (node : Node) (disk : Disk)
        → node_of other
            (elim node as (λ _. Store × Outcome (Unit {0})) [
              | vacant ↦ publish_as disk name image (put (pending_name name) (file image) store)
              | file _ ↦ (store, refused)
              | foreign ↦ (store, refused)
            ]).0
          ≡ node_of other store
    go vacant sound = unfold publish_as in renamed
    go vacant unwritten = unfold publish_as in staged vacant
    go vacant unsynced = unfold publish_as in renamed
    go (file _) disk = refl
    go foreign disk = refl
