-- ===== src/Vfs/Store.antt =====
-- The store of live backends of fs/vfs-core/src/mount.rs, with the errors, the metadata and the
-- backend interface of fs/vfs-core/src/backend.rs.
pub mod Laws
use pureshade_os.Base.{
  ℕ, ◌+◌, ◌%◌, ◌^◌, Bool, true, false, Option, none, some, List, [], ◌∷◌, ◌==◌, if◌then◌else◌,
}
use pureshade_os.Base.Result.{Result}

pub data FsError : Type 0 where
  not_found exists_already not_dir is_dir not_empty no_space invalid read_only device : FsError

pub record InodeMeta : Type 0 where
  pub ino : ℕ
  pub size : ℕ
  pub is_dir : Bool
  pub is_symlink : Bool
  pub mode : ℕ
  pub uid : ℕ
  pub gid : ℕ
  pub nlink : ℕ
  pub mtime : ℕ
  pub ctime : ℕ

-- What the mount table calls of the trait `FsBackend`; `stat` takes `&mut self`.
pub record FsBackend (B : Type 0) : Type 0 where
  pub stat : B → List ℕ → B × Result FsError InodeMeta

abbrev pub BackendId : Type 0
BackendId = ℕ

-- The map from ids to backends is the list of its entries; one id has at most one entry.
pub record BackendStore (B : Type 0) : Type 0 where
  pub backends : List (BackendId × B)
  pub next_id : BackendId

module _ {B : Type 0} where
  unfoldable pub find_entry : List (BackendId × B) → BackendId → Option B
  find_entry [] id = none
  find_entry ((i, b) ∷ es) id = let rest = find_entry es id in if i == id then some b else rest

  unfoldable pub without : List (BackendId × B) → BackendId → List (BackendId × B)
  without [] id = []
  without ((i, b) ∷ es) id = let rest = without es id in if i == id then rest else (i, b) ∷ rest

  unfoldable pub new : BackendStore B
  new = record { backends = []; next_id = 0 }

  unfoldable pub insert : BackendStore B → B → BackendStore B × BackendId
  unfolding without
  insert s b = (
    record {
      backends = (s.next_id, b) ∷ without s.backends s.next_id;
      next_id = (s.next_id + 1) % 2 ^ 64;
    },
    s.next_id,
  )

  unfoldable pub get : BackendStore B → BackendId → Option B
  unfolding find_entry
  get s id = find_entry s.backends id

  -- What the borrow of `get` leaves behind once one operation has changed the backend.
  unfoldable pub put_back : BackendStore B → BackendId → B → BackendStore B
  unfolding without
  put_back s id b = record { backends = (id, b) ∷ without s.backends id; next_id = s.next_id }

  unfoldable pub remove : BackendStore B → BackendId → BackendStore B × Option B
  unfolding find_entry without
  remove s id =
      (record { backends = without s.backends id; next_id = s.next_id }, find_entry s.backends id)

  is_some : Option B → Bool
  is_some none = false
  is_some (some b) = true

  unfoldable pub contains : BackendStore B → BackendId → Bool
  unfolding is_some find_entry
  contains s id = is_some (find_entry s.backends id)
