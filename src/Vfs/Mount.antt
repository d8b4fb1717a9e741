-- ===== src/Vfs/Mount.antt =====
-- The mount table of fs/vfs-core/src/mount.rs.
pub mod Covering
pub mod Routing
pub mod Check
pub mod Changes
use pureshade_os.Base.{
  ℕ, zero, suc, Bool, true, false, Option, none, some, List, [], ◌∷◌, ◌++◌, ◌==◌, ◌&&◌, ◌||◌, ltb,
  length, drop, get_elem?, if◌then◌else◌,
}
use pureshade_os.Base.Result.{Result, ok, err, ensure, ok_or, ◌>>=◌, ◌>>◌}
use pureshade_os.Base.Names.{Name, same_names}
use pureshade_os.Vfs.Paths.{components, is_prefix, rel_path}
use pureshade_os.Vfs.Store.{FsError, InodeMeta, FsBackend, BackendId, BackendStore}
use pureshade_os.Vfs.Store

pub data MountError : Type 0 where
  invalid already_mounted no_such_path not_dir not_mounted : MountError
  backend : FsError → MountError

pub record Mount : Type 0 where
  pub at_point : List Name
  pub backend_id : BackendId

abbrev pub MountTable : Type 0
MountTable = List Mount

-- The length of the mount point at an index; `best` is always in range.
unfoldable pub point_length : MountTable → ℕ → ℕ
point_length [] i = 0
point_length (m ∷ ms) zero = length m.at_point
point_length (m ∷ ms) (suc i) = point_length ms i

unfoldable pub is_better : MountTable → Mount → Option ℕ → Bool
unfolding point_length
is_better mounts m none = true
is_better mounts m (some b) = ltb (point_length mounts b) (length m.at_point)

-- The loop over `self.mounts.iter().enumerate()`, at its `i`-th mount.
unfoldable pub covering_from : MountTable → List Name → ℕ → List Mount → Option ℕ → Option ℕ
covering_from mounts comps i [] best = best
covering_from mounts comps i (m ∷ ms) best =
    covering_from mounts comps (suc i) ms
      (if is_prefix m.at_point comps && is_better mounts m best then some i else best)

unfoldable pub covering_index : MountTable → List Name → Option ℕ
covering_index mounts comps = covering_from mounts comps 0 mounts none

unfoldable pub any_at : MountTable → List Name → Bool
any_at [] comps = false
any_at (m ∷ ms) comps = same_names m.at_point comps || any_at ms comps

abbrev pub at_index : MountTable → Option ℕ → Option Mount
at_index mounts none = none
at_index mounts (some i) = get_elem? mounts i

-- The index that `covering_index` gives is in range: `self.mounts[idx]` does not panic.
unfoldable pub covering_mount : MountTable → List Name → Option Mount
covering_mount mounts comps = at_index mounts (covering_index mounts comps)

unfoldable pub left_behind : Mount → List Name → List ℕ
left_behind m comps = rel_path (drop (length m.at_point) comps)

unfoldable pub resolve : MountTable → List ℕ → Result MountError (BackendId × List ℕ)
resolve mounts path = do
  comps ← ok_or (components path) MountError.invalid
  m ← ok_or (covering_mount mounts comps) MountError.not_mounted
  ok (m.backend_id, left_behind m comps)

unfoldable pub routes_to : MountTable → BackendId → Bool
routes_to [] id = false
routes_to (m ∷ ms) id = m.backend_id == id || routes_to ms id

unfoldable pub is_mounted_at : MountTable → List ℕ → Bool
is_mounted_at mounts path = elim (components path) [
  | none ↦ false
  | some comps ↦ any_at mounts comps
]

-- `position` and `remove`.
unfoldable pub remove_at : MountTable → List Name → Result MountError (MountTable × BackendId)
remove_at [] comps = err MountError.not_mounted
remove_at (m ∷ ms) comps =
    let rest = remove_at ms comps in
    if same_names m.at_point comps
    then ok (ms, m.backend_id)
    else (do (ms', id) ← rest; ok (m ∷ ms', id))

unfoldable pub unmount : MountTable → List ℕ → Result MountError (MountTable × BackendId)
unmount mounts path = do comps ← ok_or (components path) MountError.invalid; remove_at mounts comps

unfoldable pub validation : Result FsError InodeMeta → Result MountError (Unit {0})
validation (ok meta) = ensure meta.is_dir MountError.not_dir
validation (err FsError.not_found) = err MountError.no_such_path
validation (err FsError.not_dir) = err MountError.no_such_path
validation (err e) = err (MountError.backend e)

module _ {B : Type 0} ⦃fs : FsBackend B⦄ where
  -- The covering backend is asked whether the mount point is a directory, and keeps what that did
  -- to it whatever it answers.
  unfoldable pub asked :
      BackendStore B → Mount → List Name → Option B → BackendStore B × Result MountError (Unit {0})
  asked s m comps none = (s, err MountError.no_such_path)
  asked s m comps (some b) =
      let answer = fs.stat b (left_behind m comps) in
      (Store.put_back s m.backend_id answer.0, validation answer.1)

  unfoldable pub check_cover :
      BackendStore B → List Name → Option Mount → BackendStore B × Result MountError (Unit {0})
  check_cover s comps none = (s, err MountError.no_such_path)
  check_cover s comps (some m) = asked s m comps (Store.get s m.backend_id)

  unfoldable pub check_point :
      MountTable → BackendStore B → List Name → BackendStore B × Result MountError (Unit {0})
  check_point mounts s [] = (s, ok tt)
  check_point mounts s (c ∷ cs) = check_cover s (c ∷ cs) (covering_mount mounts (c ∷ cs))

  unfoldable pub installed :
      MountTable
      → List Name
      → B
      → BackendStore B × Result MountError (Unit {0})
      → MountTable × BackendStore B × Result MountError BackendId
  installed mounts comps b (s, err e) = (mounts, s, err e)
  installed mounts comps b (s, ok u) =
      let (s', id) = Store.insert s b in
      (mounts ++ record { at_point = comps; backend_id = id } ∷ [], s', ok id)

  unfoldable pub mount_at :
      MountTable
      → List Name
      → B
      → BackendStore B
      → MountTable × BackendStore B × Result MountError BackendId
  mount_at mounts comps b s =
      if any_at mounts comps
      then (mounts, s, err MountError.already_mounted)
      else installed mounts comps b (check_point mounts s comps)

  unfoldable pub mount :
      MountTable
      → List ℕ
      → B
      → BackendStore B
      → MountTable × BackendStore B × Result MountError BackendId
  mount mounts path b s = elim (components path) [
    | none ↦ (mounts, s, err MountError.invalid)
    | some comps ↦ mount_at mounts comps b s
  ]
