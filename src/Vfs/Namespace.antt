-- ===== src/Vfs/Namespace.antt =====
-- The mount namespaces of fs/vfs-core/src/namespace.rs, and `unmount` of kernel/src/vfs.rs, which
-- takes a backend away with its last route.
pub mod Routes
pub mod Live
pub mod Taken
pub mod Unmount
use pureshade_os.Base.{
  ℕ, ◌+◌, Bool, true, false, Option, none, some, List, [], ◌∷◌, ◌==◌, ◌&&◌, ◌||◌, if◌then◌else◌,
}
use pureshade_os.Base.Result.{Result, ok, err, ok_or, ◌>>=◌}
use pureshade_os.Base.Names.{Name, same_name}
use pureshade_os.Vfs.Store.{FsError, FsBackend, BackendId, BackendStore}
use pureshade_os.Vfs.Store
use pureshade_os.Vfs.Paths.{slash}
use pureshade_os.Vfs.Mount.{MountError, MountTable}
use pureshade_os.Vfs.Mount
use pureshade_os.Vfs.Realize.{RealizeGuard}

abbrev pub NsId : Type 0
NsId = ℕ

pub record Namespace : Type 0 where
  pub table : MountTable
  pub refcount : ℕ

-- The map from ids to namespaces is the list of its entries; one id has at most one entry.
pub record Namespaces : Type 0 where
  pub entries : List (NsId × Namespace)
  pub next_id : NsId

abbrev pub root_ns : NsId
root_ns = 0

abbrev pub new_namespaces : Namespaces
new_namespaces = record {
  entries = (root_ns, record { table = []; refcount = 1 }) ∷ [];
  next_id = root_ns + 1;
}

unfoldable pub find_ns : List (NsId × Namespace) → NsId → Option MountTable
find_ns [] ns = none
find_ns ((i, n) ∷ es) ns = let rest = find_ns es ns in if i == ns then some n.table else rest

-- The table of a namespace, changed through `get_mut`.
unfoldable pub with_table : List (NsId × Namespace) → NsId → MountTable → List (NsId × Namespace)
with_table [] ns t = []
with_table ((i, n) ∷ es) ns t =
    let rest = with_table es ns t in
    if i == ns then (i, record { table = t; refcount = n.refcount }) ∷ es else (i, n) ∷ rest

abbrev pub put_table : Namespaces → NsId → MountTable → Namespaces
put_table v ns t = record { entries = with_table v.entries ns t; next_id = v.next_id }

unfoldable pub resolve_in : Namespaces → NsId → List ℕ → Result MountError (BackendId × List ℕ)
resolve_in v ns path = do
  t ← ok_or (find_ns v.entries ns) MountError.not_mounted
  Mount.resolve t path

unfoldable pub unmount_table :
    Namespaces → NsId → List ℕ → MountTable → Result MountError (Namespaces × BackendId)
unmount_table v ns path t = do (t', id) ← Mount.unmount t path; ok (put_table v ns t', id)

unfoldable pub unmount_in : Namespaces → NsId → List ℕ → Result MountError (Namespaces × BackendId)
unmount_in v ns path = do
  t ← ok_or (find_ns v.entries ns) MountError.not_mounted
  unmount_table v ns path t

unfoldable pub any_route : List (NsId × Namespace) → BackendId → Bool
any_route [] id = false
any_route ((i, n) ∷ es) id = Mount.routes_to n.table id || any_route es id

abbrev pub any_routes_to : Namespaces → BackendId → Bool
any_routes_to v id = any_route v.entries id

module _ {B : Type 0} ⦃fs : FsBackend B⦄ where
  unfoldable pub mount_table :
      Namespaces
      → NsId
      → List ℕ
      → B
      → BackendStore B
      → Option MountTable
      → Namespaces × BackendStore B × Result MountError BackendId
  mount_table v ns path b s none = (v, s, err MountError.not_mounted)
  mount_table v ns path b s (some t) =
      let (t', s', r) = Mount.mount t path b s in (put_table v ns t', s', r)

  unfoldable pub mount_in :
      Namespaces
      → NsId
      → List ℕ
      → B
      → BackendStore B
      → Namespaces × BackendStore B × Result MountError BackendId
  mount_in v ns path b s = mount_table v ns path b s (find_ns v.entries ns)

pub data Errno : Type 0 where
  einval enoent enotdir enomnt eexist enospc emounted erofs eisdir enotempty eio : Errno

abbrev pub errno_fs : FsError → Errno
errno_fs FsError.not_found = Errno.enoent
errno_fs FsError.exists_already = Errno.eexist
errno_fs FsError.not_dir = Errno.enotdir
errno_fs FsError.is_dir = Errno.eisdir
errno_fs FsError.no_space = Errno.enospc
errno_fs FsError.invalid = Errno.einval
errno_fs FsError.not_empty = Errno.enotempty
errno_fs FsError.read_only = Errno.erofs
errno_fs FsError.device = Errno.eio

abbrev pub errno_mount : MountError → Errno
errno_mount MountError.invalid = Errno.einval
errno_mount MountError.already_mounted = Errno.emounted
errno_mount MountError.no_such_path = Errno.enoent
errno_mount MountError.not_dir = Errno.enotdir
errno_mount MountError.not_mounted = Errno.enomnt
errno_mount (MountError.backend e) = errno_fs e

-- The fields of the kernel's state that `unmount` reads or changes.
pub record Vfs (B : Type 0) : Type 0 where
  pub backends : BackendStore B
  pub namespaces : Namespaces
  pub root_id : BackendId
  pub guards : List (BackendId × RealizeGuard)

unfoldable pub is_pinned : BackendId → Result MountError (BackendId × List ℕ) → Bool
is_pinned root (err e) = false
is_pinned root (ok (id, rel)) = id == root && same_name rel (slash ∷ [])

module _ {B : Type 0} where
  unfoldable pub free_unrouted : Vfs B → Namespaces → BackendId → Vfs B
  free_unrouted v n id =
      if any_routes_to n id
      then record { backends = v.backends; namespaces = n; root_id = v.root_id; guards = v.guards }
      else record {
        backends = (Store.remove v.backends id).0;
        namespaces = n;
        root_id = v.root_id;
        guards = Store.without v.guards id;
      }

  unfoldable pub unmounted :
      Vfs B → Result MountError (Namespaces × BackendId) → Vfs B × Result Errno (Unit {0})
  unmounted v (err e) = (v, err (errno_mount e))
  unmounted v (ok (n, id)) = (free_unrouted v n id, ok tt)

  -- `unmount` of kernel/src/vfs.rs once the file system is up; `ns` is `current_ns()`.
  unfoldable pub kernel_unmount : Vfs B → NsId → List ℕ → Vfs B × Result Errno (Unit {0})
  kernel_unmount v ns path =
      if is_pinned v.root_id (resolve_in v.namespaces ns path)
      then (v, err Errno.einval)
      else unmounted v (unmount_in v.namespaces ns path)
