-- ===== src/Vfs/Tests.antt =====
-- Runs of the mount table, the namespaces and the realize guard, and their theorems at them.
use pureshade_os.Base.{
  ℕ, suc, ◌<◌, ◌≡◌, refl, ◌≢◌, true, false, none, some, List, [], ◌∷◌, ◌++◌, arith, zero, ap, sym,
  ◌∙◌,
}
use pureshade_os.Base.Result.{Result, ok, err}
use pureshade_os.Base.Names.{Name, same_name, same_name_refl, same_names}
use pureshade_os.Vfs.Paths.{slash, components, split, non_empty, is_prefix, rel_path, top_component}
use pureshade_os.Vfs.Paths.Laws.{AllComponents}
use pureshade_os.Vfs.Store.{
  FsError, InodeMeta, FsBackend, BackendId, BackendStore, get, contains, put_back, insert, without,
  find_entry, remove,
}
use pureshade_os.Vfs.Mount.{
  MountError, Mount, MountTable, any_at, covering_mount, covering_index, covering_from,
  point_length, is_better, left_behind, resolve, unmount, remove_at, validation, asked, check_cover,
  check_point, installed, mount_at, mount, routes_to,
}
use pureshade_os.Vfs.Mount.Covering.{true_ne_false}
use pureshade_os.Vfs.Mount.Routing.{RoutesTo, resolve_longest}
use pureshade_os.Vfs.Mount.Check.{IsDirectory}
use pureshade_os.Vfs.Mount.Changes.{Mounted, IssuedBelow, mount_ok, unmount-mount}
use pureshade_os.Vfs.Realize.{RenameOutcome, RealizeGuard, among, seal, check_mutate, check_rename}
use pureshade_os.Vfs.Realize.Laws.{rename_inside_seals}
use pureshade_os.Vfs.Namespace.{
  Namespaces, Vfs, Errno, any_route, unmount_in, mount_in, kernel_unmount, is_pinned, resolve_in,
  unmount_table, unmounted, free_unrouted, find_ns, with_table,
}
use pureshade_os.Vfs.Namespace.Routes.{RoutesLive}
use pureshade_os.Vfs.Namespace.Unmount.{UnmountOutcome, kernel_unmount_lem}
use pureshade_os.Vfs.Namespace.Live.{mount_in-RoutesLive, kernel_unmount-RoutesLive}

-- The components "st" and "a", and the paths "/st", "/st/a", "/x".
abbrev st : Name
st = b's' ∷ b't' ∷ []

abbrev a_name : Name
a_name = b'a' ∷ []

abbrev st_path : List ℕ
st_path = b'/' ∷ b's' ∷ b't' ∷ []

abbrev st_a_path : List ℕ
st_a_path = b'/' ∷ b's' ∷ b't' ∷ b'/' ∷ b'a' ∷ []

abbrev relative : List ℕ
relative = b's' ∷ b't' ∷ []

-- A backend is a number: one where every path is a directory, or one with nothing in it.
abbrev meta : InodeMeta
meta = record {
  ino = 1;
  size = 0;
  is_dir = true;
  is_symlink = false;
  mode = 0;
  uid = 0;
  gid = 0;
  nlink = 1;
  mtime = 0;
  ctime = 0;
}

abbrev answer : ℕ → Result FsError InodeMeta
answer zero = err FsError.not_found
answer (suc n) = ok meta

instance abbrev counting_backend : FsBackend ℕ
counting_backend = record { stat = λ b path. (b, answer b) }

abbrev root_mount : Mount
root_mount = record { at_point = []; backend_id = 0 }

abbrev st_mount : Mount
st_mount = record { at_point = st ∷ []; backend_id = 1 }

abbrev two_mounts : MountTable
two_mounts = root_mount ∷ st_mount ∷ []

abbrev one_backend : BackendStore ℕ
one_backend = record { backends = (0, 7) ∷ []; next_id = 1 }

-- "/st/a" goes to the mount at "/st" as "/a", though the root covers it too.
resolve_st : resolve two_mounts st_a_path ≡ ok (1, b'/' ∷ b'a' ∷ [])
unfolding resolve components split non_empty covering_mount covering_index covering_from is_better
    point_length is_prefix same_name left_behind rel_path
resolve_st = refl

st_a-AllComponents : AllComponents (st ∷ a_name ∷ [])
st_a-AllComponents = ((λ e. omega arith, (λ e. omega arith, tt)), ((λ e. omega arith, tt), tt))

st_a_components : components st_a_path ≡ some (st ∷ a_name ∷ [])
unfolding components split non_empty
st_a_components = refl

resolve_longest_example :
    (id : BackendId) × (rel : List ℕ) × (resolve two_mounts st_a_path ≡ ok (id, rel))
    × RoutesTo two_mounts (st ∷ a_name ∷ []) id rel
resolve_longest_example =
    resolve_longest two_mounts st_a_path 0 root_mount (st ∷ a_name ∷ []) refl st_a_components

mounted_st : (mount (root_mount ∷ []) st_path 5 one_backend).2 ≡ ok 1
unfolding mount components split non_empty mount_at any_at same_names same_name check_point
    check_cover covering_mount covering_index covering_from is_better point_length is_prefix
    left_behind rel_path asked get find_entry validation installed insert put_back without
mounted_st = refl

one_backend-IssuedBelow : IssuedBelow one_backend
unfolding contains find_entry
one_backend-IssuedBelow j h = ground arith

mount_ok_example :
    let r = mount (root_mount ∷ []) st_path 5 one_backend in
    ((comps : List Name) × (components st_path ≡ some comps)
      × (any_at (root_mount ∷ []) comps ≡ false)
      × IsDirectory (root_mount ∷ []) one_backend comps
      × Mounted (root_mount ∷ []) one_backend comps 5 1 r.0 r.1)
    × ((j : BackendId) → contains one_backend j ≡ true → j < 1)
    × (r.1.next_id ≡ 2)
    × IssuedBelow r.1
mount_ok_example =
    mount_ok (root_mount ∷ []) st_path 5 one_backend 1 one_backend-IssuedBelow (omega arith)
      mounted_st

unmount-mount_example :
    unmount (mount (root_mount ∷ []) st_path 5 one_backend).0 st_path ≡ ok (root_mount ∷ [], 1)
unmount-mount_example = unmount-mount (root_mount ∷ []) st_path 5 one_backend 1 mounted_st

abbrev empty_backend : BackendStore ℕ
empty_backend = record { backends = (0, 0) ∷ []; next_id = 1 }

refused_st : (mount (root_mount ∷ []) st_path 5 empty_backend).2 ≡ err MountError.no_such_path
unfolding mount components split non_empty mount_at any_at same_names same_name check_point
    check_cover covering_mount covering_index covering_from is_better point_length is_prefix
    left_behind rel_path asked get find_entry validation installed insert put_back without
refused_st = refl

-- Two writers, "t1" and "t2", realize "st".
abbrev guard : RealizeGuard
guard = record { sealed = a_name ∷ [] }

abbrev t1 : Name
t1 = b't' ∷ b'1' ∷ []

abbrev t2 : Name
t2 = b't' ∷ b'2' ∷ []

st_ne_t2 : st ≢ t2
unfolding same_name
st_ne_t2 e = absurd (true_ne_false (sym (same_name_refl st) ∙ ap (same_name st) e))

rename_inside_seals_example :
    (check_rename guard (b'/' ∷ t1 ++ st_path) (b'/' ∷ t1) ≡ ok (RenameOutcome.proceed t1))
    × (check_mutate (seal guard t1) (b'/' ∷ t1) ≡ err FsError.read_only)
    × ((rel final : List ℕ)
        → top_component rel ≡ some t1
        → check_rename (seal guard t1) rel final ≡ err FsError.read_only)
unfolding top_component split non_empty among same_name
rename_inside_seals_example =
    rename_inside_seals guard (b'/' ∷ t1 ++ st_path) (b'/' ∷ t1) t1 refl refl refl

-- The root namespace routes to both backends.
abbrev view : Namespaces
view = record { entries = (0, record { table = two_mounts; refcount = 1 }) ∷ []; next_id = 1 }

abbrev both_backends : BackendStore ℕ
both_backends = record { backends = (1, 5) ∷ (0, 7) ∷ []; next_id = 2 }

abbrev running : Vfs ℕ
running = record {
  backends = both_backends;
  namespaces = view;
  root_id = 0;
  guards = (1, record { sealed = [] }) ∷ [];
}

view-RoutesLive : RoutesLive view both_backends
unfolding any_route routes_to contains find_entry
view-RoutesLive id h = ground arith

mount_in-RoutesLive_example :
    RoutesLive
      (mount_in view 0 st_a_path 9 both_backends).0
      (mount_in view 0 st_a_path 9 both_backends).1
mount_in-RoutesLive_example = mount_in-RoutesLive view 0 st_a_path 9 both_backends view-RoutesLive

-- "/st" is unmounted and its backend is gone; "/" is pinned.
unmounted_st :
    ((kernel_unmount running 0 st_path).1 ≡ ok tt)
    × (get (kernel_unmount running 0 st_path).0.backends 1 ≡ none)
    × ((kernel_unmount running 0 (b'/' ∷ [])).1 ≡ err Errno.einval)
unfolding kernel_unmount is_pinned resolve_in resolve components split non_empty covering_mount
    covering_index covering_from is_better point_length is_prefix same_name same_names left_behind
    rel_path unmounted unmount_in unmount_table unmount remove_at free_unrouted find_ns with_table
    any_route routes_to remove without get find_entry
unmounted_st = (refl, refl, refl)

kernel_unmount_lem_example :
    (resolve_in view 0 st_path ≡ ok (0, slash ∷ [])
      → kernel_unmount running 0 st_path ≡ (running, err Errno.einval))
    × UnmountOutcome running 0 st_path (kernel_unmount running 0 st_path)
kernel_unmount_lem_example = kernel_unmount_lem running 0 st_path

kernel_unmount-RoutesLive_example :
    RoutesLive
      (kernel_unmount running 0 st_path).0.namespaces
      (kernel_unmount running 0 st_path).0.backends
kernel_unmount-RoutesLive_example = kernel_unmount-RoutesLive running 0 st_path view-RoutesLive
