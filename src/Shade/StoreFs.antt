-- ===== src/Shade/StoreFs.antt =====
-- The file system that the store tools work on (pkg/shade-store/src/backend.rs), an interface.
use pureshade_os.Base.{ℕ, Bool, true, false, List}
use pureshade_os.Base.Names.{Name}
use pureshade_os.Base.Result.{Result, ok, err}
use pureshade_os.Shade.Names.{FilePath}

pub data FsError : Type 0 where
  not_found : FsError
  exists : FsError
  not_dir : FsError
  is_dir : FsError
  not_empty : FsError
  no_space : FsError
  invalid : FsError
  read_only : FsError
  device : FsError
  unsupported : FsError

pub data NodeKind : Type 0 where
  file : NodeKind
  dir : NodeKind
  symlink : NodeKind
  other_node : NodeKind

pub record NodeMeta : Type 0 where
  pub kind : NodeKind
  pub exec : Bool
  pub len : ℕ

-- The reads of a backend, which leave it as it is, and the two calls of the collector that change it.
pub record StoreFs (F : Type 0) : Type 0 where
  pub metadata : F → FilePath → Result FsError NodeMeta
  pub read_file : F → FilePath → Result FsError (List ℕ)
  pub read_dir : F → FilePath → Result FsError (List (Name × NodeKind))
  pub read_link : F → FilePath → Result FsError FilePath
  pub unlink : F → FilePath → F × Result FsError (Unit {0})
  pub remove_store_path : F → FilePath → F × Result FsError (Unit {0})

is_ok : {A : Type 0} → Result FsError A → Bool
is_ok (ok a) = true
is_ok (err e) = false

-- The default of the method `exists`.
unfoldable pub node_exists : {F : Type 0} → StoreFs F → F → FilePath → Bool
unfolding is_ok
node_exists backend fs path = is_ok (backend.metadata fs path)
