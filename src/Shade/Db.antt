-- ===== src/Shade/Db.antt =====
-- The store database's roots, mark and sweep (pkg/shade-store-db/src/lib.rs), under the lock.
pub mod Closure
pub mod Enough
pub mod Gc
use pureshade_os.Base.{
  ℕ, zero, suc, ◌+◌, Bool, true, false, not, Option, none, some, List, [], ◌∷◌, ◌++◌, length,
  if◌then◌else◌, ltb, ◌==◌, ◌&&◌, ◌||◌,
}
use pureshade_os.Base.Names.{Name, same_name}
use pureshade_os.Base.Result.{Result, ok, err, ◌>>=◌}
use pureshade_os.Shade.Names.{
  FilePath, NameSet, contains, store_entry_digest, digest_from_store_path, join, lines, trim,
  scan_bytes,
}
use pureshade_os.Shade.StoreFs.{FsError, NodeKind, NodeMeta, StoreFs, node_exists}

-- The name of the failed operation is left out.
pub data DbError : Type 0 where
  fs_error : FilePath → FsError → DbError
  busy : ℕ → DbError

pub record StoreDb : Type 0 where
  pub store_root : FilePath
  pub db_root : FilePath
  pub roots_root : FilePath
  pub gen_root : FilePath
  pub log_root : FilePath

-- "refs", "valid" and "locks".
unfoldable pub refs_dir : StoreDb → FilePath
refs_dir db = join db.db_root (114 ∷ 101 ∷ 102 ∷ 115 ∷ [])

unfoldable pub valid_dir : StoreDb → FilePath
valid_dir db = join db.db_root (118 ∷ 97 ∷ 108 ∷ 105 ∷ 100 ∷ [])

unfoldable pub locks_dir : StoreDb → FilePath
locks_dir db = join db.db_root (108 ∷ 111 ∷ 99 ∷ 107 ∷ 115 ∷ [])

abbrev pub scan_prefix : StoreDb → List ℕ
scan_prefix db = db.store_root ++ (b'/' ∷ [])

pub record GcOptions : Type 0 where
  pub dry_run : Bool
  pub force : Bool

pub record GcReport : Type 0 where
  pub collected : List Name
  pub kept : ℕ
  pub freed_bytes : ℕ
  pub pruned_roots : ℕ
  pub dry_run : Bool

-- What ends a run early: an error of the database, or too little fuel for the model.
pub data Stop : Type 0 where
  failed : DbError → Stop
  out_of_fuel : Stop

unfoldable pub non_empty_lines : List Name → List Name
non_empty_lines [] = []
non_empty_lines ([] ∷ ls) = non_empty_lines ls
non_empty_lines ((c ∷ l) ∷ ls) = (c ∷ l) ∷ non_empty_lines ls

unfoldable pub refs_found : FilePath → Result FsError (List ℕ) → Result DbError (List Name)
refs_found path (ok bytes) = ok (non_empty_lines (lines bytes))
refs_found path (err FsError.not_found) = ok []
refs_found path (err e) = err (fs_error path e)

-- The references of a digest that was popped which are not marked yet.
unfoldable pub unmarked : NameSet → List Name → List Name
unmarked marked [] = []
unmarked marked (r ∷ rs) =
    let rest = unmarked marked rs in if contains marked r then rest else r ∷ rest

unfoldable pub stopped {ℓ} : {A : Type ℓ} → Result DbError A → Result Stop A
stopped (ok a) = ok a
stopped (err e) = err (failed e)

-- The loop of `mark_closure` over any lookup of references, with fuel for each pop.
unfoldable pub close :
    (Name → Result DbError (List Name)) → ℕ → NameSet → List Name → Result Stop NameSet
close refs fuel marked [] = ok marked
close refs zero marked (d ∷ queue) = err out_of_fuel
close refs (suc fuel) marked (d ∷ queue) =
    if contains marked d
    then close refs fuel marked queue
    else (stopped (refs d) >>= λ rs.
        close refs fuel (d ∷ marked) (queue ++ unmarked (d ∷ marked) rs))

-- `insert` of the digest of a path, where it has one.
unfoldable pub insert_digest : Option Name → NameSet → NameSet
insert_digest none set = set
insert_digest (some d) set = d ∷ set

unfoldable pub insert_lines : List Name → NameSet → NameSet
insert_lines [] set = set
insert_lines (l ∷ ls) set =
    if same_name (trim l) [] then insert_lines ls set else insert_lines ls (trim l ∷ set)

unfoldable pub starts_with_slash : FilePath → Bool
starts_with_slash [] = false
starts_with_slash (c ∷ cs) = c == b'/'

unfoldable pub lock_digests : Result FsError (List ℕ) → NameSet → NameSet
lock_digests (ok bytes) roots = insert_lines (lines bytes) roots
lock_digests (err e) roots = roots

-- The entries of a directory that may fail to be read, which counts as empty.
unfoldable pub entries_or_none : Result FsError (List (Name × NodeKind)) → List (Name × NodeKind)
entries_or_none (ok entries) = entries
entries_or_none (err e) = []

unfoldable pub at_path : {A : Type 0} → FilePath → Result FsError A → Result Stop A
at_path path (ok a) = ok a
at_path path (err e) = err (failed (fs_error path e))

unfoldable pub scan_entries :
    (FilePath → NameSet → Result Stop NameSet)
    → FilePath
    → List (Name × NodeKind)
    → NameSet
    → Result Stop NameSet
scan_entries scan path [] set = ok set
scan_entries scan path ((name, kind) ∷ entries) set =
    scan (join path name) set >>= λ set. scan_entries scan path entries set

-- The file system, the roots so far, and the number of pruned ones.
abbrev pub Roots : Type 0 → Type 0
Roots F = F × NameSet × ℕ

module _ {F : Type 0} (backend : StoreFs F) (db : StoreDb) where
  unfoldable pub read_refs_on : F → Name → Result DbError (List Name)
  read_refs_on fs digest =
      let path = join (refs_dir db) digest in refs_found path (backend.read_file fs path)

  unfoldable pub mark_closure : ℕ → F → NameSet → Result Stop NameSet
  mark_closure fuel fs roots = close (read_refs_on fs) fuel [] roots

  -- A direct root: of a link whose target exists the digest is kept, a dangling one is pruned.
  unfoldable pub direct_root : Name → Result FsError FilePath → Roots F → Roots F
  direct_root name (err e) s = s
  direct_root name (ok target) (fs, roots, pruned) =
      let abs = if starts_with_slash target then target else join db.roots_root target in
      if node_exists backend fs abs
      then (fs, insert_digest (digest_from_store_path target) roots, pruned)
      else ((backend.unlink fs (join db.roots_root name)).0, roots, pruned + 1)

  unfoldable pub direct_roots : List (Name × NodeKind) → Roots F → Roots F
  direct_roots [] s = s
  direct_roots ((name, kind) ∷ entries) s =
      direct_roots entries (direct_root name (backend.read_link s.0 (join db.roots_root name)) s)

  unfoldable pub lock_roots : F → List (Name × NodeKind) → NameSet → NameSet
  lock_roots fs [] roots = roots
  lock_roots fs ((name, kind) ∷ entries) roots =
      lock_roots fs entries (lock_digests (backend.read_file fs (join (locks_dir db) name)) roots)

  unfoldable pub link_digests : Result FsError FilePath → NameSet → NameSet
  link_digests (ok target) set = scan_bytes (scan_prefix db) target set
  link_digests (err e) set = set

  unfoldable pub scan_node :
      (FilePath → NameSet → Result Stop NameSet)
      → F
      → FilePath
      → NodeKind
      → NameSet
      → Result Stop NameSet
  scan_node scan fs path NodeKind.symlink set = ok (link_digests (backend.read_link fs path) set)
  scan_node scan fs path NodeKind.dir set =
      at_path path (backend.read_dir fs path) >>= λ entries. scan_entries scan path entries set
  scan_node scan fs path kind set =
      at_path path (backend.read_file fs path) >>= λ buf. ok (scan_bytes (scan_prefix db) buf set)

  unfoldable pub scan_found :
      (FilePath → NameSet → Result Stop NameSet)
      → F
      → FilePath
      → Result FsError NodeMeta
      → NameSet
      → Result Stop NameSet
  scan_found scan fs path (ok meta) set = scan_node scan fs path meta.kind set
  scan_found scan fs path (err FsError.not_found) set = ok set
  scan_found scan fs path (err e) set = err (failed (fs_error path e))

  -- With fuel for the depth of the tree.
  unfoldable pub scan_tree : ℕ → F → FilePath → NameSet → Result Stop NameSet
  scan_tree zero fs path set = err out_of_fuel
  scan_tree (suc n) fs path set =
      scan_found (λ p s. scan_tree n fs p s) fs path (backend.metadata fs path) set

  -- The digests of all roots, with the file system after the pruning of dangling links.
  unfoldable pub collect_roots : ℕ → F → F × Result Stop (NameSet × ℕ)
  collect_roots depth fs =
      let s = direct_roots (entries_or_none (backend.read_dir fs db.roots_root)) (fs, [], 0) in
      let locked = lock_roots s.0 (entries_or_none (backend.read_dir s.0 (locks_dir db))) s.1 in
      (s.0, scan_tree depth s.0 db.gen_root locked >>= λ roots. ok (roots, s.2))
