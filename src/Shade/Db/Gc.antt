-- ===== src/Shade/Db/Gc.antt =====
-- `gc` of pkg/shade-store-db/src/lib.rs, under the lock of the database.
pub mod Sweep
use pureshade_os.Base.{
  ℕ, zero, suc, ◌+◌, ◌%◌, ◌^◌, Bool, true, false, not, ◌&&◌, Option, none, some, List, [], ◌∷◌,
  ◌++◌, length, ltb, ◌==◌, if◌then◌else◌,
}
use pureshade_os.Base.Names.{Name}
use pureshade_os.Base.Result.{Result, ok, err}
use pureshade_os.Shade.Names.{FilePath, NameSet, contains, store_entry_digest, join}
use pureshade_os.Shade.StoreFs.{FsError, NodeKind, NodeMeta, StoreFs}
use pureshade_os.Shade.Db.{
  DbError, StoreDb, GcOptions, GcReport, Stop, refs_dir, valid_dir, locks_dir, entries_or_none,
  mark_closure, collect_roots,
}

-- `collected.sort()`, by insertion: the order of the bytes.
unfoldable pub name_le : Name → Name → Bool
name_le [] ys = true
name_le (x ∷ xs) [] = false
name_le (x ∷ xs) (y ∷ ys) = if x == y then name_le xs ys else ltb x y

unfoldable pub insert_sorted : Name → List Name → List Name
insert_sorted n [] = n ∷ []
insert_sorted n (m ∷ ms) =
    let rest = insert_sorted n ms in if name_le n m then n ∷ m ∷ ms else m ∷ rest

unfoldable pub sorted : List Name → List Name
sorted [] = []
sorted (n ∷ ns) = insert_sorted n (sorted ns)

unfoldable pub is_live : NameSet → Option Name → Bool
is_live marked none = false
is_live marked (some d) = contains marked d

unfoldable pub keep : GcReport → GcReport
keep r = record r { kept = r.kept + 1 }

unfoldable pub finished : {F : Type 0} → F × GcReport → F × Result Stop GcReport
finished (fs, r) = (fs, ok (record r { collected = sorted r.collected }))

-- The size of an entry, with fuel for the depth of its tree; what cannot be read counts as 0.
unfoldable pub entry_sizes : (FilePath → ℕ) → FilePath → List (Name × NodeKind) → ℕ
entry_sizes size path [] = 0
entry_sizes size path ((name, kind) ∷ entries) =
    (size (join path name) + entry_sizes size path entries) % 2 ^ 64

module _ {F : Type 0} (backend : StoreFs F) (db : StoreDb) where
  unfoldable pub kind_size : (FilePath → ℕ) → F → FilePath → NodeKind → ℕ → ℕ
  kind_size size fs path NodeKind.symlink len = 0
  kind_size size fs path NodeKind.dir len =
      entry_sizes size path (entries_or_none (backend.read_dir fs path))
  kind_size size fs path kind len = len

  unfoldable pub node_size : (FilePath → ℕ) → F → FilePath → Result FsError NodeMeta → ℕ
  node_size size fs path (err e) = 0
  node_size size fs path (ok meta) = kind_size size fs path meta.kind meta.len

  unfoldable pub entry_size : ℕ → F → FilePath → ℕ
  entry_size zero fs path = 0
  entry_size (suc n) fs path = node_size (entry_size n fs) fs path (backend.metadata fs path)

  unfoldable pub remove_records : Option Name → F → F
  remove_records none fs = fs
  remove_records (some d) fs =
      (backend.unlink (backend.unlink fs (join (refs_dir db) d)).0 (join (valid_dir db) d)).0

  -- The removal of a dead entry, its records and its log (".log"); failures are passed over.
  unfoldable pub remove_entry : F → Name → F
  remove_entry fs name =
      let removed = (backend.remove_store_path fs (join db.store_root name)).0 in
      let cleared = remove_records (store_entry_digest name) removed in
      (backend.unlink cleared (join db.log_root (name ++ (46 ∷ 108 ∷ 111 ∷ 103 ∷ [])))).0

  unfoldable pub collect : ℕ → F → Name → GcReport → GcReport
  collect depth fs name r = record r {
    freed_bytes = (r.freed_bytes + entry_size depth fs (join db.store_root name)) % 2 ^ 64;
    collected = r.collected ++ (name ∷ []);
  }

  unfoldable pub sweep : ℕ → NameSet → List (Name × NodeKind) → F → GcReport → F × GcReport
  sweep depth marked [] fs r = (fs, r)
  sweep depth marked ((name, kind) ∷ entries) fs r =
      if is_live marked (store_entry_digest name)
      then sweep depth marked entries fs (keep r)
      else sweep depth marked entries (if r.dry_run then fs else remove_entry fs name)
          (collect depth fs name r)

  -- From what reading the directory of the store answers.
  unfoldable pub swept :
      ℕ
      → NameSet
      → F
      → GcReport
      → Result FsError (List (Name × NodeKind))
      → F × Result Stop GcReport
  swept depth marked fs r (ok entries) = finished (sweep depth marked entries fs r)
  swept depth marked fs r (err FsError.not_found) = (fs, ok r)
  swept depth marked fs r (err e) = (fs, err (Stop.failed (DbError.fs_error db.store_root e)))

  unfoldable pub marked_then :
      ℕ → GcOptions → F → ℕ → Result Stop NameSet → F × Result Stop GcReport
  marked_then depth opts fs pruned (err e) = (fs, err e)
  marked_then depth opts fs pruned (ok marked) =
      swept depth marked fs
        (record {
          collected = [];
          kept = 0;
          freed_bytes = 0;
          pruned_roots = pruned;
          dry_run = opts.dry_run;
        })
        (backend.read_dir fs db.store_root)

  unfoldable pub rooted_then :
      ℕ → ℕ → GcOptions → F × Result Stop (NameSet × ℕ) → F × Result Stop GcReport
  rooted_then depth fuel opts (fs, err e) = (fs, err e)
  rooted_then depth fuel opts (fs, ok (roots, pruned)) =
      marked_then depth opts fs pruned (mark_closure backend db fuel fs roots)

  unfoldable pub gc : ℕ → ℕ → GcOptions → F → F × Result Stop GcReport
  gc depth fuel opts fs =
      let inflight = length (entries_or_none (backend.read_dir fs (locks_dir db))) in
      if ltb 0 inflight && not opts.force
      then (fs, err (Stop.failed (DbError.busy inflight)))
      else rooted_then depth fuel opts (collect_roots backend db depth fs)
