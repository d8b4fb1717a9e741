-- ===== src/Shade/Write.antt =====
-- The atomic write of the store database (`write_atomic` of pkg/shade-store-db/src/lib.rs) over the
-- writing half of the file system (pkg/shade-store/src/backend.rs).
pub mod Replace
pub mod Tests
use pureshade_os.Base.{
  ℕ, Bool, true, false, not, ◌&&◌, Option, none, some, List, [], ◌∷◌, ◌++◌, ◌==◌, if◌then◌else◌,
}
use pureshade_os.Base.Names.{Name, same_name}
use pureshade_os.Base.Result.{Result, ok, err}
use pureshade_os.Shade.Names.{FilePath, trimmed_end, join}
use pureshade_os.Shade.StoreFs.{FsError, StoreFs}
use pureshade_os.Shade.Db.{DbError, fs_error, starts_with_slash}
use pureshade_os.Shade.Record.{to_string}

abbrev pub Outcome : Type 0 → Type 0
Outcome F = F × Result FsError (Unit {0})

pub record StoreWrites (F : Type 0) : Type 0 where
  pub write_file : F → FilePath → List ℕ → Bool → Outcome F
  pub mkdir : F → FilePath → Outcome F
  pub rename : F → FilePath → FilePath → Outcome F
  pub sync_dir : F → FilePath → Outcome F
  pub unique_token : F → F × ℕ

-- `rsplit_once('/')`.
in_parent : ℕ → Option (FilePath × Name) → Name → Option (FilePath × Name)
in_parent c (some (parent, name)) cs = some (c ∷ parent, name)
in_parent c none cs = if c == b'/' then some ([], cs) else none

unfoldable pub rsplit_once : FilePath → Option (FilePath × Name)
unfolding in_parent
rsplit_once [] = none
rsplit_once (c ∷ cs) = in_parent c (rsplit_once cs) cs

split_of : FilePath → Option (FilePath × Name) → FilePath × Name
split_of path none = (b'.' ∷ [], path)
split_of path (some ([], name)) = (b'/' ∷ [], name)
split_of path (some (c ∷ parent, name)) = (c ∷ parent, name)

unfoldable pub split_parent : FilePath → FilePath × Name
unfolding split_of
split_parent path = split_of path (rsplit_once (trimmed_end path))

-- `path.split('/')` without the empty pieces, from the piece read so far on.
non_empty : Name → List Name → List Name
non_empty [] ps = ps
non_empty (c ∷ p) ps = (c ∷ p) ∷ ps

unfoldable pub components : FilePath → Name → List Name
unfolding non_empty
components [] piece = non_empty piece []
components (c ∷ cs) piece =
    if c == b'/' then non_empty piece (components cs []) else components cs (piece ++ (c ∷ []))

ends_with_slash : FilePath → Bool
ends_with_slash [] = false
ends_with_slash (c ∷ []) = c == b'/'
ends_with_slash (c ∷ d ∷ cs) = ends_with_slash (d ∷ cs)

unfoldable pub extended : FilePath → Name → FilePath
unfolding ends_with_slash
extended prefix comp = if ends_with_slash prefix then prefix ++ comp else prefix ++ (b'/' ∷ comp)

unfoldable pub is_made : Result FsError (Unit {0}) → Bool
is_made (ok u) = true
is_made (err FsError.exists) = true
is_made (err e) = false

-- ".tmp-", the kind "db", the name, a token of the backend and a count of the process.
unfoldable pub temp_sibling : FilePath → Name → ℕ → ℕ → FilePath
temp_sibling dir final_name token n = join dir (
    (b'.' ∷ b't' ∷ b'm' ∷ b'p' ∷ b'-' ∷ b'd' ∷ b'b' ∷ b'-' ∷ [])
    ++ (final_name ++ (b'-' ∷ (to_string token ++ (b'-' ∷ to_string n)))))

module _ {F : Type 0} (backend : StoreFs F) (writes : StoreWrites F) where
  unfoldable pub make_dirs : F → FilePath → List Name → Outcome F
  make_dirs fs prefix [] = (fs, ok tt)
  make_dirs fs prefix (comp ∷ comps) =
      let s = writes.mkdir fs (extended prefix comp) in
      let rest = make_dirs s.0 (extended prefix comp) comps in if is_made s.1 then rest else s

  unfoldable pub create_dir_all : F → FilePath → Outcome F
  create_dir_all fs path =
      make_dirs fs (if starts_with_slash path then b'/' ∷ [] else []) (components path [])

  abbrev pub Written : Type 0
  Written = F × Result DbError (Unit {0})

  module _ (path parent : FilePath) where
    abbrev pub synced : F → Written
    synced fs = ((writes.sync_dir fs parent).0, ok tt)

    -- The temporary file is removed after a failed rename.
    abbrev pub given_up : FilePath → F → FsError → Written
    given_up tmp fs e = ((backend.unlink fs tmp).0, err (fs_error path e))

    unfoldable pub after_retry : FilePath → Outcome F → Written
    after_retry tmp (fs, ok u) = synced fs
    after_retry tmp (fs, err e) = given_up tmp fs e

    unfoldable pub after_unlink : FilePath → Outcome F → Written
    after_unlink tmp (fs, ok u) = after_retry tmp (writes.rename fs tmp path)
    after_unlink tmp (fs, err e) = (fs, err (fs_error path e))

    unfoldable pub after_rename : FilePath → Outcome F → Written
    after_rename tmp (fs, ok u) = synced fs
    after_rename tmp (fs, err FsError.exists) = after_unlink tmp (backend.unlink fs path)
    after_rename tmp (fs, err e) = given_up tmp fs e

    unfoldable pub after_write : FilePath → Outcome F → Written
    after_write tmp (fs, ok u) = after_rename tmp (writes.rename fs tmp path)
    after_write tmp (fs, err e) = (fs, err (fs_error tmp e))

    unfoldable pub after_dirs : ℕ → Name → List ℕ → Outcome F → Written
    after_dirs n name bytes (fs, ok u) =
        let t = writes.unique_token fs in
        let tmp = temp_sibling parent name t.1 n in
        after_write tmp (writes.write_file t.0 tmp bytes false)
    after_dirs n name bytes (fs, err e) = (fs, err (fs_error parent e))

  unfoldable pub write_atomic : ℕ → F → FilePath → List ℕ → Written
  write_atomic n fs path bytes =
      let s = split_parent path in after_dirs path s.0 n s.1 bytes (create_dir_all fs s.0)
