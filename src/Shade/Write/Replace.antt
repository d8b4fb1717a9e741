-- ===== src/Shade/Write/Replace.antt =====
-- What `write_atomic` of pkg/shade-store-db/src/lib.rs leaves at its destination.
use pureshade_os.Base.{
  ℕ, ◌≡◌, ◌≢◌, ◌⊎◌, refl, sym, ◌∙◌, inl, inr, Bool, false, Bool-cases, Option, none, some, List, [],
  ◌∷◌, if◌then◌else◌,
}
use pureshade_os.Base.Names.{Name}
use pureshade_os.Base.Result.{Result, ok, err}
use pureshade_os.Shade.Names.{FilePath}
use pureshade_os.Shade.StoreFs.{FsError, StoreFs}
use pureshade_os.Shade.Db.{DbError, fs_error, starts_with_slash}
use pureshade_os.Shade.Write.{
  Outcome, StoreWrites, split_parent, components, extended, is_made, temp_sibling, make_dirs,
  create_dir_all, Written, synced, given_up, after_retry, after_unlink, after_rename, after_write,
  after_dirs, write_atomic,
}

abbrev pub contents : Result FsError (List ℕ) → Option (List ℕ)
contents (ok bytes) = some bytes
contents (err e) = none

unfoldable pub file_at : {F : Type 0} → StoreFs F → F → FilePath → Option (List ℕ)
file_at backend fs path = contents (backend.read_file fs path)

-- What the calls do to the files: a failed rename or unlink changes none.
pub record WritesFiles {F : Type 0} (backend : StoreFs F) (writes : StoreWrites F) : Type 0 where
  pub mkdir_keeps :
      (fs : F) (d p : FilePath) → file_at backend (writes.mkdir fs d).0 p ≡ file_at backend fs p
  pub sync_dir_keeps :
      (fs : F) (d p : FilePath) → file_at backend (writes.sync_dir fs d).0 p ≡ file_at backend fs p
  pub unique_token_keeps :
      (fs : F) (p : FilePath) → file_at backend (writes.unique_token fs).0 p ≡ file_at backend fs p
  pub write_file_sets :
      (fs : F) (t : FilePath) (b : List ℕ) (x : Bool)
      → (writes.write_file fs t b x).1 ≡ ok tt
      → file_at backend (writes.write_file fs t b x).0 t ≡ some b
  pub write_file_keeps :
      (fs : F) (t : FilePath) (b : List ℕ) (x : Bool) (p : FilePath)
      → t ≢ p
      → file_at backend (writes.write_file fs t b x).0 p ≡ file_at backend fs p
  pub rename_moves :
      (fs : F) (t p : FilePath)
      → (writes.rename fs t p).1 ≡ ok tt
      → file_at backend (writes.rename fs t p).0 p ≡ file_at backend fs t
  pub rename_fails :
      (fs : F) (t p : FilePath) (e : FsError) (q : FilePath)
      → (writes.rename fs t p).1 ≡ err e
      → file_at backend (writes.rename fs t p).0 q ≡ file_at backend fs q
  pub unlink_removes :
      (fs : F) (t : FilePath)
      → (backend.unlink fs t).1 ≡ ok tt
      → file_at backend (backend.unlink fs t).0 t ≡ none
  pub unlink_fails :
      (fs : F) (t : FilePath) (e : FsError)
      → (backend.unlink fs t).1 ≡ err e
      → file_at backend (backend.unlink fs t).0 t ≡ file_at backend fs t
  pub unlink_keeps :
      (fs : F) (t p : FilePath)
      → t ≢ p
      → file_at backend (backend.unlink fs t).0 p ≡ file_at backend fs p

module _ {F : Type 0} (backend : StoreFs F) (writes : StoreWrites F) where
  -- A write that succeeded left the new contents, and one that failed the old ones or none.
  unfoldable pub Replaced : FilePath → Option (List ℕ) → List ℕ → Written backend writes → Type 0
  Replaced path old bytes w =
      ((w.1 ≡ ok tt) × (file_at backend w.0 path ≡ some bytes))
      ⊎ ((e : DbError) × (w.1 ≡ err e)
          × ((file_at backend w.0 path ≡ old) ⊎ (file_at backend w.0 path ≡ none)))

module _ {F : Type 0} (backend : StoreFs F) (writes : StoreWrites F)
    (laws : WritesFiles backend writes) where
  dirs_keep :
      (fs : F) (prefix : FilePath) (comps : List Name) (p : FilePath)
      → file_at backend (make_dirs backend writes fs prefix comps).0 p ≡ file_at backend fs p
  unfolding make_dirs
  dirs_keep fs prefix [] p = refl
  dirs_keep fs prefix (comp ∷ comps) p =
      elim (Bool-cases (is_made (writes.mkdir fs (extended prefix comp)).1)) [
        | inl e ↦ rw e (
            dirs_keep (writes.mkdir fs (extended prefix comp)).0 (extended prefix comp) comps p
            ∙ laws.mkdir_keeps fs (extended prefix comp) p)
        | inr e ↦ rw e (laws.mkdir_keeps fs (extended prefix comp) p)
      ]

  module _ (path parent tmp : FilePath) (old : Option (List ℕ)) (bytes : List ℕ)
      (apart : tmp ≢ path) where
    abbrev Left : F → Type 0
    Left fs = (file_at backend fs path ≡ old) ⊎ (file_at backend fs path ≡ none)

    done :
        (fs : F)
        → file_at backend fs path ≡ some bytes
        → Replaced backend writes path old bytes (synced backend writes path parent fs)
    unfolding Replaced
    done fs k = inl (refl, laws.sync_dir_keeps fs parent path ∙ k)

    gave_up :
        (fs : F) (e : FsError)
        → Left fs
        → Replaced backend writes path old bytes (given_up backend writes path parent tmp fs e)
    unfolding Replaced
    gave_up fs e (inl k) =
        inr (fs_error path e, refl, inl (laws.unlink_keeps fs tmp path apart ∙ k))
    gave_up fs e (inr k) =
        inr (fs_error path e, refl, inr (laws.unlink_keeps fs tmp path apart ∙ k))

    stay : (fs : F) (e : DbError) → Left fs → Replaced backend writes path old bytes (fs, err e)
    unfolding Replaced
    stay fs e k = inr (e, refl, k)

    Left-eq : (fs gs : F) → file_at backend gs path ≡ file_at backend fs path → Left fs → Left gs
    Left-eq fs gs h (inl k) = inl (h ∙ k)
    Left-eq fs gs h (inr k) = inr (h ∙ k)

    retry_lem :
        (s : Outcome F)
        → (s.1 ≡ ok tt → file_at backend s.0 path ≡ some bytes)
        → ((e : FsError) → s.1 ≡ err e → Left s.0)
        → Replaced backend writes path old bytes (after_retry backend writes path parent tmp s)
    unfolding after_retry
    retry_lem (fs, ok tt) good bad = done fs (good refl)
    retry_lem (fs, err e) good bad = gave_up fs e (bad e refl)

    -- A rename of the finished temporary file.
    renames :
        (fs : F)
        → file_at backend fs tmp ≡ some bytes
        → (writes.rename fs tmp path).1 ≡ ok tt
        → file_at backend (writes.rename fs tmp path).0 path ≡ some bytes
    renames fs t h = laws.rename_moves fs tmp path h ∙ t

    unlink_lem :
        (s : Outcome F)
        → file_at backend s.0 tmp ≡ some bytes
        → Left s.0
        → Replaced backend writes path old bytes (after_unlink backend writes path parent tmp s)
    unfolding after_unlink
    unlink_lem (fs, ok tt) t k =
        retry_lem (writes.rename fs tmp path) (renames fs t) (λ e h.
          Left-eq fs (writes.rename fs tmp path).0 (laws.rename_fails fs tmp path e path h) k)
    unlink_lem (fs, err e) t k = stay fs (fs_error path e) k

    -- The old file is there or removed, whatever the unlink returns.
    removal :
        (fs : F)
        → Left fs
        → (r : Result FsError (Unit {0})) → (backend.unlink fs path).1 ≡ r
        → Left (backend.unlink fs path).0
    removal fs k (ok tt) h = inr (laws.unlink_removes fs path h)
    removal fs k (err e) h = Left-eq fs (backend.unlink fs path).0 (laws.unlink_fails fs path e h) k

    rename_lem :
        (s : Outcome F)
        → (s.1 ≡ ok tt → file_at backend s.0 path ≡ some bytes)
        → ((e : FsError) → s.1 ≡ err e → (file_at backend s.0 tmp ≡ some bytes) × Left s.0)
        → Replaced backend writes path old bytes (after_rename backend writes path parent tmp s)
    unfolding after_rename
    rename_lem (fs, ok tt) good bad = done fs (good refl)
    rename_lem (fs, err FsError.exists) good bad =
        let b = bad FsError.exists refl in
        unlink_lem (backend.unlink fs path)
          (laws.unlink_keeps fs path tmp (λ h. apart (sym h)) ∙ b.0)
          (removal fs b.1 (backend.unlink fs path).1 refl)
    rename_lem (fs, err FsError.not_found) good bad = gave_up fs FsError.not_found (bad _ refl).1
    rename_lem (fs, err FsError.not_dir) good bad = gave_up fs FsError.not_dir (bad _ refl).1
    rename_lem (fs, err FsError.is_dir) good bad = gave_up fs FsError.is_dir (bad _ refl).1
    rename_lem (fs, err FsError.not_empty) good bad = gave_up fs FsError.not_empty (bad _ refl).1
    rename_lem (fs, err FsError.no_space) good bad = gave_up fs FsError.no_space (bad _ refl).1
    rename_lem (fs, err FsError.invalid) good bad = gave_up fs FsError.invalid (bad _ refl).1
    rename_lem (fs, err FsError.read_only) good bad = gave_up fs FsError.read_only (bad _ refl).1
    rename_lem (fs, err FsError.device) good bad = gave_up fs FsError.device (bad _ refl).1
    rename_lem (fs, err FsError.unsupported) good bad =
        gave_up fs FsError.unsupported (bad _ refl).1

    write_lem :
        (s : Outcome F)
        → (s.1 ≡ ok tt → file_at backend s.0 tmp ≡ some bytes)
        → Left s.0
        → Replaced backend writes path old bytes (after_write backend writes path parent tmp s)
    unfolding after_write
    write_lem (fs, ok tt) t k = rename_lem (writes.rename fs tmp path) (renames fs (t refl)) (λ e h.
        (
          laws.rename_fails fs tmp path e tmp h ∙ t refl,
          Left-eq fs (writes.rename fs tmp path).0 (laws.rename_fails fs tmp path e path h) k,
        ))
    write_lem (fs, err e) t k = stay fs (fs_error tmp e) k

  dirs_lem :
      (n : ℕ) (path parent : FilePath) (name : Name) (old : Option (List ℕ)) (bytes : List ℕ)
      (s : Outcome F)
      → ((token : ℕ) → temp_sibling parent name token n ≢ path)
      → file_at backend s.0 path ≡ old
      → Replaced backend writes path old bytes
          (after_dirs backend writes path parent n name bytes s)
  unfolding after_dirs Replaced
  dirs_lem n path parent name old bytes (fs, err e) apart k = inr (fs_error parent e, refl, inl k)
  dirs_lem n path parent name old bytes (fs, ok tt) apart k =
      let t = writes.unique_token fs in
      let tmp = temp_sibling parent name t.1 n in
      write_lem path parent tmp old bytes (apart t.1) (writes.write_file t.0 tmp bytes false)
        (laws.write_file_sets t.0 tmp bytes false)
        (inl (
          laws.write_file_keeps t.0 tmp bytes false path (apart t.1)
          ∙ laws.unique_token_keeps fs path
          ∙ k))

  -- Where no temporary name is the destination itself, an atomic write that succeeds leaves the new
  -- contents at the destination, and one that fails leaves what was there or no file.
  pub write_atomic_lem :
      (n : ℕ) (fs : F) (path : FilePath) (bytes : List ℕ)
      → ((token : ℕ) → temp_sibling (split_parent path).0 (split_parent path).1 token n ≢ path)
      → Replaced backend writes path
          (file_at backend fs path)
          bytes
          (write_atomic backend writes n fs path bytes)
  unfolding write_atomic create_dir_all
  write_atomic_lem n fs path bytes apart =
      let parent = (split_parent path).0 in
      dirs_lem n path parent (split_parent path).1 (file_at backend fs path) bytes
        (create_dir_all backend writes fs parent) apart
        (dirs_keep fs (if starts_with_slash parent then b'/' ∷ [] else []) (components parent [])
          path)
