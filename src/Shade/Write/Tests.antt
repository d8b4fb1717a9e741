-- ===== src/Shade/Write/Tests.antt =====
-- A backend in memory whose rename does not replace, and an atomic write over it.
use pureshade_os.Base.{
  ℕ, ◌≡◌, ◌≢◌, refl, ap, Option, none, some, List, [], ◌∷◌, get_or, if◌then◌else◌, arith,
}
use pureshade_os.Base.Names.{same_name, same_name_refl, same_name_ne}
use pureshade_os.Base.Result.{Result, ok, err}
use pureshade_os.Shade.Names.{FilePath, trimmed_end, join}
use pureshade_os.Shade.StoreFs.{FsError, StoreFs}
use pureshade_os.Shade.Record.{digits}
use pureshade_os.Shade.Write.{
  Outcome, StoreWrites, rsplit_once, split_parent, components, extended, is_made, temp_sibling,
  make_dirs, create_dir_all, after_retry, after_unlink, after_rename, after_write, after_dirs,
  write_atomic,
}
use pureshade_os.Shade.Write.Replace.{file_at, WritesFiles, Replaced, write_atomic_lem}

abbrev Table : Type 0
Table = FilePath → Option (List ℕ)

abbrev found : Option (List ℕ) → Result FsError (List ℕ)
found none = err FsError.not_found
found (some b) = ok b

abbrev updated : Table → FilePath → Option (List ℕ) → Table
updated fs p o q = if same_name p q then o else fs q

abbrev rename_to : Table → FilePath → FilePath → Option (List ℕ) → Outcome Table
rename_to fs a b (some old) = (fs, err FsError.exists)
rename_to fs a b none = (updated fs b (fs a), ok tt)

abbrev table : StoreFs Table
table = record {
  metadata = λ fs p. err FsError.unsupported;
  read_file = λ fs p. found (fs p);
  read_dir = λ fs p. err FsError.unsupported;
  read_link = λ fs p. err FsError.unsupported;
  unlink = λ fs p. (updated fs p none, ok tt);
  remove_store_path = λ fs p. (updated fs p none, ok tt);
}

abbrev table_writes : StoreWrites Table
table_writes = record {
  write_file = λ fs p b x. (updated fs p (some b), ok tt);
  mkdir = λ fs p. (fs, ok tt);
  rename = λ fs a b. rename_to fs a b (fs b);
  sync_dir = λ fs p. (fs, ok tt);
  unique_token = λ fs. (fs, 7);
}

set_self : (fs : Table) (p : FilePath) (o : Option (List ℕ)) → updated fs p o p ≡ o
set_self fs p o = rw (same_name_refl p) refl

set_ne : (fs : Table) (p q : FilePath) (o : Option (List ℕ)) → p ≢ q → updated fs p o q ≡ fs q
set_ne fs p q o d = rw (same_name_ne p q d) refl

rename_moves :
    (fs : Table) (a b : FilePath) (o : Option (List ℕ))
    → (rename_to fs a b o).1 ≡ ok tt
    → (rename_to fs a b o).0 b ≡ fs a
rename_moves fs a b none h = set_self fs b (fs a)
rename_moves fs a b (some old) h = cc

rename_fails :
    (fs : Table) (a b : FilePath) (o : Option (List ℕ)) (e : FsError) (q : FilePath)
    → (rename_to fs a b o).1 ≡ err e
    → (rename_to fs a b o).0 q ≡ fs q
rename_fails fs a b none e q h = cc
rename_fails fs a b (some old) e q h = refl

contents_of :
    (fs gs : Table) (a b : FilePath) → fs a ≡ gs b → file_at table fs a ≡ file_at table gs b
unfolding file_at
contents_of fs gs a b h = ap (λ o. file_at table (λ q. o) a) h

removed : (fs : Table) (p : FilePath) → file_at table (updated fs p none) p ≡ none
unfolding file_at
removed fs p = contents_of (updated fs p none) (λ q. none) p p (set_self fs p none)

stored : (fs : Table) (p : FilePath) (b : List ℕ) → file_at table (updated fs p (some b)) p ≡ some b
unfolding file_at
stored fs p b = contents_of (updated fs p (some b)) (λ q. some b) p p (set_self fs p (some b))

table-WritesFiles : WritesFiles table table_writes
table-WritesFiles = record {
  mkdir_keeps = λ fs d p. refl;
  sync_dir_keeps = λ fs d p. refl;
  unique_token_keeps = λ fs p. refl;
  write_file_sets = λ fs t b x h. stored fs t b;
  write_file_keeps =
      λ fs t b x p d. contents_of (updated fs t (some b)) fs p p (set_ne fs t p (some b) d);
  rename_moves =
      λ fs t p h. contents_of (rename_to fs t p (fs p)).0 fs p t (rename_moves fs t p (fs p) h);
  rename_fails = λ fs t p e q h.
      contents_of (rename_to fs t p (fs p)).0 fs q q (rename_fails fs t p (fs p) e q h);
  unlink_removes = λ fs t h. removed fs t;
  unlink_fails = λ fs t e h. cc;
  unlink_keeps = λ fs t p d. contents_of (updated fs t none) fs p p (set_ne fs t p none d);
}

-- "/d/x" is written over.
abbrev destination : FilePath
destination = b'/' ∷ b'd' ∷ b'/' ∷ b'x' ∷ []

abbrev before : Table
before = updated (λ q. none) destination (some (1 ∷ []))

dot_ne : (c : ℕ) → c ≡ b'.' → c ≢ b'x'
dot_ne c d h = omega arith

temp_apart :
    (token : ℕ)
    → temp_sibling (split_parent destination).0 (split_parent destination).1 token 3 ≢ destination
unfolding temp_sibling split_parent rsplit_once trimmed_end join same_name
temp_apart token h = dot_ne 46 refl (ap (λ l. get_or l 3 0) h)

overwritten :
    file_at table (write_atomic table table_writes 3 before destination (2 ∷ [])).0 destination
    ≡ some (2 ∷ [])
unfolding write_atomic after_dirs after_write after_rename after_unlink after_retry create_dir_all
    make_dirs components extended is_made temp_sibling split_parent rsplit_once trimmed_end join
    same_name file_at digits
overwritten = refl

write_atomic_lem_example :
    Replaced table table_writes destination
      (file_at table before destination)
      (2 ∷ [])
      (write_atomic table table_writes 3 before destination (2 ∷ []))
write_atomic_lem_example =
    write_atomic_lem table table_writes table-WritesFiles 3 before destination (2 ∷ []) temp_apart
