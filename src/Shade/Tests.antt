-- ===== src/Shade/Tests.antt =====
-- A small store in memory, and a run of the collector over it.
use pureshade_os.Base.{
  ℕ, ◌≡◌, ◌≢◌, ◌↔◌, ◌⊎◌, inl, inr, refl, true, false, Option, none, some, List, [], ◌∷◌, ◌++◌, ◌^◌,
  arith, replicate, length, if◌then◌else◌,
}
use pureshade_os.Base.Names.{Name, same_name}
use pureshade_os.Base.Result.{Result, ok, err}
use pureshade_os.Shade.Names.{
  FilePath, contains, is_base32, all_base32, without_suffix, digest_of, store_entry_digest,
  last_component, digest_from_store_path, trimmed_end, join, scan_bytes,
}
use pureshade_os.Shade.Names.Places.{IsScanPrefix, Occurs}
use pureshade_os.Shade.Names.Scan.{scan_bytes_lem}
use pureshade_os.Shade.Record.{
  ValidRecord, digits, to_string, parse_digits, parse_number, serialize, parse,
}
use pureshade_os.Shade.Record.Roundtrip.{OneLine, FieldsOneLine, parse-serialize}
use pureshade_os.Shade.StoreFs.{FsError, NodeKind, NodeMeta, StoreFs, node_exists}
use pureshade_os.Shade.Db.{
  DbError, StoreDb, GcOptions, GcReport, Stop, refs_dir, locks_dir, refs_found, unmarked, stopped,
  close, insert_digest, starts_with_slash, read_refs_on, mark_closure, direct_root, direct_roots,
  lock_roots, entries_or_none, scan_found, scan_tree, collect_roots,
}
use pureshade_os.Shade.Db.Enough.{ref_count, weight, close-enough}
use pureshade_os.Shade.Db.Gc.{
  insert_sorted, sorted, is_live, keep, finished, kind_size, node_size, entry_size, collect, sweep,
  swept, marked_then, rooted_then, gc,
}
use pureshade_os.Shade.Db.Gc.Sweep.{GcOutcome, gc_lem}

data Node : Type 0 where
  a_file : List ℕ → Node
  a_dir : List (Name × NodeKind) → Node
  a_link : FilePath → Node

abbrev Files : Type 0
Files = List (FilePath × Node)

abbrev at : Files → FilePath → Option Node
at [] p = none
at ((q, n) ∷ fs) p = if same_name q p then some n else at fs p

abbrev without : Files → FilePath → Files
without [] p = []
without ((q, n) ∷ fs) p = if same_name q p then without fs p else (q, n) ∷ without fs p

abbrev meta_of : Option Node → Result FsError NodeMeta
meta_of none = err FsError.not_found
meta_of (some (Node.a_file b)) = ok (record { kind = NodeKind.file; exec = false; len = length b })
meta_of (some (Node.a_dir e)) = ok (record { kind = NodeKind.dir; exec = false; len = 0 })
meta_of (some (Node.a_link t)) = ok (record { kind = NodeKind.symlink; exec = false; len = 0 })

abbrev bytes_of : Option Node → Result FsError (List ℕ)
bytes_of none = err FsError.not_found
bytes_of (some (Node.a_file b)) = ok b
bytes_of (some (Node.a_dir e)) = err FsError.is_dir
bytes_of (some (Node.a_link t)) = err FsError.invalid

abbrev entries_of : Option Node → Result FsError (List (Name × NodeKind))
entries_of none = err FsError.not_found
entries_of (some (Node.a_file b)) = err FsError.not_dir
entries_of (some (Node.a_dir e)) = ok e
entries_of (some (Node.a_link t)) = err FsError.not_dir

abbrev target_of : Option Node → Result FsError FilePath
target_of none = err FsError.not_found
target_of (some (Node.a_file b)) = err FsError.invalid
target_of (some (Node.a_dir e)) = err FsError.invalid
target_of (some (Node.a_link t)) = ok t

abbrev memory : StoreFs Files
memory = record {
  metadata = λ fs p. meta_of (at fs p);
  read_file = λ fs p. bytes_of (at fs p);
  read_dir = λ fs p. entries_of (at fs p);
  read_link = λ fs p. target_of (at fs p);
  unlink = λ fs p. (without fs p, ok tt);
  remove_store_path = λ fs p. (without fs p, ok tt);
}

abbrev db : StoreDb
db = record {
  store_root = b'/' ∷ b's' ∷ [];
  db_root = b'/' ∷ b'd' ∷ [];
  roots_root = b'/' ∷ b'r' ∷ [];
  gen_root = b'/' ∷ b'g' ∷ [];
  log_root = b'/' ∷ b'l' ∷ [];
}

-- The package of zeros is rooted, that of ones is not; a second root dangles.
abbrev zeros : Name
zeros = replicate 32 b'0' ++ (b'-' ∷ b'a' ∷ [])

abbrev ones : Name
ones = replicate 32 b'1' ++ (b'-' ∷ b'b' ∷ [])

abbrev in_store : Name → FilePath
in_store n = b'/' ∷ b's' ∷ b'/' ∷ n

abbrev files : Files
files =
    (b'/' ∷ b's' ∷ [], Node.a_dir ((zeros, NodeKind.file) ∷ (ones, NodeKind.file) ∷ []))
    ∷ (in_store zeros, Node.a_file (1 ∷ 2 ∷ 3 ∷ []))
    ∷ (in_store ones, Node.a_file (4 ∷ 5 ∷ []))
    ∷ (
      b'/' ∷ b'r' ∷ [],
      Node.a_dir ((b'x' ∷ [], NodeKind.symlink) ∷ (b'y' ∷ [], NodeKind.symlink) ∷ []),
    )
    ∷ (b'/' ∷ b'r' ∷ b'/' ∷ b'x' ∷ [], Node.a_link (in_store zeros))
    ∷ (b'/' ∷ b'r' ∷ b'/' ∷ b'y' ∷ [], Node.a_link (b'/' ∷ b'q' ∷ []))
    ∷ []

abbrev dry : GcOptions
dry = record { dry_run = true; force = false }

abbrev report : GcReport
report = record {
  collected = ones ∷ [];
  kept = 1;
  freed_bytes = 2;
  pruned_roots = 1;
  dry_run = true;
}

-- The dangling root is gone although it was a dry run.
abbrev pruned_files : Files
pruned_files = without files (b'/' ∷ b'r' ∷ b'/' ∷ b'y' ∷ [])

dry_run : gc memory db 4 10 dry files ≡ (pruned_files, ok report)
unfolding gc rooted_then marked_then swept finished sweep keep collect entry_size node_size
    kind_size is_live sorted insert_sorted mark_closure close unmarked stopped read_refs_on
    refs_found collect_roots direct_roots direct_root lock_roots entries_or_none scan_tree
    scan_found refs_dir locks_dir insert_digest starts_with_slash node_exists contains
    store_entry_digest digest_of all_base32 is_base32 without_suffix last_component
    digest_from_store_path trimmed_end join same_name
dry_run = refl

gc_lem_example : GcOutcome memory db 4 dry files pruned_files report
gc_lem_example = gc_lem memory db 4 10 dry files pruned_files report dry_run

-- One name refers to another.
abbrev chain : Name → Result DbError (List Name)
chain [] = ok ((b'a' ∷ []) ∷ [])
chain (c ∷ cs) = ok []

close-enough_example : close chain 3 [] ([] ∷ []) ≢ err Stop.out_of_fuel
unfolding weight contains same_name
close-enough_example = close-enough chain ([] ∷ []) 3 [] ([] ∷ []) known (omega arith)
  where
    known : (d : Name) → (ref_count (chain d) ≡ 0) ⊎ (contains ([] ∷ []) d ≡ true)
    known [] = inr refl
    known (c ∷ cs) = inl refl

-- The digest of zeros, behind the prefix "/s/" and one other byte.
abbrev scanned : List ℕ
scanned = b'x' ∷ b'/' ∷ b's' ∷ b'/' ∷ replicate 32 b'0'

slash_s : IsScanPrefix (b'/' ∷ b's' ∷ b'/' ∷ [])
slash_s = record { long = omega arith; short = omega arith; first = refl; last = refl }

scan_bytes_lem_example :
    (contains (scan_bytes (b'/' ∷ b's' ∷ b'/' ∷ []) scanned []) (replicate 32 b'0') ≡ true) ↔ (
      (contains [] (replicate 32 b'0') ≡ true)
      ⊎ ((i : ℕ) × Occurs (b'/' ∷ b's' ∷ b'/' ∷ []) scanned i (replicate 32 b'0')))
scan_bytes_lem_example =
    scan_bytes_lem (b'/' ∷ b's' ∷ b'/' ∷ []) slash_s scanned [] (replicate 32 b'0')

abbrev hello_record : ValidRecord
hello_record = record {
  digest = 97 ∷ 98 ∷ [];
  cdf_hash = 99 ∷ [];
  registered = 1700000000;
  deriver = [];
  name = 61 ∷ [];
  refs = (99 ∷ []) ∷ [];
}

-- "+7" is read, "7x" and 2 ^ 64 are refused.
read_signed : parse_number (43 ∷ 55 ∷ []) ≡ some 7
unfolding parse_number parse_digits
read_signed = refl

read_trailing : parse_number (55 ∷ 120 ∷ []) ≡ none
unfolding parse_number parse_digits
read_trailing = refl

read_overflow : parse_number (to_string (2 ^ 64)) ≡ none
unfolding parse_number parse_digits digits
read_overflow = refl

hello_record-FieldsOneLine : FieldsOneLine hello_record
unfolding FieldsOneLine OneLine
hello_record-FieldsOneLine =
    ((λ h. omega arith, λ h. omega arith, tt), tt, (λ h. omega arith, λ h. omega arith, tt))

parse-serialize_example :
    parse (97 ∷ 98 ∷ []) (serialize hello_record) ≡ some (record hello_record { refs = [] })
parse-serialize_example = parse-serialize hello_record hello_record-FieldsOneLine (omega arith)
