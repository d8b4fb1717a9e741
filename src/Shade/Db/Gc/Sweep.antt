-- ===== src/Shade/Db/Gc/Sweep.antt =====
-- A run of the collector removes the entries that no root reaches, and nothing else.
use pureshade_os.Base.{
  ℕ, suc, ◌+◌, ◌≡◌, ◌≢◌, refl, ap, sym, ◌∙◌, subst, ◌⊎◌, ◌↔◌, inl, inr, Bool, true, false, not,
  ◌&&◌, none, some, List, [], ◌∷◌, ◌++◌, length, arith, ltb, Bool-cases, Option-cases,
  if◌then◌else◌,
}
use pureshade_os.Base.Names.{Name}
use pureshade_os.Base.Result.{Result, ok, err, Result-cases, ok_inj}
use pureshade_os.Shade.Names.{NameSet, contains, store_entry_digest}
use pureshade_os.Shade.StoreFs.{FsError, NodeKind, StoreFs}
use pureshade_os.Shade.Db.{
  StoreDb, GcOptions, GcReport, Stop, locks_dir, entries_or_none, mark_closure, collect_roots,
  read_refs_on,
}
use pureshade_os.Shade.Db.Closure.{Live, close_Live}
use pureshade_os.Shade.Db.Gc.{
  is_live, sorted, remove_entry, keep, collect, sweep, finished, swept, marked_then, rooted_then,
  gc,
}

-- The entries that are not to be kept, in their order, and the number of the others.
pub data Judged (Keeps : Name → Type 0) : List (Name × NodeKind) → List Name → ℕ → Type 0 where
  done : Judged Keeps [] [] 0
  kept_one :
      (name : Name) (kind : NodeKind) (entries : List (Name × NodeKind)) (dead : List Name) (k : ℕ)
      → Keeps name
      → Judged Keeps entries dead k
      → Judged Keeps ((name, kind) ∷ entries) dead (suc k)
  dead_one :
      (name : Name) (kind : NodeKind) (entries : List (Name × NodeKind)) (dead : List Name) (k : ℕ)
      → (Keeps name → ⊥)
      → Judged Keeps entries dead k
      → Judged Keeps ((name, kind) ∷ entries) (name ∷ dead) k

append_assoc : (xs ys zs : List Name) → (xs ++ ys) ++ zs ≡ xs ++ (ys ++ zs)
append_assoc [] ys zs = refl
append_assoc (x ∷ xs) ys zs = ap (λ r. x ∷ r) (append_assoc xs ys zs)

append_nil : (xs : List Name) → xs ++ [] ≡ xs
append_nil [] = refl
append_nil (x ∷ xs) = ap (λ r. x ∷ r) (append_nil xs)

module _ {F : Type 0} (backend : StoreFs F) (db : StoreDb) where
  -- The removal of entries, one after the other.
  abbrev pub removed : List Name → F → F
  removed [] fs = fs
  removed (n ∷ ns) fs = removed ns (remove_entry backend db fs n)

  -- The name has the digest of something that a root reaches.
  abbrev pub Keeps : F → NameSet → Name → Type 0
  Keeps fs roots name =
      (d : Name) × (store_entry_digest name ≡ some d) × Live (read_refs_on backend db fs) roots d

  -- What a sweep adds to a report and does to the file system.
  abbrev Swept : (Name → Type 0) → List (Name × NodeKind) → F → GcReport → F × GcReport → Type 0
  Swept K entries fs r (after, s) =
      (dead : List Name) × (k : ℕ) × Judged K entries dead k
      × (s.kept ≡ r.kept + k)
      × (s.collected ≡ r.collected ++ dead)
      × (s.pruned_roots ≡ r.pruned_roots)
      × (s.dry_run ≡ r.dry_run)
      × (after ≡ (if r.dry_run then fs else removed dead fs))

  sweep_lem :
      (K : Name → Type 0) (depth : ℕ) (marked : NameSet) (entries : List (Name × NodeKind)) (fs : F)
      (r : GcReport)
      → ((name : Name) → (is_live marked (store_entry_digest name) ≡ true) ↔ K name)
      → Swept K entries fs r (sweep backend db depth marked entries fs r)
  unfolding sweep keep collect
  sweep_lem K depth marked [] fs r live =
      ([], 0, Judged.done, omega arith, sym (append_nil r.collected), refl, refl, same r.dry_run)
    where
      same : (b : Bool) → fs ≡ (if b then fs else fs)
      same true = refl
      same false = refl
  sweep_lem K depth marked ((name, kind) ∷ entries) fs r live =
      elim (Bool-cases (is_live marked (store_entry_digest name))) [
        | inl e ↦
            let s = sweep_lem K depth marked entries fs (keep r) live in
            rw e (
              s.0,
              suc s.1,
              Judged.kept_one name kind entries s.0 s.1 ((live name).0 e) s.2,
              omega (arith, s.3),
              s.4,
              s.5,
              s.6,
              s.7,
            )
        | inr e ↦
            let next = if r.dry_run then fs else remove_entry backend db fs name in
            let s =
              sweep_lem K depth marked entries next (collect backend db depth fs name r) live in
            rw e (
              name ∷ s.0,
              s.1,
              Judged.dead_one name kind entries s.0 s.1 (λ k. dead e k) s.2,
              s.3,
              s.4 ∙ append_assoc r.collected (name ∷ []) s.0,
              s.5,
              s.6,
              s.7 ∙ once r.dry_run s.0,
            )
      ]
    where
      false_ne_true : false ≢ true
      false_ne_true h = cc

      dead : is_live marked (store_entry_digest name) ≡ false → K name → ⊥
      dead e k = false_ne_true (sym e ∙ (live name).1 k)

      once :
          (b : Bool) (ns : List Name)
          → (if b
              then (if b then fs else remove_entry backend db fs name)
              else removed ns (if b then fs else remove_entry backend db fs name))
            ≡ (if b then fs else removed ns (remove_entry backend db fs name))
      once true ns = refl
      once false ns = refl

  live_iff :
      (fuel : ℕ) (fs : F) (roots marked : NameSet)
      → mark_closure backend db fuel fs roots ≡ ok marked
      → (name : Name) → (is_live marked (store_entry_digest name) ≡ true) ↔ Keeps fs roots name
  unfolding is_live mark_closure
  live_iff fuel fs roots marked h name = elim (Option-cases (store_entry_digest name)) [
    | inl e ↦ (λ q. absurd (false_ne_true (rw e at q)), λ k. absurd (some_ne_none (sym e ∙ k.1)))
    | inr (d, e) ↦
        let iff = close_Live (read_refs_on backend db fs) roots fuel marked h in
        (
          λ q. (d, e, (iff d).0 (rw e at q)),
          λ k.
              rw e
                (subst (λ c. contains marked c ≡ true) (some_inj (sym k.1 ∙ e)) ((iff k.0).1 k.2)),
        )
  ]
    where
      false_ne_true : false ≢ true
      false_ne_true h = cc

      some_ne_none : {d : Name} → none ≢ some d
      some_ne_none h = cc

      some_inj : {c d : Name} → some c ≡ some d → c ≡ d
      some_inj h = cc

  -- The entries of the store's directory, none where it does not exist.
  abbrev pub Entries : F → List (Name × NodeKind) → Type 0
  Entries fs entries =
      (backend.read_dir fs db.store_root ≡ ok entries)
      ⊎ ((backend.read_dir fs db.store_root ≡ err FsError.not_found) × (entries ≡ []))

  -- What a run that succeeds has done.
  abbrev pub GcOutcome : ℕ → GcOptions → F → F → GcReport → Type 0
  GcOutcome depth opts fs after report =
      (mid : F) × (roots : NameSet) × (entries : List (Name × NodeKind)) × (dead : List Name)
      × (collect_roots backend db depth fs ≡ (mid, ok (roots, report.pruned_roots)))
      × Entries mid entries
      × Judged (Keeps mid roots) entries dead report.kept
      × (report.collected ≡ sorted dead)
      × (after ≡ (if opts.dry_run then mid else removed dead mid))

  module _ (depth fuel : ℕ) (opts : GcOptions) (fs after : F) (report : GcReport) where
    refused :
        {A : Type 0} {mid : F} {e : Stop}
        → ◌≡◌ {A = F × Result Stop GcReport} (mid, err e) (after, ok report)
        → A
    refused h = cc

    empty_report : ℕ → GcReport
    empty_report pruned = record {
      collected = [];
      kept = 0;
      freed_bytes = 0;
      pruned_roots = pruned;
      dry_run = opts.dry_run;
    }

    zero_plus : (a k : ℕ) → a ≡ 0 + k → a ≡ k
    zero_plus a k h = omega (arith, h)

    nothing : (b : Bool) (mid : F) → mid ≡ (if b then mid else mid)
    nothing true mid = refl
    nothing false mid = refl

    swept_case :
        (mid : F) (roots marked : NameSet) (pruned : ℕ)
        (answer : Result FsError (List (Name × NodeKind)))
        → collect_roots backend db depth fs ≡ (mid, ok (roots, pruned))
        → mark_closure backend db fuel mid roots ≡ ok marked
        → backend.read_dir mid db.store_root ≡ answer
        → swept backend db depth marked mid (empty_report pruned) answer ≡ (after, ok report)
        → GcOutcome depth opts fs after report
    unfolding swept finished empty_report sorted
    swept_case mid roots marked pruned (ok entries) c m read h =
        let p = sweep backend db depth marked entries mid (empty_report pruned) in
        let full : GcReport = record p.1 { collected = sorted p.1.collected } in
        let s =
          sweep_lem (Keeps mid roots) depth marked entries mid (empty_report pruned)
            (live_iff fuel mid roots marked m) in
        let out : GcOutcome depth opts fs p.0 full = (
          mid,
          roots,
          entries,
          s.0,
          c ∙ ap (λ k. (mid, ok (roots, k))) (sym s.5),
          inl read,
          subst (λ k. Judged (Keeps mid roots) entries s.0 k) (sym (zero_plus p.1.kept s.1 s.3))
              s.2,
          ap sorted s.4,
          s.7,
        ) in
        subst (λ a. GcOutcome depth opts fs a report) (ap (λ r. r.0) h)
          (subst (λ q. GcOutcome depth opts fs p.0 q)
            (ok_inj {E = Stop} full report (ap (λ r. r.1) h)) out)
    swept_case mid roots marked pruned (err FsError.not_found) c m read h =
        let out : GcOutcome depth opts fs mid (empty_report pruned) =
          (mid, roots, [], [], c, inr (read, refl), Judged.done, refl, nothing opts.dry_run mid) in
        subst (λ a. GcOutcome depth opts fs a report) (ap (λ r. r.0) h)
          (subst (λ q. GcOutcome depth opts fs mid q)
            (ok_inj {E = Stop} (empty_report pruned) report (ap (λ r. r.1) h)) out)
    swept_case mid roots marked pruned (err FsError.exists) c m read h = refused h
    swept_case mid roots marked pruned (err FsError.not_dir) c m read h = refused h
    swept_case mid roots marked pruned (err FsError.is_dir) c m read h = refused h
    swept_case mid roots marked pruned (err FsError.not_empty) c m read h = refused h
    swept_case mid roots marked pruned (err FsError.no_space) c m read h = refused h
    swept_case mid roots marked pruned (err FsError.invalid) c m read h = refused h
    swept_case mid roots marked pruned (err FsError.read_only) c m read h = refused h
    swept_case mid roots marked pruned (err FsError.device) c m read h = refused h
    swept_case mid roots marked pruned (err FsError.unsupported) c m read h = refused h

    rooted_case :
        (r : F × Result Stop (NameSet × ℕ))
        → collect_roots backend db depth fs ≡ r
        → rooted_then backend db depth fuel opts r ≡ (after, ok report)
        → GcOutcome depth opts fs after report
    unfolding rooted_then marked_then empty_report
    rooted_case (mid, err e) c h = refused h
    rooted_case (mid, ok (roots, pruned)) c h =
        elim (Result-cases (mark_closure backend db fuel mid roots)) [
          | inl (marked, e) ↦
              swept_case mid roots marked pruned (backend.read_dir mid db.store_root) c e refl
                (rw e at h)
          | inr (e, f) ↦ refused (rw f at h)
        ]

    -- A run that succeeds has collected the roots, which prunes dangling links also on a dry run, and
    -- read the store's directory: it kept as many entries as have the digest of something that a
    -- root reaches by the recorded references, and reports all others, in the order of their names; on
    -- a dry run the file system is otherwise as it was, else exactly those others were removed from
    -- it, with their records and logs, one after the other.
    pub gc_lem :
        gc backend db depth fuel opts fs ≡ (after, ok report) → GcOutcome depth opts fs after report
    unfolding gc
    gc_lem h =
        elim (Bool-cases (
          ltb 0 (length (entries_or_none (backend.read_dir fs (locks_dir db))))
          && not opts.force)) [
            | inl e ↦ refused (rw e at h)
            | inr e ↦ rooted_case (collect_roots backend db depth fs) refl (rw e at h)
          ]
