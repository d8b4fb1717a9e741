-- ===== src/Rfs2/Dirent/Remove.antt =====
-- `remove` takes one entry out of the directory, and changes nothing else of it.
use pureshade_os.Base.{
  ℕ, ◌+◌, ◌≤◌, ◌≡◌, refl, ◌⊎◌, inl, inr, true, List, [], ◌∷◌, none, some, arith, ◌%◌, length,
  ==_refl, if◌then◌else◌, subst, sym, ap, ◌∙◌,
}
use pureshade_os.Base.Bytes.{span}
use pureshade_os.Base.Names.{Name}
use pureshade_os.Base.Little.{of_le}
use pureshade_os.Base.Result.{ok}
use pureshade_os.Base.Writes.{
  le_at, written, Sized, of_le-found, of_le-le_at, length-written, span-written_apart,
}
use pureshade_os.Rfs2.Layout.{block_size, read_le}
use pureshade_os.Rfs2.Dirent.{Dirent, dirent_hdr, is_named, parse_block, remove_in, remove}
use pureshade_os.Rfs2.Dirent.Record.{IsRecord}
use pureshade_os.Rfs2.Dirent.Chain.{Chain}
use pureshade_os.Rfs2.Dirent.Segments.{parse_block_iff}
use pureshade_os.Rfs2.Dirent.Outcome.{Outcome, either_Outcome, Outcome-cons, Outcome-written}
use pureshade_os.Rfs2.Dirent.Retarget.{any_named}

-- The record `p` and those behind it, the first live one of the name merged into the one before it.
abbrev pub merged : Name → Dirent → List Dirent → List Dirent
merged name p [] = p ∷ []
merged name p (d ∷ ds) =
    if is_named name d
    then record p { rec_len = p.rec_len + d.rec_len } ∷ ds
    else p ∷ merged name d ds

abbrev pub hole_of : Dirent → Dirent
hole_of d = record d { inode = 0; file_type = 0; name = [] }

-- The records without the first live one of the name, which becomes a hole where it is the first.
abbrev pub removed : Name → List Dirent → List Dirent
removed name [] = []
removed name (d ∷ ds) = if is_named name d then hole_of d ∷ ds else merged name d ds

-- The record with another length.
pub IsRecord-rec_len :
    (b : List ℕ) (off len : ℕ) (d : Dirent)
    → length b ≡ block_size
    → IsRecord b off d
    → len % 4 ≡ 0
    → off + len ≤ block_size
    → dirent_hdr + length d.name ≤ len
    → IsRecord (written (le_at 2 (off + 8) len ∷ []) b) off (record d { rec_len = len })
IsRecord-rec_len b off len d l i m inside fits =
    let ws = le_at 2 (off + 8) len ∷ [] in
    let n = i.name_len in
    let sized : Sized (length b) ws = (refl, omega (arith, l), tt) in
    let before : span (written ws b) off 8 ≡ span b off 8 =
      span-written_apart ws b (off + 8) (off + 10) off 8 (omega arith, omega arith, tt)
        (inl (omega arith)) in
    let kept : (k n : ℕ) → off + 10 ≤ k → span (written ws b) k n ≡ span b k n = λ k n q.
      span-written_apart ws b (off + 8) (off + 10) k n (omega arith, omega arith, tt) (inr q) in
    let name_back : read_le 1 (off + 10) (written ws b) ≡ read_le 1 (off + 10) b =
      ap of_le (kept (off + 10) 1 (omega arith)) in
    record {
      offset = i.offset;
      inode = i.inode ∙ ap of_le (sym before);
      rec_len =
          sym (of_le-found ws b (off + 8) 2 len sized (rw (==_refl (off + 8)) refl) (omega arith));
      file_type = i.file_type ∙ ap of_le (sym (kept (off + 11) 1 (omega arith)));
      name =
          i.name
          ∙ sym (kept (off + dirent_hdr) (read_le 1 (off + 10) b) (omega arith))
          ∙ ap (λ k. span (written ws b) (off + dirent_hdr) k) (sym name_back);
      name_len = i.name_len ∙ sym name_back;
      header = omega arith;
      aligned = m;
      inside = inside;
      name_fits = fits;
      named = i.named;
    }

IsRecord-hole :
    (b : List ℕ) (off : ℕ) (d : Dirent)
    → length b ≡ block_size
    → IsRecord b off d
    → IsRecord
        (written (le_at 8 off 0 ∷ le_at 1 (off + 10) 0 ∷ le_at 1 (off + 11) 0 ∷ []) b)
        off
        (hole_of d)
IsRecord-hole b off d l i =
    let h = i.header in
    let inside = i.inside in
    let x = le_at 8 off 0 ∷ [] in
    let y = le_at 1 (off + 10) 0 ∷ [] in
    let z = le_at 1 (off + 11) 0 ∷ [] in
    let bx = written x b in
    let by = written y bx in
    let bz = written z by in
    let lx : length bx ≡ block_size = length-written x b ∙ l in
    let ly : length by ≡ block_size = length-written y bx ∙ lx in
    let skip_z : (k n : ℕ) → (k + n ≤ off + 11) ⊎ (off + 12 ≤ k) → span bz k n ≡ span by k n =
      λ k n a. span-written_apart z by (off + 11) (off + 12) k n (omega arith, omega arith, tt) a in
    let skip_y : (k n : ℕ) → (k + n ≤ off + 10) ⊎ (off + 11 ≤ k) → span by k n ≡ span bx k n =
      λ k n a. span-written_apart y bx (off + 10) (off + 11) k n (omega arith, omega arith, tt) a in
    let skip_x : span bx (off + 8) 2 ≡ span b (off + 8) 2 =
      span-written_apart x b off (off + 8) (off + 8) 2 (omega arith, omega arith, tt)
        (inr (omega arith)) in
    let no_inode : read_le 8 off bz ≡ 0 =
      ap of_le (skip_z off 8 (inl (omega arith)) ∙ skip_y off 8 (inl (omega arith)))
      ∙ of_le-le_at 8 off 0 b (omega (arith, l)) (omega arith) in
    let same_len : read_le 2 (off + 8) bz ≡ read_le 2 (off + 8) b =
      ap of_le (
        skip_z (off + 8) 2 (inl (omega arith)) ∙ skip_y (off + 8) 2 (inl (omega arith)) ∙ skip_x) in
    let no_name : read_le 1 (off + 10) bz ≡ 0 =
      ap of_le (skip_z (off + 10) 1 (inl (omega arith)))
      ∙ of_le-le_at 1 (off + 10) 0 bx (omega (arith, lx)) (omega arith) in
    let no_type : read_le 1 (off + 11) bz ≡ 0 =
      of_le-le_at 1 (off + 11) 0 by (omega (arith, ly)) (omega arith) in
    record {
      offset = i.offset;
      inode = sym no_inode;
      rec_len = i.rec_len ∙ sym same_len;
      file_type = sym no_type;
      name = ap (λ k. span bz (off + dirent_hdr) k) (sym no_name);
      name_len = sym no_name;
      header = i.header;
      aligned = i.aligned;
      inside = i.inside;
      name_fits = omega arith;
      named = inl refl;
    }

module _ (name : Name) where
  merge_lem :
      (b : List ℕ) (off : ℕ) (p : Dirent) (ds : List Dirent)
      → length b ≡ block_size
      → Chain b off (p ∷ ds)
      → Outcome b off (merged name p ds) (any_named name ds) (remove_in b name (some p) ds)
  unfolding remove_in
  merge_lem b off p [] l c = (c, λ k n u v. refl, refl, refl)
  merge_lem b off p (d ∷ ds) l c =
      either_Outcome (is_named name d) b off (record p { rec_len = p.rec_len + d.rec_len } ∷ ds)
        (p ∷ merged name d ds) true (any_named name ds)
        (written (le_at 2 (p.offset + 8) (p.rec_len + d.rec_len) ∷ []) b, true)
        (remove_in b name (some d) ds) here
        (λ e.
          Outcome-cons b off p (merged name d ds) (any_named name ds) (remove_in b name (some d) ds)
            c.0 (merge_lem b (off + p.rec_len) d ds l c.1))
    where
      here :
          is_named name d ≡ true
          → Outcome b off
              (record p { rec_len = p.rec_len + d.rec_len } ∷ ds)
              true
              (written (le_at 2 (p.offset + 8) (p.rec_len + d.rec_len) ∷ []) b, true)
      here e =
          let i = c.0 in
          let j = c.1.0 in
          let h = i.header in
          let len = p.rec_len + d.rec_len in
          let m = i.aligned in
          let n = j.aligned in
          let inside = j.inside in
          let fits = i.name_fits in
          subst
            (λ o.
              Outcome b off (record p { rec_len = len } ∷ ds) true
                (written (le_at 2 (o + 8) len ∷ []) b, true))
            (sym i.offset)
            (Outcome-written (le_at 2 (off + 8) len ∷ []) b off (off + 10)
              (record p { rec_len = len }) ds (omega arith, omega arith, tt) (omega arith)
              (subst (λ o. Chain b o ds) (omega arith) c.1.1)
              (IsRecord-rec_len b off len p l i (omega arith) (omega arith) (omega arith)))

  removed_lem :
      (b : List ℕ) (ds : List Dirent)
      → length b ≡ block_size
      → Chain b 0 ds
      → Outcome b 0 (removed name ds) (any_named name ds) (remove_in b name none ds)
  unfolding remove_in
  removed_lem b [] l c = (c, λ k n u v. refl, refl, refl)
  removed_lem b (d ∷ ds) l c =
      either_Outcome (is_named name d) b 0 (hole_of d ∷ ds) (merged name d ds) true
        (any_named name ds)
        (
          written (le_at 8 d.offset 0 ∷ le_at 1 (d.offset + 10) 0 ∷ le_at 1 (d.offset + 11) 0 ∷ [])
              b,
          true,
        )
        (remove_in b name (some d) ds) here (λ e. merge_lem b 0 d ds l c)
    where
      here :
          is_named name d ≡ true
          → Outcome b 0 (hole_of d ∷ ds) true (
            written
                (le_at 8 d.offset 0 ∷ le_at 1 (d.offset + 10) 0 ∷ le_at 1 (d.offset + 11) 0 ∷ [])
                b,
            true,
          )
      here e =
          let i = c.0 in
          let h = i.header in
          subst
            (λ o.
              Outcome b 0 (hole_of d ∷ ds) true
                (written (le_at 8 o 0 ∷ le_at 1 (o + 10) 0 ∷ le_at 1 (o + 11) 0 ∷ []) b, true))
            (sym i.offset)
            (Outcome-written (le_at 8 0 0 ∷ le_at 1 (0 + 10) 0 ∷ le_at 1 (0 + 11) 0 ∷ []) b 0 12
              (hole_of d) ds
              (omega arith, omega arith, (omega arith, omega arith, (omega arith, omega arith, tt)))
              (omega arith) c.1 (IsRecord-hole b 0 d l i))

  -- Removing a name from a well-formed directory block: the answer says whether the name was there,
  -- and the block afterwards parses to the same records, the first live one of that name merged into
  -- the record before it, or made a hole where it is the first of the block.
  pub remove_lem :
      (b : List ℕ) (ds : List Dirent)
      → length b ≡ block_size
      → parse_block b ≡ ok ds
      → (c : List ℕ) × (remove b name ≡ ok (c, any_named name ds))
        × (parse_block c ≡ ok (removed name ds))
  unfolding remove
  remove_lem b ds l e =
      let o = removed_lem b ds l ((parse_block_iff b ds l).0 e) in
      let r = remove_in b name none ds in
      (
        r.0,
        rw e (ap (λ a. ok (r.0, a)) o.3),
        (parse_block_iff r.0 (removed name ds) (o.2 ∙ l)).1 o.0,
      )
