-- ===== src/Rfs2/Dirent/Retarget.antt =====
-- `retarget` changes the inode of one entry, and nothing else of the directory.
use pureshade_os.Base.{
  ℕ, ◌+◌, ◌^◌, ◌≤◌, ◌<◌, ◌≡◌, refl, inr, Bool, true, false, List, [], ◌∷◌, arith, length, ==_refl,
  if◌then◌else◌, subst, sym, ap, ◌∙◌,
}
use pureshade_os.Base.Bytes.{span}
use pureshade_os.Base.Names.{Name}
use pureshade_os.Base.Little.{of_le}
use pureshade_os.Base.Result.{ok}
use pureshade_os.Base.Writes.{le_at, written, Sized, of_le-found, span-written_apart}
use pureshade_os.Rfs2.Layout.{block_size, read_le}
use pureshade_os.Rfs2.Dirent.{Dirent, dirent_hdr, is_named, parse_block, retarget_in, retarget}
use pureshade_os.Rfs2.Dirent.Record.{IsRecord}
use pureshade_os.Rfs2.Dirent.Chain.{Chain}
use pureshade_os.Rfs2.Dirent.Segments.{parse_block_iff}
use pureshade_os.Rfs2.Dirent.Outcome.{
  Outcome, live_named, either_Outcome, Outcome-cons, Outcome-written,
}

-- The first live entry of the name, with the new inode.
abbrev pub repointed : Name → ℕ → List Dirent → List Dirent
repointed name ino [] = []
repointed name ino (d ∷ ds) =
    if is_named name d then record d { inode = ino } ∷ ds else d ∷ repointed name ino ds

abbrev pub any_named : Name → List Dirent → Bool
any_named name [] = false
any_named name (d ∷ ds) = if is_named name d then true else any_named name ds

-- The record with the new inode.
IsRecord-inode :
    (b : List ℕ) (off ino : ℕ) (d : Dirent)
    → length b ≡ block_size
    → ino < 256 ^ 8
    → 0 < length d.name
    → IsRecord b off d
    → IsRecord (written (le_at 8 off ino ∷ []) b) off (record d { inode = ino })
IsRecord-inode b off ino d l f p i =
    let ws = le_at 8 off ino ∷ [] in
    let h = i.header in
    let inside = i.inside in
    let fits = i.name_fits in
    let n = i.name_len in
    let sized : Sized (length b) ws = (refl, omega (arith, l), tt) in
    let kept : (k n : ℕ) → off + 8 ≤ k → span (written ws b) k n ≡ span b k n =
      λ k n q. span-written_apart ws b off (off + 8) k n (omega arith, omega arith, tt) (inr q) in
    let len : read_le 1 (off + 10) (written ws b) ≡ read_le 1 (off + 10) b =
      ap of_le (kept (off + 10) 1 (omega arith)) in
    record {
      offset = i.offset;
      inode = sym (of_le-found ws b off 8 ino sized (rw (==_refl off) refl) f);
      rec_len = i.rec_len ∙ ap of_le (sym (kept (off + 8) 2 (omega arith)));
      file_type = i.file_type ∙ ap of_le (sym (kept (off + 11) 1 (omega arith)));
      name =
          i.name
          ∙ sym (kept (off + dirent_hdr) (read_le 1 (off + 10) b) (omega arith))
          ∙ ap (λ k. span (written ws b) (off + dirent_hdr) k) (sym len);
      name_len = i.name_len ∙ sym len;
      header = i.header;
      aligned = i.aligned;
      inside = i.inside;
      name_fits = i.name_fits;
      named = inr p;
    }

module _ (name : Name) (ino : ℕ) (f : ino < 256 ^ 8) where
  retarget_in_lem :
      (b : List ℕ) (off : ℕ) (ds : List Dirent)
      → length b ≡ block_size
      → Chain b off ds
      → Outcome b off (repointed name ino ds) (any_named name ds) (retarget_in b name ino ds)
  unfolding retarget_in
  retarget_in_lem b off [] l c = (c, λ k n p q. refl, refl, refl)
  retarget_in_lem b off (d ∷ ds) l c =
      either_Outcome (is_named name d) b off (record d { inode = ino } ∷ ds)
        (d ∷ repointed name ino ds) true (any_named name ds)
        (written (le_at 8 d.offset ino ∷ []) b, true) (retarget_in b name ino ds) here
        (λ e.
          Outcome-cons b off d (repointed name ino ds) (any_named name ds)
            (retarget_in b name ino ds) c.0 (retarget_in_lem b (off + d.rec_len) ds l c.1))
    where
      here :
          is_named name d ≡ true
          → Outcome b off
              (record d { inode = ino } ∷ ds)
              true
              (written (le_at 8 d.offset ino ∷ []) b, true)
      here e =
          let i = c.0 in
          let h = i.header in
          subst
            (λ o.
              Outcome b off (record d { inode = ino } ∷ ds) true
                (written (le_at 8 o ino ∷ []) b, true))
            (sym i.offset)
            (Outcome-written (le_at 8 off ino ∷ []) b off (off + 8) (record d { inode = ino }) ds
              (omega arith, omega arith, tt) (omega arith) c.1
              (IsRecord-inode b off ino d l f (live_named b off name d i e) i))

  -- Pointing a name of a well-formed directory block at an inode: the answer says whether the name was
  -- there, and the block afterwards parses to the same records, the first live one of that name with
  -- the new inode.
  pub retarget_lem :
      (b : List ℕ) (ds : List Dirent)
      → length b ≡ block_size
      → parse_block b ≡ ok ds
      → (c : List ℕ) × (retarget b name ino ≡ ok (c, any_named name ds))
        × (parse_block c ≡ ok (repointed name ino ds))
  unfolding retarget
  retarget_lem b ds l e =
      let o = retarget_in_lem b 0 ds l ((parse_block_iff b ds l).0 e) in
      let r = retarget_in b name ino ds in
      (
        r.0,
        rw e (ap (λ a. ok (r.0, a)) o.3),
        (parse_block_iff r.0 (repointed name ino ds) (o.2 ∙ l)).1 o.0,
      )
