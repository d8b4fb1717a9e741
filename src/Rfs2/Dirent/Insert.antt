-- ===== src/Rfs2/Dirent/Insert.antt =====
-- `insert` adds one entry to the directory, in a hole or in the slack of a live entry.
use pureshade_os.Base.{
  ℕ, ◌+◌, ◌-◌, ◌%◌, ◌^◌, ◌≤◌, ◌<◌, ◌≡◌, refl, inl, inr, Bool, true, false, ◌&&◌, List, [], ◌∷◌,
  arith, length, ◌==◌, leb, leb→le, le→leb, ne→not_==, if◌then◌else◌, subst, sym, ap, ◌∙◌,
}
use pureshade_os.Base.Bytes.{span}
use pureshade_os.Base.Names.{Name}
use pureshade_os.Base.Result.{ok}
use pureshade_os.Base.Writes.{le_at, written, length-written, span-written_apart}
use pureshade_os.Rfs2.Layout.{block_size}
use pureshade_os.Rfs2.Dirent.{
  Dirent, dirent_hdr, name_max, align4, is_live, used_of, entry_writes, write_entry, parse_block,
  insert_in, insert,
}
use pureshade_os.Rfs2.Dirent.Chain.{Chain}
use pureshade_os.Rfs2.Dirent.Segments.{Agree, IsRecord-Agree, Chain-Agree, parse_block_iff}
use pureshade_os.Rfs2.Dirent.Outcome.{Outcome, either_Outcome, Outcome-cons, Outcome-written}
use pureshade_os.Rfs2.Dirent.Remove.{IsRecord-rec_len}
use pureshade_os.Rfs2.Dirent.Entry.{Entry, entry_at, entry-Bounded, IsRecord-entry}

-- The two places that an entry of that many bytes can take.
abbrev pub is_roomy_hole : ℕ → Dirent → Bool
is_roomy_hole needed d = d.inode == 0 && leb needed d.rec_len

abbrev pub has_slack : ℕ → Dirent → Bool
has_slack needed d = is_live d && leb needed (d.rec_len - used_of d)

module _ (ino ftype : ℕ) (name : Name) where
  abbrev needed : ℕ
  needed = align4 (dirent_hdr + length name)

  -- The records with the new entry: in the first hole that is large enough, or behind the first live
  -- entry that has enough slack, whichever comes first.
  abbrev pub inserted : List Dirent → List Dirent
  inserted [] = []
  inserted (d ∷ ds) =
      if is_roomy_hole needed d
      then entry_at d.offset d.rec_len ino ftype name ∷ ds
      else if has_slack needed d
      then record d { rec_len = used_of d }
        ∷ entry_at (d.offset + used_of d) (d.rec_len - used_of d) ino ftype name
        ∷ ds
      else d ∷ inserted ds

  abbrev pub has_room : List Dirent → Bool
  has_room [] = false
  has_room (d ∷ ds) =
      if is_roomy_hole needed d then true else if has_slack needed d then true else has_room ds

  -- The block with the entry in a hole at `o`, the records after a split at `o`, and its block.
  abbrev reused_block : List ℕ → ℕ → Dirent → List ℕ × Bool
  reused_block b o d = (write_entry b o d.rec_len ino ftype name, true)

  abbrev after_split : ℕ → Dirent → List Dirent → List Dirent
  after_split o d ds =
      record d { rec_len = used_of d }
      ∷ entry_at (o + used_of d) (d.rec_len - used_of d) ino ftype name
      ∷ ds

  abbrev split_block : List ℕ → ℕ → Dirent → List ℕ × Bool
  split_block b o d = (
    write_entry (written (le_at 2 (o + 8) (used_of d) ∷ []) b) (o + used_of d)
        (d.rec_len - used_of d) ino ftype name,
    true,
  )

  module _ (small_ino : ino < 256 ^ 8) (small_type : ftype < 256) (some_name : 0 < length name)
      (short_name : length name ≤ name_max) where
    Entry-for :
        (off len : ℕ)
        → len % 4 ≡ 0
        → off + len ≤ block_size
        → needed ≤ len
        → Entry off len ino ftype name
    Entry-for off len a i n = record {
      small_ino = small_ino;
      small_type = small_type;
      some_name = some_name;
      short_name = short_name;
      aligned = a;
      inside = i;
      room = omega arith;
    }

    both_true : (a c : Bool) → (a && c) ≡ true → c ≡ true
    both_true a c h = ground arith

    reuse_lem :
        (b : List ℕ) (off : ℕ) (d : Dirent) (ds : List Dirent)
        → length b ≡ block_size
        → Chain b off (d ∷ ds)
        → needed ≤ d.rec_len
        → Outcome b off (entry_at off d.rec_len ino ftype name ∷ ds) true (reused_block b off d)
    unfolding write_entry
    reuse_lem b off d ds l c n =
        let i = c.0 in
        let v = Entry-for off d.rec_len i.aligned i.inside n in
        Outcome-written (entry_writes off d.rec_len ino ftype name) b off (off + d.rec_len)
          (entry_at off d.rec_len ino ftype name) ds (entry-Bounded off d.rec_len ino ftype name v)
          (omega arith) c.1 (IsRecord-entry off d.rec_len ino ftype name v b l)

    split_lem :
        (b : List ℕ) (off : ℕ) (d : Dirent) (ds : List Dirent)
        → length b ≡ block_size
        → Chain b off (d ∷ ds)
        → needed ≤ d.rec_len - used_of d
        → Outcome b off (after_split off d ds) true (split_block b off d)
    unfolding write_entry
    split_lem b off d ds l c n =
        let i = c.0 in
        let used = used_of d in
        let len = d.rec_len - used in
        let fits = i.name_fits in
        let inside = i.inside in
        let aligned = i.aligned in
        let positive = some_name in
        let shrunk = written (le_at 2 (off + 8) used ∷ []) b in
        let ls : length shrunk ≡ block_size = length-written (le_at 2 (off + 8) used ∷ []) b ∙ l in
        let v = Entry-for (off + used) len (omega arith) (omega arith) n in
        let ws = entry_writes (off + used) len ino ftype name in
        let bound = entry-Bounded (off + used) len ino ftype name v in
        let whole : off + used + len ≡ off + d.rec_len = omega arith in
        let first = IsRecord-rec_len b off used d l i (omega arith) (omega arith) (omega arith) in
        let before : (k n : ℕ) → k + n ≤ off → span (written ws shrunk) k n ≡ span b k n = λ k n q.
          span-written_apart ws shrunk (off + used) (off + used + len) k n bound (inl (omega arith))
          ∙ span-written_apart (le_at 2 (off + 8) used ∷ []) b (off + 8) (off + 10) k n
              (omega arith, omega arith, tt) (inl (omega arith)) in
        let behind : Agree b (written ws shrunk) (off + d.rec_len) block_size = λ k n p q.
          span-written_apart ws shrunk (off + used) (off + used + len) k n bound (inr (omega arith))
          ∙ span-written_apart (le_at 2 (off + 8) used ∷ []) b (off + 8) (off + 10) k n
              (omega arith, omega arith, tt) (inr (omega arith)) in
        (
          (
            IsRecord-Agree shrunk (written ws shrunk) off (record d { rec_len = used }) first
                (λ k n p q.
                  span-written_apart ws shrunk (off + used) (off + used + len) k n bound (inl q)),
            (
              IsRecord-entry (off + used) len ino ftype name v shrunk ls,
              subst (λ o. Chain (written ws shrunk) o ds) (sym whole)
                  (Chain-Agree b (written ws shrunk) (off + d.rec_len) ds c.1 behind),
            ),
          ),
          λ k n p q. before k n q,
          length-written ws shrunk ∙ length-written (le_at 2 (off + 8) used ∷ []) b,
          refl,
        )

    insert_in_lem :
        (b : List ℕ) (off : ℕ) (ds : List Dirent)
        → length b ≡ block_size
        → Chain b off ds
        → Outcome b off (inserted ds) (has_room ds) (insert_in b ino ftype name ds)
    unfolding insert_in
    insert_in_lem b off [] l c = (c, λ k n p q. refl, refl, refl)
    insert_in_lem b off (d ∷ ds) l c =
        let later = insert_in b ino ftype name ds in
        let slack = has_slack needed d in
        either_Outcome (is_roomy_hole needed d) b off
          (entry_at d.offset d.rec_len ino ftype name ∷ ds)
          (if slack then after_split d.offset d ds else d ∷ inserted ds) true
          (if slack then true else has_room ds) (reused_block b d.offset d)
          (if slack then split_block b d.offset d else later)
          (λ e.
            subst
              (λ o.
                Outcome b off (entry_at o d.rec_len ino ftype name ∷ ds) true (reused_block b o d))
              (sym c.0.offset)
              (reuse_lem b off d ds l c
                (leb→le needed d.rec_len (both_true (d.inode == 0) (leb needed d.rec_len) e))))
          (λ e.
            either_Outcome slack b off (after_split d.offset d ds) (d ∷ inserted ds) true
              (has_room ds) (split_block b d.offset d) later
              (λ f.
                subst (λ o. Outcome b off (after_split o d ds) true (split_block b o d))
                  (sym c.0.offset)
                  (split_lem b off d ds l c (
                    leb→le needed (d.rec_len - used_of d)
                      (both_true (is_live d) (leb needed (d.rec_len - used_of d)) f))))
              (λ f.
                Outcome-cons b off d (inserted ds) (has_room ds) later c.0
                  (insert_in_lem b (off + d.rec_len) ds l c.1)))

    -- Inserting an inode, a type and a name of 1 to 255 bytes that fit their fields into a well-formed
    -- directory block: the answer says whether there was room, and the block afterwards parses to
    -- the same records with the new entry in the first hole that is large enough, or behind the first
    -- live entry with enough slack, which is shortened to what it uses, whichever comes first; the
    -- same records without room.
    pub insert_lem :
        (b : List ℕ) (ds : List Dirent)
        → length b ≡ block_size
        → parse_block b ≡ ok ds
        → (c : List ℕ) × (insert b ino ftype name ≡ ok (c, has_room ds))
          × (parse_block c ≡ ok (inserted ds))
    unfolding insert
    insert_lem b ds l e =
        let o = insert_in_lem b 0 ds l ((parse_block_iff b ds l).0 e) in
        let r = insert_in b ino ftype name ds in
        let some : (length name == 0) ≡ false = ne→not_== (length name) 0 (λ q. omega (arith, q)) in
        let short = le→leb (length name) name_max short_name in
        (
          r.0,
          rw (some, short, e) (ap (λ a. ok (r.0, a)) o.3),
          (parse_block_iff r.0 (inserted ds) (o.2 ∙ l)).1 o.0,
        )
