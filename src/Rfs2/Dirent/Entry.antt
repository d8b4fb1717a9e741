-- ===== src/Rfs2/Dirent/Entry.antt =====
-- An entry that `write_entry` has written stands in its block.
use pureshade_os.Base.{
  ℕ, ◌+◌, ◌-◌, ◌%◌, ◌^◌, ◌≤◌, ◌<◌, ◌≡◌, refl, inl, inr, List, [], ◌∷◌, arith, length, replicate,
  length-replicate, min, sym, ap, ◌∙◌,
}
use pureshade_os.Base.Bytes.{span, span-overlay_self}
use pureshade_os.Base.Names.{Name}
use pureshade_os.Base.Little.{of_le}
use pureshade_os.Base.Writes.{
  Write, bytes_at, le_at, written, Bounded, of_le-le_at, length-written, span-written_apart,
}
use pureshade_os.Rfs2.Layout.{block_size, read_le}
use pureshade_os.Rfs2.Dirent.{Dirent, dirent_hdr, align4, name_max, entry_writes, write_entry}
use pureshade_os.Rfs2.Dirent.Record.{IsRecord}

-- What an entry needs to be written in full.
pub record Entry (off len ino ftype : ℕ) (name : Name) : Type 0 where
  pub small_ino : ino < 256 ^ 8
  pub small_type : ftype < 256
  pub some_name : 0 < length name
  pub short_name : length name ≤ name_max
  pub aligned : len % 4 ≡ 0
  pub inside : off + len ≤ block_size
  pub room : dirent_hdr + length name ≤ len

abbrev pub entry_at : ℕ → ℕ → ℕ → ℕ → Name → Dirent
entry_at off len ino ftype name = record {
  offset = off;
  inode = ino;
  rec_len = len;
  file_type = ftype;
  name = name;
}

module _ (off len ino ftype : ℕ) (name : Name) (v : Entry off len ino ftype name) where
  abbrev padding : ℕ
  padding = min (align4 (dirent_hdr + length name)) len - (dirent_hdr + length name)

  abbrev pad_write : List Write
  pad_write = bytes_at (off + (dirent_hdr + length name)) padding (replicate padding 0) ∷ []

  abbrev name_writes : List Write
  name_writes = bytes_at (off + dirent_hdr) (length name) name ∷ pad_write

  abbrev type_writes : List Write
  type_writes = le_at 1 (off + 11) ftype ∷ name_writes

  abbrev length_writes : List Write
  length_writes = le_at 1 (off + 10) (length name) ∷ type_writes

  pad-Bounded : Bounded (off + (dirent_hdr + length name)) (off + len) pad_write
  pad-Bounded =
      let r = v.room in
      let p = length-replicate {A = ℕ} padding 0 in (omega arith, omega (arith, p), tt)

  Bounded-weaken :
      (lo low hi : ℕ) (ws : List Write) → lo ≤ low → Bounded low hi ws → Bounded lo hi ws
  Bounded-weaken lo low hi [] h b = tt
  Bounded-weaken lo low hi (w ∷ ws) h b =
      (omega (arith, b.0), b.1, Bounded-weaken lo low hi ws h b.2)

  names-Bounded : Bounded (off + dirent_hdr) (off + len) name_writes
  names-Bounded =
      let r = v.room in
      (
        omega arith,
        omega arith,
        Bounded-weaken (off + dirent_hdr) (off + (dirent_hdr + length name)) (off + len) pad_write
            (omega arith) pad-Bounded,
      )

  types-Bounded : Bounded (off + 11) (off + len) type_writes
  types-Bounded =
      let r = v.room in
      (
        omega arith,
        omega arith,
        Bounded-weaken (off + 11) (off + 12) (off + len) name_writes (omega arith) names-Bounded,
      )

  lengths-Bounded : Bounded (off + 10) (off + len) length_writes
  lengths-Bounded =
      let r = v.room in
      (
        omega arith,
        omega arith,
        Bounded-weaken (off + 10) (off + 11) (off + len) type_writes (omega arith) types-Bounded,
      )

  rest-Bounded : Bounded (off + 8) (off + len) (le_at 2 (off + 8) len ∷ length_writes)
  rest-Bounded =
      let r = v.room in
      (
        omega arith,
        omega arith,
        Bounded-weaken (off + 8) (off + 10) (off + len) length_writes (omega arith) lengths-Bounded,
      )

  pub entry-Bounded : Bounded off (off + len) (entry_writes off len ino ftype name)
  entry-Bounded =
      let r = v.room in
      (
        omega arith,
        omega arith,
        Bounded-weaken off (off + 8) (off + len) (le_at 2 (off + 8) len ∷ length_writes)
            (omega arith) rest-Bounded,
      )

  -- The record that stands where the entry was written.
  pub IsRecord-entry :
      (b : List ℕ)
      → length b ≡ block_size
      → IsRecord (write_entry b off len ino ftype name) off (entry_at off len ino ftype name)
  unfolding write_entry
  IsRecord-entry b l =
      let r = v.room in
      let inside = v.inside in
      let short = v.short_name in
      let b1 = written (le_at 8 off ino ∷ []) b in
      let b2 = written (le_at 2 (off + 8) len ∷ []) b1 in
      let b3 = written (le_at 1 (off + 10) (length name) ∷ []) b2 in
      let b4 = written (le_at 1 (off + 11) ftype ∷ []) b3 in
      let b5 = written (bytes_at (off + dirent_hdr) (length name) name ∷ []) b4 in
      let b6 = written (entry_writes off len ino ftype name) b in
      let l1 : length b1 ≡ block_size = length-written (le_at 8 off ino ∷ []) b ∙ l in
      let l2 : length b2 ≡ block_size = length-written (le_at 2 (off + 8) len ∷ []) b1 ∙ l1 in
      let l3 : length b3 ≡ block_size =
        length-written (le_at 1 (off + 10) (length name) ∷ []) b2 ∙ l2 in
      let l4 : length b4 ≡ block_size = length-written (le_at 1 (off + 11) ftype ∷ []) b3 ∙ l3 in
      let inode_back : read_le 8 off b6 ≡ ino =
        ap of_le (
          span-written_apart (le_at 2 (off + 8) len ∷ length_writes) b1 (off + 8) (off + len) off 8
            rest-Bounded (inl (omega arith)))
        ∙ of_le-le_at 8 off ino b (omega (arith, l)) v.small_ino in
      let len_back : read_le 2 (off + 8) b6 ≡ len =
        ap of_le (
          span-written_apart length_writes b2 (off + 10) (off + len) (off + 8) 2 lengths-Bounded
            (inl (omega arith)))
        ∙ of_le-le_at 2 (off + 8) len b1 (omega (arith, l1)) (omega arith) in
      let name_len_back : read_le 1 (off + 10) b6 ≡ length name =
        ap of_le (
          span-written_apart type_writes b3 (off + 11) (off + len) (off + 10) 1 types-Bounded
            (inl (omega arith)))
        ∙ of_le-le_at 1 (off + 10) (length name) b2 (omega (arith, l2)) (omega arith) in
      let type_back : read_le 1 (off + 11) b6 ≡ ftype =
        ap of_le (
          span-written_apart name_writes b4 (off + dirent_hdr) (off + len) (off + 11) 1
            names-Bounded (inl (omega arith)))
        ∙ of_le-le_at 1 (off + 11) ftype b3 (omega (arith, l3)) v.small_type in
      let name_back : span b6 (off + dirent_hdr) (length name) ≡ name =
        span-written_apart pad_write b5 (off + (dirent_hdr + length name)) (off + len)
          (off + dirent_hdr) (length name) pad-Bounded (inl (omega arith))
        ∙ span-overlay_self b4 (off + dirent_hdr) (length name) name (omega (arith, l4)) refl in
      record {
        offset = refl;
        inode = sym inode_back;
        rec_len = sym len_back;
        file_type = sym type_back;
        name = sym name_back ∙ ap (λ k. span b6 (off + dirent_hdr) k) (sym name_len_back);
        name_len = sym name_len_back;
        header = omega arith;
        aligned = v.aligned;
        inside = v.inside;
        name_fits = v.room;
        named = inr v.some_name;
      }
