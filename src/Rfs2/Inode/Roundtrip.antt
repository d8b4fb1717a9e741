-- ===== src/Rfs2/Inode/Roundtrip.antt =====
-- An inode survives the disk.
use pureshade_os.Base.{
  ℕ, ◌≡◌, refl, Bool, true, false, some, List, length, replicate, ap, sym, ◌∙◌, inl, inr,
  Bool-cases,
}
use pureshade_os.Base.Bytes.{span}
use pureshade_os.Base.Little.{le}
use pureshade_os.Base.Writes.{
  found, Sized, written, well_sized→Sized, span-found, of_le-found, length-written,
}
use pureshade_os.Rfs2.Layout.{
  null_ptr, to_bytes, from_bytes, read_le, inode_size, inline_symlink_max,
}
use pureshade_os.Rfs2.Layout.Valid.{Fits, Array, PtrFits}
use pureshade_os.Rfs2.Layout.Pointer.{from_bytes-to_bytes, length-to_bytes}
use pureshade_os.Rfs2.Inode.{
  Inode, is_fast, is_fast_symlink, inode_writes, encode, decode, no_inline,
}

-- The fields fit, and of the two uses of the last 48 bytes the one that is not made is zero.
pub record InodeFits (i : Inode) : Type 0 where
  pub mode : Fits 2 i.mode
  pub flags : Fits 2 i.flags
  pub uid : Fits 4 i.uid
  pub gid : Fits 4 i.gid
  pub nlink : Fits 4 i.nlink
  pub size : Fits 8 i.size
  pub blocks : Fits 8 i.blocks
  pub mtime : Fits 8 i.mtime
  pub ctime : Fits 8 i.ctime
  pub atime : Fits 8 i.atime
  pub btime : Fits 8 i.btime
  pub inode_gen : Fits 8 i.inode_gen
  pub bmap_height : Fits 1 i.bmap_height
  pub rdev : Fits 8 i.rdev
  pub bmap_root : PtrFits i.bmap_root
  pub inline : Array inline_symlink_max i.inline
  pub fast : is_fast_symlink i ≡ true → (i.rdev ≡ 0) × (i.bmap_root ≡ null_ptr)
  pub slow : is_fast_symlink i ≡ false → i.inline ≡ no_inline

module _ (i : Inode) (v : InodeFits i) where
  disk : Bool → List ℕ
  disk fast = written (inode_writes fast i) (replicate inode_size 0)

  inode-Sized : (fast : Bool) → Sized inode_size (inode_writes fast i)
  inode-Sized true = well_sized→Sized inode_size (inode_writes true i) (rw (v.inline) refl)
  inode-Sized false =
      well_sized→Sized inode_size (inode_writes false i) (rw (length-to_bytes i.bmap_root) refl)

  number_back :
      (fast : Bool) (n off w : ℕ)
      → found (inode_writes fast i) off n ≡ some (le n w)
      → Fits n w
      → read_le n off (disk fast) ≡ w
  unfolding disk
  number_back fast n off w f l =
      of_le-found (inode_writes fast i) (replicate inode_size 0) off n w (inode-Sized fast) f l

  array_back :
      (fast : Bool) (off n : ℕ) (bs : List ℕ)
      → found (inode_writes fast i) off n ≡ some bs
      → span (disk fast) off n ≡ bs
  unfolding disk
  array_back fast off n bs f =
      span-found (inode_writes fast i) (replicate inode_size 0) off n bs (inode-Sized fast) f

  decode-true : is_fast i.flags ≡ true → decode (disk true) ≡ i
  unfolding decode
  decode-true e =
      let mode_back = number_back true 2 0 i.mode refl v.mode in
      let flags_back = number_back true 2 2 i.flags refl v.flags in
      let uid_back = number_back true 4 4 i.uid refl v.uid in
      let gid_back = number_back true 4 8 i.gid refl v.gid in
      let nlink_back = number_back true 4 12 i.nlink refl v.nlink in
      let size_back = number_back true 8 16 i.size refl v.size in
      let blocks_back = number_back true 8 24 i.blocks refl v.blocks in
      let mtime_back = number_back true 8 32 i.mtime refl v.mtime in
      let ctime_back = number_back true 8 40 i.ctime refl v.ctime in
      let atime_back = number_back true 8 48 i.atime refl v.atime in
      let btime_back = number_back true 8 56 i.btime refl v.btime in
      let inode_gen_back = number_back true 8 64 i.inode_gen refl v.inode_gen in
      let bmap_height_back = number_back true 1 72 i.bmap_height refl v.bmap_height in
      let zeros = v.fast e in
      let inline_back = array_back true 80 48 i.inline refl in
      rw
        (
          mode_back,
          flags_back,
          uid_back,
          gid_back,
          nlink_back,
          size_back,
          blocks_back,
          mtime_back,
          ctime_back,
          atime_back,
          btime_back,
          inode_gen_back,
          bmap_height_back,
          e,
          inline_back,
          sym zeros.1,
          sym zeros.0,
        )
        refl

  decode-false : is_fast i.flags ≡ false → decode (disk false) ≡ i
  unfolding decode
  decode-false e =
      let mode_back = number_back false 2 0 i.mode refl v.mode in
      let flags_back = number_back false 2 2 i.flags refl v.flags in
      let uid_back = number_back false 4 4 i.uid refl v.uid in
      let gid_back = number_back false 4 8 i.gid refl v.gid in
      let nlink_back = number_back false 4 12 i.nlink refl v.nlink in
      let size_back = number_back false 8 16 i.size refl v.size in
      let blocks_back = number_back false 8 24 i.blocks refl v.blocks in
      let mtime_back = number_back false 8 32 i.mtime refl v.mtime in
      let ctime_back = number_back false 8 40 i.ctime refl v.ctime in
      let atime_back = number_back false 8 48 i.atime refl v.atime in
      let btime_back = number_back false 8 56 i.btime refl v.btime in
      let inode_gen_back = number_back false 8 64 i.inode_gen refl v.inode_gen in
      let bmap_height_back = number_back false 1 72 i.bmap_height refl v.bmap_height in
      let rdev_back = number_back false 8 80 i.rdev refl v.rdev in
      let root_back =
        ap from_bytes (array_back false 96 32 (to_bytes i.bmap_root) refl)
        ∙ from_bytes-to_bytes i.bmap_root v.bmap_root in
      rw
        (
          mode_back,
          flags_back,
          uid_back,
          gid_back,
          nlink_back,
          size_back,
          blocks_back,
          mtime_back,
          ctime_back,
          atime_back,
          btime_back,
          inode_gen_back,
          bmap_height_back,
          e,
          rdev_back,
          root_back,
          sym (v.slow e),
        )
        refl

  -- An inode whose fields fit reads back from its 128 bytes as it was.
  pub decode-encode : decode (encode i) ≡ i
  unfolding encode disk
  decode-encode = elim (Bool-cases (is_fast i.flags)) [
    | inl e ↦ ap (λ b. decode (disk b)) e ∙ decode-true e
    | inr e ↦ ap (λ b. decode (disk b)) e ∙ decode-false e
  ]

pub length-encode : (i : Inode) → length (encode i) ≡ inode_size
unfolding encode
length-encode i = length-written (inode_writes (is_fast_symlink i) i) (replicate inode_size 0)
