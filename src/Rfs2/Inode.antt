-- ===== src/Rfs2/Inode.antt =====
-- fs/rfs2/src/inode.rs: the inode of 128 bytes.
use pureshade_os.Base.{ℕ, Bool, true, false, not, List, [], ◌∷◌, replicate, ◌==◌, if◌then◌else◌}
use Prim.Native.Nat.{bit_and}
use pureshade_os.Base.Bytes.{span}
use pureshade_os.Base.Writes.{Write, bytes_at, le_at, written}
use pureshade_os.Rfs2.Layout.{
  BlockPtr, null_ptr, to_bytes, from_bytes, read_le, inode_size, block_ptr_size, inline_symlink_max,
}
pub mod Roundtrip

abbrev pub flag_used : ℕ
flag_used = 1

abbrev pub flag_fast_symlink : ℕ
flag_fast_symlink = 2

-- The file type in the mode, in octal 170000, 100000, 040000 and 120000.
abbrev pub s_ifmt : ℕ
s_ifmt = 61440

abbrev pub s_ifreg : ℕ
s_ifreg = 32768

abbrev pub s_ifdir : ℕ
s_ifdir = 16384

abbrev pub s_iflnk : ℕ
s_iflnk = 40960

pub record Inode : Type 0 where
  pub mode : ℕ
  pub flags : ℕ
  pub uid : ℕ
  pub gid : ℕ
  pub nlink : ℕ
  pub size : ℕ
  pub blocks : ℕ
  pub mtime : ℕ
  pub ctime : ℕ
  pub atime : ℕ
  pub btime : ℕ
  pub inode_gen : ℕ
  pub bmap_height : ℕ
  pub rdev : ℕ
  pub bmap_root : BlockPtr
  pub inline : List ℕ

abbrev pub no_inline : List ℕ
no_inline = replicate inline_symlink_max 0

abbrev pub free_inode : Inode
free_inode = record {
  mode = 0;
  flags = 0;
  uid = 0;
  gid = 0;
  nlink = 0;
  size = 0;
  blocks = 0;
  mtime = 0;
  ctime = 0;
  atime = 0;
  btime = 0;
  inode_gen = 0;
  bmap_height = 0;
  rdev = 0;
  bmap_root = null_ptr;
  inline = no_inline;
}

unfoldable pub is_used : Inode → Bool
is_used i = not (bit_and i.flags flag_used == 0)

unfoldable pub is_dir : Inode → Bool
is_dir i = bit_and i.mode s_ifmt == s_ifdir

unfoldable pub is_reg : Inode → Bool
is_reg i = bit_and i.mode s_ifmt == s_ifreg

unfoldable pub is_symlink : Inode → Bool
is_symlink i = bit_and i.mode s_ifmt == s_iflnk

-- The same test is made of the flags that are read from the disk.
unfoldable pub is_fast : ℕ → Bool
is_fast flags = not (bit_and flags flag_fast_symlink == 0)

abbrev pub is_fast_symlink : Inode → Bool
is_fast_symlink i = is_fast i.flags

-- Bytes 80 to 128: the target of a fast symbolic link, or the device number and the block map.
abbrev pub tail_writes : Bool → Inode → List Write
tail_writes true i = bytes_at 80 48 i.inline ∷ []
tail_writes false i = le_at 8 80 i.rdev ∷ bytes_at 96 32 (to_bytes i.bmap_root) ∷ []

abbrev pub inode_writes : Bool → Inode → List Write
inode_writes fast i =
    le_at 2 0 i.mode
    ∷ le_at 2 2 i.flags
    ∷ le_at 4 4 i.uid
    ∷ le_at 4 8 i.gid
    ∷ le_at 4 12 i.nlink
    ∷ le_at 8 16 i.size
    ∷ le_at 8 24 i.blocks
    ∷ le_at 8 32 i.mtime
    ∷ le_at 8 40 i.ctime
    ∷ le_at 8 48 i.atime
    ∷ le_at 8 56 i.btime
    ∷ le_at 8 64 i.inode_gen
    ∷ le_at 1 72 i.bmap_height
    ∷ tail_writes fast i

unfoldable pub encode : Inode → List ℕ
encode i = written (inode_writes (is_fast_symlink i) i) (replicate inode_size 0)

unfoldable pub decode : List ℕ → Inode
decode buf =
    let flags = read_le 2 2 buf in
    let fast = is_fast flags in
    record {
      mode = read_le 2 0 buf;
      flags = flags;
      uid = read_le 4 4 buf;
      gid = read_le 4 8 buf;
      nlink = read_le 4 12 buf;
      size = read_le 8 16 buf;
      blocks = read_le 8 24 buf;
      mtime = read_le 8 32 buf;
      ctime = read_le 8 40 buf;
      atime = read_le 8 48 buf;
      btime = read_le 8 56 buf;
      inode_gen = read_le 8 64 buf;
      bmap_height = read_le 1 72 buf;
      rdev = if fast then 0 else read_le 8 80 buf;
      bmap_root = if fast then null_ptr else from_bytes (span buf 96 block_ptr_size);
      inline = if fast then span buf 80 inline_symlink_max else no_inline;
    }
