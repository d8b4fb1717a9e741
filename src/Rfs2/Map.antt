-- ===== src/Rfs2/Map.antt =====
-- fs/rfs2/src/fs.rs: the inode map and the block maps, trees of blocks of pointers that are
-- rewritten along a path, and never in place.
pub mod Node
pub mod Index
pub mod Fresh
pub mod Placed
pub mod Inodes
pub mod Root
pub mod Grow
pub mod Set
pub mod Staged
pub mod Tests
use pureshade_os.Base.{
  ℕ, zero, suc, ◌+◌, ◌-◌, ◌*◌, ◌/◌, ◌%◌, ◌^◌, Option, none, some, List, replicate, ◌==◌, ltb, leb,
  if◌then◌else◌,
}
use pureshade_os.Base.Bytes.{span, overlay}
use pureshade_os.Base.Result.{Result, ok, err, ◌>>=◌, ok_or}
use pureshade_os.Rfs2.Layout.{
  Error, BlockPtr, null_ptr, is_null, to_bytes, from_bytes, block_size, block_ptr_size, inode_size,
}
use pureshade_os.Rfs2.Inode.{Inode, is_used, encode, decode}
use pureshade_os.Rfs2.Device.{BlockDevice}
use pureshade_os.Rfs2.Transform.{BlockTransform, dyn_aad}
use pureshade_os.Rfs2.Fs.{Rfs2, retire, write_fresh}

abbrev pub fanout : ℕ
fanout = 128

abbrev pub inodes_per_leaf : ℕ
inodes_per_leaf = 32

abbrev pub u64_max : ℕ
u64_max = 2 ^ 64 - 1

-- A checked product of 64 bits with `unwrap_or(u64::MAX)`.
unfoldable pub saturated : ℕ → ℕ
saturated v = if ltb v (2 ^ 64) then v else u64_max

unfoldable pub imap_capacity : ℕ → ℕ
imap_capacity height = saturated (128 ^ (height % 2 ^ 32) * inodes_per_leaf)

-- A shift of a word of 64 bits, whose amount wraps around.
unfoldable pub shift_right : ℕ → ℕ → ℕ
shift_right v n = v / 2 ^ (n % 64)

abbrev pub imap_index : ℕ → ℕ → ℕ
imap_index ino level = shift_right ino (5 + 7 * (level - 1)) % fanout

unfoldable pub ptr_at : List ℕ → ℕ → BlockPtr
ptr_at buf idx = from_bytes (span buf (idx * block_ptr_size) block_ptr_size)

unfoldable pub set_ptr_at : List ℕ → ℕ → BlockPtr → List ℕ
set_ptr_at buf idx p = overlay buf (idx * block_ptr_size) (to_bytes p)

unfoldable pub zero_block : List ℕ
zero_block = replicate block_size 0

-- The bytes of an inode in its leaf.
abbrev pub slot_of_ino : ℕ → ℕ
slot_of_ino ino = ino % inodes_per_leaf * inode_size

unfoldable pub used : Inode → Option Inode
used i = if is_used i then some i else none

unfoldable pub leaf_inode : ℕ → List ℕ → Option Inode
leaf_inode ino buf = used (decode (span buf (slot_of_ino ino) inode_size))

unfoldable pub root_grown : {D : Type 0} → Rfs2 D → BlockPtr → Rfs2 D
root_grown fs p = record fs { staged_root = p; staged_height = suc fs.staged_height }

-- What an operation has changed stays when it answers an error.
abbrev pub and_then {ℓ κ μ ν} :
    {S : Type ℓ} {E : Type ν} {A : Type κ} {B : Type μ}
    → S × Result E A
    → (S → A → S × Result E B)
    → S × Result E B
and_then (s, ok a) k = k s a
and_then (s, err e) k = (s, err e)

module _ {D : Type 0} (device : BlockDevice D) (x : BlockTransform) where
  -- A block that does not open is an error and never read.
  unfoldable pub read_ptr : D → BlockPtr → Result Error (List ℕ)
  read_ptr dev p = device.read_block dev p.block >>= λ buf.
      x.decrypt_block p.block p.gen (dyn_aad p.block p.gen) p.tag buf

  -- The descent of `imap_get`, from a node of that level.
  unfoldable pub imap_find : ℕ → D → BlockPtr → ℕ → Result Error (Option Inode)
  imap_find zero dev p ino =
      if is_null p then ok none else (read_ptr dev p >>= λ buf. ok (leaf_inode ino buf))
  imap_find (suc n) dev p ino =
      if is_null p
      then ok none
      else (read_ptr dev p >>= λ buf. imap_find n dev (ptr_at buf (imap_index ino (suc n))) ino)

  unfoldable pub imap_get : Rfs2 D → ℕ → Result Error (Option Inode)
  imap_get fs ino =
      if leb (imap_capacity fs.staged_height) ino
      then ok none
      else imap_find fs.staged_height fs.dev fs.staged_root ino

  unfoldable pub get_inode_req : Rfs2 D → ℕ → Result Error Inode
  get_inode_req fs ino = imap_get fs ino >>= λ found. ok_or found Error.not_found

  -- The loop that grows the map, with rounds for the heights 0 to 9.
  unfoldable pub grow_imap : ℕ → Rfs2 D → ℕ → Rfs2 D × Result Error (Unit {0})
  grow_imap zero fs ino = (fs, ok tt)
  grow_imap (suc n) fs ino =
      if leb (imap_capacity fs.staged_height) ino
      then and_then (write_fresh device x fs (set_ptr_at zero_block 0 fs.staged_root))
          (λ fs p. grow_imap n (root_grown fs p) ino)
      else (fs, ok tt)

  -- The node to change: of zeros, where there is none yet.
  unfoldable pub load : D → BlockPtr → Result Error (List ℕ)
  load dev p = if is_null p then ok zero_block else read_ptr dev p

  unfoldable pub imap_set_rec : ℕ → Rfs2 D → BlockPtr → ℕ → List ℕ → Rfs2 D × Result Error BlockPtr
  imap_set_rec zero fs p ino bytes =
      and_then (fs, load fs.dev p)
        (λ fs buf. write_fresh device x (retire fs p) (overlay buf (slot_of_ino ino) bytes))
  imap_set_rec (suc n) fs p ino bytes =
      and_then (fs, load fs.dev p)
        (λ fs buf.
          let idx = imap_index ino (suc n) in
          and_then (imap_set_rec n (retire fs p) (ptr_at buf idx) ino bytes)
            (λ fs child. write_fresh device x fs (set_ptr_at buf idx child)))

  unfoldable pub imap_set : Rfs2 D → ℕ → Inode → Rfs2 D × Result Error (Unit {0})
  imap_set fs ino inode = and_then (grow_imap 10 fs ino) (λ fs done.
      and_then (imap_set_rec fs.staged_height fs fs.staged_root ino (encode inode))
        (λ fs root. (record fs { staged_root = root }, ok tt)))
