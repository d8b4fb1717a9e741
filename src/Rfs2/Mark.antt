-- ===== src/Rfs2/Mark.antt =====
-- fs/rfs2/src/space.rs: the mark phase of a mount, which finds the blocks that a tree reaches.
pub mod Reach
pub mod Sweep
pub mod Complete
pub mod Tests
use pureshade_os.Base.{
  ℕ, zero, suc, ◌+◌, ◌*◌, ◌/◌, Bool, not, ◌&&◌, List, length, ltb, if◌then◌else◌,
}
use pureshade_os.Base.Bytes.{span}
use pureshade_os.Base.Result.{Result, ok, err}
use pureshade_os.Rfs2.Layout.{Error, BlockPtr, is_null, inode_size}
use pureshade_os.Rfs2.Inode.{Inode, is_used, is_fast_symlink, decode}
use pureshade_os.Rfs2.Device.{BlockDevice}
use pureshade_os.Rfs2.Transform.{BlockTransform}
use pureshade_os.Rfs2.Space.{Bitmap, set_bit}
use pureshade_os.Rfs2.Map.{fanout, inodes_per_leaf, read_ptr, ptr_at, and_then}

-- What ends a mark early: an error, or the bounds check of the bitmap's words.
pub data Fault : Type 0 where
  error : Error → Fault
  panic : Fault

unfoldable pub opened {ℓ} : {A : Type ℓ} → Result Error A → Result Fault A
opened (ok a) = ok a
opened (err e) = err (error e)

-- The bitmap and the count, which the functions change in place.
pub record Marks : Type 0 where
  pub bits : Bitmap
  pub count : ℕ

abbrev pub Marked : Type 0
Marked = Marks × Result Fault (Unit {0})

-- The loop over `0..n`, from `i` on with `n` rounds left, which ends at the first error.
unfoldable pub for_each : (ℕ → Marks → Marked) → ℕ → ℕ → Marks → Marked
for_each f i zero m = (m, ok tt)
for_each f i (suc n) m = and_then (f i m) (λ m done. for_each f (i + 1) n m)

-- A block is marked and counted; where it was marked before, the rest is left out.
unfoldable pub visit : BlockPtr → (Marks → Marked) → Marks → Marked
visit p rest m =
    if is_null p
    then (m, ok tt)
    else if not (ltb (p.block / 64) (length m.bits.words))
    then (m, err panic)
    else if (set_bit m.bits p.block).1
    then (record m { bits = (set_bit m.bits p.block).0 }, ok tt)
    else rest (record { bits = (set_bit m.bits p.block).0; count = m.count + 1 })

unfoldable pub inode_at : List ℕ → ℕ → Inode
inode_at buf slot = decode (span buf (slot * inode_size) inode_size)

-- A fast symbolic link has no block map.
unfoldable pub has_map : Inode → Bool
has_map ino = is_used ino && not (is_fast_symlink ino)

module _ {D : Type 0} (device : BlockDevice D) (x : BlockTransform) (dev : D) where
  -- The rest of a visit: the block is opened, and the loop runs over what it holds.
  unfoldable pub with_block : BlockPtr → (List ℕ → Marks → Marked) → Marks → Marked
  with_block p loop m = and_then (m, opened (read_ptr device x dev p)) (λ m buf. loop buf m)

  unfoldable pub mark_bmap : ℕ → BlockPtr → Marks → Marked
  mark_bmap zero p = visit p (with_block p (λ buf m. (m, ok tt)))
  mark_bmap (suc n) p =
      visit p (with_block p (λ buf. for_each (λ i. mark_bmap n (ptr_at buf i)) 0 fanout))

  unfoldable pub mark_slot : List ℕ → ℕ → Marks → Marked
  mark_slot buf slot m =
      let ino = inode_at buf slot in
      if has_map ino then mark_bmap ino.bmap_height ino.bmap_root m else (m, ok tt)

  unfoldable pub mark_imap : ℕ → BlockPtr → Marks → Marked
  mark_imap zero p = visit p (with_block p (λ buf. for_each (mark_slot buf) 0 inodes_per_leaf))
  mark_imap (suc n) p =
      visit p (with_block p (λ buf. for_each (λ i. mark_imap n (ptr_at buf i)) 0 fanout))

  unfoldable pub mark_tree : BlockPtr → ℕ → Bitmap → Marks × Result Fault ℕ
  mark_tree root height bits =
      and_then (mark_imap height root (record { bits = bits; count = 0 }))
        (λ m done. (m, ok m.count))
