-- ===== src/Rfs2/Mark/Reach.antt =====
-- The blocks that a tree reaches, whatever the order in which they are visited (fs/rfs2/src/space.rs).
use pureshade_os.Base.{ℕ, zero, suc, ◌<◌, ◌≡◌, true, false, List}
use pureshade_os.Base.Result.{ok}
use pureshade_os.Rfs2.Layout.{BlockPtr, is_null}
use pureshade_os.Rfs2.Device.{BlockDevice}
use pureshade_os.Rfs2.Transform.{BlockTransform}
use pureshade_os.Rfs2.Map.{read_ptr, ptr_at}
use pureshade_os.Rfs2.Mark.{inode_at}
use pureshade_os.Rfs2.Inode.{is_used, is_fast_symlink}

-- What a pointer is read as: a node of the inode map, or of a block map, of a height.
pub data Role : Type 0 where
  map_node : ℕ → Role
  file_node : ℕ → Role

module _ {D : Type 0} (device : BlockDevice D) (x : BlockTransform) (dev : D) where
  -- The pointers in the block of a pointer, with what they are read as.
  abbrev pub Child : Role → BlockPtr → Role → BlockPtr → Type 0
  Child (map_node zero) p r q =
      (buf : List ℕ) × (slot : ℕ) × (read_ptr device x dev p ≡ ok buf)
      × (slot < 32)
      × (is_used (inode_at buf slot) ≡ true)
      × (is_fast_symlink (inode_at buf slot) ≡ false)
      × (r ≡ file_node (inode_at buf slot).bmap_height)
      × (q ≡ (inode_at buf slot).bmap_root)
  Child (map_node (suc n)) p r q =
      (buf : List ℕ) × (i : ℕ) × (read_ptr device x dev p ≡ ok buf)
      × (i < 128)
      × (r ≡ map_node n)
      × (q ≡ ptr_at buf i)
  Child (file_node zero) p r q = ⊥
  Child (file_node (suc n)) p r q =
      (buf : List ℕ) × (i : ℕ) × (read_ptr device x dev p ≡ ok buf)
      × (i < 128)
      × (r ≡ file_node n)
      × (q ≡ ptr_at buf i)

  pub data Reaches (role : Role) (root : BlockPtr) : Role → BlockPtr → Type 0 where
    here : Reaches role root role root
    down :
        {r s : Role} {p q : BlockPtr}
        → Reaches role root r p
        → is_null p ≡ false
        → Child r p s q
        → Reaches role root s q
