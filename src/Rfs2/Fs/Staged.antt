-- ===== src/Rfs2/Fs/Staged.antt =====
-- The steps of staging changes, and what holds while they are staged (fs/rfs2/src/fs.rs).
use pureshade_os.Base.{ℕ, ◌<◌, ◌≡◌, ◌⊎◌, true, false, ◌||◌, List}
use pureshade_os.Rfs2.Layout.{BlockPtr, first_data_block}
use pureshade_os.Rfs2.Device.{BlockDevice}
use pureshade_os.Rfs2.Transform.{BlockTransform}
use pureshade_os.Rfs2.Space.{get}
use pureshade_os.Rfs2.Fs.{
  Rfs2, OpSnapshot, contains, block_span, retire, begin_op, fail_op, write_fresh,
}
use pureshade_os.Rfs2.Fs.Alloc.{InRegion}

-- The blocks before the dynamic region, and those of the two live trees.
abbrev pub Kept : {D : Type 0} → Rfs2 D → ℕ → Type 0
Kept fs c = (c < first_data_block) ⊎ ((get fs.live_cur c || get fs.live_prev c) ≡ true)

module _ {D : Type 0} (device : BlockDevice D) (x : BlockTransform) (cells : D → ℕ → List ℕ)
    (Survives : D → (ℕ → List ℕ) → Type 0) where
  -- The committed part of the file system, and what is known of the staged one.
  pub record Staged (base : ℕ → List ℕ) (old fs : Rfs2 D) : Type 0 where
    pub header : fs.header ≡ old.header
    pub sb : fs.sb ≡ old.sb
    pub cur_slot : fs.cur_slot ≡ old.cur_slot
    pub live_cur : fs.live_cur ≡ old.live_cur
    pub live_prev : fs.live_prev ≡ old.live_prev
    pub cursor : fs.alloc_cursor < block_span old
    pub pending :
        (b : ℕ)
        → contains fs.fresh b ≡ true
        → InRegion old b × ((get old.live_cur b || get old.live_prev b) ≡ false)
    pub read : (c : ℕ) → Kept old c → cells fs.dev c ≡ base c
    pub durable : (e : ℕ → List ℕ) → Survives fs.dev e → (c : ℕ) → Kept old c → e c ≡ base c

module _ {D : Type 0} (device : BlockDevice D) (x : BlockTransform) where
  -- The steps of an operation that is staged.
  pub data Step : Rfs2 D → Rfs2 D → Type 0 where
    write : (fs : Rfs2 D) (buf : List ℕ) → Step fs (write_fresh device x fs buf).0
    drop_ptr : (fs : Rfs2 D) (p : BlockPtr) → Step fs (retire fs p)
    begin : (fs : Rfs2 D) → Step fs (begin_op fs).0
    fail : (fs : Rfs2 D) (snap : OpSnapshot) → Step fs (fail_op fs snap)
    stage :
        (fs : Rfs2 D) (root : BlockPtr) (height next_inode inode_count : ℕ)
        → Step fs (record fs {
          staged_root = root;
          staged_height = height;
          staged_next_inode = next_inode;
          staged_inode_count = inode_count;
        })

  pub data Steps (old : Rfs2 D) : Rfs2 D → Type 0 where
    none_yet : Steps old old
    more : {fs after : Rfs2 D} → Steps old fs → Step fs after → Steps old after
