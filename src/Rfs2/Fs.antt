-- ===== src/Rfs2/Fs.antt =====
-- fs/rfs2/src/fs.rs: the mounted file system, its staged changes and their commit.
use pureshade_os.Base.{
  ℕ, zero, suc, ◌+◌, ◌-◌, ◌%◌, Bool, true, false, not, ◌&&◌, ◌||◌, Option, none, some, List, [],
  ◌∷◌, ◌++◌, ◌==◌, ltb, leb, if◌then◌else◌,
}
use pureshade_os.Base.Result.{Result, ok, err}
use pureshade_os.Rfs2.Layout.{
  Error, BlockPtr, is_null, StaticHeader, first_data_block, sb_slot_a, sb_slot_b, gen_limit,
}
use pureshade_os.Rfs2.Device.{BlockDevice}
use pureshade_os.Rfs2.Transform.{BlockTransform, dyn_aad}
use pureshade_os.Rfs2.Superblock.{Superblock, slot_of, write_slot}
use pureshade_os.Rfs2.Space.{Bitmap, get, set_bit, clear, count}
pub mod Alloc
pub mod Staged
pub mod Crash
pub mod Flip
pub mod Mounted
pub mod Rollback
pub mod Disks
pub mod Tests

-- A `BTreeSet` of blocks, as the list of what was put in.
abbrev pub Blocks : Type 0
Blocks = List ℕ

abbrev pub contains : Blocks → ℕ → Bool
contains [] b = false
contains (c ∷ s) b = c == b || contains s b

pub record OpSnapshot : Type 0 where
  pub root : BlockPtr
  pub height : ℕ
  pub next_inode : ℕ
  pub inode_count : ℕ
  pub dirty : Bool
  pub retired : Blocks

-- The transform and the clock are arguments of the operations that use them.
pub record Rfs2 (D : Type 0) : Type 0 where
  pub dev : D
  pub header : StaticHeader
  pub read_only : Bool
  pub sb : Superblock
  pub cur_slot : ℕ
  pub live_cur : Bitmap
  pub live_prev : Bitmap
  pub block_count_mismatch : Bool
  pub staged_root : BlockPtr
  pub staged_height : ℕ
  pub staged_next_inode : ℕ
  pub staged_inode_count : ℕ
  pub dirty : Bool
  pub fresh : Blocks
  pub dropped_fresh : Blocks
  pub retired : Blocks
  pub op_fresh : List ℕ
  pub alloc_cursor : ℕ
  pub pins : List (ℕ × ℕ)

-- The choice of the current superblock in `mount`: with its slot, and the previous one if there is.
unfoldable pub select_current :
    Option Superblock → Option Superblock → Result Error (Superblock × ℕ × Option Superblock)
select_current (some a) (some b) =
    if a.gen == b.gen
    then err Error.corrupt
    else if ltb b.gen a.gen
    then ok (a, sb_slot_a, some b)
    else ok (b, sb_slot_b, some a)
select_current (some a) none = ok (a, sb_slot_a, none)
select_current none (some b) = ok (b, sb_slot_b, none)
select_current none none = err Error.no_superblock

-- What steps 3 and 4 of `mount` find on a medium.
abbrev pub mounted :
    BlockTransform → StaticHeader → (ℕ → List ℕ) → Result Error (Superblock × ℕ × Option Superblock)
mounted x h medium =
    select_current (slot_of x sb_slot_a h (medium sb_slot_a))
      (slot_of x sb_slot_b h (medium sb_slot_b))

module _ {D : Type 0} where
  -- The generation stays below its limit, so that it does not wrap.
  abbrev pub txn_gen : Rfs2 D → ℕ
  txn_gen fs = fs.sb.gen + 1

  unfoldable pub is_taken : Rfs2 D → ℕ → Bool
  is_taken fs b = get fs.live_cur b || get fs.live_prev b || contains fs.fresh b

  -- The number of blocks of the dynamic region; a device without any is never formatted.
  abbrev pub block_span : Rfs2 D → ℕ
  block_span fs = fs.header.total_blocks - first_data_block

  abbrev pub candidate : Rfs2 D → ℕ → ℕ
  candidate fs i = first_data_block + (fs.alloc_cursor + i) % block_span fs

  -- The loop over `0..span`, from `i` on with `n` rounds left: the round that finds a block.
  unfoldable pub alloc_scan : Rfs2 D → ℕ → ℕ → Option ℕ
  alloc_scan fs i zero = none
  alloc_scan fs i (suc n) =
      let rest = alloc_scan fs (i + 1) n in if is_taken fs (candidate fs i) then rest else some i

  unfoldable pub take_block : Rfs2 D → Option ℕ → Rfs2 D × Result Error ℕ
  take_block fs none = (fs, err Error.no_space)
  take_block fs (some i) = (
    record fs {
      alloc_cursor = (fs.alloc_cursor + i + 1) % block_span fs;
      fresh = candidate fs i ∷ fs.fresh;
      op_fresh = fs.op_fresh ++ (candidate fs i ∷ []);
    },
    ok (candidate fs i),
  )

  unfoldable pub alloc_block : Rfs2 D → Rfs2 D × Result Error ℕ
  alloc_block fs = take_block fs (alloc_scan fs 0 (block_span fs))

  unfoldable pub retire : Rfs2 D → BlockPtr → Rfs2 D
  retire fs p =
      if is_null p
      then fs
      else if contains fs.fresh p.block
      then record fs { dropped_fresh = p.block ∷ fs.dropped_fresh }
      else record fs { retired = p.block ∷ fs.retired }

  unfoldable pub begin_op : Rfs2 D → Rfs2 D × OpSnapshot
  begin_op fs = (
    record fs { op_fresh = [] },
    record {
      root = fs.staged_root;
      height = fs.staged_height;
      next_inode = fs.staged_next_inode;
      inode_count = fs.staged_inode_count;
      dirty = fs.dirty;
      retired = fs.retired;
    },
  )

  unfoldable pub fail_op : Rfs2 D → OpSnapshot → Rfs2 D
  fail_op fs snap = record fs {
    staged_root = snap.root;
    staged_height = snap.height;
    staged_next_inode = snap.next_inode;
    staged_inode_count = snap.inode_count;
    dirty = snap.dirty;
    retired = snap.retired;
    dropped_fresh = fs.op_fresh ++ fs.dropped_fresh;
    op_fresh = [];
  }

  unfoldable pub check_rw : Rfs2 D → Result Error (Unit {0})
  check_rw fs =
      if fs.read_only
      then err Error.read_only
      else if leb gen_limit fs.sb.gen
      then err Error.gen_exhausted
      else ok tt

-- The two loops that make the next live set.
unfoldable pub clear_all : Blocks → Bitmap → Bitmap
clear_all [] bm = bm
clear_all (b ∷ bs) bm = clear_all bs (clear bm b)

unfoldable pub set_kept : Blocks → Blocks → Bitmap → Bitmap
set_kept dropped [] bm = bm
set_kept dropped (b ∷ bs) bm =
    set_kept dropped bs (if contains dropped b then bm else (set_bit bm b).0)

module _ {D : Type 0} (device : BlockDevice D) (x : BlockTransform) where
  unfoldable pub written_fresh :
      Rfs2 D → ℕ → ℕ → List ℕ → D × Result Error (Unit {0}) → Rfs2 D × Result Error BlockPtr
  written_fresh fs b g tag (dev, err e) = (record fs { dev = dev }, err e)
  written_fresh fs b g tag (dev, ok done) =
      (record fs { dev = dev; dirty = true }, ok (record { block = b; gen = g; tag = tag }))

  unfoldable pub seal_and_write : List ℕ → Rfs2 D × Result Error ℕ → Rfs2 D × Result Error BlockPtr
  seal_and_write buf (fs, err e) = (fs, err e)
  seal_and_write buf (fs, ok b) =
      let g = txn_gen fs in
      let sealed = x.encrypt_block b g (dyn_aad b g) buf in
      written_fresh fs b g sealed.0 (device.write_block fs.dev b sealed.1)

  unfoldable pub write_fresh : Rfs2 D → List ℕ → Rfs2 D × Result Error BlockPtr
  write_fresh fs buf = seal_and_write buf (alloc_block fs)

module _ {D : Type 0} where
  unfoldable pub live_new : Rfs2 D → Bitmap
  live_new fs = set_kept fs.dropped_fresh fs.fresh (clear_all fs.retired fs.live_cur)

  abbrev pub target_slot : Rfs2 D → ℕ
  target_slot fs = if fs.cur_slot == sb_slot_a then sb_slot_b else sb_slot_a

  unfoldable pub next_superblock : Rfs2 D → ℕ → Superblock
  next_superblock fs now = record {
    gen = txn_gen fs;
    total_blocks = fs.header.total_blocks;
    inode_map_root = fs.staged_root;
    inode_map_height = fs.staged_height;
    next_inode = fs.staged_next_inode;
    inode_count = fs.staged_inode_count;
    block_count = count (live_new fs);
    commit_time = now;
    uuid = fs.header.uuid;
  }

  -- The rotation of the live trees, after the second barrier.
  unfoldable pub rotated : Rfs2 D → ℕ → D → Rfs2 D
  rotated fs now dev = record fs {
    dev = dev;
    live_prev = fs.live_cur;
    live_cur = live_new fs;
    sb = next_superblock fs now;
    cur_slot = target_slot fs;
    fresh = [];
    dropped_fresh = [];
    retired = [];
    op_fresh = [];
    dirty = false;
  }

module _ {D : Type 0} (device : BlockDevice D) (x : BlockTransform) (now : ℕ) where
  -- The steps of `commit`, each from the answer of the device to the one before.
  unfoldable pub finish : Rfs2 D → D × Result Error (Unit {0}) → Rfs2 D × Result Error (Unit {0})
  finish fs (dev, err e) = (record fs { dev = dev }, err e)
  finish fs (dev, ok done) = (rotated fs now dev, ok tt)

  unfoldable pub second_barrier :
      Rfs2 D → D × Result Error (Unit {0}) → Rfs2 D × Result Error (Unit {0})
  second_barrier fs (dev, err e) = (record fs { dev = dev }, err e)
  second_barrier fs (dev, ok done) = finish fs (device.flush dev)

  unfoldable pub flip : Rfs2 D → D × Result Error (Unit {0}) → Rfs2 D × Result Error (Unit {0})
  flip fs (dev, err e) = (record fs { dev = dev }, err e)
  flip fs (dev, ok done) =
      second_barrier fs (write_slot device x dev (target_slot fs) (next_superblock fs now))

  unfoldable pub commit : Rfs2 D → Rfs2 D × Result Error (Unit {0})
  commit fs =
      if not fs.dirty
      then (fs, ok tt)
      else if leb gen_limit fs.sb.gen
      then (fs, err Error.gen_exhausted)
      else flip fs (device.flush fs.dev)
