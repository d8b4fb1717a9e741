-- ===== src/Rfs2/Fs/Tests.antt =====
-- The volume on a device in memory, and the file system's theorems at it.
use pureshade_os.Base.{
  ℕ, ◌+◌, ◌<◌, ◌≡◌, ◌≢◌, refl, sym, ◌∙◌, subst, ◌⊎◌, inl, inr, true, false, Option, none, some,
  List, [], ◌∷◌, arith, replicate, ◌==◌, ==_refl, if◌then◌else◌,
}
use pureshade_os.Base.Result.{ok}
use pureshade_os.Base.Names.{same_name}
use pureshade_os.Rfs2.Transform.{identity, open_superblock}
use pureshade_os.Rfs2.Transform.Laws.{identity-IsLawful}
use pureshade_os.Rfs2.Superblock.{
  Superblock, sealed_slot, write_slot, slot_of, opened_slot, decode_payload, valid_payload,
}
use pureshade_os.Rfs2.Superblock.Payload.{SuperblockFits}
use pureshade_os.Rfs2.Superblock.Slot.{slot_of-sealed_slot}
use pureshade_os.Rfs2.Space.{get, set_bit, count}
use pureshade_os.Rfs2.Fs.{
  Rfs2, alloc_block, alloc_scan, take_block, seal_and_write, written_fresh, flip, second_barrier,
  finish, live_new, set_kept, clear_all, write_fresh, commit, mounted, next_superblock, is_taken,
  target_slot,
}
use pureshade_os.Rfs2.Layout.{BlockPtr}
use pureshade_os.Rfs2.Fs.{begin_op, fail_op, retire}
use pureshade_os.Rfs2.Fs.Rollback.{live_new-fail_op}
use pureshade_os.Rfs2.Fs.Alloc.{AllocOutcome, alloc_block_lem}
use pureshade_os.Rfs2.Fs.Staged.{Kept, Staged, Step, Steps}
use pureshade_os.Rfs2.Fs.Crash.{staged_crash, Steps-Staged}
use pureshade_os.Rfs2.Fs.Mounted.{OldOrNew, mounted-commit, mounted-interrupted}
use pureshade_os.Rfs2.Fs.Flip.{DetectsTears}
use mathlib.Core.List.{Memᴰ}
use pureshade_os.Rfs2.Fs.Disks.{
  Disk, cells, Survives, disk, disk-IsDurable, Keeps, cells-Keeps, older_write, unwritten,
  unwritten-Keeps, no_write, disk-Keeps-IsDurable,
}
use pureshade_os.Rfs2.Tests.{header, root_ptr, sb, root_ptr-PtrFits, sb-SuperblockFits}

-- Superblock 5 in slot 1, its tree in blocks 3 and 4, the tree before in 3 and 5; blocks 6 and 7 are
-- free.
abbrev pub medium : ℕ → List ℕ
medium b = if b == 1 then sealed_slot identity 1 sb else replicate 4096 0

abbrev pub idle : Rfs2 Disk
idle = record {
  dev = (medium, []);
  header = header;
  read_only = false;
  sb = sb;
  cur_slot = 1;
  live_cur = record { words = 24 ∷ []; nbits = 8 };
  live_prev = record { words = 40 ∷ []; nbits = 8 };
  block_count_mismatch = false;
  staged_root = root_ptr;
  staged_height = 0;
  staged_next_inode = 10;
  staged_inode_count = 1;
  dirty = false;
  fresh = [];
  dropped_fresh = [];
  retired = [];
  op_fresh = [];
  alloc_cursor = 1;
  pins = [];
}

alloc_block_lem_example : AllocOutcome idle (alloc_block idle)
alloc_block_lem_example = alloc_block_lem idle (omega arith)

-- Block 6 is handed out.
alloc_six : (alloc_block idle).1 ≡ ok 6
unfolding alloc_block alloc_scan take_block is_taken get
alloc_six = refl

-- One block is written in it.
abbrev busy : Rfs2 Disk
busy = (write_fresh disk identity idle (replicate 4096 7)).0

busy-Steps : Steps disk identity idle busy
busy-Steps = Steps.more Steps.none_yet (Step.write idle (replicate 4096 7))

staged_crash_example :
    ((c : ℕ) → Kept idle c → medium c ≡ medium c)
    × (busy.sb ≡ sb)
    × (busy.cur_slot ≡ 1)
    × (busy.live_cur ≡ idle.live_cur)
    × (busy.live_prev ≡ idle.live_prev)
unfolding write_fresh seal_and_write alloc_block take_block alloc_scan is_taken get written_fresh
    identity
staged_crash_example =
    staged_crash disk identity cells Survives idle busy medium disk-IsDurable refl (omega arith)
      (λ m s c k. s c refl) busy-Steps (λ c t. refl)

busy-Staged : Staged disk identity cells Survives medium idle busy
busy-Staged =
    Steps-Staged disk identity cells Survives disk-IsDurable medium idle busy
      (record {
        header = refl;
        sb = refl;
        cur_slot = refl;
        live_cur = refl;
        live_prev = refl;
        cursor = omega arith;
        pending = λ b h. absurd (nothing h);
        read = λ c k. refl;
        durable = λ e s c k. s c refl;
      })
      busy-Steps
  where
    nothing : false ≢ true
    nothing h = cc

next-SuperblockFits : SuperblockFits (next_superblock busy 9)
unfolding write_fresh seal_and_write alloc_block take_block alloc_scan is_taken get written_fresh
    identity next_superblock live_new set_kept clear_all count set_bit
next-SuperblockFits = record {
  gen = omega arith;
  total_blocks = omega arith;
  inode_map_height = omega arith;
  next_inode = omega arith;
  inode_count = omega arith;
  block_count = omega arith;
  commit_time = omega arith;
  inode_map_root = root_ptr-PtrFits;
  uuid = refl;
}

busy_found : slot_of identity busy.cur_slot busy.header (medium busy.cur_slot) ≡ some busy.sb
unfolding write_fresh seal_and_write alloc_block take_block alloc_scan is_taken get written_fresh
    identity
busy_found =
    slot_of-sealed_slot identity 1 header sb identity-IsLawful sb-SuperblockFits
      (record { gen = omega arith; total_blocks = refl; uuid = refl })

abbrev committed : Rfs2 Disk
committed = (commit disk identity 9 busy).0

committed_ok : commit disk identity 9 busy ≡ (committed, ok tt)
unfolding write_fresh seal_and_write alloc_block take_block alloc_scan is_taken get written_fresh
    identity commit flip second_barrier finish
committed_ok = refl

busy_dirty : busy.dirty ≡ true
unfolding write_fresh seal_and_write alloc_block take_block alloc_scan is_taken get written_fresh
    identity
busy_dirty = refl

busy_slot : (busy.cur_slot ≡ 1) ⊎ (busy.cur_slot ≡ 2)
unfolding write_fresh seal_and_write alloc_block take_block alloc_scan is_taken get written_fresh
    identity
busy_slot = inl refl

committed-Survives : Survives committed.dev committed.dev.0
committed-Survives c t = refl

mounted-commit_example :
    (mounted identity busy.header committed.dev.0
      ≡ ok (committed.sb, committed.cur_slot, some busy.sb))
    × (committed.sb.gen ≡ busy.sb.gen + 1)
mounted-commit_example =
    mounted-commit disk identity cells Survives disk-IsDurable medium idle busy busy-Staged 9
      busy_slot busy_found committed committed.dev.0 identity-IsLawful next-SuperblockFits
      busy_dirty committed_ok committed-Survives

busy-Keeps-Staged : Staged disk identity cells Keeps medium idle busy
busy-Keeps-Staged =
    Steps-Staged disk identity cells Keeps disk-Keeps-IsDurable medium idle busy
      (record {
        header = refl;
        sb = refl;
        cur_slot = refl;
        live_cur = refl;
        live_prev = refl;
        cursor = omega arith;
        pending = λ b h. absurd (nothing h);
        read = λ c k. refl;
        durable = λ e s c k. elim (s c) [ inl o ↦ o | inr m ↦ absurd (no_write (c, e c) m) ];
      })
      busy-Steps
  where
    nothing : false ≢ true
    nothing h = cc

busy-DetectsTears :
    DetectsTears disk identity cells Keeps disk-Keeps-IsDurable medium idle busy busy-Keeps-Staged 9
busy-DetectsTears d e s =
    let slot = target_slot busy in
    let sealed = sealed_slot identity slot (next_superblock busy 9) in
    elim (s slot) [
      | inl o ↦
          (unwritten d slot e, unwritten-Keeps d slot sealed e s, inl (o ∙ sym (same d slot e)))
      | inr m ↦ elim (older_write slot slot sealed (e slot) d.1 m) [
        | inl h ↦ (unwritten d slot e, unwritten-Keeps d slot sealed e s, inr (inl h.1))
        | inr o ↦ (e, written_before d slot sealed e s o, inl refl)
      ]
    ]
  where
    same : (d : Disk) (b : ℕ) (e : ℕ → List ℕ) → unwritten d b e b ≡ d.0 b
    same d b e = rw (==_refl b) refl

    written_before :
        (d : Disk) (b : ℕ) (buf : List ℕ) (e : ℕ → List ℕ)
        → Keeps (d.0, (b, buf) ∷ d.1) e
        → Memᴰ (b, e b) d.1
        → Keeps d e
    written_before d b buf e s o c = elim (s c) [
      | inl k ↦ inl k
      | inr m ↦ elim (older_write b c buf (e c) d.1 m) [
        | inl h ↦ inr (subst (λ k. Memᴰ (k, e k) d.1) (sym h.0) o)
        | inr k ↦ inr k
      ]
    ]

pub slot_empty : slot_of identity 2 header (replicate 4096 0) ≡ none
unfolding slot_of opened_slot open_superblock identity decode_payload valid_payload same_name
slot_empty = refl

busy_stale :
    (t : Superblock)
    → slot_of identity (target_slot busy) busy.header (medium (target_slot busy)) ≡ some t
    → t.gen < busy.sb.gen
unfolding write_fresh seal_and_write alloc_block take_block alloc_scan is_taken get written_fresh
    identity
busy_stale t h = absurd (none_ne_some t (sym slot_empty ∙ h))
  where
    none_ne_some : (t : Superblock) → ◌≢◌ {A = Option Superblock} none (some t)
    none_ne_some t q = cc

-- The power is lost behind the write of the slot, which reached the medium.
abbrev slot_written : Disk
slot_written =
    (write_slot disk identity (disk.flush busy.dev).0 (target_slot busy) (next_superblock busy 9)).0

reached_slot : Keeps slot_written (cells slot_written)
reached_slot c = cells-Keeps slot_written.0 slot_written.1 c

mounted-interrupted_example :
    OldOrNew disk identity cells Keeps disk-Keeps-IsDurable medium idle busy busy-Keeps-Staged 9
      busy_slot busy_found
      (cells slot_written)
mounted-interrupted_example =
    mounted-interrupted disk identity cells Keeps disk-Keeps-IsDurable medium idle busy
      busy-Keeps-Staged 9 busy_slot busy_found identity-IsLawful next-SuperblockFits busy_stale
      busy-DetectsTears (cells slot_written) (inl (inr (refl, reached_slot)))

-- The root was written to block 6 by an operation that is not committed yet.
abbrev new_ptr : BlockPtr
new_ptr = record { block = 6; gen = 6; tag = replicate 16 0 }

abbrev new_root : Rfs2 Disk
new_root = record idle { staged_root = new_ptr; fresh = 6 ∷ []; dirty = true }

live_new-fail_op_example :
    let op = begin_op new_root in
    let after = fail_op (retire op.0 new_ptr) op.1 in
    (after.staged_root ≡ new_ptr) × (get (live_new after) 6 ≡ false)
unfolding get
live_new-fail_op_example = live_new-fail_op new_root refl refl refl tt (omega arith, tt)
