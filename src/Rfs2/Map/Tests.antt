-- ===== src/Rfs2/Map/Tests.antt =====
-- An inode map on a device in memory, and its theorems at it.
use mathlib.Core.List.{Memᴰ}
use pureshade_os.Base.{
  ℕ, ◌≡◌, ◌≢◌, ◌<◌, ◌∙◌, refl, sym, subst, arith, inl, inr, Bool, true, false, ◌||◌, Option, none,
  some, List, [], ◌∷◌, ==_refl, ne→not_==, not_==→ne, ◌==◌, Bool-cases, replicate, if◌then◌else◌,
}
use pureshade_os.Base.Result.{ok}
use pureshade_os.Rfs2.Device.Watched.{Watched, watched, WasIn, EverSurvives}
use pureshade_os.Rfs2.Superblock.{Superblock, slot_of}
use pureshade_os.Rfs2.Superblock.Slot.{slot_of-sealed_slot}
use pureshade_os.Rfs2.Layout.{null_ptr, from_bytes, to_bytes}
use pureshade_os.Base.Little.{of_le}
use pureshade_os.Rfs2.Inode.{is_used}
use pureshade_os.Rfs2.Transform.{identity}
use pureshade_os.Rfs2.Transform.Laws.{identity-IsLawful}
use pureshade_os.Rfs2.Fs.{
  Rfs2, write_fresh, seal_and_write, alloc_block, take_block, alloc_scan, is_taken, written_fresh,
  retire, mounted,
}
use pureshade_os.Rfs2.Space.{get}
use pureshade_os.Rfs2.Fs.Staged.{Kept, Steps}
use pureshade_os.Rfs2.Fs.Disks.{Disk, Survives, disk, cells, disk-IsDurable}
use pureshade_os.Rfs2.Fs.Tests.{idle, medium, slot_empty}
use pureshade_os.Rfs2.Tests.{root_inode, root_inode-InodeFits, header, sb, sb-SuperblockFits}
use pureshade_os.Rfs2.Map.{
  imap_set, read_ptr, ptr_at, shift_right, set_ptr_at, zero_block, root_grown, used, grow_imap,
  imap_set_rec, imap_capacity, saturated, load,
}
use pureshade_os.Rfs2.Map.Fresh.{ReadsBack}
use pureshade_os.Rfs2.Map.Root.{Mapped}
use pureshade_os.Rfs2.Map.Set.{SetOutcome, imap_set_lem}
use pureshade_os.Rfs2.Map.Staged.{imap_set_crash}

disk-ReadsBack : ReadsBack disk
disk-ReadsBack = record {
  write_here = λ d b buf h. rw (==_refl b) refl;
  write_elsewhere = λ d b c buf n. rw (ne→not_== b c (λ q. n (sym q))) refl;
}

-- The map is still empty, and the number needs one more level.
abbrev empty : Rfs2 Disk
empty = record idle { staged_root = null_ptr }

empty-Mapped : Mapped disk identity empty
empty-Mapped = record {
  ready = record { cursor = omega arith; total = omega arith; gen = omega arith };
  height = omega arith;
  root = record { block = omega arith; gen = omega arith; tag = refl };
  placed = λ h. absurd (never h);
}
  where
    never : {A : Type 0} → true ≡ false → A
    never h = cc

imap_set_lem_example :
    SetOutcome disk identity empty 40 root_inode (imap_set disk identity empty 40 root_inode)
imap_set_lem_example =
    imap_set_lem disk identity disk-ReadsBack identity-IsLawful empty 40 root_inode empty-Mapped
      root_inode-InodeFits (omega arith)

used_root : used root_inode ≡ some root_inode
unfolding used is_used
used_root = refl

-- The same state on a device that is watched.
abbrev watched_empty : Rfs2 (Watched Disk)
watched_empty = record {
  dev = (empty.dev, []);
  header = empty.header;
  read_only = false;
  sb = empty.sb;
  cur_slot = empty.cur_slot;
  live_cur = empty.live_cur;
  live_prev = empty.live_prev;
  block_count_mismatch = false;
  staged_root = empty.staged_root;
  staged_height = 0;
  staged_next_inode = 10;
  staged_inode_count = 1;
  dirty = false;
  fresh = [];
  dropped_fresh = [];
  retired = [];
  op_fresh = [];
  alloc_cursor = 1;
  pins = [];
}

-- The write of the first block, number 6, is torn.
abbrev after_first : Disk
after_first = (medium, (6, set_ptr_at zero_block 0 null_ptr) ∷ [])

abbrev torn : ℕ → List ℕ
torn c = if c == 6 then replicate 4096 9 else medium c

torn-Survives : Survives after_first torn
torn-Survives c h = elim (Bool-cases (6 == c)) [
  | inl q ↦ absurd (touched_false (6 == c) q h)
  | inr q ↦ rw (ne→not_== c 6 (λ r. not_==→ne 6 c q (sym r))) refl
]
  where
    touched_false : (b : Bool) → b ≡ true → (b || false) ≢ false
    touched_false b e h = ground arith

was_after_first :
    WasIn (imap_set (watched disk) identity watched_empty 40 root_inode).0.dev after_first
unfolding imap_set grow_imap root_grown imap_set_rec imap_capacity saturated load write_fresh
    seal_and_write alloc_block take_block alloc_scan is_taken get written_fresh identity retire
    read_ptr ptr_at from_bytes of_le shift_right set_ptr_at zero_block to_bytes
was_after_first = Memᴰ.tail (Memᴰ.head refl)

at_rest :
    (m : ℕ → List ℕ)
    → EverSurvives Survives watched_empty.dev m
    → (c : ℕ) → Kept watched_empty c
    → m c ≡ medium c
at_rest m (d, Memᴰ.head h, s) c k = subst (λ d. Survives d m) h s c refl
at_rest m (d, Memᴰ.tail p, s) c k = elim p [ ]

empty_found : slot_of identity 1 header (medium 1) ≡ some sb
empty_found =
    slot_of-sealed_slot identity 1 header sb identity-IsLawful sb-SuperblockFits
      (record { gen = omega arith; total_blocks = refl; uuid = refl })

none_older :
    (t : Superblock) → slot_of identity 2 header (replicate 4096 0) ≡ some t → t.gen < sb.gen
none_older t h = absurd (none_ne_some t (sym slot_empty ∙ h))
  where
    none_ne_some : (t : Superblock) → ◌≢◌ {A = Option Superblock} none (some t)
    none_ne_some t q = cc

imap_set_crash_example :
    (mounted identity header torn ≡ ok (sb, 1, slot_of identity 2 header (medium 2)))
    × ((c : ℕ) → Kept watched_empty c → torn c ≡ medium c)
imap_set_crash_example =
    imap_set_crash disk identity cells Survives watched_empty watched_empty 40 root_inode
      after_first torn disk-IsDurable refl (omega arith) at_rest (inl refl) empty_found none_older
      Steps.none_yet was_after_first torn-Survives
