-- ===== src/Rfs2/Fs/Crash.antt =====
-- While changes are staged, the two committed trees stay on the disk: a loss of power at any moment
-- finds the blocks of both, and both superblock slots, as they were.
use pureshade_os.Base.{
  ℕ, ◌-◌, ◌≤◌, ◌<◌, ◌≡◌, ◌≢◌, refl, sym, ◌∙◌, subst, inl, inr, Bool, true, false, ◌||◌, List, [],
  ◌∷◌, ◌++◌, arith, ◌==◌, Bool-cases, ==_iff,
}
use pureshade_os.Base.Result.{Result, ok, err}
use pureshade_os.Rfs2.Layout.{Error, BlockPtr, is_null}
use pureshade_os.Rfs2.Device.{BlockDevice}
use pureshade_os.Rfs2.Device.Crash.{IsDurable, WritesApart, durable-WritesApart}
use pureshade_os.Rfs2.Transform.{BlockTransform, dyn_aad}
use pureshade_os.Rfs2.Space.{get}
use pureshade_os.Rfs2.Fs.{
  Rfs2, contains, is_taken, block_span, txn_gen, alloc_block, retire, begin_op, fail_op,
  write_fresh, seal_and_write, written_fresh,
}
use pureshade_os.Rfs2.Fs.Alloc.{InRegion, AllocOutcome, alloc_block_lem}
use pureshade_os.Rfs2.Fs.Staged.{Kept, Staged, Step, Steps}

module _ {D : Type 0} (device : BlockDevice D) (x : BlockTransform) (cells : D → ℕ → List ℕ)
    (Survives : D → (ℕ → List ℕ) → Type 0) (law : WritesApart device cells Survives)
    (base : ℕ → List ℕ) (old : Rfs2 D) where
  abbrev Holds : Rfs2 D → Type 0
  Holds fs = Staged device x cells Survives base old fs

  written_fresh_dev :
      (fs : Rfs2 D) (b g : ℕ) (tag : List ℕ) (r : D × Result Error (Unit {0}))
      → (written_fresh device x fs b g tag r).0
        ≡ record fs { dev = r.0; dirty = (written_fresh device x fs b g tag r).0.dirty }
  unfolding written_fresh
  written_fresh_dev fs b g tag (dev, err e) = refl
  written_fresh_dev fs b g tag (dev, ok done) = refl

  untaken : (a b c : Bool) → (a || b || c) ≡ false → (a || b) ≡ false
  untaken a b c h = ground arith

  or_second : (a c : Bool) → (a || c) ≡ true → a ≡ false → c ≡ true
  or_second a c h e = ground arith

  -- A block that the pending generation takes is none of the committed ones.
  not-Kept :
      (b : ℕ)
      → InRegion old b
      → (get old.live_cur b || get old.live_prev b) ≡ false
      → (c : ℕ) → Kept old c
      → c ≢ b
  not-Kept b r f c (inl l) e = omega (arith, r.0)
  not-Kept b r f c (inr t) e = cc

  Staged-write :
      (fs : Rfs2 D) (b : ℕ) (data' fresh op_fresh : List ℕ) (cursor : ℕ) (dirty : Bool)
      → Holds fs
      → InRegion fs b
      → is_taken fs b ≡ false
      → fresh ≡ b ∷ fs.fresh
      → cursor < block_span fs
      → Holds (record fs {
        fresh = fresh;
        op_fresh = op_fresh;
        alloc_cursor = cursor;
        dev = (device.write_block fs.dev b data').0;
        dirty = dirty;
      })
  unfolding is_taken
  Staged-write fs b data' fresh op_fresh cursor dirty v r t f c =
      let region : InRegion old b = subst (λ h. (3 ≤ b) × (b < h.total_blocks)) v.header r in
      let here = untaken (get fs.live_cur b) (get fs.live_prev b) (contains fs.fresh b) t in
      let free : (get old.live_cur b || get old.live_prev b) ≡ false =
        subst (λ m. (get old.live_cur b || get m b) ≡ false) v.live_prev
          (subst (λ m. (get m b || get fs.live_prev b) ≡ false) v.live_cur here) in
      record {
        header = v.header;
        sb = v.sb;
        cur_slot = v.cur_slot;
        live_cur = v.live_cur;
        live_prev = v.live_prev;
        cursor = subst (λ h. cursor < h.total_blocks - 3) v.header c;
        pending = λ k h. elim (Bool-cases (b == k)) [
          | inl e ↦
              subst (λ j. InRegion old j × ((get old.live_cur j || get old.live_prev j) ≡ false))
                ((==_iff b k).0 e) (region, free)
          | inr e ↦ v.pending k (older k h e)
        ];
        read =
            λ k w. law.write_elsewhere fs.dev b k data' (not-Kept b region free k w) ∙ v.read k w;
        durable = λ e s k w.
            let l = law.write_lost fs.dev b data' e s in
            l.2 k (not-Kept b region free k w) ∙ v.durable l.0 l.1 k w;
      }
    where
      older : (k : ℕ) → contains fresh k ≡ true → (b == k) ≡ false → contains fs.fresh k ≡ true
      older k h e =
          or_second (b == k) (contains fs.fresh k) (subst (λ s. contains s k ≡ true) f h) e

  Staged-alloc :
      (fs : Rfs2 D) (buf : List ℕ) (r : Rfs2 D × Result Error ℕ)
      → Holds fs
      → AllocOutcome fs r
      → Holds (seal_and_write device x buf r).0
  unfolding seal_and_write
  Staged-alloc fs buf (after, err e) v a = subst (λ f. Holds f) (sym a.1) v
  Staged-alloc fs buf (after, ok b) v a =
      let sealed = x.encrypt_block b (txn_gen after) (dyn_aad b (txn_gen after)) buf in
      let r = device.write_block after.dev b sealed.1 in
      let dirty = (written_fresh device x after b (txn_gen after) sealed.0 r).0.dirty in
      subst (λ f. Holds f) (sym (written_fresh_dev after b (txn_gen after) sealed.0 r))
        (subst
          (λ f. Holds (record f { dev = (device.write_block f.dev b sealed.1).0; dirty = dirty }))
          (sym a.4)
          (Staged-write fs b sealed.1 after.fresh after.op_fresh after.alloc_cursor dirty v a.0 a.1
            a.2 a.3))

  -- What is only in memory plays no part.
  Staged-memory :
      (fs : Rfs2 D) (root : BlockPtr) (height next_inode inode_count : ℕ) (dirty : Bool)
      (dropped retired op_fresh : List ℕ)
      → Holds fs
      → Holds (record fs {
        staged_root = root;
        staged_height = height;
        staged_next_inode = next_inode;
        staged_inode_count = inode_count;
        dirty = dirty;
        dropped_fresh = dropped;
        retired = retired;
        op_fresh = op_fresh;
      })
  Staged-memory fs root height next_inode inode_count dirty dropped retired op_fresh v = record {
    header = v.header;
    sb = v.sb;
    cur_slot = v.cur_slot;
    live_cur = v.live_cur;
    live_prev = v.live_prev;
    cursor = v.cursor;
    pending = v.pending;
    read = v.read;
    durable = v.durable;
  }

  Staged-lists :
      (fs : Rfs2 D) (dropped retired op_fresh : List ℕ)
      → Holds fs
      → Holds (record fs { dropped_fresh = dropped; retired = retired; op_fresh = op_fresh })
  Staged-lists fs dropped retired op_fresh v =
      Staged-memory fs fs.staged_root fs.staged_height fs.staged_next_inode fs.staged_inode_count
        fs.dirty dropped retired op_fresh v

  Staged-retire : (fs : Rfs2 D) (p : BlockPtr) → Holds fs → Holds (retire fs p)
  unfolding retire
  Staged-retire fs p v = elim (Bool-cases (is_null p)) [
    | inl e ↦ rw e v
    | inr e ↦ elim (Bool-cases (contains fs.fresh p.block)) [
      | inl f ↦ rw (e, f) (Staged-lists fs (p.block ∷ fs.dropped_fresh) fs.retired fs.op_fresh v)
      | inr f ↦ rw (e, f) (Staged-lists fs fs.dropped_fresh (p.block ∷ fs.retired) fs.op_fresh v)
    ]
  ]

  cursor_span : (fs : Rfs2 D) → Holds fs → fs.alloc_cursor < block_span fs
  cursor_span fs v = subst (λ h. fs.alloc_cursor < h.total_blocks - 3) (sym v.header) v.cursor

  Staged-Step : (fs after : Rfs2 D) → Holds fs → Step device x fs after → Holds after
  unfolding write_fresh begin_op fail_op
  Staged-Step before after v (Step.write fs buf) =
      Staged-alloc fs buf (alloc_block fs) v (alloc_block_lem fs (cursor_span fs v))
  Staged-Step before after v (Step.drop_ptr fs p) = Staged-retire fs p v
  Staged-Step before after v (Step.begin fs) = Staged-lists fs fs.dropped_fresh fs.retired [] v
  Staged-Step before after v (Step.fail fs snap) =
      Staged-memory fs snap.root snap.height snap.next_inode snap.inode_count snap.dirty
        (fs.op_fresh ++ fs.dropped_fresh) snap.retired [] v
  Staged-Step before after v (Step.stage fs root height next_inode inode_count) =
      Staged-memory fs root height next_inode inode_count fs.dirty fs.dropped_fresh fs.retired
        fs.op_fresh v

  pub Apart-Staged : (fs : Rfs2 D) → Holds old → Steps device x old fs → Holds fs
  Apart-Staged fs v Steps.none_yet = v
  Apart-Staged fs v (Steps.more {fs = mid} s t) = Staged-Step mid fs (Apart-Staged mid v s) t

pub Steps-Staged :
    {D : Type 0} (device : BlockDevice D) (x : BlockTransform) (cells : D → ℕ → List ℕ)
    (Survives : D → (ℕ → List ℕ) → Type 0)
    → IsDurable device cells Survives
    → (base : ℕ → List ℕ) (old fs : Rfs2 D) → Staged device x cells Survives base old old
    → Steps device x old fs
    → Staged device x cells Survives base old fs
Steps-Staged device x cells Survives law base old fs =
    Apart-Staged device x cells Survives (durable-WritesApart device cells Survives law) base old fs

-- Nothing is staged yet.
pub start-Staged :
    {D : Type 0} (device : BlockDevice D) (x : BlockTransform) (cells : D → ℕ → List ℕ)
    (Survives : D → (ℕ → List ℕ) → Type 0) (old : Rfs2 D)
    → old.fresh ≡ []
    → old.alloc_cursor < block_span old
    → ((m : ℕ → List ℕ) → Survives old.dev m → (c : ℕ) → Kept old c → m c ≡ cells old.dev c)
    → Staged device x cells Survives (cells old.dev) old old
start-Staged device x cells Survives old f l d = record {
  header = refl;
  sb = refl;
  cur_slot = refl;
  live_cur = refl;
  live_prev = refl;
  cursor = l;
  pending = λ b h. absurd (none_pending b h);
  read = λ c k. refl;
  durable = d;
}
  where
    false_ne_true : false ≢ true
    false_ne_true h = cc

    none_pending : (b : ℕ) → contains old.fresh b ≢ true
    none_pending b h = false_ne_true (subst (λ q. contains q b ≡ true) f h)

-- From a state with nothing fresh, whose cursor lies within the region and whose committed blocks
-- are durable, on a device that keeps its promises, whatever is staged: a loss of power finds the
-- blocks of both live trees, the header and both slots as they were, and the committed part of the
-- state has not changed.
pub staged_crash :
    {D : Type 0} (device : BlockDevice D) (x : BlockTransform) (cells : D → ℕ → List ℕ)
    (Survives : D → (ℕ → List ℕ) → Type 0) (old fs : Rfs2 D) (e : ℕ → List ℕ)
    → IsDurable device cells Survives
    → old.fresh ≡ []
    → old.alloc_cursor < block_span old
    → ((m : ℕ → List ℕ) → Survives old.dev m → (c : ℕ) → Kept old c → m c ≡ cells old.dev c)
    → Steps device x old fs
    → Survives fs.dev e
    → ((c : ℕ) → Kept old c → e c ≡ cells old.dev c)
      × (fs.sb ≡ old.sb)
      × (fs.cur_slot ≡ old.cur_slot)
      × (fs.live_cur ≡ old.live_cur)
      × (fs.live_prev ≡ old.live_prev)
staged_crash device x cells Survives old fs e law f l d steps s =
    let start = start-Staged device x cells Survives old f l d in
    let v = Steps-Staged device x cells Survives law (cells old.dev) old fs start steps in
    (v.durable e s, v.sb, v.cur_slot, v.live_cur, v.live_prev)
