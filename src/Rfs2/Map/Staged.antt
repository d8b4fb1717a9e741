-- ===== src/Rfs2/Map/Staged.antt =====
-- Setting an inode is made of staged steps, so that a loss of power during it leaves the committed
-- trees (fs/rfs2/src/fs.rs).
use pureshade_os.Base.{
  ℕ, zero, suc, ◌<◌, ◌≡◌, ap, sym, ◌∙◌, subst, some, arith, inl, inr, List, [], leb, Bool-cases,
}
use pureshade_os.Base.Result.{Result, ok, err}
use pureshade_os.Base.Bytes.{overlay}
use pureshade_os.Rfs2.Layout.{Error, BlockPtr}
use pureshade_os.Rfs2.Inode.{Inode, encode}
use pureshade_os.Rfs2.Device.{BlockDevice}
use pureshade_os.Rfs2.Device.Crash.{IsDurable}
use pureshade_os.Rfs2.Transform.{BlockTransform}
use pureshade_os.Rfs2.Fs.{Rfs2, block_span, retire, write_fresh, mounted, target_slot}
use pureshade_os.Rfs2.Fs.Staged.{Kept, Step, Steps}
use pureshade_os.Rfs2.Fs.Crash.{start-Staged, Apart-Staged}
use pureshade_os.Rfs2.Fs.Flip.{IsSlot, other_slot, Finds-older}
use pureshade_os.Rfs2.Superblock.{Superblock, slot_of}
use pureshade_os.Rfs2.Device.Watched.{Watched, watched, WasIn, EverSurvives, watched-WritesApart}
use pureshade_os.Rfs2.Map.{
  ptr_at, set_ptr_at, zero_block, slot_of_ino, imap_index, imap_capacity, load, and_then,
  root_grown, grow_imap, imap_set_rec, imap_set,
}

module _ {D : Type 0} (device : BlockDevice D) (x : BlockTransform) where
  one_step : (fs after : Rfs2 D) → Step device x fs after → Steps device x fs after
  one_step fs after s = Steps.more Steps.none_yet s

  pub Steps-trans : (a b c : Rfs2 D) → Steps device x a b → Steps device x b c → Steps device x a c
  Steps-trans a b c s Steps.none_yet = s
  Steps-trans a b c s (Steps.more {fs = mid} t u) = Steps.more (Steps-trans a b mid s t) u

  Steps-and_then :
      {A B : Type 0} (old : Rfs2 D) (r : Rfs2 D × Result Error A)
      (k : Rfs2 D → A → Rfs2 D × Result Error B)
      → Steps device x old r.0
      → ((fs : Rfs2 D) (a : A) → Steps device x fs (k fs a).0)
      → Steps device x old (and_then r k).0
  Steps-and_then old (fs, err e) k s next = s
  Steps-and_then old (fs, ok a) k s next = Steps-trans old fs (k fs a).0 s (next fs a)

  wrote : (fs : Rfs2 D) (buf : List ℕ) → Steps device x fs (write_fresh device x fs buf).0
  wrote fs buf = one_step fs (write_fresh device x fs buf).0 (Step.write fs buf)

  retired : (fs : Rfs2 D) (p : BlockPtr) → Steps device x fs (retire fs p)
  retired fs p = one_step fs (retire fs p) (Step.drop_ptr fs p)

  restaged :
      (fs : Rfs2 D) (root : BlockPtr) (height : ℕ)
      → Steps device x fs (record fs { staged_root = root; staged_height = height })
  restaged fs root height =
      one_step fs (record fs { staged_root = root; staged_height = height })
        (Step.stage fs root height fs.staged_next_inode fs.staged_inode_count)

  grow_imap-Steps :
      (n : ℕ) (fs : Rfs2 D) (ino : ℕ) → Steps device x fs (grow_imap device x n fs ino).0
  unfolding grow_imap root_grown
  grow_imap-Steps zero fs ino = Steps.none_yet
  grow_imap-Steps (suc n) fs ino = elim (Bool-cases (leb (imap_capacity fs.staged_height) ino)) [
    | inl e ↦
        let new_root = set_ptr_at zero_block 0 fs.staged_root in
        rw e (
          Steps-and_then fs (write_fresh device x fs new_root)
            (λ fs p. grow_imap device x n (root_grown fs p) ino) (wrote fs new_root)
            (λ fs p.
              Steps-trans fs (root_grown fs p) (grow_imap device x n (root_grown fs p) ino).0
                (restaged fs p (suc fs.staged_height)) (grow_imap-Steps n (root_grown fs p) ino)))
    | inr e ↦ rw e Steps.none_yet
  ]

  imap_set_rec-Steps :
      (n : ℕ) (fs : Rfs2 D) (p : BlockPtr) (ino : ℕ) (bytes : List ℕ)
      → Steps device x fs (imap_set_rec device x n fs p ino bytes).0
  unfolding imap_set_rec
  imap_set_rec-Steps zero fs p ino bytes =
      Steps-and_then fs (fs, load device x fs.dev p)
        (λ fs buf. write_fresh device x (retire fs p) (overlay buf (slot_of_ino ino) bytes))
        Steps.none_yet
        (λ fs buf.
          let new = overlay buf (slot_of_ino ino) bytes in
          Steps-trans fs (retire fs p) (write_fresh device x (retire fs p) new).0 (retired fs p)
            (wrote (retire fs p) new))
  imap_set_rec-Steps (suc n) fs p ino bytes =
      let idx = imap_index ino (suc n) in
      let set_child : Rfs2 D → List ℕ → Rfs2 D × Result Error BlockPtr = λ fs buf.
        and_then (imap_set_rec device x n (retire fs p) (ptr_at buf idx) ino bytes)
          (λ fs child. write_fresh device x fs (set_ptr_at buf idx child)) in
      Steps-and_then fs (fs, load device x fs.dev p) set_child Steps.none_yet
        (λ fs buf. Steps-trans fs (retire fs p) (set_child fs buf).0 (retired fs p) (
          Steps-and_then (retire fs p)
            (imap_set_rec device x n (retire fs p) (ptr_at buf idx) ino bytes)
            (λ fs child. write_fresh device x fs (set_ptr_at buf idx child))
            (imap_set_rec-Steps n (retire fs p) (ptr_at buf idx) ino bytes)
            (λ fs child. wrote fs (set_ptr_at buf idx child))))

  pub imap_set-Steps :
      (fs : Rfs2 D) (ino : ℕ) (inode : Inode) → Steps device x fs (imap_set device x fs ino inode).0
  unfolding imap_set
  imap_set-Steps fs ino inode =
      let rooted : Rfs2 D → BlockPtr → Rfs2 D × Result Error (Unit {0}) =
        λ fs root. (record fs { staged_root = root }, ok tt) in
      let set_root : Rfs2 D → Unit {0} → Rfs2 D × Result Error (Unit {0}) = λ fs done.
        and_then (imap_set_rec device x fs.staged_height fs fs.staged_root ino (encode inode))
          rooted in
      Steps-and_then fs (grow_imap device x 10 fs ino) set_root (grow_imap-Steps 10 fs ino)
        (λ fs done.
          Steps-and_then fs
            (imap_set_rec device x fs.staged_height fs fs.staged_root ino (encode inode)) rooted
            (imap_set_rec-Steps fs.staged_height fs fs.staged_root ino (encode inode))
            (λ fs root. restaged fs root fs.staged_height))

-- On a device that keeps its promises and on which every state is watched, from a state with nothing
-- fresh, whose cursor lies within the region, whose committed blocks are durable, whose current slot
-- holds its superblock and whose other slot holds none or an older one: whenever the power is lost,
-- before or after any of the writes of any staged steps and of setting an inode after them, whether
-- that succeeds or not, the next mount finds the superblock, and the blocks of both live trees are as
-- they were.
pub imap_set_crash :
    {D : Type 0} (device : BlockDevice D) (x : BlockTransform) (cells : D → ℕ → List ℕ)
    (Survives : D → (ℕ → List ℕ) → Type 0) (old fs : Rfs2 (Watched D)) (ino : ℕ) (inode : Inode)
    (d : D) (e : ℕ → List ℕ)
    → IsDurable device cells Survives
    → old.fresh ≡ []
    → old.alloc_cursor < block_span old
    → ((m : ℕ → List ℕ)
        → EverSurvives Survives old.dev m
        → (c : ℕ) → Kept old c
        → m c ≡ cells old.dev.0 c)
    → IsSlot old.cur_slot
    → slot_of x old.cur_slot old.header (cells old.dev.0 old.cur_slot) ≡ some old.sb
    → ((t : Superblock)
        → slot_of x (target_slot old) old.header (cells old.dev.0 (target_slot old)) ≡ some t
        → t.gen < old.sb.gen)
    → Steps (watched device) x old fs
    → WasIn (imap_set (watched device) x fs ino inode).0.dev d
    → Survives d e
    → (mounted x old.header e
        ≡ ok (
          old.sb,
          old.cur_slot,
          slot_of x (target_slot old) old.header (cells old.dev.0 (target_slot old)),
        ))
      × ((c : ℕ) → Kept old c → e c ≡ cells old.dev.0 c)
imap_set_crash device x cells Survives old fs ino inode d e law f l durable current found stale
      steps was s =
    let ever = EverSurvives Survives in
    let after = (imap_set (watched device) x fs ino inode).0 in
    let start = start-Staged (watched device) x (λ w. cells w.0) ever old f l durable in
    let v =
      Apart-Staged (watched device) x (λ w. cells w.0) ever
        (watched-WritesApart device cells Survives law) (cells old.dev.0) old after start
        (Steps-trans (watched device) x old fs after steps
          (imap_set-Steps (watched device) x fs ino inode)) in
    let kept = v.durable e (d, was, s) in
    let low = slots_low old.cur_slot current in
    let at = kept (target_slot old) (inl low.1) in
    (
      Finds-older x old.header e old.sb old.cur_slot current
            (ap (slot_of x old.cur_slot old.header) (kept old.cur_slot (inl low.0)) ∙ found)
            (λ t o. stale t (sym (ap (slot_of x (target_slot old) old.header) at) ∙ o))
          ∙ ap (λ b. ok (old.sb, old.cur_slot, slot_of x (target_slot old) old.header b)) at,
      kept,
    )
  where
    slots_low : (s : ℕ) → IsSlot s → (s < 3) × (other_slot s < 3)
    slots_low s (inl i) =
        subst (λ s. (s < 3) × (other_slot s < 3)) (sym i) (omega arith, omega arith)
    slots_low s (inr i) =
        subst (λ s. (s < 3) × (other_slot s < 3)) (sym i) (omega arith, omega arith)
