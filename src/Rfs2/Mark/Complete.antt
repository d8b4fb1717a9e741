-- ===== src/Rfs2/Mark/Complete.antt =====
-- A mark that succeeds marks exactly the blocks that the tree reaches (fs/rfs2/src/space.rs).
use pureshade_os.Base.{
  ℕ, zero, suc, ◌<◌, ◌≡◌, ◌≢◌, refl, ap, sym, ◌∙◌, subst, ◌↔◌, inl, inr, true, false, List, arith,
  Bool-cases,
}
use pureshade_os.Base.Result.{Result, ok, err, Result-cases, ok_inj}
use pureshade_os.Rfs2.Layout.{Error, BlockPtr, is_null}
use pureshade_os.Rfs2.Inode.{Inode, is_used, is_fast_symlink}
use pureshade_os.Rfs2.Device.{BlockDevice}
use pureshade_os.Rfs2.Transform.{BlockTransform}
use pureshade_os.Rfs2.Space.{new_bitmap, get, count}
use pureshade_os.Rfs2.Space.Count.{get-new_bitmap, count-new_bitmap}
use pureshade_os.Rfs2.Map.{read_ptr, ptr_at}
use pureshade_os.Rfs2.Mark.{
  Fault, opened, Marks, Marked, for_each, visit, with_block, mark_bmap, mark_slot, mark_imap,
  mark_tree, inode_at, has_map,
}
use pureshade_os.Rfs2.Mark.Reach.{Role, Child, Reaches}
use pureshade_os.Rfs2.Mark.Sweep.{
  marked, and_then_ok, Reached, Here, ChildrenHere, Sweep, Sweep-refl, MarksOk, for_each_lem,
  visit_lem,
}

module _ {D : Type 0} (device : BlockDevice D) (x : BlockTransform) (dev : D) (role : Role)
    (root : BlockPtr) where
  abbrev Ok : Role → BlockPtr → (Marks → Marked) → Type 0
  Ok r p f = MarksOk device x dev role root r p f

  abbrev Swept : Marks → Marks → Type 0
  Swept m after = Sweep device x dev role root m after

  same_buf :
      (p : BlockPtr) (buf other : List ℕ)
      → opened (read_ptr device x dev p) ≡ ok buf
      → read_ptr device x dev p ≡ ok other
      → buf ≡ other
  unfolding opened
  same_buf p buf other h k = cc

  was_read :
      (p : BlockPtr) (buf : List ℕ)
      → opened (read_ptr device x dev p) ≡ ok buf
      → read_ptr device x dev p ≡ ok buf
  unfolding opened
  was_read p buf h = elim (Result-cases (read_ptr device x dev p)) [
    | inl (other, e) ↦ e ∙ ap ok (sym (same_buf p buf other h e))
    | inr (e, f) ↦ absurd (refused e f)
  ]
    where
      refused : (e : Error) → read_ptr device x dev p ≢ err e
      refused e f = cc

  -- A visit of a block with a loop over it, whose rounds mark the pointers that the children are.
  node_lem :
      (r : Role) (p : BlockPtr) (count : ℕ) (step : List ℕ → ℕ → Marks → Marked)
      (wants : List ℕ → ℕ → BlockPtr → Type 0)
      → ((buf : List ℕ) (j : ℕ)
          → is_null p ≡ false
          → read_ptr device x dev p ≡ ok buf
          → j < count
          → (m after : Marks) → step buf j m ≡ (after, ok tt)
          → Swept m after × ((q : BlockPtr) → wants buf j q → Here device x dev role root after q))
      → ((s : Role) (q : BlockPtr)
          → Child device x dev r p s q
          → (buf : List ℕ) × (j : ℕ) × (read_ptr device x dev p ≡ ok buf)
            × (j < count)
            × wants buf j q)
      → Ok r p (visit p (with_block device x dev p (λ buf. for_each (step buf) 0 count)))
  unfolding with_block
  node_lem r p count step wants rounds kids =
      visit_lem device x dev role root r p
        (with_block device x dev p (λ buf. for_each (step buf) 0 count)) body
    where
      body :
          (m after : Marks)
          → with_block device x dev p (λ buf. for_each (step buf) 0 count) m ≡ (after, ok tt)
          → is_null p ≡ false
          → Swept m after × ChildrenHere device x dev role root after r p
      body m after h n =
          let loop : Marks → List ℕ → Marked = λ m buf. for_each (step buf) 0 count m in
          let s = and_then_ok (m, opened (read_ptr device x dev p)) loop after tt h in
          let read = was_read p s.1 (ap (λ r. r.1) s.2) in
          let run : for_each (step s.1) 0 count m ≡ (after, ok tt) =
            ap (λ t. for_each (step s.1) 0 count t) (ap (λ r. r.0) s.2) ∙ s.3 in
          let swept =
            for_each_lem device x dev role root (step s.1) (wants s.1) 0 count
              (λ j a b. rounds s.1 j n read (omega arith)) m after run in
          (
            swept.0,
            λ t q c.
                let k = kids t q c in
                swept.1 k.1 (omega arith) (omega (arith, k.3)) q
                  (subst (λ buf. wants buf k.1 q) (ok_inj k.0 s.1 (sym k.2 ∙ read)) k.4),
          )

  mark_bmap_lem : (n : ℕ) (p : BlockPtr) → Ok (Role.file_node n) p (mark_bmap device x dev n p)
  unfolding mark_bmap with_block
  mark_bmap_lem zero p =
      visit_lem device x dev role root (Role.file_node 0) p
        (with_block device x dev p (λ buf m. (m, ok tt)))
        (λ m after h n.
          let empty_loop : Marks → List ℕ → Marked = λ m buf. (m, ok tt) in
          let s = and_then_ok (m, opened (read_ptr device x dev p)) empty_loop after tt h in
          (
            subst (λ a. Swept m a) (ap (λ r. r.0) s.2 ∙ ap (λ r. r.0) s.3)
                (Sweep-refl device x dev role root m),
            λ t q c. absurd c,
          ))
  mark_bmap_lem (suc n) p = λ m after reach h.
      node_lem (Role.file_node (suc n)) p 128 (λ buf i. mark_bmap device x dev n (ptr_at buf i))
        (λ buf j q. q ≡ ptr_at buf j)
        (λ buf j e read l m after h.
          let r =
            mark_bmap_lem n (ptr_at buf j) m after
              (Reaches.down reach e (buf, j, read, l, refl, refl)) h in
          (r.0, λ q w. subst (λ k. Here device x dev role root after k) (sym w) r.1))
        (λ t q c. (c.0, c.1, c.2, c.3, c.5)) m after reach h

  -- The block map of an inode of a leaf.
  abbrev MapOf : List ℕ → ℕ → BlockPtr → Type 0
  MapOf buf j q =
      (is_used (inode_at buf j) ≡ true)
      × (is_fast_symlink (inode_at buf j) ≡ false)
      × (q ≡ (inode_at buf j).bmap_root)

  mark_slot_lem :
      (p : BlockPtr) (buf : List ℕ) (j : ℕ)
      → Reached device x dev role root (Role.map_node 0) p
      → is_null p ≡ false
      → read_ptr device x dev p ≡ ok buf
      → j < 32
      → (m after : Marks) → mark_slot device x dev buf j m ≡ (after, ok tt)
      → Swept m after × ((q : BlockPtr) → MapOf buf j q → Here device x dev role root after q)
  unfolding mark_slot has_map
  mark_slot_lem p buf j reach n read l m after h = elim (Bool-cases (has_map (inode_at buf j))) [
    | inl e ↦
        let ino = inode_at buf j in
        let r =
          mark_bmap_lem ino.bmap_height ino.bmap_root m after
            (Reaches.down reach n (buf, j, read, l, (mapped ino e).0, (mapped ino e).1, refl, refl))
            (rw e at h) in
        (r.0, λ q w. subst (λ k. Here device x dev role root after k) (sym w.2) r.1)
    | inr e ↦ (
      subst (λ a. Swept m a) (ap (λ r. r.0) (rw e at h)) (Sweep-refl device x dev role root m),
      λ q w. absurd (not_both (inode_at buf j) e w.0 w.1),
    )
  ]
    where
      not_both :
          (ino : Inode) → has_map ino ≡ false → is_used ino ≡ true → is_fast_symlink ino ≡ false → ⊥
      not_both ino e u f = ground arith

      mapped :
          (ino : Inode) → has_map ino ≡ true → (is_used ino ≡ true) × (is_fast_symlink ino ≡ false)
      mapped ino e = ground arith

  mark_imap_lem : (n : ℕ) (p : BlockPtr) → Ok (Role.map_node n) p (mark_imap device x dev n p)
  unfolding mark_imap
  mark_imap_lem zero p = λ m after reach h.
      node_lem (Role.map_node zero) p 32 (mark_slot device x dev) (λ buf j q. MapOf buf j q)
        (λ buf j e read l. mark_slot_lem p buf j reach e read l)
        (λ t q c. (c.0, c.1, c.2, c.3, (c.4, c.5, c.7))) m after reach h
  mark_imap_lem (suc n) p = λ m after reach h.
      node_lem (Role.map_node (suc n)) p 128 (λ buf i. mark_imap device x dev n (ptr_at buf i))
        (λ buf j q. q ≡ ptr_at buf j)
        (λ buf j e read l m after h.
          let r =
            mark_imap_lem n (ptr_at buf j) m after
              (Reaches.down reach e (buf, j, read, l, refl, refl)) h in
          (r.0, λ q w. subst (λ k. Here device x dev role root after k) (sym w) r.1))
        (λ t q c. (c.0, c.1, c.2, c.3, c.5)) m after reach h

module _ {D : Type 0} (device : BlockDevice D) (x : BlockTransform) (dev : D) (root : BlockPtr)
    (height : ℕ) where
  -- A block that is reached is read as one thing: no two pointers to it differ, nor their heights.
  abbrev pub OneRole : Type 0
  OneRole =
      (r s : Role) (p q : BlockPtr)
      → Reached device x dev (Role.map_node height) root r p
      → Reached device x dev (Role.map_node height) root s q
      → is_null p ≡ false
      → is_null q ≡ false
      → p.block ≡ q.block
      → (r ≡ s) × (p ≡ q)

  -- A block with a pointer to it in the tree.
  abbrev pub Live : ℕ → Type 0
  Live b =
      (r : Role) × (p : BlockPtr) × Reached device x dev (Role.map_node height) root r p
      × (is_null p ≡ false)
      × (p.block ≡ b)

  all_marked :
      (m after : Marks)
      → OneRole
      → ((b : ℕ) → marked m b ≡ false)
      → Sweep device x dev (Role.map_node height) root m after
      → Here device x dev (Role.map_node height) root after root
      → (r : Role) (p : BlockPtr) → Reached device x dev (Role.map_node height) root r p
      → Here device x dev (Role.map_node height) root after p
  all_marked m after one none_yet s top r p Reaches.here = top
  all_marked m after one none_yet s top r q (Reaches.down {r = r0} {p = p} reach n c) =
      let here = all_marked m after one none_yet s top r0 p reach n in
      let w = s.fresh p.block (none_yet p.block) here in
      let same = one w.0 r0 w.1 p w.2 reach w.3 n w.4 in
      w.5 r q (
        subst (λ t. Child device x dev t w.1 r q) (sym same.0)
          (subst (λ t. Child device x dev r0 t r q) (sym same.1) c))

  -- From a new bitmap, where every block that the tree reaches is read as one thing: if the mark
  -- succeeds, the marked blocks are exactly those that a pointer in the tree points to, and the
  -- count that is answered is the number of the marked ones.
  pub mark_tree_lem :
      (blocks : ℕ) (after : Marks) (n : ℕ)
      → OneRole
      → mark_tree device x dev root height (new_bitmap blocks) ≡ (after, ok n)
      → ((b : ℕ) → (get after.bits b ≡ true) ↔ Live b) × (n ≡ count after.bits)
  unfolding mark_tree
  mark_tree_lem blocks after n one h =
      let start : Marks = record { bits = new_bitmap blocks; count = 0 } in
      let none_yet : (b : ℕ) → get (new_bitmap blocks) b ≡ false = get-new_bitmap blocks in
      let answer : Marks → Unit {0} → Marks × Result Fault ℕ = λ m done. (m, ok m.count) in
      let s = and_then_ok (mark_imap device x dev height root start) answer after n h in
      let run : mark_imap device x dev height root start ≡ (after, ok tt) =
        s.2 ∙ ap (λ t. (t, ok tt)) (ap (λ r. r.0) s.3) in
      let r =
        mark_imap_lem device x dev (Role.map_node height) root height root start after Reaches.here
          run in
      let answered : after.count ≡ n =
        ap (λ m. m.count) (sym (ap (λ r. r.0) s.3)) ∙ ok_inj s.0.count n (ap (λ r. r.1) s.3) in
      (
        λ b. (
          λ t. let w = r.0.fresh b (none_yet b) t in (w.0, w.1, w.2, w.3, w.4),
          λ l.
              subst (λ k. get after.bits k ≡ true) l.4
                (all_marked start after one none_yet r.0 r.1 l.0 l.1 l.2 l.3),
        ),
        omega (arith, answered, r.0.counts, count-new_bitmap blocks),
      )
