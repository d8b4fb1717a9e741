-- ===== src/Rfs2/Map/Root.antt =====
-- The staged map, and a new root over it (fs/rfs2/src/fs.rs).
use pureshade_os.Base.{
  ℕ, zero, suc, ◌≤◌, ◌<◌, ◌≡◌, ◌≢◌, refl, ap, sym, ◌∙◌, subst, inl, inr, true, false, Option, none,
  List, arith, leb, leb→le, le→leb, Bool-cases, if◌then◌else◌,
}
use pureshade_os.Base.Result.{Result, ok, ok_inj}
use pureshade_os.Rfs2.Layout.{Error, BlockPtr, is_null, block_size}
use pureshade_os.Rfs2.Layout.Valid.{Array, PtrFits}
use pureshade_os.Rfs2.Inode.{Inode}
use pureshade_os.Rfs2.Device.{BlockDevice}
use pureshade_os.Rfs2.Transform.{BlockTransform}
use pureshade_os.Rfs2.Fs.{Rfs2, is_taken}
use pureshade_os.Rfs2.Map.{
  ptr_at, set_ptr_at, zero_block, imap_find, imap_get, imap_index, imap_capacity, root_grown,
}
use pureshade_os.Rfs2.Map.Index.{
  reach, below_reach, imap_capacity-reach, imap_index_lt, imap_index-first, imap_index-later,
  imap_capacity_grows,
}
use pureshade_os.Rfs2.Map.Node.{
  ptr_at-set_ptr_at, ptr_at-set_ptr_at_ne, ptr_at-zero_block, length-set_ptr_at, length-zero_block,
}
use pureshade_os.Rfs2.Map.Fresh.{Ready, Extends, FreshOutcome}
use pureshade_os.Rfs2.Map.Placed.{
  Placed, Placed-null, Placed-Extends, find-Extends, find-null, find-node,
}

module _ {D : Type 0} (device : BlockDevice D) (x : BlockTransform) where
  -- The staged map: all its blocks are taken, and its height is one that numbers of 64 bits need.
  pub record Mapped (fs : Rfs2 D) : Type 0 where
    pub ready : Ready fs
    pub height : fs.staged_height ≤ 9
    pub root : PtrFits fs.staged_root
    pub placed : Placed device x fs fs.staged_height fs.staged_root

  pub Mapped-Extends : (fs after : Rfs2 D) → Extends device x fs after → Mapped fs → Mapped after
  Mapped-Extends fs after f m = record {
    ready = f.ready;
    height = omega (arith, f.height, m.height);
    root = subst (λ p. PtrFits p) (sym f.root) m.root;
    placed =
        subst (λ p. Placed device x after after.staged_height p) (sym f.root)
          (subst (λ h. Placed device x after h fs.staged_root) (sym f.height)
            (Placed-Extends device x fs after fs.staged_height fs.staged_root f m.placed));
  }

  pub imap_get-Extends :
      (fs after : Rfs2 D) (j : ℕ)
      → Extends device x fs after
      → Mapped fs
      → imap_get device x after j ≡ imap_get device x fs j
  unfolding imap_get
  imap_get-Extends fs after j f m =
      ap
        (λ h.
          if leb (imap_capacity h) j
          then ok none
          else imap_find device x h after.dev after.staged_root j)
        f.height
      ∙ ap
          (λ p.
            if leb (imap_capacity fs.staged_height) j
            then ok none
            else imap_find device x fs.staged_height after.dev p j)
          f.root
      ∙ ap (λ r. if leb (imap_capacity fs.staged_height) j then ok none else r)
          (find-Extends device x fs.staged_height fs after fs.staged_root j f m.placed)

  Placed-root_grown :
      (n : ℕ) (fs : Rfs2 D) (p q : BlockPtr)
      → Placed device x fs n q
      → Placed device x (root_grown fs p) n q
  unfolding root_grown is_taken
  Placed-root_grown zero fs p q v = v
  Placed-root_grown (suc n) fs p q v = λ h.
      let t = v h in
      (
        t.0,
        λ buf r.
            ((t.1 buf r).0, λ i l. Placed-root_grown n fs p (ptr_at buf i) ((t.1 buf r).1 i l)),
      )

  -- A new root over the old one.
  module _ (fs after : Rfs2 D) (p : BlockPtr) (m : Mapped fs) (small : fs.staged_height < 9)
      (f : FreshOutcome device x fs (set_ptr_at zero_block 0 fs.staged_root) (after, ok p)) where
    new_root : List ℕ
    new_root = set_ptr_at zero_block 0 fs.staged_root

    not_leb : (a b : ℕ) → leb a b ≡ false → b < a
    not_leb a b h = ground arith

    first_child : ptr_at new_root 0 ≡ fs.staged_root
    unfolding new_root
    first_child =
        ptr_at-set_ptr_at zero_block 0 fs.staged_root length-zero_block (omega arith) m.root

    other_child : (i : ℕ) → 0 ≢ i → i < 128 → is_null (ptr_at new_root i) ≡ true
    unfolding new_root
    other_child i d l =
        ap is_null (ptr_at-set_ptr_at_ne zero_block 0 i fs.staged_root d) ∙ ptr_at-zero_block i l

    child-Placed : (i : ℕ) → i < 128 → Placed device x after fs.staged_height (ptr_at new_root i)
    child-Placed zero l =
        subst (λ c. Placed device x after fs.staged_height c) (sym first_child)
          (Placed-Extends device x fs after fs.staged_height fs.staged_root f.0 m.placed)
    child-Placed (suc i) l =
        let other : 0 ≢ suc i = λ q. omega (arith, q) in
        Placed-null device x after fs.staged_height (ptr_at new_root (suc i))
          (other_child (suc i) other l)

    find-grown :
        (j : ℕ)
        → j < reach (suc fs.staged_height)
        → imap_find device x (suc fs.staged_height) after.dev p j ≡ imap_get device x fs j
    unfolding imap_get new_root
    find-grown j l = elim (Bool-cases (leb (imap_capacity fs.staged_height) j)) [
      | inl e ↦
          let above : reach fs.staged_height ≤ j = omega (
            arith,
            leb→le (imap_capacity fs.staged_height) j e,
            imap_capacity-reach fs.staged_height small,
          ) in
          let d = imap_index-later j fs.staged_height small above l in
          find-node device x fs.staged_height after.dev p new_root j f.1 f.4
          ∙ find-null device x fs.staged_height after.dev
              (ptr_at new_root (imap_index j (suc fs.staged_height))) j
              (other_child (imap_index j (suc fs.staged_height)) (λ q. d (sym q))
                (imap_index_lt j fs.staged_height))
          ∙ rw e refl
      | inr e ↦
          let below : j < reach fs.staged_height =
            below_reach fs.staged_height j m.height
              (not_leb (imap_capacity fs.staged_height) j e) in
          find-node device x fs.staged_height after.dev p new_root j f.1 f.4
          ∙ ap (λ i. imap_find device x fs.staged_height after.dev (ptr_at new_root i) j)
              (imap_index-first j fs.staged_height small below)
          ∙ ap (λ c. imap_find device x fs.staged_height after.dev c j) first_child
          ∙ find-Extends device x fs.staged_height fs after fs.staged_root j f.0 m.placed
          ∙ rw e refl
    ]

    pub root_grown-Mapped : Mapped (root_grown after p)
    unfolding root_grown new_root is_taken
    root_grown-Mapped = record {
      ready = record { cursor = f.0.ready.cursor; total = f.0.ready.total; gen = f.0.ready.gen };
      height = omega (arith, f.0.height, small);
      root = f.2;
      placed =
          subst (λ h. Placed device x (root_grown after p) (suc h) p) (sym f.0.height)
            (λ h. (
              f.3,
              λ other r.
                  subst
                    (λ c.
                      Array block_size c
                      × ((i : ℕ)
                          → i < 128
                          → Placed device x (root_grown after p) fs.staged_height (ptr_at c i)))
                    (ok_inj new_root other (sym f.4 ∙ r))
                    (
                      length-set_ptr_at zero_block 0 fs.staged_root ∙ length-zero_block,
                      λ i l.
                          Placed-root_grown fs.staged_height after p (ptr_at new_root i)
                            (child-Placed i l),
                    ),
            ));
    }

    pub imap_get-root_grown :
        (j : ℕ) → imap_get device x (root_grown after p) j ≡ imap_get device x fs j
    unfolding root_grown imap_get
    imap_get-root_grown j =
        ap get_at f.0.height ∙ elim (Bool-cases (leb (imap_capacity (suc fs.staged_height)) j)) [
          | inl e ↦
              let full : leb (imap_capacity fs.staged_height) j ≡ true =
                le→leb (imap_capacity fs.staged_height) j (
                  omega (
                    arith,
                    leb→le (imap_capacity (suc fs.staged_height)) j e,
                    imap_capacity_grows fs.staged_height small,
                  )) in
              rw (e, full) refl
          | inr e ↦ rw e (
              find-grown j (
                below_reach (suc fs.staged_height) j (omega (arith, small))
                  (not_leb (imap_capacity (suc fs.staged_height)) j e)))
        ]
      where
        get_at : ℕ → Result Error (Option Inode)
        get_at h =
            if leb (imap_capacity (suc h)) j
            then ok none
            else imap_find device x (suc h) after.dev p j
