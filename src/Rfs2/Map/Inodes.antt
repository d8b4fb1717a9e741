-- ===== src/Rfs2/Map/Inodes.antt =====
-- `imap_set_rec` of fs/rfs2/src/fs.rs changes the inode that it is for, and no other.
use pureshade_os.Base.{
  ℕ, zero, suc, ◌<◌, ◌≡◌, ◌≢◌, ap, sym, ◌∙◌, subst, ◌⊎◌, inl, inr, false, List, arith,
}
use pureshade_os.Base.Bytes.{overlay, length-overlay}
use pureshade_os.Base.Result.{Result, ok, err, Result-cases, ok_inj}
use pureshade_os.Rfs2.Layout.{Error, BlockPtr, is_null, block_size, inode_size}
use pureshade_os.Rfs2.Layout.Valid.{Array, PtrFits}
use pureshade_os.Rfs2.Inode.{decode}
use pureshade_os.Rfs2.Device.{BlockDevice}
use pureshade_os.Rfs2.Transform.{BlockTransform}
use pureshade_os.Rfs2.Transform.Laws.{IsLawful}
use pureshade_os.Rfs2.Fs.{Rfs2, retire, write_fresh}
use pureshade_os.Rfs2.Map.{
  read_ptr, ptr_at, set_ptr_at, imap_find, imap_index, load, used, slot_of_ino, imap_set_rec,
  leaf_inode, and_then,
}
use pureshade_os.Rfs2.Map.Index.{imap_index_lt, Apart}
use pureshade_os.Rfs2.Map.Node.{
  ptr_at-set_ptr_at, ptr_at-set_ptr_at_ne, length-set_ptr_at, leaf_inode-overlay,
  leaf_inode-overlay_ne,
}
use pureshade_os.Rfs2.Map.Fresh.{
  ReadsBack, Ready, Extends, Extends-refl, Extends-trans, Extends-retire, FreshOutcome,
  write_fresh_lem,
}
use pureshade_os.Rfs2.Map.Placed.{
  Placed, Placed-Extends, find-Extends, find-leaf, find-node, load-leaf, load-node,
}

module _ {D : Type 0} (device : BlockDevice D) (x : BlockTransform) where
  -- What the rewriting of a tree answers and leaves: with an error, nothing that is taken has
  -- changed; else also the root of a tree in which the number has the inode of these bytes, and every
  -- number that parts from it finds what it did in the tree before.
  abbrev pub RecOutcome :
      Rfs2 D → ℕ → BlockPtr → ℕ → List ℕ → Rfs2 D × Result Error BlockPtr → Type 0
  RecOutcome fs n p ino bytes (after, err e) = Extends device x fs after
  RecOutcome fs n p ino bytes (after, ok q) =
      Extends device x fs after
      × PtrFits q
      × Placed device x after n q
      × (imap_find device x n after.dev q ino ≡ ok (used (decode bytes)))
      × ((j : ℕ)
          → Apart n ino j
          → imap_find device x n after.dev q j ≡ imap_find device x n fs.dev p j)

  same_read :
      (dev : D) (q : BlockPtr) (buf other : List ℕ)
      → read_ptr device x dev q ≡ ok buf
      → read_ptr device x dev q ≡ ok other
      → buf ≡ other
  same_read dev q buf other h k = ok_inj buf other (sym h ∙ k)

  leaf_written :
      (fs : Rfs2 D) (p : BlockPtr) (ino : ℕ) (bytes buf : List ℕ)
      (r : Rfs2 D × Result Error BlockPtr)
      → Extends device x fs (retire fs p)
      → Array inode_size bytes
      → Array block_size buf
      → ((j : ℕ) → imap_find device x zero fs.dev p j ≡ ok (leaf_inode j buf))
      → FreshOutcome device x (retire fs p) (overlay buf (slot_of_ino ino) bytes) r
      → RecOutcome fs zero p ino bytes r
  leaf_written fs p ino bytes buf (after, err e) g l b look f =
      Extends-trans device x fs (retire fs p) after g f
  leaf_written fs p ino bytes buf (after, ok q) g l b look f =
      let new = overlay buf (slot_of_ino ino) bytes in
      (
        Extends-trans device x fs (retire fs p) after g f.0,
        f.2,
        λ h. (
          f.3,
          λ other r.
              subst (λ c. Array block_size c) (same_read after.dev q new other f.4 r)
                (length-overlay buf (slot_of_ino ino) bytes ∙ b),
        ),
        find-leaf device x after.dev q new ino f.1 f.4
            ∙ ap ok (leaf_inode-overlay ino buf bytes b l),
        λ j a.
            find-leaf device x after.dev q new j f.1 f.4
            ∙ ap ok (leaf_inode-overlay_ne ino j buf bytes l a)
            ∙ sym (look j),
      )

  module _ (n : ℕ) (fs : Rfs2 D) (p : BlockPtr) (ino : ℕ) (bytes buf : List ℕ)
      (g : Extends device x fs (retire fs p)) (b : Array block_size buf)
      (kids : (i : ℕ) → i < 128 → Placed device x fs n (ptr_at buf i))
      (look : (j : ℕ)
        → imap_find device x (suc n) fs.dev p j
          ≡ imap_find device x n fs.dev (ptr_at buf (imap_index j (suc n))) j) where
    idx : ℕ
    idx = imap_index ino (suc n)

    index_dec : (a b : ℕ) → (a ≡ b) ⊎ (a ≢ b)
    index_dec a b = grind arith

    -- Other children are found as before.
    elsewhere :
        (after : Rfs2 D) (child q : BlockPtr)
        → Extends device x fs after
        → is_null q ≡ false
        → read_ptr device x after.dev q ≡ ok (set_ptr_at buf idx child)
        → (j : ℕ) → idx ≢ imap_index j (suc n)
        → imap_find device x (suc n) after.dev q j ≡ imap_find device x (suc n) fs.dev p j
    elsewhere after child q all h r j d =
        find-node device x n after.dev q (set_ptr_at buf idx child) j h r
        ∙ ap (λ c. imap_find device x n after.dev c j)
            (ptr_at-set_ptr_at_ne buf idx (imap_index j (suc n)) child d)
        ∙ find-Extends device x n fs after (ptr_at buf (imap_index j (suc n))) j all
            (kids (imap_index j (suc n)) (imap_index_lt j n))
        ∙ sym (look j)

    children-Placed :
        (after : Rfs2 D) (child : BlockPtr)
        → Extends device x fs after
        → ptr_at (set_ptr_at buf idx child) idx ≡ child
        → Placed device x after n child
        → (i : ℕ) → i < 128
        → Placed device x after n (ptr_at (set_ptr_at buf idx child) i)
    children-Placed after child all here placed i l = elim (index_dec idx i) [
      | inl e ↦
          subst (λ k. Placed device x after n (ptr_at (set_ptr_at buf idx child) k)) e
            (subst (λ c. Placed device x after n c) (sym here) placed)
      | inr d ↦
          subst (λ c. Placed device x after n c) (sym (ptr_at-set_ptr_at_ne buf idx i child d))
            (Placed-Extends device x fs after n (ptr_at buf i) all (kids i l))
    ]

    node_written :
        (mid : Rfs2 D) (child : BlockPtr) (r : Rfs2 D × Result Error BlockPtr)
        → RecOutcome (retire fs p) n (ptr_at buf idx) ino bytes (mid, ok child)
        → FreshOutcome device x mid (set_ptr_at buf idx child) r
        → RecOutcome fs (suc n) p ino bytes r
    unfolding idx
    node_written mid child (after, err e) o f =
        Extends-trans device x fs mid after (Extends-trans device x fs (retire fs p) mid g o.0) f
    node_written mid child (after, ok q) o f =
        let new = set_ptr_at buf idx child in
        let all =
          Extends-trans device x fs mid after (Extends-trans device x fs (retire fs p) mid g o.0)
            f.0 in
        let here = ptr_at-set_ptr_at buf idx child b (imap_index_lt ino n) o.1 in
        let placed = Placed-Extends device x mid after n child f.0 o.2 in
        (
          all,
          f.2,
          λ h. (
            f.3,
            λ other r.
                subst
                  (λ c.
                    Array block_size c × ((i : ℕ) → i < 128 → Placed device x after n (ptr_at c i)))
                  (same_read after.dev q new other f.4 r)
                  (
                    length-set_ptr_at buf idx child ∙ b,
                    children-Placed after child all here placed,
                  ),
          ),
          find-node device x n after.dev q new ino f.1 f.4
              ∙ ap (λ c. imap_find device x n after.dev c ino) here
              ∙ find-Extends device x n mid after child ino f.0 o.2
              ∙ o.3,
          λ j a. elim (index_dec idx (imap_index j (suc n))) [
            | inr d ↦ elsewhere after child q all f.1 f.4 j d
            | inl e ↦
                find-node device x n after.dev q new j f.1 f.4
                ∙ ap (λ k. imap_find device x n after.dev (ptr_at new k) j) (sym e)
                ∙ ap (λ c. imap_find device x n after.dev c j) here
                ∙ find-Extends device x n mid after child j f.0 o.2
                ∙ o.4 j (further j a e)
                ∙ find-Extends device x n fs (retire fs p) (ptr_at buf idx) j g
                    (kids idx (imap_index_lt ino n))
                ∙ ap (λ k. imap_find device x n fs.dev (ptr_at buf k) j) e
                ∙ sym (look j)
          ],
        )
      where
        further : (j : ℕ) → Apart (suc n) ino j → idx ≡ imap_index j (suc n) → Apart n ino j
        further j (inl d) e = absurd (d e)
        further j (inr a) e = a

    child_set :
        (law : ReadsBack device) (lawful : IsLawful x) (r : Rfs2 D × Result Error BlockPtr)
        → RecOutcome (retire fs p) n (ptr_at buf idx) ino bytes r
        → RecOutcome fs
            (suc n)
            p
            ino
            bytes
            (and_then r (λ fs child. write_fresh device x fs (set_ptr_at buf idx child)))
    child_set law lawful (mid, err e) o = Extends-trans device x fs (retire fs p) mid g o
    child_set law lawful (mid, ok child) o =
        node_written mid child (write_fresh device x mid (set_ptr_at buf idx child)) o
          (write_fresh_lem device x law lawful mid (set_ptr_at buf idx child) o.0.ready)

  pub imap_set_rec_lem :
      (law : ReadsBack device) (lawful : IsLawful x) (n : ℕ) (fs : Rfs2 D) (p : BlockPtr) (ino : ℕ)
      (bytes : List ℕ)
      → Ready fs
      → Array inode_size bytes
      → Placed device x fs n p
      → RecOutcome fs n p ino bytes (imap_set_rec device x n fs p ino bytes)
  unfolding imap_set_rec idx
  imap_set_rec_lem law lawful zero fs p ino bytes r l v =
      elim (Result-cases (load device x fs.dev p)) [
        | inl (buf, h) ↦
            let g = Extends-retire device x fs p r in
            let k = load-leaf device x fs p buf v h in
            let new = overlay buf (slot_of_ino ino) bytes in
            rw h (
              leaf_written fs p ino bytes buf (write_fresh device x (retire fs p) new) g l k.0 k.1
                (write_fresh_lem device x law lawful (retire fs p) new g.ready))
        | inr (e, h) ↦ rw h (Extends-refl device x fs r)
      ]
  imap_set_rec_lem law lawful (suc n) fs p ino bytes r l v =
      elim (Result-cases (load device x fs.dev p)) [
        | inl (buf, h) ↦
            let g = Extends-retire device x fs p r in
            let k = load-node device x fs n p buf v h in
            let i = imap_index ino (suc n) in
            let child = ptr_at buf i in
            rw h (
              child_set n fs p ino bytes buf g k.0 k.1 k.2 law lawful
                (imap_set_rec device x n (retire fs p) child ino bytes)
                (imap_set_rec_lem law lawful n (retire fs p) child ino bytes g.ready l (
                  Placed-Extends device x fs (retire fs p) n child g
                    (k.1 i (imap_index_lt ino n)))))
        | inr (e, h) ↦ rw h (Extends-refl device x fs r)
      ]
