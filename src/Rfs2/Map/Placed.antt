-- ===== src/Rfs2/Map/Placed.antt =====
-- A map whose blocks are all taken, and the descent in it (`imap_get` of fs/rfs2/src/fs.rs).
use pureshade_os.Base.{
  ℕ, zero, suc, ◌<◌, ◌≡◌, refl, sym, ◌∙◌, subst, inl, inr, true, false, none, List, Bool-cases, ap,
}
use pureshade_os.Base.Result.{ok, err, Result-cases, ok_inj}
use pureshade_os.Rfs2.Layout.{Error, BlockPtr, is_null, block_size}
use pureshade_os.Rfs2.Layout.Valid.{Array}
use pureshade_os.Rfs2.Device.{BlockDevice}
use pureshade_os.Rfs2.Transform.{BlockTransform}
use pureshade_os.Rfs2.Fs.{Rfs2, is_taken}
use pureshade_os.Rfs2.Map.{read_ptr, ptr_at, leaf_inode, imap_find, imap_index, load, zero_block}
use pureshade_os.Rfs2.Map.Index.{imap_index_lt}
use pureshade_os.Rfs2.Map.Node.{length-zero_block, ptr_at-zero_block, leaf_inode-zero_block}
use pureshade_os.Rfs2.Map.Fresh.{Extends, read_ptr-Extends}

module _ {D : Type 0} (device : BlockDevice D) (x : BlockTransform) where
  -- Every block of the tree is taken, by a live tree or by the pending generation, and what opens is
  -- a whole block.
  abbrev pub Placed : Rfs2 D → ℕ → BlockPtr → Type 0
  Placed fs zero p =
      is_null p ≡ false
      → (is_taken fs p.block ≡ true)
        × ((buf : List ℕ) → read_ptr device x fs.dev p ≡ ok buf → Array block_size buf)
  Placed fs (suc n) p =
      is_null p ≡ false
      → (is_taken fs p.block ≡ true)
        × ((buf : List ℕ)
            → read_ptr device x fs.dev p ≡ ok buf
            → Array block_size buf × ((i : ℕ) → i < 128 → Placed fs n (ptr_at buf i)))

  not_both : {A : Type 0} (p : BlockPtr) → is_null p ≡ true → is_null p ≡ false → A
  not_both p h k = cc

  pub Placed-null : (fs : Rfs2 D) (n : ℕ) (p : BlockPtr) → is_null p ≡ true → Placed fs n p
  Placed-null fs zero p h = λ k. not_both p h k
  Placed-null fs (suc n) p h = λ k. not_both p h k

  pub find-null :
      (n : ℕ) (dev : D) (p : BlockPtr) (j : ℕ)
      → is_null p ≡ true
      → imap_find device x n dev p j ≡ ok none
  unfolding imap_find
  find-null zero dev p j h = rw h refl
  find-null (suc n) dev p j h = rw h refl

  pub find-leaf :
      (dev : D) (p : BlockPtr) (buf : List ℕ) (j : ℕ)
      → is_null p ≡ false
      → read_ptr device x dev p ≡ ok buf
      → imap_find device x zero dev p j ≡ ok (leaf_inode j buf)
  unfolding imap_find
  find-leaf dev p buf j h r = rw (h, r) refl

  pub find-node :
      (n : ℕ) (dev : D) (p : BlockPtr) (buf : List ℕ) (j : ℕ)
      → is_null p ≡ false
      → read_ptr device x dev p ≡ ok buf
      → imap_find device x (suc n) dev p j
        ≡ imap_find device x n dev (ptr_at buf (imap_index j (suc n))) j
  unfolding imap_find
  find-node n dev p buf j h r = rw (h, r) refl

  find-err :
      (n : ℕ) (dev : D) (p : BlockPtr) (e : Error) (j : ℕ)
      → is_null p ≡ false
      → read_ptr device x dev p ≡ err e
      → imap_find device x n dev p j ≡ err e
  unfolding imap_find
  find-err zero dev p e j h r = rw (h, r) refl
  find-err (suc n) dev p e j h r = rw (h, r) refl

  pub Placed-Extends :
      (fs after : Rfs2 D) (n : ℕ) (p : BlockPtr)
      → Extends device x fs after
      → Placed fs n p
      → Placed after n p
  Placed-Extends fs after zero p f v = λ h.
      let t = v h in
      (f.taken p.block t.0, λ buf r. t.1 buf (sym (read_ptr-Extends device x fs after p f t.0) ∙ r))
  Placed-Extends fs after (suc n) p f v = λ h.
      let t = v h in
      (
        f.taken p.block t.0,
        λ buf r.
            let k = t.1 buf (sym (read_ptr-Extends device x fs after p f t.0) ∙ r) in
            (k.0, λ i l. Placed-Extends fs after n (ptr_at buf i) f (k.1 i l)),
      )

  -- What is found in a tree stays found, whatever is written elsewhere.
  pub find-Extends :
      (n : ℕ) (fs after : Rfs2 D) (p : BlockPtr) (j : ℕ)
      → Extends device x fs after
      → Placed fs n p
      → imap_find device x n after.dev p j ≡ imap_find device x n fs.dev p j
  find-Extends zero fs after p j f v = elim (Bool-cases (is_null p)) [
    | inl h ↦ find-null zero after.dev p j h ∙ sym (find-null zero fs.dev p j h)
    | inr h ↦
        let same = read_ptr-Extends device x fs after p f (v h).0 in
        elim (Result-cases (read_ptr device x fs.dev p)) [
          | inl (buf, r) ↦
              find-leaf after.dev p buf j h (same ∙ r) ∙ sym (find-leaf fs.dev p buf j h r)
          | inr (e, r) ↦
              find-err zero after.dev p e j h (same ∙ r) ∙ sym (find-err zero fs.dev p e j h r)
        ]
  ]
  find-Extends (suc n) fs after p j f v = elim (Bool-cases (is_null p)) [
    | inl h ↦ find-null (suc n) after.dev p j h ∙ sym (find-null (suc n) fs.dev p j h)
    | inr h ↦
        let same = read_ptr-Extends device x fs after p f (v h).0 in
        elim (Result-cases (read_ptr device x fs.dev p)) [
          | inl (buf, r) ↦
              find-node n after.dev p buf j h (same ∙ r)
              ∙ find-Extends n fs after (ptr_at buf (imap_index j (suc n))) j f
                  (((v h).1 buf r).1 (imap_index j (suc n)) (imap_index_lt j n))
              ∙ sym (find-node n fs.dev p buf j h r)
          | inr (e, r) ↦
              find-err (suc n) after.dev p e j h (same ∙ r)
              ∙ sym (find-err (suc n) fs.dev p e j h r)
        ]
  ]

  -- A node that is loaded to be changed: of zeros, where there was none.
  pub load-leaf :
      (fs : Rfs2 D) (p : BlockPtr) (buf : List ℕ)
      → Placed fs zero p
      → load device x fs.dev p ≡ ok buf
      → Array block_size buf
        × ((j : ℕ) → imap_find device x zero fs.dev p j ≡ ok (leaf_inode j buf))
  unfolding load
  load-leaf fs p buf v l = elim (Bool-cases (is_null p)) [
    | inl h ↦
        let e : zero_block ≡ buf = ok_inj zero_block buf (rw h at l) in
        subst
          (λ b.
            Array block_size b
            × ((j : ℕ) → imap_find device x zero fs.dev p j ≡ ok (leaf_inode j b)))
          e
          (
            length-zero_block,
            λ j. find-null zero fs.dev p j h ∙ ap ok (sym (leaf_inode-zero_block j)),
          )
    | inr h ↦
        let r : read_ptr device x fs.dev p ≡ ok buf = rw h at l in
        ((v h).1 buf r, λ j. find-leaf fs.dev p buf j h r)
  ]

  pub load-node :
      (fs : Rfs2 D) (n : ℕ) (p : BlockPtr) (buf : List ℕ)
      → Placed fs (suc n) p
      → load device x fs.dev p ≡ ok buf
      → Array block_size buf
        × ((i : ℕ) → i < 128 → Placed fs n (ptr_at buf i))
        × ((j : ℕ)
            → imap_find device x (suc n) fs.dev p j
              ≡ imap_find device x n fs.dev (ptr_at buf (imap_index j (suc n))) j)
  unfolding load
  load-node fs n p buf v l = elim (Bool-cases (is_null p)) [
    | inl h ↦
        let e : zero_block ≡ buf = ok_inj zero_block buf (rw h at l) in
        subst
          (λ b.
            Array block_size b
            × ((i : ℕ) → i < 128 → Placed fs n (ptr_at b i))
            × ((j : ℕ)
                → imap_find device x (suc n) fs.dev p j
                  ≡ imap_find device x n fs.dev (ptr_at b (imap_index j (suc n))) j))
          e
          (
            length-zero_block,
            λ i l. Placed-null fs n (ptr_at zero_block i) (ptr_at-zero_block i l),
            λ j.
                find-null (suc n) fs.dev p j h
                ∙ sym (
                    find-null n fs.dev (ptr_at zero_block (imap_index j (suc n))) j
                      (ptr_at-zero_block (imap_index j (suc n)) (imap_index_lt j n))),
          )
    | inr h ↦
        let r : read_ptr device x fs.dev p ≡ ok buf = rw h at l in
        let k = (v h).1 buf r in (k.0, k.1, λ j. find-node n fs.dev p buf j h r)
  ]
