-- ===== src/Rfs2/Mark/Tests.antt =====
-- The mark of a small tree on a device in memory.
use pureshade_os.Base.{
  ℕ, zero, suc, ◌+◌, ◌*◌, ◌≤◌, ◌<◌, ◌≡◌, ◌≢◌, ◌↔◌, ◌⊎◌, inl, inr, refl, ap, sym, ◌∙◌, subst, Bool,
  true, false, not, ◌&&◌, List, [], arith, ◌==◌, if◌then◌else◌,
}
use pureshade_os.Base.Bytes.{span}
use pureshade_os.Base.Result.{ok, ok_inj}
use pureshade_os.Rfs2.Layout.{BlockPtr, is_null}
use pureshade_os.Rfs2.Transform.{identity, zero_tag}
use pureshade_os.Rfs2.Space.{new_bitmap, get, set_bit, count}
use pureshade_os.Rfs2.Fs.Disks.{Disk, disk}
use pureshade_os.Rfs2.Map.{set_ptr_at, zero_block, ptr_at, read_ptr}
use pureshade_os.Rfs2.Map.Node.{
  ptr_at-set_ptr_at, ptr_at-set_ptr_at_ne, ptr_at-zero_block, length-zero_block, zero_block_unused,
}
use pureshade_os.Rfs2.Layout.Valid.{PtrFits}
use pureshade_os.Rfs2.Inode.{is_used, is_fast_symlink, decode}
use pureshade_os.Rfs2.Mark.{
  Marks, Marked, for_each, visit, with_block, opened, has_map, inode_at, mark_slot, mark_imap,
  mark_tree,
}
use pureshade_os.Rfs2.Mark.Reach.{Role, Reaches, Child}
use pureshade_os.Rfs2.Mark.Sweep.{Reached}
use pureshade_os.Rfs2.Mark.Complete.{OneRole, Live, mark_tree_lem}

-- The root in block 3 has one child, an empty leaf in block 4.
abbrev root_ptr : BlockPtr
root_ptr = record { block = 3; gen = 5; tag = zero_tag }

abbrev leaf_ptr : BlockPtr
leaf_ptr = record { block = 4; gen = 5; tag = zero_tag }

node : List ℕ
node = set_ptr_at zero_block 0 leaf_ptr

abbrev tree : Disk
tree = (λ b. if b == 3 then node else zero_block, [])

leaf_ptr-PtrFits : PtrFits leaf_ptr
leaf_ptr-PtrFits = record { block = omega arith; gen = omega arith; tag = refl }

node_first : ptr_at node 0 ≡ leaf_ptr
unfolding node
node_first =
    ptr_at-set_ptr_at zero_block 0 leaf_ptr length-zero_block (omega arith) leaf_ptr-PtrFits

node_other : (i : ℕ) → 0 ≢ i → i < 128 → is_null (ptr_at node i) ≡ true
unfolding node
node_other i d l =
    ap is_null (ptr_at-set_ptr_at_ne zero_block 0 i leaf_ptr d) ∙ ptr_at-zero_block i l

node_read : read_ptr disk identity tree root_ptr ≡ ok node
unfolding read_ptr identity
node_read = refl

leaf_read : read_ptr disk identity tree leaf_ptr ≡ ok zero_block
unfolding read_ptr identity
leaf_read = refl

-- Rounds that find nothing.
for_each_idle :
    (f : ℕ → Marks → Marked) (i n : ℕ) (m : Marks)
    → ((j : ℕ) → i ≤ j → j < i + n → f j m ≡ (m, ok tt))
    → for_each f i n m ≡ (m, ok tt)
unfolding for_each
for_each_idle f i zero m h = refl
for_each_idle f i (suc n) m h =
    rw (h i (omega arith) (omega arith))
      (for_each_idle f (i + 1) n m (λ j a b. h j (omega arith) (omega arith)))

no_map : (slot : ℕ) → slot < 32 → has_map (inode_at zero_block slot) ≡ false
unfolding has_map inode_at
no_map slot l =
    ap (λ u. u && not (is_fast_symlink (decode (span zero_block (slot * 128) 128))))
      (zero_block_unused slot l)

abbrev with_root : Marks
with_root = record { bits = (set_bit (new_bitmap 8) 3).0; count = 1 }

abbrev result : Marks
result = record { bits = (set_bit with_root.bits 4).0; count = 2 }

run_leaf : mark_imap disk identity tree 0 leaf_ptr with_root ≡ (result, ok tt)
unfolding mark_imap visit with_block new_bitmap set_bit opened mark_slot
run_leaf = rw leaf_read (
    for_each_idle (mark_slot disk identity tree zero_block) 0 32 result
      (λ j a b. rw (no_map j (omega arith)) refl))

child_null :
    (i : ℕ)
    → 0 ≢ i
    → i < 128
    → mark_imap disk identity tree 0 (ptr_at node i) result ≡ (result, ok tt)
unfolding mark_imap visit
child_null i d l = rw (node_other i d l) refl

run_children :
    for_each (λ i. mark_imap disk identity tree 0 (ptr_at node i)) 0 128 with_root ≡ (result, ok tt)
unfolding for_each
run_children =
    let first : mark_imap disk identity tree 0 (ptr_at node 0) with_root ≡ (result, ok tt) =
      ap (λ p. mark_imap disk identity tree 0 p with_root) node_first ∙ run_leaf in
    rw first (
      for_each_idle (λ i. mark_imap disk identity tree 0 (ptr_at node i)) 1 127 result
        (λ j a b. child_null j (λ q. omega (arith, q)) (omega arith)))

run : mark_tree disk identity tree root_ptr 1 (new_bitmap 8) ≡ (result, ok 2)
unfolding mark_tree mark_imap visit with_block new_bitmap set_bit opened
run = rw (node_read, run_children) refl

of_root :
    (r : Role) (q : BlockPtr)
    → is_null q ≡ false
    → Child disk identity tree (Role.map_node 1) root_ptr r q
    → (r ≡ Role.map_node 0) × (q ≡ leaf_ptr)
of_root r q k (buf, i, read, l, e, f) =
    let same : node ≡ buf = ok_inj node buf (sym node_read ∙ read) in
    let there : q ≡ ptr_at node i = f ∙ ap (λ b. ptr_at b i) (sym same) in
    (
      e,
      elim (zero_dec i) [
        | inl z ↦ there ∙ ap (ptr_at node) (sym z) ∙ node_first
        | inr d ↦ absurd (differ (is_null q) k (ap is_null there ∙ node_other i d l))
      ],
    )
  where
    zero_dec : (i : ℕ) → (0 ≡ i) ⊎ (0 ≢ i)
    zero_dec i = grind arith

    differ : (b : Bool) → b ≡ false → b ≢ true
    differ b h t = cc

of_leaf : (r : Role) (q : BlockPtr) → Child disk identity tree (Role.map_node 0) leaf_ptr r q → ⊥
unfolding inode_at
of_leaf r q (buf, slot, read, l, has, fast, e, f) =
    let same : zero_block ≡ buf = ok_inj zero_block buf (sym leaf_read ∙ read) in
    differ (is_used (inode_at zero_block slot)) (zero_block_unused slot l)
      (ap (λ b. is_used (inode_at b slot)) same ∙ has)
  where
    differ : (b : Bool) → b ≡ false → b ≡ true → ⊥
    differ b h t = cc

Tree-cases :
    (r : Role) (p : BlockPtr)
    → Reached disk identity tree (Role.map_node 1) root_ptr r p
    → is_null p ≡ false
    → ((r ≡ Role.map_node 1) × (p ≡ root_ptr)) ⊎ ((r ≡ Role.map_node 0) × (p ≡ leaf_ptr))
Tree-cases r p Reaches.here n = inl (refl, refl)
Tree-cases r q (Reaches.down {r = s} {p = p} reach n c) k = elim (Tree-cases s p reach n) [
  | inl e ↦ inr (of_root r q k (moved s p (Role.map_node 1) root_ptr e.0 e.1 c))
  | inr e ↦ absurd (of_leaf r q (moved s p (Role.map_node 0) leaf_ptr e.0 e.1 c))
]
  where
    moved :
        (s : Role) (p : BlockPtr) (t : Role) (o : BlockPtr)
        → s ≡ t
        → p ≡ o
        → Child disk identity tree s p r q
        → Child disk identity tree t o r q
    moved s p t o e f c =
        subst (λ z. Child disk identity tree z o r q) e
          (subst (λ z. Child disk identity tree s z r q) f c)

tree-OneRole : OneRole disk identity tree root_ptr 1
tree-OneRole r s p q a b n k e = elim (Tree-cases r p a n) [
  | inl f ↦ elim (Tree-cases s q b k) [
    | inl g ↦ (f.0 ∙ sym g.0, f.1 ∙ sym g.1)
    | inr g ↦ absurd (apart (sym (ap (λ z. z.block) f.1) ∙ e ∙ ap (λ z. z.block) g.1))
  ]
  | inr f ↦ elim (Tree-cases s q b k) [
    | inr g ↦ (f.0 ∙ sym g.0, f.1 ∙ sym g.1)
    | inl g ↦ absurd (apart (sym (ap (λ z. z.block) g.1) ∙ sym e ∙ ap (λ z. z.block) f.1))
  ]
]
  where
    apart : ◌≢◌ {A = ℕ} 3 4
    apart h = omega (arith, h)

mark_tree_lem_example :
    ((b : ℕ) → (get result.bits b ≡ true) ↔ Live disk identity tree root_ptr 1 b)
    × (2 ≡ count result.bits)
mark_tree_lem_example = mark_tree_lem disk identity tree root_ptr 1 8 result 2 tree-OneRole run
