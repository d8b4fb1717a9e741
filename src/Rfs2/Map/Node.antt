-- ===== src/Rfs2/Map/Node.antt =====
-- The pointers of a node and the inodes of a leaf.
use native.Mathlib.Nat.{mul-le-mul_right, suc-mul, mod-lt}
use pureshade_os.Base.{
  ℕ, zero, suc, ◌+◌, ◌*◌, ◌%◌, ◌≤◌, ◌<◌, ◌≡◌, ◌≢◌, refl, ap, sym, ◌∙◌, ◌⊎◌, inl, inr, true, false,
  none, ◌∷◌, List, arith, length, length-replicate, take, replicate,
}
use pureshade_os.Base.Bytes.{
  span, overlay, length-overlay, span-overlay_self, span-overlay_before, drop-overlay_after,
}
use pureshade_os.Base.Little.{of_le}
use pureshade_os.Rfs2.Layout.{BlockPtr, is_null, to_bytes, from_bytes, block_size, inode_size}
use pureshade_os.Rfs2.Layout.Valid.{PtrFits, Array}
use pureshade_os.Rfs2.Layout.Pointer.{from_bytes-to_bytes, length-to_bytes}
use pureshade_os.Rfs2.Inode.{is_used, decode}
use pureshade_os.Rfs2.Map.{ptr_at, set_ptr_at, zero_block, used, leaf_inode, slot_of_ino}

-- Cells of one size at multiples of it: a copy into one leaves the others.
pub span-overlay_cell :
    (buf xs : List ℕ) (size i j : ℕ)
    → length xs ≡ size
    → i ≢ j
    → span (overlay buf (i * size) xs) (j * size) size ≡ span buf (j * size) size
span-overlay_cell buf xs size i j h n = elim (order i j n) [
  | inl l ↦ ap (take size) (drop-overlay_after buf (i * size) (j * size) xs (room i j l))
  | inr l ↦ span-overlay_before buf (i * size) (j * size) size xs (before j i l)
]
  where
    order : (i j : ℕ) → i ≢ j → (i < j) ⊎ (j < i)
    order i j n = grind arith

    before : (i j : ℕ) → i < j → i * size + size ≤ j * size
    before i j l =
        let next : suc i ≤ j = omega arith in
        omega (arith, mul-le-mul_right size next, suc-mul i size)

    room : (i j : ℕ) → i < j → i * size + length xs ≤ j * size
    room i j l = omega (arith, before i j l, h)

span-replicate : (n off k : ℕ) → off + k ≤ n → span {A = ℕ} (replicate n 0) off k ≡ replicate k 0
span-replicate n zero zero h = refl
span-replicate zero zero (suc k) h = absurd (omega arith)
span-replicate (suc n) zero (suc k) h = ap (λ r. zero ∷ r) (span-replicate n zero k (omega arith))
span-replicate zero (suc off) k h = absurd (omega arith)
span-replicate (suc n) (suc off) k h = span-replicate n off k (omega arith)

pub length-set_ptr_at :
    (buf : List ℕ) (i : ℕ) (p : BlockPtr) → length (set_ptr_at buf i p) ≡ length buf
unfolding set_ptr_at
length-set_ptr_at buf i p = length-overlay buf (i * 32) (to_bytes p)

-- A pointer that was set reads back, and the others are as they were.
pub ptr_at-set_ptr_at :
    (buf : List ℕ) (i : ℕ) (p : BlockPtr)
    → Array block_size buf
    → i < 128
    → PtrFits p
    → ptr_at (set_ptr_at buf i p) i ≡ p
unfolding ptr_at set_ptr_at
ptr_at-set_ptr_at buf i p h l v =
    ap from_bytes (
      span-overlay_self buf (i * 32) 32 (to_bytes p) (omega (arith, length-to_bytes p))
        (sym (length-to_bytes p)))
    ∙ from_bytes-to_bytes p v

pub ptr_at-set_ptr_at_ne :
    (buf : List ℕ) (i j : ℕ) (p : BlockPtr) → i ≢ j → ptr_at (set_ptr_at buf i p) j ≡ ptr_at buf j
unfolding ptr_at set_ptr_at
ptr_at-set_ptr_at_ne buf i j p n =
    ap from_bytes (span-overlay_cell buf (to_bytes p) 32 i j (length-to_bytes p) n)

pub length-zero_block : Array block_size zero_block
unfolding zero_block
length-zero_block = length-replicate {A = ℕ} 4096 0

-- In a block of zeros every pointer is null and every inode free.
pub ptr_at-zero_block : (i : ℕ) → i < 128 → is_null (ptr_at zero_block i) ≡ true
unfolding ptr_at from_bytes of_le zero_block
ptr_at-zero_block i l =
    ap (λ b. is_null (from_bytes b)) (span-replicate 4096 (i * 32) 32 (omega arith))

pub zero_block_unused : (s : ℕ) → s < 32 → is_used (decode (span zero_block (s * 128) 128)) ≡ false
unfolding decode is_used of_le zero_block
zero_block_unused s l =
    ap (λ b. is_used (decode b)) (span-replicate 4096 (s * 128) 128 (omega arith))

zero_block_free : (s : ℕ) → s < 32 → used (decode (span zero_block (s * 128) 128)) ≡ none
unfolding used
zero_block_free s l = rw (zero_block_unused s l) refl

pub leaf_inode-zero_block : (j : ℕ) → leaf_inode j zero_block ≡ none
unfolding leaf_inode
leaf_inode-zero_block j = zero_block_free (j % 32) (mod-lt j (omega arith))

-- An inode that was put into a leaf is found there, and those of other slots are as they were.
pub leaf_inode-overlay :
    (j : ℕ) (buf bytes : List ℕ)
    → Array block_size buf
    → Array inode_size bytes
    → leaf_inode j (overlay buf (slot_of_ino j) bytes) ≡ used (decode bytes)
unfolding leaf_inode
leaf_inode-overlay j buf bytes h l =
    let s = mod-lt j {m = 32} (omega arith) in
    ap (λ b. used (decode b))
      (span-overlay_self buf (j % 32 * 128) 128 bytes (omega (arith, s)) (sym l))

pub leaf_inode-overlay_ne :
    (i j : ℕ) (buf bytes : List ℕ)
    → Array inode_size bytes
    → i % 32 ≢ j % 32
    → leaf_inode j (overlay buf (slot_of_ino i) bytes) ≡ leaf_inode j buf
unfolding leaf_inode
leaf_inode-overlay_ne i j buf bytes l n =
    ap (λ b. used (decode b)) (span-overlay_cell buf bytes 128 (i % 32) (j % 32) l n)
