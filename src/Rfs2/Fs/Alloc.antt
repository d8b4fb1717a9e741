-- ===== src/Rfs2/Fs/Alloc.antt =====
-- `alloc_block` hands out a block that no superblock reaches, whenever there is one.
use native.Mathlib.Nat.{mod-lt, mod-eq_of_lt, mod-eq-sub-mod}
use pureshade_os.Base.{
  ℕ, zero, suc, ◌+◌, ◌-◌, ◌%◌, ◌≤◌, ◌<◌, ◌≡◌, refl, ap, ◌∙◌, subst, ◌⊎◌, inl, inr, true, false,
  none, some, ◌∷◌, arith, leb, leb→le, Bool-cases, Option-cases,
}
use pureshade_os.Base.Result.{Result, ok, err}
use pureshade_os.Rfs2.Layout.{Error, first_data_block}
use pureshade_os.Rfs2.Fs.{
  Rfs2, is_taken, block_span, candidate, alloc_scan, take_block, alloc_block,
}

-- The block lies in the dynamic region of the volume.
abbrev pub InRegion : {D : Type 0} → Rfs2 D → ℕ → Type 0
InRegion fs b = (first_data_block ≤ b) × (b < fs.header.total_blocks)

-- What an allocation answers and leaves: an error only when every block of the region is taken, and
-- then nothing has changed; else a block of the region that neither of the two live trees nor the
-- pending generation has, which now belongs to the pending generation.
abbrev pub AllocOutcome : {D : Type 0} → Rfs2 D → Rfs2 D × Result Error ℕ → Type 0
AllocOutcome fs (after, err e) =
    (e ≡ Error.no_space) × (after ≡ fs) × ((b : ℕ) → InRegion fs b → is_taken fs b ≡ true)
AllocOutcome fs (after, ok b) =
    InRegion fs b
    × (is_taken fs b ≡ false)
    × (after.fresh ≡ b ∷ fs.fresh)
    × (after.alloc_cursor < block_span fs)
    × (after ≡ record fs {
      fresh = after.fresh;
      op_fresh = after.op_fresh;
      alloc_cursor = after.alloc_cursor;
    })

module _ {D : Type 0} (fs : Rfs2 D) where
  -- A round that finds nothing has met a taken block, and so have the later ones.
  alloc_scan-none_split :
      (i n : ℕ)
      → alloc_scan fs i (suc n) ≡ none
      → (is_taken fs (candidate fs i) ≡ true) × (alloc_scan fs (i + 1) n ≡ none)
  unfolding alloc_scan
  alloc_scan-none_split i n h = ground arith

  alloc_scan-some_split :
      (i n j : ℕ)
      → alloc_scan fs i (suc n) ≡ some j
      → ((is_taken fs (candidate fs i) ≡ false) × (i ≡ j)) ⊎ (alloc_scan fs (i + 1) n ≡ some j)
  unfolding alloc_scan
  alloc_scan-some_split i n j h = ground arith

  alloc_scan-none :
      (i n : ℕ)
      → alloc_scan fs i n ≡ none
      → (k : ℕ) → k < n
      → is_taken fs (candidate fs (i + k)) ≡ true
  alloc_scan-none i zero h k l = absurd (omega arith)
  alloc_scan-none i (suc n) h zero l =
      let here : i ≡ i + 0 = omega arith in
      subst (λ r. is_taken fs (candidate fs r) ≡ true) here (alloc_scan-none_split i n h).0
  alloc_scan-none i (suc n) h (suc k) l =
      let later : i + 1 + k ≡ i + suc k = omega arith in
      subst (λ r. is_taken fs (candidate fs r) ≡ true) later
        (alloc_scan-none (i + 1) n (alloc_scan-none_split i n h).1 k (omega arith))

  alloc_scan-some : (i n j : ℕ) → alloc_scan fs i n ≡ some j → is_taken fs (candidate fs j) ≡ false
  unfolding alloc_scan
  alloc_scan-some i zero j h = cc
  alloc_scan-some i (suc n) j h = elim (alloc_scan-some_split i n j h) [
    | inl e ↦ subst (λ r. is_taken fs (candidate fs r) ≡ false) e.1 e.0
    | inr e ↦ alloc_scan-some (i + 1) n j e
  ]

  candidate_region : (i : ℕ) → 0 < block_span fs → InRegion fs (candidate fs i)
  candidate_region i h = let l = mod-lt (fs.alloc_cursor + i) h in (omega arith, omega (arith, l))

  -- The round that looks at the block: the cursor plus the round is the distance of the block from
  -- the first one, or that and a whole span.
  lands_on :
      (b i : ℕ)
      → InRegion fs b
      → (fs.alloc_cursor + i ≡ b - 3) ⊎ (fs.alloc_cursor + i ≡ b - 3 + block_span fs)
      → candidate fs i ≡ b
  lands_on b i h (inl e) =
      let m : (b - 3) % block_span fs ≡ b - 3 = mod-eq_of_lt (omega arith) in
      ap (λ k. 3 + k % block_span fs) e ∙ omega (arith, m)
  lands_on b i h (inr e) =
      let m : (b - 3) % block_span fs ≡ b - 3 = mod-eq_of_lt (omega arith) in
      let back : b - 3 + block_span fs - block_span fs ≡ b - 3 = omega arith in
      let wrap : (b - 3 + block_span fs) % block_span fs ≡ b - 3 =
        mod-eq-sub-mod (omega arith) ∙ ap (λ k. k % block_span fs) back ∙ m in
      ap (λ k. 3 + k % block_span fs) e ∙ omega (arith, wrap)

  -- Every block of the region is looked at in some round.
  round_of :
      (b : ℕ)
      → fs.alloc_cursor < block_span fs
      → InRegion fs b
      → (i : ℕ) × (i < block_span fs) × (candidate fs i ≡ b)
  round_of b c h = elim (Bool-cases (leb fs.alloc_cursor (b - 3))) [
    | inl e ↦
        let l = leb→le fs.alloc_cursor (b - 3) e in
        (
          b - 3 - fs.alloc_cursor,
          omega arith,
          lands_on b (b - 3 - fs.alloc_cursor) h (inl (omega arith)),
        )
    | inr e ↦
        let l : b - 3 < fs.alloc_cursor = ground arith in
        (
          b - 3 + block_span fs - fs.alloc_cursor,
          omega arith,
          lands_on b (b - 3 + block_span fs - fs.alloc_cursor) h (inr (omega arith)),
        )
  ]

  -- Where the cursor lies within the region, an allocation fails only when every block of the region
  -- is in one of the live trees or already fresh, and then nothing has changed; else it hands out a
  -- block of the region that is none of these, adds it to the fresh ones, keeps the cursor within
  -- the region and changes nothing else but the list of the operation's blocks.
  pub alloc_block_lem : fs.alloc_cursor < block_span fs → AllocOutcome fs (alloc_block fs)
  unfolding alloc_block take_block
  alloc_block_lem c = elim (Option-cases (alloc_scan fs 0 (block_span fs))) [
    | inl e ↦ rw e (refl, refl, λ b h. all_taken b h e)
    | inr e ↦ rw (e.1) (
      candidate_region e.0 (omega arith),
      alloc_scan-some 0 (block_span fs) e.0 e.1,
      refl,
      mod-lt (fs.alloc_cursor + e.0 + 1) (omega arith),
      refl,
    )
  ]
    where
      all_taken :
          (b : ℕ) → InRegion fs b → alloc_scan fs 0 (block_span fs) ≡ none → is_taken fs b ≡ true
      all_taken b h e =
          let r = round_of b c h in
          subst (λ k. is_taken fs k ≡ true) r.2
            (subst (λ i. is_taken fs (candidate fs i) ≡ true) (omega arith)
              (alloc_scan-none 0 (block_span fs) e r.0 r.1))
