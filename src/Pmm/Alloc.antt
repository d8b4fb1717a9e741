-- ===== src/Pmm/Alloc.antt =====
-- `alloc_frame` takes the first free frame.
use pureshade_os.Base.{
  ℕ, zero, suc, ◌+◌, ◌-◌, ◌*◌, ◌/◌, ◌%◌, ◌^◌, ◌<◌, ◌≡◌, refl, ap, ◌∙◌, ◌≢◌, ◌⊎◌, inl, inr, true,
  false, Option, none, some, [], ◌∷◌, length, arith, ◌==◌, Bool-cases, ==_iff, not_==→ne, ltb,
  ltb→lt,
}
use native.Mathlib.Nat.{pow-suc}
use pureshade_os.Base.Bits.{bit, bit-ones, pow_pos}
use pureshade_os.Pmm.{
  word_bits, all_ones, Bitmap, is_used, frame_size, Pmm, counted_down, trailing_ones, first_free,
  take_frame, alloc_frame,
}
use pureshade_os.Pmm.Bitmap.{frame_bit, is_used-frame_bit, is_used-set_used}

-- Every word of the bitmap is one of 64 bits.
abbrev pub AllWords : Bitmap → Type 0
AllWords [] = Unit {0}
AllWords (w ∷ ws) = (w < 2 ^ word_bits) × AllWords ws

trailing_ones_lem :
    (n w : ℕ)
    → w < 2 ^ n
    → w ≢ 2 ^ n - 1
    → (trailing_ones n w < n)
      × (bit w (trailing_ones n w) ≡ 0)
      × ((j : ℕ) → j < trailing_ones n w → bit w j ≡ 1)
unfolding trailing_ones bit
trailing_ones_lem zero w h d = absurd (d (omega arith))
trailing_ones_lem (suc n) w h d = elim (Bool-cases (w % 2 == 1)) [
  | inl e ↦
      let odd : w % 2 ≡ 1 = (==_iff (w % 2) 1).0 e in
      let ih =
        trailing_ones_lem n (w / 2) (omega (arith, pow-suc 2 n))
          (λ q. d (omega (arith, pow-suc 2 n, pow_pos n))) in
      rw e (omega (arith, ih.0), ih.1, λ j l. ones_below j odd l ih.2)
  | inr e ↦ rw e (omega arith, ground arith, λ j l. absurd (omega arith))
]
  where
    ones_below :
        (j : ℕ)
        → w % 2 ≡ 1
        → j < suc (trailing_ones n (w / 2))
        → ((i : ℕ) → i < trailing_ones n (w / 2) → bit (w / 2) i ≡ 1)
        → bit w j ≡ 1
    ones_below zero odd l h = odd
    ones_below (suc j) odd l h = h j (omega arith)

frame_bit-here : (w : ℕ) (ws : Bitmap) (g : ℕ) → g < word_bits → frame_bit (w ∷ ws) g ≡ bit w g
unfolding frame_bit
frame_bit-here w ws g h =
    let q : g / word_bits ≡ 0 = omega arith in
    let r : g % word_bits ≡ g = omega arith in rw (q, r) refl

frame_bit-later :
    (w : ℕ) (ws : Bitmap) (g : ℕ) → frame_bit (w ∷ ws) (word_bits + g) ≡ frame_bit ws g
unfolding frame_bit
frame_bit-later w ws g =
    let q : (word_bits + g) / word_bits ≡ suc (g / word_bits) = omega arith in
    let r : (word_bits + g) % word_bits ≡ g % word_bits = omega arith in rw (q, r) refl

-- What the search over the words says of the bits: the first one that is 0.
unfoldable pub FirstZero : Bitmap → ℕ → Type 0
FirstZero bm g =
    (g < word_bits * length bm) × (frame_bit bm g ≡ 0) × ((h : ℕ) → h < g → frame_bit bm h ≡ 1)

unfoldable pub AllOnes : Bitmap → Type 0
AllOnes bm = (g : ℕ) → g < word_bits * length bm → frame_bit bm g ≡ 1

-- A frame of the first word, or one of the others.
frame-cases : (g : ℕ) → (g < word_bits) ⊎ ((k : ℕ) × (g ≡ word_bits + k))
frame-cases g = elim (Bool-cases (ltb g word_bits)) [
  | inl e ↦ inl (ltb→lt g word_bits e)
  | inr e ↦ inr (g - word_bits, ground arith)
]

full-frame_bit :
    (ws : Bitmap) (g n : ℕ)
    → ((k : ℕ) → k < n → frame_bit ws k ≡ 1)
    → g < word_bits + n
    → frame_bit (all_ones ∷ ws) g ≡ 1
full-frame_bit ws g n h l = elim (frame-cases g) [
  | inl here ↦ frame_bit-here all_ones ws g here ∙ bit-ones word_bits g here
  | inr (k, e) ↦ rw e (frame_bit-later all_ones ws k ∙ h k (omega arith))
]

-- The two outcomes of the search that starts at word `wi`.
unfoldable pub Found : Bitmap → ℕ → Option ℕ → Type 0
unfolding FirstZero AllOnes
Found bm wi none = AllOnes bm
Found bm wi (some f) = (g : ℕ) × (f ≡ wi * word_bits + g) × FirstZero bm g

Found-later :
    (w : ℕ) (ws : Bitmap) (wi : ℕ) (r : Option ℕ)
    → w ≡ all_ones
    → Found ws (wi + 1) r
    → Found (w ∷ ws) wi r
unfolding Found FirstZero AllOnes
Found-later w ws wi none e h =
    λ g l. rw e (full-frame_bit ws g (word_bits * length ws) h (omega arith))
Found-later w ws wi (some f) e (g, p, (l, z, below)) = (
  word_bits + g,
  omega arith,
  (omega arith, frame_bit-later w ws g ∙ z, λ k q. rw e (full-frame_bit ws k g below q)),
)

pub first_free-Found : (bm : Bitmap) (wi : ℕ) → AllWords bm → Found bm wi (first_free wi bm)
unfolding Found FirstZero AllOnes first_free
first_free-Found [] wi a = λ g l. absurd (omega arith)
first_free-Found (w ∷ ws) wi a = elim (Bool-cases (w == all_ones)) [
  | inl e ↦ rw e (
      Found-later w ws wi (first_free (wi + 1) ws) ((==_iff w all_ones).0 e)
        (first_free-Found ws (wi + 1) a.1))
  | inr e ↦
      let t = trailing_ones_lem word_bits w a.0 (not_==→ne w all_ones e) in
      rw e (
        trailing_ones word_bits w,
        refl,
        (
          omega (arith, t.0),
          frame_bit-here w ws (trailing_ones word_bits w) t.0 ∙ t.1,
          λ k q. frame_bit-here w ws k (omega (arith, t.0)) ∙ t.2 k q,
        ),
      )
]

first_one : (bm : Bitmap) (g : ℕ) → frame_bit bm g ≡ 1 → is_used bm g ≡ true
first_one bm g e = is_used-frame_bit bm g ∙ ap (λ r. r == 1) e

-- What is left after frame `f` has been taken from `p`.
abbrev pub Taken : Pmm → ℕ → Pmm → Type 0
Taken p f q =
    (is_used q.bitmap f ≡ true)
    × ((g : ℕ) → f ≢ g → is_used q.bitmap g ≡ is_used p.bitmap g)
    × (q.free_frames ≡ counted_down p.free_frames 1)

abbrev pub AllocOutcome : Pmm → Pmm × Option ℕ → Type 0
AllocOutcome p r =
    ((r ≡ (p, none)) × ((g : ℕ) → g < word_bits * length p.bitmap → is_used p.bitmap g ≡ true))
    ⊎ ((f : ℕ) × (r.1 ≡ some (f * frame_size))
        × (f < word_bits * length p.bitmap)
        × (is_used p.bitmap f ≡ false)
        × ((g : ℕ) → g < f → is_used p.bitmap g ≡ true)
        × Taken p f r.0)

take_frame_lem : (p : Pmm) (o : Option ℕ) → Found p.bitmap 0 o → AllocOutcome p (take_frame p o)
unfolding take_frame Found FirstZero AllOnes
take_frame_lem p none h = inl (refl, λ g l. first_one p.bitmap g (h g l))
take_frame_lem p (some f) (g, e, (l, z, below)) =
    let same : f ≡ g = omega arith in
    let mark = is_used-set_used p.bitmap f (omega arith) in
    inr (
      f,
      refl,
      omega arith,
      is_used-frame_bit p.bitmap f ∙ ap (λ r. r == 1) (ap (frame_bit p.bitmap) same ∙ z),
      λ k q. first_one p.bitmap k (below k (omega arith)),
      (mark.0, mark.1, refl),
    )

-- Either no frame is free, and the answer is that there is none, or the first free frame is
-- answered: it is marked as used, every other frame is as it was, and the count goes down by one.
pub alloc_frame_lem : (p : Pmm) → AllWords p.bitmap → AllocOutcome p (alloc_frame p)
unfolding alloc_frame
alloc_frame_lem p a = take_frame_lem p (first_free 0 p.bitmap) (first_free-Found p.bitmap 0 a)
