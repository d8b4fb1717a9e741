-- ===== src/Pmm/Runs.antt =====
-- Contiguous allocation: the first run of free frames, found with enough fuel.
use pureshade_os.Base.{
  ℕ, zero, suc, ◌+◌, ◌-◌, ◌≤◌, ◌<◌, ◌≡◌, refl, ap, ◌∙◌, ◌⊎◌, inl, inr, true, false, Option, none,
  some, arith, leb, leb→le, Bool-cases,
}
use pureshade_os.Pmm.{max_frames, Bitmap, is_used, first_used, scan}

-- All `n` frames from `i` on are free.
abbrev pub AllFree : Bitmap → ℕ → ℕ → Type 0
AllFree bm i n = (k : ℕ) → k < n → is_used bm (i + k) ≡ false

-- One of them is used.
abbrev pub SomeUsed : Bitmap → ℕ → ℕ → Type 0
SomeUsed bm i n = (k : ℕ) × (k < n) × (is_used bm (i + k) ≡ true)

first_used-cases :
    (bm : Bitmap) (i n : ℕ)
    → ((first_used bm i n ≡ none) × AllFree bm i n)
      ⊎ ((j : ℕ) × (first_used bm i n ≡ some j) × (i ≤ j) × (j < i + n) × (is_used bm j ≡ true))
unfolding first_used
first_used-cases bm i zero = inl (refl, λ k l. absurd (omega arith))
first_used-cases bm i (suc n) = elim (Bool-cases (is_used bm i)) [
  | inl u ↦ inr (i, rw u refl, omega arith, omega arith, u)
  | inr u ↦ elim (first_used-cases bm (i + 1) n) [
    | inl (e, free) ↦ inl (rw u e, λ k l. free_from k l u free)
    | inr (j, e, lo, hi, used) ↦ inr (j, rw u e, omega arith, omega arith, used)
  ]
]
  where
    free_from :
        (k : ℕ)
        → k < suc n
        → is_used bm i ≡ false
        → AllFree bm (i + 1) n
        → is_used bm (i + k) ≡ false
    free_from zero l u h = ap (is_used bm) (omega arith) ∙ u
    free_from (suc k) l u h = ap (is_used bm) (omega arith) ∙ h k (omega arith)

-- What the scan from `start` on comes to.
abbrev pub ScanOutcome : Bitmap → ℕ → ℕ → Option ℕ → Type 0
ScanOutcome bm n start none = (s : ℕ) → start ≤ s → s + n ≤ max_frames → SomeUsed bm s n
ScanOutcome bm n start (some t) =
    (start ≤ t)
    × (t + n ≤ max_frames)
    × AllFree bm t n
    × ((s : ℕ) → start ≤ s → s < t → SomeUsed bm s n)

-- A used frame `j` rules out every start from `start` to `j`.
ScanOutcome-skip :
    (bm : Bitmap) (n start j : ℕ) (r : Option ℕ)
    → start ≤ j
    → j < start + n
    → is_used bm j ≡ true
    → ScanOutcome bm n (j + 1) r
    → ScanOutcome bm n start r
ScanOutcome-skip bm n start j none lo hi u h = λ s a b. elim (Bool-cases (leb s j)) [
  | inl e ↦ blocked s a (leb→le s j e)
  | inr e ↦ h s (ground arith) b
]
  where
    blocked : (s : ℕ) → start ≤ s → s ≤ j → SomeUsed bm s n
    blocked s a b = (j - s, omega arith, ap (is_used bm) (omega arith) ∙ u)
ScanOutcome-skip bm n start j (some t) lo hi u (p, q, free, h) = (
  omega arith,
  q,
  free,
  λ s a b. elim (Bool-cases (leb s j)) [
    | inl e ↦ blocked s a (leb→le s j e)
    | inr e ↦ h s (ground arith) b
  ],
)
  where
    blocked : (s : ℕ) → start ≤ s → s ≤ j → SomeUsed bm s n
    blocked s a b = (j - s, omega arith, ap (is_used bm) (omega arith) ∙ u)

scan_past :
    (fuel : ℕ) (bm : Bitmap) (n start : ℕ)
    → leb (start + n) max_frames ≡ false
    → scan (suc fuel) bm n start ≡ some none
unfolding scan
scan_past fuel bm n start e = rw (e, scan) refl

scan_hit :
    (fuel : ℕ) (bm : Bitmap) (n start : ℕ)
    → leb (start + n) max_frames ≡ true
    → first_used bm start n ≡ none
    → scan (suc fuel) bm n start ≡ some (some start)
unfolding scan
scan_hit fuel bm n start e f = rw (e, f, scan) refl

scan_skip :
    (fuel : ℕ) (bm : Bitmap) (n start j : ℕ)
    → leb (start + n) max_frames ≡ true
    → first_used bm start n ≡ some j
    → scan (suc fuel) bm n start ≡ scan fuel bm n (j + 1)
unfolding scan
scan_skip fuel bm n start j e f = rw (e, f, scan) refl

-- One more unit of fuel than there are starts left is enough.
pub scan_lem :
    (fuel : ℕ) (bm : Bitmap) (n start : ℕ)
    → start ≤ max_frames
    → max_frames < start + fuel
    → (r : Option ℕ) × (scan fuel bm n start ≡ some r) × ScanOutcome bm n start r
scan_lem zero bm n start a b = absurd (omega arith)
scan_lem (suc fuel) bm n start a b = elim (Bool-cases (leb (start + n) max_frames)) [
  | inr e ↦ (none, scan_past fuel bm n start e, λ s p q. absurd (ground arith))
  | inl e ↦ elim (first_used-cases bm start n) [
    | inl (f, free) ↦ (
      some start,
      scan_hit fuel bm n start e f,
      (omega arith, leb→le (start + n) max_frames e, free, λ s p q. absurd (omega arith)),
    )
    | inr (j, f, lo, hi, u) ↦
        let l = leb→le (start + n) max_frames e in
        let (r, g, h) = scan_lem fuel bm n (j + 1) (omega arith) (omega arith) in
        (r, scan_skip fuel bm n start j e f ∙ g, ScanOutcome-skip bm n start j r lo hi u h)
  ]
]
