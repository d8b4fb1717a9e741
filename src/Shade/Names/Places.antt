-- ===== src/Shade/Names/Places.antt =====
-- Places of the scan prefix in a buffer do not overlap (pkg/shade-store-db/src/lib.rs).
use pureshade_os.Base.{
  ℕ, zero, suc, ◌+◌, ◌-◌, ◌≤◌, ◌<◌, ◌≡◌, ◌≢◌, refl, ap, sym, ◌∙◌, ◌⊎◌, inl, inr, Bool, true, ◌&&◌,
  List, [], ◌∷◌, arith, length, take, drop, get_or,
}
use pureshade_os.Base.Bytes.{span}
use pureshade_os.Base.Names.{Name}
use pureshade_os.Shade.Names.{is_base32, all_base32}

-- The prefix stands at the place, with the digest behind it.
abbrev pub Occurs : List ℕ → List ℕ → ℕ → Name → Type 0
Occurs prefix buf i d =
    (take (length prefix) (drop i buf) ≡ prefix)
    × (span (drop i buf) (length prefix) 32 ≡ d)
    × (length d ≡ 32)
    × (all_base32 d ≡ true)

-- A prefix that starts and ends with a slash and is not longer than 33 bytes.
pub record IsScanPrefix (prefix : List ℕ) : Type 0 where
  pub long : 1 ≤ length prefix
  pub short : length prefix ≤ 33
  pub first : get_or prefix 0 0 ≡ b'/'
  pub last : get_or prefix (length prefix - 1) 0 ≡ b'/'

get_or-take : (n k : ℕ) (xs : List ℕ) → k < n → get_or (take n xs) k 0 ≡ get_or xs k 0
get_or-take zero k xs l = absurd (omega arith)
get_or-take (suc n) k [] l = refl
get_or-take (suc n) zero (x ∷ xs) l = refl
get_or-take (suc n) (suc k) (x ∷ xs) l = get_or-take n k xs (omega arith)

get_or-drop : (i k : ℕ) (xs : List ℕ) → get_or (drop i xs) k 0 ≡ get_or xs (i + k) 0
get_or-drop zero k xs = ap (λ j. get_or xs j 0) (plus_zero k)
  where
    plus_zero : (k : ℕ) → k ≡ 0 + k
    plus_zero k = omega arith
get_or-drop (suc i) k [] = refl
get_or-drop (suc i) k (x ∷ xs) = get_or-drop i k xs ∙ ap (λ j. get_or (x ∷ xs) j 0) (shifted i k)
  where
    shifted : (i k : ℕ) → suc (i + k) ≡ suc i + k
    shifted i k = omega arith

digit_at :
    (xs : List ℕ) (k : ℕ) → all_base32 xs ≡ true → k < length xs → is_base32 (get_or xs k 0) ≡ true
unfolding all_base32
digit_at [] k h l = absurd (omega arith)
digit_at (x ∷ xs) zero h l = left (is_base32 x) (all_base32 xs) h
  where
    left : (a b : Bool) → (a && b) ≡ true → a ≡ true
    left a b h = ground arith
digit_at (x ∷ xs) (suc k) h l = digit_at xs k (right (is_base32 x) (all_base32 xs) h) (omega arith)
  where
    right : (a b : Bool) → (a && b) ≡ true → b ≡ true
    right a b h = ground arith

slash-not_base32 : is_base32 b'/' ≢ true
unfolding is_base32
slash-not_base32 h = cc

module _ (prefix : List ℕ) (v : IsScanPrefix prefix) where
  -- Where a digest stands behind the prefix, no byte of the digest is a slash.
  inside :
      (buf : List ℕ) (d : Name) (k : ℕ)
      → Occurs prefix buf 0 d
      → length prefix ≤ k
      → k < length prefix + 32
      → get_or buf k 0 ≢ b'/'
  inside buf d k o a b e =
      let j : ℕ = k - length prefix in
      let small : j < 32 = omega arith in
      let place : length prefix + j ≡ k = omega arith in
      let same : get_or d j 0 ≡ get_or buf k 0 =
        ap (λ s. get_or s j 0) (sym o.1)
        ∙ get_or-take 32 j (drop (length prefix) buf) small
        ∙ get_or-drop (length prefix) j buf
        ∙ ap (λ p. get_or buf p 0) place in
      slash-not_base32 (ap is_base32 (sym (same ∙ e)) ∙ digit_at d j o.3 (omega (arith, o.2)))

  at_place :
      (buf : List ℕ) (d : Name) (i k : ℕ)
      → Occurs prefix buf i d
      → k < length prefix
      → get_or buf (i + k) 0 ≡ get_or prefix k 0
  at_place buf d i k o l =
      sym (get_or-drop i k buf)
      ∙ sym (get_or-take (length prefix) k (drop i buf) l)
      ∙ ap (λ p. get_or p k 0) o.0

  -- Two places do not overlap.
  pub apart :
      (buf : List ℕ) (c d : Name) (i : ℕ)
      → Occurs prefix buf 0 c
      → Occurs prefix buf (suc i) d
      → length prefix + 31 ≤ i
  apart buf c d i o p = elim (far_or i) [
    | inl l ↦ l
    | inr (inl (l, m)) ↦ absurd (
        inside buf c (suc i + 0) o (omega arith) (omega arith)
          (at_place buf d (suc i) 0 p (omega (arith, v.long)) ∙ v.first))
    | inr (inr l) ↦
        let k : ℕ = suc i + (length prefix - 1) in
        absurd (
          inside buf c k o (omega (arith, v.long)) (omega (arith, v.short, v.long))
            (at_place buf d (suc i) (length prefix - 1) p (omega (arith, v.long)) ∙ v.last))
  ]
    where
      far_or :
          (i : ℕ)
          → (length prefix + 31 ≤ i)
            ⊎ ((length prefix ≤ suc i) × (i < length prefix + 31) ⊎ (suc i < length prefix))
      far_or i = grind arith
