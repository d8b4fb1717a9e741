-- ===== src/Base/Bytes.antt =====
-- Byte buffers: a copy into a buffer at an offset, and a read of a span.
use pureshade_os.Base.{
  ℕ, zero, suc, ◌+◌, ◌≤◌, ◌≡◌, refl, ap, List, [], ◌∷◌, ◌++◌, arith, length, take, drop, take-take,
}

module _ {ℓ} {A : Type ℓ} where
  -- `buf[off .. off + xs.len()].copy_from_slice(xs)`; what would fall beyond the buffer is dropped,
  -- which no caller relies on.
  abbrev pub overlay : List A → ℕ → List A → List A
  overlay [] i xs = []
  overlay (d ∷ ds) zero [] = d ∷ ds
  overlay (d ∷ ds) zero (x ∷ xs) = x ∷ overlay ds zero xs
  overlay (d ∷ ds) (suc i) xs = d ∷ overlay ds i xs

  -- `buf[off .. off + n]`.
  abbrev pub span : List A → ℕ → ℕ → List A
  span ds off n = take n (drop off ds)

  pub length-overlay : (ds : List A) (i : ℕ) (xs : List A) → length (overlay ds i xs) ≡ length ds
  length-overlay [] i xs = refl
  length-overlay (d ∷ ds) zero [] = refl
  length-overlay (d ∷ ds) zero (x ∷ xs) = ap suc (length-overlay ds zero xs)
  length-overlay (d ∷ ds) (suc i) xs = ap suc (length-overlay ds i xs)

  pub overlay-nil : (ds : List A) (i : ℕ) → overlay ds i [] ≡ ds
  overlay-nil [] i = refl
  overlay-nil (d ∷ ds) zero = refl
  overlay-nil (d ∷ ds) (suc i) = ap (λ r. d ∷ r) (overlay-nil ds i)

  -- Two copies in a row are one.
  pub overlay-overlay :
      (ds : List A) (i j : ℕ) (xs ys : List A)
      → j ≡ i + length xs
      → overlay (overlay ds i xs) j ys ≡ overlay ds i (xs ++ ys)
  overlay-overlay [] i j xs ys e = refl
  overlay-overlay (d ∷ ds) zero zero [] ys e = refl
  overlay-overlay (d ∷ ds) zero (suc j) [] ys e = absurd (omega arith)
  overlay-overlay (d ∷ ds) zero zero (x ∷ xs) ys e = absurd (omega arith)
  overlay-overlay (d ∷ ds) zero (suc j) (x ∷ xs) ys e =
      ap (λ r. x ∷ r) (overlay-overlay ds zero j xs ys (omega arith))
  overlay-overlay (d ∷ ds) (suc i) zero xs ys e = absurd (omega arith)
  overlay-overlay (d ∷ ds) (suc i) (suc j) xs ys e =
      ap (λ r. d ∷ r) (overlay-overlay ds i j xs ys (omega arith))

  -- What was copied is read back.
  pub span-overlay_self :
      (ds : List A) (i n : ℕ) (xs : List A)
      → i + length xs ≤ length ds
      → n ≡ length xs
      → span (overlay ds i xs) i n ≡ xs
  span-overlay_self ds zero zero [] h e = refl
  span-overlay_self ds (suc i) zero [] h e = refl
  span-overlay_self ds i (suc n) [] h e = absurd (omega arith)
  span-overlay_self ds i zero (x ∷ xs) h e = absurd (omega arith)
  span-overlay_self [] i (suc n) (x ∷ xs) h e = absurd (omega arith)
  span-overlay_self (d ∷ ds) zero (suc n) (x ∷ xs) h e =
      ap (λ r. x ∷ r) (span-overlay_self ds zero n xs (omega arith) (omega arith))
  span-overlay_self (d ∷ ds) (suc i) (suc n) (x ∷ xs) h e =
      span-overlay_self ds i (suc n) (x ∷ xs) (omega arith) e

  -- A span before the copy, or behind it, is as it was.
  pub span-overlay_before :
      (ds : List A) (i k n : ℕ) (xs : List A) → k + n ≤ i → span (overlay ds i xs) k n ≡ span ds k n
  span-overlay_before [] i k n xs h = refl
  span-overlay_before (d ∷ ds) zero zero zero xs h = refl
  span-overlay_before (d ∷ ds) zero zero (suc n) xs h = absurd (omega arith)
  span-overlay_before (d ∷ ds) zero (suc k) n xs h = absurd (omega arith)
  span-overlay_before (d ∷ ds) (suc i) zero zero xs h = refl
  span-overlay_before (d ∷ ds) (suc i) zero (suc n) xs h =
      ap (λ r. d ∷ r) (span-overlay_before ds i zero n xs (omega arith))
  span-overlay_before (d ∷ ds) (suc i) (suc k) n xs h =
      span-overlay_before ds i k n xs (omega arith)

  pub drop-overlay_after :
      (ds : List A) (i k : ℕ) (xs : List A)
      → i + length xs ≤ k
      → drop k (overlay ds i xs) ≡ drop k ds
  drop-overlay_after [] i k xs h = refl
  drop-overlay_after (d ∷ ds) zero k [] h = refl
  drop-overlay_after (d ∷ ds) zero zero (x ∷ xs) h = absurd (omega arith)
  drop-overlay_after (d ∷ ds) zero (suc k) (x ∷ xs) h =
      drop-overlay_after ds zero k xs (omega arith)
  drop-overlay_after (d ∷ ds) (suc i) zero xs h = absurd (omega arith)
  drop-overlay_after (d ∷ ds) (suc i) (suc k) xs h = drop-overlay_after ds i k xs (omega arith)

  -- A span that ends within a prefix is one of the prefix.
  pub span-take : (m off n : ℕ) (bs : List A) → off + n ≤ m → span (take m bs) off n ≡ span bs off n
  span-take m zero n bs h = take-take n m bs (omega arith)
  span-take zero (suc off) n bs h = absurd (omega arith)
  span-take (suc m) (suc off) n [] h = refl
  span-take (suc m) (suc off) n (b ∷ bs) h = span-take m off n bs (omega arith)
