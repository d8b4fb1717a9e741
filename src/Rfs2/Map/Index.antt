-- ===== src/Rfs2/Map/Index.antt =====
-- The path of an inode number through the map.
use native.Mathlib.Nat.{
  mod-lt, mod-eq_of_lt, div-eq_of_lt, div-div-eq-div-mul, pow-suc, pow-le-pow_right,
  le-div_iff_mul-le, div-lt_iff_lt-mul,
}
use pureshade_os.Base.{
  ℕ, zero, suc, ◌+◌, ◌-◌, ◌*◌, ◌/◌, ◌%◌, ◌^◌, ◌≤◌, ◌<◌, ◌≡◌, ◌≢◌, refl, ap, sym, ◌∙◌, subst, ◌⊎◌,
  inl, inr, arith, lt→ltb,
}
use pureshade_os.Rfs2.Map.{imap_index, imap_capacity, shift_right, saturated}

-- The inode numbers below a node of that level, without the bound of 64 bits.
unfoldable pub reach : ℕ → ℕ
reach zero = 32
reach (suc n) = reach n * 128

pow_seven : (k : ℕ) → 2 ^ (k + 7) ≡ 2 ^ k * 128
pow_seven k =
    let e : k + 7 ≡ suc (suc (suc (suc (suc (suc (suc (k))))))) = omega arith in
    ap (λ j. 2 ^ j) e
    ∙ omega (
      arith,
      pow-suc 2 (k),
      pow-suc 2 (suc (k)),
      pow-suc 2 (suc (suc (k))),
      pow-suc 2 (suc (suc (suc (k)))),
      pow-suc 2 (suc (suc (suc (suc (k))))),
      pow-suc 2 (suc (suc (suc (suc (suc (k)))))),
      pow-suc 2 (suc (suc (suc (suc (suc (suc (k))))))),
    )

reach-pow : (n : ℕ) → reach n ≡ 2 ^ (5 + 7 * n)
unfolding reach
reach-pow zero = refl
reach-pow (suc n) =
    let e : 5 + 7 * n + 7 ≡ 5 + 7 * suc n = omega arith in
    ap (λ r. r * 128) (reach-pow n) ∙ sym (pow_seven (5 + 7 * n)) ∙ ap (λ k. 2 ^ k) e

reach_pos : (n : ℕ) → 0 < reach n
unfolding reach
reach_pos zero = omega arith
reach_pos (suc n) = omega (arith, reach_pos n)

pub imap_index-reach : (ino n : ℕ) → n < 9 → imap_index ino (suc n) ≡ ino / reach n % 128
unfolding shift_right
imap_index-reach ino n l =
    let b : (5 + 7 * n) % 64 ≡ 5 + 7 * n = mod-eq_of_lt (omega arith) in
    let e : (5 + 7 * (suc n - 1)) % 64 ≡ 5 + 7 * n = omega (arith, b) in
    ap (λ k. ino / 2 ^ k % 128) e ∙ ap (λ k. ino / k % 128) (sym (reach-pow n))

-- Two numbers leave the path at some node, or lie in different slots of one leaf.
abbrev pub Apart : ℕ → ℕ → ℕ → Type 0
Apart zero i j = i % 32 ≢ j % 32
Apart (suc n) i j = (imap_index i (suc n) ≢ imap_index j (suc n)) ⊎ Apart n i j

Apart-div : (n i j : ℕ) → n ≤ 9 → i / reach n ≡ j / reach n → i ≢ j → Apart n i j
unfolding reach
Apart-div zero i j l e d = λ q. d (omega (arith, e, q))
Apart-div (suc n) i j l e d = elim (dec (i / reach n) (j / reach n)) [
  | inl q ↦ inr (Apart-div n i j (omega arith) q d)
  | inr q ↦ inl (λ same. q (
      joined (i / reach n) (j / reach n)
        (sym (imap_index-reach i n (omega arith)) ∙ same ∙ imap_index-reach j n (omega arith))
        (div-div-eq-div-mul i (reach n) 128 ∙ e ∙ sym (div-div-eq-div-mul j (reach n) 128))))
]
  where
    joined : (a b : ℕ) → a % 128 ≡ b % 128 → a / 128 ≡ b / 128 → a ≡ b
    joined a b h k = omega arith

    dec : (a b : ℕ) → (a ≡ b) ⊎ (a ≢ b)
    dec a b = grind arith

-- Different numbers below a node part on their ways.
pub Apart-ne : (n i j : ℕ) → n ≤ 9 → i < reach n → j < reach n → i ≢ j → Apart n i j
Apart-ne n i j l a b = Apart-div n i j l (div-eq_of_lt a ∙ sym (div-eq_of_lt b))

-- The first child of a new root holds the numbers that there were room for before.
pub imap_index-first : (ino n : ℕ) → n < 9 → ino < reach n → imap_index ino (suc n) ≡ 0
imap_index-first ino n l h = imap_index-reach ino n l ∙ ap (λ k. k % 128) (div-eq_of_lt h)

pub imap_index-later :
    (ino n : ℕ) → n < 9 → reach n ≤ ino → ino < reach (suc n) → imap_index ino (suc n) ≢ 0
unfolding reach
imap_index-later ino n l h k e =
    let a : 1 ≤ ino / reach n = (le-div_iff_mul-le (reach_pos n)).1 (omega arith) in
    let b : ino / reach n < 128 = (div-lt_iff_lt-mul (reach_pos n)).1 (omega arith) in
    let m : ino / reach n % 128 ≡ ino / reach n = mod-eq_of_lt b in
    omega (arith, a, m, sym (imap_index-reach ino n l) ∙ e)

pub imap_index_lt : (ino n : ℕ) → imap_index ino (suc n) < 128
imap_index_lt ino n = mod-lt (shift_right ino (5 + 7 * (suc n - 1))) (omega arith)

saturated_le : (v k : ℕ) → k < saturated v → k < v
unfolding saturated
saturated_le v k h = ground arith

saturated_small : (v : ℕ) → v < 2 ^ 64 → saturated v ≡ v
unfolding saturated
saturated_small v h = rw (lt→ltb v (2 ^ 64) h) refl

capacity_reach : (n : ℕ) → n < 10 → 128 ^ (n % 2 ^ 32) * 32 ≡ reach n
unfolding reach
capacity_reach n l =
    let small : n % 2 ^ 32 ≡ n = mod-eq_of_lt (omega arith) in
    ap (λ k. 128 ^ k * 32) small ∙ exact n
  where
    exact : (n : ℕ) → 128 ^ n * 32 ≡ reach n
    exact zero = refl
    exact (suc n) = omega (arith, pow-suc 128 n, exact n)

pub below_reach : (n ino : ℕ) → n ≤ 9 → ino < imap_capacity n → ino < reach n
unfolding imap_capacity
below_reach n ino l h =
    let a = saturated_le (128 ^ (n % 2 ^ 32) * 32) ino h in
    subst (λ k. ino < k) (capacity_reach n (omega arith)) a

reach_small : (n : ℕ) → n < 9 → reach n ≤ 2 ^ 61
reach_small n l =
    let a : 2 ^ (5 + 7 * n) ≤ 2 ^ 61 = pow-le-pow_right (omega arith) {j = 61} (omega arith) in
    omega (arith, a, reach-pow n)

-- Below the height 9 the capacity is exact.
pub imap_capacity-reach : (n : ℕ) → n < 9 → imap_capacity n ≡ reach n
unfolding imap_capacity
imap_capacity-reach n l =
    let e = capacity_reach n (omega arith) in
    let b : reach n < 2 ^ 64 = omega (arith, reach_small n l) in
    ap saturated e ∙ saturated_small (reach n) b

pub imap_capacity-last : imap_capacity 9 ≡ 2 ^ 64 - 1
unfolding imap_capacity saturated
imap_capacity-last = refl

pub imap_capacity_grows : (n : ℕ) → n < 9 → imap_capacity n ≤ imap_capacity (suc n)
unfolding reach
imap_capacity_grows n l = elim (last_or n l) [
  | inl e ↦
      let top : imap_capacity (suc n) ≡ 2 ^ 64 - 1 =
        ap (λ k. imap_capacity (suc k)) e ∙ imap_capacity-last in
      omega (arith, top, imap_capacity-reach n l, reach_small n l)
  | inr k ↦ omega (arith, imap_capacity-reach n l, imap_capacity-reach (suc n) k)
]
  where
    last_or : (n : ℕ) → n < 9 → (n ≡ 8) ⊎ (suc n < 9)
    last_or n l = grind arith
