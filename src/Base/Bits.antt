-- ===== src/Base/Bits.antt =====
-- Binary digits of machine words: `&` and `|` digit by digit, and a single digit set, cleared, read.
use Prim.Native.Nat.{
  ℕ, zero, suc, ◌+◌, ◌-◌, ◌*◌, ◌/◌, ◌%◌, ◌^◌, ◌≤◌, ◌<◌, min, max, digits, bitwise, bit_and, bit_or,
  bit_and-bitwise, bit_or-bitwise,
}
use mathlib.Core.Path.{◌≡◌, refl, ap}
use mathlib.Core.Logic.{◌≢◌}
use native.Mathlib.Nat.{pow-suc}
use native.Mathlib.Omega.{arith}

module _ (z : ℕ → ℕ) (f : ℕ → ℕ → ℕ) where
  -- `digits` counts its fuel down with the halves of `a`: a unit more than `a` is not touched.
  one_more : (n a b : ℕ) → a ≤ n → digits z f (suc n) a b ≡ digits z f n a b
  one_more zero zero b h = refl
  one_more (suc n) zero b h = refl
  one_more zero (suc a) b h = absurd (omega arith)
  one_more (suc n) (suc a) b h =
      ap (λ r. r * 2 + f (suc a % 2) (b % 2)) (one_more n (suc a / 2) (b / 2) (omega arith))

  spare : (d n a b : ℕ) → n ≡ a + d → digits z f n a b ≡ bitwise z f a b
  spare zero n a b e = ap (λ k. digits z f k a b) (omega arith)
  spare (suc d) n a b e =
      let more : n ≡ suc (a + d) = omega arith in
      rw (more, one_more (a + d) a b (omega arith)) (spare d (a + d) a b refl)

  lowest_digit :
      (a b : ℕ)
      → bitwise z f (suc a) b ≡ f (suc a % 2) (b % 2) + 2 * bitwise z f (suc a / 2) (b / 2)
  lowest_digit a b = omega (arith, spare (a - suc a / 2) a (suc a / 2) (b / 2) (omega arith))

bit_and_low : (x y : ℕ) → bit_and x y ≡ min (x % 2) (y % 2) + 2 * bit_and (x / 2) (y / 2)
bit_and_low zero y = simp bit_and-bitwise (omega arith)
bit_and_low (suc x) y = simp bit_and-bitwise (lowest_digit (λ r. 0) min x y)

bit_or_low : (x y : ℕ) → bit_or x y ≡ max (x % 2) (y % 2) + 2 * bit_or (x / 2) (y / 2)
bit_or_low zero y = simp bit_or-bitwise (omega arith)
bit_or_low (suc x) y = simp bit_or-bitwise (lowest_digit (λ r. r) max x y)

pub bit_or-lt : (n x y : ℕ) → x < 2 ^ n → y < 2 ^ n → bit_or x y < 2 ^ n
bit_or-lt zero x y p q =
    let e : x ≡ 0 = omega arith in let f : y ≡ 0 = omega arith in rw (e, f) (omega arith)
bit_or-lt (suc n) x y p q =
    let half : bit_or (x / 2) (y / 2) < 2 ^ n =
      bit_or-lt n (x / 2) (y / 2) (omega (arith, pow-suc 2 n)) (omega (arith, pow-suc 2 n)) in
    omega (arith, bit_or_low x y, pow-suc 2 n)

pub bit_and-lt : (n x y : ℕ) → x < 2 ^ n → bit_and x y < 2 ^ n
bit_and-lt zero x y p =
    let e : x ≡ 0 = omega arith in
    rw e (omega (arith, bit_and_low 0 y, bit_and-bitwise 0 (y / 2), bit_and-bitwise 0 y))
bit_and-lt (suc n) x y p =
    let half : bit_and (x / 2) (y / 2) < 2 ^ n =
      bit_and-lt n (x / 2) (y / 2) (omega (arith, pow-suc 2 n)) in
    omega (arith, bit_and_low x y, pow-suc 2 n)

-- The digit of weight `2 ^ k`.
unfoldable pub bit : ℕ → ℕ → ℕ
bit w zero = w % 2
bit w (suc k) = bit (w / 2) k

pub bit-lt-two : (w k : ℕ) → bit w k < 2
unfolding bit
bit-lt-two w zero = omega arith
bit-lt-two w (suc k) = bit-lt-two (w / 2) k

bit_zero : (k : ℕ) → bit 0 k ≡ 0
unfolding bit
bit_zero zero = refl
bit_zero (suc k) = bit_zero k

half_of_double : (a b c : ℕ) → c < 2 → a ≡ c + 2 * b → a / 2 ≡ b
half_of_double a b c h e = omega arith

pub bit-bit_and : (a b k : ℕ) → bit (bit_and a b) k ≡ min (bit a k) (bit b k)
unfolding bit
bit-bit_and a b zero = omega (arith, bit_and_low a b)
bit-bit_and a b (suc k) =
    rw
      (half_of_double (bit_and a b) (bit_and (a / 2) (b / 2)) (min (a % 2) (b % 2)) (omega arith)
        (bit_and_low a b))
      (bit-bit_and (a / 2) (b / 2) k)

pub bit-bit_or : (a b k : ℕ) → bit (bit_or a b) k ≡ max (bit a k) (bit b k)
unfolding bit
bit-bit_or a b zero = omega (arith, bit_or_low a b)
bit-bit_or a b (suc k) =
    rw
      (half_of_double (bit_or a b) (bit_or (a / 2) (b / 2)) (max (a % 2) (b % 2)) (omega arith)
        (bit_or_low a b))
      (bit-bit_or (a / 2) (b / 2) k)

bit_ext_fuel : (n a b : ℕ) → a ≤ n → b ≤ n → ((k : ℕ) → bit a k ≡ bit b k) → a ≡ b
unfolding bit
bit_ext_fuel zero a b p q h = omega arith
bit_ext_fuel (suc n) a b p q h =
    omega (arith, h 0, bit_ext_fuel n (a / 2) (b / 2) (omega arith) (omega arith) (λ k. h (suc k)))

-- Two numbers with the same digits are one.
pub bit_ext : (a b : ℕ) → ((k : ℕ) → bit a k ≡ bit b k) → a ≡ b
bit_ext a b h = bit_ext_fuel (a + b) a b (omega arith) (omega arith) h

two_pow_half : (k : ℕ) → 2 ^ suc k / 2 ≡ 2 ^ k
two_pow_half k = omega (arith, pow-suc 2 k)

pub bit-pow_self : (k : ℕ) → bit (2 ^ k) k ≡ 1
unfolding bit
bit-pow_self zero = refl
bit-pow_self (suc k) = rw (two_pow_half k) (bit-pow_self k)

pub bit-pow_ne : (k j : ℕ) → k ≢ j → bit (2 ^ k) j ≡ 0
unfolding bit
bit-pow_ne zero zero h = absurd (h refl)
bit-pow_ne zero (suc j) h = bit_zero j
bit-pow_ne (suc k) zero h = omega (arith, pow-suc 2 k)
bit-pow_ne (suc k) (suc j) h = rw (two_pow_half k) (bit-pow_ne k j (λ e. h (ap suc e)))

bit_and-zero : (w : ℕ) → bit_and w 0 ≡ 0
bit_and-zero w = bit_ext _ _ (λ k. omega (arith, bit-bit_and w 0 k, bit_zero k))

-- `w & (1 << k)` is the digit in its place.
pub bit_and-pow : (w k : ℕ) → bit_and w (2 ^ k) ≡ bit w k * 2 ^ k
unfolding bit
bit_and-pow w zero = omega (arith, bit_and_low w 1, bit_and-zero (w / 2))
bit_and-pow w (suc k) = omega (
  arith,
  bit_and_low w (2 ^ suc k),
  pow-suc 2 k,
  ap (λ (t : ℕ). bit_and (w / 2) t) (two_pow_half k),
  ap (λ (t : ℕ). bit (w / 2) k * t) (pow-suc 2 k),
  bit_and-pow (w / 2) k,
)

pub pow_pos : (k : ℕ) → 0 < 2 ^ k
pow_pos zero = omega arith
pow_pos (suc k) = omega (arith, pow-suc 2 k, pow_pos k)

pub pow_lt : (k n : ℕ) → k < n → 2 ^ k < 2 ^ n
pow_lt k zero h = absurd (omega arith)
pow_lt zero (suc n) h = omega (arith, pow-suc 2 n, pow_pos n)
pow_lt (suc k) (suc n) h = omega (arith, pow-suc 2 k, pow-suc 2 n, pow_lt k n (omega arith))

-- The word of `n` ones.
pub bit-ones : (n j : ℕ) → j < n → bit (2 ^ n - 1) j ≡ 1
unfolding bit
bit-ones zero j h = absurd (omega arith)
bit-ones (suc n) zero h = omega (arith, pow-suc 2 n, pow_pos n)
bit-ones (suc n) (suc j) h =
    let e : (2 ^ suc n - 1) / 2 ≡ 2 ^ n - 1 = omega (arith, pow-suc 2 n, pow_pos n) in
    rw e (bit-ones n j (omega arith))

-- `!(1 << k)` in a word of `n` digits: every digit but one.
pub bit-not_pow_ne : (n k j : ℕ) → k < n → j < n → k ≢ j → bit (2 ^ n - 1 - 2 ^ k) j ≡ 1
unfolding bit
bit-not_pow_ne zero k j h p d = absurd (omega arith)
bit-not_pow_ne (suc n) zero zero h p d = absurd (d refl)
bit-not_pow_ne (suc n) zero (suc j) h p d =
    let e : (2 ^ suc n - 1 - 1) / 2 ≡ 2 ^ n - 1 = omega (arith, pow-suc 2 n, pow_pos n) in
    rw e (bit-ones n j (omega arith))
bit-not_pow_ne (suc n) (suc k) zero h p d =
    omega (arith, pow-suc 2 n, pow-suc 2 k, pow_lt k n (omega arith))
bit-not_pow_ne (suc n) (suc k) (suc j) h p d =
    let e : (2 ^ suc n - 1 - 2 ^ suc k) / 2 ≡ 2 ^ n - 1 - 2 ^ k =
      omega (arith, pow-suc 2 n, pow-suc 2 k, pow_lt k n (omega arith)) in
    rw e (bit-not_pow_ne n k j (omega arith) (omega arith) (λ q. d (ap suc q)))

pub bit-not_pow_self : (n k : ℕ) → k < n → bit (2 ^ n - 1 - 2 ^ k) k ≡ 0
unfolding bit
bit-not_pow_self zero k h = absurd (omega arith)
bit-not_pow_self (suc n) zero h = omega (arith, pow-suc 2 n, pow_pos n)
bit-not_pow_self (suc n) (suc k) h =
    let e : (2 ^ suc n - 1 - 2 ^ suc k) / 2 ≡ 2 ^ n - 1 - 2 ^ k =
      omega (arith, pow-suc 2 n, pow-suc 2 k, pow_lt k n (omega arith)) in
    rw e (bit-not_pow_self n k (omega arith))
