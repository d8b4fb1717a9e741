-- ===== src/Pmm/Count.antt =====
-- The number of free frames, as the digits of the bitmap give it, under a change of one digit.
use pureshade_os.Base.{
  ℕ, zero, suc, ◌+◌, ◌-◌, ◌*◌, ◌/◌, ◌%◌, ◌^◌, ◌≤◌, ◌<◌, ◌≡◌, refl, sym, ◌≢◌, ◌⊎◌, inl, inr, subst,
  true, false, [], ◌∷◌, length, get_or, set, arith,
}
use Prim.Native.Nat.{bit_and, bit_or}
use pureshade_os.Base.Bits.{
  bit, bit-lt-two, bit-bit_or, bit-bit_and, bit-pow_self, bit-pow_ne, bit-not_pow_self,
  bit-not_pow_ne, bit_or-lt, bit_and-lt, pow_lt,
}
use pureshade_os.Pmm.{
  word_bits, Bitmap, word_at, mask, set_used, set_free, is_used, count_zeros, count_free,
}
use pureshade_os.Pmm.Bitmap.{frame_bit, is_used-frame_bit}
use pureshade_os.Pmm.Alloc.{AllWords}

count_zeros_cong :
    (n a b : ℕ) → ((j : ℕ) → j < n → bit a j ≡ bit b j) → count_zeros n a ≡ count_zeros n b
unfolding count_zeros bit
count_zeros_cong zero a b h = refl
count_zeros_cong (suc n) a b h =
    omega (
      arith,
      h 0 (omega arith),
      count_zeros_cong n (a / 2) (b / 2) (λ j l. h (suc j) (omega arith)),
    )

-- One digit goes from 0 to 1.
count_zeros_one :
    (n k a b : ℕ)
    → k < n
    → bit a k ≡ 0
    → bit b k ≡ 1
    → ((j : ℕ) → j < n → k ≢ j → bit b j ≡ bit a j)
    → count_zeros n b + 1 ≡ count_zeros n a
unfolding count_zeros bit
count_zeros_one zero k a b l p q h = absurd (omega arith)
count_zeros_one (suc n) zero a b l p q h = omega (
  arith,
  count_zeros_cong n (a / 2) (b / 2)
      (λ j m. sym (h (suc j) (omega arith) (λ e. absurd (omega arith)))),
)
count_zeros_one (suc n) (suc k) a b l p q h = omega (
  arith,
  h 0 (omega arith) (λ e. absurd (omega arith)),
  count_zeros_one n k (a / 2) (b / 2) (omega arith) p q
      (λ j m d. h (suc j) (omega arith) (λ e. d (omega arith))),
)

count_free-set :
    (bm : Bitmap) (i v : ℕ)
    → i < length bm
    → count_free (set bm i v) + count_zeros word_bits (get_or bm i 0)
      ≡ count_free bm + count_zeros word_bits v
unfolding count_free
count_free-set [] i v h = absurd (omega arith)
count_free-set (w ∷ ws) zero v h = omega arith
count_free-set (w ∷ ws) (suc i) v h = omega (arith, count_free-set ws i v (omega arith))

bit_of_free : (bm : Bitmap) (f : ℕ) → is_used bm f ≡ false → frame_bit bm f ≡ 0
unfolding frame_bit
bit_of_free bm f u =
    ground (arith, is_used-frame_bit bm f, bit-lt-two (word_at bm (f / word_bits)) (f % word_bits))

bit_of_used : (bm : Bitmap) (f : ℕ) → is_used bm f ≡ true → frame_bit bm f ≡ 1
unfolding frame_bit
bit_of_used bm f u = ground (arith, is_used-frame_bit bm f)

-- Marking a free frame as used takes one from the number of free frames.
pub count_free-set_used :
    (bm : Bitmap) (f : ℕ)
    → f / word_bits < length bm
    → is_used bm f ≡ false
    → count_free (set_used bm f) + 1 ≡ count_free bm
unfolding set_used frame_bit
count_free-set_used bm f h u =
    let w = word_at bm (f / word_bits) in
    let k = f % word_bits in
    omega (
      arith,
      count_free-set bm (f / word_bits) (bit_or w (mask f)) h,
      count_zeros_one word_bits k w (bit_or w (mask f)) (omega arith) (bit_of_free bm f u)
          (omega (arith, bit-bit_or w (mask f) k, bit-pow_self k, bit-lt-two w k))
          (λ j l d. omega (arith, bit-bit_or w (mask f) j, bit-pow_ne k j d)),
    )

-- Marking a used frame as used again changes no digit.
pub count_free-set_used_again :
    (bm : Bitmap) (f : ℕ)
    → f / word_bits < length bm
    → is_used bm f ≡ true
    → count_free (set_used bm f) ≡ count_free bm
unfolding set_used frame_bit
count_free-set_used_again bm f h u =
    let w = word_at bm (f / word_bits) in
    let k = f % word_bits in
    omega (
      arith,
      count_free-set bm (f / word_bits) (bit_or w (mask f)) h,
      count_zeros_cong word_bits (bit_or w (mask f)) w (λ j l. elim (digit_dec k j) [
        | inl e ↦
            subst (λ i. bit (bit_or w (mask f)) i ≡ bit w i) e
              (omega (
                arith,
                bit-bit_or w (mask f) k,
                bit-pow_self k,
                bit-lt-two w k,
                bit_of_used bm f u,
              ))
        | inr d ↦ omega (arith, bit-bit_or w (mask f) j, bit-pow_ne k j d, bit-lt-two w j)
      ]),
    )
  where
    digit_dec : (a b : ℕ) → (a ≡ b) ⊎ (a ≢ b)
    digit_dec a b = grind arith

-- Marking a used frame as free adds one.
pub count_free-set_free :
    (bm : Bitmap) (f : ℕ)
    → f / word_bits < length bm
    → is_used bm f ≡ true
    → count_free (set_free bm f) ≡ count_free bm + 1
unfolding set_free frame_bit
count_free-set_free bm f h u =
    let w = word_at bm (f / word_bits) in
    let k = f % word_bits in
    let v = bit_and w (2 ^ word_bits - 1 - mask f) in
    omega (
      arith,
      count_free-set bm (f / word_bits) v h,
      count_zeros_one word_bits k v w (omega arith)
          (omega (
            arith,
            bit-bit_and w (2 ^ word_bits - 1 - mask f) k,
            bit-not_pow_self word_bits k (omega arith),
          ))
          (bit_of_used bm f u)
          (λ j l d. omega (
            arith,
            bit-bit_and w (2 ^ word_bits - 1 - mask f) j,
            bit-lt-two w j,
            bit-not_pow_ne word_bits k j (omega arith) l d,
          )),
    )

AllWords-set : (bm : Bitmap) (i v : ℕ) → AllWords bm → v < 2 ^ word_bits → AllWords (set bm i v)
AllWords-set [] i v a h = tt
AllWords-set (w ∷ ws) zero v a h = (h, a.1)
AllWords-set (w ∷ ws) (suc i) v a h = (a.0, AllWords-set ws i v a.1 h)

word_at-lt : (bm : Bitmap) (i : ℕ) → AllWords bm → word_at bm i < 2 ^ word_bits
word_at-lt [] i a = omega arith
word_at-lt (w ∷ ws) zero a = a.0
word_at-lt (w ∷ ws) (suc i) a = word_at-lt ws i a.1

pub AllWords-set_used : (bm : Bitmap) (f : ℕ) → AllWords bm → AllWords (set_used bm f)
unfolding set_used
AllWords-set_used bm f a =
    AllWords-set bm (f / word_bits) (bit_or (word_at bm (f / word_bits)) (mask f)) a (
      bit_or-lt word_bits (word_at bm (f / word_bits)) (mask f) (word_at-lt bm (f / word_bits) a)
        (pow_lt (f % word_bits) word_bits (omega arith)))

pub AllWords-set_free : (bm : Bitmap) (f : ℕ) → AllWords bm → AllWords (set_free bm f)
unfolding set_free
AllWords-set_free bm f a =
    AllWords-set bm (f / word_bits)
      (bit_and (word_at bm (f / word_bits)) (2 ^ word_bits - 1 - mask f)) a
      (bit_and-lt word_bits (word_at bm (f / word_bits)) (2 ^ word_bits - 1 - mask f)
        (word_at-lt bm (f / word_bits) a))

count_zeros-le : (n w : ℕ) → count_zeros n w ≤ n
unfolding count_zeros
count_zeros-le zero w = omega arith
count_zeros-le (suc n) w = omega (arith, count_zeros-le n (w / 2))

pub count_free-le : (bm : Bitmap) → count_free bm ≤ word_bits * length bm
unfolding count_free
count_free-le [] = omega arith
count_free-le (w ∷ ws) = omega (arith, count_zeros-le word_bits w, count_free-le ws)
