-- ===== src/Rfs2/Space/Count.antt =====
-- The number of set bits, as setting one changes it (fs/rfs2/src/space.rs).
use pureshade_os.Base.{
  ℕ, zero, suc, ◌+◌, ◌*◌, ◌/◌, ◌<◌, ◌≡◌, refl, true, false, List, [], ◌∷◌, length, length-set,
  arith, get_or, replicate, not, ◌==◌, ap, ◌∙◌, ◌^◌, ◌%◌,
}
use Prim.Native.Nat.{bit_and, bit_or}
use pureshade_os.Base.Bits.{bit, bit_and-pow}
use pureshade_os.Pmm.{is_used, set_used, count_zeros, count_free}
use pureshade_os.Pmm.Count.{count_free-set_used, count_free-set_used_again}
use pureshade_os.Rfs2.Space.{Bitmap, new_bitmap, get, set_bit, count, count_ones, count_words}

ones_zeros : (n w : ℕ) → count_ones n w + count_zeros n w ≡ n
unfolding count_zeros
ones_zeros zero w = refl
ones_zeros (suc n) w = omega (arith, ones_zeros n (w / 2))

words_free : (ws : List ℕ) → count_words ws + count_free ws ≡ 64 * length ws
unfolding count_free
words_free [] = refl
words_free (w ∷ ws) = omega (arith, ones_zeros 64 w, words_free ws)

pub count-set_bit :
    (bm : Bitmap) (i : ℕ)
    → i / 64 < length bm.words
    → get bm i ≡ false
    → count (set_bit bm i).0 ≡ count bm + 1
unfolding get set_bit count is_used set_used
count-set_bit bm i l h = omega (
  arith,
  words_free bm.words,
  words_free (set_used bm.words i),
  length-set bm.words (i / 64) (bit_or (get_or bm.words (i / 64) 0) (2 ^ (i % 64))),
  count_free-set_used bm.words i l h,
)

pub count-set_bit_again :
    (bm : Bitmap) (i : ℕ)
    → i / 64 < length bm.words
    → get bm i ≡ true
    → count (set_bit bm i).0 ≡ count bm
unfolding get set_bit count is_used set_used
count-set_bit_again bm i l h = omega (
  arith,
  words_free bm.words,
  words_free (set_used bm.words i),
  length-set bm.words (i / 64) (bit_or (get_or bm.words (i / 64) 0) (2 ^ (i % 64))),
  count_free-set_used_again bm.words i l h,
)

bit-zero : (k : ℕ) → bit 0 k ≡ 0
unfolding bit
bit-zero zero = refl
bit-zero (suc k) = bit-zero k

word-replicate : (n i : ℕ) → get_or (replicate n 0) i 0 ≡ zero
word-replicate zero zero = refl
word-replicate zero (suc i) = refl
word-replicate (suc n) zero = refl
word-replicate (suc n) (suc i) = word-replicate n i

-- A new bitmap has no bit set.
pub get-new_bitmap : (n b : ℕ) → get (new_bitmap n) b ≡ false
unfolding get new_bitmap
get-new_bitmap n b =
    let masked : bit_and 0 (2 ^ (b % 64)) ≡ 0 =
      bit_and-pow 0 (b % 64)
      ∙ ap (λ d. d * 2 ^ (b % 64)) (bit-zero (b % 64))
      ∙ zero_times (2 ^ (b % 64)) in
    ap (λ w. not (bit_and w (2 ^ (b % 64)) == 0)) (word-replicate ((n + 63) / 64) (b / 64))
    ∙ ap (λ w. not (w == 0)) masked
  where
    zero_times : (k : ℕ) → 0 * k ≡ 0
    zero_times k = omega arith

pub count-new_bitmap : (n : ℕ) → count (new_bitmap n) ≡ 0
unfolding count new_bitmap
count-new_bitmap n = zeros ((n + 63) / 64)
  where
    zeros : (k : ℕ) → count_words (replicate k 0) ≡ 0
    zeros zero = refl
    zeros (suc k) = omega (arith, zeros k)
