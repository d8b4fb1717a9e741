-- ===== src/Pmm/Bitmap.antt =====
-- A frame that is marked changes its own bit and no other.
use pureshade_os.Base.{
  ℕ, zero, suc, ◌-◌, ◌*◌, ◌/◌, ◌%◌, ◌^◌, ◌<◌, ◌≡◌, refl, ap, sym, ◌∙◌, ◌≢◌, inl, inr, true, false,
  List, [], ◌∷◌, set, get_or, length, arith, ◌==◌, not, Bool-cases, ==_iff, not_==→ne,
}
use Prim.Native.Nat.{bit_and, bit_or}
use pureshade_os.Base.Bits.{
  bit, bit-lt-two, bit-bit_and, bit-bit_or, bit-pow_self, bit-pow_ne, bit_and-pow, pow_pos,
  bit-not_pow_ne, bit-not_pow_self,
}
use pureshade_os.Pmm.{word_bits, Bitmap, word_at, mask, set_used, set_free, is_used}

get_or-set_self : (bm : List ℕ) (i v : ℕ) → i < length bm → get_or (set bm i v) i 0 ≡ v
get_or-set_self [] i v h = absurd (omega arith)
get_or-set_self (x ∷ bm) zero v h = refl
get_or-set_self (x ∷ bm) (suc i) v h = get_or-set_self bm i v (omega arith)

get_or-set_ne : (bm : List ℕ) (i j v : ℕ) → i ≢ j → get_or (set bm i v) j 0 ≡ get_or bm j 0
get_or-set_ne [] i j v h = refl
get_or-set_ne (x ∷ bm) zero zero v h = absurd (h refl)
get_or-set_ne (x ∷ bm) zero (suc j) v h = refl
get_or-set_ne (x ∷ bm) (suc i) zero v h = refl
get_or-set_ne (x ∷ bm) (suc i) (suc j) v h = get_or-set_ne bm i j v (λ e. h (ap suc e))

-- The bit of a frame.
unfoldable pub frame_bit : Bitmap → ℕ → ℕ
frame_bit bm frame = bit (word_at bm (frame / word_bits)) (frame % word_bits)

tested : (b p : ℕ) → b < 2 → 0 < p → not (b * p == 0) ≡ (b == 1)
tested zero p h q = ground arith
tested (suc zero) p h q = ground arith
tested (suc (suc b)) p h q = absurd (omega arith)

-- The test reads that bit.
pub is_used-frame_bit : (bm : Bitmap) (frame : ℕ) → is_used bm frame ≡ (frame_bit bm frame == 1)
unfolding is_used frame_bit
is_used-frame_bit bm frame =
    ap (λ r. not (r == 0)) (bit_and-pow (word_at bm (frame / word_bits)) (frame % word_bits))
    ∙ tested (frame_bit bm frame) (mask frame)
        (bit-lt-two (word_at bm (frame / word_bits)) (frame % word_bits))
        (pow_pos (frame % word_bits))

other_bit : (f g : ℕ) → f ≢ g → f / word_bits ≡ g / word_bits → f % word_bits ≢ g % word_bits
other_bit f g d e q = d (omega arith)

frame_bit-set_used_self :
    (bm : Bitmap) (f : ℕ) → f / word_bits < length bm → frame_bit (set_used bm f) f ≡ 1
unfolding frame_bit set_used
frame_bit-set_used_self bm f h =
    rw (get_or-set_self bm (f / word_bits) (bit_or (word_at bm (f / word_bits)) (mask f)) h) (
      omega (
        arith,
        bit-bit_or (word_at bm (f / word_bits)) (mask f) (f % word_bits),
        bit-pow_self (f % word_bits),
        bit-lt-two (word_at bm (f / word_bits)) (f % word_bits),
      ))

frame_bit-set_used_ne :
    (bm : Bitmap) (f g : ℕ)
    → f / word_bits < length bm
    → f ≢ g
    → frame_bit (set_used bm f) g ≡ frame_bit bm g
unfolding frame_bit set_used
frame_bit-set_used_ne bm f g h d = elim (Bool-cases (f / word_bits == g / word_bits)) [
  | inl e ↦
      let q : f / word_bits ≡ g / word_bits = (==_iff (f / word_bits) (g / word_bits)).0 e in
      rw
        (sym q, get_or-set_self bm (f / word_bits) (bit_or (word_at bm (f / word_bits)) (mask f)) h)
        (omega (
          arith,
          bit-bit_or (word_at bm (f / word_bits)) (mask f) (g % word_bits),
          bit-pow_ne (f % word_bits) (g % word_bits) (other_bit f g d q),
        ))
  | inr e ↦
      rw
        (get_or-set_ne bm (f / word_bits) (g / word_bits)
          (bit_or (word_at bm (f / word_bits)) (mask f))
          (not_==→ne (f / word_bits) (g / word_bits) e))
        refl
]

-- Marking a frame as used sets its bit and leaves the bit of every other frame.
pub is_used-set_used :
    (bm : Bitmap) (f : ℕ)
    → f / word_bits < length bm
    → (is_used (set_used bm f) f ≡ true)
      × ((g : ℕ) → f ≢ g → is_used (set_used bm f) g ≡ is_used bm g)
is_used-set_used bm f h = (
  is_used-frame_bit (set_used bm f) f ∙ ap (λ r. r == 1) (frame_bit-set_used_self bm f h),
  λ g d.
      is_used-frame_bit (set_used bm f) g
      ∙ ap (λ r. r == 1) (frame_bit-set_used_ne bm f g h d)
      ∙ sym (is_used-frame_bit bm g),
)

frame_bit-set_free_self :
    (bm : Bitmap) (f : ℕ) → f / word_bits < length bm → frame_bit (set_free bm f) f ≡ 0
unfolding frame_bit set_free
frame_bit-set_free_self bm f h =
    rw
      (get_or-set_self bm (f / word_bits)
        (bit_and (word_at bm (f / word_bits)) (2 ^ word_bits - 1 - mask f)) h)
      (omega (
        arith,
        bit-bit_and (word_at bm (f / word_bits)) (2 ^ word_bits - 1 - mask f) (f % word_bits),
        bit-not_pow_self word_bits (f % word_bits) (omega arith),
      ))

frame_bit-set_free_ne :
    (bm : Bitmap) (f g : ℕ)
    → f / word_bits < length bm
    → f ≢ g
    → frame_bit (set_free bm f) g ≡ frame_bit bm g
unfolding frame_bit set_free
frame_bit-set_free_ne bm f g h d = elim (Bool-cases (f / word_bits == g / word_bits)) [
  | inl e ↦
      let q : f / word_bits ≡ g / word_bits = (==_iff (f / word_bits) (g / word_bits)).0 e in
      rw
        (
          sym q,
          get_or-set_self bm (f / word_bits)
              (bit_and (word_at bm (f / word_bits)) (2 ^ word_bits - 1 - mask f)) h,
        )
        (omega (
          arith,
          bit-bit_and (word_at bm (f / word_bits)) (2 ^ word_bits - 1 - mask f) (g % word_bits),
          bit-lt-two (word_at bm (f / word_bits)) (g % word_bits),
          bit-not_pow_ne word_bits (f % word_bits) (g % word_bits) (omega arith) (omega arith)
              (other_bit f g d q),
        ))
  | inr e ↦
      rw
        (get_or-set_ne bm (f / word_bits) (g / word_bits)
          (bit_and (word_at bm (f / word_bits)) (2 ^ word_bits - 1 - mask f))
          (not_==→ne (f / word_bits) (g / word_bits) e))
        refl
]

-- Marking a frame as free clears its bit and leaves the bit of every other frame.
pub is_used-set_free :
    (bm : Bitmap) (f : ℕ)
    → f / word_bits < length bm
    → (is_used (set_free bm f) f ≡ false)
      × ((g : ℕ) → f ≢ g → is_used (set_free bm f) g ≡ is_used bm g)
is_used-set_free bm f h = (
  is_used-frame_bit (set_free bm f) f ∙ ap (λ r. r == 1) (frame_bit-set_free_self bm f h),
  λ g d.
      is_used-frame_bit (set_free bm f) g
      ∙ ap (λ r. r == 1) (frame_bit-set_free_ne bm f g h d)
      ∙ sym (is_used-frame_bit bm g),
)
