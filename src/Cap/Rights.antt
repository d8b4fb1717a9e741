-- ===== src/Cap/Rights.antt =====
-- `CapRights` of kernel/src/cap.rs: a byte of rights, with inclusion and intersection.
use Prim.Native.Nat.{bit_and}
use pureshade_os.Base.{ℕ, ◌≡◌, ap, Bool, true, arith, ◌==◌, ==_iff, ◌↔◌, ◌^◌}
use pureshade_os.Base.Bits.{bit, bit-bit_and, bit_ext}

abbrev pub CapRights : Type 0
CapRights = ℕ

abbrev pub read : CapRights
read = 2 ^ 0

abbrev pub write : CapRights
write = 2 ^ 1

abbrev pub grant : CapRights
grant = 2 ^ 2

abbrev pub revoke : CapRights
revoke = 2 ^ 3

abbrev pub all : CapRights
all = 0x0f

abbrev pub none_of : CapRights
none_of = 0

unfoldable pub has : CapRights → CapRights → Bool
has self other = bit_and self other == other

unfoldable pub intersect : CapRights → CapRights → CapRights
intersect self mask = bit_and self mask

has_iff : (r s : CapRights) → (has r s ≡ true) ↔ (bit_and r s ≡ s)
unfolding has
has_iff r s = ==_iff (bit_and r s) s

-- The rights that survive a mask are rights of the original.
pub has-intersect : (r mask : CapRights) → has r (intersect r mask) ≡ true
unfolding intersect
has-intersect r mask =
    (has_iff r (bit_and r mask)).1
      (bit_ext _ _ λ k. omega (arith, bit-bit_and r (bit_and r mask) k, bit-bit_and r mask k))

-- and rights of the mask.
pub has-intersect_mask : (r mask : CapRights) → has mask (intersect r mask) ≡ true
unfolding intersect
has-intersect_mask r mask =
    (has_iff mask (bit_and r mask)).1
      (bit_ext _ _ λ k. omega (arith, bit-bit_and mask (bit_and r mask) k, bit-bit_and r mask k))

pub has_refl : (r : CapRights) → has r r ≡ true
has_refl r = (has_iff r r).1 (bit_ext _ _ λ k. omega (arith, bit-bit_and r r k))

pub has_trans : (r s t : CapRights) → has r s ≡ true → has s t ≡ true → has r t ≡ true
has_trans r s t p q = (has_iff r t).1 (bit_ext _ _ λ k. step k)
  where
    step : (k : ℕ) → bit (bit_and r t) k ≡ bit t k
    step k = omega (
      arith,
      bit-bit_and r t k,
      bit-bit_and r s k,
      bit-bit_and s t k,
      ap (λ (w : ℕ). bit w k) ((has_iff r s).0 p),
      ap (λ (w : ℕ). bit w k) ((has_iff s t).0 q),
    )
