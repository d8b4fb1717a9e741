-- ===== src/Base/Little.antt =====
-- Little-endian numbers of a fixed number of bytes.
use native.Mathlib.Nat.{pow-suc}
use pureshade_os.Base.{
  ℕ, zero, suc, ◌+◌, ◌*◌, ◌/◌, ◌%◌, ◌^◌, ◌<◌, ◌≡◌, refl, ap, List, [], ◌∷◌, arith, length,
}

-- `v.to_le_bytes()` of a number of `n` bytes.
abbrev pub le : ℕ → ℕ → List ℕ
le zero v = []
le (suc n) v = (v % 256) ∷ le n (v / 256)

-- `from_le_bytes`.
unfoldable pub of_le : List ℕ → ℕ
of_le [] = 0
of_le (b ∷ bs) = b + 256 * of_le bs

pub length-le_bytes : (n v : ℕ) → length (le n v) ≡ n
length-le_bytes zero v = refl
length-le_bytes (suc n) v = ap suc (length-le_bytes n (v / 256))

pub of_le-le_bytes : (n v : ℕ) → v < 256 ^ n → of_le (le n v) ≡ v
unfolding of_le
of_le-le_bytes zero v h = omega arith
of_le-le_bytes (suc n) v h =
    let rest : v / 256 < 256 ^ n = omega (arith, pow-suc 256 n) in
    omega (arith, of_le-le_bytes n (v / 256) rest)
