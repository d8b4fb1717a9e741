-- ===== src/Rfs2/Space.antt =====
-- fs/rfs2/src/space.rs: the bitmap of live blocks, in words of 64 bits.
use Prim.Native.Nat.{bit_and, bit_or}
use pureshade_os.Base.{
  ℕ, zero, suc, ◌+◌, ◌-◌, ◌*◌, ◌/◌, ◌%◌, ◌^◌, Bool, not, List, [], ◌∷◌, replicate, get_or, set,
  ◌==◌, if◌then◌else◌,
}
pub mod Laws
pub mod Count

pub record Bitmap : Type 0 where
  pub words : List ℕ
  pub nbits : ℕ

unfoldable pub new_bitmap : ℕ → Bitmap
new_bitmap nbits = record { words = replicate ((nbits + 63) / 64) 0; nbits = nbits }

-- The sources index the words, and panic beyond them; here a word beyond them reads as 0.
abbrev pub word_of : Bitmap → ℕ → ℕ
word_of bm i = get_or bm.words (i / 64) 0

abbrev pub bit_mask : ℕ → ℕ
bit_mask i = 2 ^ (i % 64)

unfoldable pub get : Bitmap → ℕ → Bool
get bm i = not (bit_and (word_of bm i) (bit_mask i) == 0)

-- The bitmap with bit `i` set, and what the bit was.
unfoldable pub set_bit : Bitmap → ℕ → Bitmap × Bool
set_bit bm i = (
  record bm { words = set bm.words (i / 64) (bit_or (word_of bm i) (bit_mask i)) },
  not (bit_and (word_of bm i) (bit_mask i) == 0),
)

unfoldable pub clear : Bitmap → ℕ → Bitmap
clear bm i = record bm {
  words = set bm.words (i / 64) (bit_and (word_of bm i) (2 ^ 64 - 1 - bit_mask i));
}

-- `count_ones` of a word of that many bits.
abbrev pub count_ones : ℕ → ℕ → ℕ
count_ones zero w = 0
count_ones (suc n) w = w % 2 + count_ones n (w / 2)

abbrev pub count_words : List ℕ → ℕ
count_words [] = 0
count_words (w ∷ ws) = count_ones 64 w + count_words ws

unfoldable pub count : Bitmap → ℕ
count bm = count_words bm.words

-- The loop over `0..nbits`, from `i` on with `n` bits left.
abbrev pub indices_from : Bitmap → ℕ → ℕ → List ℕ
indices_from bm i zero = []
indices_from bm i (suc n) =
    let rest = indices_from bm (i + 1) n in if get bm i then i ∷ rest else rest

unfoldable pub indices : Bitmap → List ℕ
indices bm = indices_from bm 0 bm.nbits
