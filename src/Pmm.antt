-- ===== src/Pmm.antt =====
-- The physical frame allocator of kernel/src/pmm.rs: one bit per frame in 64-bit words, 1 for used.
pub mod Bitmap
pub mod Free
pub mod Alloc
pub mod Count
pub mod Valid
pub mod Runs
pub mod Contiguous
pub mod Reach
mod Tests
use pureshade_os.Base.{
  ℕ, zero, suc, ◌+◌, ◌-◌, ◌/◌, ◌%◌, ◌*◌, ◌^◌, Bool, true, false, Option, none, some, List, [], ◌∷◌,
  set, get_or, replicate, min, ltb, leb, ◌==◌, ◌&&◌, not, if◌then◌else◌,
}
use Prim.Native.Nat.{bit_and, bit_or}

abbrev pub word_bits : ℕ
word_bits = 64

abbrev pub Bitmap : Type 0
Bitmap = List ℕ

abbrev pub word_at : Bitmap → ℕ → ℕ
word_at bm i = get_or bm i 0

-- `1u64 << (frame % 64)`.
abbrev pub mask : ℕ → ℕ
mask frame = 2 ^ (frame % word_bits)

unfoldable pub set_used : Bitmap → ℕ → Bitmap
set_used bm frame =
    set bm (frame / word_bits) (bit_or (word_at bm (frame / word_bits)) (mask frame))

-- `!mask` in 64 bits.
unfoldable pub set_free : Bitmap → ℕ → Bitmap
set_free bm frame =
    set bm (frame / word_bits)
      (bit_and (word_at bm (frame / word_bits)) (2 ^ word_bits - 1 - mask frame))

unfoldable pub is_used : Bitmap → ℕ → Bool
is_used bm frame = not (bit_and (word_at bm (frame / word_bits)) (mask frame) == 0)

abbrev pub frame_size : ℕ
frame_size = 4096

abbrev pub max_frames : ℕ
max_frames = 4 * 1024 * 1024 * 1024 / frame_size

abbrev pub bitmap_words : ℕ
bitmap_words = max_frames / word_bits

-- The two statics.
pub record Pmm : Type 0 where
  pub bitmap : Bitmap
  pub free_frames : ℕ

-- The counter is an atomic `usize`: it goes up and down with wrap-around.
abbrev pub counted_up : ℕ → ℕ → ℕ
counted_up count n = (count + n) % 2 ^ 64

abbrev pub counted_down : ℕ → ℕ → ℕ
counted_down count n = (count + 2 ^ 64 - n) % 2 ^ 64

-- `none` is a panic: not aligned, out of range, or a frame that is free already.
unfoldable pub free_frame : Pmm → ℕ → Option Pmm
free_frame p addr =
    let frame = addr / frame_size in
    if addr % frame_size == 0 && ltb frame max_frames && is_used p.bitmap frame
    then some
        (record { bitmap = set_free p.bitmap frame; free_frames = counted_up p.free_frames 1 })
    else none

-- The loops over `first..last`, over the number of frames left.
unfoldable pub mark_used : ℕ → ℕ → Bitmap → Bitmap
mark_used i zero bm = bm
mark_used i (suc n) bm = mark_used (i + 1) n (set_used bm i)

unfoldable pub mark_free : ℕ → ℕ → Bitmap → Bitmap
mark_free i zero bm = bm
mark_free i (suc n) bm = mark_free (i + 1) n (set_free bm i)

-- `start` is rounded up and `end` down; sums of `u64` wrap.
unfoldable pub mark_range_free : ℕ → ℕ → Bitmap → Bitmap
unfolding mark_free
mark_range_free start end bm =
    let first = (start + frame_size - 1) % 2 ^ 64 / frame_size in
    let last = end / frame_size in
    if leb end start then bm else mark_free first (min last max_frames - first) bm

-- `start` is rounded down and `end` up.
unfoldable pub mark_range_used : ℕ → ℕ → Bitmap → Bitmap
unfolding mark_used
mark_range_used start end bm =
    let first = start / frame_size in
    let last = (end + frame_size - 1) % 2 ^ 64 / frame_size in
    if leb end start then bm else mark_used first (min last max_frames - first) bm

abbrev pub all_ones : ℕ
all_ones = 2 ^ word_bits - 1

-- `count_zeros` of a word of that many bits.
unfoldable pub count_zeros : ℕ → ℕ → ℕ
count_zeros zero w = 0
count_zeros (suc n) w = 1 - w % 2 + count_zeros n (w / 2)

unfoldable pub count_free : Bitmap → ℕ
count_free [] = 0
count_free (w ∷ ws) = count_zeros word_bits w + count_free ws

-- One entry of the memory map: base, length, type; type 0 is usable memory.
abbrev pub Region : Type 0
Region = ℕ × ℕ × ℕ

unfoldable pub free_usable : List Region → Bitmap → Bitmap
unfolding mark_range_free
free_usable [] bm = bm
free_usable ((base, len, typ) ∷ rs) bm =
    free_usable rs (if typ == 0 then mark_range_free base ((base + len) % 2 ^ 64) bm else bm)

unfoldable pub init_from_limine : List Region → ℕ → ℕ → Pmm
unfolding free_usable mark_range_used count_free
init_from_limine entries kernel_base kernel_end =
    let usable = free_usable entries (replicate bitmap_words all_ones) in
    let bm = set_used (mark_range_used kernel_base kernel_end usable) 0 in
    record { bitmap = bm; free_frames = count_free bm }

-- `trailing_ones` of a word of that many bits.
unfoldable pub trailing_ones : ℕ → ℕ → ℕ
trailing_ones zero w = 0
trailing_ones (suc n) w = let more = trailing_ones n (w / 2) in if w % 2 == 1 then suc more else 0

-- The loop of `alloc_frame` over the words, from word `wi` on: the frame that it takes.
unfoldable pub first_free : ℕ → Bitmap → Option ℕ
unfolding trailing_ones
first_free wi [] = none
first_free wi (w ∷ ws) =
    let rest = first_free (wi + 1) ws in
    if w == all_ones then rest else some (wi * word_bits + trailing_ones word_bits w)

take_frame : Pmm → Option ℕ → Pmm × Option ℕ
take_frame p none = (p, none)
take_frame p (some frame) = (
  record { bitmap = set_used p.bitmap frame; free_frames = counted_down p.free_frames 1 },
  some (frame * frame_size),
)

-- The word is changed as `set_used` changes it.
unfoldable pub alloc_frame : Pmm → Pmm × Option ℕ
unfolding take_frame first_free
alloc_frame p = take_frame p (first_free 0 p.bitmap)

-- The inner loop of `alloc_frames_contiguous`, from `i` on with `n` frames left to look at: where
-- the first used frame stands.
unfoldable pub first_used : Bitmap → ℕ → ℕ → Option ℕ
first_used bm i zero = none
first_used bm i (suc n) =
    let rest = first_used bm (i + 1) n in if is_used bm i then some i else rest

-- The outer loop on fuel; the outer `none` is fuel that ran out.
unfoldable pub scan : ℕ → Bitmap → ℕ → ℕ → Option (Option ℕ)
unfolding first_used
scan zero bm n start = none
scan (suc fuel) bm n start = elim (leb (start + n) max_frames) [
  | false ↦ some none
  | true ↦ elim (first_used bm start n) [
    | none ↦ some (some start)
    | some i ↦ scan fuel bm n (i + 1)
  ]
]

take_run : Pmm → ℕ → Option ℕ → Pmm × Option ℕ
take_run p n none = (p, none)
take_run p n (some start) = (
  record { bitmap = mark_used start n p.bitmap; free_frames = counted_down p.free_frames n },
  some (start * frame_size),
)

unfoldable pub alloc_frames_contiguous : ℕ → Pmm → ℕ → Option (Pmm × Option ℕ)
unfolding take_run scan mark_used
alloc_frames_contiguous fuel p zero = some (p, none)
alloc_frames_contiguous fuel p (suc n) = elim (scan fuel p.bitmap (suc n) 0) [
  | none ↦ none
  | some r ↦ some (take_run p (suc n) r)
]

-- `none` is the panic of `free_frame`.
unfoldable pub free_frames_contiguous : Pmm → ℕ → ℕ → Option Pmm
unfolding free_frame
free_frames_contiguous p addr zero = some p
free_frames_contiguous p addr (suc n) = elim (free_frame p addr) [
  | none ↦ none
  | some q ↦ free_frames_contiguous q (addr + frame_size) n
]
