-- ===== src/Pmm/Valid.antt =====
-- The free count is the number of free frames: an invariant of every operation.
use pureshade_os.Base.{
  ℕ, zero, suc, ◌+◌, ◌-◌, ◌/◌, ◌%◌, ◌^◌, ◌<◌, ◌≡◌, refl, ap, sym, ◌∙◌, Bool, true, false, Option,
  none, some, List, [], ◌∷◌, length, length-set, length-replicate, replicate, min, arith, ◌==◌, leb,
  if◌then◌else◌, subst,
}
use pureshade_os.Pmm.{
  word_bits, all_ones, bitmap_words, max_frames, frame_size, Bitmap, set_used, set_free, is_used,
  count_free, mark_used, mark_free, mark_range_used, mark_range_free, Region, free_usable,
  init_from_limine, Pmm, counted_up, counted_down, free_frame, first_free, take_frame, alloc_frame,
}
use pureshade_os.Pmm.Bitmap.{frame_bit, is_used-frame_bit}
use pureshade_os.Pmm.Free.{freed, free_frame_parts}
use pureshade_os.Pmm.Alloc.{AllWords, FirstZero, Found, first_free-Found}
use pureshade_os.Pmm.Count.{
  count_free-set_used, count_free-set_free, AllWords-set_used, AllWords-set_free, count_free-le,
}

-- The bitmap is one of 64-bit words for all frames, and the count is the number of free frames.
pub record IsValid (p : Pmm) : Type 0 where
  pub words : AllWords p.bitmap
  pub sized : length p.bitmap ≡ bitmap_words
  pub counted : p.free_frames ≡ count_free p.bitmap

pub length-set_used : (bm : Bitmap) (f : ℕ) → length (set_used bm f) ≡ length bm
unfolding set_used
length-set_used bm f = length-set bm (f / word_bits) _

length-set_free : (bm : Bitmap) (f : ℕ) → length (set_free bm f) ≡ length bm
unfolding set_free
length-set_free bm f = length-set bm (f / word_bits) _

pub AllWords-ones : (n : ℕ) → AllWords (replicate n all_ones)
AllWords-ones zero = tt
AllWords-ones (suc n) = (omega arith, AllWords-ones n)

-- The shape of the bitmap: what marking keeps.
abbrev pub Shaped : Bitmap → Type 0
Shaped bm = AllWords bm × (length bm ≡ bitmap_words)

pub set_used-Shaped : (bm : Bitmap) (f : ℕ) → Shaped bm → Shaped (set_used bm f)
set_used-Shaped bm f s = (AllWords-set_used bm f s.0, length-set_used bm f ∙ s.1)

set_free-Shaped : (bm : Bitmap) (f : ℕ) → Shaped bm → Shaped (set_free bm f)
set_free-Shaped bm f s = (AllWords-set_free bm f s.0, length-set_free bm f ∙ s.1)

pub mark_used-Shaped : (i n : ℕ) (bm : Bitmap) → Shaped bm → Shaped (mark_used i n bm)
unfolding mark_used
mark_used-Shaped i zero bm s = s
mark_used-Shaped i (suc n) bm s =
    mark_used-Shaped (i + 1) n (set_used bm i) (set_used-Shaped bm i s)

mark_free-Shaped : (i n : ℕ) (bm : Bitmap) → Shaped bm → Shaped (mark_free i n bm)
unfolding mark_free
mark_free-Shaped i zero bm s = s
mark_free-Shaped i (suc n) bm s =
    mark_free-Shaped (i + 1) n (set_free bm i) (set_free-Shaped bm i s)

if-Shaped : (b : Bool) (x y : Bitmap) → Shaped x → Shaped y → Shaped (if b then x else y)
if-Shaped true x y s t = s
if-Shaped false x y s t = t

mark_range_free-Shaped :
    (start end : ℕ) (bm : Bitmap) → Shaped bm → Shaped (mark_range_free start end bm)
unfolding mark_range_free
mark_range_free-Shaped start end bm s =
    let first = (start + frame_size - 1) % 2 ^ 64 / frame_size in
    let n = min (end / frame_size) max_frames - first in
    if-Shaped (leb end start) bm (mark_free first n bm) s (mark_free-Shaped first n bm s)

mark_range_used-Shaped :
    (start end : ℕ) (bm : Bitmap) → Shaped bm → Shaped (mark_range_used start end bm)
unfolding mark_range_used
mark_range_used-Shaped start end bm s =
    let last = (end + frame_size - 1) % 2 ^ 64 / frame_size in
    let n = min last max_frames - start / frame_size in
    if-Shaped (leb end start) bm (mark_used (start / frame_size) n bm) s
      (mark_used-Shaped (start / frame_size) n bm s)

free_usable-Shaped : (rs : List Region) (bm : Bitmap) → Shaped bm → Shaped (free_usable rs bm)
unfolding free_usable
free_usable-Shaped [] bm s = s
free_usable-Shaped ((base, len, typ) ∷ rs) bm s =
    let freed = mark_range_free base ((base + len) % 2 ^ 64) bm in
    free_usable-Shaped rs (if typ == 0 then freed else bm)
      (if-Shaped (typ == 0) freed bm (mark_range_free-Shaped base ((base + len) % 2 ^ 64) bm s) s)

ones-Shaped : Shaped (replicate bitmap_words all_ones)
ones-Shaped = (AllWords-ones bitmap_words, length-replicate bitmap_words all_ones)

-- After the initialisation the free count is right, whatever the memory map says.
pub init-IsValid : (rs : List Region) (kb ke : ℕ) → IsValid (init_from_limine rs kb ke)
unfolding init_from_limine
init-IsValid rs kb ke =
    let usable = free_usable rs (replicate bitmap_words all_ones) in
    let s = set_used-Shaped (mark_range_used kb ke usable) 0 (
      mark_range_used-Shaped kb ke usable
        (free_usable-Shaped rs (replicate bitmap_words all_ones) ones-Shaped)) in
    record { words = s.0; sized = s.1; counted = refl }

pub set_used-counted :
    (p : Pmm) (f : ℕ)
    → IsValid p
    → f / word_bits < length p.bitmap
    → is_used p.bitmap f ≡ false
    → IsValid (record { bitmap = set_used p.bitmap f; free_frames = counted_down p.free_frames 1 })
set_used-counted p f v l u =
    let s = set_used-Shaped p.bitmap f (v.words, v.sized) in
    let c = count_free-set_used p.bitmap f l u in
    record {
      words = s.0;
      sized = s.1;
      counted = omega (arith, count_free-le p.bitmap, v.sized, v.counted);
    }

set_free-counted :
    (p : Pmm) (f : ℕ)
    → IsValid p
    → f / word_bits < length p.bitmap
    → is_used p.bitmap f ≡ true
    → IsValid (record { bitmap = set_free p.bitmap f; free_frames = counted_up p.free_frames 1 })
set_free-counted p f v l u =
    let s = set_free-Shaped p.bitmap f (v.words, v.sized) in
    let c = count_free-set_free p.bitmap f l u in
    record {
      words = s.0;
      sized = s.1;
      counted = omega (arith, count_free-le p.bitmap, v.sized, v.counted);
    }

take_frame-IsValid :
    (p : Pmm) (o : Option ℕ) → Found p.bitmap 0 o → IsValid p → IsValid (take_frame p o).0
unfolding take_frame Found FirstZero
take_frame-IsValid p none h v = v
take_frame-IsValid p (some f) (g, e, (l, z, below)) v =
    let u : is_used p.bitmap f ≡ false =
      is_used-frame_bit p.bitmap f ∙ ap (λ r. r == 1) (ap (frame_bit p.bitmap) (omega arith) ∙ z) in
    set_used-counted p f v (omega arith) u

-- `alloc_frame` keeps the bitmap in shape and the count right.
pub alloc_frame-IsValid : (p : Pmm) → IsValid p → IsValid (alloc_frame p).0
unfolding alloc_frame
alloc_frame-IsValid p v =
    take_frame-IsValid p (first_free 0 p.bitmap) (first_free-Found p.bitmap 0 v.words) v

-- So does `free_frame`, unless it panics.
pub free_frame-IsValid : (p q : Pmm) (addr : ℕ) → IsValid p → free_frame p addr ≡ some q → IsValid q
unfolding freed
free_frame-IsValid p q addr v e =
    let (l, u, same) = free_frame_parts p q addr e in
    subst IsValid (sym same) (set_free-counted p (addr / frame_size) v (omega (arith, v.sized)) u)
