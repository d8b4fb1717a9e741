-- ===== src/Pmm/Tests.antt =====
-- A memory of which every frame is used, and the allocator's theorems at it.
use pureshade_os.Base.{
  ℕ, ◌+◌, ◌-◌, ◌^◌, ◌≡◌, refl, some, arith, replicate, length, length-replicate,
}
use pureshade_os.Pmm.{Bitmap, bitmap_words, Pmm}
use pureshade_os.Base.{zero, suc, Option, [], ◌∷◌, ap, sym}
use pureshade_os.Pmm.{
  count_free, count_zeros, alloc_frame, trailing_ones, alloc_frames_contiguous, max_frames,
  init_from_limine,
}
use pureshade_os.Pmm.Alloc.{AllocOutcome, alloc_frame_lem}
use pureshade_os.Pmm.Valid.{IsValid, AllWords-ones}
use pureshade_os.Pmm.Contiguous.{RunOutcome, alloc_frames_contiguous_lem}
use pureshade_os.Pmm.Reach.{Reach, Step, Reach-IsValid}

abbrev full : Bitmap
full = replicate bitmap_words (2 ^ 64 - 1)

abbrev exhausted : Pmm
exhausted = record { bitmap = full; free_frames = 0 }

full-length : length full ≡ bitmap_words
full-length = length-replicate bitmap_words (2 ^ 64 - 1)

-- Two frames free in the first word: 2 and 3.
abbrev two_free : Bitmap
two_free = (2 ^ 64 - 1 - 12) ∷ replicate (bitmap_words - 1) (2 ^ 64 - 1)

two_free-length : length two_free ≡ bitmap_words
two_free-length = omega (arith, length-replicate (bitmap_words - 1) (2 ^ 64 - 1))

abbrev almost_full : Pmm
almost_full = record { bitmap = two_free; free_frames = 2 }

count_free-ones : (n : ℕ) → count_free (replicate n (2 ^ 64 - 1)) ≡ 0
unfolding count_free count_zeros
count_free-ones zero = refl
count_free-ones (suc n) = ap (λ r. 0 + r) (count_free-ones n)

almost_full-IsValid : IsValid almost_full
unfolding count_zeros count_free
almost_full-IsValid = record {
  words = (omega arith, AllWords-ones (bitmap_words - 1));
  sized = two_free-length;
  counted = ap (λ r. 2 + r) (sym (count_free-ones (bitmap_words - 1)));
}

alloc_frame_lem_example : AllocOutcome almost_full (alloc_frame almost_full)
alloc_frame_lem_example = alloc_frame_lem almost_full almost_full-IsValid.words

-- Frame 2 is answered.
alloc_two : (alloc_frame almost_full).1 ≡ some 8192
unfolding alloc_frame trailing_ones
alloc_two = refl

alloc_frames_contiguous_lem_example :
    (r : Pmm × Option ℕ) × (alloc_frames_contiguous (max_frames + 1) almost_full 2 ≡ some r)
    × RunOutcome almost_full 2 r
    × IsValid r.0
alloc_frames_contiguous_lem_example =
    alloc_frames_contiguous_lem (max_frames + 1) 2 almost_full (omega arith) (omega arith)
      almost_full-IsValid

Reach-IsValid_example : IsValid (alloc_frame (init_from_limine ((0, 16384, 0) ∷ []) 0 4096)).0
Reach-IsValid_example =
    Reach-IsValid ((0, 16384, 0) ∷ []) 0 4096
      (alloc_frame (init_from_limine ((0, 16384, 0) ∷ []) 0 4096)).0
      (Reach.next Reach.here (Step.alloc (init_from_limine ((0, 16384, 0) ∷ []) 0 4096)))
