-- ===== src/Pmm/Free.antt =====
-- Freeing a frame, once.
use pureshade_os.Base.{
  ℕ, ◌/◌, ◌%◌, ◌<◌, ◌≡◌, refl, ◌≢◌, true, false, none, some, length, arith, lt→ltb, ==_iff,
}
use pureshade_os.Pmm.{
  is_used, set_free, frame_size, max_frames, bitmap_words, Pmm, counted_up, free_frame,
}
use pureshade_os.Pmm.Bitmap.{is_used-set_free}

unfoldable pub freed : Pmm → ℕ → Pmm
freed p frame = record {
  bitmap = set_free p.bitmap frame;
  free_frames = counted_up p.free_frames 1;
}

free_frame-freed :
    (p : Pmm) (addr : ℕ)
    → addr % frame_size ≡ 0
    → addr / frame_size < max_frames
    → is_used p.bitmap (addr / frame_size) ≡ true
    → free_frame p addr ≡ some (freed p (addr / frame_size))
unfolding free_frame freed
free_frame-freed p addr a b u =
    rw ((==_iff (addr % frame_size) 0).1 a, lt→ltb (addr / frame_size) max_frames b, u) refl

free_frame-unused :
    (p : Pmm) (addr : ℕ) → is_used p.bitmap (addr / frame_size) ≡ false → free_frame p addr ≡ none
unfolding free_frame
free_frame-unused p addr u = ground arith

-- Freeing a used frame at an aligned address in range succeeds: the frame is free, every other
-- frame is as it was, the count goes up by one, and to free it a second time panics.
pub free_frame_once :
    (p : Pmm) (addr : ℕ)
    → length p.bitmap ≡ bitmap_words
    → addr % frame_size ≡ 0
    → addr / frame_size < max_frames
    → is_used p.bitmap (addr / frame_size) ≡ true
    → (q : Pmm) × (free_frame p addr ≡ some q)
      × (is_used q.bitmap (addr / frame_size) ≡ false)
      × ((g : ℕ) → addr / frame_size ≢ g → is_used q.bitmap g ≡ is_used p.bitmap g)
      × (q.free_frames ≡ counted_up p.free_frames 1)
      × (free_frame q addr ≡ none)
unfolding freed
free_frame_once p addr n a b u =
    let s = is_used-set_free p.bitmap (addr / frame_size) (omega arith) in
    (
      freed p (addr / frame_size),
      free_frame-freed p addr a b u,
      s.0,
      s.1,
      refl,
      free_frame-unused (freed p (addr / frame_size)) addr s.0,
    )

-- What a successful call has tested, and what it has done.
pub free_frame_parts :
    (p q : Pmm) (addr : ℕ)
    → free_frame p addr ≡ some q
    → (addr / frame_size < max_frames)
      × (is_used p.bitmap (addr / frame_size) ≡ true)
      × (q ≡ freed p (addr / frame_size))
unfolding free_frame freed
free_frame_parts p q addr e = ground arith
