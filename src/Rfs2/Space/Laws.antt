-- ===== src/Rfs2/Space/Laws.antt =====
-- Setting or clearing a bit touches that bit only.
use pureshade_os.Base.{ℕ, ◌/◌, ◌<◌, ◌≡◌, ◌≢◌, true, false, length}
use pureshade_os.Pmm.{is_used, set_used, set_free}
use pureshade_os.Pmm.Bitmap.{is_used-set_used, is_used-set_free}
use pureshade_os.Rfs2.Space.{Bitmap, get, set_bit, clear}

pub get-set_bit :
    (bm : Bitmap) (i : ℕ)
    → i / 64 < length bm.words
    → (get (set_bit bm i).0 i ≡ true) × ((j : ℕ) → i ≢ j → get (set_bit bm i).0 j ≡ get bm j)
unfolding get set_bit is_used set_used
get-set_bit bm i h = is_used-set_used bm.words i h

pub get-clear :
    (bm : Bitmap) (i : ℕ)
    → i / 64 < length bm.words
    → (get (clear bm i) i ≡ false) × ((j : ℕ) → i ≢ j → get (clear bm i) j ≡ get bm j)
unfolding get clear is_used set_free
get-clear bm i h = is_used-set_free bm.words i h
