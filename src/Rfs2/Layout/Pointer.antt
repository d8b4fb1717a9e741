-- ===== src/Rfs2/Layout/Pointer.antt =====
-- A block pointer survives the disk.
use pureshade_os.Base.{◌≡◌, refl, replicate, length}
use pureshade_os.Base.Writes.{well_sized→Sized, span-found, of_le-found, length-written}
use pureshade_os.Rfs2.Layout.{BlockPtr, ptr_writes, to_bytes, from_bytes, block_ptr_size}
use pureshade_os.Rfs2.Layout.Valid.{PtrFits}

pub length-to_bytes : (p : BlockPtr) → length (to_bytes p) ≡ block_ptr_size
unfolding to_bytes
length-to_bytes p = length-written (ptr_writes p) (replicate block_ptr_size 0)

-- A pointer whose fields fit reads back from its 32 bytes.
pub from_bytes-to_bytes : (p : BlockPtr) → PtrFits p → from_bytes (to_bytes p) ≡ p
unfolding to_bytes from_bytes
from_bytes-to_bytes p v =
    let s = well_sized→Sized 32 (ptr_writes p) (rw (v.tag) refl) in
    let b = of_le-found (ptr_writes p) (replicate 32 0) 0 8 p.block s refl v.block in
    let g = of_le-found (ptr_writes p) (replicate 32 0) 8 8 p.gen s refl v.gen in
    let t = span-found (ptr_writes p) (replicate 32 0) 16 16 p.tag s refl in rw (b, g, t) refl
