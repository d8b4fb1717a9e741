-- ===== src/Cap/Objects.antt =====
-- The global kernel object table of kernel/src/cap.rs (`KoTable`). One static table in the source;
-- here each operation takes it and returns it.
pub mod Laws
use pureshade_os.Base.{
  ℕ, Option, none, some, List, [], ◌++◌, ◌∷◌, length, get_elem?, set, ltb, ◌-◌, ◌==◌, if◌then◌else◌,
}
use pureshade_os.Base.Result.{Result, ok, err}
use pureshade_os.Cap.Types.{
  KernelObject, KernelObjectRef, CapError, invalid_handle, generation_mismatch, no_memory, pack,
  index, generation, u32_mod,
}
use pureshade_os.Cap.Slots.{Slot, first_vacant, filled, next_generation, live, vacate}

abbrev pub KoTable : Type 0
KoTable = List (Slot KernelObject)

unfoldable pub create : KoTable → KernelObject → KoTable × Result CapError KernelObjectRef
create t obj = elim (first_vacant t 0) [
  | some (i, g) ↦ (set t i (filled (next_generation g) obj), ok (pack i (next_generation g)))
  | none ↦
      if ltb (u32_mod - 1) (length t)
      then (t, err no_memory)
      else (t ++ filled 0 obj ∷ [], ok (pack (length t) 0))
]

unfoldable pub get : KoTable → KernelObjectRef → Option KernelObject
unfolding live
get t r = live t r

-- `destroy` answers `Ok` at a slot that is vacant already, if the generation fits.
destroy_slot :
    KoTable → KernelObjectRef → Option (Slot KernelObject) → KoTable × Result CapError (Unit {0})
destroy_slot t r none = (t, err invalid_handle)
destroy_slot t r (some s) =
    if s.generation_of == generation r
    then (vacate t (index r), ok tt)
    else (t, err generation_mismatch)

unfoldable pub destroy : KoTable → KernelObjectRef → KoTable × Result CapError (Unit {0})
unfolding destroy_slot
destroy t r = destroy_slot t r (get_elem? t (index r))
