-- ===== src/Cap/Objects/Laws.antt =====
-- References into the kernel object table: fresh on creation, dead for good once destroyed.
use pureshade_os.Base.{ℕ, ◌≤◌, ◌<◌, ◌≡◌, refl, some, none, Option, arith, length, get_elem?}
use pureshade_os.Base.Result.{ok, err}
use pureshade_os.Cap.Types.{KernelObject, no_memory, index, generation, u32_mod}
use pureshade_os.Cap.Slots.{Slot, read_slot, first_vacant, place, vacate}
use pureshade_os.Cap.Slots.Place.{
  live-place_self, live-place_other, live-place_fresh, length-vacate,
}
use pureshade_os.Cap.Slots.Laws.{live-place-vacate, live-vacate_same}
use pureshade_os.Cap.Objects.{KoTable, create, get, destroy, destroy_slot}

-- Below the limit of 2^32 slots `create` never fails, and it is the shared placement.
pub create-place :
    (t : KoTable) (o : KernelObject)
    → length t < u32_mod
    → create t o ≡ ((place t o).0, ok (place t o).1)
unfolding create place
create-place t o fits = ground arith

-- A created object is found under the reference returned, which named nothing before; every
-- object that was there is found as before.
pub get-create :
    (t : KoTable) (o : KernelObject)
    → length t < u32_mod
    → (r : ℕ) × ((create t o).1 ≡ ok r)
      × (get (create t o).0 r ≡ some o)
      × (get t r ≡ none)
      × ((k : ℕ) (p : KernelObject) → get t k ≡ some p → get (create t o).0 k ≡ some p)
unfolding get
get-create t o fits = rw (create-place t o fits) (
  (place t o).1,
  refl,
  live-place_self t o fits,
  live-place_fresh t o fits,
  λ k p l. live-place_other t o k p l,
)

-- `create` fails only when all 2^32 slots are taken, and then changes nothing.
pub create_full :
    (t : KoTable) (o : KernelObject)
    → first_vacant t 0 ≡ none
    → u32_mod ≤ length t
    → create t o ≡ (t, err no_memory)
unfolding create
create_full t o e h = ground (arith, e)

destroy_slot_live :
    (t : KoTable) (r : ℕ) (s : Option (Slot KernelObject)) (o : KernelObject)
    → read_slot s (generation r) ≡ some o
    → destroy_slot t r s ≡ (vacate t (index r), ok tt)
unfolding destroy_slot
destroy_slot_live t r none o l = cc
destroy_slot_live t r (some s) o l = ground arith

destroy_live :
    (t : KoTable) (r : ℕ) (o : KernelObject)
    → get t r ≡ some o
    → destroy t r ≡ (vacate t (index r), ok tt)
unfolding destroy get
destroy_live t r o l = destroy_slot_live t r (get_elem? t (index r)) o l

-- `destroy` of an object that is found succeeds; the reference resolves to nothing then, also after
-- the next object took its slot.
pub destroy-get :
    (t : KoTable) (r : ℕ) (o p : KernelObject)
    → generation r < u32_mod
    → length t < u32_mod
    → get t r ≡ some o
    → ((destroy t r).1 ≡ ok tt)
      × (get (destroy t r).0 r ≡ none)
      × (get (create (destroy t r).0 p).0 r ≡ none)
unfolding get
destroy-get t r o p w fits l = rw (destroy_live t r o l) (
  refl,
  live-vacate_same t r r refl,
  rw (create-place (vacate t (index r)) p (omega (arith, length-vacate t (index r))))
      (live-place-vacate t r o p w l),
)
