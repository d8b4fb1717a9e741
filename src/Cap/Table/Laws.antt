-- ===== src/Cap/Table/Laws.antt =====
-- What a capability handle names before and after each operation of the table.
use native.Mathlib.Decide.{ℕ_discrete}
use pureshade_os.Base.{
  ℕ, ◌<◌, ◌≡◌, refl, sym, ◌≢◌, ◌++◌, ◌∷◌, [], some, none, Option, inl, inr, arith, length,
  get_elem?, set, get_elem?-set_self, get_elem?-set_ne,
}
use pureshade_os.Base.Result.{Result-cases, ok, err}
use pureshade_os.Cap.Types.{Capability, CapError, CapHandle, index, generation, u32_mod, handle_ext}
use pureshade_os.Cap.Slots.{Slot, filled, live, read_slot, place, vacate}
use pureshade_os.Cap.Slots.Place.{
  live-place_self, live-place_other, live-place_fresh, live_in_range,
}
use pureshade_os.Cap.Slots.Laws.{
  live-place-vacate, live-set_self, live-vacate_same, get_elem?-vacate-live, get_elem?-vacate_ne,
}
use pureshade_os.Cap.Table.{CapabilityTable, insert, get, get_slot, push_child, take}

pub insert-place : (t : CapabilityTable) (c : Capability) → insert t c ≡ place t c
unfolding insert place
insert-place t c = refl

get_slot_live :
    (s : Option (Slot Capability)) (g : ℕ) (c : Capability)
    → get_slot s g ≡ ok c
    → read_slot s g ≡ some c
unfolding get_slot
get_slot_live none g c e = cc
get_slot_live (some s) g c e = ground arith

live_get_slot :
    (s : Option (Slot Capability)) (g : ℕ) (c : Capability)
    → read_slot s g ≡ some c
    → get_slot s g ≡ ok c
unfolding get_slot
live_get_slot none g c e = cc
live_get_slot (some s) g c e = ground arith

pub get→live : (t : CapabilityTable) (h : ℕ) (c : Capability) → get t h ≡ ok c → live t h ≡ some c
unfolding get live
get→live t h c e = get_slot_live (get_elem? t (index h)) (generation h) c e

pub live→get : (t : CapabilityTable) (h : ℕ) (c : Capability) → live t h ≡ some c → get t h ≡ ok c
unfolding get live
live→get t h c e = live_get_slot (get_elem? t (index h)) (generation h) c e

-- The handle resolves to an error.
abbrev pub IsDead : CapabilityTable → CapHandle → Type 0
IsDead t h = (e : CapError) × (get t h ≡ err e)

some_of_none : (o : Option Capability) (c : Capability) → o ≡ none → o ≡ some c → ⊥
some_of_none o c p q = cc

pub IsDead-of_not_live : (t : CapabilityTable) (h : ℕ) → live t h ≡ none → IsDead t h
IsDead-of_not_live t h n = elim (Result-cases (get t h)) [
  | inl (c, e) ↦ absurd (some_of_none (live t h) c n (get→live t h c e))
  | inr d ↦ d
]

-- An inserted capability is found under the handle returned, which was dead before; every
-- capability that was there is found as before.
pub get-insert :
    (t : CapabilityTable) (c : Capability)
    → length t < u32_mod
    → (get (insert t c).0 (insert t c).1 ≡ ok c)
      × IsDead t (insert t c).1
      × ((k : CapHandle) (d : Capability) → get t k ≡ ok d → get (insert t c).0 k ≡ ok d)
get-insert t c fits = rw (insert-place t c) (
  live→get _ _ c (live-place_self t c fits),
  IsDead-of_not_live t (place t c).1 (live-place_fresh t c fits),
  λ k d e. live→get _ k d (live-place_other t c k d (get→live t k d e)),
)

pub take_ok :
    (t : CapabilityTable) (h : CapHandle) (c : Capability)
    → get t h ≡ ok c
    → take t h ≡ (vacate t (index h), ok c)
unfolding take
take_ok t h c e = rw (e, take) refl

vacant_get :
    (s : Option (Slot Capability)) (g k : ℕ) (c : Capability)
    → get_slot s g ≡ ok c
    → g ≢ k
    → get_slot s k ≡ get_slot (some (record { generation_of = g; content = none })) k
unfolding get_slot
vacant_get none g k c e d = cc
vacant_get (some s) g k c e d = ground arith

get-vacate_ne :
    (t : CapabilityTable) (h k : CapHandle) (c : Capability)
    → get t h ≡ ok c
    → k ≢ h
    → get (vacate t (index h)) k ≡ get t k
unfolding get
get-vacate_ne t h k c e d = elim (ℕ_discrete (index h) (index k)) [
  | yes p ↦
      rw (← p, get_elem?-vacate-live t h c (get→live t h c e))
        (sym (
          vacant_get (get_elem? t (index h)) (generation h) (generation k) c e
            (λ g. d (handle_ext k h (sym p) (sym g)))))
  | no p ↦ rw (get_elem?-vacate_ne t (index h) (index k) p) refl
]

-- `take` of a live handle returns its capability and kills that handle alone: every other handle
-- answers as before, error or not.
pub get-take :
    (t : CapabilityTable) (h : CapHandle) (c : Capability)
    → get t h ≡ ok c
    → ((take t h).1 ≡ ok c)
      × IsDead (take t h).0 h
      × ((k : CapHandle) → k ≢ h → get (take t h).0 k ≡ get t k)
get-take t h c e = rw (take_ok t h c e) (
  refl,
  IsDead-of_not_live (vacate t (index h)) h (live-vacate_same t h h refl),
  λ k d. get-vacate_ne t h k c e d,
)

-- A live handle whose generation is one of 32 bits, once taken, stays dead also after the next
-- insertion into the table, which may fill its slot.
pub get-insert-take :
    (t : CapabilityTable) (h : CapHandle) (c d : Capability)
    → generation h < u32_mod
    → get t h ≡ ok c
    → IsDead (insert (take t h).0 d).0 h
get-insert-take t h c d w e =
    rw (take_ok t h c e, insert-place (vacate t (index h)) d)
      (IsDead-of_not_live _ h (live-place-vacate t h c d w (get→live t h c e)))

refilled_get :
    (s : Option (Slot Capability)) (g k : ℕ) (c d : Capability)
    → get_slot s g ≡ ok c
    → g ≢ k
    → get_slot s k ≡ get_slot (some (filled g d)) k
unfolding get_slot
refilled_get none g k c d e n = cc
refilled_get (some s) g k c d e n = ground arith

-- The capability at a live handle is replaced, its generation kept.
abbrev refill : CapabilityTable → CapHandle → Capability → CapabilityTable
refill t h d = set t (index h) (filled (generation h) d)

get-refill_self :
    (t : CapabilityTable) (h : CapHandle) (c d : Capability)
    → get t h ≡ ok c
    → get (refill t h d) h ≡ ok d
get-refill_self t h c d e = live→get (refill t h d) h d (live-set_self t h c d (get→live t h c e))

get-refill_ne :
    (t : CapabilityTable) (h k : CapHandle) (c d : Capability)
    → get t h ≡ ok c
    → k ≢ h
    → get (refill t h d) k ≡ get t k
unfolding get
get-refill_ne t h k c d e n = elim (ℕ_discrete (index h) (index k)) [
  | yes p ↦
      rw
        (
          ← p,
          get_elem?-set_self t (index h) (filled (generation h) d)
              (live_in_range t h c (get→live t h c e)),
        )
        (sym (
          refilled_get (get_elem? t (index h)) (generation h) (generation k) c d e
            (λ g. n (handle_ext k h (sym p) (sym g)))))
  | no p ↦ rw (get_elem?-set_ne t (filled (generation h) d) p) refl
]

-- Recording a child changes the capability's list of children and nothing else.
pub get-push_child :
    (t : CapabilityTable) (h : CapHandle) (c : Capability) (child : ℕ × CapHandle)
    → get t h ≡ ok c
    → (u : CapabilityTable) × (push_child t h child ≡ ok u)
      × (get u h ≡ ok (record c { children = c.children ++ child ∷ [] }))
      × ((k : CapHandle) → k ≢ h → get u k ≡ get t k)
unfolding push_child
get-push_child t h c child e = (
  refill t h d,
  rw (e, push_child) refl,
  get-refill_self t h c d e,
  λ k n. get-refill_ne t h k c d e n,
)
  where
    d : Capability
    d = record c { children = c.children ++ child ∷ [] }
