-- ===== src/Cap/Table.antt =====
-- `CapabilityTable` of kernel/src/cap.rs: one per task, from handles to capabilities.
pub mod Laws
use pureshade_os.Base.{
  ℕ, ◌+◌, ◌%◌, ◌≡◌, Bool, true, false, ◌&&◌, ◌||◌, Option, none, some, List, [], ◌∷◌, ◌++◌, length,
  get_elem?, set, ◌==◌, if◌then◌else◌,
}
use pureshade_os.Base.Result.{Result, ok, err, ok_or}
use pureshade_os.Cap.Rights.{CapRights, has}
use pureshade_os.Cap.Types.{
  CapKind, memory, ipc, device, rollback, filesystem, CapError, invalid_handle, generation_mismatch,
  Capability, CapHandle, pack, index, generation,
}
use pureshade_os.Cap.Slots.{Slot, first_vacant, filled, next_generation, vacate}

abbrev pub CapabilityTable : Type 0
CapabilityTable = List (Slot Capability)

abbrev pub new : CapabilityTable
new = []

unfoldable pub insert : CapabilityTable → Capability → CapabilityTable × CapHandle
insert t cap = elim (first_vacant t 0) [
  | some (i, g) ↦ (set t i (filled (next_generation g) cap), pack i (next_generation g))
  | none ↦ (t ++ filled 0 cap ∷ [], pack (length t) 0)
]

-- The checks that `get`, `get_mut` and `take` share, in their order.
unfoldable pub get_slot : Option (Slot Capability) → ℕ → Result CapError Capability
get_slot none g = err invalid_handle
get_slot (some s) g =
    if s.generation_of == g then ok_or s.content invalid_handle else err generation_mismatch

unfoldable pub get : CapabilityTable → CapHandle → Result CapError Capability
unfolding get_slot
get t h = get_slot (get_elem? t (index h)) (generation h)

-- `get_mut(h)?.children.push(child)`: the write through the mutable borrow.
unfoldable pub push_child :
    CapabilityTable → CapHandle → ℕ × CapHandle → Result CapError CapabilityTable
unfolding get
push_child t h child = elim (get t h) [
  | err e ↦ err e
  | ok cap ↦ ok (
      set t (index h)
        (filled (generation h) (record cap { children = cap.children ++ child ∷ [] })))
]

unfoldable pub take : CapabilityTable → CapHandle → CapabilityTable × Result CapError Capability
unfolding get
take t h = elim (get t h) [ err e ↦ (t, err e) | ok cap ↦ (vacate t (index h), ok cap) ]

-- The derived `==` of `CapKind`.
unfoldable pub same_kind : CapKind → CapKind → Bool
same_kind memory memory = true
same_kind ipc ipc = true
same_kind device device = true
same_kind rollback rollback = true
same_kind filesystem filesystem = true
same_kind _ _ = false

any_cap : (Capability → Bool) → CapabilityTable → Bool
any_cap p [] = false
any_cap p (s ∷ ss) = elim s.content [ none ↦ any_cap p ss | some c ↦ p c || any_cap p ss ]

unfoldable pub has_kind : CapabilityTable → CapKind → Bool
unfolding any_cap same_kind
has_kind t k = any_cap (λ c. same_kind c.kind k) t

unfoldable pub has_kind_with_rights : CapabilityTable → CapKind → CapRights → Bool
unfolding any_cap same_kind has
has_kind_with_rights t k r = any_cap (λ c. same_kind c.kind k && has c.rights r) t

is_child : Option ℕ → ℕ → Bool
is_child none id = false
is_child (some p) id = p == id

children_from : CapabilityTable → ℕ → ℕ → List CapHandle
children_from [] id i = []
children_from (s ∷ ss) id i =
    let rest = children_from ss id (i + 1) in
    elim s.content [
      | none ↦ rest
      | some c ↦ if is_child c.parent_id id then pack i s.generation_of ∷ rest else rest
    ]

unfoldable pub find_children : CapabilityTable → ℕ → List CapHandle
unfolding children_from is_child
find_children t id = children_from t id 0
