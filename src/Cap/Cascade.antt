-- ===== src/Cap/Cascade.antt =====
-- Cascading revocation of kernel/src/cap.rs over the tables of all tasks. `find_table` reaches a
-- task's table by its id, also the one that is passed by reference: a store is passed in and out,
-- and `table` is the entry of the task that holds it.
pub mod Laws
pub mod Cuts
pub mod Exact
use pureshade_os.Base.{
  ℕ, zero, suc, ◌≡◌, Option, none, some, List, [], ◌∷◌, ◌==◌, if◌then◌else◌, not,
}
use pureshade_os.Base.Result.{Result, ok, err}
use pureshade_os.Cap.Rights
use pureshade_os.Cap.Rights.{has}
use pureshade_os.Cap.Types.{CapError, invalid_handle, no_revoke, Capability, CapHandle}
use pureshade_os.Cap.Table.{CapabilityTable, get, take}

abbrev pub Store : Type 0
Store = List (ℕ × CapabilityTable)

-- `find_table`: the null pointer is `none`.
unfoldable pub find_table : Store → ℕ → Option CapabilityTable
find_table [] id = none
find_table ((j, t) ∷ s) id = if j == id then some t else find_table s id

unfoldable pub put_table : Store → ℕ → CapabilityTable → Store
put_table [] id u = []
put_table ((j, t) ∷ s) id u = if j == id then (j, u) ∷ s else (j, t) ∷ put_table s id u

-- A capability is named by its task and its handle there.
abbrev pub Place : Type 0
Place = ℕ × CapHandle

get_in : Option CapabilityTable → CapHandle → Result CapError Capability
get_in none h = err invalid_handle
get_in (some t) h = get t h

unfoldable pub get_at : Store → Place → Result CapError Capability
unfolding get_in
get_at s (id, h) = get_in (find_table s id) h

take_in : Store → ℕ → CapHandle → Option CapabilityTable → Store
take_in s id h none = s
take_in s id h (some t) = put_table s id (take t h).0

unfoldable pub take_at : Store → Place → Store
unfolding take_in
take_at s (id, h) = take_in s id h (find_table s id)

-- The loop `for (task_id, child_handle) in children`, over the call for one child.
unfoldable pub for_each : (Store → Place → Option Store) → Store → List Place → Option Store
for_each visit s [] = some s
for_each visit s (p ∷ ps) = elim (visit s p) [ none ↦ none | some s' ↦ for_each visit s' ps ]

-- The recursion on fuel; `none` is fuel that ran out. A child of a missing task is skipped, which
-- is what `get_at` of a missing task comes to.
unfoldable pub cascade_force : ℕ → Store → Place → Option Store
unfolding for_each
cascade_force zero s p = none
cascade_force (suc fuel) s p = elim (get_at s p) [
  | err _ ↦ some s
  | ok cap ↦ for_each (cascade_force fuel) (take_at s p) cap.children
]

unfoldable pub cap_cascade_revoke : ℕ → Store → Place → Option (Store × Result CapError (Unit {0}))
cap_cascade_revoke fuel s p = elim (get_at s p) [
  | err e ↦ some (s, err e)
  | ok cap ↦
      if not (has cap.rights Rights.revoke)
      then some (s, err no_revoke)
      else elim (cascade_force fuel s p) [ none ↦ none | some s' ↦ some (s', ok tt) ]
]
