-- ===== src/Cap/Ops.antt =====
-- The public operations of kernel/src/cap.rs on one or two tables: root capabilities, grant,
-- inherit, revoke. `NEXT_CAP_ID` is a static counter in the source: it is passed in and out.
pub mod Laws
use pureshade_os.Base.{ℕ, ◌+◌, ◌%◌, ◌^◌, Option, none, some, [], if◌then◌else◌, not}
use pureshade_os.Base.Result.{Result, ok, err}
use pureshade_os.Cap.Rights
use pureshade_os.Cap.Rights.{CapRights, has, intersect}
use pureshade_os.Cap.Types.{
  CapKind, CapError, no_grant, no_revoke, Capability, CapHandle, KernelObjectRef,
}
use pureshade_os.Cap.Table.{CapabilityTable, insert, get, push_child, take}

-- `NEXT_CAP_ID.fetch_add(1)` wraps at 64 bits.
unfoldable pub alloc_cap_id : ℕ → ℕ × ℕ
alloc_cap_id next = (next, (next + 1) % 2 ^ 64)

unfoldable pub create_root_cap :
    ℕ → CapabilityTable → CapKind → CapRights → KernelObjectRef → ℕ × CapabilityTable × CapHandle
unfolding alloc_cap_id
create_root_cap next table kind rights object =
    let (id, next') = alloc_cap_id next in
    let (t, h) = insert table (record {
      id = id;
      kind = kind;
      rights = rights;
      object = object;
      parent_id = none;
      children = [];
    }) in
    (next', t, h)

-- What `cap_grant` leaves: the counter, the two tables, the answer.
pub record Granted : Type 0 where
  pub next_id : ℕ
  pub from : CapabilityTable
  pub to : CapabilityTable
  pub answer : Result CapError CapHandle

-- The derived capability.
abbrev pub derive : ℕ → Capability → CapRights → Capability
derive id cap mask = record {
  id = id;
  kind = cap.kind;
  rights = intersect cap.rights mask;
  object = cap.object;
  parent_id = some cap.id;
  children = [];
}

-- The two tables are different ones: `&mut` twice, and the syscall refuses a grant to oneself.
unfoldable pub cap_grant :
    ℕ → CapabilityTable → CapHandle → ℕ → CapabilityTable → CapRights → Granted
unfolding alloc_cap_id
cap_grant next from handle to_task_id to mask = elim (get from handle) [
  | err e ↦ record { next_id = next; from = from; to = to; answer = err e }
  | ok cap ↦
      if not (has cap.rights Rights.grant)
      then record { next_id = next; from = from; to = to; answer = err no_grant }
      else let (id, next') = alloc_cap_id next in
        let (to', h) = insert to (derive id cap mask) in
        elim (push_child from handle (to_task_id, h)) [
          | err e ↦ record { next_id = next'; from = from; to = to'; answer = err e }
          | ok from' ↦ record { next_id = next'; from = from'; to = to'; answer = ok h }
        ]
]

-- Kernel only: the rights are kept whole, no `Grant` is asked, no child is recorded.
unfoldable pub cap_inherit :
    ℕ
    → CapabilityTable
    → CapHandle
    → CapabilityTable
    → ℕ × CapabilityTable × Result CapError CapHandle
unfolding alloc_cap_id
cap_inherit next from handle to = elim (get from handle) [
  | err e ↦ (next, to, err e)
  | ok src ↦
      let (id, next') = alloc_cap_id next in
      let (to', h) = insert to (record src { id = id; children = [] }) in (next', to', ok h)
]

unfoldable pub cap_revoke :
    CapabilityTable → CapHandle → CapabilityTable × Result CapError (Unit {0})
cap_revoke table handle = elim (get table handle) [
  | err e ↦ (table, err e)
  | ok cap ↦
      if not (has cap.rights Rights.revoke)
      then (table, err no_revoke)
      else let (t, taken) = take table handle in
        elim taken [ err e ↦ (t, err e) | ok _ ↦ (t, ok tt) ]
]
