-- ===== src/Cap/Tests.antt =====
-- Runs of the capability system, and its theorems at concrete tables.
use pureshade_os.Base.{ℕ, ◌*◌, ◌≡◌, ◌<◌, refl, none, some, [], ◌∷◌, true, arith}
use pureshade_os.Base.Result.{ok, err}
use pureshade_os.Cap.Rights
use pureshade_os.Cap.Rights.{CapRights, has}
use pureshade_os.Cap.Types
use pureshade_os.Cap.Types.{
  KernelObject, CapError, no_grant, no_revoke, Capability, CapHandle, pack, index, generation,
  u32_mod,
}
use pureshade_os.Cap.Slots.{filled, first_vacant, vacate}
use pureshade_os.Cap.Objects
use pureshade_os.Cap.Table.{CapabilityTable, insert, get, take, push_child}
use pureshade_os.Cap.Table.Laws.{IsDead, get-insert-take}
use pureshade_os.Cap.Ops.{cap_grant}
use pureshade_os.Cap.Ops.Laws.{
  Grants, cap_grant_ok, cap_grant-shrinks, RevokeAnswer, cap_revoke_lem,
}
use pureshade_os.Cap.Cascade.{
  Store, get_at, find_table, cascade_force, cap_cascade_revoke, take_at, put_table,
}
use pureshade_os.Cap.Cascade.Laws.{count_caps}
use pureshade_os.Cap.Cascade.Exact.{RevokeOutcome, cap_cascade_revoke_lem}

-- A root capability with all rights whose child is handle 0 of task 2.
abbrev root : Capability
root = record {
  id = 1;
  kind = Types.memory;
  rights = Rights.all;
  object = 0;
  parent_id = none;
  children = (2, 0) ∷ [];
}

-- The child: read and grant only.
abbrev child : Capability
child = record {
  id = 2;
  kind = Types.memory;
  rights = 5;
  object = 0;
  parent_id = some 1;
  children = [];
}

abbrev alice : CapabilityTable
alice = filled 3 root ∷ []

abbrev bob : CapabilityTable
bob = filled 0 child ∷ []

abbrev two_tasks : Store
two_tasks = (1, alice) ∷ (2, bob) ∷ []

-- The handle of the root: slot 0 in generation 3.
abbrev root_handle : CapHandle
root_handle = 3 * u32_mod

get-root : get alice root_handle ≡ ok root
unfolding get index generation
get-root = refl

stale_root : get alice 0 ≡ err Types.generation_mismatch
unfolding get index generation
stale_root = refl

grant_runs : (cap_grant 7 alice root_handle 2 bob 1).answer ≡ ok 1
unfolding cap_grant get index generation insert first_vacant push_child has pack
grant_runs = refl

after_revoke : Store
unfolding take_at put_table take vacate
after_revoke = take_at (take_at two_tasks (1, root_handle)) (2, 0)

cascade_runs : cap_cascade_revoke 3 two_tasks (1, root_handle) ≡ some (after_revoke, ok tt)
unfolding cap_cascade_revoke get_at find_table has cascade_force take_at put_table take get index
    generation after_revoke vacate
cascade_runs = refl

abbrev one_object : Objects.KoTable
one_object = filled 4 (Types.endpoint 5) ∷ []

found_object : Objects.get one_object (4 * u32_mod) ≡ some (Types.endpoint 5)
unfolding Objects.get index generation
found_object = refl

generation_small : (g : ℕ) → g < u32_mod → generation (g * u32_mod) < u32_mod
unfolding generation
generation_small g h = omega arith

get-insert-take_example : IsDead (insert (take alice root_handle).0 child).0 root_handle
get-insert-take_example =
    get-insert-take alice root_handle root child (generation_small 3 (omega arith)) get-root

root_grants : has root.rights Rights.grant ≡ true
unfolding has
root_grants = refl

cap_grant_ok_example :
    (h : CapHandle) × Grants 7 alice root_handle 2 bob 1 root h
      (cap_grant 7 alice root_handle 2 bob 1)
cap_grant_ok_example =
    cap_grant_ok 7 alice root_handle 2 bob 1 root (omega arith) get-root root_grants

cap_grant-shrinks_example :
    (given : Capability) × (get (cap_grant 7 alice root_handle 2 bob 1).to 1 ≡ ok given)
    × (has root.rights given.rights ≡ true)
    × (has 1 given.rights ≡ true)
    × (given.object ≡ 0)
    × (given.kind ≡ Types.memory)
cap_grant-shrinks_example =
    cap_grant-shrinks 7 alice root_handle 2 bob 1 root 1 (omega arith) get-root grant_runs

refused_runs : (cap_grant 7 alice 0 2 bob 1).answer ≡ err Types.generation_mismatch
unfolding cap_grant get index generation
refused_runs = refl

cap_revoke_lem_example : RevokeAnswer alice root_handle
cap_revoke_lem_example = cap_revoke_lem alice root_handle

two_capabilities : count_caps two_tasks < 3
unfolding count_caps
two_capabilities = omega arith

cap_cascade_revoke_lem_example : RevokeOutcome 3 two_tasks (1, root_handle)
cap_cascade_revoke_lem_example =
    cap_cascade_revoke_lem 3 two_tasks (1, root_handle) two_capabilities
