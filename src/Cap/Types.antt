-- ===== src/Cap/Types.antt =====
-- The data of kernel/src/cap.rs: kinds, kernel objects, handles, capabilities, errors.
use pureshade_os.Base.{ℕ, ◌+◌, ◌*◌, ◌/◌, ◌%◌, ◌^◌, ◌<◌, ◌≡◌, List, Option, arith}
use pureshade_os.Cap.Rights.{CapRights}

pub data CapKind : Type 0 where
  memory ipc device rollback filesystem : CapKind

pub data KernelObject : Type 0 where
  memory_range : ℕ → ℕ → KernelObject
  endpoint : ℕ → KernelObject
  registry_device : ℕ → KernelObject
  rollback_trigger mount_authority : KernelObject

pub data CapError : Type 0 where
  invalid_handle generation_mismatch no_grant no_revoke no_memory : CapError

abbrev pub u32_mod : ℕ
u32_mod = 2 ^ 32

-- A generation in the high half, a slot index in the low half; the two halves are disjoint, so
-- their `|` is a sum. `KernelObjectRef` and `CapHandle` share this packing.
unfoldable pub pack : ℕ → ℕ → ℕ
pack index generation = generation * u32_mod + index % u32_mod

unfoldable pub index : ℕ → ℕ
index h = h % u32_mod

-- A handle is a `u64`, so the cast of `h >> 32` to `u32` drops nothing.
unfoldable pub generation : ℕ → ℕ
generation h = h / u32_mod

abbrev pub CapHandle : Type 0
CapHandle = ℕ

abbrev pub KernelObjectRef : Type 0
KernelObjectRef = ℕ

pub record Capability : Type 0 where
  pub id : ℕ
  pub kind : CapKind
  pub rights : CapRights
  pub object : KernelObjectRef
  pub parent_id : Option ℕ
  pub children : List (ℕ × CapHandle)

pub index-pack : (i g : ℕ) → i < u32_mod → index (pack i g) ≡ i
unfolding pack index
index-pack i g h = omega arith

pub generation-pack : (i g : ℕ) → generation (pack i g) ≡ g
unfolding pack generation
generation-pack i g = omega arith

-- A handle is no more than its index and its generation.
pub handle_ext : (h k : ℕ) → index h ≡ index k → generation h ≡ generation k → h ≡ k
unfolding index generation
handle_ext h k p q = omega arith
