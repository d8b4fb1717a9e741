-- ===== src/Ipc/Endpoint.antt =====
-- `IpcEndpoint` of kernel/src/ipc.rs and its operations. The send and receive functions loop until
-- they get through, and give up the processor in between: here each is one pass of its loop over
-- the endpoint, and a task that is woken makes another.
pub mod Queue
pub mod Wake
pub mod Transfer
pub mod Names
use pureshade_os.Base.{
  ℕ, ◌+◌, ◌≡◌, Bool, true, false, Option, none, some, List, [], ◌∷◌, ◌++◌, ltb, leb, ◌==◌,
  if◌then◌else◌, length,
}
use pureshade_os.Cap.Types.{Capability}
use pureshade_os.Ipc.Ring.{Ring, push, pop, zeroed}

abbrev pub TaskId : Type 0
TaskId = ℕ

-- Where the page lies (`phys_page`, `kern_virt_u64`) does not matter here: the ring stands for it.
pub record Endpoint : Type 0 where
  pub ring : Ring
  pub sender_waiting : Option TaskId
  pub receiver_waiting : Option TaskId
  pub pending_cap : Option Capability

-- How a pass ends: through, with the task that `wake_task` is called for; blocked, and the loop
-- goes on when the task runs again; or past its deadline.
pub data Pass {ℓ} (A : Type ℓ) : Type ℓ where
  through : A → Option TaskId → Pass A
  blocked : Pass A
  timed_out : Pass A

abbrev pub max_endpoints : ℕ
max_endpoints = 1024

fresh_endpoint : Endpoint
fresh_endpoint = record {
  ring = zeroed;
  sender_waiting = none;
  receiver_waiting = none;
  pending_cap = none;
}

-- With the answer of `alloc_frame`, which is asked for below the limit only; without a frame it
-- panics. The frame is mapped and holds the zeroed ring.
unfoldable pub create_endpoint : Option ℕ → List Endpoint → Option (List Endpoint × Option ℕ)
unfolding fresh_endpoint
create_endpoint none table = if leb max_endpoints (length table) then some (table, none) else none
create_endpoint (some frame) table =
    if leb max_endpoints (length table)
    then some (table, none)
    else some (table ++ fresh_endpoint ∷ [], some (length table))

-- A pass of `send` by the task `current`.
unfoldable pub send : Endpoint → TaskId → List ℕ → Endpoint × Pass (Unit {0})
send ep current msg = elim (push ep.ring msg) [
  | some r ↦ (record ep { ring = r; receiver_waiting = none }, through tt ep.receiver_waiting)
  | none ↦ (record ep { sender_waiting = some current }, blocked)
]

unfoldable pub send_cap : Endpoint → TaskId → List ℕ → Capability → Endpoint × Pass (Unit {0})
send_cap ep current msg c = elim (push ep.ring msg) [
  | some r ↦ (
    record ep { ring = r; pending_cap = some c; receiver_waiting = none },
    through tt ep.receiver_waiting,
  )
  | none ↦ (record ep { sender_waiting = some current }, blocked)
]

-- `waiting == Some(current)`.
waits : Option TaskId → TaskId → Bool
waits none current = false
waits (some t) current = t == current

-- `if waiting == Some(current) { waiting = None }`.
forget : Option TaskId → TaskId → Option TaskId
unfolding waits
forget w current = if waits w current then none else w

-- `now` is `apic::ticks()` where the pass reads it; `deadline` is fixed before the loop.
unfoldable pub send_timeout :
    Endpoint → TaskId → List ℕ → (now deadline : ℕ) → Endpoint × Pass (Unit {0})
unfolding forget
send_timeout ep current msg now deadline = elim (push ep.ring msg) [
  | some r ↦ (record ep { ring = r; receiver_waiting = none }, through tt ep.receiver_waiting)
  | none ↦
      if leb deadline now
      then (record ep { sender_waiting = forget ep.sender_waiting current }, timed_out)
      else (record ep { sender_waiting = some current }, blocked)
]

unfoldable pub recv : Endpoint → TaskId → ℕ → Endpoint × Pass (List ℕ)
recv ep current buf_len = elim (pop ep.ring buf_len) [
  | some (m, r) ↦ (record ep { ring = r; sender_waiting = none }, through m ep.sender_waiting)
  | none ↦ (record ep { receiver_waiting = some current }, blocked)
]

unfoldable pub recv_cap : Endpoint → TaskId → ℕ → Endpoint × Pass (List ℕ × Option Capability)
recv_cap ep current buf_len = elim (pop ep.ring buf_len) [
  | some (m, r) ↦ (
    record ep { ring = r; pending_cap = none; sender_waiting = none },
    through (m, ep.pending_cap) ep.sender_waiting,
  )
  | none ↦ (record ep { receiver_waiting = some current }, blocked)
]

unfoldable pub recv_timeout : Endpoint → TaskId → ℕ → (now deadline : ℕ) → Endpoint × Pass (List ℕ)
unfolding forget
recv_timeout ep current buf_len now deadline = elim (pop ep.ring buf_len) [
  | some (m, r) ↦ (record ep { ring = r; sender_waiting = none }, through m ep.sender_waiting)
  | none ↦
      if leb deadline now
      then (record ep { receiver_waiting = forget ep.receiver_waiting current }, timed_out)
      else (record ep { receiver_waiting = some current }, blocked)
]

-- `try_recv` never blocks: `timed_out` is its `None`.
unfoldable pub try_recv : Endpoint → ℕ → Endpoint × Pass (List ℕ)
try_recv ep buf_len = elim (pop ep.ring buf_len) [
  | some (m, r) ↦ (record ep { ring = r; sender_waiting = none }, through m ep.sender_waiting)
  | none ↦ (ep, timed_out)
]
