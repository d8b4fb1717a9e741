-- ===== src/Ipc/Ring.antt =====
-- `RingBuffer` of kernel/src/ipc.rs: two free-running `u32` counters and the bytes of the slots,
-- with the write and the read that every send and receive function repeats.
pub mod Refine
pub mod Wrap
use pureshade_os.Base.{
  ℕ, ◌+◌, ◌-◌, ◌*◌, ◌/◌, ◌%◌, ◌^◌, List, Option, none, some, ltb, ◌==◌, if◌then◌else◌, min, length,
  take, replicate,
}
use pureshade_os.Base.Bytes.{overlay, span}

abbrev pub ring_data_bytes : ℕ
ring_data_bytes = 4096 - 8

abbrev pub msg_size : ℕ
msg_size = 64

abbrev pub ring_capacity : ℕ
ring_capacity = ring_data_bytes / msg_size

abbrev pub u32_mod : ℕ
u32_mod = 2 ^ 32

pub record Ring : Type 0 where
  pub head : ℕ
  pub tail : ℕ
  pub bytes : List ℕ

-- The page as `create_endpoint` zeroes it.
unfoldable pub zeroed : Ring
zeroed = record { head = 0; tail = 0; bytes = replicate ring_data_bytes 0 }

-- `tail.wrapping_sub(head)`.
unfoldable pub used : Ring → ℕ
used r = (r.tail + u32_mod - r.head) % u32_mod

abbrev pub slot_off : ℕ → ℕ
slot_off counter = counter % ring_capacity * msg_size

-- The payload, then zeros to the end of the slot.
unfoldable pub write_slot : List ℕ → ℕ → List ℕ → List ℕ
write_slot bytes off msg =
    let len = min (length msg) msg_size in
    let copied = overlay bytes off (take len msg) in
    if ltb len msg_size then overlay copied (off + len) (replicate (msg_size - len) 0) else copied

-- One pass of the send loop over the ring; `none` when it is full.
unfoldable pub push : Ring → List ℕ → Option Ring
unfolding used write_slot
push r msg =
    if ltb (used r) ring_capacity
    then some (record {
      head = r.head;
      tail = (r.tail + 1) % u32_mod;
      bytes = write_slot r.bytes (slot_off r.tail) msg;
    })
    else none

-- One pass of the receive loop: `buf_len` is `buf.len()`; `none` when the ring is empty.
unfoldable pub pop : Ring → ℕ → Option (List ℕ × Ring)
pop r buf_len =
    if r.head == r.tail
    then none
    else some (
      span r.bytes (slot_off r.head) (min buf_len msg_size),
      record r { head = (r.head + 1) % u32_mod },
    )
