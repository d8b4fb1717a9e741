-- ===== src/Ipc/Ring/Wrap.antt =====
-- What happens to the ring when its `u32` counters wrap: 63 slots do not divide 2^32.
use pureshade_os.Base.{ℕ, ◌-◌, ◌≡◌, ap, ◌∙◌, List, some, arith, length, take, take-length}
use pureshade_os.Ipc.Ring.{Ring, ring_data_bytes, msg_size, u32_mod, used, slot_off, push, pop}
use pureshade_os.Base.Bytes.{span}
use pureshade_os.Ipc.Ring.Refine.{
  padded, length-padded, slot, slot-write_self, push-pushed, pop-popped, pushed, popped,
}

-- The slot of counter 2^32 - 4 is the slot of counter 0.
pop_wrapped :
    (r : Ring) (msg : List ℕ)
    → length r.bytes ≡ ring_data_bytes
    → r.head ≡ u32_mod - 4
    → r.tail ≡ 0
    → pop (pushed r msg) msg_size ≡ some (padded msg, popped (pushed r msg))
pop_wrapped r msg page h t = rw (pop-popped (pushed r msg) msg_size (omega arith)) (
    ap (λ m. some (m, popped (pushed r msg)))
      (ap (take msg_size) same
        ∙ take-length msg_size (padded msg) (omega (arith, length-padded msg))))
  where
    same : slot (pushed r msg).bytes r.head ≡ padded msg
    same =
        ap (λ o. span (pushed r msg).bytes o msg_size)
          (let e : slot_off r.head ≡ slot_off r.tail = omega arith in e)
        ∙ slot-write_self r.bytes r.tail msg page

-- Four messages wait, and the next counter is 0: the oldest waits in slot 0, which the next send
-- takes. Whatever was waiting there, the next receive returns the message just sent, though four
-- older ones were unread.
pub wrapped_push_overwrites :
    (r : Ring) (msg : List ℕ)
    → length r.bytes ≡ ring_data_bytes
    → r.head ≡ u32_mod - 4
    → r.tail ≡ 0
    → (used r ≡ 4)
      × ((s : Ring) × (t : Ring) × (push r msg ≡ some s)
          × (used s ≡ 5)
          × (pop s msg_size ≡ some (padded msg, t)))
unfolding used
wrapped_push_overwrites r msg page h t = (
  omega arith,
  (
    pushed r msg,
    popped (pushed r msg),
    push-pushed r msg (omega arith),
    omega arith,
    pop_wrapped r msg page h t,
  ),
)
