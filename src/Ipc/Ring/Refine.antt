-- ===== src/Ipc/Ring/Refine.antt =====
-- A ring whose counters have not wrapped is a bounded queue of messages, oldest first.
use native.Mathlib.Decide.{dec_lt}
use pureshade_os.Base.{
  ℕ, zero, suc, ◌+◌, ◌-◌, ◌%◌, ◌≤◌, ◌<◌, ◌≡◌, refl, ap, ap₂, ◌≢◌, ◌⊎◌, inl, inr, List, [], ◌∷◌,
  ◌++◌, some, none, arith, min, length, take, drop, replicate, length-append, length-take,
  length-replicate, take-take, ltb, ==_refl, ne→not_==, lt→ltb, le→not_ltb, if◌then◌else◌,
}
use mathlib.Core.List.{append-nil}
use pureshade_os.Base.Bytes.{
  overlay, span, length-overlay, overlay-overlay, span-overlay_self, span-overlay_before,
  drop-overlay_after,
}
use pureshade_os.Ipc.Ring.{
  Ring, ring_capacity, ring_data_bytes, msg_size, u32_mod, used, slot_off, write_slot, push, pop,
}

-- The slot's 64 bytes for a message: cut at 64, padded with zeros.
abbrev pub padded : List ℕ → List ℕ
padded msg =
    take (min (length msg) msg_size) msg ++ replicate (msg_size - min (length msg) msg_size) 0

pub length-padded : (msg : List ℕ) → length (padded msg) ≡ msg_size
length-padded msg =
    let len : ℕ = min (length msg) msg_size in
    omega (
      arith,
      length-append (take len msg) (replicate (msg_size - len) 0),
      length-take len msg,
      length-replicate {A = ℕ} (msg_size - len) 0,
    )

write_padded :
    (bytes : List ℕ) (off len : ℕ) (msg : List ℕ)
    → len ≤ msg_size
    → len ≤ length msg
    → (if ltb len msg_size
        then overlay (overlay bytes off (take len msg)) (off + len) (replicate (msg_size - len) 0)
        else overlay bytes off (take len msg))
      ≡ overlay bytes off (take len msg ++ replicate (msg_size - len) 0)
write_padded bytes off len msg b c = elim (dec_lt len msg_size) [
  | yes p ↦ rw (lt→ltb len msg_size p) (
      overlay-overlay bytes off (off + len) (take len msg) (replicate (msg_size - len) 0)
        (omega (arith, length-take len msg)))
  | no p ↦ let e : msg_size ≡ len = omega arith in rw (← e) (rw append-nil refl)
]

write_slot-overlay :
    (bytes : List ℕ) (off : ℕ) (msg : List ℕ)
    → write_slot bytes off msg ≡ overlay bytes off (padded msg)
unfolding write_slot
write_slot-overlay bytes off msg =
    write_padded bytes off (min (length msg) msg_size) msg (omega arith) (omega arith)

abbrev pub slot : List ℕ → ℕ → List ℕ
slot bytes counter = span bytes (slot_off counter) msg_size

-- The messages of `n` counters from `c` on.
abbrev pub window : List ℕ → ℕ → ℕ → List (List ℕ)
window bytes c zero = []
window bytes c (suc n) = slot bytes c ∷ window bytes (c + 1) n

abbrev pub contents : Ring → List (List ℕ)
contents r = window r.bytes r.head (r.tail - r.head)

pub record IsValid (r : Ring) : Type 0 where
  pub page : length r.bytes ≡ ring_data_bytes
  pub ordered : r.head ≤ r.tail
  pub within : r.tail ≤ r.head + ring_capacity
  pub unwrapped : r.tail < u32_mod

length-window : (bytes : List ℕ) (c n : ℕ) → length (window bytes c n) ≡ n
length-window bytes c zero = refl
length-window bytes c (suc n) = ap suc (length-window bytes (c + 1) n)

window-snoc :
    (bytes : List ℕ) (c n t : ℕ)
    → t ≡ c + n
    → window bytes c (suc n) ≡ window bytes c n ++ slot bytes t ∷ []
window-snoc bytes c zero t e = ap (λ k. slot bytes k ∷ []) (omega arith)
window-snoc bytes c (suc n) t e =
    ap (λ r. slot bytes c ∷ r) (window-snoc bytes (c + 1) n t (omega arith))

slot-write_ne :
    (bytes : List ℕ) (c t : ℕ) (msg : List ℕ)
    → c % ring_capacity ≢ t % ring_capacity
    → slot (overlay bytes (slot_off t) (padded msg)) c ≡ slot bytes c
slot-write_ne bytes c t msg d = elim (dec_lt (c % ring_capacity) (t % ring_capacity)) [
  | yes p ↦ span-overlay_before bytes (slot_off t) (slot_off c) msg_size (padded msg) (omega arith)
  | no p ↦ ap (take msg_size) (
      drop-overlay_after bytes (slot_off t) (slot_off c) (padded msg)
        (omega (arith, length-padded msg)))
]

pub slot-write_self :
    (bytes : List ℕ) (t : ℕ) (msg : List ℕ)
    → length bytes ≡ ring_data_bytes
    → slot (overlay bytes (slot_off t) (padded msg)) t ≡ padded msg
slot-write_self bytes t msg h =
    span-overlay_self bytes (slot_off t) msg_size (padded msg) (omega (arith, length-padded msg))
      (omega (arith, length-padded msg))

window-write :
    (bytes : List ℕ) (c n t : ℕ) (msg : List ℕ)
    → c + n ≤ t
    → t < c + ring_capacity
    → window (overlay bytes (slot_off t) (padded msg)) c n ≡ window bytes c n
window-write bytes c zero t msg h k = refl
window-write bytes c (suc n) t msg h k =
    ap₂ ◌∷◌ (slot-write_ne bytes c t msg (λ e. omega arith))
      (window-write bytes (c + 1) n t msg (omega arith) (omega arith))

length-contents : (r : Ring) → length (contents r) ≡ r.tail - r.head
length-contents r = length-window r.bytes r.head (r.tail - r.head)

used_unwrapped : (r : Ring) → IsValid r → used r ≡ r.tail - r.head
unfolding used
used_unwrapped r v = omega arith

-- The ring after a message was written.
abbrev pub pushed : Ring → List ℕ → Ring
pushed r msg = record {
  head = r.head;
  tail = (r.tail + 1) % u32_mod;
  bytes = overlay r.bytes (slot_off r.tail) (padded msg);
}

pub push-pushed :
    (r : Ring) (msg : List ℕ) → used r < ring_capacity → push r msg ≡ some (pushed r msg)
unfolding push
push-pushed r msg h = rw (lt→ltb _ _ h, write_slot-overlay r.bytes (slot_off r.tail) msg) refl

pub push_full : (r : Ring) (msg : List ℕ) → ring_capacity ≤ used r → push r msg ≡ none
unfolding push
push_full r msg h = rw (le→not_ltb _ _ h) refl

contents-pushed :
    (r : Ring) (msg : List ℕ)
    → IsValid r
    → r.tail + 1 < u32_mod
    → r.tail - r.head < ring_capacity
    → contents (pushed r msg) ≡ contents r ++ padded msg ∷ []
contents-pushed r msg v u h =
    let b : List ℕ = overlay r.bytes (slot_off r.tail) (padded msg) in
    let e : (r.tail + 1) % u32_mod - r.head ≡ suc (r.tail - r.head) = omega arith in
    rw
      (
        e,
        window-snoc b r.head (r.tail - r.head) r.tail (omega arith),
        slot-write_self r.bytes r.tail msg v.page,
        window-write r.bytes r.head (r.tail - r.head) r.tail msg (omega arith) (omega arith),
      )
      refl

-- A send pass puts the padded message behind the others, or finds 63 messages and the ring full.
abbrev pub PushOutcome : Ring → List ℕ → Type 0
PushOutcome r msg =
    ((length (contents r) < ring_capacity)
      × ((s : Ring) × (push r msg ≡ some s)
          × IsValid s
          × (contents s ≡ contents r ++ padded msg ∷ [])
          × (s.tail ≤ r.tail + 1)))
    ⊎ ((length (contents r) ≡ ring_capacity) × (push r msg ≡ none))

-- While the counters do not wrap, a send pass on a valid ring of fewer than 63 messages puts the
-- padded message behind them and keeps the ring valid, and on a ring of 63 it finds the ring full.
pub push_refines : (r : Ring) (msg : List ℕ) → IsValid r → r.tail + 1 < u32_mod → PushOutcome r msg
push_refines r msg v u = elim (dec_lt (r.tail - r.head) ring_capacity) [
  | yes p ↦ inl (
    omega (arith, length-contents r),
    (
      pushed r msg,
      push-pushed r msg (omega (arith, used_unwrapped r v)),
      record {
        page = omega (arith, v.page, length-overlay r.bytes (slot_off r.tail) (padded msg));
        ordered = omega arith;
        within = omega arith;
        unwrapped = omega arith;
      },
      contents-pushed r msg v u p,
      omega arith,
    ),
  )
  | no p ↦
      inr (omega (arith, length-contents r), push_full r msg (omega (arith, used_unwrapped r v)))
]

window_of_pos :
    (bytes : List ℕ) (c n : ℕ)
    → 0 < n
    → window bytes c n ≡ slot bytes c ∷ window bytes (c + 1) (n - 1)
window_of_pos bytes c zero h = absurd (omega arith)
window_of_pos bytes c (suc n) h = ap (λ k. slot bytes c ∷ window bytes (c + 1) k) (omega arith)

-- The ring after its oldest message was read.
abbrev pub popped : Ring → Ring
popped r = record r { head = (r.head + 1) % u32_mod }

pub pop-popped :
    (r : Ring) (n : ℕ)
    → r.head ≢ r.tail
    → pop r n ≡ some (take (min n msg_size) (slot r.bytes r.head), popped r)
unfolding pop
pop-popped r n h =
    rw
      (
        ne→not_== r.head r.tail h,
        take-take (min n msg_size) msg_size (drop (slot_off r.head) r.bytes) (omega arith),
      )
      refl

pop_empty : (r : Ring) (n : ℕ) → r.head ≡ r.tail → pop r n ≡ none
unfolding pop
pop_empty r n h = rw (h, ==_refl r.tail) refl

contents-popped :
    (r : Ring)
    → IsValid r
    → r.head < r.tail
    → contents (popped r) ≡ window r.bytes (r.head + 1) (r.tail - r.head - 1)
contents-popped r v h = ap₂ (λ c n. window r.bytes c n) (omega arith) (omega arith)

-- A receive pass takes the oldest message and leaves the others, or finds no message.
abbrev pub PopOutcome : Ring → ℕ → Type 0
PopOutcome r buf_len =
    ((m : List ℕ) × (ms : List (List ℕ)) × (contents r ≡ m ∷ ms)
      × ((s : Ring) × (pop r buf_len ≡ some (take (min buf_len msg_size) m, s))
          × IsValid s
          × (contents s ≡ ms)
          × (s.tail ≡ r.tail)
          × (length m ≤ msg_size)))
    ⊎ ((contents r ≡ []) × (pop r buf_len ≡ none))

-- A receive pass on a valid ring that holds messages returns the oldest, cut to the buffer, and
-- leaves the others in a valid ring; on a ring that holds none it finds the ring empty.
pub pop_refines : (r : Ring) (buf_len : ℕ) → IsValid r → PopOutcome r buf_len
pop_refines r n v = elim (dec_lt r.head r.tail) [
  | yes p ↦ inl (
    slot r.bytes r.head,
    window r.bytes (r.head + 1) (r.tail - r.head - 1),
    window_of_pos r.bytes r.head (r.tail - r.head) (omega arith),
    (
      popped r,
      pop-popped r n (omega arith),
      record {
        page = v.page;
        ordered = omega arith;
        within = omega arith;
        unwrapped = v.unwrapped;
      },
      contents-popped r v p,
      refl,
      omega (arith, length-take msg_size (drop (slot_off r.head) r.bytes)),
    ),
  )
  | no p ↦ inr (
    ap (window r.bytes r.head) (let e : r.tail - r.head ≡ 0 = omega arith in e),
    pop_empty r n (omega arith),
  )
]
