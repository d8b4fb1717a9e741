-- ===== src/Ipc/Endpoint/Wake.antt =====
-- Which tasks a pass wakes. An endpoint remembers one waiting sender and one waiting receiver.
use pureshade_os.Base.{
  ℕ, ◌≤◌, ◌≡◌, refl, ◌≢◌, Option, none, some, List, [], ◌∷◌, arith, ◌⊎◌, inl, inr,
}
use pureshade_os.Ipc.Ring.{msg_size, ring_capacity, used}
use pureshade_os.Ipc.Ring.Refine.{push_full}
use pureshade_os.Ipc.Endpoint.{
  Endpoint, TaskId, Pass, through, blocked, send, send_cap, send_timeout, recv, recv_cap,
  recv_timeout, try_recv,
}
use pureshade_os.Ipc.Endpoint.Queue.{
  Call, sends, sends_cap, sends_timeout, receives, receives_cap, receives_timeout, polls,
}

-- The task that the pass calls `wake_task` for.
abbrev pub woken_of {ℓ} : {A : Type ℓ} → Pass A → Option TaskId
woken_of (through _ w) = w
woken_of _ = none

abbrev waking {ℓ} : {A : Type ℓ} → Endpoint × Pass A → Endpoint × Option TaskId
waking (ep, p) = (ep, woken_of p)

unfoldable pub wake_step : Endpoint → Call → Endpoint × Option TaskId
wake_step ep (sends t msg) = waking (send ep t msg)
wake_step ep (sends_cap t msg c) = waking (send_cap ep t msg c)
wake_step ep (sends_timeout t msg now deadline) = waking (send_timeout ep t msg now deadline)
wake_step ep (receives t) = waking (recv ep t msg_size)
wake_step ep (receives_cap t) = waking (recv_cap ep t msg_size)
wake_step ep (receives_timeout t now deadline) = waking (recv_timeout ep t msg_size now deadline)
wake_step ep polls = waking (try_recv ep msg_size)

-- The calls that leave the task's mark are its own.
abbrev pub NotBy : TaskId → Call → Type 0
NotBy a (sends t msg) = t ≢ a
NotBy a (sends_cap t msg c) = t ≢ a
NotBy a (sends_timeout t msg now deadline) = t ≢ a
NotBy a (receives t) = t ≢ a
NotBy a (receives_cap t) = t ≢ a
NotBy a (receives_timeout t now deadline) = t ≢ a
NotBy a polls = Unit {0}

abbrev pub AllNotBy : TaskId → List Call → Type 0
AllNotBy a [] = Unit {0}
AllNotBy a (c ∷ cs) = NotBy a c × AllNotBy a cs

-- The endpoint does not remember the task.
pub record IsForgotten (a : TaskId) (ep : Endpoint) : Type 0 where
  pub not_sender : ep.sender_waiting ≢ some a
  pub not_receiver : ep.receiver_waiting ≢ some a

step-IsForgotten :
    (a : TaskId) (ep : Endpoint) (c : Call)
    → NotBy a c
    → IsForgotten a ep
    → IsForgotten a (wake_step ep c).0 × ((wake_step ep c).1 ≢ some a)
unfolding wake_step send send_cap send_timeout recv recv_cap recv_timeout try_recv
step-IsForgotten a ep (sends t msg) n f = ground arith
step-IsForgotten a ep (sends_cap t msg c) n f = ground arith
step-IsForgotten a ep (sends_timeout t msg now deadline) n f = ground arith
step-IsForgotten a ep (receives t) n f = ground arith
step-IsForgotten a ep (receives_cap t) n f = ground arith
step-IsForgotten a ep (receives_timeout t now deadline) n f = ground arith
step-IsForgotten a ep polls n f = ground arith

consult : Option TaskId → List TaskId → List TaskId
consult none ts = ts
consult (some t) ts = t ∷ ts

-- The tasks that the calls wake, in order.
unfoldable pub wakes : Endpoint → List Call → List TaskId
unfolding consult
wakes ep [] = []
wakes ep (c ∷ cs) = let (ep', w) = wake_step ep c in consult w (wakes ep' cs)

abbrev pub Among : TaskId → List TaskId → Type 0
Among a [] = ⊥
Among a (t ∷ ts) = (a ≡ t) ⊎ Among a ts

consult-not-Among :
    (a : TaskId) (w : Option TaskId) (ts : List TaskId)
    → w ≢ some a
    → ¬ Among a ts
    → ¬ Among a (consult w ts)
unfolding consult
consult-not-Among a none ts d n m = n m
consult-not-Among a (some t) ts d n (inl e) = d (cc e)
consult-not-Among a (some t) ts d n (inr m) = n m

wakes-IsForgotten :
    (a : TaskId) (ep : Endpoint) (cs : List Call)
    → AllNotBy a cs
    → IsForgotten a ep
    → ¬ Among a (wakes ep cs)
unfolding wakes
wakes-IsForgotten a ep [] n f = λ m. m
wakes-IsForgotten a ep (c ∷ cs) (n, ns) f =
    let (g, d) = step-IsForgotten a ep c n f in
    consult-not-Among a (wake_step ep c).1 (wakes (wake_step ep c).0 cs) d
      (wakes-IsForgotten a (wake_step ep c).0 cs ns g)

send_full :
    (ep : Endpoint) (t : TaskId) (msg : List ℕ)
    → ring_capacity ≤ used ep.ring
    → send ep t msg ≡ (record ep { sender_waiting = some t }, blocked)
unfolding send
send_full ep t msg h = rw (push_full ep.ring msg h, send) refl

-- Two tasks that send on a full ring both block, and the first is then never woken: whatever passes
-- the other tasks make afterwards, none of them wakes it.
pub blocked_sender_lost :
    (ep : Endpoint) (a b : TaskId) (m n : List ℕ) (cs : List Call)
    → ring_capacity ≤ used ep.ring
    → a ≢ b
    → ep.receiver_waiting ≢ some a
    → AllNotBy a cs
    → let (one, p) = send ep a m in
      let (two, q) = send one b n in (p ≡ blocked) × (q ≡ blocked) × ¬ Among a (wakes two cs)
blocked_sender_lost ep a b m n cs h d r others =
    let one : Endpoint = record ep { sender_waiting = some a } in
    rw (send_full ep a m h, send_full one b n h)
      (
        refl,
        refl,
        wakes-IsForgotten a (record ep { sender_waiting = some b }) cs others
            (record { not_sender = λ e. d (cc e); not_receiver = r }),
      )
