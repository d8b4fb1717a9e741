-- ===== src/Ipc/Tests.antt =====
-- Runs of the rings and endpoints, and their theorems at concrete ones.
use pureshade_os.Base.{
  ℕ, ◌-◌, ◌≡◌, refl, ◌≢◌, ◌<◌, ◌≤◌, none, some, [], ◌∷◌, ◌++◌, List, arith, length,
  length-replicate, replicate,
}
use pureshade_os.Cap.Types
use pureshade_os.Cap.Types.{Capability}
use pureshade_os.Ipc.Ring.{Ring, ring_capacity, ring_data_bytes, msg_size, u32_mod, used, push, pop}
use pureshade_os.Ipc.Ring.Refine.{
  IsValid, contents, padded, PushOutcome, PopOutcome, push_refines, pop_refines,
}
use pureshade_os.Ipc.Ring.Wrap.{wrapped_push_overwrites}
use pureshade_os.Ipc.Endpoint.{Endpoint, through, blocked, send, send_cap}
use pureshade_os.Ipc.Endpoint.Queue.{Call, sends, receives, run, run-fifo}
use pureshade_os.Ipc.Endpoint.Wake.{wakes, Among, blocked_sender_lost}
use pureshade_os.Ipc.Endpoint.Transfer.{
  received, received_next, send_cap_misdelivered, send_cap_loses,
}
use pureshade_os.Ipc.Endpoint.Names.{NameTable}

-- A zeroed page with given counters.
page_ring : ℕ → ℕ → Ring
page_ring h t = record { head = h; tail = t; bytes = replicate ring_data_bytes 0 }

page_length : (h t : ℕ) → length (page_ring h t).bytes ≡ ring_data_bytes
unfolding page_ring
page_length h t = length-replicate {A = ℕ} ring_data_bytes 0

page-IsValid : (n : ℕ) → n < u32_mod → IsValid (page_ring n n)
unfolding page_ring
page-IsValid n h = record {
  page = length-replicate {A = ℕ} ring_data_bytes 0;
  ordered = omega arith;
  within = omega arith;
  unwrapped = h;
}

used_runs : used (page_ring 4_294_967_295 2) ≡ 3
unfolding used page_ring
used_runs = refl

abbrev hello : List ℕ
hello = 104 ∷ 105 ∷ []

push_refines_example : PushOutcome (page_ring 7 7) hello
unfolding page_ring
push_refines_example =
    push_refines (page_ring 7 7) hello (page-IsValid 7 (omega arith)) (omega arith)

pop_refines_example : PopOutcome (page_ring 7 7) 64
pop_refines_example = pop_refines (page_ring 7 7) 64 (page-IsValid 7 (omega arith))

wrapped_push_overwrites_example :
    (used (page_ring (u32_mod - 4) 0) ≡ 4)
    × ((s : Ring) × (t : Ring) × (push (page_ring (u32_mod - 4) 0) hello ≡ some s)
        × (used s ≡ 5)
        × (pop s msg_size ≡ some (padded hello, t)))
unfolding page_ring
wrapped_push_overwrites_example =
    wrapped_push_overwrites (page_ring (u32_mod - 4) 0) hello (page_length (u32_mod - 4) 0) refl
      refl

-- An endpoint over a page, with no one waiting.
endpoint : Ring → Endpoint
endpoint r = record { ring = r; sender_waiting = none; receiver_waiting = none; pending_cap = none }

empty_endpoint : Endpoint
unfolding endpoint
empty_endpoint = endpoint (page_ring 7 7)

empty-IsValid : IsValid empty_endpoint.ring
unfolding empty_endpoint
empty-IsValid = page-IsValid 7 (omega arith)

empty_tail : empty_endpoint.ring.tail ≡ 7
unfolding empty_endpoint page_ring
empty_tail = refl

empty_contents : contents empty_endpoint.ring ≡ []
unfolding empty_endpoint page_ring
empty_contents = refl

abbrev exchange : List Call
exchange = sends 1 hello ∷ receives 2 ∷ receives 2 ∷ []

run-fifo_example :
    let (last, ins, outs) = run empty_endpoint exchange in
    (contents empty_endpoint.ring ++ ins ≡ outs ++ contents last.ring) × IsValid last.ring
run-fifo_example = run-fifo empty_endpoint exchange empty-IsValid (omega (arith, empty_tail))

full_endpoint : Endpoint
unfolding endpoint
full_endpoint = endpoint (page_ring 0 63)

full_used : ring_capacity ≤ used full_endpoint.ring
unfolding full_endpoint used page_ring
full_used = omega arith

full_receiver : full_endpoint.receiver_waiting ≢ some 1
unfolding full_endpoint
full_receiver e = cc

blocked_sender_lost_example :
    let (one, p) = send full_endpoint 1 hello in
    let (two, q) = send one 2 hello in
    (p ≡ blocked) × (q ≡ blocked) × ¬ Among 1 (wakes two (receives 3 ∷ receives 3 ∷ []))
blocked_sender_lost_example =
    blocked_sender_lost full_endpoint 1 2 hello hello (receives 3 ∷ receives 3 ∷ []) full_used
      (λ e. omega arith) full_receiver (omega arith)

abbrev token : Capability
token = record {
  id = 1;
  kind = Types.rollback;
  rights = 15;
  object = 0;
  parent_id = none;
  children = [];
}

send_cap_misdelivered_example :
    let sent = (send_cap (send empty_endpoint 1 hello).0 3 [] token).0 in
    (received sent 2 ≡ through (padded hello, some token) empty_endpoint.sender_waiting)
    × (received_next sent 2 ≡ through (padded [], none) none)
send_cap_misdelivered_example =
    send_cap_misdelivered empty_endpoint 1 3 2 hello [] token empty-IsValid
      (omega (arith, empty_tail)) empty_contents

send_cap_loses_example :
    let sent = (send_cap (send_cap empty_endpoint 1 hello token).0 3 [] token).0 in
    (received sent 2 ≡ through (padded hello, some token) empty_endpoint.sender_waiting)
    × (received_next sent 2 ≡ through (padded [], none) none)
send_cap_loses_example =
    send_cap_loses empty_endpoint 1 3 2 hello [] token token empty-IsValid
      (omega (arith, empty_tail)) empty_contents

abbrev names : NameTable
names = ("bus", 4) ∷ []
