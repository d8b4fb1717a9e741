-- ===== src/Ipc/Endpoint/Queue.antt =====
-- Over any schedule of calls an endpoint is a queue: nothing is lost, doubled or reordered, as long
-- as the counters do not wrap.
use mathlib.Core.List.{append-nil, append_assoc}
use pureshade_os.Base.{
  ℕ, ◌+◌, ◌≤◌, ◌<◌, ◌≡◌, refl, sym, ap, ◌∙◌, inl, inr, List, [], ◌∷◌, ◌++◌, arith, length, take,
  take-length, min, Bool-cases, leb,
}
use pureshade_os.Cap.Types.{Capability}
use pureshade_os.Ipc.Ring.{Ring, msg_size, u32_mod}
use pureshade_os.Ipc.Ring.Refine.{IsValid, contents, padded, push_refines, pop_refines}
use pureshade_os.Ipc.Endpoint.{
  Endpoint, TaskId, Pass, through, send, send_cap, send_timeout, recv, recv_cap, recv_timeout,
  try_recv,
}

-- One pass of one of the functions, by the task named first. The system calls receive into buffers
-- of `MSG_SIZE` bytes.
pub data Call : Type 0 where
  sends : TaskId → List ℕ → Call
  sends_cap : TaskId → List ℕ → Capability → Call
  sends_timeout : TaskId → List ℕ → ℕ → ℕ → Call
  receives receives_cap : TaskId → Call
  receives_timeout : TaskId → ℕ → ℕ → Call
  polls : Call

-- What a pass has moved: a message into the ring, one out of it, or none.
pub data Event : Type 0 where
  accepted delivered : List ℕ → Event
  idle : Event

abbrev pub sending : List ℕ → Endpoint × Pass (Unit {0}) → Endpoint × Event
sending msg (ep, through _ _) = (ep, accepted (padded msg))
sending msg (ep, _) = (ep, idle)

abbrev pub receiving {ℓ} : {A : Type ℓ} → (A → List ℕ) → Endpoint × Pass A → Endpoint × Event
receiving f (ep, through a _) = (ep, delivered (f a))
receiving f (ep, _) = (ep, idle)

unfoldable pub step : Endpoint → Call → Endpoint × Event
step ep (sends t msg) = sending msg (send ep t msg)
step ep (sends_cap t msg c) = sending msg (send_cap ep t msg c)
step ep (sends_timeout t msg now deadline) = sending msg (send_timeout ep t msg now deadline)
step ep (receives t) = receiving (λ m. m) (recv ep t msg_size)
step ep (receives_cap t) = receiving (λ r. r.0) (recv_cap ep t msg_size)
step ep (receives_timeout t now deadline) =
    receiving (λ m. m) (recv_timeout ep t msg_size now deadline)
step ep polls = receiving (λ m. m) (try_recv ep msg_size)

abbrev pub accepted_of : Event → List (List ℕ)
accepted_of (accepted m) = m ∷ []
accepted_of _ = []

abbrev pub delivered_of : Event → List (List ℕ)
delivered_of (delivered m) = m ∷ []
delivered_of _ = []

-- The endpoint after the calls, with the messages that went in and those that came out.
unfoldable pub run : Endpoint → List Call → Endpoint × List (List ℕ) × List (List ℕ)
run ep [] = (ep, [], [])
run ep (c ∷ cs) =
    let (ep', e) = step ep c in
    let (last, ins, outs) = run ep' cs in (last, accepted_of e ++ ins, delivered_of e ++ outs)

record Follows (ep : Endpoint) (o : Endpoint × Event) : Type 0 where
  valid : IsValid o.0.ring
  slow : o.0.ring.tail ≤ ep.ring.tail + 1
  kept : contents ep.ring ++ accepted_of o.1 ≡ delivered_of o.1 ++ contents o.0.ring

module _ (ep : Endpoint) (v : IsValid ep.ring) where
  stays : (e : Endpoint) → e.ring ≡ ep.ring → Follows ep (e, idle)
  stays e p = rw p (record { valid = v; slow = omega arith; kept = append-nil (contents ep.ring) })

  takes_in :
      (e : Endpoint) (s : Ring) (msg : List ℕ)
      → e.ring ≡ s
      → IsValid s
      → contents s ≡ contents ep.ring ++ padded msg ∷ []
      → s.tail ≤ ep.ring.tail + 1
      → Follows ep (e, accepted (padded msg))
  takes_in e s msg p w c b = record { valid = rw p w; slow = rw p b; kept = rw p (sym c) }

  gives_out :
      (e : Endpoint) (s : Ring) (m : List ℕ) (ms : List (List ℕ))
      → e.ring ≡ s
      → IsValid s
      → contents ep.ring ≡ m ∷ ms
      → contents s ≡ ms
      → s.tail ≡ ep.ring.tail
      → length m ≤ msg_size
      → Follows ep (e, delivered (take (min msg_size msg_size) m))
  gives_out e s m ms p w c d t b = record {
    valid = rw p w;
    slow = rw p (omega arith);
    kept =
        rw (p, append-nil (contents ep.ring), take-length msg_size m b)
          (c ∙ ap (λ r. m ∷ r) (sym d));
  }

  -- What a pass over a full ring, or over an empty one, comes to.
  module _ (room : ep.ring.tail + 1 < u32_mod) where
    send-Follows : (t : TaskId) (msg : List ℕ) → Follows ep (sending msg (send ep t msg))
    unfolding send
    send-Follows t msg = elim (push_refines ep.ring msg v room) [
      | inl (_, (s, e, w, c, b)) ↦ rw (e, send) (takes_in _ s msg refl w c b)
      | inr (_, e) ↦ rw (e, send) (stays _ refl)
    ]

    send_cap-Follows :
        (t : TaskId) (msg : List ℕ) (k : Capability)
        → Follows ep (sending msg (send_cap ep t msg k))
    unfolding send_cap
    send_cap-Follows t msg k = elim (push_refines ep.ring msg v room) [
      | inl (_, (s, e, w, c, b)) ↦ rw (e, send_cap) (takes_in _ s msg refl w c b)
      | inr (_, e) ↦ rw (e, send_cap) (stays _ refl)
    ]

    send_timeout-Follows :
        (t : TaskId) (msg : List ℕ) (now deadline : ℕ)
        → Follows ep (sending msg (send_timeout ep t msg now deadline))
    unfolding send_timeout
    send_timeout-Follows t msg now deadline = elim (push_refines ep.ring msg v room) [
      | inl (_, (s, e, w, c, b)) ↦ rw (e, send_timeout) (takes_in _ s msg refl w c b)
      | inr (_, e) ↦ elim (Bool-cases (leb deadline now)) [
        | inl p ↦ rw (e, send_timeout, p) (stays _ refl)
        | inr p ↦ rw (e, send_timeout, p) (stays _ refl)
      ]
    ]

  recv-Follows : (t : TaskId) → Follows ep (receiving (λ m. m) (recv ep t msg_size))
  unfolding recv
  recv-Follows t = elim (pop_refines ep.ring msg_size v) [
    | inl (m, ms, c, (s, e, w, d, k, b)) ↦ rw (e, recv) (gives_out _ s m ms refl w c d k b)
    | inr (_, e) ↦ rw (e, recv) (stays _ refl)
  ]

  recv_cap-Follows : (t : TaskId) → Follows ep (receiving (λ r. r.0) (recv_cap ep t msg_size))
  unfolding recv_cap
  recv_cap-Follows t = elim (pop_refines ep.ring msg_size v) [
    | inl (m, ms, c, (s, e, w, d, k, b)) ↦ rw (e, recv_cap) (gives_out _ s m ms refl w c d k b)
    | inr (_, e) ↦ rw (e, recv_cap) (stays _ refl)
  ]

  recv_timeout-Follows :
      (t : TaskId) (now deadline : ℕ)
      → Follows ep (receiving (λ m. m) (recv_timeout ep t msg_size now deadline))
  unfolding recv_timeout
  recv_timeout-Follows t now deadline = elim (pop_refines ep.ring msg_size v) [
    | inl (m, ms, c, (s, e, w, d, k, b)) ↦ rw (e, recv_timeout) (gives_out _ s m ms refl w c d k b)
    | inr (_, e) ↦ elim (Bool-cases (leb deadline now)) [
      | inl p ↦ rw (e, recv_timeout, p) (stays _ refl)
      | inr p ↦ rw (e, recv_timeout, p) (stays _ refl)
    ]
  ]

  try_recv-Follows : Follows ep (receiving (λ m. m) (try_recv ep msg_size))
  unfolding try_recv
  try_recv-Follows = elim (pop_refines ep.ring msg_size v) [
    | inl (m, ms, c, (s, e, w, d, k, b)) ↦ rw (e, try_recv) (gives_out _ s m ms refl w c d k b)
    | inr (_, e) ↦ rw (e, try_recv) (stays _ refl)
  ]

step-Follows :
    (ep : Endpoint) (c : Call)
    → IsValid ep.ring
    → ep.ring.tail + 1 < u32_mod
    → Follows ep (step ep c)
unfolding step
step-Follows ep (sends t msg) v u = send-Follows ep v u t msg
step-Follows ep (sends_cap t msg k) v u = send_cap-Follows ep v u t msg k
step-Follows ep (sends_timeout t msg now deadline) v u =
    send_timeout-Follows ep v u t msg now deadline
step-Follows ep (receives t) v u = recv-Follows ep v t
step-Follows ep (receives_cap t) v u = recv_cap-Follows ep v t
step-Follows ep (receives_timeout t now deadline) v u = recv_timeout-Follows ep v t now deadline
step-Follows ep polls v u = try_recv-Follows ep v

join {ℓ} :
    {A : Type ℓ} (a b c d e f g : List A)
    → a ++ b ≡ c ++ d
    → d ++ e ≡ f ++ g
    → a ++ (b ++ e) ≡ (c ++ f) ++ g
join a b c d e f g p q =
    sym (append_assoc a b e)
    ∙ ap (λ x. x ++ e) p
    ∙ append_assoc c d e
    ∙ ap (λ x. c ++ x) q
    ∙ sym (append_assoc c f g)

-- Over any schedule of passes that does not carry the tail counter to 2^32: the messages that were
-- in the ring, followed by those accepted, are those delivered, followed by those still in the ring;
-- and the ring stays valid.
pub run-fifo :
    (ep : Endpoint) (cs : List Call)
    → IsValid ep.ring
    → ep.ring.tail + length cs < u32_mod
    → let (last, ins, outs) = run ep cs in
      (contents ep.ring ++ ins ≡ outs ++ contents last.ring) × IsValid last.ring
unfolding run
run-fifo ep [] v u = (append-nil (contents ep.ring), v)
run-fifo ep (c ∷ cs) v u =
    let f = step-Follows ep c v (omega arith) in
    let (p, w) = run-fifo (step ep c).0 cs f.valid (omega (arith, f.slow)) in
    (
      join (contents ep.ring) (accepted_of (step ep c).1) (delivered_of (step ep c).1)
          (contents (step ep c).0.ring) (run (step ep c).0 cs).1 (run (step ep c).0 cs).2
          (contents (run (step ep c).0 cs).0.ring) f.kept p,
      w,
    )
