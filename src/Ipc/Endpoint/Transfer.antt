-- ===== src/Ipc/Endpoint/Transfer.antt =====
-- Capabilities sent along with messages: one place per endpoint holds the capability in flight.
use pureshade_os.Base.{
  ℕ, ◌+◌, ◌<◌, ◌≡◌, refl, ap, ◌∙◌, inl, inr, Option, none, some, List, [], ◌∷◌, ◌++◌, arith, length,
  take-length,
}
use pureshade_os.Cap.Types.{Capability}
use pureshade_os.Ipc.Ring.{Ring, msg_size, u32_mod, ring_capacity, push, pop}
use pureshade_os.Ipc.Ring.Refine.{IsValid, contents, padded, push_refines, pop_refines}
use pureshade_os.Ipc.Endpoint.{Endpoint, TaskId, Pass, through, send, send_cap, recv_cap}

-- A valid ring with room before the counters wrap.
abbrev HasRoom : Ring → ℕ → Type 0
HasRoom r n = IsValid r × (r.tail + n < u32_mod) × (length (contents r) < ring_capacity)

pushes :
    (r : Ring) (n : ℕ) (msg : List ℕ)
    → HasRoom r (n + 1)
    → (s : Ring) × (push r msg ≡ some s)
      × IsValid s
      × (s.tail + n < u32_mod)
      × (contents s ≡ contents r ++ padded msg ∷ [])
pushes r n msg (v, u, h) = elim (push_refines r msg v (omega arith)) [
  | inl (_, (s, e, w, c, b)) ↦ (s, e, w, omega arith, c)
  | inr (f, _) ↦ absurd (omega arith)
]

nil_cons : {m : List ℕ} {ms ns : List (List ℕ)} → ns ≡ m ∷ ms → ns ≡ [] → ⊥
nil_cons p q = cc

head_of : {m k : List ℕ} {ms ns l : List (List ℕ)} → l ≡ m ∷ ms → l ≡ k ∷ ns → m ≡ k
head_of p q = cc

tail_of : {m k : List ℕ} {ms ns l : List (List ℕ)} → l ≡ m ∷ ms → l ≡ k ∷ ns → ms ≡ ns
tail_of p q = cc

pops :
    (r : Ring) (m : List ℕ) (ms : List (List ℕ))
    → IsValid r
    → contents r ≡ m ∷ ms
    → (s : Ring) × (pop r msg_size ≡ some (m, s)) × IsValid s × (contents s ≡ ms)
pops r m ms v c = elim (pop_refines r msg_size v) [
  | inr (d, _) ↦ absurd (nil_cons c d)
  | inl (k, ns, d, (s, e, w, f, t, b)) ↦
      (s, e ∙ ap (λ x. some (x, s)) (take-length msg_size k b ∙ head_of d c), w, f ∙ tail_of d c)
]

-- What the next `recv_cap` by the task returns.
abbrev pub received : Endpoint → TaskId → Pass (List ℕ × Option Capability)
received ep t = (recv_cap ep t msg_size).1

-- and what the one after it returns.
abbrev pub received_next : Endpoint → TaskId → Pass (List ℕ × Option Capability)
received_next ep t = received (recv_cap ep t msg_size).0 t

recv_cap_lem :
    (ep : Endpoint) (t : TaskId) (m : List ℕ) (ms : List (List ℕ))
    → IsValid ep.ring
    → contents ep.ring ≡ m ∷ ms
    → (s : Ring) × IsValid s
      × (contents s ≡ ms)
      × (recv_cap ep t msg_size ≡ (
        record ep { ring = s; pending_cap = none; sender_waiting = none },
        through (m, ep.pending_cap) ep.sender_waiting,
      ))
unfolding recv_cap
recv_cap_lem ep t m ms v c =
    let (s, e, w, f) = pops ep.ring m ms v c in (s, w, f, rw (e, recv_cap) refl)

send_cap_lem :
    (ep : Endpoint) (t : TaskId) (msg : List ℕ) (k : Capability) (n : ℕ)
    → HasRoom ep.ring (n + 1)
    → (s : Ring) × IsValid s
      × (s.tail + n < u32_mod)
      × (contents s ≡ contents ep.ring ++ padded msg ∷ [])
      × ((send_cap ep t msg k).0
          ≡ record ep { ring = s; pending_cap = some k; receiver_waiting = none })
unfolding send_cap
send_cap_lem ep t msg k n h =
    let (s, e, w, b, c) = pushes ep.ring n msg h in (s, w, b, c, rw (e, send_cap) refl)

send_lem :
    (ep : Endpoint) (t : TaskId) (msg : List ℕ) (n : ℕ)
    → HasRoom ep.ring (n + 1)
    → (s : Ring) × IsValid s
      × (s.tail + n < u32_mod)
      × (contents s ≡ contents ep.ring ++ padded msg ∷ [])
      × ((send ep t msg).0 ≡ record ep { ring = s; receiver_waiting = none })
unfolding send
send_lem ep t msg n h =
    let (s, e, w, b, c) = pushes ep.ring n msg h in (s, w, b, c, rw (e, send) refl)

-- On an empty ring a capability sent with a message arrives with that message, once.
pub received-send_cap :
    (ep : Endpoint) (a t : TaskId) (msg : List ℕ) (k : Capability)
    → IsValid ep.ring
    → ep.ring.tail + 1 < u32_mod
    → contents ep.ring ≡ []
    → let sent = (send_cap ep a msg k).0 in
      (received sent t ≡ through (padded msg, some k) ep.sender_waiting)
      × ((recv_cap sent t msg_size).0.pending_cap ≡ none)
received-send_cap ep a t msg k v u c =
    let (s, w, _, d, e) = send_cap_lem ep a msg k 0 (v, omega arith, rw c (omega arith)) in
    let held : Endpoint = record ep { ring = s; pending_cap = some k; receiver_waiting = none } in
    let (_, _, _, r) =
      recv_cap_lem held t (padded msg) [] w (d ∙ ap (λ x. x ++ padded msg ∷ []) c) in
    (
      ap (λ x. received x t) e ∙ ap (λ x. x.1) r,
      ap (λ x. (recv_cap x t msg_size).0.pending_cap) e ∙ ap (λ x. x.0.pending_cap) r,
    )

-- What two receives in a row return from an endpoint that holds two messages.
two_receives :
    (ep : Endpoint) (t : TaskId) (m n : List ℕ)
    → IsValid ep.ring
    → contents ep.ring ≡ m ∷ n ∷ []
    → (received ep t ≡ through (m, ep.pending_cap) ep.sender_waiting)
      × (received_next ep t ≡ through (n, none) none)
two_receives ep t m n v c =
    let (s, w, d, e) = recv_cap_lem ep t m (n ∷ []) v c in
    let rest : Endpoint = record ep { ring = s; pending_cap = none; sender_waiting = none } in
    let (_, _, _, f) = recv_cap_lem rest t n [] w d in
    (ap (λ x. x.1) e, ap (λ x. received x.0 t) e ∙ ap (λ x. x.1) f)

-- A capability sent with the second message arrives with the first, which carried none, and the
-- second arrives without it.
pub send_cap_misdelivered :
    (ep : Endpoint) (a b t : TaskId) (first second : List ℕ) (k : Capability)
    → IsValid ep.ring
    → ep.ring.tail + 2 < u32_mod
    → contents ep.ring ≡ []
    → let sent = (send_cap (send ep a first).0 b second k).0 in
      (received sent t ≡ through (padded first, some k) ep.sender_waiting)
      × (received_next sent t ≡ through (padded second, none) none)
send_cap_misdelivered ep a b t first second k v u c =
    let (s, w, x, d, e) = send_lem ep a first 1 (v, omega arith, rw c (omega arith)) in
    let d' : contents s ≡ padded first ∷ [] = d ∙ ap (λ x. x ++ padded first ∷ []) c in
    let one : Endpoint = record ep { ring = s; receiver_waiting = none } in
    let (s', w', _, f, e') = send_cap_lem one b second k 0 (w, x, rw d' (omega arith)) in
    rw (e, e')
      (two_receives (record one { ring = s'; pending_cap = some k; receiver_waiting = none }) t
        (padded first) (padded second) w' (f ∙ ap (λ x. x ++ padded second ∷ []) d'))

-- Of two capabilities sent before a receive the first is lost: the first message arrives with the
-- second capability, and the second message with none.
pub send_cap_loses :
    (ep : Endpoint) (a b t : TaskId) (first second : List ℕ) (j k : Capability)
    → IsValid ep.ring
    → ep.ring.tail + 2 < u32_mod
    → contents ep.ring ≡ []
    → let sent = (send_cap (send_cap ep a first j).0 b second k).0 in
      (received sent t ≡ through (padded first, some k) ep.sender_waiting)
      × (received_next sent t ≡ through (padded second, none) none)
send_cap_loses ep a b t first second j k v u c =
    let (s, w, x, d, e) = send_cap_lem ep a first j 1 (v, omega arith, rw c (omega arith)) in
    let d' : contents s ≡ padded first ∷ [] = d ∙ ap (λ x. x ++ padded first ∷ []) c in
    let one : Endpoint = record ep { ring = s; pending_cap = some j; receiver_waiting = none } in
    let (s', w', _, f, e') = send_cap_lem one b second k 0 (w, x, rw d' (omega arith)) in
    rw (e, e')
      (two_receives (record one { ring = s'; pending_cap = some k; receiver_waiting = none }) t
        (padded first) (padded second) w' (f ∙ ap (λ x. x ++ padded second ∷ []) d'))
