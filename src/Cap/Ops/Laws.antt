-- ===== src/Cap/Ops/Laws.antt =====
-- What grant, inherit and revoke do on every branch; authority only shrinks.
use pureshade_os.Base.{
  ℕ, ◌<◌, ◌≡◌, refl, ap, ◌≢◌, ◌⊎◌, ◌∷◌, ◌++◌, [], true, false, inl, inr, length, Bool-cases,
}
use pureshade_os.Base.Result.{Result, Result-cases, ok, err}
use pureshade_os.Cap.Rights
use pureshade_os.Cap.Rights.{CapRights, has, has-intersect, has-intersect_mask}
use pureshade_os.Cap.Types.{CapError, no_grant, no_revoke, Capability, CapHandle, u32_mod}
use pureshade_os.Cap.Table.{CapabilityTable, insert, get, take}
use pureshade_os.Cap.Table.Laws.{IsDead, get-insert, get-push_child, get-take}
use pureshade_os.Cap.Ops.{Granted, derive, cap_grant, cap_inherit, cap_revoke}

err_eq : {r : Result CapError CapHandle} {d e : CapError} → r ≡ err d → r ≡ err e → d ≡ e
err_eq p q = cc

ok_eq : {r : Result CapError CapHandle} {d e : CapHandle} → r ≡ ok d → r ≡ ok e → d ≡ e
ok_eq p q = cc

ok_ne_err :
    {r : Result CapError CapHandle} {h : CapHandle} {e : CapError} → r ≡ ok h → r ≡ err e → ⊥
ok_ne_err p q = cc

-- What a grant that succeeds has done.
pub record Grants (next : ℕ) (from : CapabilityTable) (h : CapHandle) (task : ℕ)
    (to : CapabilityTable) (mask : CapRights) (cap : Capability) (child : CapHandle) (g : Granted)
    : Type 0 where
  pub answered : g.answer ≡ ok child
  pub received : get g.to child ≡ ok (derive next cap mask)
  pub fresh : IsDead to child
  pub others_to : (k : CapHandle) (c : Capability) → get to k ≡ ok c → get g.to k ≡ ok c
  pub recorded : get g.from h ≡ ok (record cap { children = cap.children ++ (task, child) ∷ [] })
  pub others_from : (k : CapHandle) → k ≢ h → get g.from k ≡ get from k

-- A grant of a live capability that carries the Grant right succeeds: the receiver finds the derived
-- capability under a handle that was dead before, the giver finds it recorded as a child, and every
-- other capability of both tables is found as before.
pub cap_grant_ok :
    (next : ℕ) (from : CapabilityTable) (h : CapHandle) (task : ℕ) (to : CapabilityTable)
    (mask : CapRights) (cap : Capability)
    → length to < u32_mod
    → get from h ≡ ok cap
    → has cap.rights Rights.grant ≡ true
    → (child : CapHandle) × Grants next from h task to mask cap child
        (cap_grant next from h task to mask)
unfolding cap_grant
cap_grant_ok next from h task to mask cap fits e r =
    let d : Capability = derive next cap mask in
    let child : CapHandle = (insert to d).1 in
    let (u, p, q, o) = get-push_child from h cap (task, child) e in
    let (found, fresh, kept) = get-insert to d fits in
    (
      child,
      rw (e, cap_grant, r, p)
          (record {
            answered = refl;
            received = found;
            fresh = fresh;
            others_to = kept;
            recorded = q;
            others_from = o;
          }),
    )

cap_grant_dead :
    (next : ℕ) (from : CapabilityTable) (h : CapHandle) (task : ℕ) (to : CapabilityTable)
    (mask : CapRights) (e : CapError)
    → get from h ≡ err e
    → cap_grant next from h task to mask
      ≡ record { next_id = next; from = from; to = to; answer = err e }
unfolding cap_grant
cap_grant_dead next from h task to mask e p = rw (p, cap_grant) refl

cap_grant_ungranted :
    (next : ℕ) (from : CapabilityTable) (h : CapHandle) (task : ℕ) (to : CapabilityTable)
    (mask : CapRights) (cap : Capability)
    → get from h ≡ ok cap
    → has cap.rights Rights.grant ≡ false
    → cap_grant next from h task to mask
      ≡ record { next_id = next; from = from; to = to; answer = err no_grant }
unfolding cap_grant
cap_grant_ungranted next from h task to mask cap p r = rw (p, cap_grant, r) refl

-- Every grant that answers an error has left the counter and both tables as they were; the error is
-- the dead handle's, or `NoGrant` at a capability without that right.
pub cap_grant_err :
    (next : ℕ) (from : CapabilityTable) (h : CapHandle) (task : ℕ) (to : CapabilityTable)
    (mask : CapRights) (e : CapError)
    → length to < u32_mod
    → (cap_grant next from h task to mask).answer ≡ err e
    → (cap_grant next from h task to mask
        ≡ record { next_id = next; from = from; to = to; answer = err e })
      × ((get from h ≡ err e)
          ⊎ ((cap : Capability) × (get from h ≡ ok cap)
              × (has cap.rights Rights.grant ≡ false)
              × (e ≡ no_grant)))
cap_grant_err next from h task to mask e fits a = elim (Result-cases (get from h)) [
  | inr (d, p) ↦
      let q = cap_grant_dead next from h task to mask d p in
      let same : d ≡ e = err_eq (ap (λ g. g.answer) q) a in rw (← same) (q, inl p)
  | inl (cap, p) ↦ elim (Bool-cases (has cap.rights Rights.grant)) [
    | inl r ↦
        let (child, g) = cap_grant_ok next from h task to mask cap fits p r in
        absurd (ok_ne_err g.answered a)
    | inr r ↦
        let q = cap_grant_ungranted next from h task to mask cap p r in
        let same : no_grant ≡ e = err_eq (ap (λ g. g.answer) q) a in
        rw (← same) (q, inr (cap, p, r, refl))
  ]
]

-- A capability that a grant hands out carries no right that the giver's lacks, nor one outside the
-- mask, and names the same object.
pub cap_grant-shrinks :
    (next : ℕ) (from : CapabilityTable) (h : CapHandle) (task : ℕ) (to : CapabilityTable)
    (mask : CapRights) (cap : Capability) (child : CapHandle)
    → length to < u32_mod
    → get from h ≡ ok cap
    → (cap_grant next from h task to mask).answer ≡ ok child
    → (given : Capability) × (get (cap_grant next from h task to mask).to child ≡ ok given)
      × (has cap.rights given.rights ≡ true)
      × (has mask given.rights ≡ true)
      × (given.object ≡ cap.object)
      × (given.kind ≡ cap.kind)
cap_grant-shrinks next from h task to mask cap child fits p a =
    elim (Bool-cases (has cap.rights Rights.grant)) [
      | inl r ↦
          let (k, g) = cap_grant_ok next from h task to mask cap fits p r in
          let same : k ≡ child = ok_eq g.answered a in
          (
            derive next cap mask,
            rw (← same) g.received,
            has-intersect cap.rights mask,
            has-intersect_mask cap.rights mask,
            refl,
            refl,
          )
      | inr r ↦
          absurd (
            ok_ne_err a (ap (λ g. g.answer) (cap_grant_ungranted next from h task to mask cap p r)))
    ]

-- An inherited capability keeps kind, rights, object and parent, and has no children of its own.
pub cap_inherit_ok :
    (next : ℕ) (from : CapabilityTable) (h : CapHandle) (to : CapabilityTable) (src : Capability)
    → length to < u32_mod
    → get from h ≡ ok src
    → let (n, t, answer) = cap_inherit next from h to in
      (child : CapHandle) × (answer ≡ ok child)
      × IsDead to child
      × (get t child ≡ ok (record src { id = next; children = [] }))
      × ((k : CapHandle) (c : Capability) → get to k ≡ ok c → get t k ≡ ok c)
unfolding cap_inherit
cap_inherit_ok next from h to src fits e =
    let d : Capability = record src { id = next; children = [] } in
    let (found, fresh, kept) = get-insert to d fits in
    rw (e, cap_inherit) ((insert to d).1, refl, fresh, found, kept)

cap_revoke_taken :
    (t : CapabilityTable) (h : CapHandle) (cap : Capability)
    → get t h ≡ ok cap
    → has cap.rights Rights.revoke ≡ true
    → cap_revoke t h ≡ ((take t h).0, ok tt)
unfolding cap_revoke
cap_revoke_taken t h cap p r = rw (p, cap_revoke, r, (get-take t h cap p).0) refl

-- The three ways in which `cap_revoke` answers.
abbrev pub RevokeAnswer : CapabilityTable → CapHandle → Type 0
RevokeAnswer t h =
    ((cap : Capability) × (get t h ≡ ok cap)
      × (has cap.rights Rights.revoke ≡ true)
      × ((cap_revoke t h).1 ≡ ok tt)
      × IsDead (cap_revoke t h).0 h
      × ((k : CapHandle) → k ≢ h → get (cap_revoke t h).0 k ≡ get t k))
    ⊎ ((cap : Capability) × (get t h ≡ ok cap)
        × (has cap.rights Rights.revoke ≡ false)
        × (cap_revoke t h ≡ (t, err no_revoke)))
    ⊎ ((e : CapError) × (get t h ≡ err e) × (cap_revoke t h ≡ (t, err e)))

-- `cap_revoke` kills the handle of a capability that carries the Revoke right and no other handle;
-- on every other input it changes nothing and says why.
pub cap_revoke_lem : (t : CapabilityTable) (h : CapHandle) → RevokeAnswer t h
unfolding cap_revoke
cap_revoke_lem t h = elim (Result-cases (get t h)) [
  | inr (e, p) ↦ inr (inr (e, p, rw (p, cap_revoke) refl))
  | inl (cap, p) ↦ elim (Bool-cases (has cap.rights Rights.revoke)) [
    | inl r ↦
        let (a, dead, kept) = get-take t h cap p in
        let q = cap_revoke_taken t h cap p r in
        inl (cap, p, r, ap (λ x. x.1) q, rw q dead, rw q kept)
    | inr r ↦ inr (inl (cap, p, r, rw (p, cap_revoke, r) refl))
  ]
]
