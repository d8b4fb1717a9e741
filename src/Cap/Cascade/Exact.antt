-- ===== src/Cap/Cascade/Exact.antt =====
-- Cascading revocation removes the capability and its descendants, and nothing else; fuel above the
-- number of capabilities is enough for it.
use pureshade_os.Base.{
  ℕ, zero, suc, ◌≤◌, ◌<◌, ◌≡◌, refl, ◌⊎◌, inl, inr, Option, some, List, [], ◌∷◌, arith, true, false,
  Bool-cases,
}
use pureshade_os.Base.Result.{Result-cases, ok, err}
use pureshade_os.Cap.Rights
use pureshade_os.Cap.Rights.{has}
use pureshade_os.Cap.Types.{CapError, no_revoke, Capability}
use pureshade_os.Cap.Cascade.{
  Store, Place, get_at, take_at, for_each, cascade_force, cap_cascade_revoke,
}
use pureshade_os.Cap.Cascade.Laws.{IsGone, count_caps, count-take_at}
use pureshade_os.Cap.Cascade.Cuts.{
  Reaches, here, next, Cuts, Cuts-nil, Cuts-cons, Cuts-gone, Cuts-take,
}

-- The call ends, and cuts what it is asked to.
abbrev Ended : Store → List Place → Option Store → Type 0
Ended s ps r = (t : Store) × (r ≡ some t) × Cuts s ps t

for_each-Ended :
    (n : ℕ) (visit : Store → Place → Option Store)
    → ((s : Store) (p : Place) → count_caps s ≤ n → Ended s (p ∷ []) (visit s p))
    → (s : Store) (ps : List Place) → count_caps s ≤ n
    → Ended s ps (for_each visit s ps)
unfolding for_each
for_each-Ended n visit h s [] b = (s, refl, Cuts-nil s)
for_each-Ended n visit h s (p ∷ ps) b =
    let (t, e, a) = h s p b in
    let (u, f, c) = for_each-Ended n visit h t ps (omega (arith, a.smaller)) in
    (u, rw (e, for_each) f, Cuts-cons s t u p ps a c)

cascade_force-Ended :
    (fuel : ℕ) (s : Store) (p : Place)
    → count_caps s < fuel
    → Ended s (p ∷ []) (cascade_force fuel s p)
unfolding cascade_force
cascade_force-Ended zero s p b = absurd (omega arith)
cascade_force-Ended (suc fuel) s p b = elim (Result-cases (get_at s p)) [
  | inr (d, e) ↦ (s, rw (e, cascade_force) refl, Cuts-gone s p (d, e))
  | inl (c, e) ↦
      let (t, f, a) =
        for_each-Ended (count_caps (take_at s p)) (cascade_force fuel)
          (λ u q k. cascade_force-Ended fuel u q (omega (arith, count-take_at s p c e)))
          (take_at s p) c.children (omega arith) in
      (t, rw (e, cascade_force) f, Cuts-take s t p c e a)
]

reached-IsGone : (s t : Store) (p q : Place) → Cuts s (p ∷ []) t → Reaches s p q → IsGone t q
reached-IsGone s t p q a here = a.gone p (inl refl)
reached-IsGone s t p q a (next {q = m} {r = r} c w e k) =
    a.closed m r c e (reached-IsGone s t p m a w) k

-- What a cascade that was not refused leaves: the target and its descendants are gone, every other
-- capability is found as before, and nothing new is found.
pub record Revoked (s : Store) (p : Place) (t : Store) : Type 0 where
  pub descendants : (q : Place) → Reaches s p q → IsGone t q
  pub others :
      (q : Place) (c : Capability) → get_at s q ≡ ok c → ¬ Reaches s p q → get_at t q ≡ ok c
  pub nothing_new : (q : Place) (c : Capability) → get_at t q ≡ ok c → get_at s q ≡ ok c

Cuts-Revoked : (s t : Store) (p : Place) → Cuts s (p ∷ []) t → Revoked s p t
Cuts-Revoked s t p a = record {
  descendants = λ q w. reached-IsGone s t p q a w;
  others = others;
  nothing_new = a.shrinks;
}
  where
    others : (q : Place) (c : Capability) → get_at s q ≡ ok c → ¬ Reaches s p q → get_at t q ≡ ok c
    others q c e n = elim (a.only q c e) [
      | inl k ↦ k
      | inr (r, inl m, w) ↦ absurd (n (rw (← m) w))
      | inr (r, inr m, w) ↦ absurd m
    ]

-- The three ways in which `cap_cascade_revoke` answers.
abbrev pub RevokeOutcome : ℕ → Store → Place → Type 0
RevokeOutcome fuel s p =
    ((c : Capability) × (get_at s p ≡ ok c)
      × (has c.rights Rights.revoke ≡ true)
      × ((t : Store) × (cap_cascade_revoke fuel s p ≡ some (t, ok tt)) × Revoked s p t))
    ⊎ ((c : Capability) × (get_at s p ≡ ok c)
        × (has c.rights Rights.revoke ≡ false)
        × (cap_cascade_revoke fuel s p ≡ some (s, err no_revoke)))
    ⊎ ((e : CapError) × (get_at s p ≡ err e) × (cap_cascade_revoke fuel s p ≡ some (s, err e)))

-- With fuel above the number of capabilities in the store, `cap_cascade_revoke` answers on every
-- input. At a live capability with the Revoke right it succeeds: the capability and all that its
-- recorded children lead to are gone, every other capability is found as before, and nothing new
-- appears. Without the right, or at a dead handle, it changes nothing and answers the error.
pub cap_cascade_revoke_lem :
    (fuel : ℕ) (s : Store) (p : Place) → count_caps s < fuel → RevokeOutcome fuel s p
unfolding cap_cascade_revoke
cap_cascade_revoke_lem fuel s p b = elim (Result-cases (get_at s p)) [
  | inr (d, e) ↦ inr (inr (d, e, rw (e, cap_cascade_revoke) refl))
  | inl (c, e) ↦ elim (Bool-cases (has c.rights Rights.revoke)) [
    | inr r ↦ inr (inl (c, e, r, rw (e, cap_cascade_revoke, r) refl))
    | inl r ↦
        let (t, f, a) = cascade_force-Ended fuel s p b in
        inl (c, e, r, (t, rw (e, cap_cascade_revoke, r, f) refl, Cuts-Revoked s t p a))
  ]
]
