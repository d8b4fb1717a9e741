-- ===== src/Cap/Cascade/Cuts.antt =====
-- What it is for a later store to have lost certain places with all that they reach, and how such
-- losses compose.
use native.Mathlib.Decide.{ℕ_discrete}
use pureshade_os.Base.{◌≤◌, ◌≡◌, refl, ap, ◌≢◌, ◌⊎◌, inl, inr, List, [], ◌∷◌, arith}
use pureshade_os.Base.Result.{Result, Result-cases, ok, err}
use pureshade_os.Cap.Types.{CapError, Capability}
use pureshade_os.Cap.Cascade.{Store, Place, get_at, take_at}
use pureshade_os.Cap.Cascade.Laws.{
  IsGone, get_at-take_at_self, get_at-take_at_ne, count_caps, count-take_at,
}

-- A place among the children that a capability records.
abbrev pub Among : Place → List Place → Type 0
Among p [] = ⊥
Among p (x ∷ xs) = (p ≡ x) ⊎ Among p xs

-- The places that the recorded children lead to.
pub data Reaches (s : Store) (p : Place) : Place → Type 0 where
  here : Reaches s p p
  next :
      {q r : Place} (c : Capability)
      → Reaches s p q
      → get_at s q ≡ ok c
      → Among r c.children
      → Reaches s p r

-- What a later store finds, the earlier one found.
abbrev pub Shrinks : Store → Store → Type 0
Shrinks s t = (q : Place) (c : Capability) → get_at t q ≡ ok c → get_at s q ≡ ok c

clash : {r : Result CapError Capability} {c : Capability} {e : CapError} → r ≡ ok c → r ≡ err e → ⊥
clash p q = cc

not_gone : (t : Store) (p : Place) (c : Capability) → get_at t p ≡ ok c → IsGone t p → ⊥
not_gone t p c e (d, g) = clash e g

same_ok : {r : Result CapError Capability} {c d : Capability} → r ≡ ok c → r ≡ ok d → c ≡ d
same_ok p q = cc

IsGone-later : (s t : Store) (p : Place) → Shrinks s t → IsGone s p → IsGone t p
IsGone-later s t p sh (e, g) = elim (Result-cases (get_at t p)) [
  | inl (c, f) ↦ absurd (clash (sh p c f) g)
  | inr d ↦ d
]

Reaches-earlier : {s t : Store} {p q : Place} → Shrinks s t → Reaches t p q → Reaches s p q
Reaches-earlier sh here = here
Reaches-earlier sh (next {q = m} c r e a) = next c (Reaches-earlier sh r) (sh m c e) a

Reaches-from_child :
    {s : Store} {p r q : Place} (c : Capability)
    → get_at s p ≡ ok c
    → Among r c.children
    → Reaches s r q
    → Reaches s p q
Reaches-from_child c e a here = next c here e a
Reaches-from_child c e a (next d w f b) = next d (Reaches-from_child c e a w) f b

-- Every capability that went has its children gone with it.
abbrev pub Closed : Store → Store → Type 0
Closed s t =
    (q r : Place) (c : Capability)
    → get_at s q ≡ ok c
    → IsGone t q
    → Among r c.children
    → IsGone t r

-- From `s` to `t` the places of `ps` went, with all that they reach and nothing else.
pub record Cuts (s : Store) (ps : List Place) (t : Store) : Type 0 where
  pub shrinks : Shrinks s t
  pub gone : (p : Place) → Among p ps → IsGone t p
  pub closed : Closed s t
  pub only :
      (q : Place) (c : Capability)
      → get_at s q ≡ ok c
      → (get_at t q ≡ ok c) ⊎ ((p : Place) × Among p ps × Reaches s p q)
  pub smaller : count_caps t ≤ count_caps s

pub Cuts-nil : (s : Store) → Cuts s [] s
Cuts-nil s = record {
  shrinks = λ q c e. e;
  gone = λ p a. absurd a;
  closed = λ q r c e (d, g) a. absurd (clash e g);
  only = λ q c e. inl e;
  smaller = omega arith;
}

pub Cuts-cons :
    (s t u : Store) (p : Place) (ps : List Place)
    → Cuts s (p ∷ []) t
    → Cuts t ps u
    → Cuts s (p ∷ ps) u
Cuts-cons s t u p ps a b = record {
  shrinks = λ q c e. a.shrinks q c (b.shrinks q c e);
  gone = gone;
  closed = closed;
  only = only;
  smaller = omega (arith, a.smaller, b.smaller);
}
  where
    gone : (q : Place) → Among q (p ∷ ps) → IsGone u q
    gone q (inl e) = IsGone-later t u q b.shrinks (a.gone q (inl e))
    gone q (inr m) = b.gone q m

    closed : Closed s u
    closed q r c e g m = elim (Result-cases (get_at t q)) [
      | inl (d, f) ↦ b.closed q r c (rw (← same_ok (a.shrinks q d f) e) f) g m
      | inr g' ↦ IsGone-later t u r b.shrinks (a.closed q r c e g' m)
    ]

    only :
        (q : Place) (c : Capability)
        → get_at s q ≡ ok c
        → (get_at u q ≡ ok c) ⊎ ((r : Place) × Among r (p ∷ ps) × Reaches s r q)
    only q c e = elim (a.only q c e) [
      | inl f ↦ elim (b.only q c f) [
        | inl k ↦ inl k
        | inr (r, m, w) ↦ inr (r, inr m, Reaches-earlier a.shrinks w)
      ]
      | inr (r, inl m, w) ↦ inr (r, inl m, w)
      | inr (r, inr m, w) ↦ absurd m
    ]

dec_place : (p q : Place) → (p ≡ q) ⊎ (p ≢ q)
dec_place (i, h) (j, k) = elim (ℕ_discrete i j) [
  | no d ↦ inr (λ e. d (ap (λ x. x.0) e))
  | yes a ↦ elim (ℕ_discrete h k) [
    | no d ↦ inr (λ e. d (ap (λ x. x.1) e))
    | yes b ↦ inl (cc (a, b))
  ]
]

IsGone-one : (t : Store) (p q : Place) → IsGone t p → Among q (p ∷ []) → IsGone t q
IsGone-one t p q g (inl e) = rw e g
IsGone-one t p q g (inr m) = absurd m

-- The target is gone already: nothing happens.
pub Cuts-gone : (s : Store) (p : Place) → IsGone s p → Cuts s (p ∷ []) s
Cuts-gone s p g = record {
  shrinks = λ q c e. e;
  gone = λ q. IsGone-one s p q g;
  closed = λ q r c e (d, f) a. absurd (clash e f);
  only = λ q c e. inl e;
  smaller = omega arith;
}

-- The target goes first, then its children with all that they reach.
pub Cuts-take :
    (s t : Store) (p : Place) (c : Capability)
    → get_at s p ≡ ok c
    → Cuts (take_at s p) c.children t
    → Cuts s (p ∷ []) t
Cuts-take s t p c e b = record {
  shrinks = λ q d f. first q d (b.shrinks q d f);
  gone = λ q. IsGone-one t p q dead;
  closed = closed;
  only = only;
  smaller = omega (arith, b.smaller, count-take_at s p c e);
}
  where
    first : Shrinks s (take_at s p)
    first q d f = elim (dec_place q p) [
      | inl m ↦ absurd (not_gone (take_at s p) q d f (rw m (get_at-take_at_self s p c e)))
      | inr m ↦ rw (← get_at-take_at_ne s p q c e m) f
    ]

    dead : IsGone t p
    dead = IsGone-later (take_at s p) t p b.shrinks (get_at-take_at_self s p c e)

    closed : Closed s t
    closed q r d f g m = elim (dec_place q p) [
      | inl k ↦ let same : c ≡ d = same_ok {r = get_at s q} (rw k e) f in b.gone r (rw same m)
      | inr k ↦ b.closed q r d (rw (get_at-take_at_ne s p q c e k) f) g m
    ]

    only :
        (q : Place) (d : Capability)
        → get_at s q ≡ ok d
        → (get_at t q ≡ ok d) ⊎ ((r : Place) × Among r (p ∷ []) × Reaches s r q)
    only q d f = elim (dec_place q p) [
      | inl k ↦ inr (p, inl refl, rw k here)
      | inr k ↦ elim (b.only q d (rw (get_at-take_at_ne s p q c e k) f)) [
        | inl kept ↦ inl kept
        | inr (r, m, w) ↦ inr (p, inl refl, Reaches-from_child c e m (Reaches-earlier first w))
      ]
    ]
