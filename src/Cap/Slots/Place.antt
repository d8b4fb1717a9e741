-- ===== src/Cap/Slots/Place.antt =====
-- What a handle of the slot list names before and after something is placed.
use pureshade_os.Base.{
  ℕ, zero, suc, ◌+◌, ◌≤◌, ◌<◌, ◌≡◌, refl, ap, inl, inr, Option, none, some, List, [], ◌∷◌, ◌++◌,
  arith, length, get_elem?, set, length-set, get_elem?-set_self, get_elem?-set_ne, Option-cases,
  length-append,
}
use native.Mathlib.Decide.{ℕ_discrete, dec_lt}
use pureshade_os.Cap.Types.{pack, index, generation, u32_mod, index-pack, generation-pack}
use pureshade_os.Cap.Slots.{
  Slot, next_generation, first_vacant, filled, place, read_slot, live, vacate,
}
use native.Mathlib.Decide.{ℕ_discrete, dec_lt}
use pureshade_os.Cap.Types.{pack, index, generation, u32_mod, index-pack, generation-pack}
use pureshade_os.Cap.Slots.{
  Slot, next_generation, first_vacant, filled, place, read_slot, live, vacate,
}

module _ {ℓ} {A : Type ℓ} where
  pub length-vacate : (ss : List (Slot A)) (i : ℕ) → length (vacate ss i) ≡ length ss
  unfolding vacate
  length-vacate [] i = refl
  length-vacate (s ∷ ss) zero = refl
  length-vacate (s ∷ ss) (suc i) = ap suc (length-vacate ss i)

  -- What is known of the slot that the search returns.
  first_vacant_found :
      (ss : List (Slot A)) (k i g : ℕ)
      → first_vacant ss k ≡ some (i, g)
      → (j : ℕ) × (i ≡ k + j)
        × (j < length ss)
        × (get_elem? ss j ≡ some (record { generation_of = g; content = none }))
  unfolding first_vacant
  first_vacant_found [] k i g e = cc
  first_vacant_found (s ∷ ss) k i g e = elim (Option-cases s.content) [
    | inl v ↦ (0, ground arith, omega arith, ground arith)
    | inr (a, o) ↦
        let (j, p, q, r) = first_vacant_found ss (k + 1) i g (rw (o, first_vacant) at e) in
        (suc j, omega arith, omega arith, r)
  ]

  pub get_elem?-append_left :
      (ss ts : List (Slot A)) (i : ℕ) → i < length ss → get_elem? (ss ++ ts) i ≡ get_elem? ss i
  get_elem?-append_left [] ts i h = absurd (omega arith)
  get_elem?-append_left (s ∷ ss) ts zero h = refl
  get_elem?-append_left (s ∷ ss) ts (suc i) h = get_elem?-append_left ss ts i (omega arith)

  get_elem?-append_end :
      (ss : List (Slot A)) (t : Slot A) → get_elem? (ss ++ t ∷ []) (length ss) ≡ some t
  get_elem?-append_end [] t = refl
  get_elem?-append_end (s ∷ ss) t = get_elem?-append_end ss t

  get_elem?_above : (ss : List (Slot A)) (i : ℕ) → length ss ≤ i → get_elem? ss i ≡ none
  get_elem?_above [] i h = refl
  get_elem?_above (s ∷ ss) zero h = absurd (omega arith)
  get_elem?_above (s ∷ ss) (suc i) h = get_elem?_above ss i (omega arith)

  -- The two ways in which `place` can end.
  pub data Placed (ss : List (Slot A)) (a : A) (r : List (Slot A) × ℕ) : Type ℓ where
    reused :
        (i g : ℕ)
        → i < length ss
        → get_elem? ss i ≡ some (record { generation_of = g; content = none })
        → r ≡ (set ss i (filled (next_generation g) a), pack i (next_generation g))
        → Placed ss a r
    appended :
        first_vacant ss 0 ≡ none → r ≡ (ss ++ filled 0 a ∷ [], pack (length ss) 0) → Placed ss a r

  pub place-Placed : (ss : List (Slot A)) (a : A) → Placed ss a (place ss a)
  unfolding place
  place-Placed ss a = elim (Option-cases (first_vacant ss 0)) [
    | inl e ↦ appended e (rw (e, place))
    | inr ((i, g), e) ↦
        let (j, p, q, r) = first_vacant_found ss 0 i g e in
        let d : i ≡ j = omega arith in reused i g (rw d q) (rw d r) (rw (e, place))
  ]

  pub length-place : (ss : List (Slot A)) (a : A) → length ss ≤ length (place ss a).0
  length-place ss a = go (place ss a) (place-Placed ss a)
    where
      go : (r : List (Slot A) × ℕ) → Placed ss a r → length ss ≤ length r.0
      go r (reused i g _ _ e) = rw e (omega (arith, length-set ss i (filled (next_generation g) a)))
      go r (appended _ e) = rw e (omega (arith, length-append ss (filled 0 a ∷ [])))

  Placed-self :
      (ss : List (Slot A)) (a : A) (r : List (Slot A) × ℕ)
      → length ss < u32_mod
      → Placed ss a r
      → live r.0 r.1 ≡ some a
  unfolding live
  Placed-self ss a r fits (reused i g h v e) =
      rw
        (
          e,
          index-pack i (next_generation g) (omega arith),
          generation-pack i (next_generation g),
          get_elem?-set_self ss i (filled (next_generation g) a) h,
        )
        (ground arith)
  Placed-self ss a r fits (appended _ e) =
      rw
        (
          e,
          index-pack (length ss) 0 fits,
          generation-pack (length ss) 0,
          get_elem?-append_end ss (filled 0 a),
        )
        refl

  -- The handle that `place` returns names what was placed.
  pub live-place_self :
      (ss : List (Slot A)) (a : A)
      → length ss < u32_mod
      → live (place ss a).0 (place ss a).1 ≡ some a
  live-place_self ss a fits = Placed-self ss a (place ss a) fits (place-Placed ss a)

  pub live_in_range :
      (ss : List (Slot A)) (h : ℕ) (b : A) → live ss h ≡ some b → index h < length ss
  unfolding live
  live_in_range ss h b e = elim (dec_lt (index h) (length ss)) [
    | yes p ↦ p
    | no p ↦ cc (e, get_elem?_above ss (index h) (omega arith))
  ]

  vacant_silent :
      (o : Option (Slot A)) (g k : ℕ) (b : A)
      → o ≡ some (record { generation_of = g; content = none })
      → read_slot o k ≡ some b
      → ⊥
  vacant_silent o g k b v l = ground arith

  Placed-other :
      (ss : List (Slot A)) (a : A) (r : List (Slot A) × ℕ) (h : ℕ) (b : A)
      → live ss h ≡ some b
      → Placed ss a r
      → live r.0 h ≡ some b
  unfolding live
  Placed-other ss a r h b l (reused i g k v e) = elim (ℕ_discrete i (index h)) [
    | yes p ↦ absurd (vacant_silent (get_elem? ss i) g (generation h) b v (rw p l))
    | no p ↦ rw (e, get_elem?-set_ne ss (filled (next_generation g) a) p) l
  ]
  Placed-other ss a r h b l (appended _ e) =
      rw (e, get_elem?-append_left ss (filled 0 a ∷ []) (index h) (live_in_range ss h b l)) l

  -- Every other handle names what it named.
  pub live-place_other :
      (ss : List (Slot A)) (a : A) (h : ℕ) (b : A)
      → live ss h ≡ some b
      → live (place ss a).0 h ≡ some b
  live-place_other ss a h b l = Placed-other ss a (place ss a) h b l (place-Placed ss a)

  Placed-fresh :
      (ss : List (Slot A)) (a : A) (r : List (Slot A) × ℕ)
      → length ss < u32_mod
      → Placed ss a r
      → live ss r.1 ≡ none
  unfolding live
  Placed-fresh ss a r fits (reused i g h v e) =
      rw (e, index-pack i (next_generation g) (omega arith), v) (ground arith)
  Placed-fresh ss a r fits (appended _ e) =
      rw (e, index-pack (length ss) 0 fits, get_elem?_above ss (length ss) (omega arith)) refl

  -- The handle is new: it named nothing before.
  pub live-place_fresh :
      (ss : List (Slot A)) (a : A) → length ss < u32_mod → live ss (place ss a).1 ≡ none
  live-place_fresh ss a fits = Placed-fresh ss a (place ss a) fits (place-Placed ss a)

  pub get_elem?-vacate_self :
      (ss : List (Slot A)) (i g : ℕ) → read_slot (get_elem? (vacate ss i) i) g ≡ none
  unfolding vacate
  get_elem?-vacate_self [] i g = refl
  get_elem?-vacate_self (s ∷ ss) zero g = ground arith
  get_elem?-vacate_self (s ∷ ss) (suc i) g = get_elem?-vacate_self ss i g
