-- ===== src/Cap/Slots/Laws.antt =====
-- What a handle of the slot vector names before and after a slot is filled or vacated.
use pureshade_os.Base.{
  ℕ, zero, suc, ◌<◌, ◌≡◌, refl, ◌≢◌, ap, Option, none, some, List, [], ◌∷◌, arith, length,
  get_elem?, set, get_elem?-set_self, get_elem?-set_ne,
}
use native.Mathlib.Decide.{ℕ_discrete}
use pureshade_os.Cap.Types.{index, generation, u32_mod, handle_ext}
use pureshade_os.Cap.Slots.{Slot, next_generation, filled, place, read_slot, live, vacate}
use pureshade_os.Cap.Slots.Place.{
  reused, appended, Placed, get_elem?-append_left, get_elem?-vacate_self, live_in_range,
  place-Placed,
}

module _ {ℓ} {A : Type ℓ} where
  pub get_elem?-vacate_ne :
      (ss : List (Slot A)) (i j : ℕ) → i ≢ j → get_elem? (vacate ss i) j ≡ get_elem? ss j
  unfolding vacate
  get_elem?-vacate_ne [] i j d = refl
  get_elem?-vacate_ne (s ∷ ss) zero zero d = absurd (d refl)
  get_elem?-vacate_ne (s ∷ ss) zero (suc j) d = refl
  get_elem?-vacate_ne (s ∷ ss) (suc i) zero d = refl
  get_elem?-vacate_ne (s ∷ ss) (suc i) (suc j) d = get_elem?-vacate_ne ss i j (λ e. d (ap suc e))

  -- No handle of a vacated slot names anything.
  pub live-vacate_same :
      (ss : List (Slot A)) (h k : ℕ) → index h ≡ index k → live (vacate ss (index h)) k ≡ none
  unfolding live
  live-vacate_same ss h k e = rw (← e) (get_elem?-vacate_self ss (index h) (generation k))

  live_generation :
      (o : Option (Slot A)) (g k : ℕ) (a b : A)
      → read_slot o g ≡ some a
      → read_slot o k ≡ some b
      → g ≡ k
  live_generation o g k a b p q = ground arith

  -- Two handles of one slot cannot both name something.
  pub live_unique :
      (ss : List (Slot A)) (h k : ℕ) (a b : A)
      → live ss h ≡ some a
      → live ss k ≡ some b
      → index h ≡ index k
      → h ≡ k
  unfolding live
  live_unique ss h k a b p q e =
      handle_ext h k e
        (live_generation (get_elem? ss (index h)) (generation h) (generation k) a b p (rw e q))

  pub live-vacate_ne :
      (ss : List (Slot A)) (h k : ℕ) → index h ≢ index k → live (vacate ss (index h)) k ≡ live ss k
  unfolding live
  live-vacate_ne ss h k d = rw (get_elem?-vacate_ne ss (index h) (index k) d) refl

  slot_generation :
      (o : Option (Slot A)) (g k : ℕ)
      → o ≡ some (record { generation_of = g; content = none })
      → o ≡ some (record { generation_of = k; content = none })
      → g ≡ k
  slot_generation o g k p q = ground arith

  slot_in_range :
      (ss : List (Slot A)) (i : ℕ) (t : Slot A) → get_elem? ss i ≡ some t → i < length ss
  slot_in_range [] i t e = cc
  slot_in_range (s ∷ ss) zero t e = omega arith
  slot_in_range (s ∷ ss) (suc i) t e = omega (arith, slot_in_range ss i t e)

  vacated_slot :
      (ss : List (Slot A)) (i g : ℕ) (a : A)
      → read_slot (get_elem? ss i) g ≡ some a
      → get_elem? (vacate ss i) i ≡ some (record { generation_of = g; content = none })
  unfolding vacate
  vacated_slot [] i g a e = cc
  vacated_slot (s ∷ ss) zero g a e = ground arith
  vacated_slot (s ∷ ss) (suc i) g a e = vacated_slot ss i g a e

  -- A slot that is vacant, seen with the generation of the handle that was revoked.
  Placed-stale :
      (ss : List (Slot A)) (b : A) (r : List (Slot A) × ℕ) (h : ℕ)
      → (generation h < u32_mod)
      → get_elem? ss (index h) ≡ some (record { generation_of = generation h; content = none })
      → Placed ss b r
      → live r.0 h ≡ none
  unfolding live
  Placed-stale ss b r h w v (reused i g k u e) = elim (ℕ_discrete i (index h)) [
    | yes p ↦
        let same : g ≡ generation h =
          slot_generation (get_elem? ss i) g (generation h) u (rw p v) in
        rw (e, p, get_elem?-set_self ss (index h) (filled (next_generation g) b) (rw (← p) k))
          (ground arith)
    | no p ↦ rw (e, get_elem?-set_ne ss (filled (next_generation g) b) p, v) (ground arith)
  ]
  Placed-stale ss b r h w v (appended _ e) =
      rw
        (
          e,
          get_elem?-append_left ss (filled 0 b ∷ []) (index h) (slot_in_range ss (index h) _ v),
          v,
        )
        (ground arith)

  pub get_elem?-vacate-live :
      (ss : List (Slot A)) (h : ℕ) (a : A)
      → live ss h ≡ some a
      → get_elem? (vacate ss (index h)) (index h)
        ≡ some (record { generation_of = generation h; content = none })
  unfolding live
  get_elem?-vacate-live ss h a l = vacated_slot ss (index h) (generation h) a l

  -- A handle that was revoked stays dead when its slot is used again.
  pub live-place-vacate :
      (ss : List (Slot A)) (h : ℕ) (a b : A)
      → generation h < u32_mod
      → live ss h ≡ some a
      → live (place (vacate ss (index h)) b).0 h ≡ none
  live-place-vacate ss h a b w l =
      Placed-stale (vacate ss (index h)) b (place (vacate ss (index h)) b) h w
        (get_elem?-vacate-live ss h a l) (place-Placed (vacate ss (index h)) b)

  -- The content of a live handle's slot is replaced, its generation kept.
  pub live-set_self :
      (ss : List (Slot A)) (h : ℕ) (a b : A)
      → live ss h ≡ some a
      → live (set ss (index h) (filled (generation h) b)) h ≡ some b
  unfolding live
  live-set_self ss h a b l =
      rw (get_elem?-set_self ss (index h) (filled (generation h) b) (live_in_range ss h a l))
        (ground arith)
