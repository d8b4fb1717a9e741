-- ===== src/Shade/Db/Enough.antt =====
-- The mark of the collector ends, where only finitely many digests have references.
use pureshade_os.Base.{
  ℕ, zero, suc, ◌+◌, ◌≤◌, ◌≡◌, ◌≢◌, ap, sym, subst, ◌⊎◌, inl, inr, Bool, true, false, List, [], ◌∷◌,
  ◌++◌, length, length-append, arith, Bool-cases, if◌then◌else◌,
}
use pureshade_os.Base.Names.{Name}
use pureshade_os.Base.Result.{Result, ok, err, Result-cases}
use pureshade_os.Shade.Names.{NameSet, contains}
use pureshade_os.Shade.Db.{DbError, Stop, unmarked, stopped, close}
use pureshade_os.Shade.Names.Contains.{none_contains, contains-cons, contains-here, contains-there}
use pureshade_os.Shade.Db.Closure.{length-unmarked}

-- The number of references that are found.
abbrev pub ref_count : Result DbError (List Name) → ℕ
ref_count (ok rs) = length rs
ref_count (err e) = 0

module _ (refs : Name → Result DbError (List Name)) where
  -- The references of the names of the list that are not marked.
  unfoldable pub weight : List Name → NameSet → ℕ
  weight [] m = 0
  weight (u ∷ us) m = (if contains m u then 0 else ref_count (refs u)) + weight us m

  weight_mono : (us : List Name) (m : NameSet) (d : Name) → weight us (d ∷ m) ≤ weight us m
  unfolding weight
  weight_mono [] m d = omega arith
  weight_mono (u ∷ us) m d = elim (Bool-cases (contains m u)) [
    | inl e ↦ rw (e, contains-there d u m e) (omega (arith, weight_mono us m d))
    | inr e ↦ rw e (
        less (contains (d ∷ m) u) (ref_count (refs u)) (weight us (d ∷ m)) (weight us m)
          (weight_mono us m d))
  ]
    where
      less : (b : Bool) (n v w : ℕ) → v ≤ w → (if b then 0 else n) + v ≤ n + w
      less true n v w l = omega arith
      less false n v w l = omega arith

  -- Marking a name of the list takes its references out of the weight.
  weight-mark :
      (us : List Name) (m : NameSet) (d : Name)
      → contains us d ≡ true
      → contains m d ≡ false
      → weight us (d ∷ m) + ref_count (refs d) ≤ weight us m
  unfolding weight
  weight-mark [] m d h n = none_contains d h
  weight-mark (u ∷ us) m d h n = elim (contains-cons u d us h) [
    | inl e ↦ head e
    | inr t ↦ elim (Bool-cases (contains m u)) [
      | inl k ↦ rw (k, contains-there d u m k) (omega (arith, weight-mark us m d t n))
      | inr k ↦ rw k (
          less (contains (d ∷ m) u) (ref_count (refs u)) (weight us (d ∷ m)) (weight us m)
            (ref_count (refs d)) (weight-mark us m d t n))
    ]
  ]
    where
      less : (b : Bool) (n v w r : ℕ) → v + r ≤ w → (if b then 0 else n) + v + r ≤ n + w
      less true n v w r l = omega arith
      less false n v w r l = omega arith

      named : u ≡ d → contains (d ∷ m) u ≡ true
      named e = subst (λ k. contains (d ∷ m) k ≡ true) (sym e) (contains-here d m)

      head :
          u ≡ d
          → (if contains (d ∷ m) u then 0 else ref_count (refs u))
              + weight us (d ∷ m)
              + ref_count (refs d)
            ≤ (if contains m u then 0 else ref_count (refs u)) + weight us m
      head e =
          rw (subst (λ k. contains m k ≡ false) (sym e) n, named e)
            (omega (arith, ap (λ k. ref_count (refs k)) e, weight_mono us m d))

  lighter :
      (us : List Name) (m : NameSet) (d : Name)
      → contains m d ≡ false
      → (ref_count (refs d) ≡ 0) ⊎ (contains us d ≡ true)
      → weight us (d ∷ m) + ref_count (refs d) ≤ weight us m
  lighter us m d e (inl z) = omega (arith, z, weight_mono us m d)
  lighter us m d e (inr k) = weight-mark us m d k e

  -- Where the names with references are among those of the list, fuel for the queue and for every
  -- reference of an unmarked name is enough: the loop does not run out of it.
  pub close-enough :
      (us : List Name) (fuel : ℕ) (marked : NameSet) (queue : List Name)
      → ((d : Name) → (ref_count (refs d) ≡ 0) ⊎ (contains us d ≡ true))
      → length queue + weight us marked ≤ fuel
      → close refs fuel marked queue ≢ err Stop.out_of_fuel
  unfolding close stopped
  close-enough us fuel marked [] known l = λ q. answered q
    where
      answered : ◌≢◌ {A = Result Stop NameSet} (ok marked) (err Stop.out_of_fuel)
      answered q = cc
  close-enough us zero marked (d ∷ queue) known l = absurd (omega arith)
  close-enough us (suc fuel) marked (d ∷ queue) known l = elim (Bool-cases (contains marked d)) [
    | inl e ↦ λ q. close-enough us fuel marked queue known (omega arith) (rw e at q)
    | inr e ↦ elim (Result-cases (refs d)) [
      | inl (rs, f) ↦ λ q.
          close-enough us fuel (d ∷ marked) (queue ++ unmarked (d ∷ marked) rs) known
            (next_fits rs e f) (rw (e, f) at q)
      | inr (r, f) ↦ λ q. refused r (rw (e, f) at q)
    ]
  ]
    where
      refused :
          (r : DbError) → ◌≢◌ {A = Result Stop NameSet} (err (Stop.failed r)) (err Stop.out_of_fuel)
      refused r q = cc

      next_fits :
          (rs : List Name)
          → contains marked d ≡ false
          → refs d ≡ ok rs
          → length (queue ++ unmarked (d ∷ marked) rs) + weight us (d ∷ marked) ≤ fuel
      next_fits rs e f = omega (
        arith,
        length-append queue (unmarked (d ∷ marked) rs),
        length-unmarked (d ∷ marked) rs,
        lighter us marked d e (known d),
        ap ref_count f,
      )
