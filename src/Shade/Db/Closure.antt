-- ===== src/Shade/Db/Closure.antt =====
-- The mark of the collector is the closure of the roots under references, and it ends.
use pureshade_os.Base.{
  ℕ, zero, suc, ◌≤◌, ◌≡◌, ◌≢◌, ap, sym, ◌∙◌, subst, ◌⊎◌, ◌↔◌, inl, inr, true, List, [], ◌∷◌, ◌++◌,
  length, arith, Bool-cases,
}
use pureshade_os.Base.Names.{Name}
use pureshade_os.Base.Result.{Result, ok, err, Result-cases, bind_ok, ok_inj}
use pureshade_os.Shade.Names.{NameSet, contains}
use pureshade_os.Shade.Names.Contains.{
  contains-append, or_left, or_right, or_cases, none_contains, contains-cons, contains-here,
  contains-there,
}
use pureshade_os.Shade.Db.{DbError, Stop, unmarked, stopped, close}

-- A reference is marked or goes to the queue, and nothing else does.
unmarked_split :
    (m : NameSet) (rs : List Name) (r : Name)
    → contains rs r ≡ true
    → (contains m r ≡ true) ⊎ (contains (unmarked m rs) r ≡ true)
unfolding unmarked
unmarked_split m [] r h = inr h
unmarked_split m (x ∷ rs) r h = elim (Bool-cases (contains m x)) [
  | inl e ↦ elim (contains-cons x r rs h) [
    | inl q ↦ inl (subst (λ k. contains m k ≡ true) q e)
    | inr l ↦ rw e (unmarked_split m rs r l)
  ]
  | inr e ↦ elim (contains-cons x r rs h) [
    | inl q ↦ inr (
        rw e
          (subst (λ k. contains (x ∷ unmarked m rs) k ≡ true) q (contains-here x (unmarked m rs))))
    | inr l ↦ elim (unmarked_split m rs r l) [
      | inl k ↦ inl k
      | inr k ↦ inr (rw e (contains-there x r (unmarked m rs) k))
    ]
  ]
]

pub unmarked_from :
    (m : NameSet) (rs : List Name) (r : Name)
    → contains (unmarked m rs) r ≡ true
    → contains rs r ≡ true
unfolding unmarked
unmarked_from m [] r h = h
unmarked_from m (x ∷ rs) r h = elim (Bool-cases (contains m x)) [
  | inl e ↦ contains-there x r rs (unmarked_from m rs r (rw e at h))
  | inr e ↦ elim (contains-cons x r (unmarked m rs) (rw e at h)) [
    | inl q ↦ subst (λ k. contains (x ∷ rs) k ≡ true) q (contains-here x rs)
    | inr l ↦ contains-there x r rs (unmarked_from m rs r l)
  ]
]

pub length-unmarked : (m : NameSet) (rs : List Name) → length (unmarked m rs) ≤ length rs
unfolding unmarked
length-unmarked m [] = omega arith
length-unmarked m (x ∷ rs) = ground (arith, length-unmarked m rs)

module _ (refs : Name → Result DbError (List Name)) where
  -- Reached from the roots by following references.
  pub data Live (roots : NameSet) : Name → Type 0 where
    root : (d : Name) → contains roots d ≡ true → Live roots d
    reference :
        (d r : Name) (rs : List Name)
        → Live roots d
        → refs d ≡ ok rs
        → contains rs r ≡ true
        → Live roots r

  -- Every reference of a marked name is marked or in the queue.
  abbrev Pending : NameSet → List Name → Type 0
  Pending marked queue =
      (d r : Name) (rs : List Name)
      → contains marked d ≡ true
      → refs d ≡ ok rs
      → contains rs r ≡ true
      → (contains marked r ≡ true) ⊎ (contains queue r ≡ true)

  abbrev AllLive : NameSet → NameSet → Type 0
  AllLive roots s = (d : Name) → contains s d ≡ true → Live roots d

  read_refs : (d : Name) (rs : List Name) → stopped (refs d) ≡ ok rs → refs d ≡ ok rs
  unfolding stopped
  read_refs d rs h = elim (Result-cases (refs d)) [
    | inl (ss, e) ↦ e ∙ ap ok (ok_inj {E = Stop} ss rs (rw e at h))
    | inr (e, f) ↦ absurd (refused (rw f at h))
  ]
    where
      refused : {e : DbError} → ◌≢◌ {A = Result Stop (List Name)} (err (Stop.failed e)) (ok rs)
      refused h = cc

  -- What a run of the loop that succeeds has marked.
  abbrev Closed : NameSet → NameSet → List Name → NameSet → Type 0
  Closed roots marked queue after =
      ((d : Name)
        → (contains marked d ≡ true) ⊎ (contains queue d ≡ true)
        → contains after d ≡ true)
      × AllLive roots after
      × Pending after []

  -- A name that was marked before is popped.
  pop_marked :
      (marked : NameSet) (d : Name) (queue : List Name)
      → contains marked d ≡ true
      → Pending marked (d ∷ queue)
      → Pending marked queue
  pop_marked marked d queue e p = λ c r rs m q k. elim (p c r rs m q k) [
    | inl t ↦ inl t
    | inr t ↦ elim (contains-cons d r queue t) [
      | inl same ↦ inl (subst (λ j. contains marked j ≡ true) same e)
      | inr l ↦ inr l
    ]
  ]

  -- A name that is marked now leaves its references marked or in the queue.
  pop_fresh :
      (marked : NameSet) (d : Name) (queue rs : List Name)
      → refs d ≡ ok rs
      → Pending marked (d ∷ queue)
      → Pending (d ∷ marked) (queue ++ unmarked (d ∷ marked) rs)
  pop_fresh marked d queue rs e p = λ c r ss m q k. elim (contains-cons d c marked m) [
    | inl same ↦
        let listed : contains rs r ≡ true =
          subst (λ l. contains l r ≡ true) (ok_inj ss rs (sym q ∙ ap refs (sym same) ∙ e)) k in
        elim (unmarked_split (d ∷ marked) rs r listed) [
          | inl t ↦ inl t
          | inr t ↦ inr (
              contains-append queue (unmarked (d ∷ marked) rs) r
              ∙ or_right (contains queue r) (contains (unmarked (d ∷ marked) rs) r) t)
        ]
    | inr old ↦ elim (p c r ss old q k) [
      | inl t ↦ inl (contains-there d r marked t)
      | inr t ↦ elim (contains-cons d r queue t) [
        | inl same ↦ inl (subst (λ j. contains (d ∷ marked) j ≡ true) same (contains-here d marked))
        | inr l ↦ inr (
            contains-append queue (unmarked (d ∷ marked) rs) r
            ∙ or_left (contains queue r) (contains (unmarked (d ∷ marked) rs) r) l)
      ]
    ]
  ]

  AllLive-cons :
      (roots : NameSet) (d : Name) (s : NameSet)
      → Live roots d
      → AllLive roots s
      → AllLive roots (d ∷ s)
  AllLive-cons roots d s l a =
      λ c k. elim (contains-cons d c s k) [ inl e ↦ subst (λ j. Live roots j) e l | inr t ↦ a c t ]

  AllLive-references :
      (roots m : NameSet) (d : Name) (queue rs : List Name)
      → Live roots d
      → refs d ≡ ok rs
      → AllLive roots queue
      → AllLive roots (queue ++ unmarked m rs)
  AllLive-references roots m d queue rs l e a = λ c k.
      elim (or_cases (contains queue c) (contains (unmarked m rs) c)
        (sym (contains-append queue (unmarked m rs) c) ∙ k)) [
          | inl t ↦ a c t
          | inr t ↦ Live.reference d c rs l e (unmarked_from m rs c t)
        ]

  close_lem :
      (roots : NameSet) (fuel : ℕ) (marked : NameSet) (queue : List Name) (after : NameSet)
      → AllLive roots marked
      → AllLive roots queue
      → Pending marked queue
      → close refs fuel marked queue ≡ ok after
      → Closed roots marked queue after
  unfolding close
  close_lem roots fuel marked [] after a b p h =
      subst (λ m. Closed roots marked [] m) (ok_inj marked after h)
        (λ d k. elim k [ inl e ↦ e | inr e ↦ none_contains d e ], a, p)
  close_lem roots zero marked (d ∷ queue) after a b p h = absurd (refused h)
    where
      refused : ◌≢◌ {A = Result Stop NameSet} (err Stop.out_of_fuel) (ok after)
      refused h = cc
  close_lem roots (suc fuel) marked (d ∷ queue) after a b p h =
      elim (Bool-cases (contains marked d)) [
        | inl e ↦
            let r =
              close_lem roots fuel marked queue after a (λ c k. b c (contains-there d c queue k))
                (pop_marked marked d queue e p) (rw e at h) in
            (
              λ c k. elim k [
                | inl t ↦ r.0 c (inl t)
                | inr t ↦ elim (contains-cons d c queue t) [
                  | inl same ↦ r.0 c (inl (subst (λ j. contains marked j ≡ true) same e))
                  | inr l ↦ r.0 c (inr l)
                ]
              ],
              r.1,
              r.2,
            )
        | inr e ↦
            let next : List Name → Result Stop NameSet =
              λ rs. close refs fuel (d ∷ marked) (queue ++ unmarked (d ∷ marked) rs) in
            let s = bind_ok (stopped (refs d)) next after (rw e at h) in
            let found = read_refs d s.0 s.1 in
            let live = b d (contains-here d queue) in
            let r =
              close_lem roots fuel (d ∷ marked) (queue ++ unmarked (d ∷ marked) s.0) after
                (AllLive-cons roots d marked live a)
                (AllLive-references roots (d ∷ marked) d queue s.0 live found
                  (λ c k. b c (contains-there d c queue k)))
                (pop_fresh marked d queue s.0 found p) s.2 in
            (
              λ c k. elim k [
                | inl t ↦ r.0 c (inl (contains-there d c marked t))
                | inr t ↦ elim (contains-cons d c queue t) [
                  | inl same ↦ r.0 c (
                      inl
                        (subst (λ j. contains (d ∷ marked) j ≡ true) same (contains-here d marked)))
                  | inr l ↦ r.0 c (
                      inr (
                        contains-append queue (unmarked (d ∷ marked) s.0) c
                        ∙ or_left (contains queue c) (contains (unmarked (d ∷ marked) s.0) c) l))
                ]
              ],
              r.1,
              r.2,
            )
      ]

  -- If the loop succeeds from the roots, what it has marked is what they reach by references.
  pub close_Live :
      (roots : NameSet) (fuel : ℕ) (after : NameSet)
      → close refs fuel [] roots ≡ ok after
      → (d : Name) → (contains after d ≡ true) ↔ Live roots d
  close_Live roots fuel after h d =
      let r =
        close_lem roots fuel [] roots after (λ c k. none_contains c k) (λ c k. Live.root c k)
          (λ c r rs m q k. none_contains c m) h in
      (r.1 d, complete r d)
    where
      complete : Closed roots [] roots after → (d : Name) → Live roots d → contains after d ≡ true
      complete r d (Live.root c k) = r.0 d (inr k)
      complete r d (Live.reference c e rs l q k) = elim (r.2 c d rs (complete r c l) q k) [
        | inl t ↦ t
        | inr t ↦ none_contains d t
      ]
