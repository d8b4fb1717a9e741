-- ===== src/Rfs2/Mark/Sweep.antt =====
-- What one mark of a subtree does to the bitmap (fs/rfs2/src/space.rs).
use pureshade_os.Base.{
  ℕ, zero, suc, ◌+◌, ◌/◌, ◌≤◌, ◌<◌, ◌≡◌, ◌≢◌, refl, ap, sym, ◌∙◌, subst, ◌⊎◌, inl, inr, Bool, true,
  false, arith, length, ltb, ltb→lt, Bool-cases,
}
use pureshade_os.Base.Result.{Result, ok, err}
use pureshade_os.Rfs2.Layout.{BlockPtr, is_null}
use pureshade_os.Rfs2.Device.{BlockDevice}
use pureshade_os.Rfs2.Transform.{BlockTransform}
use pureshade_os.Rfs2.Space.{get, set_bit, count}
use pureshade_os.Rfs2.Space.Count.{count-set_bit, count-set_bit_again}
use pureshade_os.Rfs2.Space.Laws.{get-set_bit}
use pureshade_os.Rfs2.Map.{and_then}
use pureshade_os.Rfs2.Mark.{Fault, Marks, Marked, for_each, visit}
use pureshade_os.Rfs2.Mark.Reach.{Role, Child, Reaches}

abbrev pub marked : Marks → ℕ → Bool
marked m b = get m.bits b

pub and_then_ok {ℓ κ μ ν} :
    {S : Type ℓ} {E : Type ν} {A : Type κ} {B : Type μ} (r : S × Result E A)
    (k : S → A → S × Result E B) (s : S) (b : B)
    → and_then r k ≡ (s, ok b)
    → (t : S) × (a : A) × (r ≡ (t, ok a)) × (k t a ≡ (s, ok b))
and_then_ok (t, ok a) k s b h = (t, a, refl, h)
and_then_ok (t, err e) k s b h = cc

module _ {D : Type 0} (device : BlockDevice D) (x : BlockTransform) (dev : D) (role : Role)
    (root : BlockPtr) where
  abbrev pub Reached : Role → BlockPtr → Type 0
  Reached r p = Reaches device x dev role root r p

  -- The pointer is null or its block is marked.
  abbrev pub Here : Marks → BlockPtr → Type 0
  Here m q = is_null q ≡ false → marked m q.block ≡ true

  abbrev pub ChildrenHere : Marks → Role → BlockPtr → Type 0
  ChildrenHere m r p = (s : Role) (q : BlockPtr) → Child device x dev r p s q → Here m q

  -- Marks only grow and are counted, and a block that is newly marked is one that the root reaches, read as something
  -- whose children are all marked by the end.
  pub record Sweep (m after : Marks) : Type 0 where
    pub grows : (b : ℕ) → marked m b ≡ true → marked after b ≡ true
    pub counts : after.count + count m.bits ≡ m.count + count after.bits
    pub fresh :
        (b : ℕ)
        → marked m b ≡ false
        → marked after b ≡ true
        → (r : Role) × (p : BlockPtr) × Reached r p
          × (is_null p ≡ false)
          × (p.block ≡ b)
          × ChildrenHere after r p

  nat_dec : (a b : ℕ) → (a ≡ b) ⊎ (a ≢ b)
  nat_dec a b = grind arith

  clash : {A : Type 0} (b : Bool) → b ≡ false → b ≡ true → A
  clash b h k = cc

  pub Sweep-refl : (m : Marks) → Sweep m m
  Sweep-refl m = record { grows = λ b h. h; counts = refl; fresh = λ b h k. clash (marked m b) h k }

  Sweep-trans : (a b c : Marks) → Sweep a b → Sweep b c → Sweep a c
  Sweep-trans a b c f g = record {
    grows = λ k h. g.grows k (f.grows k h);
    counts = omega (arith, f.counts, g.counts);
    fresh = λ k h t. elim (Bool-cases (marked b k)) [
      | inr e ↦ g.fresh k e t
      | inl e ↦
          let w = f.fresh k h e in
          (w.0, w.1, w.2, w.3, w.4, λ s q d n. g.grows q.block (w.5 s q d n))
    ];
  }

  -- What a mark of a pointer does when it succeeds.
  abbrev pub MarksOk : Role → BlockPtr → (Marks → Marked) → Type 0
  MarksOk r p f =
      (m after : Marks) → Reached r p → f m ≡ (after, ok tt) → Sweep m after × Here after p

  -- A loop whose rounds mark the pointers that they want.
  pub for_each_lem :
      (f : ℕ → Marks → Marked) (wants : ℕ → BlockPtr → Type 0) (i n : ℕ)
      → ((j : ℕ)
          → i ≤ j
          → j < i + n
          → (m after : Marks) → f j m ≡ (after, ok tt)
          → Sweep m after × ((q : BlockPtr) → wants j q → Here after q))
      → (m after : Marks) → for_each f i n m ≡ (after, ok tt)
      → Sweep m after × ((j : ℕ) → i ≤ j → j < i + n → (q : BlockPtr) → wants j q → Here after q)
  unfolding for_each
  for_each_lem f wants i zero step m after h =
      (subst (λ a. Sweep m a) (ap (λ r. r.0) h) (Sweep-refl m), λ j a b. absurd (omega arith))
  for_each_lem f wants i (suc n) step m after h =
      let s = and_then_ok (f i m) (λ m done. for_each f (i + 1) n m) after tt h in
      let one = step i (omega arith) (omega arith) m s.0 s.2 in
      let rest =
        for_each_lem f wants (i + 1) n (λ j a b. step j (omega arith) (omega arith)) s.0 after
          s.3 in
      (
        Sweep-trans m s.0 after one.0 rest.0,
        λ j a b q w n. elim (first_or i j a) [
          | inl e ↦ rest.0.grows q.block (one.1 q (subst (λ k. wants k q) (sym e) w) n)
          | inr l ↦ rest.1 j l (omega arith) q w n
        ],
      )
    where
      first_or : (i j : ℕ) → i ≤ j → (i ≡ j) ⊎ (i + 1 ≤ j)
      first_or i j a = grind arith

  with_bit : Marks → ℕ → Marks
  with_bit m b = record m { bits = (set_bit m.bits b).0 }

  counted : Marks → ℕ → Marks
  counted m b = record { bits = (set_bit m.bits b).0; count = m.count + 1 }

  -- Where the block was marked, marking it again changes no mark.
  again-Sweep :
      (m : Marks) (p : BlockPtr)
      → p.block / 64 < length m.bits.words
      → (set_bit m.bits p.block).1 ≡ true
      → Sweep m (with_bit m p.block) × Here (with_bit m p.block) p
  unfolding with_bit get set_bit
  again-Sweep m p l e =
      let g = get-set_bit m.bits p.block l in
      (
        record {
          grows = λ b h. elim (nat_dec p.block b) [
            | inl q ↦ subst (λ k. marked (with_bit m p.block) k ≡ true) q g.0
            | inr d ↦ g.1 b d ∙ h
          ];
          counts = omega (arith, count-set_bit_again m.bits p.block l e);
          fresh = λ b h t. elim (nat_dec p.block b) [
            | inl q ↦ clash (marked m b) h (subst (λ k. marked m k ≡ true) q e)
            | inr d ↦ clash (marked m b) h (sym (g.1 b d) ∙ t)
          ];
        },
        λ n. g.0,
      )

  -- Where it was not, the rest has marked its children by the end.
  first-Sweep :
      (r : Role) (p : BlockPtr) (m after : Marks)
      → p.block / 64 < length m.bits.words
      → get m.bits p.block ≡ false
      → is_null p ≡ false
      → Reached r p
      → Sweep (counted m p.block) after × ChildrenHere after r p
      → Sweep m after × Here after p
  unfolding counted
  first-Sweep r p m after l f n reach s =
      let g = get-set_bit m.bits p.block l in
      (
        record {
          grows = λ b h. elim (nat_dec p.block b) [
            | inl q ↦ s.0.grows b (subst (λ k. marked (counted m p.block) k ≡ true) q g.0)
            | inr d ↦ s.0.grows b (g.1 b d ∙ h)
          ];
          counts = omega (arith, s.0.counts, count-set_bit m.bits p.block l f);
          fresh = λ b h t. elim (nat_dec p.block b) [
            | inl q ↦ (r, p, reach, n, q, s.1)
            | inr d ↦ s.0.fresh b (g.1 b d ∙ h) t
          ];
        },
        λ _. s.0.grows p.block g.0,
      )

  panicked :
      {A : Type 0} {m after : Marks} {f : Fault} → ◌≡◌ {A = Marked} (m, err f) (after, ok tt) → A
  panicked h = cc

  visit_cases :
      (p : BlockPtr) (rest : Marks → Marked) (m after : Marks)
      → visit p rest m ≡ (after, ok tt)
      → ((is_null p ≡ true) × (m ≡ after))
        ⊎ ((is_null p ≡ false)
            × (p.block / 64 < length m.bits.words)
            × (((set_bit m.bits p.block).1 ≡ true) × (with_bit m p.block ≡ after)
                ⊎ (((set_bit m.bits p.block).1 ≡ false)
                    × (rest (counted m p.block) ≡ (after, ok tt)))))
  unfolding visit with_bit counted
  visit_cases p rest m after h = elim (Bool-cases (is_null p)) [
    | inl e ↦ inl (e, ap (λ r. r.0) (rw e at h))
    | inr e ↦ elim (Bool-cases (ltb (p.block / 64) (length m.bits.words))) [
      | inr f ↦ panicked (rw (e, f) at h)
      | inl f ↦ inr (
        e,
        ltb→lt (p.block / 64) (length m.bits.words) f,
        elim (Bool-cases (set_bit m.bits p.block).1) [
          | inl t ↦ inl (t, ap (λ r. r.0) (rw (e, f, t) at h))
          | inr t ↦ inr (t, rw (e, f, t) at h)
        ],
      )
    ]
  ]

  -- A visit, where the rest of it marks the children.
  pub visit_lem :
      (r : Role) (p : BlockPtr) (rest : Marks → Marked)
      → ((m after : Marks)
          → rest m ≡ (after, ok tt)
          → is_null p ≡ false
          → Sweep m after × ChildrenHere after r p)
      → MarksOk r p (visit p rest)
  unfolding get set_bit
  visit_lem r p rest k m after reach h = elim (visit_cases p rest m after h) [
    | inl c ↦ subst (λ a. Sweep m a × Here a p) c.1 (Sweep-refl m, λ n. clash (is_null p) n c.0)
    | inr (n, l, inl c) ↦ subst (λ a. Sweep m a × Here a p) c.1 (again-Sweep m p l c.0)
    | inr (n, l, inr c) ↦
        first-Sweep r p m after l (was_clear c.0) n reach (k (counted m p.block) after c.1 n)
  ]
    where
      was_clear : (set_bit m.bits p.block).1 ≡ false → get m.bits p.block ≡ false
      was_clear e = e
