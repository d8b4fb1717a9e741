-- ===== src/Vfs/Mount/Covering.antt =====
-- The loop of `covering_index`: it keeps the best of the mounts it has passed.
use pureshade_os.Base.{
  ℕ, zero, suc, ◌+◌, ◌≤◌, ◌<◌, ◌≡◌, refl, ap, sym, subst, ◌≢◌, ◌∙◌, ◌⊎◌, inl, inr, Bool, true,
  false, Option, none, some, List, [], ◌∷◌, arith, ◌&&◌, ltb, ltb→lt, length, get_elem?,
  if◌then◌else◌, Bool-cases,
}
use pureshade_os.Base.Names.{Name}
use pureshade_os.Vfs.Paths.{is_prefix}
use pureshade_os.Vfs.Mount.{
  Mount, MountTable, point_length, is_better, covering_from, covering_index, covering_mount,
  at_index,
}

-- The mounts before index `i` whose point lies above the path have points of at most this length.
AtMost : MountTable → List Name → ℕ → ℕ → Type 0
AtMost ms comps i n =
    (j : ℕ) (m : Mount)
    → j < i
    → get_elem? ms j ≡ some m
    → is_prefix m.at_point comps ≡ true
    → length m.at_point ≤ n

-- The choice is the best among the mounts before index `i`.
Best : MountTable → List Name → ℕ → Option ℕ → Type 0
unfolding AtMost
Best ms comps i none =
    (j : ℕ) (m : Mount) → j < i → get_elem? ms j ≡ some m → is_prefix m.at_point comps ≡ false
Best ms comps i (some b) =
    (m : Mount) × (get_elem? ms b ≡ some m)
    × (is_prefix m.at_point comps ≡ true)
    × AtMost ms comps i (length m.at_point)

point_length-get :
    (ms : MountTable) (b : ℕ) (m : Mount)
    → get_elem? ms b ≡ some m
    → point_length ms b ≡ length m.at_point
unfolding point_length
point_length-get [] b m e = cc
point_length-get (x ∷ ms) zero m e = ground arith
point_length-get (x ∷ ms) (suc b) m e = point_length-get ms b m e

get_elem?-bound : (ms : MountTable) (j : ℕ) (m : Mount) → get_elem? ms j ≡ some m → j < length ms
get_elem?-bound [] j m e = cc
get_elem?-bound (x ∷ ms) zero m e = omega arith
get_elem?-bound (x ∷ ms) (suc j) m e = omega (arith, get_elem?-bound ms j m e)

-- The new mount is the one at `i`, or stands before it.
at_or_before : (j i : ℕ) → j < suc i → (j ≡ i) ⊎ (j < i)
at_or_before j i h = ground arith

some_inj : (m' m : Mount) → some m' ≡ some m → m' ≡ m
some_inj m' m e = cc

pub true_ne_false : true ≢ false
true_ne_false e = cc

same_mount :
    (ms : MountTable) (j i : ℕ) (m' m : Mount)
    → j ≡ i
    → get_elem? ms j ≡ some m'
    → get_elem? ms i ≡ some m
    → m' ≡ m
same_mount ms j i m' m p e f = some_inj m' m (sym e ∙ ap (get_elem? ms) p ∙ f)

Best-chosen :
    (ms : MountTable) (comps : List Name) (i : ℕ) (m : Mount) (best : Option ℕ)
    → get_elem? ms i ≡ some m
    → is_prefix m.at_point comps ≡ true
    → is_better ms m best ≡ true
    → Best ms comps i best
    → Best ms comps (suc i) (some i)
unfolding AtMost Best is_better
Best-chosen ms comps i m none at p better h = (
  m,
  at,
  p,
  λ j m' l e p'. elim (at_or_before j i l) [
    | inl same ↦ rw (same_mount ms j i m' m same e at) (omega arith)
    | inr before ↦ absurd (true_ne_false (sym p' ∙ h j m' before e))
  ],
)
Best-chosen ms comps i m (some b) at p better (mb, eb, pb, most) = (
  m,
  at,
  p,
  λ j m' l e p'. elim (at_or_before j i l) [
    | inl same ↦ rw (same_mount ms j i m' m same e at) (omega arith)
    | inr before ↦ omega (
      arith,
      most j m' before e p',
      point_length-get ms b mb eb,
      ltb→lt (point_length ms b) (length m.at_point) better,
    )
  ],
)

not_better : (b : Bool) (n k : ℕ) → b ≡ true → (b && ltb n k) ≡ false → k ≤ n
not_better b n k e f = ground arith

never_better : (b : Bool) → (b && true) ≡ false → b ≡ false
never_better b e = ground arith

Best-kept :
    (ms : MountTable) (comps : List Name) (i : ℕ) (m : Mount) (best : Option ℕ)
    → get_elem? ms i ≡ some m
    → (is_prefix m.at_point comps && is_better ms m best) ≡ false
    → Best ms comps i best
    → Best ms comps (suc i) best
unfolding AtMost Best is_better
Best-kept ms comps i m none at worse h = λ j m' l e. elim (at_or_before j i l) [
  | inl same ↦
      rw (same_mount ms j i m' m same e at) (never_better (is_prefix m.at_point comps) worse)
  | inr before ↦ h j m' before e
]
Best-kept ms comps i m (some b) at worse (mb, eb, pb, most) = (
  mb,
  eb,
  pb,
  λ j m' l e p'. elim (at_or_before j i l) [
    | inl same ↦ omega (
      arith,
      point_length-get ms b mb eb,
      ap (λ x. length x.at_point) (same_mount ms j i m' m same e at),
      not_better (is_prefix m.at_point comps) (point_length ms b) (length m.at_point)
          (ap (λ x. is_prefix x.at_point comps) (sym (same_mount ms j i m' m same e at)) ∙ p')
          worse,
    )
    | inr before ↦ most j m' before e p'
  ],
)

Best-step :
    (ms : MountTable) (comps : List Name) (i : ℕ) (m : Mount) (best : Option ℕ)
    → get_elem? ms i ≡ some m
    → Best ms comps i best
    → Best ms comps
        (suc i)
        (if is_prefix m.at_point comps && is_better ms m best then some i else best)
Best-step ms comps i m best at h =
    elim (Bool-cases (is_prefix m.at_point comps && is_better ms m best)) [
      | inl e ↦ rw e (Best-chosen ms comps i m best at (ground arith) (ground arith) h)
      | inr e ↦ rw e (Best-kept ms comps i m best at e h)
    ]

covering_from-Best :
    (ms : MountTable) (comps : List Name) (i : ℕ) (rest : List Mount) (best : Option ℕ)
    → ((k : ℕ) → get_elem? rest k ≡ get_elem? ms (i + k))
    → Best ms comps i best
    → Best ms comps (i + length rest) (covering_from ms comps i rest best)
unfolding covering_from
covering_from-Best ms comps i [] best at h = subst (λ n. Best ms comps n best) (omega arith) h
covering_from-Best ms comps i (m ∷ rest) best at h =
    subst (λ n. Best ms comps n (covering_from ms comps i (m ∷ rest) best)) (omega arith)
      (covering_from-Best ms comps (suc i) rest
        (if is_prefix m.at_point comps && is_better ms m best then some i else best)
        (λ k. at (suc k) ∙ ap (get_elem? ms) (omega arith))
        (Best-step ms comps i m best (ap (get_elem? ms) (omega arith) ∙ sym (at 0)) h))

Best-start : (ms : MountTable) (comps : List Name) → Best ms comps 0 none
unfolding Best
Best-start ms comps = λ j m l e. absurd (omega arith)

covering_index-Best :
    (ms : MountTable) (comps : List Name) → Best ms comps (length ms) (covering_index ms comps)
unfolding covering_index
covering_index-Best ms comps =
    subst (λ n. Best ms comps n (covering_from ms comps 0 ms none)) (omega arith)
      (covering_from-Best ms comps 0 ms none (λ k. ap (get_elem? ms) (omega arith))
        (Best-start ms comps))

-- The mount is in the table, lies above the path, and no mount above it has a longer point.
abbrev pub Covering : MountTable → List Name → Mount → Type 0
Covering ms comps m =
    ((j : ℕ) × (get_elem? ms j ≡ some m))
    × (is_prefix m.at_point comps ≡ true)
    × ((j : ℕ) (m' : Mount)
        → get_elem? ms j ≡ some m'
        → is_prefix m'.at_point comps ≡ true
        → length m'.at_point ≤ length m.at_point)

abbrev pub Uncovered : MountTable → List Name → Type 0
Uncovered ms comps =
    (j : ℕ) (m : Mount) → get_elem? ms j ≡ some m → is_prefix m.at_point comps ≡ false

at_index-cases :
    (ms : MountTable) (comps : List Name) (best : Option ℕ)
    → Best ms comps (length ms) best
    → ((at_index ms best ≡ none) × Uncovered ms comps)
      ⊎ ((m : Mount) × (at_index ms best ≡ some m) × Covering ms comps m)
unfolding Best AtMost
at_index-cases ms comps none h = inl (refl, λ j m e. h j m (get_elem?-bound ms j m e) e)
at_index-cases ms comps (some b) (m, e, p, most) =
    inr (m, e, ((b, e), p, λ j m' e'. most j m' (get_elem?-bound ms j m' e') e'))

pub covering_mount-cases :
    (ms : MountTable) (comps : List Name)
    → ((covering_mount ms comps ≡ none) × Uncovered ms comps)
      ⊎ ((m : Mount) × (covering_mount ms comps ≡ some m) × Covering ms comps m)
unfolding covering_mount
covering_mount-cases ms comps =
    at_index-cases ms comps (covering_index ms comps) (covering_index-Best ms comps)
