-- ===== src/Ipc/Endpoint/Names.antt =====
-- The named endpoint registry of kernel/src/ipc.rs: a `BTreeMap` from names to endpoint indices.
use Prim.Native.String.{String}
use text.Mathlib.Text.{◌==◌ as str_eq}
use text.Mathlib.TextEquality.{eq_iff}
use native.Mathlib.Decide.{ℕ_discrete}
use pureshade_os.Base.{
  ℕ, ◌≡◌, refl, Bool, true, false, Option, none, some, List, [], ◌∷◌, ◌⊎◌, inl, inr, ◌≢◌, arith,
  ◌==◌, if◌then◌else◌, Option-cases, ==_refl, ne→not_==,
}

abbrev pub NameTable : Type 0
NameTable = List (String × ℕ)

unfoldable pub lookup_name : NameTable → String → Option ℕ
lookup_name [] name = none
lookup_name ((n, i) ∷ t) name = if str_eq n name then some i else lookup_name t name

bind_found : NameTable → String → ℕ → Option ℕ → NameTable × Bool
bind_found t name idx (some existing) = (t, existing == idx)
bind_found t name idx none = ((name, idx) ∷ t, true)

unfoldable pub bind_name : NameTable → String → ℕ → NameTable × Bool
unfolding bind_found
bind_name t name idx = bind_found t name idx (lookup_name t name)

lookup-cons_self :
    (t : NameTable) (name : String) (idx : ℕ) → lookup_name ((name, idx) ∷ t) name ≡ some idx
unfolding lookup_name
lookup-cons_self t name idx = ground (arith, eq_iff name name)

lookup-cons_ne :
    (t : NameTable) (name k : String) (idx : ℕ)
    → k ≢ name
    → lookup_name ((name, idx) ∷ t) k ≡ lookup_name t k
unfolding lookup_name
lookup-cons_ne t name k idx d = ground (arith, eq_iff name k)

bind_free :
    (t : NameTable) (name : String) (idx : ℕ)
    → lookup_name t name ≡ none
    → bind_name t name idx ≡ ((name, idx) ∷ t, true)
unfolding bind_name
bind_free t name idx e = rw (e, bind_found) refl

bind_taken :
    (t : NameTable) (name : String) (idx other : ℕ)
    → lookup_name t name ≡ some other
    → bind_name t name idx ≡ (t, other == idx)
unfolding bind_name
bind_taken t name idx other e = rw (e, bind_found) refl

-- A name that `bind_name` accepts is looked up to that endpoint afterwards; the names it refuses
-- are those that another endpoint has; and no other name is looked up differently.
pub lookup-bind :
    (t : NameTable) (name : String) (idx : ℕ)
    → ((((bind_name t name idx).1 ≡ true) × (lookup_name (bind_name t name idx).0 name ≡ some idx))
        ⊎ (((bind_name t name idx).1 ≡ false)
            × ((other : ℕ) × (lookup_name t name ≡ some other) × (other ≢ idx))))
      × ((k : String) → k ≢ name → lookup_name (bind_name t name idx).0 k ≡ lookup_name t k)
lookup-bind t name idx = elim (Option-cases (lookup_name t name)) [
  | inl e ↦
      rw (bind_free t name idx e)
        (inl (refl, lookup-cons_self t name idx), λ k d. lookup-cons_ne t name k idx d)
  | inr (other, e) ↦ rw (bind_taken t name idx other e) (
    elim (ℕ_discrete other idx) [
      | yes p ↦ inl (rw p (==_refl idx), rw p at e)
      | no p ↦ inr (ne→not_== other idx p, (other, e, p))
    ],
    λ k d. refl,
  )
]
