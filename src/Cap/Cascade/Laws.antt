-- ===== src/Cap/Cascade/Laws.antt =====
-- The store of tables: what one removal does to what every place names, and to the number of
-- capabilities.
use native.Mathlib.Decide.{ℕ_discrete}
use pureshade_os.Base.{
  ℕ, zero, suc, ◌+◌, ◌≡◌, refl, ◌≢◌, Option, none, some, [], ◌∷◌, arith, get_elem?,
}
use pureshade_os.Base.Result.{ok, err}
use pureshade_os.Cap.Types.{CapError, Capability, CapHandle, index, generation}
use pureshade_os.Cap.Slots.{vacate, read_slot, live}
use pureshade_os.Cap.Table.{CapabilityTable, get, take}
use pureshade_os.Cap.Table.Laws.{get-take, get→live, take_ok}
use pureshade_os.Cap.Cascade.{Store, Place, find_table, put_table, get_at, get_in, take_at, take_in}

-- Nothing is found at the place.
abbrev pub IsGone : Store → Place → Type 0
IsGone s p = (e : CapError) × (get_at s p ≡ err e)

find-put_self :
    (s : Store) (id : ℕ) (t u : CapabilityTable)
    → find_table s id ≡ some t
    → find_table (put_table s id u) id ≡ some u
unfolding find_table put_table
find-put_self [] id t u e = cc
find-put_self ((j, v) ∷ s) id t u e = ground (arith, find-put_self s id t u)

find-put_ne :
    (s : Store) (id j : ℕ) (u : CapabilityTable)
    → id ≢ j
    → find_table (put_table s id u) j ≡ find_table s j
unfolding find_table put_table
find-put_ne [] id j u d = refl
find-put_ne ((k, v) ∷ s) id j u d = ground (arith, find-put_ne s id j u d)

table_in :
    (o : Option CapabilityTable) (h : CapHandle) (c : Capability)
    → get_in o h ≡ ok c
    → (t : CapabilityTable) × (o ≡ some t) × (get t h ≡ ok c)
unfolding get_in
table_in none h c e = cc
table_in (some t) h c e = (t, refl, e)

-- The table behind a place that names something.
table_at :
    (s : Store) (id : ℕ) (h : CapHandle) (c : Capability)
    → get_at s (id, h) ≡ ok c
    → (t : CapabilityTable) × (find_table s id ≡ some t) × (get t h ≡ ok c)
unfolding get_at
table_at s id h c e = table_in (find_table s id) h c e

take_at_found :
    (s : Store) (id : ℕ) (h : CapHandle) (t : CapabilityTable)
    → find_table s id ≡ some t
    → take_at s (id, h) ≡ put_table s id (take t h).0
unfolding take_at
take_at_found s id h t f = rw (f, take_in) refl

-- Removing what a live place names kills that place.
pub get_at-take_at_self :
    (s : Store) (p : Place) (c : Capability) → get_at s p ≡ ok c → IsGone (take_at s p) p
unfolding get_at
get_at-take_at_self s (id, h) c e =
    let (t, f, g) = table_at s id h c e in
    let (x, dead, kept) = get-take t h c g in
    rw (take_at_found s id h t f, find-put_self s id t (take t h).0 f) dead

same_in :
    (s : Store) (id h k : ℕ) (t u : CapabilityTable)
    → find_table s id ≡ some t
    → k ≢ h
    → ((k : CapHandle) → k ≢ h → get u k ≡ get t k)
    → get_in (some u) k ≡ get_in (find_table s id) k
unfolding get_in
same_in s id h k t u f d kept = rw f (kept k d)

-- Every other place names what it named.
pub get_at-take_at_ne :
    (s : Store) (p q : Place) (c : Capability)
    → get_at s p ≡ ok c
    → q ≢ p
    → get_at (take_at s p) q ≡ get_at s q
unfolding get_at
get_at-take_at_ne s (id, h) (j, k) c e d =
    let (t, f, g) = table_at s id h c e in
    let (x, dead, kept) = get-take t h c g in
    elim (ℕ_discrete id j) [
      | yes i ↦
          rw (take_at_found s id h t f, ← i, find-put_self s id t (take t h).0 f)
            (same_in s id h k t (take t h).0 f (λ m. d (cc (i, m))) kept)
      | no n ↦ rw (take_at_found s id h t f, find-put_ne s id j (take t h).0 n) refl
    ]

-- The number of capabilities in a table and in the store.
occupied : Option Capability → ℕ
occupied none = 0
occupied (some c) = 1

count_table : CapabilityTable → ℕ
count_table [] = 0
count_table (s ∷ ss) = occupied s.content + count_table ss

unfoldable pub count_caps : Store → ℕ
unfolding count_table occupied
count_caps [] = 0
count_caps ((j, t) ∷ s) = count_table t + count_caps s

count-vacate :
    (t : CapabilityTable) (i g : ℕ) (c : Capability)
    → read_slot (get_elem? t i) g ≡ some c
    → count_table (vacate t i) + 1 ≡ count_table t
unfolding count_table vacate occupied
count-vacate [] i g c e = cc
count-vacate (s ∷ ss) zero g c e = ground arith
count-vacate (s ∷ ss) (suc i) g c e = omega (arith, count-vacate ss i g c e)

count-put :
    (s : Store) (id : ℕ) (t u : CapabilityTable)
    → find_table s id ≡ some t
    → count_table u + 1 ≡ count_table t
    → count_caps (put_table s id u) + 1 ≡ count_caps s
unfolding count_caps put_table find_table
count-put [] id t u f e = cc
count-put ((j, v) ∷ s) id t u f e = ground (arith, count-put s id t u)

-- A removal takes one capability out of the store.
pub count-take_at :
    (s : Store) (p : Place) (c : Capability)
    → get_at s p ≡ ok c
    → count_caps (take_at s p) + 1 ≡ count_caps s
unfolding live
count-take_at s (id, h) c e =
    let (t, f, g) = table_at s id h c e in
    rw (take_at_found s id h t f, take_ok t h c g)
      (count-put s id t (vacate t (index h)) f
        (count-vacate t (index h) (generation h) c (get→live t h c g)))
