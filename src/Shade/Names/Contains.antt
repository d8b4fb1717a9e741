-- ===== src/Shade/Names/Contains.antt =====
-- Membership in a set of names.
use pureshade_os.Base.{◌≡◌, refl, ◌⊎◌, inl, inr, Bool, true, ◌||◌, [], ◌∷◌, ◌++◌, arith}
use pureshade_os.Base.Names.{Name, same_name, same_name_iff, same_name_refl}
use pureshade_os.Shade.Names.{NameSet, contains}

pub contains-append :
    (s t : NameSet) (d : Name) → contains (s ++ t) d ≡ (contains s d || contains t d)
unfolding contains
contains-append [] t d = refl
contains-append (c ∷ s) t d = ground (arith, contains-append s t d)

pub or_left : (a b : Bool) → a ≡ true → (a || b) ≡ true
or_left a b h = ground arith

pub or_right : (a b : Bool) → b ≡ true → (a || b) ≡ true
or_right a b h = ground arith

pub or_cases : (a b : Bool) → (a || b) ≡ true → (a ≡ true) ⊎ (b ≡ true)
or_cases a b h = ground arith

pub none_contains : {A : Type 0} (d : Name) → contains [] d ≡ true → A
unfolding contains
none_contains d e = cc

pub contains-cons :
    (c d : Name) (s : NameSet) → contains (c ∷ s) d ≡ true → (c ≡ d) ⊎ (contains s d ≡ true)
unfolding contains
contains-cons c d s h = elim (or_cases (same_name c d) (contains s d) h) [
  | inl e ↦ inl ((same_name_iff c d).0 e)
  | inr e ↦ inr e
]

pub contains-here : (c : Name) (s : NameSet) → contains (c ∷ s) c ≡ true
unfolding contains
contains-here c s = or_left (same_name c c) (contains s c) (same_name_refl c)

pub contains-there : (c d : Name) (s : NameSet) → contains s d ≡ true → contains (c ∷ s) d ≡ true
unfolding contains
contains-there c d s h = or_right (same_name c d) (contains s d) h
