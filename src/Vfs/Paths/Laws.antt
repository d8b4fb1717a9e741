-- ===== src/Vfs/Paths/Laws.antt =====
-- Paths and their components: taking apart what was put together, and prefixes.
use pureshade_os.Base.{
  ℕ, zero, suc, ◌≡◌, refl, ap₂, ◌≢◌, true, some, List, [], ◌∷◌, ◌++◌, arith, ◌==◌, length, drop,
  ne→not_==, Bool-cases, not_==→ne, sym, subst, inl, inr,
}
use pureshade_os.Base.Names.{Name, same_name_iff, same_name_refl}
use pureshade_os.Vfs.Paths.{
  slash, onto_first, split, non_empty, components, starts_with_slash, is_prefix, all_equal, joined,
  rel_path,
}

-- No byte of the text is a slash.
abbrev pub NoSlash : Name → Type 0
NoSlash [] = Unit {0}
NoSlash (c ∷ cs) = (c ≢ slash) × NoSlash cs

-- A component: neither empty nor with a slash in it.
abbrev pub IsComponent : Name → Type 0
IsComponent [] = ⊥
IsComponent (c ∷ cs) = NoSlash (c ∷ cs)

abbrev pub AllComponents : List Name → Type 0
AllComponents [] = Unit {0}
AllComponents (c ∷ cs) = IsComponent c × AllComponents cs

-- Nothing behind, or a slash.
abbrev AtBreak : List ℕ → Type 0
AtBreak [] = Unit {0}
AtBreak (c ∷ cs) = c ≡ slash

-- The pieces behind the first.
abbrev later : List Name → List Name
later [] = []
later (p ∷ ps) = ps

split-slash : (cs : List ℕ) → split (slash ∷ cs) ≡ [] ∷ split cs
unfolding split
split-slash cs = refl

split_other : (c : ℕ) (cs : List ℕ) → c ≢ slash → split (c ∷ cs) ≡ onto_first c (split cs)
unfolding split
split_other c cs d = rw (ne→not_== c slash d) refl

split_nil : split [] ≡ [] ∷ []
unfolding split
split_nil = refl

split_break : (rest : List ℕ) → AtBreak rest → split rest ≡ [] ∷ later (split rest)
split_break [] h = rw split_nil refl
split_break (c ∷ cs) h = rw (h, split-slash cs) refl

-- Up to the next slash a text without one is a piece.
split_piece :
    (n : Name) (rest : List ℕ)
    → NoSlash n
    → AtBreak rest
    → split (n ++ rest) ≡ n ∷ later (split rest)
split_piece [] rest h b = split_break rest b
split_piece (c ∷ n) rest h b = rw (split_other c (n ++ rest) h.0, split_piece n rest h.1 b) refl

joined-AtBreak : (cs : List Name) → AtBreak (joined cs)
joined-AtBreak [] = tt
joined-AtBreak (c ∷ cs) = refl

non_empty-later :
    (rest : List ℕ) → AtBreak rest → non_empty (split rest) ≡ non_empty (later (split rest))
unfolding non_empty
non_empty-later rest b = rw (split_break rest b) refl

non_empty_component :
    (c : Name) (ps : List Name) → IsComponent c → non_empty (c ∷ ps) ≡ c ∷ non_empty ps
unfolding non_empty
non_empty_component [] ps h = absurd h
non_empty_component (x ∷ c) ps h = refl

component-NoSlash : (c : Name) → IsComponent c → NoSlash c
component-NoSlash [] h = absurd h
component-NoSlash (x ∷ c) h = h

non_empty_nothing : (ps : List Name) → non_empty ([] ∷ ps) ≡ non_empty ps
unfolding non_empty
non_empty_nothing ps = refl

non_empty_nil : non_empty [] ≡ []
unfolding non_empty
non_empty_nil = refl

pieces-joined : (cs : List Name) → AllComponents cs → non_empty (split (joined cs)) ≡ cs
pieces-joined [] h = rw (split_nil, non_empty_nothing [], non_empty_nil) refl
pieces-joined (c ∷ cs) h =
    rw
      (
        split-slash (c ++ joined cs),
        split_piece c (joined cs) (component-NoSlash c h.0) (joined-AtBreak cs),
        non_empty_nothing (c ∷ later (split (joined cs))),
        non_empty_component c (later (split (joined cs))) h.0,
        ← non_empty-later (joined cs) (joined-AtBreak cs),
        pieces-joined cs h.1,
      )
      refl

components-slash : (cs : List ℕ) → components (slash ∷ cs) ≡ some (non_empty (split cs))
unfolding components starts_with_slash split non_empty
components-slash cs = refl

-- Taking apart the path that was built from a list of components gives the list: a backend that
-- splits the path it is handed sees the components that were left behind the mount point.
pub components-rel_path : (cs : List Name) → AllComponents cs → components (rel_path cs) ≡ some cs
unfolding rel_path
components-rel_path [] h =
    rw (components-slash [], split_nil, non_empty_nothing [], non_empty_nil) refl
components-rel_path (c ∷ cs) h =
    rw
      (
        components-slash (c ++ joined cs),
        split_piece c (joined cs) (component-NoSlash c h.0) (joined-AtBreak cs),
        non_empty_component c (later (split (joined cs))) h.0,
        ← non_empty-later (joined cs) (joined-AtBreak cs),
        pieces-joined cs h.1,
      )
      refl

-- What `split` gives has no slash in it.
AllNoSlash : List Name → Type 0
AllNoSlash [] = Unit {0}
AllNoSlash (p ∷ ps) = NoSlash p × AllNoSlash ps

onto_first-NoSlash :
    (c : ℕ) (ps : List Name) → c ≢ slash → AllNoSlash ps → AllNoSlash (onto_first c ps)
unfolding AllNoSlash
onto_first-NoSlash c [] d h = ((d, tt), tt)
onto_first-NoSlash c (p ∷ ps) d h = ((d, h.0), h.1)

split-NoSlash : (cs : List ℕ) → AllNoSlash (split cs)
unfolding AllNoSlash split
split-NoSlash [] = (tt, tt)
split-NoSlash (c ∷ cs) = elim (Bool-cases (c == slash)) [
  | inl e ↦ rw e (tt, split-NoSlash cs)
  | inr e ↦ rw e (onto_first-NoSlash c (split cs) (not_==→ne c slash e) (split-NoSlash cs))
]

non_empty-AllComponents : (ps : List Name) → AllNoSlash ps → AllComponents (non_empty ps)
unfolding AllNoSlash non_empty
non_empty-AllComponents [] h = tt
non_empty-AllComponents ([] ∷ ps) h = non_empty-AllComponents ps h.1
non_empty-AllComponents ((c ∷ p) ∷ ps) h = (h.0, non_empty-AllComponents ps h.1)

components-pieces :
    (path : List ℕ) (cs : List Name) → components path ≡ some cs → non_empty (split path) ≡ cs
unfolding components
components-pieces path cs e = ground arith

-- The components of a path are components.
pub components-AllComponents :
    (path : List ℕ) (cs : List Name) → components path ≡ some cs → AllComponents cs
components-AllComponents path cs e =
    subst AllComponents (components-pieces path cs e)
      (non_empty-AllComponents (split path) (split-NoSlash path))

not_prefix : (a : Name) (pre : List Name) → is_prefix (a ∷ pre) [] ≢ true
unfolding is_prefix all_equal
not_prefix a pre h = ground arith

prefix_parts :
    (a b : Name) (pre full : List Name)
    → is_prefix (a ∷ pre) (b ∷ full) ≡ true
    → (a ≡ b) × (is_prefix pre full ≡ true)
unfolding is_prefix all_equal
prefix_parts a b pre full h = ground (arith, (same_name_iff a b).0)

-- A component-wise prefix is one: the rest is what `drop` leaves.
pub is_prefix-drop :
    (pre full : List Name) → is_prefix pre full ≡ true → full ≡ pre ++ drop (length pre) full
unfolding is_prefix all_equal
is_prefix-drop [] full h = refl
is_prefix-drop (a ∷ pre) [] h = absurd (not_prefix a pre h)
is_prefix-drop (a ∷ pre) (b ∷ full) h =
    let p = prefix_parts a b pre full h in
    ap₂ (λ x xs. x ∷ xs) (sym p.0) (is_prefix-drop pre full p.1)

pub is_prefix-append : (pre tail : List Name) → is_prefix pre (pre ++ tail) ≡ true
unfolding is_prefix all_equal
is_prefix-append [] tail = ground arith
is_prefix-append (a ∷ pre) tail = ground (arith, same_name_refl a, is_prefix-append pre tail)

pub drop-AllComponents : (n : ℕ) (cs : List Name) → AllComponents cs → AllComponents (drop n cs)
drop-AllComponents zero cs h = h
drop-AllComponents (suc n) [] h = tt
drop-AllComponents (suc n) (c ∷ cs) h = drop-AllComponents n cs h.1
