-- ===== src/Vfs/Mount/Routing.antt =====
-- Routing: a path goes to the mount with the longest mount point above it.
use pureshade_os.Base.{
  ℕ, ◌≤◌, ◌≡◌, refl, sym, ◌≢◌, inl, inr, true, none, some, List, ◌++◌, length, drop, get_elem?, ◌∙◌,
}
use pureshade_os.Base.Result.{ok, err}
use pureshade_os.Base.Names.{Name}
use pureshade_os.Vfs.Paths.{components, is_prefix}
use pureshade_os.Vfs.Paths.Laws.{
  components-rel_path, components-AllComponents, is_prefix-drop, is_prefix-append,
  drop-AllComponents,
}
use pureshade_os.Vfs.Store.{BackendId}
use pureshade_os.Vfs.Mount.{MountError, Mount, MountTable, covering_mount, left_behind, resolve}
use pureshade_os.Vfs.Mount.Covering.{true_ne_false, Covering, covering_mount-cases}

resolve_covered :
    (ms : MountTable) (path : List ℕ) (comps : List Name) (m : Mount)
    → components path ≡ some comps
    → covering_mount ms comps ≡ some m
    → resolve ms path ≡ ok (m.backend_id, left_behind m comps)
unfolding resolve
resolve_covered ms path comps m e f = rw (e, f) refl

resolve_uncovered :
    (ms : MountTable) (path : List ℕ) (comps : List Name)
    → components path ≡ some comps
    → covering_mount ms comps ≡ none
    → resolve ms path ≡ err MountError.not_mounted
unfolding resolve
resolve_uncovered ms path comps e f = rw (e, f) refl

components-left_behind :
    (m : Mount) (path : List ℕ) (comps : List Name)
    → components path ≡ some comps
    → components (left_behind m comps) ≡ some (drop (length m.at_point) comps)
unfolding left_behind
components-left_behind m path comps e =
    components-rel_path (drop (length m.at_point) comps)
      (drop-AllComponents (length m.at_point) comps (components-AllComponents path comps e))

prefix_of : (pre tail full : List Name) → full ≡ pre ++ tail → is_prefix pre full ≡ true
prefix_of pre tail full e = rw e (is_prefix-append pre tail)

-- The backend and the path that `resolve` gives: those of a mount of the table whose point,
-- followed by the components of the path given, is the path asked for, and which has the longest
-- point of all mounts above that path.
abbrev pub RoutesTo : MountTable → List Name → BackendId → List ℕ → Type 0
RoutesTo ms comps id rel =
    (j : ℕ) × (m : Mount) × (tail : List Name) × (get_elem? ms j ≡ some m)
    × (m.backend_id ≡ id)
    × (comps ≡ m.at_point ++ tail)
    × (components rel ≡ some tail)
    × ((j' : ℕ) (m' : Mount) (tail' : List Name)
        → get_elem? ms j' ≡ some m'
        → comps ≡ m'.at_point ++ tail'
        → length m'.at_point ≤ length m.at_point)

Covering-RoutesTo :
    (ms : MountTable) (path : List ℕ) (comps : List Name) (m : Mount)
    → components path ≡ some comps
    → Covering ms comps m
    → RoutesTo ms comps m.backend_id (left_behind m comps)
Covering-RoutesTo ms path comps m e ((j, at), p, most) = (
  j,
  m,
  drop (length m.at_point) comps,
  at,
  refl,
  is_prefix-drop m.at_point comps p,
  components-left_behind m path comps e,
  λ j' m' tail' at' e'. most j' m' at' (prefix_of m'.at_point tail' comps e'),
)

-- Every absolute path with a mount above it is routed: to the backend of a mount above it whose
-- point is the longest of all those above it, and with exactly the components behind that point.
pub resolve_longest :
    (ms : MountTable) (path : List ℕ) (j : ℕ) (m : Mount) (tail : List Name)
    → get_elem? ms j ≡ some m
    → components path ≡ some (m.at_point ++ tail)
    → (id : BackendId) × (rel : List ℕ) × (resolve ms path ≡ ok (id, rel))
      × RoutesTo ms (m.at_point ++ tail) id rel
resolve_longest ms path j m tail at e = elim (covering_mount-cases ms (m.at_point ++ tail)) [
  | inl (f, uncovered) ↦
      absurd (true_ne_false (sym (is_prefix-append m.at_point tail) ∙ uncovered j m at))
  | inr (c, f, covering) ↦ (
    c.backend_id,
    left_behind c (m.at_point ++ tail),
    resolve_covered ms path (m.at_point ++ tail) c e f,
    Covering-RoutesTo ms path (m.at_point ++ tail) c e covering,
  )
]

-- An absolute path with no mount above it is not mounted.
pub resolve_not_mounted :
    (ms : MountTable) (path : List ℕ) (comps : List Name)
    → components path ≡ some comps
    → ((j : ℕ) (m : Mount) (tail : List Name)
        → get_elem? ms j ≡ some m
        → comps ≢ m.at_point ++ tail)
    → resolve ms path ≡ err MountError.not_mounted
resolve_not_mounted ms path comps e h = elim (covering_mount-cases ms comps) [
  | inl (f, uncovered) ↦ resolve_uncovered ms path comps e f
  | inr (c, f, ((j, at), p, most)) ↦
      absurd (h j c (drop (length c.at_point) comps) at (is_prefix-drop c.at_point comps p))
]
