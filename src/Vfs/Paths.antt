-- ===== src/Vfs/Paths.antt =====
-- The path helpers of fs/vfs-core/src/mount.rs and realize.rs, over the bytes of a path.
pub mod Laws
use pureshade_os.Base.{
  ℕ, ◌+◌, Bool, true, false, Option, none, some, List, [], ◌∷◌, ◌++◌, ◌==◌, ◌&&◌, ltb, leb, length,
  if◌then◌else◌,
}
use pureshade_os.Base.Names.{Name, same_name}

abbrev pub slash : ℕ
slash = b'/'

-- The first piece gets one more byte in front.
abbrev pub onto_first : ℕ → List Name → List Name
onto_first c [] = (c ∷ []) ∷ []
onto_first c (p ∷ ps) = (c ∷ p) ∷ ps

-- `path.split('/')`.
unfoldable pub split : List ℕ → List Name
split [] = [] ∷ []
split (c ∷ cs) = let rest = split cs in if c == slash then [] ∷ rest else onto_first c rest

-- `.filter(|c| !c.is_empty())`.
unfoldable pub non_empty : List Name → List Name
non_empty [] = []
non_empty ([] ∷ ps) = non_empty ps
non_empty ((c ∷ p) ∷ ps) = (c ∷ p) ∷ non_empty ps

starts_with_slash : List ℕ → Bool
starts_with_slash [] = false
starts_with_slash (c ∷ cs) = c == slash

unfoldable pub components : List ℕ → Option (List Name)
unfolding starts_with_slash split non_empty
components path = if starts_with_slash path then some (non_empty (split path)) else none

-- Is `prefix` a component-wise prefix of `full`?
all_equal : List Name → List Name → Bool
all_equal [] full = true
all_equal (a ∷ as') [] = true
all_equal (a ∷ as') (b ∷ bs) = same_name a b && all_equal as' bs

unfoldable pub is_prefix : List Name → List Name → Bool
unfolding all_equal
is_prefix pre full = leb (length pre) (length full) && all_equal pre full

abbrev pub joined : List Name → List ℕ
joined [] = []
joined (c ∷ cs) = slash ∷ c ++ joined cs

unfoldable pub rel_path : List Name → List ℕ
rel_path [] = slash ∷ []
rel_path (c ∷ cs) = joined (c ∷ cs)

first_of_names : List Name → Option Name
first_of_names [] = none
first_of_names (p ∷ ps) = some p

-- `rel.split('/').find(|c| !c.is_empty())`.
unfoldable pub top_component : List ℕ → Option Name
unfolding first_of_names split non_empty
top_component rel = first_of_names (non_empty (split rel))

unfoldable pub is_nested : List ℕ → Bool
unfolding split non_empty
is_nested rel = ltb 1 (length (non_empty (split rel)))
