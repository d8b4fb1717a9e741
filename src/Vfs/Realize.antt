-- ===== src/Vfs/Realize.antt =====
-- The guard that keeps realized store paths read-only: fs/vfs-core/src/realize.rs.
pub mod Laws
use pureshade_os.Base.{ℕ, Bool, true, false, Option, none, some, List, [], ◌∷◌, ◌||◌, if◌then◌else◌}
use pureshade_os.Base.Result.{Result, ok, err}
use pureshade_os.Base.Names.{Name, same_name}
use pureshade_os.Vfs.Paths.{top_component, is_nested}
use pureshade_os.Vfs.Store.{FsError}

pub data RenameOutcome : Type 0 where
  proceed : Name → RenameOutcome
  no_op : RenameOutcome

-- The set of sealed names, as a list without repetition.
pub record RealizeGuard : Type 0 where
  pub sealed : List Name

unfoldable pub among : List Name → Name → Bool
among [] n = false
among (m ∷ ms) n = same_name m n || among ms n

unfoldable pub others : List Name → Name → List Name
others [] n = []
others (m ∷ ms) n = let rest = others ms n in if same_name m n then rest else m ∷ rest

abbrev pub is_sealed_name : RealizeGuard → Name → Bool
is_sealed_name g name = among g.sealed name

abbrev pub under_sealed : RealizeGuard → Option Name → Bool
under_sealed g none = false
under_sealed g (some name) = among g.sealed name

unfoldable pub is_sealed_path : RealizeGuard → List ℕ → Bool
is_sealed_path g rel = under_sealed g (top_component rel)

unfoldable pub seal : RealizeGuard → Name → RealizeGuard
seal g name = if is_sealed_name g name then g else record { sealed = name ∷ g.sealed }

unfoldable pub forget : RealizeGuard → Name → RealizeGuard × Bool
forget g name = (record { sealed = others g.sealed name }, is_sealed_name g name)

unfoldable pub check_mutate : RealizeGuard → List ℕ → Result FsError (Unit {0})
unfolding is_sealed_path
check_mutate g rel = if is_sealed_path g rel then err FsError.read_only else ok tt

unfoldable pub check_onto : RealizeGuard → List ℕ → Option Name → Result FsError RenameOutcome
check_onto g dst none = err FsError.invalid
check_onto g dst (some name) =
    if is_sealed_name g name
    then (if is_nested dst then err FsError.read_only else ok RenameOutcome.no_op)
    else ok (RenameOutcome.proceed name)

unfoldable pub check_rename : RealizeGuard → List ℕ → List ℕ → Result FsError RenameOutcome
check_rename g src dst =
    if is_sealed_path g src then err FsError.read_only else check_onto g dst (top_component dst)
