-- ===== src/Vfs/Realize/Laws.antt =====
-- What is sealed stays sealed until it is forgotten, and the two gates follow the seal exactly.
use pureshade_os.Base.{
  ℕ, ◌≡◌, refl, ◌∙◌, ◌≢◌, inl, inr, true, false, some, List, [], ◌∷◌, Bool-cases,
}
use pureshade_os.Base.Result.{ok, err}
use pureshade_os.Base.Names.{Name, same_name, same_name_iff, same_name_ne, same_name_refl}
use pureshade_os.Vfs.Paths.{top_component, is_nested}
use pureshade_os.Vfs.Store.{FsError}
use pureshade_os.Vfs.Realize.{
  RenameOutcome, RealizeGuard, among, others, is_sealed_name, is_sealed_path, seal, forget,
  check_mutate, check_onto, check_rename,
}

among-others_self : (ns : List Name) (n : Name) → among (others ns n) n ≡ false
unfolding among others
among-others_self [] n = refl
among-others_self (m ∷ ns) n = elim (Bool-cases (same_name m n)) [
  | inl e ↦ rw e (among-others_self ns n)
  | inr e ↦ rw (e, e) (among-others_self ns n)
]

among-others_ne : (ns : List Name) (n k : Name) → n ≢ k → among (others ns n) k ≡ among ns k
unfolding among others
among-others_ne [] n k d = refl
among-others_ne (m ∷ ns) n k d = elim (Bool-cases (same_name m n)) [
  | inl e ↦ rw (e, among-others_ne ns n k d, (same_name_iff m n).0 e, same_name_ne n k d) refl
  | inr e ↦ rw (e, among-others_ne ns n k d) refl
]

is_sealed-seal_self : (g : RealizeGuard) (n : Name) → is_sealed_name (seal g n) n ≡ true
unfolding seal among
is_sealed-seal_self g n = elim (Bool-cases (among g.sealed n)) [
  | inl e ↦ rw e e
  | inr e ↦ rw (e, same_name_refl n) refl
]

is_sealed-seal_ne :
    (g : RealizeGuard) (n k : Name) → n ≢ k → is_sealed_name (seal g n) k ≡ is_sealed_name g k
unfolding seal among
is_sealed-seal_ne g n k d = elim (Bool-cases (among g.sealed n)) [
  | inl e ↦ rw e refl
  | inr e ↦ rw (e, same_name_ne n k d) refl
]

-- Sealing a name makes it known as sealed and changes nothing for any other name; forgetting it
-- makes it unknown, reports whether it was sealed, and changes nothing for any other name.
pub is_sealed_name-seal-forget :
    (g : RealizeGuard) (n : Name)
    → (is_sealed_name (seal g n) n ≡ true)
      × ((k : Name) → n ≢ k → is_sealed_name (seal g n) k ≡ is_sealed_name g k)
      × (is_sealed_name (forget g n).0 n ≡ false)
      × ((forget g n).1 ≡ is_sealed_name g n)
      × ((k : Name) → n ≢ k → is_sealed_name (forget g n).0 k ≡ is_sealed_name g k)
unfolding forget
is_sealed_name-seal-forget g n = (
  is_sealed-seal_self g n,
  is_sealed-seal_ne g n,
  among-others_self g.sealed n,
  refl,
  among-others_ne g.sealed n,
)

mutate_sealed :
    (g : RealizeGuard) (rel : List ℕ) (n : Name)
    → top_component rel ≡ some n
    → is_sealed_name g n ≡ true
    → check_mutate g rel ≡ err FsError.read_only
unfolding check_mutate is_sealed_path
mutate_sealed g rel n t e = rw (t, e) refl

mutate_same :
    (g : RealizeGuard) (rel : List ℕ) (n k : Name)
    → top_component rel ≡ some k
    → n ≢ k
    → check_mutate (seal g n) rel ≡ check_mutate g rel
unfolding check_mutate is_sealed_path
mutate_same g rel n k t d = rw (t, is_sealed-seal_ne g n k d) refl

rename_sealed_src :
    (g : RealizeGuard) (src dst : List ℕ) (n : Name)
    → top_component src ≡ some n
    → is_sealed_name g n ≡ true
    → check_rename g src dst ≡ err FsError.read_only
unfolding check_rename is_sealed_path
rename_sealed_src g src dst n t e = rw (t, e) refl

rename_unsealed_src :
    (g : RealizeGuard) (src dst : List ℕ) (n : Name)
    → top_component src ≡ some n
    → is_sealed_name g n ≡ false
    → check_rename g src dst ≡ check_onto g dst (top_component dst)
unfolding check_rename is_sealed_path
rename_unsealed_src g src dst n t e = rw (t, e) refl

onto_sealed :
    (g : RealizeGuard) (dst : List ℕ) (n : Name)
    → top_component dst ≡ some n
    → is_sealed_name g n ≡ true
    → is_nested dst ≡ false
    → check_onto g dst (top_component dst) ≡ ok RenameOutcome.no_op
unfolding check_onto
onto_sealed g dst n t e f = rw (t, e, f) refl

onto_unsealed :
    (g : RealizeGuard) (dst : List ℕ) (n : Name)
    → top_component dst ≡ some n
    → is_sealed_name g n ≡ false
    → check_onto g dst (top_component dst) ≡ ok (RenameOutcome.proceed n)
unfolding check_onto
onto_unsealed g dst n t e = rw (t, e) refl

-- Two writers realize the same name `n` from two temporary entries `a` and `b`. The first is told
-- to go on and to seal `n`. From then on the second is told that there is nothing to do, nothing
-- under `n` can be changed or moved away, and what lies under another name can be changed as before.
pub realize_once :
    (g : RealizeGuard) (src_a src_b dst : List ℕ) (a b n : Name)
    → top_component src_a ≡ some a
    → top_component src_b ≡ some b
    → top_component dst ≡ some n
    → is_nested dst ≡ false
    → is_sealed_name g a ≡ false
    → is_sealed_name g b ≡ false
    → is_sealed_name g n ≡ false
    → n ≢ b
    → (check_rename g src_a dst ≡ ok (RenameOutcome.proceed n))
      × (check_rename (seal g n) src_b dst ≡ ok RenameOutcome.no_op)
      × ((rel : List ℕ)
          → top_component rel ≡ some n
          → check_mutate (seal g n) rel ≡ err FsError.read_only)
      × ((rel to : List ℕ)
          → top_component rel ≡ some n
          → check_rename (seal g n) rel to ≡ err FsError.read_only)
      × ((rel : List ℕ) (k : Name)
          → top_component rel ≡ some k
          → n ≢ k
          → check_mutate (seal g n) rel ≡ check_mutate g rel)
realize_once g src_a src_b dst a b n ta tb tn flat ua ub un d = (
  rename_unsealed_src g src_a dst a ta ua ∙ onto_unsealed g dst n tn un,
  rename_unsealed_src (seal g n) src_b dst b tb (is_sealed-seal_ne g n b d ∙ ub)
      ∙ onto_sealed (seal g n) dst n tn (is_sealed-seal_self g n) flat,
  λ rel t. mutate_sealed (seal g n) rel n t (is_sealed-seal_self g n),
  λ rel to t. rename_sealed_src (seal g n) rel to n t (is_sealed-seal_self g n),
  λ rel k t e. mutate_same g rel n k t e,
)

-- A rename from one path to another under the same unsealed name `n`, such as one inside a
-- temporary entry, is told to go on and to seal `n`. Once that is done, nothing under `n` can be
-- changed any more, and the entry can not be moved onto its final name.
pub rename_inside_seals :
    (g : RealizeGuard) (src dst : List ℕ) (n : Name)
    → top_component src ≡ some n
    → top_component dst ≡ some n
    → is_sealed_name g n ≡ false
    → (check_rename g src dst ≡ ok (RenameOutcome.proceed n))
      × (check_mutate (seal g n) dst ≡ err FsError.read_only)
      × ((rel final : List ℕ)
          → top_component rel ≡ some n
          → check_rename (seal g n) rel final ≡ err FsError.read_only)
rename_inside_seals g src dst n ts td u = (
  rename_unsealed_src g src dst n ts u ∙ onto_unsealed g dst n td u,
  mutate_sealed (seal g n) dst n td (is_sealed-seal_self g n),
  λ rel final t. rename_sealed_src (seal g n) rel final n t (is_sealed-seal_self g n),
)
