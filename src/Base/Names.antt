-- ===== src/Base/Names.antt =====
-- Texts that a program compares and takes apart, as lists of bytes.
use pureshade_os.Base.{
  ℕ, ◌≡◌, refl, ◌↔◌, ◌≢◌, Bool-cases, inl, inr, Bool, true, false, ◌&&◌, List, [], ◌∷◌, arith, ◌==◌,
}

abbrev pub Name : Type 0
Name = List ℕ

-- `==` on strings and byte slices.
unfoldable pub same_name : Name → Name → Bool
same_name [] [] = true
same_name [] (y ∷ ys) = false
same_name (x ∷ xs) [] = false
same_name (x ∷ xs) (y ∷ ys) = x == y && same_name xs ys

same→eq : (a b : Name) → same_name a b ≡ true → a ≡ b
unfolding same_name
same→eq [] [] h = refl
same→eq [] (y ∷ ys) h = cc
same→eq (x ∷ xs) [] h = cc
same→eq (x ∷ xs) (y ∷ ys) h = ground (arith, same→eq xs ys)

pub same_name_refl : (a : Name) → same_name a a ≡ true
unfolding same_name
same_name_refl [] = refl
same_name_refl (x ∷ xs) = ground (arith, same_name_refl xs)

pub same_name_iff : (a b : Name) → (same_name a b ≡ true) ↔ (a ≡ b)
same_name_iff a b = (same→eq a b, λ e. rw e (same_name_refl b))

pub same_name_ne : (a b : Name) → a ≢ b → same_name a b ≡ false
same_name_ne a b d = elim (Bool-cases (same_name a b)) [
  | inl e ↦ absurd (d (same→eq a b e))
  | inr e ↦ e
]

unfoldable pub same_names : List Name → List Name → Bool
same_names [] [] = true
same_names [] (y ∷ ys) = false
same_names (x ∷ xs) [] = false
same_names (x ∷ xs) (y ∷ ys) = same_name x y && same_names xs ys

sames→eq : (a b : List Name) → same_names a b ≡ true → a ≡ b
unfolding same_names
sames→eq [] [] h = refl
sames→eq [] (y ∷ ys) h = cc
sames→eq (x ∷ xs) [] h = cc
sames→eq (x ∷ xs) (y ∷ ys) h = ground (arith, sames→eq xs ys, same→eq x y)

pub same_names_refl : (a : List Name) → same_names a a ≡ true
unfolding same_names
same_names_refl [] = refl
same_names_refl (x ∷ xs) = ground (arith, same_names_refl xs, same_name_refl x)

pub same_names_iff : (a b : List Name) → (same_names a b ≡ true) ↔ (a ≡ b)
same_names_iff a b = (sames→eq a b, λ e. rw e (same_names_refl b))
