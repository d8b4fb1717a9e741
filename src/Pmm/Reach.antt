-- ===== src/Pmm/Reach.antt =====
-- Every state that the allocator can be brought to has the right free count.
use pureshade_os.Base.{
  ℕ, zero, suc, ◌+◌, ◌<◌, ◌≡◌, refl, sym, ◌∙◌, inl, inr, Option, none, some, List, arith,
  Option-cases, subst,
}
use pureshade_os.Pmm.{
  max_frames, frame_size, Region, init_from_limine, Pmm, free_frame, alloc_frame,
  alloc_frames_contiguous, free_frames_contiguous,
}
use pureshade_os.Pmm.Valid.{IsValid, init-IsValid, alloc_frame-IsValid, free_frame-IsValid}
use pureshade_os.Pmm.Contiguous.{alloc_frames_contiguous_lem}

-- The calls that return, one after the other.
pub data Step : Pmm → Pmm → Type 0 where
  alloc : (p : Pmm) → Step p (alloc_frame p).0
  free : (p q : Pmm) (addr : ℕ) → free_frame p addr ≡ some q → Step p q
  alloc_run :
      (p : Pmm) (fuel n : ℕ) (r : Pmm × Option ℕ)
      → max_frames < fuel
      → alloc_frames_contiguous fuel p n ≡ some r
      → Step p r.0
  free_run : (p q : Pmm) (addr n : ℕ) → free_frames_contiguous p addr n ≡ some q → Step p q

pub data Reach (s : Pmm) : Pmm → Type 0 where
  here : Reach s s
  next : {p q : Pmm} → Reach s p → Step p q → Reach s q

run-IsValid :
    (p : Pmm) (fuel n : ℕ) (r : Pmm × Option ℕ)
    → max_frames < fuel
    → alloc_frames_contiguous fuel p n ≡ some r
    → IsValid p
    → IsValid r.0
unfolding alloc_frames_contiguous
run-IsValid p fuel zero r l e v = subst (λ x. IsValid x.0) (same (p, none) r e) v
  where
    same : (a b : Pmm × Option ℕ) → some a ≡ some b → a ≡ b
    same a b q = cc
run-IsValid p fuel (suc n) r l e v =
    let (t, f, o, w) = alloc_frames_contiguous_lem fuel (suc n) p l (omega arith) v in
    subst (λ x. IsValid x.0) (same t r (sym f ∙ e)) w
  where
    same : (a b : Pmm × Option ℕ) → some a ≡ some b → a ≡ b
    same a b q = cc

free_run-IsValid :
    (p q : Pmm) (addr n : ℕ) → free_frames_contiguous p addr n ≡ some q → IsValid p → IsValid q
unfolding free_frames_contiguous
free_run-IsValid p q addr zero e v = subst IsValid (same p q e) v
  where
    same : (a b : Pmm) → some a ≡ some b → a ≡ b
    same a b h = cc
free_run-IsValid p q addr (suc n) e v = elim (Option-cases (free_frame p addr)) [
  | inl f ↦ absurd (none_ne q (sym (stops f) ∙ e))
  | inr (m, f) ↦
      free_run-IsValid m q (addr + frame_size) n (sym (goes m f) ∙ e)
        (free_frame-IsValid p m addr v f)
]
  where
    none_ne : (a : Pmm) → none ≡ some a → ⊥
    none_ne a h = cc

    stops : free_frame p addr ≡ none → free_frames_contiguous p addr (suc n) ≡ none
    stops f = rw (f, free_frames_contiguous) refl

    goes :
        (m : Pmm)
        → free_frame p addr ≡ some m
        → free_frames_contiguous p addr (suc n) ≡ free_frames_contiguous m (addr + frame_size) n
    goes m f = rw (f, free_frames_contiguous) refl

Step-IsValid : {p q : Pmm} → Step p q → IsValid p → IsValid q
Step-IsValid (alloc p) v = alloc_frame-IsValid p v
Step-IsValid (free p q addr e) v = free_frame-IsValid p q addr v e
Step-IsValid (alloc_run p fuel n r l e) v = run-IsValid p fuel n r l e v
Step-IsValid (free_run p q addr n e) v = free_run-IsValid p q addr n e v

-- From the initialisation on, over any sequence of calls that return, the bitmap has one bit for
-- each frame, and the free count is the number of free frames.
pub Reach-IsValid :
    (rs : List Region) (kb ke : ℕ) (p : Pmm) → Reach (init_from_limine rs kb ke) p → IsValid p
Reach-IsValid rs kb ke p here = init-IsValid rs kb ke
Reach-IsValid rs kb ke q (next r st) = Step-IsValid st (Reach-IsValid rs kb ke _ r)
