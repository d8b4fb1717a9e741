-- ===== src/Rfs2/Dirent/Outcome.antt =====
-- What an operation on a directory block makes of its chain.
use pureshade_os.Base.{
  ℕ, ◌+◌, ◌≤◌, ◌<◌, ◌≡◌, ◌≢◌, refl, inl, inr, Bool, true, false, not, ◌&&◌, List, ◌∷◌, arith,
  length, ◌==◌, if◌then◌else◌, subst, sym,
}
use pureshade_os.Base.Names.{Name, same_name}
use pureshade_os.Base.Writes.{Write, written, length-written, span-written_apart, Bounded}
use pureshade_os.Rfs2.Dirent.{Dirent, is_named}
use pureshade_os.Rfs2.Dirent.Record.{IsRecord}
use pureshade_os.Rfs2.Dirent.Chain.{Chain}
use pureshade_os.Rfs2.Dirent.Segments.{Agree, IsRecord-Agree, Chain-Agree}

pub live_named :
    (b : List ℕ) (off : ℕ) (name : Name) (d : Dirent)
    → IsRecord b off d
    → is_named name d ≡ true
    → 0 < length d.name
live_named b off name d i h = elim i.named [
  | inl e ↦
      absurd
        (dead (d.inode == 0) (same_name d.name name) h (subst (λ n. (n == 0) ≡ true) (sym e) refl))
  | inr p ↦ p
]
  where
    false_ne_true : false ≢ true
    false_ne_true h = cc

    dead : (a c : Bool) → (not a && c) ≡ true → a ≢ true
    dead true c h e = false_ne_true h
    dead false c h e = false_ne_true e

-- What an operation makes of the chain from `off` on: the records `es` in a block of the same length
-- that agrees with the old one before `off`, and its answer.
abbrev pub Outcome : List ℕ → ℕ → List Dirent → Bool → List ℕ × Bool → Type 0
Outcome b off es answer r =
    Chain r.0 off es × Agree b r.0 0 off × (length r.0 ≡ length b) × (r.1 ≡ answer)

-- The three loops decide by the same test.
pub either_Outcome :
    (t : Bool) (b : List ℕ) (off : ℕ) (es fs : List Dirent) (x y : Bool) (r s : List ℕ × Bool)
    → (t ≡ true → Outcome b off es x r)
    → (t ≡ false → Outcome b off fs y s)
    → Outcome b off (if t then es else fs) (if t then x else y) (if t then r else s)
either_Outcome true b off es fs x y r s p q = p refl
either_Outcome false b off es fs x y r s p q = q refl

-- The record before a changed chain stands as it stood.
pub Outcome-cons :
    (b : List ℕ) (off : ℕ) (d : Dirent) (es : List Dirent) (answer : Bool) (r : List ℕ × Bool)
    → IsRecord b off d
    → Outcome b (off + d.rec_len) es answer r
    → Outcome b off (d ∷ es) answer r
Outcome-cons b off d es answer r i o = (
  (IsRecord-Agree b r.0 off d i (λ k n p q. o.1 k n (omega arith) q), o.0),
  λ k n p q. o.1 k n p (omega arith),
  o.2,
  o.3,
)

-- Writes into one record, before its end, leave the chain behind it and the block before it.
pub Outcome-written :
    (ws : List Write) (b : List ℕ) (off hi : ℕ) (e : Dirent) (ds : List Dirent)
    → Bounded off hi ws
    → hi ≤ off + e.rec_len
    → Chain b (off + e.rec_len) ds
    → IsRecord (written ws b) off e
    → Outcome b off (e ∷ ds) true (written ws b, true)
Outcome-written ws b off hi e ds w h c i = (
  (
    i,
    Chain-Agree b (written ws b) (off + e.rec_len) ds c
        (λ k n p q. span-written_apart ws b off hi k n w (inr (omega arith))),
  ),
  λ k n p q. span-written_apart ws b off hi k n w (inl q),
  length-written ws b,
  refl,
)
