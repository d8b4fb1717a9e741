-- ===== src/Rfs2/Fs/Flip.antt =====
-- The pointer flip: before it a mount finds the old superblock, after it the new one.
use pureshade_os.Base.{
  ℕ, ◌<◌, ◌≡◌, ◌≢◌, refl, ap, sym, ◌∙◌, subst, ◌⊎◌, inl, inr, Bool, true, false, not, Option, none,
  some, List, arith, ◌==◌, leb, if◌then◌else◌, lt→ltb, le→not_ltb, ne→not_==, Option-cases,
}
use pureshade_os.Base.Result.{Result, ok, err, err_ne_ok}
use pureshade_os.Rfs2.Layout.{Error, StaticHeader, sb_slot_a, sb_slot_b, gen_limit}
use pureshade_os.Rfs2.Device.{BlockDevice}
use pureshade_os.Rfs2.Device.Crash.{IsDurable}
use pureshade_os.Rfs2.Transform.{BlockTransform}
use pureshade_os.Rfs2.Superblock.{Superblock, slot_of, sealed_slot, write_slot}
use pureshade_os.Rfs2.Fs.{
  Rfs2, select_current, mounted, target_slot, next_superblock, rotated, finish, second_barrier,
  flip, commit,
}
use pureshade_os.Rfs2.Fs.Staged.{Staged}

-- One of the two slots, and the other one.
abbrev pub IsSlot : ℕ → Type 0
IsSlot s = (s ≡ sb_slot_a) ⊎ (s ≡ sb_slot_b)

abbrev pub other_slot : ℕ → ℕ
other_slot s = if s == sb_slot_a then sb_slot_b else sb_slot_a

-- What a mount finds when the superblock is in slot `s` and `other` in the other one.
module _ (x : BlockTransform) (h : StaticHeader) (e : ℕ → List ℕ) (sb : Superblock) where
  abbrev Finds : Option Superblock → ℕ → Type 0
  Finds other s =
      slot_of x s h (e s) ≡ some sb
      → slot_of x (other_slot s) h (e (other_slot s)) ≡ other
      → mounted x h e ≡ ok (sb, s, other)

  pub Finds-only : (s : ℕ) → IsSlot s → Finds none s
  unfolding select_current
  Finds-only s (inl i) = subst (Finds none) (sym i) (λ a b. rw (a, b) refl)
  Finds-only s (inr i) = subst (Finds none) (sym i) (λ a b. rw (a, b) refl)

  pub Finds-newer : (s : ℕ) (t : Superblock) → IsSlot s → t.gen < sb.gen → Finds (some t) s
  unfolding select_current
  Finds-newer s t (inl i) l =
      subst (Finds (some t)) (sym i) (λ a b.
        rw (a, b, ne→not_== sb.gen t.gen (λ q. omega (arith, q)), lt→ltb t.gen sb.gen l) refl)
  Finds-newer s t (inr i) l = subst (Finds (some t)) (sym i) (λ a b.
      rw
        (
          b,
          a,
          ne→not_== t.gen sb.gen (λ q. omega (arith, q)),
          le→not_ltb sb.gen t.gen (omega arith),
        )
        refl)

  -- The other slot is not valid or older.
  pub Finds-older :
      (s : ℕ)
      → IsSlot s
      → slot_of x s h (e s) ≡ some sb
      → ((t : Superblock) → slot_of x (other_slot s) h (e (other_slot s)) ≡ some t → t.gen < sb.gen)
      → mounted x h e ≡ ok (sb, s, slot_of x (other_slot s) h (e (other_slot s)))
  Finds-older s i f older = elim (Option-cases (slot_of x (other_slot s) h (e (other_slot s)))) [
    | inl o ↦ Finds-only s i f o ∙ ap (λ p. ok (sb, s, p)) (sym o)
    | inr (t, o) ↦ Finds-newer s t i (older t o) f o ∙ ap (λ p. ok (sb, s, p)) (sym o)
  ]

module _ {D : Type 0} (device : BlockDevice D) (x : BlockTransform) (cells : D → ℕ → List ℕ)
    (Survives : D → (ℕ → List ℕ) → Type 0) (law : IsDurable device cells Survives)
    (base : ℕ → List ℕ) (old fs : Rfs2 D) (v : Staged device x cells Survives base old fs)
    (now : ℕ) where
  finish_dev : (r : D × Result Error (Unit {0})) → (finish device x now fs r).0.dev ≡ r.0
  unfolding finish rotated
  finish_dev (dev, err e) = refl
  finish_dev (dev, ok done) = refl

  second_barrier_lost :
      (r : D × Result Error (Unit {0})) (e : ℕ → List ℕ)
      → Survives (second_barrier device x now fs r).0.dev e
      → Survives r.0 e
  unfolding second_barrier
  second_barrier_lost (dev, err f) e s = s
  second_barrier_lost (dev, ok done) e s =
      law.flush_lost dev e (subst (λ d. Survives d e) (finish_dev (device.flush dev)) s)

  abbrev Flipping : D × Result Error (Unit {0}) → (ℕ → List ℕ) → Type 0
  Flipping r e =
      Survives r.0 e
      ⊎ ((r.1 ≡ ok tt)
          × Survives (write_slot device x r.0 (target_slot fs) (next_superblock fs now)).0 e)

  flip_lost :
      (r : D × Result Error (Unit {0})) (e : ℕ → List ℕ)
      → Survives (flip device x now fs r).0.dev e
      → Flipping r e
  unfolding flip
  flip_lost (dev, err f) e s = inl s
  flip_lost (dev, ok done) e s = inr (
    refl,
    second_barrier_lost (write_slot device x dev (target_slot fs) (next_superblock fs now)) e s,
  )

  either_lost :
      (t : Bool) (a b : Rfs2 D × Result Error (Unit {0})) (e : ℕ → List ℕ) (P : Type 0)
      → (Survives a.0.dev e → P)
      → (Survives b.0.dev e → P)
      → Survives (if t then a else b).0.dev e
      → P
  either_lost true a b e P f g s = f s
  either_lost false a b e P f g s = g s

  -- A loss of power before the write of the slot, or one after it, which the first barrier precedes.
  abbrev pub BeforeOrAfter : (ℕ → List ℕ) → Type 0
  BeforeOrAfter e =
      Survives fs.dev e
      ⊎ (((device.flush fs.dev).1 ≡ ok tt)
          × Survives
              (write_slot device x (device.flush fs.dev).0 (target_slot fs)
                (next_superblock fs now)).0
              e)

  -- The moments of a commit: before it, after the first barrier, after the write of the slot, which
  -- only a barrier that has succeeded lets happen, and when it has returned, with whatever answer.
  abbrev pub PowerLost : (ℕ → List ℕ) → Type 0
  PowerLost e =
      BeforeOrAfter e
      ⊎ (Survives (device.flush fs.dev).0 e ⊎ Survives (commit device x now fs).0.dev e)

  flushed_lost : (e : ℕ → List ℕ) → Flipping (device.flush fs.dev) e → BeforeOrAfter e
  flushed_lost e (inl s) = inl (law.flush_lost fs.dev e s)
  flushed_lost e (inr s) = inr s

  pub commit_lost : (e : ℕ → List ℕ) → PowerLost e → BeforeOrAfter e
  unfolding commit
  commit_lost e (inl s) = s
  commit_lost e (inr (inl s)) = inl (law.flush_lost fs.dev e s)
  commit_lost e (inr (inr s)) =
      let flipped = flip device x now fs (device.flush fs.dev) in
      either_lost (not fs.dirty) (fs, ok tt)
        (if leb gen_limit fs.sb.gen then (fs, err Error.gen_exhausted) else flipped) e
        (BeforeOrAfter e) (λ s. inl s)
        (either_lost (leb gen_limit fs.sb.gen) (fs, err Error.gen_exhausted) flipped e
          (BeforeOrAfter e) (λ s. inl s)
          (λ s. flushed_lost e (flip_lost (device.flush fs.dev) e s)))
        s

  -- A write of the slot that is interrupted leaves there what was there, the whole new slot, or what
  -- does not authenticate.
  abbrev pub DetectsTears : Type 0
  DetectsTears =
      (d : D) (e : ℕ → List ℕ)
      → Survives (write_slot device x d (target_slot fs) (next_superblock fs now)).0 e
      → (before : ℕ → List ℕ) × Survives d before
        × ((e (target_slot fs) ≡ before (target_slot fs))
            ⊎ ((e (target_slot fs) ≡ sealed_slot x (target_slot fs) (next_superblock fs now))
                ⊎ (slot_of x (target_slot fs) fs.header (e (target_slot fs)) ≡ none)))

  -- What a step that has succeeded came from.
  finish_ok :
      (r : D × Result Error (Unit {0})) (after : Rfs2 D)
      → finish device x now fs r ≡ (after, ok tt)
      → (r.1 ≡ ok tt) × (rotated fs now r.0 ≡ after)
  unfolding finish
  finish_ok (dev, err e) after q = absurd (err_ne_ok e tt (ap (λ p. p.1) q))
  finish_ok (dev, ok done) after q = (refl, ap (λ p. p.0) q)

  second_barrier_ok :
      (r : D × Result Error (Unit {0})) (after : Rfs2 D)
      → second_barrier device x now fs r ≡ (after, ok tt)
      → (r.1 ≡ ok tt)
        × ((device.flush r.0).1 ≡ ok tt)
        × (rotated fs now (device.flush r.0).0 ≡ after)
  unfolding second_barrier
  second_barrier_ok (dev, err e) after q = absurd (err_ne_ok e tt (ap (λ p. p.1) q))
  second_barrier_ok (dev, ok done) after q =
      let f = finish_ok (device.flush dev) after q in (refl, f.0, f.1)

  flip_ok :
      (r : D × Result Error (Unit {0})) (after : Rfs2 D)
      → flip device x now fs r ≡ (after, ok tt)
      → let w = write_slot device x r.0 (target_slot fs) (next_superblock fs now) in
        (w.1 ≡ ok tt)
        × ((device.flush w.0).1 ≡ ok tt)
        × (rotated fs now (device.flush w.0).0 ≡ after)
  unfolding flip
  flip_ok (dev, err e) after q = absurd (err_ne_ok e tt (ap (λ p. p.1) q))
  flip_ok (dev, ok done) after q =
      second_barrier_ok (write_slot device x dev (target_slot fs) (next_superblock fs now)) after q

  last_branch :
      (t u : Bool) (c : Rfs2 D × Result Error (Unit {0})) (after : Rfs2 D)
      → t ≡ true
      → (if not t then (fs, ok tt) else if u then (fs, err Error.gen_exhausted) else c)
        ≡ (after, ok tt)
      → c ≡ (after, ok tt)
  last_branch false u c after h q = cc
  last_branch true true c after h q = absurd (err_ne_ok Error.gen_exhausted tt (ap (λ p. p.1) q))
  last_branch true false c after h q = q

  -- A commit of staged changes that succeeds makes everything that was written durable, with the new
  -- superblock sealed in the target slot: nothing else is in the disk's future.
  pub commit_durable :
      (after : Rfs2 D) (e : ℕ → List ℕ)
      → fs.dirty ≡ true
      → commit device x now fs ≡ (after, ok tt)
      → Survives after.dev e
      → ((c : ℕ) → c ≢ target_slot fs → e c ≡ cells fs.dev c)
        × (e (target_slot fs) ≡ sealed_slot x (target_slot fs) after.sb)
        × (after.sb ≡ next_superblock fs now)
        × (after.cur_slot ≡ target_slot fs)
  unfolding commit rotated
  commit_durable after e d q s =
      let flushed = device.flush fs.dev in
      let w = write_slot device x flushed.0 (target_slot fs) (next_superblock fs now) in
      let r =
        flip_ok flushed after (
          last_branch fs.dirty (leb gen_limit fs.sb.gen) (flip device x now fs flushed) after d
            q) in
      let sealed = sealed_slot x (target_slot fs) (next_superblock fs now) in
      let s' : Survives (device.flush w.0).0 e = subst (λ f. Survives f.dev e) (sym r.2) s in
      let seen = law.flush_durable w.0 e r.1 s' in
      (
        λ c n.
            seen c
            ∙ law.write_elsewhere flushed.0 (target_slot fs) c sealed n
            ∙ law.flush_cells fs.dev c,
        seen (target_slot fs)
            ∙ law.write_here flushed.0 (target_slot fs) sealed r.0
            ∙ ap (λ f. sealed_slot x (target_slot fs) f.sb) r.2,
        sym (ap (λ f. f.sb) r.2),
        sym (ap (λ f. f.cur_slot) r.2),
      )
