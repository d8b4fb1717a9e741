-- ===== src/Rfs2/Fs/Mounted.antt =====
-- What a mount finds after a commit, and after one that was interrupted.
use pureshade_os.Base.{
  ℕ, ◌+◌, ◌<◌, ◌≡◌, ◌≢◌, refl, ap, ap₂, sym, ◌∙◌, subst, ◌⊎◌, inl, inr, true, Option, none, some,
  List, arith,
}
use pureshade_os.Base.Result.{ok}
use pureshade_os.Rfs2.Device.{BlockDevice}
use pureshade_os.Rfs2.Device.Crash.{IsDurable}
use pureshade_os.Rfs2.Transform.{BlockTransform}
use pureshade_os.Rfs2.Transform.Laws.{IsLawful}
use pureshade_os.Rfs2.Superblock.{Superblock, slot_of, sealed_slot}
use pureshade_os.Rfs2.Superblock.Payload.{SuperblockFits}
use pureshade_os.Rfs2.Superblock.Slot.{slot_of-sealed_slot}
use pureshade_os.Rfs2.Fs.{Rfs2, mounted, target_slot, next_superblock, commit}
use pureshade_os.Rfs2.Fs.Staged.{Kept, Staged}
use pureshade_os.Rfs2.Fs.Flip.{
  IsSlot, other_slot, Finds-newer, Finds-older, commit_durable, PowerLost, commit_lost,
  DetectsTears,
}

-- The slot that is not current is the other one, and the current one is a block that is kept.
IsSlot-facts :
    (s : ℕ)
    → IsSlot s
    → (s < 3) × (s ≢ other_slot s) × IsSlot (other_slot s) × (other_slot (other_slot s) ≡ s)
IsSlot-facts s (inl i) =
    subst
      (λ s. (s < 3) × (s ≢ other_slot s) × IsSlot (other_slot s) × (other_slot (other_slot s) ≡ s))
      (sym i) (omega arith, λ q. omega (arith, q), inr refl, refl)
IsSlot-facts s (inr i) =
    subst
      (λ s. (s < 3) × (s ≢ other_slot s) × IsSlot (other_slot s) × (other_slot (other_slot s) ≡ s))
      (sym i) (omega arith, λ q. omega (arith, q), inl refl, refl)

module _ {D : Type 0} (device : BlockDevice D) (x : BlockTransform) (cells : D → ℕ → List ℕ)
    (Survives : D → (ℕ → List ℕ) → Type 0) (law : IsDurable device cells Survives)
    (base : ℕ → List ℕ) (old fs : Rfs2 D) (v : Staged device x cells Survives base old fs) (now : ℕ)
    (current : IsSlot fs.cur_slot)
    (found : slot_of x fs.cur_slot fs.header (base fs.cur_slot) ≡ some fs.sb) where
  -- Staged changes over a volume whose current slot holds the current superblock, on a device that
  -- keeps its promises: after a commit of them that has succeeded, a mount finds the new superblock, one
  -- generation higher, and the old one as the previous one, even if the power is lost at once.
  pub mounted-commit :
      (after : Rfs2 D) (e : ℕ → List ℕ)
      → IsLawful x
      → SuperblockFits (next_superblock fs now)
      → fs.dirty ≡ true
      → commit device x now fs ≡ (after, ok tt)
      → Survives after.dev e
      → (mounted x fs.header e ≡ ok (after.sb, after.cur_slot, some fs.sb))
        × (after.sb.gen ≡ fs.sb.gen + 1)
  unfolding next_superblock
  mounted-commit after e lawful fits d q s =
      let c = commit_durable device x cells Survives law base old fs v now after e d q s in
      let f = IsSlot-facts fs.cur_slot current in
      let new_found : slot_of x (target_slot fs) fs.header (e (target_slot fs))
          ≡ some (next_superblock fs now) =
        ap (slot_of x (target_slot fs) fs.header) (c.1 ∙ ap (sealed_slot x (target_slot fs)) c.2)
        ∙ slot_of-sealed_slot x (target_slot fs) fs.header (next_superblock fs now) lawful fits
            (record { gen = omega arith; total_blocks = refl; uuid = refl }) in
      let old_found : slot_of x fs.cur_slot fs.header (e fs.cur_slot) ≡ some fs.sb =
        ap (slot_of x fs.cur_slot fs.header) (c.0 fs.cur_slot f.1 ∙ v.read fs.cur_slot (inl f.0))
        ∙ found in
      (
        Finds-newer x fs.header e (next_superblock fs now) (target_slot fs) fs.sb f.2 (omega arith)
              new_found (subst (λ k. slot_of x k fs.header (e k) ≡ some fs.sb) (sym f.3) old_found)
            ∙ ap₂ (λ sb k. ok (sb, k, some fs.sb)) (sym c.2) (sym c.3),
        ap (λ sb. sb.gen) c.2,
      )

  -- A mount finds the old superblock, and every committed block but the target slot as it was; or it
  -- finds the new one, with the old one as the previous, and every block but the slot as staged.
  abbrev pub OldOrNew : (ℕ → List ℕ) → Type 0
  OldOrNew e =
      ((mounted x fs.header e
          ≡ ok (fs.sb, fs.cur_slot, slot_of x (target_slot fs) fs.header (e (target_slot fs))))
        × ((c : ℕ) → Kept old c → c ≢ target_slot fs → e c ≡ base c))
      ⊎ ((mounted x fs.header e ≡ ok (next_superblock fs now, target_slot fs, some fs.sb))
          × ((c : ℕ) → c ≢ target_slot fs → e c ≡ cells fs.dev c))

  module _ (lawful : IsLawful x) (fits : SuperblockFits (next_superblock fs now))
      (stale : (t : Superblock)
        → slot_of x (target_slot fs) fs.header (base (target_slot fs)) ≡ some t
        → t.gen < fs.sb.gen)
      (tears : DetectsTears device x cells Survives law base old fs v now) where
    target_Kept : Kept old (target_slot fs)
    target_Kept = inl (slot_low (target_slot fs) (IsSlot-facts fs.cur_slot current).2)
      where
        slot_low : (s : ℕ) → IsSlot s → s < 3
        slot_low s i = (IsSlot-facts s i).0

    left_old :
        (e : ℕ → List ℕ)
        → ((c : ℕ) → Kept old c → c ≢ target_slot fs → e c ≡ base c)
        → ((t : Superblock)
            → slot_of x (target_slot fs) fs.header (e (target_slot fs)) ≡ some t
            → t.gen < fs.sb.gen)
        → OldOrNew e
    left_old e kept older =
        let f = IsSlot-facts fs.cur_slot current in
        inl (
          Finds-older x fs.header e fs.sb fs.cur_slot current
              (ap (slot_of x fs.cur_slot fs.header) (kept fs.cur_slot (inl f.0) f.1) ∙ found) older,
          kept,
        )

    left_new :
        (e : ℕ → List ℕ)
        → ((c : ℕ) → c ≢ target_slot fs → e c ≡ cells fs.dev c)
        → e (target_slot fs) ≡ sealed_slot x (target_slot fs) (next_superblock fs now)
        → OldOrNew e
    unfolding next_superblock
    left_new e others sealed =
        let f = IsSlot-facts fs.cur_slot current in
        let new_found : slot_of x (target_slot fs) fs.header (e (target_slot fs))
            ≡ some (next_superblock fs now) =
          ap (slot_of x (target_slot fs) fs.header) sealed
          ∙ slot_of-sealed_slot x (target_slot fs) fs.header (next_superblock fs now) lawful fits
              (record { gen = omega arith; total_blocks = refl; uuid = refl }) in
        let old_found : slot_of x fs.cur_slot fs.header (e fs.cur_slot) ≡ some fs.sb =
          ap (slot_of x fs.cur_slot fs.header)
            (others fs.cur_slot f.1 ∙ v.read fs.cur_slot (inl f.0))
          ∙ found in
        inr (
          Finds-newer x fs.header e (next_superblock fs now) (target_slot fs) fs.sb f.2
              (omega arith) new_found
              (subst (λ k. slot_of x k fs.header (e k) ≡ some fs.sb) (sym f.3) old_found),
          others,
        )

    as_before :
        (e : ℕ → List ℕ)
        → e (target_slot fs) ≡ base (target_slot fs)
        → (t : Superblock) → slot_of x (target_slot fs) fs.header (e (target_slot fs)) ≡ some t
        → t.gen < fs.sb.gen
    as_before e same t o = stale t (ap (slot_of x (target_slot fs) fs.header) (sym same) ∙ o)

    invalid_slot :
        (e : ℕ → List ℕ)
        → slot_of x (target_slot fs) fs.header (e (target_slot fs)) ≡ none
        → (t : Superblock) → slot_of x (target_slot fs) fs.header (e (target_slot fs)) ≡ some t
        → t.gen < fs.sb.gen
    invalid_slot e n t o = absurd (none_ne_some t (sym n ∙ o))
      where
        none_ne_some : (t : Superblock) → ◌≢◌ {A = Option Superblock} none (some t)
        none_ne_some t q = cc

    -- Staged changes over a volume whose current slot holds the current superblock and whose other slot
    -- holds none or an older one, with a lawful transform and a new superblock that fits its fields, on
    -- a device that keeps its promises and whose torn writes of a slot do not authenticate. Whenever
    -- the power is lost, before the commit, after the first barrier, after the write of the slot or
    -- when the commit has returned, whatever it answers: the next mount finds the old superblock, with
    -- all committed blocks but the target slot as they were, or the new superblock, with the old one
    -- as the previous and all blocks but the target slot as they were staged.
    pub mounted-interrupted :
        (e : ℕ → List ℕ) → PowerLost device x cells Survives law base old fs v now e → OldOrNew e
    mounted-interrupted e s =
        let flushed = device.flush fs.dev in
        let sealed = sealed_slot x (target_slot fs) (next_superblock fs now) in
        elim (commit_lost device x cells Survives law base old fs v now e s) [
          | inl s ↦
              left_old e (λ c k n. v.durable e s c k)
                (as_before e (v.durable e s (target_slot fs) target_Kept))
          | inr (barrier, s) ↦
              let l = law.write_lost flushed.0 (target_slot fs) sealed e s in
              let others : (c : ℕ) → c ≢ target_slot fs → e c ≡ cells fs.dev c =
                λ c n. l.2 c n ∙ law.flush_durable fs.dev l.0 barrier l.1 c in
              let kept : (c : ℕ) → Kept old c → c ≢ target_slot fs → e c ≡ base c =
                λ c k n. others c n ∙ v.read c k in
              let t = tears flushed.0 e s in
              elim t.2 [
                | inl same ↦ left_old e kept (
                    as_before e (
                      same
                      ∙ v.durable t.0 (law.flush_lost fs.dev t.0 t.1) (target_slot fs) target_Kept))
                | inr (inl new) ↦ left_new e others new
                | inr (inr torn) ↦ left_old e kept (invalid_slot e torn)
              ]
        ]
