-- ===== src/Rfs2/Map/Grow.antt =====
-- A map that grows keeps what is in it (`grow_imap` of fs/rfs2/src/fs.rs).
use pureshade_os.Base.{
  ℕ, zero, suc, ◌+◌, ◌-◌, ◌^◌, ◌≤◌, ◌<◌, ◌≡◌, ◌≢◌, refl, ap, ◌∙◌, ◌⊎◌, inl, inr, true, false, arith,
  leb, leb→le, Bool-cases,
}
use pureshade_os.Base.Result.{Result, ok, err}
use pureshade_os.Rfs2.Layout.{Error, BlockPtr}
use pureshade_os.Rfs2.Device.{BlockDevice}
use pureshade_os.Rfs2.Transform.{BlockTransform}
use pureshade_os.Rfs2.Transform.Laws.{IsLawful}
use pureshade_os.Rfs2.Fs.{Rfs2, write_fresh}
use pureshade_os.Rfs2.Map.{
  set_ptr_at, zero_block, imap_get, imap_capacity, and_then, root_grown, grow_imap,
}
use pureshade_os.Rfs2.Map.Index.{imap_capacity-last}
use pureshade_os.Rfs2.Map.Fresh.{ReadsBack, FreshOutcome, write_fresh_lem}
use pureshade_os.Rfs2.Map.Root.{
  Mapped, Mapped-Extends, imap_get-Extends, root_grown-Mapped, imap_get-root_grown,
}

module _ {D : Type 0} (device : BlockDevice D) (x : BlockTransform) where
  -- What the growing loop answers and leaves: the same map, and with no error one that has room.
  abbrev pub GrowOutcome : Rfs2 D → ℕ → Rfs2 D × Result Error (Unit {0}) → Type 0
  GrowOutcome fs ino (after, r) =
      Mapped device x after
      × ((j : ℕ) → imap_get device x after j ≡ imap_get device x fs j)
      × (r ≡ ok tt → ino < imap_capacity after.staged_height)

  GrowOutcome-trans :
      (fs mid : Rfs2 D) (ino : ℕ) (r : Rfs2 D × Result Error (Unit {0}))
      → ((j : ℕ) → imap_get device x mid j ≡ imap_get device x fs j)
      → GrowOutcome mid ino r
      → GrowOutcome fs ino r
  GrowOutcome-trans fs mid ino (after, r) e o = (o.0, λ j. o.1 j ∙ e j, o.2)

  grown_once :
      (fs : Rfs2 D) (ino : ℕ) (k : Rfs2 D → BlockPtr → Rfs2 D × Result Error (Unit {0}))
      (r : Rfs2 D × Result Error BlockPtr)
      → Mapped device x fs
      → fs.staged_height < 9
      → FreshOutcome device x fs (set_ptr_at zero_block 0 fs.staged_root) r
      → ((mid : Rfs2 D) (p : BlockPtr)
          → Mapped device x (root_grown mid p)
          → mid.staged_height ≡ fs.staged_height
          → GrowOutcome (root_grown mid p) ino (k mid p))
      → GrowOutcome fs ino (and_then r k)
  grown_once fs ino k (after, err e) m small f next = (
    Mapped-Extends device x fs after f m,
    λ j. imap_get-Extends device x fs after j f m,
    λ q. absurd (failed e q),
  )
    where
      failed : (e : Error) → ◌≢◌ {A = Result Error (Unit {0})} (err e) (ok tt)
      failed e q = cc
  grown_once fs ino k (after, ok p) m small f next =
      GrowOutcome-trans fs (root_grown after p) ino (k after p)
        (imap_get-root_grown device x fs after p m small f)
        (next after p (root_grown-Mapped device x fs after p m small f) f.0.height)

  -- Rounds enough for the greatest height are enough.
  pub grow_imap_lem :
      (law : ReadsBack device) (lawful : IsLawful x) (n : ℕ) (fs : Rfs2 D) (ino : ℕ)
      → Mapped device x fs
      → ino < 2 ^ 64 - 1
      → 10 ≤ fs.staged_height + n
      → GrowOutcome fs ino (grow_imap device x n fs ino)
  unfolding grow_imap root_grown
  grow_imap_lem law lawful zero fs ino m b l = absurd (omega (arith, m.height, l))
  grow_imap_lem law lawful (suc n) fs ino m b l =
      elim (Bool-cases (leb (imap_capacity fs.staged_height) ino)) [
        | inl e ↦ rw e (
            grown_once fs ino (λ fs p. grow_imap device x n (root_grown fs p) ino)
              (write_fresh device x fs (set_ptr_at zero_block 0 fs.staged_root)) m (not_last e)
              (write_fresh_lem device x law lawful fs (set_ptr_at zero_block 0 fs.staged_root)
                m.ready)
              (λ mid p v h. grow_imap_lem law lawful n (root_grown mid p) ino v b (rounds mid p h)))
        | inr e ↦ rw e (m, λ j. refl, λ q. room e)
      ]
    where
      below_or_last : (h : ℕ) → h ≤ 9 → (h < 9) ⊎ (h ≡ 9)
      below_or_last h k = grind arith

      not_last : leb (imap_capacity fs.staged_height) ino ≡ true → fs.staged_height < 9
      not_last e = elim (below_or_last fs.staged_height m.height) [
        | inl k ↦ k
        | inr k ↦ absurd (
            omega (
              arith,
              leb→le (imap_capacity fs.staged_height) ino e,
              ap imap_capacity k ∙ imap_capacity-last,
            ))
      ]

      room : leb (imap_capacity fs.staged_height) ino ≡ false → ino < imap_capacity fs.staged_height
      room e = ground arith

      rounds :
          (mid : Rfs2 D) (p : BlockPtr)
          → mid.staged_height ≡ fs.staged_height
          → 10 ≤ (root_grown mid p).staged_height + n
      rounds mid p h = omega (arith, h, l)
