-- ===== src/Rfs2/Map/Set.antt =====
-- `imap_set` of fs/rfs2/src/fs.rs is an update of the map from inode numbers to inodes.
use pureshade_os.Base.{
  ℕ, zero, suc, ◌-◌, ◌^◌, ◌<◌, ◌≡◌, ◌≢◌, refl, ap, sym, ◌∙◌, subst, inl, inr, false, none, arith,
  leb, Bool-cases, if◌then◌else◌, Option,
}
use pureshade_os.Base.Result.{Result, ok, err}
use pureshade_os.Rfs2.Layout.{Error, BlockPtr}
use pureshade_os.Rfs2.Inode.{Inode, encode}
use pureshade_os.Rfs2.Inode.Roundtrip.{InodeFits, decode-encode, length-encode}
use pureshade_os.Rfs2.Device.{BlockDevice}
use pureshade_os.Rfs2.Transform.{BlockTransform}
use pureshade_os.Rfs2.Transform.Laws.{IsLawful}
use pureshade_os.Rfs2.Fs.{Rfs2, is_taken}
use pureshade_os.Rfs2.Map.{
  imap_find, imap_get, imap_capacity, imap_set, imap_set_rec, grow_imap, and_then, used, ptr_at,
}
use pureshade_os.Rfs2.Map.Index.{below_reach, Apart-ne}
use pureshade_os.Rfs2.Map.Fresh.{ReadsBack}
use pureshade_os.Rfs2.Map.Placed.{Placed}
use pureshade_os.Rfs2.Map.Inodes.{RecOutcome, imap_set_rec_lem}
use pureshade_os.Rfs2.Map.Root.{Mapped, Mapped-Extends, imap_get-Extends}
use pureshade_os.Rfs2.Map.Grow.{GrowOutcome, grow_imap_lem}

module _ {D : Type 0} (device : BlockDevice D) (x : BlockTransform) where
  -- The map after an update: with an error as it was, else with the inode under its number, or nothing
  -- where the inode is a free one, and every other number as it was.
  abbrev pub SetOutcome : Rfs2 D → ℕ → Inode → Rfs2 D × Result Error (Unit {0}) → Type 0
  SetOutcome fs ino inode (after, err e) =
      Mapped device x after × ((j : ℕ) → imap_get device x after j ≡ imap_get device x fs j)
  SetOutcome fs ino inode (after, ok done) =
      Mapped device x after
      × (imap_get device x after ino ≡ ok (used inode))
      × ((j : ℕ) → ino ≢ j → imap_get device x after j ≡ imap_get device x fs j)

  abbrev rooted : Rfs2 D → BlockPtr → Rfs2 D
  rooted fs root = record fs { staged_root = root }

  Placed-rooted :
      (n : ℕ) (fs : Rfs2 D) (p q : BlockPtr)
      → Placed device x fs n q
      → Placed device x (rooted fs p) n q
  unfolding is_taken
  Placed-rooted zero fs p q v = v
  Placed-rooted (suc n) fs p q v = λ h.
      let t = v h in
      (
        t.0,
        λ buf r. ((t.1 buf r).0, λ i l. Placed-rooted n fs p (ptr_at buf i) ((t.1 buf r).1 i l)),
      )

  root_set :
      (fs : Rfs2 D) (ino : ℕ) (inode : Inode) (r : Rfs2 D × Result Error BlockPtr)
      → Mapped device x fs
      → InodeFits inode
      → ino < imap_capacity fs.staged_height
      → RecOutcome device x fs fs.staged_height fs.staged_root ino (encode inode) r
      → SetOutcome fs ino inode (and_then r (λ fs root. (rooted fs root, ok tt)))
  unfolding imap_get
  root_set fs ino inode (after, err e) m v room o =
      (Mapped-Extends device x fs after o m, λ j. imap_get-Extends device x fs after j o m)
  root_set fs ino inode (after, ok q) m v room o = (
    record {
      ready = record { cursor = o.0.ready.cursor; total = o.0.ready.total; gen = o.0.ready.gen };
      height = omega (arith, o.0.height, m.height);
      root = o.1;
      placed =
          Placed-rooted after.staged_height after q q
            (subst (λ h. Placed device x after h q) (sym o.0.height) o.2);
    },
    at_new ino
        ∙ rw (le→not_leb (imap_capacity fs.staged_height) ino room)
            (o.3 ∙ ap (λ i. ok (used i)) (decode-encode inode v)),
    λ j d. at_new j ∙ elim (Bool-cases (leb (imap_capacity fs.staged_height) j)) [
      | inl e ↦ rw e refl
      | inr e ↦
          let below = not_leb (imap_capacity fs.staged_height) j e in
          rw e (
            o.4 j (
              Apart-ne fs.staged_height ino j m.height
                (below_reach fs.staged_height ino m.height room)
                (below_reach fs.staged_height j m.height below) d))
    ],
  )
    where
      get_at : ℕ → ℕ → Result Error (Option Inode)
      get_at j h = if leb (imap_capacity h) j then ok none else imap_find device x h after.dev q j

      at_new : (j : ℕ) → imap_get device x (rooted after q) j ≡ get_at j fs.staged_height
      at_new j = ap (get_at j) o.0.height

      le→not_leb : (a b : ℕ) → b < a → leb a b ≡ false
      le→not_leb a b h = ground arith

      not_leb : (a b : ℕ) → leb a b ≡ false → b < a
      not_leb a b h = ground arith

  SetOutcome-trans :
      (fs mid : Rfs2 D) (ino : ℕ) (inode : Inode) (r : Rfs2 D × Result Error (Unit {0}))
      → ((j : ℕ) → imap_get device x mid j ≡ imap_get device x fs j)
      → SetOutcome mid ino inode r
      → SetOutcome fs ino inode r
  SetOutcome-trans fs mid ino inode (after, err e) same o = (o.0, λ j. o.1 j ∙ same j)
  SetOutcome-trans fs mid ino inode (after, ok done) same o = (o.0, o.1, λ j d. o.2 j d ∙ same j)

  -- For a number below the greatest one of 64 bits and an inode whose fields fit, on a device that
  -- reads back what was written, and over a staged map whose blocks are all taken: if setting the
  -- inode succeeds, a look-up of its number finds it, or nothing where it is a free one, and every
  -- other number finds what it did; if it fails, every number does. In both cases all blocks of the
  -- map are taken.
  pub imap_set_lem :
      (law : ReadsBack device) (lawful : IsLawful x) (fs : Rfs2 D) (ino : ℕ) (inode : Inode)
      → Mapped device x fs
      → InodeFits inode
      → ino < 2 ^ 64 - 1
      → SetOutcome fs ino inode (imap_set device x fs ino inode)
  unfolding imap_set
  imap_set_lem law lawful fs ino inode m v b =
      grown (grow_imap device x 10 fs ino)
        (grow_imap_lem device x law lawful 10 fs ino m b (omega arith))
    where
      grown :
          (r : Rfs2 D × Result Error (Unit {0}))
          → GrowOutcome device x fs ino r
          → SetOutcome fs ino inode (
              and_then r (λ fs done.
                and_then
                  (imap_set_rec device x fs.staged_height fs fs.staged_root ino (encode inode))
                  (λ fs root. (rooted fs root, ok tt))))
      grown (mid, err e) o = (o.0, o.1)
      grown (mid, ok done) o =
          SetOutcome-trans fs mid ino inode
            (and_then
              (imap_set_rec device x mid.staged_height mid mid.staged_root ino (encode inode))
              (λ fs root. (rooted fs root, ok tt)))
            o.1
            (root_set mid ino inode
              (imap_set_rec device x mid.staged_height mid mid.staged_root ino (encode inode)) o.0 v
              (o.2 refl)
              (imap_set_rec_lem device x law lawful mid.staged_height mid mid.staged_root ino
                (encode inode) o.0.ready (length-encode inode) o.0.placed))
