-- ===== src/Rfs2/Fs/Disks.antt =====
-- Two devices in memory, by what a loss of power leaves of the writes.
use mathlib.Core.List.{Memᴰ}
use pureshade_os.Base.{
  ℕ, ◌≡◌, refl, ap, sym, ◌∙◌, subst, ==_iff, not_==→ne, ◌⊎◌, inl, inr, Bool, false, ◌||◌, List, [],
  ◌∷◌, arith, ◌==◌, ==_refl, ne→not_==, if◌then◌else◌, Bool-cases,
}
use pureshade_os.Base.Result.{ok}
use pureshade_os.Rfs2.Device.{BlockDevice}
use pureshade_os.Rfs2.Device.Crash.{IsDurable}

-- A device with the writes that are not durable yet, the last one first.
abbrev pub Disk : Type 0
Disk = (ℕ → List ℕ) × List (ℕ × List ℕ)

abbrev pub cells_over : (ℕ → List ℕ) → List (ℕ × List ℕ) → ℕ → List ℕ
cells_over medium [] c = medium c
cells_over medium ((b, buf) ∷ p) c = if b == c then buf else cells_over medium p c

abbrev pub cells : Disk → ℕ → List ℕ
cells d c = cells_over d.0 d.1 c

abbrev pub touched : List (ℕ × List ℕ) → ℕ → Bool
touched [] c = false
touched ((b, buf) ∷ p) c = b == c || touched p c

-- A block with a write that is not durable may be found in any state.
abbrev pub Survives : Disk → (ℕ → List ℕ) → Type 0
Survives d e = (c : ℕ) → touched d.1 c ≡ false → e c ≡ d.0 c

abbrev pub disk : BlockDevice Disk
disk = record {
  total_blocks = λ d. 8;
  read_block = λ d b. ok (cells d b);
  write_block = λ d b buf. ((d.0, (b, buf) ∷ d.1), ok tt);
  flush = λ d. ((cells d, []), ok tt);
}

untouched_cells :
    (first : ℕ → List ℕ) (p : List (ℕ × List ℕ)) (c : ℕ)
    → touched p c ≡ false
    → cells_over first p c ≡ first c
untouched_cells first [] c h = refl
untouched_cells first ((b, buf) ∷ p) c h = ground (arith, untouched_cells first p c)

pub disk-IsDurable : IsDurable disk cells Survives
disk-IsDurable = record {
  write_here = λ d b buf h. rw (==_refl b) refl;
  write_elsewhere = λ d b c buf n. rw (ne→not_== b c (λ q. n (sym q))) refl;
  write_lost = λ d b buf e s. (
    λ c. if b == c then d.0 c else e c,
    λ c t. elim (Bool-cases (b == c)) [ inl q ↦ rw q refl | inr q ↦ rw q (s c (rw (q, t) refl)) ],
    λ c n. rw (ne→not_== b c (λ q. n (sym q))) refl,
  );
  flush_cells = λ d c. refl;
  flush_lost = λ d e s c t. s c refl ∙ untouched_cells d.0 d.1 c t;
  flush_durable = λ d e h s c. s c refl;
}

-- The same device where each block is found as it was or as one of the writes to it.
abbrev pub Keeps : Disk → (ℕ → List ℕ) → Type 0
Keeps d e = (c : ℕ) → (e c ≡ d.0 c) ⊎ Memᴰ (c, e c) d.1

pub cells-Keeps :
    (first : ℕ → List ℕ) (p : List (ℕ × List ℕ)) (c : ℕ)
    → (cells_over first p c ≡ first c) ⊎ Memᴰ (c, cells_over first p c) p
cells-Keeps first [] c = inl refl
cells-Keeps first ((b, buf) ∷ p) c = elim (Bool-cases (b == c)) [
  | inl q ↦ rw q (inr (Memᴰ.head (ap (λ k. (k, buf)) (sym ((==_iff b c).0 q)))))
  | inr q ↦ rw q (elim (cells-Keeps first p c) [ inl o ↦ inl o | inr m ↦ inr (Memᴰ.tail m) ])
]

pub older_write :
    (b c : ℕ) (buf x : List ℕ) (p : List (ℕ × List ℕ))
    → Memᴰ (c, x) ((b, buf) ∷ p)
    → (((c ≡ b) × (x ≡ buf)) ⊎ Memᴰ (c, x) p)
older_write b c buf x p (Memᴰ.head h) = inl (ap (λ w. w.0) h, ap (λ w. w.1) h)
older_write b c buf x p (Memᴰ.tail m) = inr m

-- What was found in block `b` before the write.
abbrev pub unwritten : Disk → ℕ → (ℕ → List ℕ) → ℕ → List ℕ
unwritten d b e c = if b == c then d.0 c else e c

pub unwritten-Keeps :
    (d : Disk) (b : ℕ) (buf : List ℕ) (e : ℕ → List ℕ)
    → Keeps (d.0, (b, buf) ∷ d.1) e
    → Keeps d (unwritten d b e)
unwritten-Keeps d b buf e s c = elim (Bool-cases (b == c)) [
  | inl q ↦ rw q (inl refl)
  | inr q ↦ rw q (elim (s c) [
    | inl o ↦ inl o
    | inr m ↦ elim (older_write b c buf (e c) d.1 m) [
      | inl h ↦ absurd (not_==→ne b c q (sym h.0))
      | inr o ↦ inr o
    ]
  ])
]

pub no_write : (w : ℕ × List ℕ) → ¬ (Memᴰ w [])
no_write w h = elim h [ ]

pub disk-Keeps-IsDurable : IsDurable disk cells Keeps
disk-Keeps-IsDurable = record {
  write_here = λ d b buf h. disk-IsDurable.write_here d b buf h;
  write_elsewhere = λ d b c buf n. disk-IsDurable.write_elsewhere d b c buf n;
  write_lost = λ d b buf e s. (
    unwritten d b e,
    unwritten-Keeps d b buf e s,
    λ c n. rw (ne→not_== b c (λ q. n (sym q))) refl,
  );
  flush_cells = λ d c. refl;
  flush_lost = λ d e s c. elim (s c) [
    | inl o ↦ subst (λ y. (y ≡ d.0 c) ⊎ Memᴰ (c, y) d.1) (sym o) (cells-Keeps d.0 d.1 c)
    | inr m ↦ absurd (no_write (c, e c) m)
  ];
  flush_durable = λ d e h s c. elim (s c) [ inl o ↦ o | inr m ↦ absurd (no_write (c, e c) m) ];
}
