-- ===== src/Rfs2/Device/Watched.antt =====
-- A device that keeps its states, to speak of a loss of power at any write.
use mathlib.Core.List.{Memᴰ}
use pureshade_os.Base.{ℕ, ◌≡◌, ◌≢◌, refl, subst, List, ◌∷◌}
use pureshade_os.Rfs2.Device.{BlockDevice}
use pureshade_os.Rfs2.Device.Crash.{IsDurable, WritesApart}

-- The device, and the states that it was in before each write and each flush.
abbrev pub Watched : Type 0 → Type 0
Watched D = D × List D

abbrev pub watched : {D : Type 0} → BlockDevice D → BlockDevice (Watched D)
watched device = record {
  total_blocks = λ w. device.total_blocks w.0;
  read_block = λ w b. device.read_block w.0 b;
  write_block = λ w b buf. let r = device.write_block w.0 b buf in ((r.0, w.0 ∷ w.1), r.1);
  flush = λ w. let r = device.flush w.0 in ((r.0, w.0 ∷ w.1), r.1);
}

-- The device is in this state now, or was.
abbrev pub WasIn : {D : Type 0} → Watched D → D → Type 0
WasIn w d = Memᴰ d (w.0 ∷ w.1)

-- What may be found on the medium when the power is lost now or was lost before.
abbrev pub EverSurvives :
    {D : Type 0} → (D → (ℕ → List ℕ) → Type 0) → Watched D → (ℕ → List ℕ) → Type 0
EverSurvives Survives w e = (d : _) × WasIn w d × Survives d e

module _ {D : Type 0} (device : BlockDevice D) (cells : D → ℕ → List ℕ)
    (Survives : D → (ℕ → List ℕ) → Type 0) (law : IsDurable device cells Survives) where
  pub watched-WritesApart : WritesApart (watched device) (λ w. cells w.0) (EverSurvives Survives)
  watched-WritesApart = record {
    write_elsewhere = λ w b c buf n. law.write_elsewhere w.0 b c buf n;
    write_lost = λ w b buf e s. lost w b buf e s.0 s.1 s.2;
  }
    where
      lost :
          (w : Watched D) (b : ℕ) (buf : List ℕ) (e : ℕ → List ℕ) (d : D)
          → WasIn ((watched device).write_block w b buf).0 d
          → Survives d e
          → (before : ℕ → List ℕ) × EverSurvives Survives w before
            × ((c : ℕ) → c ≢ b → e c ≡ before c)
      lost w b buf e d (Memᴰ.head h) s =
          let l = law.write_lost w.0 b buf e (subst (λ d. Survives d e) h s) in
          (l.0, (w.0, Memᴰ.head refl, l.1), l.2)
      lost w b buf e d (Memᴰ.tail m) s = (e, (d, m, s), λ c n. refl)
