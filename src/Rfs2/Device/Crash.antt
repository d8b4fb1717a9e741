-- ===== src/Rfs2/Device/Crash.antt =====
-- What a block device promises about a loss of power (fs/rfs2/src/device.rs).
use pureshade_os.Base.{ℕ, ◌≡◌, ◌≢◌, List}
use pureshade_os.Base.Result.{ok}
use pureshade_os.Rfs2.Device.{BlockDevice}

-- `cells` is what reads see, and `Survives d e` that `e` may be found on the medium when the power is
-- lost now. A write changes its own block, which a loss of power may leave in any state; a flush
-- that succeeds makes everything durable that reads see.
pub record IsDurable {D : Type 0} (device : BlockDevice D) (cells : D → ℕ → List ℕ)
    (Survives : D → (ℕ → List ℕ) → Type 0) : Type 0 where
  pub write_here :
      (d : D) (b : ℕ) (buf : List ℕ)
      → (device.write_block d b buf).1 ≡ ok tt
      → cells (device.write_block d b buf).0 b ≡ buf
  pub write_elsewhere :
      (d : D) (b c : ℕ) (buf : List ℕ) → c ≢ b → cells (device.write_block d b buf).0 c ≡ cells d c
  pub write_lost :
      (d : D) (b : ℕ) (buf : List ℕ) (e : ℕ → List ℕ)
      → Survives (device.write_block d b buf).0 e
      → (before : ℕ → List ℕ) × Survives d before × ((c : ℕ) → c ≢ b → e c ≡ before c)
  pub flush_cells : (d : D) (c : ℕ) → cells (device.flush d).0 c ≡ cells d c
  pub flush_lost : (d : D) (e : ℕ → List ℕ) → Survives (device.flush d).0 e → Survives d e
  pub flush_durable :
      (d : D) (e : ℕ → List ℕ)
      → (device.flush d).1 ≡ ok tt
      → Survives (device.flush d).0 e
      → (c : ℕ) → e c ≡ cells d c

-- The part of it that is about writes.
pub record WritesApart {D : Type 0} (device : BlockDevice D) (cells : D → ℕ → List ℕ)
    (Survives : D → (ℕ → List ℕ) → Type 0) : Type 0 where
  pub write_elsewhere :
      (d : D) (b c : ℕ) (buf : List ℕ) → c ≢ b → cells (device.write_block d b buf).0 c ≡ cells d c
  pub write_lost :
      (d : D) (b : ℕ) (buf : List ℕ) (e : ℕ → List ℕ)
      → Survives (device.write_block d b buf).0 e
      → (before : ℕ → List ℕ) × Survives d before × ((c : ℕ) → c ≢ b → e c ≡ before c)

pub durable-WritesApart :
    {D : Type 0} (device : BlockDevice D) (cells : D → ℕ → List ℕ)
    (Survives : D → (ℕ → List ℕ) → Type 0)
    → IsDurable device cells Survives
    → WritesApart device cells Survives
durable-WritesApart device cells Survives law = record {
  write_elsewhere = law.write_elsewhere;
  write_lost = law.write_lost;
}
