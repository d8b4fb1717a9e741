-- ===== src/Rfs2/Device.antt =====
-- fs/rfs2/src/device.rs: what the file system asks of a block device.
use pureshade_os.Base.{ℕ, List}
use pureshade_os.Base.Result.{Result}
use pureshade_os.Rfs2.Layout.{Error}
pub mod Crash
pub mod Watched

-- A write that fails may have changed the device, so that a device comes back with the answer.
pub record BlockDevice (D : Type 0) : Type 0 where
  pub total_blocks : D → ℕ
  pub read_block : D → ℕ → Result Error (List ℕ)
  pub write_block : D → ℕ → List ℕ → D × Result Error (Unit {0})
  pub flush : D → D × Result Error (Unit {0})
