-- ===== src/Rfs2/Layout/Valid.antt =====
-- What the fixed-width fields and arrays of the on-disk records can hold.
use pureshade_os.Base.{ℕ, ◌^◌, ◌<◌, ◌≡◌, List, length}
use pureshade_os.Rfs2.Layout.{BlockPtr, StaticHeader}

-- A number of `n` bytes, and an array of `n` bytes.
abbrev pub Fits : ℕ → ℕ → Type 0
Fits n v = v < 256 ^ n

abbrev pub Array : ℕ → List ℕ → Type 0
Array n bs = length bs ≡ n

pub record PtrFits (p : BlockPtr) : Type 0 where
  pub block : Fits 8 p.block
  pub gen : Fits 8 p.gen
  pub tag : Array 16 p.tag

pub record HeaderFits (h : StaticHeader) : Type 0 where
  pub format_version : Fits 2 h.format_version
  pub header_version : Fits 2 h.header_version
  pub block_size : Fits 4 h.block_size
  pub total_blocks : Fits 8 h.total_blocks
  pub sb_slot_a : Fits 8 h.sb_slot_a
  pub sb_slot_b : Fits 8 h.sb_slot_b
  pub first_data_block : Fits 8 h.first_data_block
  pub uuid : Array 16 h.uuid
  pub feature_compat : Fits 8 h.feature_compat
  pub feature_incompat : Fits 8 h.feature_incompat
  pub feature_ro_compat : Fits 8 h.feature_ro_compat
  pub kdf_algo : Fits 1 h.kdf_algo
  pub kdf_salt : Array 16 h.kdf_salt
  pub argon_m_cost : Fits 4 h.argon_m_cost
  pub argon_t_cost : Fits 4 h.argon_t_cost
  pub argon_p : Fits 4 h.argon_p
  pub dek_wrap_nonce : Array 12 h.dek_wrap_nonce
  pub dek_wrapped : Array 32 h.dek_wrapped
  pub dek_wrap_tag : Array 16 h.dek_wrap_tag
  pub label : Array 64 h.label
