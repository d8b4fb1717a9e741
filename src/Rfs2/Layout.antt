-- ===== src/Rfs2/Layout.antt =====
-- fs/rfs2/src/layout.rs, and the errors of fs/rfs2/src/lib.rs: block pointers and the static header.
use pureshade_os.Base.{ℕ, ◌+◌, ◌*◌, ◌^◌, ◌-◌, Bool, true, not, List, [], ◌∷◌, replicate, ◌==◌, leb}
use pureshade_os.Base.Bytes.{span}
use pureshade_os.Base.Names.{same_name}
use pureshade_os.Base.Little.{of_le}
use pureshade_os.Base.Result.{Result, ok, err, ◌>>=◌, ◌>>◌, ensure}
use pureshade_os.Base.Writes.{Write, bytes_at, le_at, written}
pub mod Valid
pub mod Pointer
pub mod Header

pub data Error : Type 0 where
  io : Error
  auth : ℕ → Error
  bad_header : Error
  unsupported : Error
  read_only : Error
  no_superblock : Error
  no_space : Error
  not_found : Error
  exists : Error
  not_dir : Error
  is_dir : Error
  not_empty : Error
  perm : Error
  gen_exhausted : Error
  invalid : Error
  corrupt : Error

abbrev pub block_size : ℕ
block_size = 4096

-- "RFS_V2" and "RFSSB", filled up with zeros.
abbrev pub magic : List ℕ
magic = 82 ∷ 70 ∷ 83 ∷ 95 ∷ 86 ∷ 50 ∷ 0 ∷ 0 ∷ []

abbrev pub sb_magic : List ℕ
sb_magic = 82 ∷ 70 ∷ 83 ∷ 83 ∷ 66 ∷ 0 ∷ 0 ∷ 0 ∷ []

abbrev pub format_version : ℕ
format_version = 2

abbrev pub sb_slot_a : ℕ
sb_slot_a = 1

abbrev pub sb_slot_b : ℕ
sb_slot_b = 2

abbrev pub first_data_block : ℕ
first_data_block = 3

abbrev pub inode_size : ℕ
inode_size = 128

abbrev pub block_ptr_size : ℕ
block_ptr_size = 32

abbrev pub sb_payload_size : ℕ
sb_payload_size = 4072

abbrev pub sb_gen_copy_offset : ℕ
sb_gen_copy_offset = 4072

abbrev pub sb_tag_offset : ℕ
sb_tag_offset = 4080

abbrev pub gen_limit : ℕ
gen_limit = 2 ^ 64 - 1 - 255

abbrev pub inline_symlink_max : ℕ
inline_symlink_max = 48

-- `rd_u16`, `rd_u32` and `rd_u64` of the bytes at `off`, and a single byte as a number of one.
abbrev pub read_le : ℕ → ℕ → List ℕ → ℕ
read_le n off buf = of_le (span buf off n)

pub record BlockPtr : Type 0 where
  pub block : ℕ
  pub gen : ℕ
  pub tag : List ℕ

abbrev pub null_ptr : BlockPtr
null_ptr = record { block = 0; gen = 0; tag = replicate 16 0 }

abbrev pub is_null : BlockPtr → Bool
is_null p = p.block == 0

abbrev pub ptr_writes : BlockPtr → List Write
ptr_writes p = le_at 8 0 p.block ∷ le_at 8 8 p.gen ∷ bytes_at 16 16 p.tag ∷ []

unfoldable pub to_bytes : BlockPtr → List ℕ
to_bytes p = written (ptr_writes p) (replicate block_ptr_size 0)

unfoldable pub from_bytes : List ℕ → BlockPtr
from_bytes b = record { block = read_le 8 0 b; gen = read_le 8 8 b; tag = span b 16 16 }

pub record StaticHeader : Type 0 where
  pub format_version : ℕ
  pub header_version : ℕ
  pub block_size : ℕ
  pub total_blocks : ℕ
  pub sb_slot_a : ℕ
  pub sb_slot_b : ℕ
  pub first_data_block : ℕ
  pub uuid : List ℕ
  pub feature_compat : ℕ
  pub feature_incompat : ℕ
  pub feature_ro_compat : ℕ
  pub kdf_algo : ℕ
  pub kdf_salt : List ℕ
  pub argon_m_cost : ℕ
  pub argon_t_cost : ℕ
  pub argon_p : ℕ
  pub dek_wrap_nonce : List ℕ
  pub dek_wrapped : List ℕ
  pub dek_wrap_tag : List ℕ
  pub label : List ℕ

abbrev pub header_writes : StaticHeader → List Write
header_writes h =
    bytes_at 0 8 magic
    ∷ le_at 2 8 h.format_version
    ∷ le_at 2 10 h.header_version
    ∷ le_at 4 12 h.block_size
    ∷ le_at 8 16 h.total_blocks
    ∷ le_at 8 24 h.sb_slot_a
    ∷ le_at 8 32 h.sb_slot_b
    ∷ le_at 8 40 h.first_data_block
    ∷ bytes_at 48 16 h.uuid
    ∷ le_at 8 64 h.feature_compat
    ∷ le_at 8 72 h.feature_incompat
    ∷ le_at 8 80 h.feature_ro_compat
    ∷ le_at 1 88 h.kdf_algo
    ∷ bytes_at 96 16 h.kdf_salt
    ∷ le_at 4 112 h.argon_m_cost
    ∷ le_at 4 116 h.argon_t_cost
    ∷ le_at 4 120 h.argon_p
    ∷ bytes_at 128 12 h.dek_wrap_nonce
    ∷ bytes_at 144 32 h.dek_wrapped
    ∷ bytes_at 176 16 h.dek_wrap_tag
    ∷ bytes_at 192 64 h.label
    ∷ []

-- The buffer that the source fills is one block, which it asserts.
unfoldable pub encode_header : StaticHeader → List ℕ
encode_header h = written (header_writes h) (replicate block_size 0)

abbrev pub read_header : List ℕ → StaticHeader
read_header buf = record {
  format_version = read_le 2 8 buf;
  header_version = read_le 2 10 buf;
  block_size = read_le 4 12 buf;
  total_blocks = read_le 8 16 buf;
  sb_slot_a = read_le 8 24 buf;
  sb_slot_b = read_le 8 32 buf;
  first_data_block = read_le 8 40 buf;
  uuid = span buf 48 16;
  feature_compat = read_le 8 64 buf;
  feature_incompat = read_le 8 72 buf;
  feature_ro_compat = read_le 8 80 buf;
  kdf_algo = read_le 1 88 buf;
  kdf_salt = span buf 96 16;
  argon_m_cost = read_le 4 112 buf;
  argon_t_cost = read_le 4 116 buf;
  argon_p = read_le 4 120 buf;
  dek_wrap_nonce = span buf 128 12;
  dek_wrapped = span buf 144 32;
  dek_wrap_tag = span buf 176 16;
  label = span buf 192 64;
}

unfoldable pub decode_header : List ℕ → Result Error StaticHeader
unfolding same_name
decode_header buf =
    ensure (same_name (span buf 0 8) magic) Error.bad_header
    >> ensure (read_le 2 8 buf == format_version) Error.unsupported
    >> ensure (leb 1 (read_le 2 10 buf)) Error.bad_header
    >> ensure (read_le 4 12 buf == block_size) Error.unsupported
    >> ok (read_header buf)
