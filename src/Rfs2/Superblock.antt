-- ===== src/Rfs2/Superblock.antt =====
-- fs/rfs2/src/superblock.rs: the superblock, and the two slots that hold it.
use pureshade_os.Base.{
  ℕ, ◌+◌, Bool, true, false, not, ◌||◌, Option, none, some, List, [], ◌∷◌, replicate, ◌==◌,
  if◌then◌else◌,
}
use pureshade_os.Base.Bytes.{span}
use pureshade_os.Base.Names.{same_name}
use pureshade_os.Base.Result.{Result, ok, err, ◌>>=◌, ◌>>◌, ensure}
use pureshade_os.Base.Writes.{Write, bytes_at, le_at, written}
use pureshade_os.Rfs2.Layout.{
  Error, BlockPtr, to_bytes, from_bytes, read_le, sb_magic, block_size, block_ptr_size,
  sb_payload_size, StaticHeader,
}
use pureshade_os.Rfs2.Device.{BlockDevice}
use pureshade_os.Rfs2.Transform.{BlockTransform, seal_superblock, open_superblock}
pub mod Payload
pub mod Slot

pub record Superblock : Type 0 where
  pub gen : ℕ
  pub total_blocks : ℕ
  pub inode_map_root : BlockPtr
  pub inode_map_height : ℕ
  pub next_inode : ℕ
  pub inode_count : ℕ
  pub block_count : ℕ
  pub commit_time : ℕ
  pub uuid : List ℕ

abbrev pub payload_writes : Superblock → List Write
payload_writes sb =
    bytes_at 0 4072 (replicate sb_payload_size 0)
    ∷ bytes_at 0 8 sb_magic
    ∷ le_at 8 8 sb.gen
    ∷ le_at 8 16 sb.total_blocks
    ∷ bytes_at 24 32 (to_bytes sb.inode_map_root)
    ∷ le_at 8 56 sb.inode_map_height
    ∷ le_at 8 64 sb.next_inode
    ∷ le_at 8 72 sb.inode_count
    ∷ le_at 8 80 sb.block_count
    ∷ le_at 8 88 sb.commit_time
    ∷ bytes_at 96 16 sb.uuid
    ∷ []

unfoldable pub encode_payload : Superblock → List ℕ → List ℕ
encode_payload sb out = written (payload_writes sb) out

abbrev pub read_payload : List ℕ → Superblock
read_payload buf = record {
  gen = read_le 8 8 buf;
  total_blocks = read_le 8 16 buf;
  inode_map_root = from_bytes (span buf 24 block_ptr_size);
  inode_map_height = read_le 8 56 buf;
  next_inode = read_le 8 64 buf;
  inode_count = read_le 8 72 buf;
  block_count = read_le 8 80 buf;
  commit_time = read_le 8 88 buf;
  uuid = span buf 96 16;
}

unfoldable pub decode_payload : List ℕ → Result Error Superblock
decode_payload buf =
    ensure (same_name (span buf 0 8) sb_magic) Error.no_superblock >> ok (read_payload buf)

-- The buffer that `write_slot` hands to the device.
abbrev pub sealed_slot : BlockTransform → ℕ → Superblock → List ℕ
sealed_slot x slot sb =
    seal_superblock x slot sb.gen sb.uuid (encode_payload sb (replicate block_size 0))

module _ {D : Type 0} (device : BlockDevice D) (x : BlockTransform) where
  abbrev pub write_slot : D → ℕ → Superblock → D × Result Error (Unit {0})
  write_slot dev slot sb = device.write_block dev slot (sealed_slot x slot sb)

-- The checks of `read_slot` on a payload and the generation of its trailer.
unfoldable pub is_invalid : StaticHeader → ℕ → Superblock → Bool
is_invalid h trailer_gen sb =
    sb.gen == 0
    || not (sb.gen == trailer_gen)
    || not (sb.total_blocks == h.total_blocks)
    || not (same_name sb.uuid h.uuid)

unfoldable pub valid_payload : StaticHeader → ℕ → Result Error Superblock → Option Superblock
valid_payload h g (err e) = none
valid_payload h g (ok sb) = if is_invalid h g sb then none else some sb

unfoldable pub opened_slot : StaticHeader → Result Error (ℕ × List ℕ) → Option Superblock
opened_slot h (err e) = none
opened_slot h (ok (g, plain)) = valid_payload h g (decode_payload plain)

-- What the bytes of a slot hold.
unfoldable pub slot_of : BlockTransform → ℕ → StaticHeader → List ℕ → Option Superblock
slot_of x slot h buf = opened_slot h (open_superblock x slot h.uuid buf)

module _ {D : Type 0} (device : BlockDevice D) (x : BlockTransform) where
  unfoldable pub read_slot : D → ℕ → StaticHeader → Option Superblock
  read_slot dev slot h = elim (device.read_block dev slot) [
    | err e ↦ none
    | ok buf ↦ slot_of x slot h buf
  ]
