-- ===== src/Rfs2/Superblock/Payload.antt =====
-- A superblock survives the disk.
use pureshade_os.Base.{ℕ, ◌≡◌, refl, some, List, arith, length, take, ap, ◌∙◌}
use pureshade_os.Base.Bytes.{span, span-take}
use pureshade_os.Base.Names.{same_name}
use pureshade_os.Base.Little.{le}
use pureshade_os.Base.Result.{ok}
use pureshade_os.Base.Writes.{found, Sized, well_sized→Sized, span-found, of_le-found}
use pureshade_os.Rfs2.Layout.{to_bytes, from_bytes, read_le, sb_magic, block_size, sb_payload_size}
use pureshade_os.Rfs2.Layout.Valid.{Fits, Array, PtrFits}
use pureshade_os.Rfs2.Layout.Pointer.{from_bytes-to_bytes, length-to_bytes}
use pureshade_os.Rfs2.Superblock.{Superblock, payload_writes, encode_payload, decode_payload}

pub record SuperblockFits (sb : Superblock) : Type 0 where
  pub gen : Fits 8 sb.gen
  pub total_blocks : Fits 8 sb.total_blocks
  pub inode_map_height : Fits 8 sb.inode_map_height
  pub next_inode : Fits 8 sb.next_inode
  pub inode_count : Fits 8 sb.inode_count
  pub block_count : Fits 8 sb.block_count
  pub commit_time : Fits 8 sb.commit_time
  pub inode_map_root : PtrFits sb.inode_map_root
  pub uuid : Array 16 sb.uuid

module _ (sb : Superblock) (v : SuperblockFits sb) (out : List ℕ)
    (s : length out ≡ block_size) where
  payload-Sized : Sized (length out) (payload_writes sb)
  payload-Sized =
      well_sized→Sized (length out) (payload_writes sb)
        (rw (s, length-to_bytes sb.inode_map_root, v.uuid) refl)

  number_back :
      (off w : ℕ)
      → found (payload_writes sb) off 8 ≡ some (le 8 w)
      → Fits 8 w
      → read_le 8 off (encode_payload sb out) ≡ w
  unfolding encode_payload
  number_back off w f l = of_le-found (payload_writes sb) out off 8 w payload-Sized f l

  array_back :
      (off n : ℕ) (bs : List ℕ)
      → found (payload_writes sb) off n ≡ some bs
      → span (encode_payload sb out) off n ≡ bs
  unfolding encode_payload
  array_back off n bs f = span-found (payload_writes sb) out off n bs payload-Sized f

  -- A superblock whose fields fit reads back from its payload as it was.
  pub decode_payload-encode_payload : decode_payload (encode_payload sb out) ≡ ok sb
  unfolding decode_payload same_name
  decode_payload-encode_payload =
      let magic_back = array_back 0 8 sb_magic refl in
      let gen_back = number_back 8 sb.gen refl v.gen in
      let total_blocks_back = number_back 16 sb.total_blocks refl v.total_blocks in
      let inode_map_height_back = number_back 56 sb.inode_map_height refl v.inode_map_height in
      let next_inode_back = number_back 64 sb.next_inode refl v.next_inode in
      let inode_count_back = number_back 72 sb.inode_count refl v.inode_count in
      let block_count_back = number_back 80 sb.block_count refl v.block_count in
      let commit_time_back = number_back 88 sb.commit_time refl v.commit_time in
      let uuid_back = array_back 96 16 sb.uuid refl in
      let root_back =
        ap from_bytes (array_back 24 32 (to_bytes sb.inode_map_root) refl)
        ∙ from_bytes-to_bytes sb.inode_map_root v.inode_map_root in
      rw
        (
          magic_back, gen_back, total_blocks_back, inode_map_height_back, next_inode_back,
          inode_count_back, block_count_back, commit_time_back, uuid_back, root_back,
        )
        refl

-- Only the payload of the buffer is read.
pub decode_payload-take :
    (buf : List ℕ) → decode_payload (take sb_payload_size buf) ≡ decode_payload buf
unfolding decode_payload
decode_payload-take buf =
    rw
      (
        span-take 4072 0 8 buf (omega arith),
        span-take 4072 8 8 buf (omega arith),
        span-take 4072 16 8 buf (omega arith),
        span-take 4072 24 32 buf (omega arith),
        span-take 4072 56 8 buf (omega arith),
        span-take 4072 64 8 buf (omega arith),
        span-take 4072 72 8 buf (omega arith),
        span-take 4072 80 8 buf (omega arith),
        span-take 4072 88 8 buf (omega arith),
        span-take 4072 96 16 buf (omega arith),
      )
      refl
