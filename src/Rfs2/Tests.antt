-- ===== src/Rfs2/Tests.antt =====
-- A small volume, and the theorems of the on-disk format at it.
use pureshade_os.Base.{ℕ, ◌≡◌, ◌≢◌, refl, true, false, some, List, arith, replicate}
use pureshade_os.Rfs2.Layout.{BlockPtr, StaticHeader}
use pureshade_os.Rfs2.Layout.Valid.{HeaderFits, PtrFits}
use pureshade_os.Rfs2.Inode.{Inode, encode, decode, no_inline, is_fast}
use pureshade_os.Rfs2.Inode.Roundtrip.{InodeFits, decode-encode}
use pureshade_os.Rfs2.Transform.{identity}
use pureshade_os.Rfs2.Transform.Laws.{identity-IsLawful}
use pureshade_os.Rfs2.Superblock.{Superblock, sealed_slot, slot_of}
use pureshade_os.Rfs2.Superblock.Payload.{SuperblockFits}
use pureshade_os.Rfs2.Superblock.Slot.{slot_of-sealed_slot}

abbrev pub uuid : List ℕ
uuid = replicate 16 9

abbrev pub header : StaticHeader
header = record {
  format_version = 2;
  header_version = 1;
  block_size = 4096;
  total_blocks = 8;
  sb_slot_a = 1;
  sb_slot_b = 2;
  first_data_block = 3;
  uuid = uuid;
  feature_compat = 0;
  feature_incompat = 0;
  feature_ro_compat = 1;
  kdf_algo = 1;
  kdf_salt = replicate 16 0;
  argon_m_cost = 65536;
  argon_t_cost = 3;
  argon_p = 1;
  dek_wrap_nonce = replicate 12 0;
  dek_wrapped = replicate 32 0;
  dek_wrap_tag = replicate 16 0;
  label = replicate 64 0;
}

header-HeaderFits : HeaderFits header
header-HeaderFits = record {
  format_version = omega arith;
  header_version = omega arith;
  block_size = omega arith;
  total_blocks = omega arith;
  sb_slot_a = omega arith;
  sb_slot_b = omega arith;
  first_data_block = omega arith;
  uuid = refl;
  feature_compat = omega arith;
  feature_incompat = omega arith;
  feature_ro_compat = omega arith;
  kdf_algo = omega arith;
  kdf_salt = refl;
  argon_m_cost = omega arith;
  argon_t_cost = omega arith;
  argon_p = omega arith;
  dek_wrap_nonce = refl;
  dek_wrapped = refl;
  dek_wrap_tag = refl;
  label = refl;
}

abbrev pub root_ptr : BlockPtr
root_ptr = record { block = 4; gen = 1; tag = replicate 16 0 }

pub root_ptr-PtrFits : PtrFits root_ptr
root_ptr-PtrFits = record { block = omega arith; gen = omega arith; tag = refl }

abbrev pub root_inode : Inode
root_inode = record {
  mode = 16877;
  flags = 1;
  uid = 0;
  gid = 0;
  nlink = 2;
  size = 4096;
  blocks = 1;
  mtime = 7;
  ctime = 7;
  atime = 7;
  btime = 7;
  inode_gen = 1;
  bmap_height = 0;
  rdev = 0;
  bmap_root = root_ptr;
  inline = no_inline;
}

pub root_inode-InodeFits : InodeFits root_inode
unfolding is_fast
root_inode-InodeFits = record {
  mode = omega arith;
  flags = omega arith;
  uid = omega arith;
  gid = omega arith;
  nlink = omega arith;
  size = omega arith;
  blocks = omega arith;
  mtime = omega arith;
  ctime = omega arith;
  atime = omega arith;
  btime = omega arith;
  inode_gen = omega arith;
  bmap_height = omega arith;
  rdev = omega arith;
  bmap_root = root_ptr-PtrFits;
  inline = refl;
  fast = λ h. absurd (false_ne_true h);
  slow = λ h. refl;
}
  where
    false_ne_true : false ≢ true
    false_ne_true h = cc

decode-encode_example : decode (encode root_inode) ≡ root_inode
decode-encode_example = decode-encode root_inode root_inode-InodeFits

abbrev pub sb : Superblock
sb = record {
  gen = 5;
  total_blocks = 8;
  inode_map_root = root_ptr;
  inode_map_height = 0;
  next_inode = 10;
  inode_count = 1;
  block_count = 2;
  commit_time = 7;
  uuid = uuid;
}

pub sb-SuperblockFits : SuperblockFits sb
sb-SuperblockFits = record {
  gen = omega arith;
  total_blocks = omega arith;
  inode_map_height = omega arith;
  next_inode = omega arith;
  inode_count = omega arith;
  block_count = omega arith;
  commit_time = omega arith;
  inode_map_root = root_ptr-PtrFits;
  uuid = refl;
}

slot_of-sealed_slot_example : slot_of identity 1 header (sealed_slot identity 1 sb) ≡ some sb
slot_of-sealed_slot_example =
    slot_of-sealed_slot identity 1 header sb identity-IsLawful sb-SuperblockFits
      (record { gen = omega arith; total_blocks = refl; uuid = refl })
