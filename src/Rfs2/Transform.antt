-- ===== src/Rfs2/Transform.antt =====
-- fs/rfs2/src/transform.rs: the sealing of blocks, of which the cipher is one implementation.
use pureshade_os.Base.{ℕ, ◌+◌, List, [], ◌∷◌, replicate, if◌then◌else◌}
use pureshade_os.Base.Bytes.{span, overlay}
use pureshade_os.Base.Names.{same_name}
use pureshade_os.Base.Result.{Result, ok, err, ◌>>=◌}
use pureshade_os.Base.Writes.{bytes_at, le_at, written}
use pureshade_os.Rfs2.Layout.{
  Error, read_le, sb_magic, sb_payload_size, sb_gen_copy_offset, sb_tag_offset,
}
pub mod Laws

abbrev pub tag_size : ℕ
tag_size = 16

abbrev pub Tag : Type 0
Tag = List ℕ

unfoldable pub dyn_aad : ℕ → ℕ → List ℕ
dyn_aad block gen = written (le_at 8 0 block ∷ le_at 8 8 gen ∷ []) (replicate 16 0)

unfoldable pub sb_aad : ℕ → ℕ → List ℕ → List ℕ
sb_aad gen slot uuid =
    written (bytes_at 0 8 sb_magic ∷ le_at 8 8 gen ∷ le_at 8 16 slot ∷ bytes_at 24 16 uuid ∷ [])
      (replicate 40 0)

-- The data that is transformed in place is passed in and out: block, generation, additional data,
-- for opening the expected tag, and the data.
pub record BlockTransform : Type 0 where
  pub encrypt_block : ℕ → ℕ → List ℕ → List ℕ → Tag × List ℕ
  pub decrypt_block : ℕ → ℕ → List ℕ → Tag → List ℕ → Result Error (List ℕ)
  pub incompat_features : ℕ

unfoldable pub seal_superblock : BlockTransform → ℕ → ℕ → List ℕ → List ℕ → List ℕ
seal_superblock x slot gen uuid buf =
    let sealed = x.encrypt_block slot gen (sb_aad gen slot uuid) (span buf 0 sb_payload_size) in
    written
      (bytes_at 0 4072 sealed.1
        ∷ le_at 8 sb_gen_copy_offset gen
        ∷ bytes_at sb_tag_offset tag_size sealed.0
        ∷ [])
      buf

-- The generation of the trailer, and the buffer with the opened payload.
unfoldable pub open_superblock : BlockTransform → ℕ → List ℕ → List ℕ → Result Error (ℕ × List ℕ)
open_superblock x slot uuid buf =
    let gen = read_le 8 sb_gen_copy_offset buf in
    let tag = span buf sb_tag_offset tag_size in
    x.decrypt_block slot gen (sb_aad gen slot uuid) tag (span buf 0 sb_payload_size) >>= λ plain.
    ok (gen, overlay buf 0 plain)

-- `IdentityTransform`: no encryption, and the tag of zeros.
abbrev pub zero_tag : Tag
zero_tag = replicate tag_size 0

unfoldable pub identity : BlockTransform
unfolding same_name
identity = record {
  encrypt_block = λ block gen aad buf. (zero_tag, buf);
  decrypt_block =
      λ block gen aad tag buf. if same_name tag zero_tag then ok buf else err (Error.auth block);
  incompat_features = 0;
}
