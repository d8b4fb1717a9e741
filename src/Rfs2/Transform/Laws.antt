-- ===== src/Rfs2/Transform/Laws.antt =====
-- What a transform promises, that the identity keeps it, and that an opened superblock slot is what
-- was sealed.
use pureshade_os.Base.{ℕ, ◌≡◌, ◌≢◌, refl, sym, List, [], ◌∷◌, arith, length, take}
use pureshade_os.Base.Bytes.{span, overlay, span-overlay_self}
use pureshade_os.Base.Names.{same_name_ne}
use pureshade_os.Base.Result.{ok, err}
use pureshade_os.Base.Writes.{
  Write, Sized, well_sized→Sized, bytes_at, le_at, written, span-found, of_le-found, length-written,
}
use pureshade_os.Rfs2.Layout.{Error, block_size, sb_payload_size, sb_gen_copy_offset, sb_tag_offset}
use pureshade_os.Rfs2.Layout.Valid.{Fits, Array}
use pureshade_os.Rfs2.Transform.{
  Tag, BlockTransform, seal_superblock, open_superblock, sb_aad, tag_size, zero_tag, identity,
}

-- Sealing keeps the length of the data and gives a tag of 16 bytes, and what was sealed opens under
-- the same block, generation, additional data and tag.
pub record IsLawful (x : BlockTransform) : Type 0 where
  pub tag_length :
      (block gen : ℕ) (aad bs : List ℕ) → Array tag_size (x.encrypt_block block gen aad bs).0
  pub data_length :
      (block gen : ℕ) (aad bs : List ℕ) → length (x.encrypt_block block gen aad bs).1 ≡ length bs
  pub opens :
      (block gen : ℕ) (aad bs : List ℕ)
      → x.decrypt_block block gen aad
          (x.encrypt_block block gen aad bs).0
          (x.encrypt_block block gen aad bs).1
        ≡ ok bs

pub identity-IsLawful : IsLawful identity
unfolding identity
identity-IsLawful = record {
  tag_length = λ block gen aad bs. refl;
  data_length = λ block gen aad bs. refl;
  opens = λ block gen aad bs. refl;
}

-- Under the identity every other tag is refused.
pub identity_refuses :
    (block gen : ℕ) (aad bs : List ℕ) (tag : Tag)
    → tag ≢ zero_tag
    → identity.decrypt_block block gen aad tag bs ≡ err (Error.auth block)
unfolding identity
identity_refuses block gen aad bs tag d = rw (same_name_ne tag zero_tag d) refl

module _ (x : BlockTransform) (law : IsLawful x) (slot gen : ℕ) (uuid buf : List ℕ)
    (s : length buf ≡ block_size) (payload : length (span buf 0 sb_payload_size) ≡ sb_payload_size)
    (g : Fits 8 gen) where
  plain : List ℕ
  plain = span buf 0 sb_payload_size

  sealed : Tag × List ℕ
  sealed = x.encrypt_block slot gen (sb_aad gen slot uuid) (span buf 0 sb_payload_size)

  seal_writes : List Write
  seal_writes =
      bytes_at 0 4072 sealed.1
      ∷ le_at 8 sb_gen_copy_offset gen
      ∷ bytes_at sb_tag_offset tag_size sealed.0
      ∷ []

  seal-Sized : Sized (length buf) seal_writes
  unfolding seal_writes sealed
  seal-Sized = well_sized→Sized (length buf) seal_writes (
      rw
        (
          s,
          law.data_length slot gen (sb_aad gen slot uuid) (span buf 0 sb_payload_size),
          payload,
          law.tag_length slot gen (sb_aad gen slot uuid) (span buf 0 sb_payload_size),
        )
        refl)

  -- Opening a sealed slot gives back its generation and its payload.
  pub open_superblock-seal_superblock :
      let after = seal_superblock x slot gen uuid buf in
      (open_superblock x slot uuid after ≡ ok (gen, overlay after 0 (span buf 0 sb_payload_size)))
      × (take sb_payload_size (overlay after 0 (span buf 0 sb_payload_size))
          ≡ span buf 0 sb_payload_size)
  unfolding seal_superblock open_superblock seal_writes sealed
  open_superblock-seal_superblock =
      let gen_back = of_le-found seal_writes buf sb_gen_copy_offset 8 gen seal-Sized refl g in
      let tag_back = span-found seal_writes buf sb_tag_offset tag_size sealed.0 seal-Sized refl in
      let data_back = span-found seal_writes buf 0 sb_payload_size sealed.1 seal-Sized refl in
      (
        rw
            (
              gen_back,
              tag_back,
              data_back,
              law.opens slot gen (sb_aad gen slot uuid) (span buf 0 sb_payload_size),
            )
            refl,
        span-overlay_self (written seal_writes buf) 0 sb_payload_size (span buf 0 sb_payload_size)
            (omega (arith, length-written seal_writes buf, s, payload)) (sym payload),
      )
