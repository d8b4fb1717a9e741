-- ===== src/Rfs2/Superblock/Slot.antt =====
-- The superblock of a slot: what was sealed is found again, and what is found has passed the checks.
use pureshade_os.Base.{
  ℕ, ◌≤◌, ◌≡◌, refl, ◌≢◌, Bool, true, false, not, ◌||◌, some, List, arith, replicate, length,
  length-take, ap, sym, ◌∙◌, subst, ◌==◌, ==_iff, ne→not_==, not_==→ne, inl, inr, Bool-cases,
}
use pureshade_os.Base.Bytes.{span, overlay}
use pureshade_os.Base.Names.{same_name, same_name_iff}
use pureshade_os.Base.Result.{Result, ok, err, bind_ok, ok_inj}
use pureshade_os.Base.Writes.{length-written}
use pureshade_os.Rfs2.Layout.{
  Error, StaticHeader, block_size, sb_payload_size, read_le, sb_gen_copy_offset, sb_tag_offset,
}
use pureshade_os.Rfs2.Transform.{BlockTransform, sb_aad, tag_size, open_superblock}
use pureshade_os.Rfs2.Transform.Laws.{IsLawful, open_superblock-seal_superblock}
use pureshade_os.Rfs2.Superblock.{
  Superblock, payload_writes, encode_payload, decode_payload, sealed_slot, is_invalid,
  valid_payload, opened_slot, slot_of,
}
use pureshade_os.Rfs2.Superblock.Payload.{
  SuperblockFits, decode_payload-encode_payload, decode_payload-take,
}

-- The superblock belongs to the volume of the header.
pub record Belongs (h : StaticHeader) (sb : Superblock) : Type 0 where
  pub gen : 1 ≤ sb.gen
  pub total_blocks : sb.total_blocks ≡ h.total_blocks
  pub uuid : sb.uuid ≡ h.uuid

Belongs→valid : (h : StaticHeader) (sb : Superblock) → Belongs h sb → is_invalid h sb.gen sb ≡ false
unfolding is_invalid
Belongs→valid h sb b =
    rw
      (
        ne→not_== sb.gen 0 (λ e. omega (arith, e, b.gen)),
        (==_iff sb.gen sb.gen).1 refl,
        (==_iff sb.total_blocks h.total_blocks).1 b.total_blocks,
        (same_name_iff sb.uuid h.uuid).1 b.uuid,
      )
      refl

valid→Belongs :
    (h : StaticHeader) (g : ℕ) (sb : Superblock)
    → is_invalid h g sb ≡ false
    → (sb.gen ≡ g) × Belongs h sb
unfolding is_invalid
valid→Belongs h g sb e =
    let q =
      none_of (sb.gen == 0) (sb.gen == g) (sb.total_blocks == h.total_blocks)
        (same_name sb.uuid h.uuid) e in
    let positive : 1 ≤ sb.gen = omega (arith, not_==→ne sb.gen 0 q.0) in
    (
      (==_iff sb.gen g).0 q.1,
      record {
        gen = positive;
        total_blocks = (==_iff sb.total_blocks h.total_blocks).0 q.2;
        uuid = (same_name_iff sb.uuid h.uuid).0 q.3;
      },
    )
  where
    none_of :
        (a b c d : Bool)
        → (a || not b || not c || not d) ≡ false
        → (a ≡ false) × (b ≡ true) × (c ≡ true) × (d ≡ true)
    none_of a b c d q = ground arith

slot_of_opened :
    (x : BlockTransform) (slot : ℕ) (h : StaticHeader) (buf : List ℕ) (g : ℕ) (plain : List ℕ)
    (sb : Superblock)
    → open_superblock x slot h.uuid buf ≡ ok (g, plain)
    → decode_payload plain ≡ ok sb
    → is_invalid h g sb ≡ false
    → slot_of x slot h buf ≡ some sb
unfolding slot_of opened_slot valid_payload
slot_of_opened x slot h buf g plain sb o d v = rw (o, d, v) refl

-- Under a transform that keeps its laws, a superblock whose fields fit and that belongs to the
-- volume of the header is found in the bytes that `write_slot` seals for its slot.
pub slot_of-sealed_slot :
    (x : BlockTransform) (slot : ℕ) (h : StaticHeader) (sb : Superblock)
    → IsLawful x
    → SuperblockFits sb
    → Belongs h sb
    → slot_of x slot h (sealed_slot x slot sb) ≡ some sb
unfolding encode_payload
slot_of-sealed_slot x slot h sb law v b =
    let plain = encode_payload sb (replicate block_size 0) in
    let after = sealed_slot x slot sb in
    let long : length plain ≡ block_size =
      length-written (payload_writes sb) (replicate block_size 0) in
    let short : length (span plain 0 sb_payload_size) ≡ sb_payload_size =
      omega (arith, length-take sb_payload_size plain, long) in
    let opened = open_superblock-seal_superblock x law slot sb.gen sb.uuid plain long short v.gen in
    let decoded : decode_payload (overlay after 0 (span plain 0 sb_payload_size)) ≡ ok sb =
      sym (decode_payload-take (overlay after 0 (span plain 0 sb_payload_size)))
      ∙ ap decode_payload opened.1
      ∙ decode_payload-take plain
      ∙ decode_payload-encode_payload sb v (replicate block_size 0) refl in
    slot_of_opened x slot h after sb.gen (overlay after 0 (span plain 0 sb_payload_size)) sb
      (subst
        (λ u.
          open_superblock x slot u after
          ≡ ok (sb.gen, overlay after 0 (span plain 0 sb_payload_size)))
        b.uuid opened.0)
      decoded (Belongs→valid h sb b)

valid_payload-some :
    (h : StaticHeader) (g : ℕ) (r : Result Error Superblock) (sb : Superblock)
    → valid_payload h g r ≡ some sb
    → (sb.gen ≡ g) × Belongs h sb
unfolding valid_payload
valid_payload-some h g (err e) sb q = cc
valid_payload-some h g (ok s) sb q = elim (Bool-cases (is_invalid h g s)) [
  | inl e ↦ absurd (rejected e q)
  | inr e ↦ subst (λ t. (t.gen ≡ g) × Belongs h t) (kept e q) (valid→Belongs h g s e)
]
  where
    rejected : is_invalid h g s ≡ true → valid_payload h g (ok s) ≢ some sb
    rejected e q = ground arith

    kept : is_invalid h g s ≡ false → valid_payload h g (ok s) ≡ some sb → s ≡ sb
    kept e q = ground arith

opened_slot-some :
    (h : StaticHeader) (r : Result Error (ℕ × List ℕ)) (sb : Superblock)
    → opened_slot h r ≡ some sb
    → (p : ℕ × List ℕ) × (r ≡ ok p) × (sb.gen ≡ p.0) × Belongs h sb
unfolding opened_slot
opened_slot-some h (err e) sb q = cc
opened_slot-some h (ok (g, plain)) sb q =
    let v = valid_payload-some h g (decode_payload plain) sb q in ((g, plain), refl, v.0, v.1)

-- A superblock that `read_slot` finds belongs to the volume, and its generation is the one of the
-- trailer.
pub slot_of-some :
    (x : BlockTransform) (slot : ℕ) (h : StaticHeader) (buf : List ℕ) (sb : Superblock)
    → slot_of x slot h buf ≡ some sb
    → (sb.gen ≡ read_le 8 sb_gen_copy_offset buf) × Belongs h sb
unfolding slot_of open_superblock
slot_of-some x slot h buf sb e =
    let q = opened_slot-some h (open_superblock x slot h.uuid buf) sb e in
    let r =
      bind_ok
        (x.decrypt_block slot (read_le 8 sb_gen_copy_offset buf)
          (sb_aad (read_le 8 sb_gen_copy_offset buf) slot h.uuid) (span buf sb_tag_offset tag_size)
          (span buf 0 sb_payload_size))
        (λ plain. ok (read_le 8 sb_gen_copy_offset buf, overlay buf 0 plain)) q.0 q.1 in
    let trailer : read_le 8 sb_gen_copy_offset buf ≡ q.0.0 =
      ap (λ p. p.0) (ok_inj (read_le 8 sb_gen_copy_offset buf, overlay buf 0 r.0) q.0 r.2) in
    (q.2 ∙ sym trailer, q.3)
