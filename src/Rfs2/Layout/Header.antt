-- ===== src/Rfs2/Layout/Header.antt =====
-- The static header survives the disk, and what a header that is accepted has passed.
use pureshade_os.Base.{
  ℕ, ◌≤◌, ◌≡◌, refl, some, List, replicate, ◌==◌, leb, ap, sym, ◌∙◌, subst, ◌↔◌, le→leb, leb→le,
  ==_iff,
}
use pureshade_os.Base.Bytes.{span}
use pureshade_os.Base.Names.{same_name, same_name_iff}
use pureshade_os.Base.Result.{ok, ◌>>◌, ensure, then_ok, ensure_ok, ok_inj}
use pureshade_os.Base.Little.{le}
use pureshade_os.Base.Writes.{found, Sized, well_sized→Sized, span-found, of_le-found}
use pureshade_os.Rfs2.Layout.{
  Error, magic, block_size, format_version, StaticHeader, header_writes, encode_header, read_header,
  decode_header, read_le,
}
use pureshade_os.Rfs2.Layout.Valid.{HeaderFits, Fits}

header-Sized : (h : StaticHeader) → HeaderFits h → Sized block_size (header_writes h)
header-Sized h v =
    well_sized→Sized block_size (header_writes h)
      (rw (v.uuid, v.kdf_salt, v.dek_wrap_nonce, v.dek_wrapped, v.dek_wrap_tag, v.label) refl)

-- The tests that a header passes.
abbrev pub Passes : List ℕ → Type 0
Passes buf =
    (span buf 0 8 ≡ magic)
    × (read_le 2 8 buf ≡ format_version)
    × (1 ≤ read_le 2 10 buf)
    × (read_le 4 12 buf ≡ block_size)

decode_header_passed : (buf : List ℕ) → Passes buf → decode_header buf ≡ ok (read_header buf)
unfolding decode_header
decode_header_passed buf t = rw (t.0, t.1, le→leb 1 (read_le 2 10 buf) t.2, t.3) refl

-- A block is read as a header exactly when its magic, version, header version and block size are as
-- they have to be, and then it is read as its fields stand.
pub decode_header_iff :
    (buf : List ℕ) (h : StaticHeader)
    → (decode_header buf ≡ ok h) ↔ (Passes buf × (read_header buf ≡ h))
unfolding decode_header
decode_header_iff buf h = (passed, λ t. decode_header_passed buf t.0 ∙ ap (λ r. ok r) t.1)
  where
    passed : decode_header buf ≡ ok h → Passes buf × (read_header buf ≡ h)
    passed e =
        let m = ensure (same_name (span buf 0 8) magic) Error.bad_header in
        let a = ensure (read_le 2 8 buf == format_version) Error.unsupported in
        let b = ensure (leb 1 (read_le 2 10 buf)) Error.bad_header in
        let c = ensure (read_le 4 12 buf == block_size) Error.unsupported in
        let q = then_ok (m >> a >> b >> c) (ok (read_header buf)) h e in
        let r = then_ok (m >> a >> b) c tt q.0 in
        let s = then_ok (m >> a) b tt r.0 in
        let t = then_ok m a tt s.0 in
        (
          (
            (same_name_iff (span buf 0 8) magic).0
                (ensure_ok (same_name (span buf 0 8) magic) Error.bad_header t.0),
            (==_iff (read_le 2 8 buf) format_version).0
                (ensure_ok (read_le 2 8 buf == format_version) Error.unsupported t.1),
            leb→le 1 (read_le 2 10 buf) (ensure_ok (leb 1 (read_le 2 10 buf)) Error.bad_header s.1),
            (==_iff (read_le 4 12 buf) block_size).0
                (ensure_ok (read_le 4 12 buf == block_size) Error.unsupported r.1),
          ),
          ok_inj (read_header buf) h q.1,
        )

module _ (h : StaticHeader) (v : HeaderFits h) where
  number_back :
      (n off w : ℕ)
      → found (header_writes h) off n ≡ some (le n w)
      → Fits n w
      → read_le n off (encode_header h) ≡ w
  unfolding encode_header
  number_back n off w f l =
      of_le-found (header_writes h) (replicate block_size 0) off n w (header-Sized h v) f l

  array_back :
      (off n : ℕ) (bs : List ℕ)
      → found (header_writes h) off n ≡ some bs
      → span (encode_header h) off n ≡ bs
  unfolding encode_header
  array_back off n bs f =
      span-found (header_writes h) (replicate block_size 0) off n bs (header-Sized h v) f

  read_header-encode_header : read_header (encode_header h) ≡ h
  read_header-encode_header =
      let format_version_back = number_back 2 8 h.format_version refl v.format_version in
      let header_version_back = number_back 2 10 h.header_version refl v.header_version in
      let block_size_back = number_back 4 12 h.block_size refl v.block_size in
      let total_blocks_back = number_back 8 16 h.total_blocks refl v.total_blocks in
      let sb_slot_a_back = number_back 8 24 h.sb_slot_a refl v.sb_slot_a in
      let sb_slot_b_back = number_back 8 32 h.sb_slot_b refl v.sb_slot_b in
      let first_data_block_back = number_back 8 40 h.first_data_block refl v.first_data_block in
      let feature_compat_back = number_back 8 64 h.feature_compat refl v.feature_compat in
      let feature_incompat_back = number_back 8 72 h.feature_incompat refl v.feature_incompat in
      let feature_ro_compat_back = number_back 8 80 h.feature_ro_compat refl v.feature_ro_compat in
      let kdf_algo_back = number_back 1 88 h.kdf_algo refl v.kdf_algo in
      let argon_m_cost_back = number_back 4 112 h.argon_m_cost refl v.argon_m_cost in
      let argon_t_cost_back = number_back 4 116 h.argon_t_cost refl v.argon_t_cost in
      let argon_p_back = number_back 4 120 h.argon_p refl v.argon_p in
      let uuid_back = array_back 48 16 h.uuid refl in
      let kdf_salt_back = array_back 96 16 h.kdf_salt refl in
      let dek_wrap_nonce_back = array_back 128 12 h.dek_wrap_nonce refl in
      let dek_wrapped_back = array_back 144 32 h.dek_wrapped refl in
      let dek_wrap_tag_back = array_back 176 16 h.dek_wrap_tag refl in
      let label_back = array_back 192 64 h.label refl in
      rw
        (
          format_version_back, header_version_back, block_size_back, total_blocks_back,
          sb_slot_a_back, sb_slot_b_back, first_data_block_back, feature_compat_back,
          feature_incompat_back, feature_ro_compat_back, kdf_algo_back, argon_m_cost_back,
          argon_t_cost_back, argon_p_back, uuid_back, kdf_salt_back, dek_wrap_nonce_back,
          dek_wrapped_back, dek_wrap_tag_back, label_back,
        )
        refl

  -- A header of this version and block size reads back from its block as it was.
  pub decode_header-encode_header :
      h.format_version ≡ format_version
      → 1 ≤ h.header_version
      → h.block_size ≡ block_size
      → decode_header (encode_header h) ≡ ok h
  decode_header-encode_header fv hv bs =
      let m = array_back 0 8 magic refl in
      let a = number_back 2 8 h.format_version refl v.format_version in
      let b = number_back 2 10 h.header_version refl v.header_version in
      let c = number_back 4 12 h.block_size refl v.block_size in
      decode_header_passed (encode_header h) (m, a ∙ fv, subst (λ k. 1 ≤ k) (sym b) hv, c ∙ bs)
      ∙ ap (λ r. ok r) read_header-encode_header
