-- ===== src/Rfs2/Dirent/Record.antt =====
-- One record of a directory block.
use pureshade_os.Base.{
  ℕ, ◌+◌, ◌%◌, ◌≤◌, ◌<◌, ◌≡◌, refl, ◌⊎◌, inl, inr, Bool, true, not, ◌&&◌, ◌||◌, List, arith, length,
  length-take, length-drop, drop, ◌==◌, leb, leb→le, le→leb, ==_iff, subst, sym, ap, ◌∙◌,
}
use pureshade_os.Base.Bytes.{span}
use pureshade_os.Base.Result.{
  ok, err, ◌>>◌, ensure, ensure_ok, then_ok, then_err, ensure_err, err_ne_ok, ok_inj,
}
use pureshade_os.Rfs2.Layout.{Error, block_size, read_le}
use pureshade_os.Rfs2.Dirent.{Dirent, dirent_hdr, record_at}

-- A record as its bytes stand in the block, with DIR-1.
pub record IsRecord (block : List ℕ) (off : ℕ) (d : Dirent) : Type 0 where
  pub offset : d.offset ≡ off
  pub inode : d.inode ≡ read_le 8 off block
  pub rec_len : d.rec_len ≡ read_le 2 (off + 8) block
  pub file_type : d.file_type ≡ read_le 1 (off + 11) block
  pub name : d.name ≡ span block (off + dirent_hdr) (read_le 1 (off + 10) block)
  pub name_len : length d.name ≡ read_le 1 (off + 10) block
  pub header : dirent_hdr ≤ d.rec_len
  pub aligned : d.rec_len % 4 ≡ 0
  pub inside : off + d.rec_len ≤ block_size
  pub name_fits : dirent_hdr + length d.name ≤ d.rec_len
  pub named : (d.inode ≡ 0) ⊎ (0 < length d.name)

four_true :
    (a b c d : Bool) → (a && b && c && d) ≡ true → (a ≡ true) × (b ≡ true) × (c ≡ true) × (d ≡ true)
four_true a b c d h = ground arith

zero_or_positive : (i n : ℕ) → (i == 0 || not (n == 0)) ≡ true → (i ≡ 0) ⊎ (0 < n)
zero_or_positive i n h = ground arith

pub record_at-IsRecord :
    (block : List ℕ) (off : ℕ) (d : Dirent)
    → length block ≡ block_size
    → record_at block off ≡ ok d
    → IsRecord block off d
unfolding record_at
record_at-IsRecord block off d l e =
    let inode = read_le 8 off block in
    let rec_len = read_le 2 (off + 8) block in
    let name_len = read_le 1 (off + 10) block in
    let name = span block (off + dirent_hdr) name_len in
    let entry : Dirent = record {
      offset = off;
      inode = inode;
      rec_len = rec_len;
      file_type = read_le 1 (off + 11) block;
      name = name;
    } in
    let fits =
      leb dirent_hdr rec_len
      && rec_len % 4 == 0
      && leb (off + rec_len) block_size
      && leb (dirent_hdr + name_len) rec_len in
    let a = ensure (leb (off + dirent_hdr) block_size) Error.corrupt in
    let b = ensure fits Error.corrupt in
    let c = ensure (inode == 0 || not (name_len == 0)) Error.corrupt in
    let q = then_ok (a >> b >> c) (ok entry) d e in
    let r = then_ok (a >> b) c tt q.0 in
    let s = then_ok a b tt r.0 in
    let t =
      four_true (leb dirent_hdr rec_len) (rec_len % 4 == 0) (leb (off + rec_len) block_size)
        (leb (dirent_hdr + name_len) rec_len) (ensure_ok fits Error.corrupt s.1) in
    let header = leb→le dirent_hdr rec_len t.0 in
    let inside = leb→le (off + rec_len) block_size t.2 in
    let room = leb→le (dirent_hdr + name_len) rec_len t.3 in
    let name_length : length name ≡ name_len = omega (
      arith,
      length-take name_len (drop (off + dirent_hdr) block),
      length-drop (off + dirent_hdr) block,
      l,
    ) in
    let named : (inode ≡ 0) ⊎ (0 < length name) =
      subst (λ n. (inode ≡ 0) ⊎ (0 < n)) (sym name_length)
        (zero_or_positive inode name_len
          (ensure_ok (inode == 0 || not (name_len == 0)) Error.corrupt r.1)) in
    subst (IsRecord block off) (ok_inj entry d q.1) (record {
      offset = refl;
      inode = refl;
      rec_len = refl;
      file_type = refl;
      name = refl;
      name_len = name_length;
      header = header;
      aligned = (==_iff (rec_len % 4) 0).0 t.1;
      inside = inside;
      name_fits = omega (arith, name_length);
      named = named;
    })

zero_or_positive-true : (i n m : ℕ) → n ≡ m → (i ≡ 0) ⊎ (0 < n) → (i == 0 || not (m == 0)) ≡ true
zero_or_positive-true i n m e h = ground arith

all_true : (a b c d : Bool) → a ≡ true → b ≡ true → c ≡ true → d ≡ true → (a && b && c && d) ≡ true
all_true a b c d p q r s = ground arith

Dirent_ext :
    (d e : Dirent)
    → d.offset ≡ e.offset
    → d.inode ≡ e.inode
    → d.rec_len ≡ e.rec_len
    → d.file_type ≡ e.file_type
    → d.name ≡ e.name
    → d ≡ e
Dirent_ext d e o i r f n = rw (o, i, r, f, n) refl

passes :
    (a b c : Bool) (d : Dirent)
    → a ≡ true
    → b ≡ true
    → c ≡ true
    → (ensure a Error.corrupt >> ensure b Error.corrupt >> ensure c Error.corrupt >> ok d) ≡ ok d
passes a b c d p q r = rw (p, q, r) refl

pub IsRecord-record_at :
    (block : List ℕ) (off : ℕ) (d : Dirent) → IsRecord block off d → record_at block off ≡ ok d
unfolding record_at
IsRecord-record_at block off d i =
    let len = read_le 2 (off + 8) block in
    let fits =
      all_true (leb dirent_hdr len) (len % 4 == 0) (leb (off + len) block_size)
        (leb (dirent_hdr + read_le 1 (off + 10) block) len)
        (le→leb dirent_hdr len (omega (arith, i.header, i.rec_len)))
        ((==_iff (len % 4) 0).1 (ap (λ n. n % 4) (sym i.rec_len) ∙ i.aligned))
        (le→leb (off + len) block_size (omega (arith, i.inside, i.rec_len)))
        (le→leb (dirent_hdr + read_le 1 (off + 10) block) len
          (omega (arith, i.name_fits, i.name_len, i.rec_len))) in
    let outside = le→leb (off + dirent_hdr) block_size (omega (arith, i.header, i.inside)) in
    let named : (read_le 8 off block == 0 || not (read_le 1 (off + 10) block == 0)) ≡ true =
      zero_or_positive-true (read_le 8 off block) (length d.name) (read_le 1 (off + 10) block)
        i.name_len (subst (λ n. (n ≡ 0) ⊎ (0 < length d.name)) i.inode i.named) in
    let entry : Dirent = record {
      offset = off;
      inode = read_le 8 off block;
      rec_len = len;
      file_type = read_le 1 (off + 11) block;
      name = span block (off + dirent_hdr) (read_le 1 (off + 10) block);
    } in
    passes (leb (off + dirent_hdr) block_size)
      (leb dirent_hdr len
        && len % 4 == 0
        && leb (off + len) block_size
        && leb (dirent_hdr + read_le 1 (off + 10) block) len)
      (read_le 8 off block == 0 || not (read_le 1 (off + 10) block == 0)) entry outside fits named
    ∙ ap (λ e. ok e) (sym (Dirent_ext d entry i.offset i.inode i.rec_len i.file_type i.name))

pub record_at-err :
    (block : List ℕ) (off : ℕ) (e : Error) → record_at block off ≡ err e → e ≡ Error.corrupt
unfolding record_at
record_at-err block off e h =
    let inode = read_le 8 off block in
    let rec_len = read_le 2 (off + 8) block in
    let name_len = read_le 1 (off + 10) block in
    let outside = leb (off + dirent_hdr) block_size in
    let fits =
      leb dirent_hdr rec_len
      && rec_len % 4 == 0
      && leb (off + rec_len) block_size
      && leb (dirent_hdr + name_len) rec_len in
    let named = inode == 0 || not (name_len == 0) in
    let a = ensure outside Error.corrupt in
    let b = ensure fits Error.corrupt in
    let c = ensure named Error.corrupt in
    let entry : Dirent = record {
      offset = off;
      inode = inode;
      rec_len = rec_len;
      file_type = read_le 1 (off + 11) block;
      name = span block (off + dirent_hdr) name_len;
    } in
    elim (then_err (a >> b >> c) (ok entry) e h) [
      | inr q ↦ absurd (err_ne_ok e entry (sym q))
      | inl q ↦ elim (then_err (a >> b) c e q) [
        | inr r ↦ ensure_err named Error.corrupt e r
        | inl r ↦ elim (then_err a b e r) [
          | inr t ↦ ensure_err fits Error.corrupt e t
          | inl t ↦ ensure_err outside Error.corrupt e t
        ]
      ]
    ]
