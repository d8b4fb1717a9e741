-- ===== src/Rfs2/Dirent/Segments.antt =====
-- Segments of a record chain, and what a change of the block outside of them leaves.
use pureshade_os.Base.{
  ℕ, zero, suc, ◌+◌, ◌≤◌, ◌<◌, ◌≡◌, some, List, [], ◌∷◌, arith, length, lt→ltb, ◌*◌, ◌↔◌, ==_iff,
  le→not_ltb, subst, sym, ap, ◌∙◌,
}
use pureshade_os.Base.Bytes.{span}
use pureshade_os.Base.Little.{of_le}
use pureshade_os.Base.Result.{ok}
use pureshade_os.Rfs2.Layout.{block_size, read_le}
use pureshade_os.Rfs2.Dirent.{Dirent, dirent_hdr, parse_from, parse_block, parse_fuel}
use pureshade_os.Rfs2.Dirent.Record.{IsRecord, IsRecord-record_at}
use pureshade_os.Rfs2.Dirent.Chain.{
  Chain, Parsed, parse_from-end, parse_from-next, parse_block_lem, of_parse_from,
}

-- Two blocks agree on every span within the bounds.
abbrev pub Agree : List ℕ → List ℕ → ℕ → ℕ → Type 0
Agree b c lo hi = (k n : ℕ) → lo ≤ k → k + n ≤ hi → span c k n ≡ span b k n

pub IsRecord-Agree :
    (b c : List ℕ) (off : ℕ) (d : Dirent)
    → IsRecord b off d
    → Agree b c off (off + d.rec_len)
    → IsRecord c off d
IsRecord-Agree b c off d i a =
    let h = i.header in
    let f = i.name_fits in
    let n = i.name_len in
    let len : read_le 1 (off + 10) c ≡ read_le 1 (off + 10) b =
      ap of_le (a (off + 10) 1 (omega arith) (omega arith)) in
    record {
      offset = i.offset;
      inode = i.inode ∙ ap of_le (sym (a off 8 (omega arith) (omega arith)));
      rec_len = i.rec_len ∙ ap of_le (sym (a (off + 8) 2 (omega arith) (omega arith)));
      file_type = i.file_type ∙ ap of_le (sym (a (off + 11) 1 (omega arith) (omega arith)));
      name =
          i.name
          ∙ sym (a (off + dirent_hdr) (read_le 1 (off + 10) b) (omega arith) (omega arith))
          ∙ ap (λ k. span c (off + dirent_hdr) k) (sym len);
      name_len = i.name_len ∙ sym len;
      header = i.header;
      aligned = i.aligned;
      inside = i.inside;
      name_fits = i.name_fits;
      named = i.named;
    }

pub Chain-Agree :
    (b c : List ℕ) (off : ℕ) (ds : List Dirent)
    → Chain b off ds
    → Agree b c off block_size
    → Chain c off ds
Chain-Agree b c off [] s a = s
Chain-Agree b c off (d ∷ ds) s a =
    let i = s.0 in
    let l = i.inside in
    (
      IsRecord-Agree b c off d i (λ k n p q. a k n p (omega arith)),
      Chain-Agree b c (off + d.rec_len) ds s.1 (λ k n p q. a k n (omega arith) q),
    )

-- A chain is what the parse finds.
Chain-parse_from :
    (fuel : ℕ) (b : List ℕ) (off : ℕ) (ds : List Dirent)
    → Chain b off ds
    → block_size < off + dirent_hdr * fuel
    → off ≤ block_size
    → parse_from fuel b off ≡ some (ok ds)
Chain-parse_from zero b off ds c f h = absurd (omega arith)
Chain-parse_from (suc fuel) b off [] c f h =
    parse_from-end fuel b off (le→not_ltb off block_size (omega arith))
      ((==_iff off block_size).1 c)
Chain-parse_from (suc fuel) b off (d ∷ ds) c f h =
    let i = c.0 in
    let p = i.header in
    let q = i.inside in
    parse_from-next fuel b off d (ok ds) (lt→ltb off block_size (omega arith))
      (IsRecord-record_at b off d i)
      (Chain-parse_from fuel b (off + d.rec_len) ds c.1 (omega arith) i.inside)

-- The records of a block are those of its one chain.
pub parse_block_iff :
    (b : List ℕ) (ds : List Dirent) → length b ≡ block_size → (parse_block b ≡ ok ds) ↔ Chain b 0 ds
parse_block_iff b ds l = (
  λ e. chain_of e,
  λ c. of_parse_from b (ok ds) (Chain-parse_from parse_fuel b 0 ds c (omega arith) (omega arith)),
)
  where
    chain_of : parse_block b ≡ ok ds → Chain b 0 ds
    chain_of e = let p = parse_block_lem b l in subst (Parsed b 0) (sym p.2 ∙ e) p.3
