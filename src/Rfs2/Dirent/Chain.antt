-- ===== src/Rfs2/Dirent/Chain.antt =====
-- The records of a directory block partition it.
use pureshade_os.Base.{
  ℕ, zero, suc, ◌+◌, ◌*◌, ◌≤◌, ◌<◌, ◌≡◌, refl, inl, inr, true, false, some, List, [], ◌∷◌, arith,
  length, ◌==◌, ltb, ==_iff, Bool-cases,
}
use pureshade_os.Base.Result.{Result, ok, err, Result-cases}
use pureshade_os.Rfs2.Layout.{Error, block_size}
use pureshade_os.Rfs2.Dirent.{
  Dirent, dirent_hdr, record_at, parse_from, parse_block, parse_fuel, then_rest,
}
use pureshade_os.Rfs2.Dirent.Record.{IsRecord, record_at-IsRecord, record_at-err}

-- The records follow each other from `off` to the end of the block.
abbrev pub Chain : List ℕ → ℕ → List Dirent → Type 0
Chain block off [] = off ≡ block_size
Chain block off (d ∷ ds) = IsRecord block off d × Chain block (off + d.rec_len) ds

-- What the parse of a block from `off` on answers.
abbrev pub Parsed : List ℕ → ℕ → Result Error (List Dirent) → Type 0
Parsed block off (ok ds) = Chain block off ds
Parsed block off (err e) = e ≡ Error.corrupt

Parsed-then_rest :
    (block : List ℕ) (off : ℕ) (d : Dirent) (r : Result Error (List Dirent))
    → IsRecord block off d
    → Parsed block (off + d.rec_len) r
    → Parsed block off (then_rest d r)
Parsed-then_rest block off d (ok ds) i c = (i, c)
Parsed-then_rest block off d (err e) i c = c

-- The rounds of the loop.
pub parse_from-end :
    (fuel : ℕ) (block : List ℕ) (off : ℕ)
    → ltb off block_size ≡ false
    → (off == block_size) ≡ true
    → parse_from (suc fuel) block off ≡ some (ok [])
unfolding parse_from
parse_from-end fuel block off e h = rw (e, h, parse_from) refl

pub parse_from-corrupt :
    (fuel : ℕ) (block : List ℕ) (off : ℕ) (c : Error)
    → ltb off block_size ≡ true
    → record_at block off ≡ err c
    → parse_from (suc fuel) block off ≡ some (err c)
unfolding parse_from
parse_from-corrupt fuel block off c e h = rw (e, h, parse_from) refl

pub parse_from-next :
    (fuel : ℕ) (block : List ℕ) (off : ℕ) (d : Dirent) (r : Result Error (List Dirent))
    → ltb off block_size ≡ true
    → record_at block off ≡ ok d
    → parse_from fuel block (off + d.rec_len) ≡ some r
    → parse_from (suc fuel) block off ≡ some (then_rest d r)
unfolding parse_from
parse_from-next fuel block off d r e h p = rw (e, h, p, parse_from) refl

pub of_parse_from :
    (block : List ℕ) (r : Result Error (List Dirent))
    → parse_from parse_fuel block 0 ≡ some r
    → parse_block block ≡ r
unfolding parse_block
of_parse_from block r h = rw (h, parse_block) refl

-- Each record takes at least a header from what is left.
pub parse_from_lem :
    (fuel : ℕ) (block : List ℕ) (off : ℕ)
    → length block ≡ block_size
    → off ≤ block_size
    → block_size < off + dirent_hdr * fuel
    → (r : Result Error (List Dirent)) × (parse_from fuel block off ≡ some r) × Parsed block off r
parse_from_lem zero block off l h f = absurd (omega arith)
parse_from_lem (suc fuel) block off l h f = elim (Bool-cases (ltb off block_size)) [
  | inr e ↦
      let end : off ≡ block_size = ground arith in
      (ok [], parse_from-end fuel block off e ((==_iff off block_size).1 end), end)
  | inl e ↦ elim (Result-cases (record_at block off)) [
    | inr (c, q) ↦ (err c, parse_from-corrupt fuel block off c e q, record_at-err block off c q)
    | inl (d, q) ↦
        let i = record_at-IsRecord block off d l q in
        let rest =
          parse_from_lem fuel block (off + d.rec_len) l i.inside (omega (arith, i.header)) in
        (
          then_rest d rest.0,
          parse_from-next fuel block off d rest.0 e q rest.1,
          Parsed-then_rest block off d rest.0 i rest.2,
        )
  ]
]

-- Of a block of 4096 bytes, the parse always comes to an end: either it finds the block corrupt, or
-- its records follow each other from the start of the block to its end, each with a header, a length
-- that is a multiple of four, a name that fits, and a name that is not empty where it is live.
pub parse_block_lem :
    (block : List ℕ)
    → length block ≡ block_size
    → (r : Result Error (List Dirent)) × (parse_from parse_fuel block 0 ≡ some r)
      × (parse_block block ≡ r)
      × Parsed block 0 r
parse_block_lem block l =
    let p = parse_from_lem parse_fuel block 0 l (omega arith) (omega arith) in
    (p.0, p.1, of_parse_from block p.0 p.1, p.2)
