-- ===== src/Rfs2/Dirent.antt =====
-- fs/rfs2/src/dirent.rs: the chain of entries of a directory block.
use pureshade_os.Base.{
  ℕ, zero, suc, ◌+◌, ◌-◌, ◌*◌, ◌/◌, ◌%◌, Bool, true, false, not, ◌&&◌, ◌||◌, Option, none, some,
  List, [], ◌∷◌, replicate, length, min, ◌==◌, ltb, leb, if◌then◌else◌,
}
use pureshade_os.Base.Bytes.{span}
use pureshade_os.Base.Names.{Name, same_name}
use pureshade_os.Base.Result.{Result, ok, err, ◌>>=◌, ◌>>◌, ensure}
use pureshade_os.Base.Writes.{Write, bytes_at, le_at, written}
use pureshade_os.Rfs2.Layout.{Error, block_size, read_le}
pub mod Record
pub mod Chain
pub mod Segments
pub mod Outcome
pub mod Retarget
pub mod Remove
pub mod Entry
pub mod Insert
pub mod Tests

abbrev pub dirent_hdr : ℕ
dirent_hdr = 12

abbrev pub name_max : ℕ
name_max = 255

-- `(n + 3) & !3`.
abbrev pub align4 : ℕ → ℕ
align4 n = (n + 3) / 4 * 4

pub record Dirent : Type 0 where
  pub offset : ℕ
  pub inode : ℕ
  pub rec_len : ℕ
  pub file_type : ℕ
  pub name : Name

-- One round of the loop of `parse_block`: the record at `off`, which lies before the end.
unfoldable pub record_at : List ℕ → ℕ → Result Error Dirent
record_at block off =
    let inode = read_le 8 off block in
    let rec_len = read_le 2 (off + 8) block in
    let name_len = read_le 1 (off + 10) block in
    let file_type = read_le 1 (off + 11) block in
    ensure (leb (off + dirent_hdr) block_size) Error.corrupt
    >> ensure
        (leb dirent_hdr rec_len
          && rec_len % 4 == 0
          && leb (off + rec_len) block_size
          && leb (dirent_hdr + name_len) rec_len)
        Error.corrupt
    >> ensure (inode == 0 || not (name_len == 0)) Error.corrupt
    >> ok (record {
      offset = off;
      inode = inode;
      rec_len = rec_len;
      file_type = file_type;
      name = span block (off + dirent_hdr) name_len;
    })

abbrev pub then_rest : Dirent → Result Error (List Dirent) → Result Error (List Dirent)
then_rest d r = r >>= λ ds. ok (d ∷ ds)

-- The loop, on fuel; `none` is fuel that ran out.
unfoldable pub parse_from : ℕ → List ℕ → ℕ → Option (Result Error (List Dirent))
parse_from zero block off = none
parse_from (suc fuel) block off = elim (ltb off block_size) [
  | false ↦ some (if off == block_size then ok [] else err Error.corrupt)
  | true ↦ elim (record_at block off) [
    | err e ↦ some (err e)
    | ok d ↦ elim (parse_from fuel block (off + d.rec_len)) [
      | none ↦ none
      | some r ↦ some (then_rest d r)
    ]
  ]
]

-- A record has a header at least, so that a block has 341 of them at most.
abbrev pub parse_fuel : ℕ
parse_fuel = block_size / dirent_hdr + 1

-- The fuel never runs out.
unfoldable pub parse_block : List ℕ → Result Error (List Dirent)
parse_block block = elim (parse_from parse_fuel block 0) [ none ↦ err Error.corrupt | some r ↦ r ]

unfoldable pub init_empty : List ℕ
init_empty = written (le_at 2 8 block_size ∷ []) (replicate block_size 0)

abbrev pub entry_writes : ℕ → ℕ → ℕ → ℕ → Name → List Write
entry_writes off rec_len ino ftype name =
    let used_end = dirent_hdr + length name in
    let pad = min (align4 used_end) rec_len - used_end in
    le_at 8 off ino
    ∷ le_at 2 (off + 8) rec_len
    ∷ le_at 1 (off + 10) (length name)
    ∷ le_at 1 (off + 11) ftype
    ∷ bytes_at (off + dirent_hdr) (length name) name
    ∷ bytes_at (off + used_end) pad (replicate pad 0)
    ∷ []

unfoldable pub write_entry : List ℕ → ℕ → ℕ → ℕ → ℕ → Name → List ℕ
write_entry block off rec_len ino ftype name =
    written (entry_writes off rec_len ino ftype name) block

abbrev pub is_live : Dirent → Bool
is_live d = not (d.inode == 0)

abbrev pub is_named : Name → Dirent → Bool
is_named name d = is_live d && same_name d.name name

abbrev pub find_in : Name → List Dirent → Option (ℕ × ℕ × ℕ)
find_in name [] = none
find_in name (d ∷ ds) =
    if is_named name d then some (d.offset, d.inode, d.file_type) else find_in name ds

unfoldable pub find : List ℕ → Name → Result Error (Option (ℕ × ℕ × ℕ))
find block name = parse_block block >>= λ ds. ok (find_in name ds)

-- The slack of a live record behind its name.
abbrev pub used_of : Dirent → ℕ
used_of d = align4 (dirent_hdr + length d.name)

-- The loop of `insert`: reuse a hole, or split a live record.
unfoldable pub insert_in : List ℕ → ℕ → ℕ → Name → List Dirent → List ℕ × Bool
insert_in block ino ftype name [] = (block, false)
insert_in block ino ftype name (d ∷ ds) =
    let needed = align4 (dirent_hdr + length name) in
    let rest = insert_in block ino ftype name ds in
    if d.inode == 0 && leb needed d.rec_len
    then (write_entry block d.offset d.rec_len ino ftype name, true)
    else if is_live d && leb needed (d.rec_len - used_of d)
    then (
      write_entry (written (le_at 2 (d.offset + 8) (used_of d) ∷ []) block) (d.offset + used_of d)
          (d.rec_len - used_of d) ino ftype name,
      true,
    )
    else rest

-- The block as it is afterwards, and whether the entry has found room.
unfoldable pub insert : List ℕ → ℕ → ℕ → Name → Result Error (List ℕ × Bool)
insert block ino ftype name =
    ensure (not (length name == 0) && leb (length name) name_max) Error.invalid
    >> parse_block block
    >>= λ ds. ok (insert_in block ino ftype name ds)

-- The loop of `remove`, with the record before: merge the record into it, or make a hole of it.
unfoldable pub remove_in : List ℕ → Name → Option Dirent → List Dirent → List ℕ × Bool
remove_in block name prev [] = (block, false)
remove_in block name none (d ∷ ds) =
    let rest = remove_in block name (some d) ds in
    if is_named name d
    then (
      written (le_at 8 d.offset 0 ∷ le_at 1 (d.offset + 10) 0 ∷ le_at 1 (d.offset + 11) 0 ∷ [])
          block,
      true,
    )
    else rest
remove_in block name (some p) (d ∷ ds) =
    let rest = remove_in block name (some d) ds in
    if is_named name d
    then (written (le_at 2 (p.offset + 8) (p.rec_len + d.rec_len) ∷ []) block, true)
    else rest

unfoldable pub remove : List ℕ → Name → Result Error (List ℕ × Bool)
remove block name = parse_block block >>= λ ds. ok (remove_in block name none ds)

unfoldable pub retarget_in : List ℕ → Name → ℕ → List Dirent → List ℕ × Bool
retarget_in block name new_ino [] = (block, false)
retarget_in block name new_ino (d ∷ ds) =
    let rest = retarget_in block name new_ino ds in
    if is_named name d then (written (le_at 8 d.offset new_ino ∷ []) block, true) else rest

unfoldable pub retarget : List ℕ → Name → ℕ → Result Error (List ℕ × Bool)
retarget block name new_ino = parse_block block >>= λ ds. ok (retarget_in block name new_ino ds)

-- "." and "..".
abbrev pub dot : Name
dot = 46 ∷ []

abbrev pub dot_dot : Name
dot_dot = 46 ∷ 46 ∷ []

abbrev pub all_dots : List Dirent → Bool
all_dots [] = true
all_dots (d ∷ ds) =
    if is_live d && not (same_name d.name dot) && not (same_name d.name dot_dot)
    then false
    else all_dots ds

unfoldable pub only_dots : List ℕ → Result Error Bool
only_dots block = parse_block block >>= λ ds. ok (all_dots ds)
