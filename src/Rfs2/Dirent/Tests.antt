-- ===== src/Rfs2/Dirent/Tests.antt =====
-- A directory block with one entry, and the theorems at it.
use pureshade_os.Base.{ℕ, ◌≡◌, refl, true, some, List, [], ◌∷◌, arith}
use pureshade_os.Base.Result.{ok}
use pureshade_os.Base.Names.{Name, same_name}
use pureshade_os.Rfs2.Layout.{Error}
use pureshade_os.Base.Little.{of_le}
use pureshade_os.Base.{length}
use pureshade_os.Base.Result.{Result}
use pureshade_os.Rfs2.Dirent.{
  Dirent, init_empty, parse_from, parse_fuel, parse_block, record_at, insert, remove, write_entry,
}
use pureshade_os.Rfs2.Dirent.Entry.{entry_at}
use pureshade_os.Rfs2.Dirent.Insert.{insert_lem}
use pureshade_os.Rfs2.Dirent.Remove.{remove_lem}
use pureshade_os.Rfs2.Dirent.Chain.{Parsed, parse_block_lem}

length-init_empty : length init_empty ≡ 4096
unfolding init_empty
length-init_empty = refl

parse_block_lem_example :
    (r : Result Error (List Dirent)) × (parse_from parse_fuel init_empty 0 ≡ some r)
    × (parse_block init_empty ≡ r)
    × Parsed init_empty 0 r
parse_block_lem_example = parse_block_lem init_empty length-init_empty

-- One hole.
empty_block :
    parse_block init_empty
    ≡ ok (record { offset = 0; inode = 0; rec_len = 4096; file_type = 0; name = [] } ∷ [])
unfolding parse_block parse_from record_at init_empty of_le
empty_block = refl

-- The entry "a" for inode 10 in an empty directory block.
abbrev name_a : Name
name_a = 97 ∷ []

abbrev all_hole : List Dirent
all_hole = record { offset = 0; inode = 0; rec_len = 4096; file_type = 0; name = [] } ∷ []

insert_lem_example :
    (c : List ℕ) × (insert init_empty 10 1 name_a ≡ ok (c, true))
    × (parse_block c ≡ ok (entry_at 0 4096 10 1 name_a ∷ []))
insert_lem_example =
    insert_lem 10 1 name_a (omega arith) (omega arith) (omega arith) (omega arith) init_empty
      all_hole length-init_empty empty_block

abbrev one_entry : List ℕ
one_entry = write_entry init_empty 0 4096 10 1 name_a

length-one_entry : length one_entry ≡ 4096
unfolding write_entry init_empty
length-one_entry = refl

parse_one : parse_block one_entry ≡ ok (entry_at 0 4096 10 1 name_a ∷ [])
unfolding parse_block parse_from record_at write_entry init_empty of_le
parse_one = refl

remove_lem_example :
    (c : List ℕ) × (remove one_entry name_a ≡ ok (c, true)) × (parse_block c ≡ ok all_hole)
unfolding same_name
remove_lem_example =
    remove_lem name_a one_entry (entry_at 0 4096 10 1 name_a ∷ []) length-one_entry parse_one
