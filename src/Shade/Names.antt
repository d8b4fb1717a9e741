-- ===== src/Shade/Names.antt =====
-- Store names and the digests in them (pkg/shade-store-db/src/lib.rs, pkg/shade-store/src/backend.rs).
-- Texts are lists of bytes; those of the database are ASCII, so that bytes are characters.
pub mod Contains
pub mod Places
pub mod Scan
use pureshade_os.Base.{
  ℕ, zero, suc, ◌+◌, ◌-◌, Bool, true, false, not, ◌&&◌, ◌||◌, Option, none, some, List, [], ◌∷◌,
  ◌++◌, length, take, drop, ◌==◌, ltb, leb, if◌then◌else◌,
}
use pureshade_os.Base.Bytes.{span}
use pureshade_os.Base.Names.{Name, same_name}

abbrev pub FilePath : Type 0
FilePath = List ℕ

-- A `BTreeSet` of names, as the list of what was put in.
abbrev pub NameSet : Type 0
NameSet = List Name

unfoldable pub contains : NameSet → Name → Bool
contains [] d = false
contains (c ∷ s) d = same_name c d || contains s d

-- "0123456789abcdfghijklmnpqrsvwxyz".
abbrev pub base32_alphabet : List ℕ
base32_alphabet =
    48 ∷ 49 ∷ 50 ∷ 51 ∷ 52 ∷ 53 ∷ 54 ∷ 55 ∷ 56 ∷ 57 ∷ 97 ∷ 98 ∷ 99 ∷ 100 ∷ 102 ∷ 103 ∷ 104 ∷ 105
    ∷ 106 ∷ 107 ∷ 108 ∷ 109 ∷ 110 ∷ 112 ∷ 113 ∷ 114 ∷ 115 ∷ 118 ∷ 119 ∷ 120 ∷ 121 ∷ 122 ∷ []

has_byte : List ℕ → ℕ → Bool
has_byte [] c = false
has_byte (a ∷ s) c = a == c || has_byte s c

unfoldable pub is_base32 : ℕ → Bool
unfolding has_byte
is_base32 c = has_byte base32_alphabet c

unfoldable pub all_base32 : List ℕ → Bool
all_base32 [] = true
all_base32 (c ∷ cs) = is_base32 c && all_base32 cs

-- `s.strip_suffix(suffix).unwrap_or(s)`.
unfoldable pub without_suffix : Name → Name → Name
without_suffix suffix s =
    let n = length s - length suffix in
    if leb (length suffix) (length s) && same_name (drop n s) suffix then take n s else s

-- ".drv".
abbrev pub drv_suffix : Name
drv_suffix = 46 ∷ 100 ∷ 114 ∷ 118 ∷ []

unfoldable pub digest_of : Name → Option Name
digest_of bare =
    if ltb (length bare) 33 || not (same_name (span bare 32 1) (b'-' ∷ []))
    then none
    else if all_base32 (take 32 bare)
    then some (take 32 bare)
    else none

unfoldable pub store_entry_digest : Name → Option Name
store_entry_digest name = digest_of (without_suffix drv_suffix name)

-- `s.rsplit('/').next()`.
unfoldable pub last_component : FilePath → Name → Name
last_component [] name = name
last_component (c ∷ cs) name =
    if c == b'/' then last_component cs [] else last_component cs (name ++ (c ∷ []))

unfoldable pub digest_from_store_path : FilePath → Option Name
digest_from_store_path s = store_entry_digest (without_suffix drv_suffix (last_component s []))

-- `dir.trim_end_matches('/')`.
unfoldable pub trimmed_end : FilePath → FilePath
trimmed_end [] = []
trimmed_end (c ∷ cs) =
    let rest = trimmed_end cs in if c == b'/' && same_name rest [] then [] else c ∷ rest

unfoldable pub join : FilePath → Name → FilePath
join dir name = trimmed_end dir ++ (b'/' ∷ name)

-- `str::lines`: split at the line feeds, without the carriage return before one, and without an
-- empty last piece.
unfoldable pub onto_first_line : ℕ → List Name → List Name
onto_first_line c [] = (c ∷ []) ∷ []
onto_first_line c (p ∷ ps) = (c ∷ p) ∷ ps

unfoldable pub split_lines : List ℕ → List Name
unfolding onto_first_line
split_lines [] = [] ∷ []
split_lines (c ∷ cs) =
    let rest = split_lines cs in if c == 10 then [] ∷ rest else onto_first_line c rest

unfoldable pub ended_lines : List Name → List Name
ended_lines [] = []
ended_lines ([] ∷ []) = []
ended_lines ((c ∷ p) ∷ []) = (c ∷ p) ∷ []
ended_lines (p ∷ q ∷ ps) = without_suffix (13 ∷ []) p ∷ ended_lines (q ∷ ps)

unfoldable pub lines : List ℕ → List Name
unfolding split_lines ended_lines without_suffix
lines s = ended_lines (split_lines s)

-- `str::trim`, over the white space of ASCII.
is_space : ℕ → Bool
is_space c = (leb 9 c && leb c 13) || c == 32

trim_start : Name → Name
unfolding is_space
trim_start [] = []
trim_start (c ∷ cs) = if is_space c then trim_start cs else c ∷ cs

trim_end : Name → Name
unfolding is_space
trim_end [] = []
trim_end (c ∷ cs) =
    let rest = trim_end cs in if is_space c && same_name rest [] then [] else c ∷ rest

unfoldable pub trim : Name → Name
unfolding trim_start trim_end
trim s = trim_end (trim_start s)

-- The loop of `scan_bytes` over what is left of the buffer, with the bytes still to skip: after a digest
-- that was found, the rest of it and of the prefix.
unfoldable pub scan_from : List ℕ → ℕ → List ℕ → NameSet → NameSet
scan_from prefix skip [] set = set
scan_from prefix (suc skip) (c ∷ cs) set = scan_from prefix skip cs set
scan_from prefix zero (c ∷ cs) set =
    let candidate = span (c ∷ cs) (length prefix) 32 in
    let found = scan_from prefix (length prefix + 31) cs (candidate ∷ set) in
    let missed = scan_from prefix zero cs set in
    if ltb (length (c ∷ cs)) (length prefix + 32)
    then set
    else if same_name (take (length prefix) (c ∷ cs)) prefix && all_base32 candidate
    then found
    else missed

unfoldable pub scan_bytes : List ℕ → List ℕ → NameSet → NameSet
scan_bytes prefix buf set = if length prefix == 0 then set else scan_from prefix zero buf set
