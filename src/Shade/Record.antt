-- ===== src/Shade/Record.antt =====
-- `ValidRecord` of pkg/shade-store-db/src/lib.rs: the record of a realized package, as text.
pub mod Decimal
pub mod Roundtrip
use pureshade_os.Base.{
  ℕ, zero, suc, ◌+◌, ◌-◌, ◌*◌, ◌/◌, ◌%◌, ◌^◌, Bool, ◌&&◌, Option, none, some, List, [], ◌∷◌, ◌++◌,
  ◌==◌, ltb, leb, if◌then◌else◌,
}
use pureshade_os.Base.Names.{Name, same_name}
use pureshade_os.Shade.Names.{lines}

pub record ValidRecord : Type 0 where
  pub digest : Name
  pub cdf_hash : Name
  pub registered : ℕ
  pub deriver : Name
  pub name : Name
  pub refs : List Name

-- A number of 64 bits in decimal, of at most 20 digits, in front of a text.
unfoldable pub digits : ℕ → ℕ → List ℕ → List ℕ
digits zero n rest = rest
digits (suc fuel) n rest =
    let more = digits fuel (n / 10) ((48 + n % 10) ∷ rest) in
    if ltb n 10 then (48 + n) ∷ rest else more

abbrev pub to_string : ℕ → Name
to_string n = digits 20 n []

-- `str::parse` to 64 bits, which refuses what does not fit.
unfoldable pub parse_digits : List ℕ → ℕ → Option ℕ
parse_digits [] v = some v
parse_digits (c ∷ cs) v =
    let next = v * 10 + (c - 48) in
    let rest = parse_digits cs next in
    if leb 48 c && leb c 57 && ltb next (2 ^ 64) then rest else none

unfoldable pub parse_number : Name → Option ℕ
parse_number [] = none
parse_number (c ∷ []) = parse_digits (c ∷ []) 0
parse_number (c ∷ d ∷ cs) =
    if c == b'+' then parse_digits (d ∷ cs) 0 else parse_digits (c ∷ d ∷ cs) 0

-- "shade-db=1", "cdf-hash", "deriver", "name", "registered".
abbrev pub db_record_version : Name
db_record_version = 115 ∷ 104 ∷ 97 ∷ 100 ∷ 101 ∷ 45 ∷ 100 ∷ 98 ∷ 61 ∷ 49 ∷ []

abbrev pub cdf_hash_key : Name
cdf_hash_key = 99 ∷ 100 ∷ 102 ∷ 45 ∷ 104 ∷ 97 ∷ 115 ∷ 104 ∷ []

abbrev pub deriver_key : Name
deriver_key = 100 ∷ 101 ∷ 114 ∷ 105 ∷ 118 ∷ 101 ∷ 114 ∷ []

abbrev pub name_key : Name
name_key = 110 ∷ 97 ∷ 109 ∷ 101 ∷ []

abbrev pub registered_key : Name
registered_key = 114 ∷ 101 ∷ 103 ∷ 105 ∷ 115 ∷ 116 ∷ 101 ∷ 114 ∷ 101 ∷ 100 ∷ []

-- A line for each text, with its line feed.
unfoldable pub text_lines : List Name → List ℕ
text_lines [] = []
text_lines (l ∷ ls) = l ++ (10 ∷ text_lines ls)

abbrev pub entry : Name → Name → Name
entry key value = key ++ (b'=' ∷ value)

unfoldable pub serialize : ValidRecord → List ℕ
serialize r = text_lines (
    db_record_version
    ∷ entry cdf_hash_key r.cdf_hash
    ∷ entry deriver_key r.deriver
    ∷ entry name_key r.name
    ∷ entry registered_key (to_string r.registered)
    ∷ [])

-- `line.split_once('=')`.
unfoldable pub in_front : ℕ → Option (Name × Name) → Option (Name × Name)
in_front c none = none
in_front c (some (k, v)) = some (c ∷ k, v)

unfoldable pub split_once : Name → Option (Name × Name)
unfolding in_front
split_once [] = none
split_once (c ∷ cs) =
    let rest = split_once cs in if c == b'=' then some ([], cs) else in_front c rest

unfoldable pub set_registered : ValidRecord → Option ℕ → Option ValidRecord
set_registered r none = none
set_registered r (some n) = some (record r { registered = n })

-- A key that is not known is passed over.
unfoldable pub set_field : ValidRecord → Option (Name × Name) → Option ValidRecord
set_field r none = none
set_field r (some (k, v)) =
    if same_name k cdf_hash_key
    then some (record r { cdf_hash = v })
    else if same_name k deriver_key
    then some (record r { deriver = v })
    else if same_name k name_key
    then some (record r { name = v })
    else if same_name k registered_key
    then set_registered r (parse_number v)
    else some r

unfoldable pub parse_lines : List Name → Option ValidRecord → Option ValidRecord
parse_lines ls none = none
parse_lines [] (some r) = some r
parse_lines (l ∷ ls) (some r) = parse_lines ls (set_field r (split_once l))

unfoldable pub parse_versioned : Name → List Name → Option ValidRecord
parse_versioned digest [] = none
parse_versioned digest (l ∷ ls) =
    if same_name l db_record_version
    then parse_lines ls (
        some (record {
          digest = digest;
          cdf_hash = [];
          registered = 0;
          deriver = [];
          name = [];
          refs = [];
        }))
    else none

unfoldable pub parse : Name → List ℕ → Option ValidRecord
parse digest s = parse_versioned digest (lines s)
