-- ===== src/Shade/Record/Roundtrip.antt =====
-- A record survives its text (pkg/shade-store-db/src/lib.rs).
use pureshade_os.Base.{
  ℕ, zero, suc, ◌+◌, ◌-◌, ◌/◌, ◌%◌, ◌^◌, ◌<◌, ◌≡◌, ◌≢◌, refl, ap, ◌∙◌, inl, inr, Bool, true, false,
  not, ◌&&◌, some, List, [], ◌∷◌, ◌++◌, length, drop, arith, ◌==◌, ltb, leb, ne→not_==, Bool-cases,
}
use pureshade_os.Base.Names.{Name, same_name}
use pureshade_os.Shade.Names.{without_suffix, onto_first_line, split_lines, ended_lines, lines}
use pureshade_os.Shade.Record.{
  ValidRecord, digits, to_string, db_record_version, cdf_hash_key, deriver_key, name_key,
  registered_key, text_lines, entry, serialize, split_once, set_registered, set_field, in_front,
  parse_lines, parse_versioned, parse,
}
use pureshade_os.Shade.Record.Decimal.{parse_number-to_string}

-- A text without line feed and carriage return.
unfoldable pub OneLine : Name → Type 0
OneLine [] = Unit
OneLine (c ∷ cs) = (c ≢ 10) × (c ≢ 13) × OneLine cs

drop-OneLine : (n : ℕ) (l : Name) → OneLine l → OneLine (drop n l)
unfolding OneLine
drop-OneLine zero l o = o
drop-OneLine (suc n) [] o = o
drop-OneLine (suc n) (c ∷ cs) o = drop-OneLine n cs o.2

not_carriage_return : (l : Name) → OneLine l → same_name l (13 ∷ []) ≡ false
unfolding OneLine same_name
not_carriage_return [] o = refl
not_carriage_return (c ∷ cs) o = rw (ne→not_== c 13 o.1) refl

and_false : (a b : Bool) → b ≡ false → (a && b) ≡ false
and_false false b e = refl
and_false true b e = e

whole : (l : Name) → OneLine l → without_suffix (13 ∷ []) l ≡ l
unfolding without_suffix
whole l o =
    rw
      (and_false (leb 1 (length l)) _
        (not_carriage_return (drop (length l - 1) l) (drop-OneLine (length l - 1) l o)))
      refl

split_line : (l : Name) (s : List ℕ) → OneLine l → split_lines (l ++ (10 ∷ s)) ≡ l ∷ split_lines s
unfolding OneLine split_lines onto_first_line
split_line [] s o = refl
split_line (c ∷ cs) s o = rw (ne→not_== c 10 o.0, split_line cs s o.2) refl

unfoldable pub OneLines : List Name → Type 0
OneLines [] = Unit
OneLines (l ∷ ls) = OneLine l × OneLines ls

unfoldable pieces : List Name → List Name
pieces [] = [] ∷ []
pieces (l ∷ ls) = l ∷ pieces ls

split_text : (ls : List Name) → OneLines ls → split_lines (text_lines ls) ≡ pieces ls
unfolding OneLines split_lines text_lines pieces
split_text [] o = refl
split_text (l ∷ ls) o = split_line l (text_lines ls) o.0 ∙ ap (λ t. l ∷ t) (split_text ls o.1)

ended_pieces : (ls : List Name) → OneLines ls → ended_lines (pieces ls) ≡ ls
unfolding OneLines ended_lines pieces
ended_pieces [] o = refl
ended_pieces (l ∷ []) o = rw (whole l o.0) refl
ended_pieces (l ∷ m ∷ ls) o = rw (whole l o.0, ended_pieces (m ∷ ls) o.1) refl

lines-text_lines : (ls : List Name) → OneLines ls → lines (text_lines ls) ≡ ls
unfolding lines
lines-text_lines ls o = ap ended_lines (split_text ls o) ∙ ended_pieces ls o

digits-OneLine : (fuel n : ℕ) (rest : List ℕ) → OneLine rest → OneLine (digits fuel n rest)
unfolding OneLine digits
digits-OneLine zero n rest o = o
digits-OneLine (suc fuel) n rest o = elim (Bool-cases (ltb n 10)) [
  | inl e ↦ rw e (λ h. omega arith, λ h. omega arith, o)
  | inr e ↦
      rw e (
        digits-OneLine fuel (n / 10) ((48 + n % 10) ∷ rest) (λ h. omega arith, λ h. omega arith, o))
]

entry-OneLine : (k v : Name) → OneLine k → OneLine v → OneLine (entry k v)
unfolding OneLine
entry-OneLine [] v a b = (λ h. omega arith, λ h. omega arith, b)
entry-OneLine (c ∷ k) v a b = (a.0, a.1, entry-OneLine k v a.2 b)

unfoldable plain : Name → Bool
plain [] = true
plain (c ∷ cs) = (not (c == 10) && not (c == 13)) && plain cs

plain-OneLine : (k : Name) → plain k ≡ true → OneLine k
unfolding OneLine plain
plain-OneLine [] h = tt
plain-OneLine (c ∷ cs) h = (ground arith, ground arith, plain-OneLine cs (ground arith))

-- The fields that the text holds.
unfoldable pub FieldsOneLine : ValidRecord → Type 0
FieldsOneLine r = OneLine r.cdf_hash × OneLine r.deriver × OneLine r.name

record_lines :
    (r : ValidRecord)
    → FieldsOneLine r
    → lines (serialize r) ≡ (
        db_record_version
        ∷ entry cdf_hash_key r.cdf_hash
        ∷ entry deriver_key r.deriver
        ∷ entry name_key r.name
        ∷ entry registered_key (to_string r.registered)
        ∷ [])
unfolding serialize FieldsOneLine OneLines plain OneLine
record_lines r f = lines-text_lines _ (
  plain-OneLine db_record_version refl,
  (
    entry-OneLine cdf_hash_key _ (plain-OneLine cdf_hash_key refl) f.0,
    (
      entry-OneLine deriver_key _ (plain-OneLine deriver_key refl) f.1,
      (
        entry-OneLine name_key _ (plain-OneLine name_key refl) f.2,
        (
          entry-OneLine registered_key _ (plain-OneLine registered_key refl)
              (digits-OneLine 20 r.registered [] tt),
          tt,
        ),
      ),
    ),
  ),
)

-- The text of a record whose fields are single lines is read back as the record without its references.
pub parse-serialize :
    (r : ValidRecord)
    → FieldsOneLine r
    → r.registered < 2 ^ 64
    → parse r.digest (serialize r) ≡ some (record r { refs = [] })
unfolding parse parse_versioned parse_lines set_field set_registered split_once in_front same_name
parse-serialize r f l =
    ap (parse_versioned r.digest) (record_lines r f)
    ∙ ap (λ n. parse_lines [] (set_registered (record r { refs = []; registered = 0 }) n))
        (parse_number-to_string r.registered l)
