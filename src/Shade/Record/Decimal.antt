-- ===== src/Shade/Record/Decimal.antt =====
-- A number survives its decimal digits (pkg/shade-store-db/src/lib.rs).
use pureshade_os.Base.{
  ℕ, zero, suc, ◌+◌, ◌-◌, ◌*◌, ◌/◌, ◌%◌, ◌^◌, ◌≤◌, ◌<◌, ◌≡◌, refl, ap, sym, ◌∙◌, inl, inr, false,
  some, List, [], ◌∷◌, arith, ltb, ltb→lt, lt→ltb, le→leb, ne→not_==, Bool-cases,
}
use native.Mathlib.Nat.{pow-suc}
use pureshade_os.Shade.Record.{digits, to_string, parse_digits, parse_number}

parse_digit :
    (c v w : ℕ) (cs : List ℕ)
    → 48 ≤ c
    → c ≤ 57
    → v * 10 + (c - 48) ≡ w
    → w < 2 ^ 64
    → parse_digits (c ∷ cs) v ≡ parse_digits cs w
unfolding parse_digits
parse_digit c v w cs a b e l = rw (le→leb 48 c a, le→leb c 57 b, e, lt→ltb w (2 ^ 64) l) refl

digits-parse :
    (fuel n : ℕ) (rest : List ℕ)
    → n < 10 ^ fuel
    → n < 2 ^ 64
    → 0 < fuel
    → parse_digits (digits fuel n rest) 0 ≡ parse_digits rest n
unfolding digits
digits-parse zero n rest l m f = absurd (omega arith)
digits-parse (suc fuel) n rest l m f = elim (Bool-cases (ltb n 10)) [
  | inl e ↦
      rw e
        (parse_digit (48 + n) 0 n rest (omega arith) (omega (arith, ltb→lt n 10 e)) (omega arith) m)
  | inr e ↦
      let big : 10 ≤ n = not_ltb n e in
      rw e (
        digits-parse fuel (n / 10) ((48 + n % 10) ∷ rest) (omega (arith, pow-suc 10 fuel))
          (omega arith) (fuel_left fuel n l big)
        ∙ parse_digit (48 + n % 10) (n / 10) n rest (omega arith) (omega arith) (omega arith) m)
]
  where
    not_ltb : (n : ℕ) → ltb n 10 ≡ false → 10 ≤ n
    not_ltb n e = ground arith

    fuel_left : (fuel n : ℕ) → n < 10 ^ suc fuel → 10 ≤ n → 0 < fuel
    fuel_left zero n l b = absurd (omega arith)
    fuel_left (suc fuel) n l b = omega arith

-- The first digit is no sign.
digits_start :
    (fuel n : ℕ) (rest : List ℕ)
    → 0 < fuel
    → n < 10 ^ fuel
    → (c : ℕ) × (cs : List ℕ) × (digits fuel n rest ≡ c ∷ cs) × (48 ≤ c)
unfolding digits
digits_start zero n rest f l = absurd (omega arith)
digits_start (suc zero) n rest f l =
    rw (lt→ltb n 10 (omega arith)) (48 + n, rest, refl, omega arith)
digits_start (suc (suc fuel)) n rest f l = elim (Bool-cases (ltb n 10)) [
  | inl e ↦ rw e (48 + n, rest, refl, omega arith)
  | inr e ↦ rw e (
      digits_start (suc fuel) (n / 10) ((48 + n % 10) ∷ rest) (omega arith)
        (omega (arith, pow-suc 10 (suc fuel))))
]

signless : (c : ℕ) (cs : List ℕ) → 48 ≤ c → parse_number (c ∷ cs) ≡ parse_digits (c ∷ cs) 0
unfolding parse_number
signless c [] l = refl
signless c (d ∷ cs) l = rw (ne→not_== c b'+' (λ e. omega (arith, e, l))) refl

pub parse_number-to_string : (n : ℕ) → n < 2 ^ 64 → parse_number (to_string n) ≡ some n
unfolding parse_digits
parse_number-to_string n l =
    let s = digits_start 20 n [] (omega arith) (omega arith) in
    ap parse_number s.2
    ∙ signless s.0 s.1 s.3
    ∙ ap (λ t. parse_digits t 0) (sym s.2)
    ∙ digits-parse 20 n [] (omega arith) l (omega arith)
