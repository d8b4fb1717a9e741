-- ===== src/Shade/Names/Scan.antt =====
-- The reference scan finds exactly the digests behind the prefix (pkg/shade-store-db/src/lib.rs).
use pureshade_os.Base.{
  ℕ, zero, suc, ◌+◌, ◌≤◌, ◌≡◌, refl, ap, ◌∙◌, subst, ◌⊎◌, ◌↔◌, inl, inr, Bool, true, false, ◌&&◌,
  List, [], ◌∷◌, arith, length, take, drop, length-take, length-drop, ltb, ltb→lt, ◌==◌, Bool-cases,
  min,
}
use pureshade_os.Base.Bytes.{span}
use pureshade_os.Base.Names.{Name, same_name, same_name_iff}
use pureshade_os.Shade.Names.{NameSet, contains, all_base32, scan_from, scan_bytes}
use pureshade_os.Shade.Names.Contains.{contains-cons, contains-here, contains-there}
use pureshade_os.Shade.Names.Places.{Occurs, IsScanPrefix, apart}

module _ (prefix : List ℕ) (v : IsScanPrefix prefix) where
  and_left : (a b : Bool) → (a && b) ≡ true → a ≡ true
  and_left a b h = ground arith

  and_right : (a b : Bool) → (a && b) ≡ true → b ≡ true
  and_right a b h = ground arith

  -- What a scan has found, and what was in the set before.
  abbrev pub Found : List ℕ → ℕ → NameSet → Name → Type 0
  Found buf skip set d = (contains set d ≡ true) ⊎ ((i : ℕ) × (skip ≤ i) × Occurs prefix buf i d)

  -- The test of a place is that a digest stands there behind the prefix.
  Occurs-here :
      (buf : List ℕ)
      → length prefix + 32 ≤ length buf
      → (same_name (take (length prefix) buf) prefix && all_base32 (span buf (length prefix) 32))
        ≡ true
      → Occurs prefix buf 0 (span buf (length prefix) 32)
  Occurs-here buf l h =
      let same = and_left (same_name (take (length prefix) buf) prefix) _ h in
      (
        (same_name_iff (take (length prefix) buf) prefix).0 same,
        refl,
        length-take 32 (drop (length prefix) buf)
            ∙ full (length (drop (length prefix) buf))
                (omega (arith, length-drop (length prefix) buf)),
        and_right (same_name (take (length prefix) buf) prefix) _ h,
      )
    where
      full : (n : ℕ) → 32 ≤ n → min 32 n ≡ 32
      full n l = omega arith

  -- There is room for the digest.
  room :
      (buf : List ℕ) (i : ℕ) (d : Name)
      → Occurs prefix buf i d
      → i + length prefix + 32 ≤ length buf
  room buf i d o =
      let n = length-take 32 (drop (length prefix) (drop i buf)) in
      let m = length-drop (length prefix) (drop i buf) in
      omega (arith, n, m, length-drop i buf, ap (λ e. length e) o.1, o.2, v.long)

  not_here :
      (buf : List ℕ) (d : Name)
      → (ltb (length buf) (length prefix + 32) ≡ true)
        ⊎ ((same_name (take (length prefix) buf) prefix && all_base32 (span buf (length prefix) 32))
            ≡ false)
      → Occurs prefix buf 0 d
      → ⊥
  not_here buf d (inl h) o =
      omega (arith, ltb→lt (length buf) (length prefix + 32) h, room buf 0 d o)
  not_here buf d (inr h) o =
      both (same_name (take (length prefix) buf) prefix) (all_base32 (span buf (length prefix) 32))
        ((same_name_iff (take (length prefix) buf) prefix).1 o.0) (ap all_base32 o.1 ∙ o.3) h
    where
      both : (a b : Bool) → a ≡ true → b ≡ true → (a && b) ≡ false → ⊥
      both a b x y z = ground arith

  scan_hit :
      (c : ℕ) (cs : List ℕ) (set : NameSet) (d : Name)
      → length prefix + 32 ≤ length (c ∷ cs)
      → (same_name (take (length prefix) (c ∷ cs)) prefix
          && all_base32 (span (c ∷ cs) (length prefix) 32))
        ≡ true
      → (let after =
            scan_from prefix (length prefix + 31) cs (span (c ∷ cs) (length prefix) 32 ∷ set) in
          (contains after d ≡ true)
          ↔ Found cs (length prefix + 31) (span (c ∷ cs) (length prefix) 32 ∷ set) d)
      → let after =
          scan_from prefix (length prefix + 31) cs (span (c ∷ cs) (length prefix) 32 ∷ set) in
        (contains after d ≡ true) ↔ Found (c ∷ cs) zero set d
  scan_hit c cs set d l e r =
      let candidate = span (c ∷ cs) (length prefix) 32 in
      let here = Occurs-here (c ∷ cs) l e in
      (
        λ h. elim (r.0 h) [
          | inl t ↦ elim (contains-cons candidate d set t) [
            | inl q ↦ inr (zero, omega arith, subst (λ k. Occurs prefix (c ∷ cs) zero k) q here)
            | inr t ↦ inl t
          ]
          | inr (i, m, o) ↦ inr (suc i, omega arith, o)
        ],
        λ f. elim f [
          | inl t ↦ r.1 (inl (contains-there candidate d set t))
          | inr (zero, m, o) ↦ r.1 (
              inl (
                subst (λ k. contains (candidate ∷ set) k ≡ true) o.1 (contains-here candidate set)))
          | inr (suc i, m, o) ↦ r.1 (inr (i, apart prefix v (c ∷ cs) candidate d i here o, o))
        ],
      )

  scan_miss :
      (c : ℕ) (cs : List ℕ) (set : NameSet) (d : Name)
      → (same_name (take (length prefix) (c ∷ cs)) prefix
          && all_base32 (span (c ∷ cs) (length prefix) 32))
        ≡ false
      → ((contains (scan_from prefix zero cs set) d ≡ true) ↔ Found cs zero set d)
      → (contains (scan_from prefix zero cs set) d ≡ true) ↔ Found (c ∷ cs) zero set d
  scan_miss c cs set d e r = (
    λ h. elim (r.0 h) [ inl t ↦ inl t | inr (i, m, o) ↦ inr (suc i, omega arith, o) ],
    λ f. elim f [
      | inl t ↦ r.1 (inl t)
      | inr (zero, m, o) ↦ absurd (not_here (c ∷ cs) d (inr e) o)
      | inr (suc i, m, o) ↦ r.1 (inr (i, omega arith, o))
    ],
  )

  scan_from_lem :
      (skip : ℕ) (buf : List ℕ) (set : NameSet) (d : Name)
      → (contains (scan_from prefix skip buf set) d ≡ true) ↔ Found buf skip set d
  unfolding scan_from
  scan_from_lem skip [] set d = (
    λ h. inl h,
    λ f. elim f [ inl e ↦ e | inr (i, l, o) ↦ absurd (omega (arith, room [] i d o)) ],
  )
  scan_from_lem (suc skip) (c ∷ cs) set d =
      let r = scan_from_lem skip cs set d in
      (
        λ h. elim (r.0 h) [ inl e ↦ inl e | inr (i, l, o) ↦ inr (suc i, omega arith, o) ],
        λ f. elim f [
          | inl e ↦ r.1 (inl e)
          | inr (zero, l, o) ↦ absurd (omega arith)
          | inr (suc i, l, o) ↦ r.1 (inr (i, omega arith, o))
        ],
      )
  scan_from_lem zero (c ∷ cs) set d =
      elim (Bool-cases (ltb (length (c ∷ cs)) (length prefix + 32))) [
        | inl t ↦ rw t (
          λ h. inl h,
          λ f. elim f [
            | inl e ↦ e
            | inr (i, l, o) ↦ absurd (
                omega (arith, ltb→lt (length (c ∷ cs)) (length prefix + 32) t, room (c ∷ cs) i d o))
          ],
        )
        | inr t ↦
            elim (Bool-cases (
              same_name (take (length prefix) (c ∷ cs)) prefix
              && all_base32 (span (c ∷ cs) (length prefix) 32))) [
                | inl e ↦
                    rw (t, e)
                      (scan_hit c cs set d (not_ltb t) e (
                        scan_from_lem (length prefix + 31) cs
                          (span (c ∷ cs) (length prefix) 32 ∷ set) d))
                | inr e ↦ rw (t, e) (scan_miss c cs set d e (scan_from_lem zero cs set d))
              ]
      ]
    where
      not_ltb :
          ltb (length (c ∷ cs)) (length prefix + 32) ≡ false → length prefix + 32 ≤ length (c ∷ cs)
      not_ltb t = ground arith

  -- For a prefix that starts and ends with a slash and is not longer than 33 bytes: the scan of a
  -- buffer adds to the set exactly the digests that stand in it somewhere behind the prefix, although
  -- it goes on behind each that it finds.
  pub scan_bytes_lem :
      (buf : List ℕ) (set : NameSet) (d : Name)
      → (contains (scan_bytes prefix buf set) d ≡ true)
        ↔ ((contains set d ≡ true) ⊎ ((i : ℕ) × Occurs prefix buf i d))
  unfolding scan_bytes
  scan_bytes_lem buf set d =
      let r = scan_from_lem zero buf set d in
      let some_prefix : (length prefix == 0) ≡ false = ground (arith, v.long) in
      rw some_prefix (
        λ h. elim (r.0 h) [ inl e ↦ inl e | inr (i, l, o) ↦ inr (i, o) ],
        λ f. elim f [ inl e ↦ r.1 (inl e) | inr (i, o) ↦ r.1 (inr (i, omega arith, o)) ],
      )
