-- ===== src/Base/Writes.antt =====
-- A buffer that is filled by a list of writes at fixed places, and what is read from it afterwards.
use pureshade_os.Base.{
  ℕ, ◌+◌, ◌^◌, ◌≤◌, ◌<◌, ◌≡◌, refl, ap, sym, ◌∙◌, ◌⊎◌, inl, inr, Bool, true, false, ◌&&◌, ◌||◌,
  Option, none, some, List, [], ◌∷◌, arith, length, take, leb, leb→le, ◌==◌, ==_iff, ==_refl,
  if◌then◌else◌, Bool-cases, subst,
}
use pureshade_os.Base.Bytes.{
  overlay, span, length-overlay, span-overlay_self, span-overlay_before, drop-overlay_after,
}
use pureshade_os.Base.Little.{le, of_le, of_le-le_bytes, length-le_bytes}

-- `buf[off .. off + size].copy_from_slice(content)`.
pub record Write : Type 0 where
  pub off : ℕ
  pub size : ℕ
  pub content : List ℕ

abbrev pub bytes_at : ℕ → ℕ → List ℕ → Write
bytes_at off size content = record { off = off; size = size; content = content }

-- `wr_u64(&mut buf[off..], v)` and its like, of `n` bytes.
abbrev pub le_at : ℕ → ℕ → ℕ → Write
le_at n off v = bytes_at off n (le n v)

abbrev pub written : List Write → List ℕ → List ℕ
written [] buf = buf
written (w ∷ ws) buf = written ws (overlay buf w.off w.content)

abbrev pub Sized : ℕ → List Write → Type 0
Sized m [] = Unit {0}
Sized m (w ∷ ws) = (length w.content ≡ w.size) × (w.off + w.size ≤ m) × Sized m ws

-- The same as a test.
abbrev pub well_sized : ℕ → List Write → Bool
well_sized m [] = true
well_sized m (w ∷ ws) = length w.content == w.size && leb (w.off + w.size) m && well_sized m ws

-- No write touches the span.
abbrev pub clear : List Write → ℕ → ℕ → Bool
clear [] off n = true
clear (w ∷ ws) off n = (leb (w.off + w.size) off || leb (off + n) w.off) && clear ws off n

-- What the last write to exactly this span has left there.
abbrev pub found : List Write → ℕ → ℕ → Option (List ℕ)
found [] off n = none
found (w ∷ ws) off n =
    if w.off == off && w.size == n && clear ws off n then some w.content else found ws off n

or_true : (a b : Bool) → (a || b) ≡ true → (a ≡ true) ⊎ (b ≡ true)
or_true a b h = ground arith

and_true : (a b : Bool) → (a && b) ≡ true → (a ≡ true) × (b ≡ true)
and_true a b h = ground arith

pub well_sized→Sized : (m : ℕ) (ws : List Write) → well_sized m ws ≡ true → Sized m ws
well_sized→Sized m [] h = tt
well_sized→Sized m (w ∷ ws) h =
    let a = parts (length w.content == w.size) (leb (w.off + w.size) m) (well_sized m ws) h in
    (
      (==_iff (length w.content) w.size).0 a.0,
      leb→le (w.off + w.size) m a.1,
      well_sized→Sized m ws a.2,
    )
  where
    parts : (a b c : Bool) → (a && b && c) ≡ true → (a ≡ true) × (b ≡ true) × (c ≡ true)
    parts a b c q = ground arith

span-overlay_apart :
    (w : Write) (buf : List ℕ) (off n : ℕ)
    → length w.content ≡ w.size
    → (leb (w.off + w.size) off || leb (off + n) w.off) ≡ true
    → span (overlay buf w.off w.content) off n ≡ span buf off n
span-overlay_apart w buf off n s h =
    elim (or_true (leb (w.off + w.size) off) (leb (off + n) w.off) h) [
      | inl e ↦ ap (take n) (
          drop-overlay_after buf w.off off w.content (omega (arith, leb→le (w.off + w.size) off e)))
      | inr e ↦ span-overlay_before buf w.off off n w.content (leb→le (off + n) w.off e)
    ]

pub span-written-clear :
    (ws : List Write) (buf : List ℕ) (off n : ℕ)
    → Sized (length buf) ws
    → clear ws off n ≡ true
    → span (written ws buf) off n ≡ span buf off n
span-written-clear [] buf off n s h = refl
span-written-clear (w ∷ ws) buf off n s h =
    let c = and_true (leb (w.off + w.size) off || leb (off + n) w.off) (clear ws off n) h in
    span-written-clear ws (overlay buf w.off w.content) off n
      (subst (λ m. Sized m ws) (sym (length-overlay buf w.off w.content)) s.2) c.1
    ∙ span-overlay_apart w buf off n s.0 c.0

pub length-written : (ws : List Write) (buf : List ℕ) → length (written ws buf) ≡ length buf
length-written [] buf = refl
length-written (w ∷ ws) buf =
    length-written ws (overlay buf w.off w.content) ∙ length-overlay buf w.off w.content

span-written_here :
    (w : Write) (ws : List Write) (buf : List ℕ) (off n : ℕ)
    → Sized (length buf) (w ∷ ws)
    → (w.off == off && w.size == n && clear ws off n) ≡ true
    → span (written (w ∷ ws) buf) off n ≡ w.content
span-written_here w ws buf off n s h =
    let a =
      and_true (w.off == off) (w.size == n && clear ws off n)
        (regroup (w.off == off) (w.size == n) (clear ws off n) h) in
    let b = and_true (w.size == n) (clear ws off n) a.1 in
    let e : w.off ≡ off = (==_iff w.off off).0 a.0 in
    let f : w.size ≡ n = (==_iff w.size n).0 b.0 in
    span-written-clear ws (overlay buf w.off w.content) off n
      (subst (λ m. Sized m ws) (sym (length-overlay buf w.off w.content)) s.2) b.1
    ∙ subst (λ k. span (overlay buf w.off w.content) k n ≡ w.content) e
        (span-overlay_self buf w.off n w.content (omega (arith, s.0, s.1)) (sym f ∙ sym s.0))
  where
    regroup : (a b c : Bool) → (a && b && c) ≡ true → (a && (b && c)) ≡ true
    regroup a b c q = ground arith

pub span-found :
    (ws : List Write) (buf : List ℕ) (off n : ℕ) (bs : List ℕ)
    → Sized (length buf) ws
    → found ws off n ≡ some bs
    → span (written ws buf) off n ≡ bs
span-found [] buf off n bs s h = cc
span-found (w ∷ ws) buf off n bs s h =
    elim (Bool-cases (w.off == off && w.size == n && clear ws off n)) [
      | inl e ↦ span-written_here w ws buf off n s e ∙ content_of e h
      | inr e ↦
          span-found ws (overlay buf w.off w.content) off n bs
            (subst (λ m. Sized m ws) (sym (length-overlay buf w.off w.content)) s.2) (skipped e h)
    ]
  where
    content_of :
        (w.off == off && w.size == n && clear ws off n) ≡ true
        → found (w ∷ ws) off n ≡ some bs
        → w.content ≡ bs
    content_of e h = ground arith

    skipped :
        (w.off == off && w.size == n && clear ws off n) ≡ false
        → found (w ∷ ws) off n ≡ some bs
        → found ws off n ≡ some bs
    skipped e h = ground arith

-- A number that was written is read back.
pub of_le-found :
    (ws : List Write) (buf : List ℕ) (off n v : ℕ)
    → Sized (length buf) ws
    → found ws off n ≡ some (le n v)
    → v < 256 ^ n
    → of_le (span (written ws buf) off n) ≡ v
of_le-found ws buf off n v s h l =
    ap of_le (span-found ws buf off n (le n v) s h) ∙ of_le-le_bytes n v l

-- All writes stay within the bounds.
abbrev pub Bounded : ℕ → ℕ → List Write → Type 0
Bounded lo hi [] = Unit {0}
Bounded lo hi (w ∷ ws) = (lo ≤ w.off) × (w.off + length w.content ≤ hi) × Bounded lo hi ws

pub span-written_apart :
    (ws : List Write) (buf : List ℕ) (lo hi off n : ℕ)
    → Bounded lo hi ws
    → (off + n ≤ lo) ⊎ (hi ≤ off)
    → span (written ws buf) off n ≡ span buf off n
span-written_apart [] buf lo hi off n h a = refl
span-written_apart (w ∷ ws) buf lo hi off n h (inl a) =
    span-written_apart ws (overlay buf w.off w.content) lo hi off n h.2 (inl a)
    ∙ span-overlay_before buf w.off off n w.content (omega (arith, h.0))
span-written_apart (w ∷ ws) buf lo hi off n h (inr a) =
    span-written_apart ws (overlay buf w.off w.content) lo hi off n h.2 (inr a)
    ∙ ap (take n) (drop-overlay_after buf w.off off w.content (omega (arith, h.1)))

pub of_le-le_at :
    (n off v : ℕ) (buf : List ℕ)
    → off + n ≤ length buf
    → v < 256 ^ n
    → of_le (span (written (le_at n off v ∷ []) buf) off n) ≡ v
of_le-le_at n off v buf h l =
    of_le-found (le_at n off v ∷ []) buf off n v (length-le_bytes n v, h, tt)
      (rw (==_refl off, ==_refl n) refl) l
