-- ===== src/Pmm/Contiguous.antt =====
-- What a contiguous allocation answers, and that the free count stays right.
use pureshade_os.Base.{
  ℕ, zero, suc, ◌+◌, ◌*◌, ◌≤◌, ◌<◌, ◌≡◌, refl, ap, ◌∙◌, ◌⊎◌, inl, inr, true, Option, none, some,
  arith,
}
use pureshade_os.Pmm.{
  max_frames, frame_size, Bitmap, set_used, is_used, mark_used, count_free, Pmm, scan, take_run,
  alloc_frames_contiguous,
}
use pureshade_os.Pmm.Bitmap.{is_used-set_used}
use pureshade_os.Pmm.Count.{count_free-set_used, count_free-le}
use pureshade_os.Pmm.Valid.{IsValid, Shaped, mark_used-Shaped, set_used-Shaped}
use pureshade_os.Pmm.Runs.{AllFree, SomeUsed, ScanOutcome, scan_lem}

-- After a free run has been marked.
abbrev pub Marked : Bitmap → ℕ → ℕ → Bitmap → Type 0
Marked bm i n after =
    ((k : ℕ) → k < n → is_used after (i + k) ≡ true)
    × ((g : ℕ) → (g < i) ⊎ (i + n ≤ g) → is_used after g ≡ is_used bm g)
    × (count_free after + n ≡ count_free bm)

mark_used_lem :
    (i n : ℕ) (bm : Bitmap)
    → Shaped bm
    → i + n ≤ max_frames
    → AllFree bm i n
    → Marked bm i n (mark_used i n bm)
unfolding mark_used
mark_used_lem i zero bm s l h = (λ k q. absurd (omega arith), λ g q. refl, omega arith)
mark_used_lem i (suc n) bm s l h =
    let here = is_used-set_used bm i (omega (arith, s.1)) in
    let first =
      count_free-set_used bm i (omega (arith, s.1))
        (ap (is_used bm) (omega arith) ∙ h 0 (omega arith)) in
    let (used, rest, count) =
      mark_used_lem (i + 1) n (set_used bm i) (set_used-Shaped bm i s) (omega arith) (λ k q.
        here.1 (i + 1 + k) (λ e. absurd (omega arith))
        ∙ ap (is_used bm) (omega arith)
        ∙ h (suc k) (omega arith)) in
    (
      λ k q. used_at k q used (rest i (inl (omega arith)) ∙ here.0),
      λ g q.
          rest g (elim q [ inl a ↦ inl (omega arith) | inr b ↦ inr (omega arith) ])
          ∙ here.1 g (λ e. elim q [ inl a ↦ absurd (omega arith) | inr b ↦ absurd (omega arith) ]),
      omega arith,
    )
  where
    used_at :
        (k : ℕ)
        → k < suc n
        → ((j : ℕ) → j < n → is_used (mark_used (i + 1) n (set_used bm i)) (i + 1 + j) ≡ true)
        → is_used (mark_used (i + 1) n (set_used bm i)) i ≡ true
        → is_used (mark_used (i + 1) n (set_used bm i)) (i + k) ≡ true
    used_at zero q f e = ap (is_used (mark_used (i + 1) n (set_used bm i))) (omega arith) ∙ e
    used_at (suc k) q f e =
        ap (is_used (mark_used (i + 1) n (set_used bm i))) (omega arith) ∙ f k (omega arith)

-- No run of `n` frames is free and nothing has changed, or the first such run is answered and
-- marked, and nothing else has changed.
abbrev pub RunOutcome : Pmm → ℕ → Pmm × Option ℕ → Type 0
RunOutcome p n r =
    ((r ≡ (p, none)) × ((s : ℕ) → s + n ≤ max_frames → SomeUsed p.bitmap s n))
    ⊎ ((t : ℕ) × (r.1 ≡ some (t * frame_size))
        × (t + n ≤ max_frames)
        × AllFree p.bitmap t n
        × ((s : ℕ) → s < t → SomeUsed p.bitmap s n)
        × Marked p.bitmap t n r.0.bitmap)

take_run_lem :
    (p : Pmm) (n : ℕ) (r : Option ℕ)
    → IsValid p
    → ScanOutcome p.bitmap n 0 r
    → RunOutcome p n (take_run p n r) × IsValid (take_run p n r).0
unfolding take_run
take_run_lem p n none v h = (inl (refl, λ s l. h s (omega arith) l), v)
take_run_lem p n (some t) v (a, b, free, first) =
    let s : Shaped p.bitmap = (v.words, v.sized) in
    let m = mark_used_lem t n p.bitmap s b free in
    let after = mark_used-Shaped t n p.bitmap s in
    (
      inr (t, refl, b, free, λ u l. first u (omega arith) l, m),
      record {
        words = after.0;
        sized = after.1;
        counted = omega (arith, m.2, v.counted, count_free-le p.bitmap, v.sized);
      },
    )

run_found :
    (fuel n : ℕ) (p : Pmm) (r : Option ℕ)
    → scan fuel p.bitmap (suc n) 0 ≡ some r
    → alloc_frames_contiguous fuel p (suc n) ≡ some (take_run p (suc n) r)
unfolding alloc_frames_contiguous
run_found fuel n p r e = rw (e, alloc_frames_contiguous) refl

-- With fuel above the number of frames, a request for at least one frame ends on every valid
-- state: it answers the first run of free frames that is long enough, marks exactly this run and
-- keeps the count right; or no run is long enough, and nothing has changed.
pub alloc_frames_contiguous_lem :
    (fuel n : ℕ) (p : Pmm)
    → max_frames < fuel
    → 0 < n
    → IsValid p
    → (r : Pmm × Option ℕ) × (alloc_frames_contiguous fuel p n ≡ some r)
      × RunOutcome p n r
      × IsValid r.0
alloc_frames_contiguous_lem fuel zero p l z v = absurd (omega arith)
alloc_frames_contiguous_lem fuel (suc n) p l z v =
    let (r, e, h) = scan_lem fuel p.bitmap (suc n) 0 (omega arith) (omega arith) in
    let t = take_run_lem p (suc n) r v h in (take_run p (suc n) r, run_found fuel n p r e, t.0, t.1)
