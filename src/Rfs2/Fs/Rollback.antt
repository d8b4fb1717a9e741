-- ===== src/Rfs2/Fs/Rollback.antt =====
-- The rollback of a failed operation forgets that a block of an earlier one is in use again.
use pureshade_os.Base.{
  ℕ, ◌/◌, ◌<◌, ◌≡◌, ◌≢◌, refl, inl, inr, true, false, [], ◌∷◌, length, length-set, ◌==◌, ==_refl,
  ==_iff, not_==→ne, Bool-cases, subst, sym, ap, ◌∙◌,
}
use pureshade_os.Rfs2.Layout.{BlockPtr, is_null}
use pureshade_os.Rfs2.Space.{Bitmap, get, set_bit, clear}
use pureshade_os.Rfs2.Space.Laws.{get-set_bit, get-clear}
use pureshade_os.Rfs2.Fs.{
  Blocks, contains, Rfs2, retire, begin_op, fail_op, clear_all, set_kept, live_new,
}

-- The blocks have a bit in a bitmap of that many words.
abbrev pub InWords : ℕ → Blocks → Type 0
InWords n [] = Unit {0}
InWords n (c ∷ cs) = (c / 64 < n) × InWords n cs

length-set_bit : (bm : Bitmap) (c : ℕ) → length (set_bit bm c).0.words ≡ length bm.words
unfolding set_bit
length-set_bit bm c = length-set bm.words (c / 64) _

length-clear : (bm : Bitmap) (c : ℕ) → length (clear bm c).words ≡ length bm.words
unfolding clear
length-clear bm c = length-set bm.words (c / 64) _

clear_all-get :
    (cs : Blocks) (bm : Bitmap) (b : ℕ)
    → InWords (length bm.words) cs
    → get bm b ≡ false
    → get (clear_all cs bm) b ≡ false
unfolding clear_all
clear_all-get [] bm b w g = g
clear_all-get (c ∷ cs) bm b w g =
    let g' : get (clear bm c) b ≡ false = elim (Bool-cases (c == b)) [
      | inl e ↦ subst (λ k. get (clear bm c) k ≡ false) ((==_iff c b).0 e) (get-clear bm c w.0).0
      | inr e ↦ (get-clear bm c w.0).1 b (not_==→ne c b e) ∙ g
    ] in
    clear_all-get cs (clear bm c) b (subst (λ n. InWords n cs) (sym (length-clear bm c)) w.1) g'

length-clear_all : (cs : Blocks) (bm : Bitmap) → length (clear_all cs bm).words ≡ length bm.words
unfolding clear_all
length-clear_all [] bm = refl
length-clear_all (c ∷ cs) bm = length-clear_all cs (clear bm c) ∙ length-clear bm c

set_kept-get :
    (dropped cs : Blocks) (bm : Bitmap) (b : ℕ)
    → InWords (length bm.words) cs
    → contains dropped b ≡ true
    → get bm b ≡ false
    → get (set_kept dropped cs bm) b ≡ false
unfolding set_kept
set_kept-get dropped [] bm b w d g = g
set_kept-get dropped (c ∷ cs) bm b w d g = elim (Bool-cases (contains dropped c)) [
  | inl e ↦ rw e (set_kept-get dropped cs bm b w.1 d g)
  | inr e ↦ rw e (
      set_kept-get dropped cs (set_bit bm c).0 b
        (subst (λ n. InWords n cs) (sym (length-set_bit bm c)) w.1) d
        ((get-set_bit bm c w.0).1 b (λ q. false_ne_true (sym e ∙ ap (contains dropped) q ∙ d)) ∙ g))
]
  where
    false_ne_true : false ≢ true
    false_ne_true h = cc

retire-fresh :
    {D : Type 0} (fs : Rfs2 D) (p : BlockPtr)
    → is_null p ≡ false
    → contains fs.fresh p.block ≡ true
    → retire fs p ≡ record fs { dropped_fresh = p.block ∷ fs.dropped_fresh }
unfolding retire
retire-fresh fs p n f = rw (n, f) refl

-- Where the staged root is a fresh block that is not in the current tree, and the superseded and the
-- fresh blocks have their bits in the bitmap: an operation that supersedes the root and then fails is
-- rolled back to a state whose root is that block again, but the next live set does not have the
-- block.
pub live_new-fail_op :
    {D : Type 0} (fs : Rfs2 D)
    → is_null fs.staged_root ≡ false
    → contains fs.fresh fs.staged_root.block ≡ true
    → get fs.live_cur fs.staged_root.block ≡ false
    → InWords (length fs.live_cur.words) fs.retired
    → InWords (length fs.live_cur.words) fs.fresh
    → let op = begin_op fs in
      let after = fail_op (retire op.0 fs.staged_root) op.1 in
      (after.staged_root ≡ fs.staged_root) × (get (live_new after) fs.staged_root.block ≡ false)
unfolding live_new begin_op fail_op
live_new-fail_op fs n f g r w =
    let op = begin_op fs in
    let b = fs.staged_root.block in
    let dropped : contains (b ∷ fs.dropped_fresh) b ≡ true = rw (==_refl b) refl in
    let cleared = clear_all-get fs.retired fs.live_cur b r g in
    let kept =
      set_kept-get (b ∷ fs.dropped_fresh) fs.fresh (clear_all fs.retired fs.live_cur) b
        (subst (λ k. InWords k fs.fresh) (sym (length-clear_all fs.retired fs.live_cur)) w) dropped
        cleared in
    subst
      (λ s.
        ((fail_op s op.1).staged_root ≡ fs.staged_root)
        × (get (live_new (fail_op s op.1)) b ≡ false))
      (sym (retire-fresh op.0 fs.staged_root n f)) (refl, kept)
