-- ===== src/Rfs2/Map/Fresh.antt =====
-- A block that is written anew disturbs nothing that is taken.
use pureshade_os.Base.{
  ℕ, ◌<◌, ◌≡◌, ◌≢◌, refl, ap, sym, ◌∙◌, subst, Bool, true, false, ◌||◌, List, ◌∷◌, arith, ◌==◌,
  ne→not_==, ==_refl, if◌then◌else◌,
}
use pureshade_os.Base.Result.{Result, ok, err, ◌>>=◌}
use pureshade_os.Rfs2.Layout.{Error, BlockPtr, is_null}
use pureshade_os.Rfs2.Layout.Valid.{Fits, Array, PtrFits}
use pureshade_os.Rfs2.Device.{BlockDevice}
use pureshade_os.Rfs2.Transform.{BlockTransform, dyn_aad}
use pureshade_os.Rfs2.Transform.Laws.{IsLawful}
use pureshade_os.Rfs2.Space.{get}
use pureshade_os.Rfs2.Fs.{
  Rfs2, contains, is_taken, block_span, txn_gen, alloc_block, retire, write_fresh, seal_and_write,
  written_fresh,
}
use pureshade_os.Rfs2.Fs.Alloc.{InRegion, AllocOutcome, alloc_block_lem}
use pureshade_os.Rfs2.Map.{read_ptr}

-- What a device promises about reads: a write that succeeds is read back, and any write leaves the
-- other blocks.
pub record ReadsBack {D : Type 0} (device : BlockDevice D) : Type 0 where
  pub write_here :
      (d : D) (b : ℕ) (buf : List ℕ)
      → (device.write_block d b buf).1 ≡ ok tt
      → device.read_block (device.write_block d b buf).0 b ≡ ok buf
  pub write_elsewhere :
      (d : D) (b c : ℕ) (buf : List ℕ)
      → c ≢ b
      → device.read_block (device.write_block d b buf).0 c ≡ device.read_block d c

-- The cursor lies within the region, and block numbers and the generation fit their fields.
pub record Ready {D : Type 0} (fs : Rfs2 D) : Type 0 where
  pub cursor : fs.alloc_cursor < block_span fs
  pub total : Fits 8 fs.header.total_blocks
  pub gen : Fits 8 (txn_gen fs)

module _ {D : Type 0} (device : BlockDevice D) (x : BlockTransform) where
  -- What is staged in memory is the same, and what was taken is still taken and reads as before.
  pub record Extends (fs after : Rfs2 D) : Type 0 where
    pub ready : Ready after
    pub root : after.staged_root ≡ fs.staged_root
    pub height : after.staged_height ≡ fs.staged_height
    pub taken : (b : ℕ) → is_taken fs b ≡ true → is_taken after b ≡ true
    pub reads :
        (b : ℕ) → is_taken fs b ≡ true → device.read_block after.dev b ≡ device.read_block fs.dev b

  pub Extends-refl : (fs : Rfs2 D) → Ready fs → Extends fs fs
  Extends-refl fs r = record {
    ready = r;
    root = refl;
    height = refl;
    taken = λ b t. t;
    reads = λ b t. refl;
  }

  pub Extends-trans : (a b c : Rfs2 D) → Extends a b → Extends b c → Extends a c
  Extends-trans a b c f g = record {
    ready = g.ready;
    root = g.root ∙ f.root;
    height = g.height ∙ f.height;
    taken = λ k t. g.taken k (f.taken k t);
    reads = λ k t. g.reads k (f.taken k t) ∙ f.reads k t;
  }

  pub read_ptr-Extends :
      (fs after : Rfs2 D) (p : BlockPtr)
      → Extends fs after
      → is_taken fs p.block ≡ true
      → read_ptr device x after.dev p ≡ read_ptr device x fs.dev p
  unfolding read_ptr
  read_ptr-Extends fs after p f t =
      ap (λ r. r >>= λ buf. x.decrypt_block p.block p.gen (dyn_aad p.block p.gen) p.tag buf)
        (f.reads p.block t)

  -- A block is given up only in the lists of the pending generation.
  pub Extends-retire : (fs : Rfs2 D) (p : BlockPtr) → Ready fs → Extends fs (retire fs p)
  unfolding retire is_taken
  Extends-retire fs p r = by_case (is_null p) (contains fs.fresh p.block)
    where
      by_case :
          (null here : Bool)
          → Extends fs (
              if null
              then fs
              else if here
              then record fs { dropped_fresh = p.block ∷ fs.dropped_fresh }
              else record fs { retired = p.block ∷ fs.retired })
      by_case true here = Extends-refl fs r
      by_case false true = record {
        ready = record { cursor = r.cursor; total = r.total; gen = r.gen };
        root = refl;
        height = refl;
        taken = λ b t. t;
        reads = λ b t. refl;
      }
      by_case false false = record {
        ready = record { cursor = r.cursor; total = r.total; gen = r.gen };
        root = refl;
        height = refl;
        taken = λ b t. t;
        reads = λ b t. refl;
      }

  -- What `write_fresh` answers and leaves: with an error nothing that is taken has changed; else also
  -- a pointer that reads back what was written, from a block that was free.
  abbrev pub FreshOutcome : Rfs2 D → List ℕ → Rfs2 D × Result Error BlockPtr → Type 0
  FreshOutcome fs buf (after, err e) = Extends fs after
  FreshOutcome fs buf (after, ok p) =
      Extends fs after
      × (is_null p ≡ false)
      × PtrFits p
      × (is_taken after p.block ≡ true)
      × (read_ptr device x after.dev p ≡ ok buf)

  module _ (law : ReadsBack device) (lawful : IsLawful x) where
    Extends-write :
        (fs : Rfs2 D) (b : ℕ) (data' fresh op_fresh : List ℕ) (cursor : ℕ) (dirty : Bool)
        → Ready fs
        → is_taken fs b ≡ false
        → fresh ≡ b ∷ fs.fresh
        → cursor < block_span fs
        → Extends fs (record fs {
          fresh = fresh;
          op_fresh = op_fresh;
          alloc_cursor = cursor;
          dev = (device.write_block fs.dev b data').0;
          dirty = dirty;
        })
    unfolding is_taken
    Extends-write fs b data' fresh op_fresh cursor dirty r f e c = record {
      ready = record { cursor = c; total = r.total; gen = r.gen };
      root = refl;
      height = refl;
      taken = λ k t.
          subst (λ s. (get fs.live_cur k || get fs.live_prev k || contains s k) ≡ true) (sym e)
            (or_more (get fs.live_cur k) (get fs.live_prev k) (b == k) (contains fs.fresh k) t);
      reads = λ k t. law.write_elsewhere fs.dev b k data' (differ k t);
    }
      where
        or_more : (p q r s : Bool) → (p || q || s) ≡ true → (p || q || (r || s)) ≡ true
        or_more p q r s h = ground arith

        false_ne_true : false ≢ true
        false_ne_true h = cc

        differ : (k : ℕ) → is_taken fs k ≡ true → k ≢ b
        differ k t q = false_ne_true (sym f ∙ ap (λ j. is_taken fs j) (sym q) ∙ t)

    written_fresh_lem :
        (fs after : Rfs2 D) (b g : ℕ) (tag buf : List ℕ) (r : D × Result Error (Unit {0}))
        → ((dirty : Bool) → Extends fs (record after { dev = r.0; dirty = dirty }))
        → InRegion fs b
        → Ready fs
        → Fits 8 g
        → Array 16 tag
        → is_taken after b ≡ true
        → (r.1 ≡ ok tt → read_ptr device x r.0 (record { block = b; gen = g; tag = tag }) ≡ ok buf)
        → FreshOutcome fs buf (written_fresh device x after b g tag r)
    unfolding written_fresh is_taken
    written_fresh_lem fs after b g tag buf (dev, err e) f i r gf l t back = f after.dirty
    written_fresh_lem fs after b g tag buf (dev, ok done) f i r gf l t back = (
      f true,
      ne→not_== b 0 (λ q. omega (arith, i.0, q)),
      record { block = omega (arith, i.1, r.total); gen = gf; tag = l },
      t,
      back refl,
    )

    taken_here : (fs : Rfs2 D) (b : ℕ) (rest : List ℕ) → fs.fresh ≡ b ∷ rest → is_taken fs b ≡ true
    unfolding is_taken
    taken_here fs b rest e =
        let h : contains (b ∷ rest) b ≡ true = rw (==_refl b) refl in
        last_true (get fs.live_cur b || get fs.live_prev b) (contains fs.fresh b)
          (ap (λ s. contains s b) e ∙ h)
      where
        last_true : (p q : Bool) → q ≡ true → (p || q) ≡ true
        last_true p q h = ground arith

    opened :
        (d : D) (b g : ℕ) (buf : List ℕ)
        → let sealed = x.encrypt_block b g (dyn_aad b g) buf in
          (device.write_block d b sealed.1).1 ≡ ok tt
          → read_ptr device x
              (device.write_block d b sealed.1).0
              (record { block = b; gen = g; tag = sealed.0 })
            ≡ ok buf
    unfolding read_ptr
    opened d b g buf done =
        let sealed = x.encrypt_block b g (dyn_aad b g) buf in
        ap (λ r. r >>= λ bs. x.decrypt_block b g (dyn_aad b g) sealed.0 bs)
          (law.write_here d b sealed.1 done)
        ∙ lawful.opens b g (dyn_aad b g) buf

    sealed_lem :
        (fs : Rfs2 D) (buf : List ℕ) (r : Rfs2 D × Result Error ℕ)
        → Ready fs
        → AllocOutcome fs r
        → FreshOutcome fs buf (seal_and_write device x buf r)
    unfolding seal_and_write
    sealed_lem fs buf (after, err e) r a = subst (λ f. Extends fs f) (sym a.1) (Extends-refl fs r)
    sealed_lem fs buf (after, ok b) r a =
        let g = txn_gen after in
        let sealed = x.encrypt_block b g (dyn_aad b g) buf in
        written_fresh_lem fs after b g sealed.0 buf (device.write_block after.dev b sealed.1)
          (λ dirty.
            subst
              (λ f.
                Extends fs
                  (record f { dev = (device.write_block f.dev b sealed.1).0; dirty = dirty }))
              (sym a.4)
              (Extends-write fs b sealed.1 after.fresh after.op_fresh after.alloc_cursor dirty r a.1
                a.2 a.3))
          a.0 r (subst (λ k. Fits 8 k) (ap (λ f. txn_gen f) (sym a.4)) r.gen)
          (lawful.tag_length b g (dyn_aad b g) buf) (taken_here after b fs.fresh a.2)
          (λ done. opened after.dev b g buf done)

    pub write_fresh_lem :
        (fs : Rfs2 D) (buf : List ℕ) → Ready fs → FreshOutcome fs buf (write_fresh device x fs buf)
    unfolding write_fresh
    write_fresh_lem fs buf r = sealed_lem fs buf (alloc_block fs) r (alloc_block_lem fs r.cursor)
