-- ===== src/Vfs/Mount/Check.antt =====
-- What the check of a mount point by `mount` comes to, and what `unmount` finds.
use pureshade_os.Base.{
  ◌≡◌, refl, sym, ◌≢◌, ◌⊎◌, inl, inr, Bool, true, false, Option, none, some, List, [], ◌∷◌, ◌++◌,
  ◌||◌, arith, Bool-cases, ◌∙◌, subst, ==_iff, ◌==◌, not_==→ne,
}
use pureshade_os.Base.Result.{Result, ok, err, ensure}
use pureshade_os.Base.Names.{Name, same_names, same_names_refl}
use pureshade_os.Vfs.Store.{
  FsError, InodeMeta, FsBackend, BackendId, BackendStore, get, contains, put_back,
}
use pureshade_os.Vfs.Store.Laws.{get-put_back, get-put_back_ne, contains-get, contains_cong}
use pureshade_os.Vfs.Mount.{
  MountError, Mount, MountTable, any_at, covering_mount, left_behind, remove_at, validation, asked,
  check_cover, check_point,
}
use pureshade_os.Base.Result.{Result, ok, err, ensure}
use pureshade_os.Base.Names.{Name, same_names, same_names_refl}
use pureshade_os.Vfs.Store.{
  FsError, InodeMeta, FsBackend, BackendId, BackendStore, get, contains, put_back,
}
use pureshade_os.Vfs.Store.Laws.{get-put_back, get-put_back_ne, contains-get, contains_cong}
use pureshade_os.Vfs.Mount.{
  MountError, Mount, MountTable, any_at, covering_mount, left_behind, remove_at, validation, asked,
  check_cover, check_point,
}

found : (a b : Bool) → a ≡ true → (a || b) ≢ false
found a b e h = ground arith

passed : (a b : Bool) → (a || b) ≡ false → b ≡ false
passed a b h = ground arith

is_dir_ok : (b : Bool) (u : Unit {0}) → ensure b MountError.not_dir ≡ ok u → b ≡ true
is_dir_ok true u h = refl
is_dir_ok false u h = cc

validation_err : (e : FsError) (u : Unit {0}) → validation (err e) ≢ ok u
unfolding validation
validation_err e u h = ground arith

err_ne_ok :
    (u : Unit {0}) → ◌≢◌ {A = Result MountError (Unit {0})} (err MountError.no_such_path) (ok u)
err_ne_ok u h = cc

pub err_ne_ok_id :
    (e : MountError) (id : BackendId) → ◌≢◌ {A = Result MountError BackendId} (err e) (ok id)
err_ne_ok_id e id h = cc

pub ok_inj : (i j : BackendId) → ◌≡◌ {A = Result MountError BackendId} (ok i) (ok j) → i ≡ j
ok_inj i j h = cc

pub remove_at-append :
    (ms : MountTable) (comps : List Name) (id : BackendId)
    → any_at ms comps ≡ false
    → remove_at (ms ++ record { at_point = comps; backend_id = id } ∷ []) comps ≡ ok (ms, id)
unfolding remove_at any_at
remove_at-append [] comps id h = rw (same_names_refl comps) refl
remove_at-append (m ∷ ms) comps id h = elim (Bool-cases (same_names m.at_point comps)) [
  | inl e ↦ absurd (found (same_names m.at_point comps) (any_at ms comps) e h)
  | inr e ↦
      rw
        (e, remove_at-append ms comps id (passed (same_names m.at_point comps) (any_at ms comps) h))
        refl
]

validation_ok :
    (r : Result FsError InodeMeta) (u : Unit {0})
    → validation r ≡ ok u
    → (meta : InodeMeta) × (r ≡ ok meta) × (meta.is_dir ≡ true)
unfolding validation
validation_ok (ok meta) u h = (meta, refl, is_dir_ok meta.is_dir u h)
validation_ok (err e) u h = absurd (validation_err e u h)

module _ {B : Type 0} ⦃fs : FsBackend B⦄ where
  -- The mount point is the root, or the backend that covers it says that it is a directory.
  abbrev pub IsDirectory : MountTable → BackendStore B → List Name → Type 0
  IsDirectory ms s comps =
      (comps ≡ [])
      ⊎ ((m : Mount) × (b : B) × (meta : InodeMeta) × (covering_mount ms comps ≡ some m)
          × (get s m.backend_id ≡ some b)
          × ((fs.stat b (left_behind m comps)).1 ≡ ok meta)
          × (meta.is_dir ≡ true))

  -- The two stores hold backends under the same ids, and will give the same id next.
  abbrev pub SameIds : BackendStore B → BackendStore B → Type 0
  SameIds s t = (s.next_id ≡ t.next_id) × ((j : BackendId) → contains s j ≡ contains t j)

  next_put : (s : BackendStore B) (id : BackendId) (c : B) → (put_back s id c).next_id ≡ s.next_id
  unfolding put_back
  next_put s id c = refl

  put_back-SameIds :
      (s : BackendStore B) (id : BackendId) (b c : B)
      → get s id ≡ some b
      → SameIds (put_back s id c) s
  put_back-SameIds s id b c e = (
    next_put s id c,
    λ j. elim (Bool-cases (id == j)) [
      | inl q ↦
          subst (λ k. contains (put_back s id c) k ≡ contains s k) ((==_iff id j).0 q)
            (contains-get (put_back s id c) id c (get-put_back s id c)
              ∙ sym (contains-get s id b e))
      | inr q ↦ contains_cong (put_back s id c) s j (get-put_back_ne s id j c (not_==→ne id j q))
    ],
  )

  -- What a check of the mount point comes to: the ids stay, and success means a directory.
  abbrev pub Checked :
      MountTable
      → BackendStore B
      → List Name
      → BackendStore B × Result MountError (Unit {0})
      → Type 0
  Checked ms s comps r = SameIds r.0 s × ((u : Unit {0}) → r.1 ≡ ok u → IsDirectory ms s comps)

  asked_lem :
      (ms : MountTable) (s : BackendStore B) (m : Mount) (comps : List Name) (o : Option B)
      → covering_mount ms comps ≡ some m
      → get s m.backend_id ≡ o
      → Checked ms s comps (asked s m comps o)
  unfolding asked
  asked_lem ms s m comps none e f = ((refl, λ j. refl), λ u h. absurd (err_ne_ok u h))
  asked_lem ms s m comps (some b) e f = (
    put_back-SameIds s m.backend_id b (fs.stat b (left_behind m comps)).0 f,
    λ u h.
        let v = validation_ok (fs.stat b (left_behind m comps)).1 u h in
        inr (m, b, v.0, e, f, v.1, v.2),
  )

  check_cover_lem :
      (ms : MountTable) (s : BackendStore B) (comps : List Name) (o : Option Mount)
      → covering_mount ms comps ≡ o
      → Checked ms s comps (check_cover s comps o)
  unfolding check_cover
  check_cover_lem ms s comps none e = ((refl, λ j. refl), λ u h. absurd (err_ne_ok u h))
  check_cover_lem ms s comps (some m) e = asked_lem ms s m comps (get s m.backend_id) e refl

  pub check_point_lem :
      (ms : MountTable) (s : BackendStore B) (comps : List Name)
      → Checked ms s comps (check_point ms s comps)
  unfolding check_point
  check_point_lem ms s [] = ((refl, λ j. refl), λ u e. inl refl)
  check_point_lem ms s (c ∷ cs) = check_cover_lem ms s (c ∷ cs) (covering_mount ms (c ∷ cs)) refl
