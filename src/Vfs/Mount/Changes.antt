-- ===== src/Vfs/Mount/Changes.antt =====
-- Mounting and unmounting: what they change, when they are refused, and that they are inverse.
use pureshade_os.Base.{
  ℕ, ◌+◌, ◌%◌, ◌^◌, ◌<◌, ◌≡◌, true, arith, not_==→ne, ◌==◌, ==_iff, refl, ap, sym, ◌≢◌, inl, inr,
  false, none, some, List, [], ◌∷◌, ◌++◌, Option-cases, Bool-cases, ◌∙◌, subst,
}
use pureshade_os.Base.Result.{Result, ok, err}
use pureshade_os.Base.Names.{Name}
use pureshade_os.Vfs.Paths.{components}
use pureshade_os.Vfs.Store.{FsBackend, BackendId, BackendStore, get, contains, insert}
use pureshade_os.Vfs.Store.Laws.{get-insert_self, get-insert_ne, contains_cong}
use pureshade_os.Vfs.Mount.{
  MountError, MountTable, any_at, unmount, check_point, installed, mount_at, mount,
}
use pureshade_os.Vfs.Mount.Check.{
  Checked, IsDirectory, SameIds, check_point_lem, err_ne_ok_id, ok_inj, remove_at-append,
}

module _ {B : Type 0} ⦃fs : FsBackend B⦄ where
  -- What a successful mount of `b` has done, from the table and the store before it.
  abbrev pub Mounted :
      MountTable → BackendStore B → List Name → B → BackendId → MountTable → BackendStore B → Type 0
  Mounted ms s comps b id ms' s' =
      (id ≡ s.next_id)
      × (s'.next_id ≡ (s.next_id + 1) % 2 ^ 64)
      × (ms' ≡ ms ++ record { at_point = comps; backend_id = id } ∷ [])
      × (get s' id ≡ some b)
      × ((j : BackendId) → id ≢ j → contains s' j ≡ contains s j)

  MountOutcome :
      MountTable
      → BackendStore B
      → List Name
      → B
      → MountTable × BackendStore B × Result MountError BackendId
      → Type 0
  MountOutcome ms s comps b r =
      ((id : BackendId) → r.2 ≡ ok id → IsDirectory ms s comps × Mounted ms s comps b id r.0 r.1)
      × ((e : MountError) → r.2 ≡ err e → (r.0 ≡ ms) × SameIds r.1 s)

  fresh-Mounted :
      (ms : MountTable) (s s1 : BackendStore B) (comps : List Name) (b : B)
      → SameIds s1 s
      → Mounted ms s comps b s1.next_id
          (ms ++ record { at_point = comps; backend_id = s1.next_id } ∷ [])
          (insert s1 b).0
  unfolding insert
  fresh-Mounted ms s s1 comps b (n, h) = (
    n,
    ap (λ i. (i + 1) % 2 ^ 64) n,
    refl,
    get-insert_self s1 b,
    λ j d. contains_cong (insert s1 b).0 s1 j (get-insert_ne s1 b j d) ∙ h j,
  )

  installed_lem :
      (ms : MountTable) (s : BackendStore B) (comps : List Name) (b : B)
      (r : BackendStore B × Result MountError (Unit {0}))
      → Checked ms s comps r
      → MountOutcome ms s comps b (installed ms comps b r)
  unfolding installed MountOutcome insert
  installed_lem ms s comps b (s1, err e) h =
      (λ id q. absurd (err_ne_ok_id e id q), λ e' q. (refl, h.0))
  installed_lem ms s comps b (s1, ok u) h = (
    λ id q. (
      h.1 u refl,
      subst
          (λ i.
            Mounted ms s comps b i (ms ++ record { at_point = comps; backend_id = s1.next_id } ∷ [])
              (insert s1 b).0)
          (ok_inj s1.next_id id q) (fresh-Mounted ms s s1 comps b h.0),
    ),
    λ e' q. absurd (err_ne_ok_id e' s1.next_id (sym q)),
  )

  mount_at_lem :
      (ms : MountTable) (s : BackendStore B) (comps : List Name) (b : B)
      → MountOutcome ms s comps b (mount_at ms comps b s)
        × ((id : BackendId) → (mount_at ms comps b s).2 ≡ ok id → any_at ms comps ≡ false)
  unfolding mount_at MountOutcome
  mount_at_lem ms s comps b = elim (Bool-cases (any_at ms comps)) [
    | inl e ↦ rw e (
      (
        λ id q. absurd (err_ne_ok_id MountError.already_mounted id q),
        λ e' q. (refl, (refl, λ j. refl)),
      ),
      λ id q. absurd (err_ne_ok_id MountError.already_mounted id q),
    )
    | inr e ↦ rw e (
      installed_lem ms s comps b (check_point ms s comps) (check_point_lem ms s comps),
      λ id q. refl,
    )
  ]

  mount-some :
      (ms : MountTable) (path : List ℕ) (b : B) (s : BackendStore B) (comps : List Name)
      → components path ≡ some comps
      → mount ms path b s ≡ mount_at ms comps b s
  unfolding mount
  mount-some ms path b s comps e = rw (mount, e) refl

  mount-none :
      (ms : MountTable) (path : List ℕ) (b : B) (s : BackendStore B)
      → components path ≡ none
      → mount ms path b s ≡ (ms, s, err MountError.invalid)
  unfolding mount
  mount-none ms path b s e = rw (mount, e) refl

  -- What a mount that succeeds was asked for, and what it has done.
  pub mount_installs :
      (ms : MountTable) (path : List ℕ) (b : B) (s : BackendStore B) (id : BackendId)
      → (mount ms path b s).2 ≡ ok id
      → (comps : List Name) × (components path ≡ some comps)
        × (any_at ms comps ≡ false)
        × IsDirectory ms s comps
        × Mounted ms s comps b id (mount ms path b s).0 (mount ms path b s).1
  unfolding MountOutcome
  mount_installs ms path b s id q = elim (Option-cases (components path)) [
    | inl e ↦
        absurd
          (err_ne_ok_id MountError.invalid id (sym (ap (λ r. r.2) (mount-none ms path b s e)) ∙ q))
    | inr (comps, e) ↦
        let m = mount-some ms path b s comps e in
        let p = sym (ap (λ r. r.2) m) ∙ q in
        let l = mount_at_lem ms s comps b in
        let o = l.0.0 id p in rw m (comps, e, l.1 id p, o.0, o.1)
  ]

  -- A mount that fails leaves the table as it was, uses up no id, and leaves the same ids live.
  pub mount_err :
      (ms : MountTable) (path : List ℕ) (b : B) (s : BackendStore B) (e : MountError)
      → (mount ms path b s).2 ≡ err e
      → ((mount ms path b s).0 ≡ ms) × SameIds (mount ms path b s).1 s
  unfolding MountOutcome
  mount_err ms path b s e q = elim (Option-cases (components path)) [
    | inl f ↦ rw (mount-none ms path b s f) (refl, (refl, λ j. refl))
    | inr (comps, f) ↦
        let m = mount-some ms path b s comps f in
        rw m ((mount_at_lem ms s comps b).0.1 e (sym (ap (λ r. r.2) m) ∙ q))
  ]

  -- Unmounting what was just mounted gives back the table from before, and the id of the mount.
  pub unmount-mount :
      (ms : MountTable) (path : List ℕ) (b : B) (s : BackendStore B) (id : BackendId)
      → (mount ms path b s).2 ≡ ok id
      → unmount (mount ms path b s).0 path ≡ ok (ms, id)
  unfolding unmount
  unmount-mount ms path b s id q =
      let (comps, e, free, dir, (i, n, t, found_new, others)) = mount_installs ms path b s id q in
      rw (e, t) (remove_at-append ms comps id free)

  -- Every id that is live was given before the next one.
  abbrev pub IssuedBelow : BackendStore B → Type 0
  IssuedBelow s = (j : BackendId) → contains s j ≡ true → j < s.next_id

  -- In a store whose live ids all lie below the next one, which does not reach 2^64 yet, a mount that
  -- succeeds was asked for at an absolute path where nothing was mounted, and which is the root or a
  -- directory of the backend that covers it. The new route is the last one of the table, under an id
  -- above every live one. The backend is in the store under that id, which other ids are live has not
  -- changed, and all lie below the next id, which is one higher.
  pub mount_ok :
      (ms : MountTable) (path : List ℕ) (b : B) (s : BackendStore B) (id : BackendId)
      → IssuedBelow s
      → s.next_id + 1 < 2 ^ 64
      → (mount ms path b s).2 ≡ ok id
      → ((comps : List Name) × (components path ≡ some comps)
          × (any_at ms comps ≡ false)
          × IsDirectory ms s comps
          × Mounted ms s comps b id (mount ms path b s).0 (mount ms path b s).1)
        × ((j : BackendId) → contains s j ≡ true → j < id)
        × ((mount ms path b s).1.next_id ≡ s.next_id + 1)
        × IssuedBelow (mount ms path b s).1
  mount_ok ms path b s id below room q =
      let m = mount_installs ms path b s id q in
      let (comps, e, free, dir, (i, n, t, at, others)) = m in
      let next : (mount ms path b s).1.next_id ≡ s.next_id + 1 = omega (arith, n, room) in
      (
        m,
        λ j h. omega (arith, i, below j h),
        next,
        λ j h. elim (Bool-cases (id == j)) [
          | inl o ↦ omega (arith, next, i, (==_iff id j).0 o)
          | inr o ↦ omega (arith, next, below j (sym (others j (not_==→ne id j o)) ∙ h))
        ],
      )
