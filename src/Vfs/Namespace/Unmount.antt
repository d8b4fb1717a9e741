-- ===== src/Vfs/Namespace/Unmount.antt =====
-- What `unmount` of kernel/src/vfs.rs takes away: one route, and the backend with its last route.
use pureshade_os.Base.{
  ℕ, ◌≡◌, refl, sym, ◌∙◌, ◌≢◌, inl, inr, true, none, List, [], ◌∷◌, Bool-cases, subst, ==_refl,
}
use pureshade_os.Base.Result.{Result, ok, err, err_ne_ok}
use pureshade_os.Base.Names.{same_name_refl}
use pureshade_os.Vfs.Paths.{slash}
use pureshade_os.Vfs.Store.{BackendId, get, find_entry}
use pureshade_os.Vfs.Store.Laws.{get-remove_self, get-remove_ne, find-without_self, find-without_ne}
use pureshade_os.Vfs.Mount.{MountError}
use pureshade_os.Vfs.Mount.Covering.{true_ne_false}
use pureshade_os.Vfs.Namespace.{
  NsId, Namespaces, any_route, unmount_in, Vfs, free_unrouted, unmounted, kernel_unmount, Errno,
  is_pinned, resolve_in, errno_mount,
}
use pureshade_os.Vfs.Namespace.Taken.{
  Routed, Memᴰ-routes_to, routes_to-Memᴰ, Routed-any_route, any_route-Routed, Unrouted,
  unmount_in_lem,
}

pinned_root : (root : BackendId) → is_pinned root (ok (root, slash ∷ [])) ≡ true
unfolding is_pinned
pinned_root root = rw (==_refl root, same_name_refl (slash ∷ [])) refl

module _ {B : Type 0} where
  -- A backend and its guard are there as before while some namespace has a mount of it, else gone;
  -- all others are as before.
  abbrev pub FreedUnrouted : Vfs B → BackendId → Vfs B → Type 0
  FreedUnrouted v gone w =
      ((id : BackendId)
        → gone ≢ id
        → (get w.backends id ≡ get v.backends id)
          × (find_entry w.guards id ≡ find_entry v.guards id))
      × (Routed w.namespaces gone
          → (get w.backends gone ≡ get v.backends gone)
            × (find_entry w.guards gone ≡ find_entry v.guards gone))
      × (¬ (Routed w.namespaces gone)
          → (get w.backends gone ≡ none) × (find_entry w.guards gone ≡ none))

  free_unrouted_lem :
      (v : Vfs B) (n : Namespaces) (gone : BackendId)
      → ((free_unrouted v n gone).namespaces ≡ n) × FreedUnrouted v gone (free_unrouted v n gone)
  unfolding free_unrouted
  free_unrouted_lem v n gone = elim (Bool-cases (any_route n.entries gone)) [
    | inl e ↦
        let (f, at, r) = any_route-Routed n.entries gone e in
        let (m, in_table, i) = routes_to-Memᴰ f.1.table gone r in
        rw e (
          refl,
          (
            λ id d. (refl, refl),
            λ r. (refl, refl),
            λ not_routed. absurd (not_routed (f, m, at, in_table, i)),
          ),
        )
    | inr e ↦ rw e (
      refl,
      (
        λ id d. (get-remove_ne v.backends gone id d, find-without_ne v.guards gone id d),
        λ r. absurd (
            true_ne_false (
              sym (
                Routed-any_route n.entries r.0 gone r.2
                  (Memᴰ-routes_to r.0.1.table r.1 gone r.3 r.4))
              ∙ e)),
        λ r. (get-remove_self v.backends gone, find-without_self v.guards gone),
      ),
    )
  ]

  abbrev pub UnmountOutcome : Vfs B → NsId → List ℕ → Vfs B × Result Errno (Unit {0}) → Type 0
  UnmountOutcome v ns path r =
      ((u : Unit {0})
        → r.1 ≡ ok u
        → (gone : BackendId) × Unrouted v.namespaces ns path r.0.namespaces gone
          × FreedUnrouted v gone r.0)
      × ((e : Errno) → r.1 ≡ err e → r.0 ≡ v)

  unmounted_lem :
      (v : Vfs B) (ns : NsId) (path : List ℕ) (o : Result MountError (Namespaces × BackendId))
      → unmount_in v.namespaces ns path ≡ o
      → UnmountOutcome v ns path (unmounted v o)
  unfolding unmounted
  unmounted_lem v ns path (err x) q = (λ u h. absurd (err_ne_ok (errno_mount x) u h), λ e h. refl)
  unmounted_lem v ns path (ok (n, gone)) q =
      let f = free_unrouted_lem v n gone in
      (
        λ u h. (
          gone,
          subst (λ w. Unrouted v.namespaces ns path w gone) (sym f.0)
              (unmount_in_lem v.namespaces n ns path gone q),
          f.1,
        ),
        λ e h. absurd (err_ne_ok e tt (sym h)),
      )

  -- An unmount of a path that resolves to the root of the root backend is refused as invalid and
  -- changes nothing. One that succeeds takes the first mount at the path out of the table of the
  -- namespace, and nothing out of the other tables. The backend of that mount and its guard are gone
  -- where no namespace has a mount of it any more, and stay where one has; every other backend and
  -- guard stays. An unmount that fails changes nothing.
  pub kernel_unmount_lem :
      (v : Vfs B) (ns : NsId) (path : List ℕ)
      → (resolve_in v.namespaces ns path ≡ ok (v.root_id, slash ∷ [])
          → kernel_unmount v ns path ≡ (v, err Errno.einval))
        × UnmountOutcome v ns path (kernel_unmount v ns path)
  unfolding kernel_unmount
  kernel_unmount_lem v ns path = (
    λ e. rw (e, pinned_root v.root_id) refl,
    elim (Bool-cases (is_pinned v.root_id (resolve_in v.namespaces ns path))) [
      | inl e ↦ rw e (λ u h. absurd (err_ne_ok Errno.einval u h), λ x h. refl)
      | inr e ↦ rw e (unmounted_lem v ns path (unmount_in v.namespaces ns path) refl)
    ],
  )
