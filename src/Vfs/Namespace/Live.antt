-- ===== src/Vfs/Namespace/Live.antt =====
-- No route dangles: every backend that a namespace routes to is in the store.
use pureshade_os.Base.{
  ℕ, ◌≡◌, refl, ap, sym, ◌∙◌, ◌⊎◌, inl, inr, true, Option, none, some, List, ◌==◌, Bool-cases,
  subst, ==_iff, not_==→ne,
}
use pureshade_os.Base.Result.{Result, ok, err, Result-cases}
use pureshade_os.Vfs.Store.{FsBackend, BackendId, BackendStore, contains, get, remove}
use pureshade_os.Vfs.Store.Laws.{contains-get, contains_cong, get-remove_ne}
use pureshade_os.Vfs.Mount.{MountError, MountTable, routes_to, mount}
use pureshade_os.Vfs.Mount.Covering.{true_ne_false}
use pureshade_os.Vfs.Mount.Changes.{mount_installs, mount_err}
use pureshade_os.Vfs.Namespace.{
  NsId, Namespaces, find_ns, any_routes_to, unmount_in, mount_table, mount_in, Vfs, free_unrouted,
  unmounted, kernel_unmount, is_pinned, resolve_in,
}
use pureshade_os.Vfs.Namespace.Routes.{
  RoutesLive, any_route-find, any_route-with_table, any_routes_to-unmount_in, routes_to-append,
}

module _ {B : Type 0} ⦃fs : FsBackend B⦄ where
  -- What was live before a mount is live after it, and so is the id it gives.
  mount-live :
      (ms : MountTable) (path : List ℕ) (b : B) (s : BackendStore B) (id : BackendId)
      → contains s id ≡ true
      → contains (mount ms path b s).1 id ≡ true
  mount-live ms path b s id h = elim (Result-cases (mount ms path b s).2) [
    | inl (new, e) ↦
        let (comps, c, free, dir, (i, n, t, at, rest)) = mount_installs ms path b s new e in
        elim (Bool-cases (new == id)) [
          | inl q ↦
              contains-get (mount ms path b s).1 id b
                (subst (λ k. get (mount ms path b s).1 k ≡ some b) ((==_iff new id).0 q) at)
          | inr q ↦ rest id (not_==→ne new id q) ∙ h
        ]
    | inr (x, e) ↦ (mount_err ms path b s x e).1.1 id ∙ h
  ]

  routes_to-mount :
      (ms : MountTable) (path : List ℕ) (b : B) (s : BackendStore B) (id : BackendId)
      → routes_to (mount ms path b s).0 id ≡ true
      → (routes_to ms id ≡ true) ⊎ (contains (mount ms path b s).1 id ≡ true)
  routes_to-mount ms path b s id h = elim (Result-cases (mount ms path b s).2) [
    | inl (new, e) ↦
        let (comps, c, free, dir, (i, n, t, at, rest)) = mount_installs ms path b s new e in
        elim (routes_to-append ms comps new id (sym (ap (λ r. routes_to r id) t) ∙ h)) [
          | inl old ↦ inl old
          | inr same ↦ inr (
              contains-get (mount ms path b s).1 id b
                (subst (λ k. get (mount ms path b s).1 k ≡ some b) same at))
        ]
    | inr (x, e) ↦ inl (sym (ap (λ r. routes_to r id) (mount_err ms path b s x e).0) ∙ h)
  ]

  mount_table-RoutesLive :
      (v : Namespaces) (ns : NsId) (path : List ℕ) (b : B) (s : BackendStore B)
      (o : Option MountTable)
      → find_ns v.entries ns ≡ o
      → RoutesLive v s
      → RoutesLive (mount_table v ns path b s o).0 (mount_table v ns path b s o).1
  unfolding mount_table
  mount_table-RoutesLive v ns path b s none e h = h
  mount_table-RoutesLive v ns path b s (some t) e h = λ id r.
      elim (any_route-with_table v.entries ns (mount t path b s).0 id r) [
        | inl q ↦ elim (routes_to-mount t path b s id q) [
          | inl old ↦ mount-live t path b s id (h id (any_route-find v.entries ns t id e old))
          | inr live ↦ live
        ]
        | inr old ↦ mount-live t path b s id (h id old)
      ]

  -- Where every route leads to a backend that is there, it does so after a mount in any namespace,
  -- refused or not.
  pub mount_in-RoutesLive :
      (v : Namespaces) (ns : NsId) (path : List ℕ) (b : B) (s : BackendStore B)
      → RoutesLive v s
      → RoutesLive (mount_in v ns path b s).0 (mount_in v ns path b s).1
  unfolding mount_in
  mount_in-RoutesLive v ns path b s h =
      mount_table-RoutesLive v ns path b s (find_ns v.entries ns) refl h

module _ {B : Type 0} where
  free_unrouted-RoutesLive :
      (v : Vfs B) (n : Namespaces) (id : BackendId)
      → RoutesLive n v.backends
      → RoutesLive (free_unrouted v n id).namespaces (free_unrouted v n id).backends
  unfolding free_unrouted
  free_unrouted-RoutesLive v n id h = elim (Bool-cases (any_routes_to n id)) [
    | inl e ↦ rw e h
    | inr e ↦ rw e (λ j r.
        contains_cong (remove v.backends id).0 v.backends j (
          get-remove_ne v.backends id j
            (λ q. true_ne_false (sym (subst (λ k. any_routes_to n k ≡ true) (sym q) r) ∙ e)))
        ∙ h j r)
  ]

  unmounted-RoutesLive :
      (v : Vfs B) (ns : NsId) (path : List ℕ) (o : Result MountError (Namespaces × BackendId))
      → unmount_in v.namespaces ns path ≡ o
      → RoutesLive v.namespaces v.backends
      → RoutesLive (unmounted v o).0.namespaces (unmounted v o).0.backends
  unfolding unmounted
  unmounted-RoutesLive v ns path (err x) q h = h
  unmounted-RoutesLive v ns path (ok (n, gone)) q h =
      free_unrouted-RoutesLive v n gone
        (λ j r. h j (any_routes_to-unmount_in v.namespaces n ns path gone j q r))

  -- Where every route leads to a backend that is there, it does so after an unmount, refused or not.
  pub kernel_unmount-RoutesLive :
      (v : Vfs B) (ns : NsId) (path : List ℕ)
      → RoutesLive v.namespaces v.backends
      → RoutesLive (kernel_unmount v ns path).0.namespaces (kernel_unmount v ns path).0.backends
  unfolding kernel_unmount
  kernel_unmount-RoutesLive v ns path h =
      elim (Bool-cases (is_pinned v.root_id (resolve_in v.namespaces ns path))) [
        | inl e ↦ rw e h
        | inr e ↦ rw e (unmounted-RoutesLive v ns path (unmount_in v.namespaces ns path) refl h)
      ]
