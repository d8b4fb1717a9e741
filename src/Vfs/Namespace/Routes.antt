-- ===== src/Vfs/Namespace/Routes.antt =====
-- Where a route of the namespaces comes from after a table has changed.
use pureshade_os.Base.{
  ℕ, ◌≡◌, refl, ap, sym, ◌∙◌, ◌≢◌, ◌⊎◌, inl, inr, Bool, true, false, some, List, [], ◌∷◌, ◌++◌,
  ◌==◌, ◌||◌, arith, Bool-cases, subst,
}
use pureshade_os.Base.Result.{Result, ok, err, Result-cases, bind_ok, ok_or, ok_or_ok, ok_inj}
use pureshade_os.Base.Names.{Name, same_names}
use pureshade_os.Vfs.Store.{BackendId, BackendStore, contains}
use pureshade_os.Vfs.Paths.{components}
use pureshade_os.Vfs.Mount.{MountError, Mount, MountTable, routes_to, remove_at, unmount}
use pureshade_os.Vfs.Namespace.{
  NsId, Namespace, Namespaces, find_ns, with_table, put_table, any_route, any_routes_to, unmount_in,
  unmount_table,
}
use pureshade_os.Base.Result.{Result, ok, err, Result-cases, bind_ok, ok_or, ok_or_ok, ok_inj}
use pureshade_os.Base.Names.{Name, same_names}
use pureshade_os.Vfs.Store.{BackendId, BackendStore, contains}
use pureshade_os.Vfs.Paths.{components}
use pureshade_os.Vfs.Mount.{MountError, Mount, MountTable, routes_to, remove_at, unmount}
use pureshade_os.Vfs.Namespace.{
  NsId, Namespace, Namespaces, find_ns, with_table, put_table, any_route, any_routes_to, unmount_in,
  unmount_table,
}

abbrev pub RoutesLive : {B : Type 0} → Namespaces → BackendStore B → Type 0
RoutesLive v s = (id : BackendId) → any_routes_to v id ≡ true → contains s id ≡ true

or_true : (a b : Bool) → (a || b) ≡ true → (a ≡ true) ⊎ (b ≡ true)
or_true a b h = ground arith

true_or : (a b : Bool) → (a ≡ true) ⊎ (b ≡ true) → (a || b) ≡ true
true_or a b h = ground arith

-- A route of a table is a route of the namespaces that have it.
pub any_route-find :
    (es : List (NsId × Namespace)) (ns : NsId) (t : MountTable) (id : BackendId)
    → find_ns es ns ≡ some t
    → routes_to t id ≡ true
    → any_route es id ≡ true
unfolding find_ns any_route
any_route-find [] ns t id e h = cc
any_route-find ((i, n) ∷ es) ns t id e h = ground (arith, any_route-find es ns t id)

-- After a change of one table, a route is one of the new table or an old one.
pub any_route-with_table :
    (es : List (NsId × Namespace)) (ns : NsId) (t : MountTable) (id : BackendId)
    → any_route (with_table es ns t) id ≡ true
    → (routes_to t id ≡ true) ⊎ (any_route es id ≡ true)
unfolding with_table any_route
any_route-with_table [] ns t id h = cc
any_route-with_table ((i, n) ∷ es) ns t id h = ground (arith, any_route-with_table es ns t id)

pub routes_to-append :
    (ms : MountTable) (comps : List Name) (new id : BackendId)
    → routes_to (ms ++ record { at_point = comps; backend_id = new } ∷ []) id ≡ true
    → (routes_to ms id ≡ true) ⊎ (new ≡ id)
unfolding routes_to
routes_to-append [] comps new id h = ground arith
routes_to-append (m ∷ ms) comps new id h = ground (arith, routes_to-append ms comps new id)

pub remove_here :
    (m : Mount) (ms : MountTable) (comps : List Name)
    → same_names m.at_point comps ≡ true
    → remove_at (m ∷ ms) comps ≡ ok (ms, m.backend_id)
unfolding remove_at
remove_here m ms comps q = rw q refl

pub remove_later :
    (m : Mount) (ms t : MountTable) (comps : List Name) (g : BackendId)
    → same_names m.at_point comps ≡ false
    → remove_at ms comps ≡ ok (t, g)
    → remove_at (m ∷ ms) comps ≡ ok (m ∷ t, g)
unfolding remove_at
remove_later m ms t comps g q f = rw (q, f) refl

pub remove_nothing :
    (m : Mount) (ms : MountTable) (comps : List Name) (x : MountError)
    → same_names m.at_point comps ≡ false
    → remove_at ms comps ≡ err x
    → remove_at (m ∷ ms) comps ≡ err x
unfolding remove_at
remove_nothing m ms comps x q f = rw (q, f) refl

abbrev pub Removed : Type 0
Removed = Result MountError (MountTable × BackendId)

removed_table :
    (a b : MountTable) (x y : BackendId) → ◌≡◌ {A = Removed} (ok (a, x)) (ok (b, y)) → a ≡ b
removed_table a b x y e = cc

pub err_ne_removed :
    (x : MountError) (r : MountTable × BackendId) → ◌≢◌ {A = Removed} (err x) (ok r)
err_ne_removed x r e = cc

or_mono : (a b c : Bool) → (b ≡ true → c ≡ true) → (a || b) ≡ true → (a || c) ≡ true
or_mono a b c f h = elim (or_true a b h) [
  | inl p ↦ true_or a c (inl p)
  | inr q ↦ true_or a c (inr (f q))
]

pub nothing_removed :
    (comps : List Name) (ms' : MountTable) (gone : BackendId) → remove_at [] comps ≢ ok (ms', gone)
unfolding remove_at
nothing_removed comps ms' gone e = err_ne_removed MountError.not_mounted (ms', gone) e

routes_to-cons :
    (m : Mount) (ms : MountTable) (id : BackendId)
    → routes_to (m ∷ ms) id ≡ (m.backend_id == id || routes_to ms id)
unfolding routes_to
routes_to-cons m ms id = refl

routes_to-remove_at :
    (ms ms' : MountTable) (comps : List Name) (gone id : BackendId)
    → remove_at ms comps ≡ ok (ms', gone)
    → routes_to ms' id ≡ true
    → routes_to ms id ≡ true
routes_to-remove_at [] ms' comps gone id e h = absurd (nothing_removed comps ms' gone e)
routes_to-remove_at (m ∷ ms) ms' comps gone id e h =
    elim (Bool-cases (same_names m.at_point comps)) [
      | inl q ↦
          let t = removed_table ms ms' m.backend_id gone (sym (remove_here m ms comps q) ∙ e) in
          rw (routes_to-cons m ms id) (
            true_or (m.backend_id == id) (routes_to ms id)
              (inr (subst (λ r. routes_to r id ≡ true) (sym t) h)))
      | inr q ↦ elim (Result-cases (remove_at ms comps)) [
        | inl ((t, g), f) ↦
            let p = removed_table (m ∷ t) ms' g gone (sym (remove_later m ms t comps g q f) ∙ e) in
            rw (routes_to-cons m ms id) (
              or_mono (m.backend_id == id) (routes_to t id) (routes_to ms id)
                (routes_to-remove_at ms t comps g id f)
                (sym (routes_to-cons m t id) ∙ ap (λ r. routes_to r id) p ∙ h))
        | inr (x, f) ↦
            absurd (err_ne_removed x (ms', gone) (sym (remove_nothing m ms comps x q f) ∙ e))
      ]
    ]

-- Unmounting adds no route.
pub any_routes_to-unmount_in :
    (v v' : Namespaces) (ns : NsId) (path : List ℕ) (gone id : BackendId)
    → unmount_in v ns path ≡ ok (v', gone)
    → any_routes_to v' id ≡ true
    → any_routes_to v id ≡ true
unfolding unmount_in unmount_table unmount
any_routes_to-unmount_in v v' ns path gone id e h =
    let (t, found, e1) =
      bind_ok (ok_or (find_ns v.entries ns) MountError.not_mounted) (unmount_table v ns path)
        (v', gone) e in
    let (r, e2, e3) = bind_ok (unmount t path) (λ r. ok (put_table v ns r.0, r.1)) (v', gone) e1 in
    let (comps, e4, e5) = bind_ok (ok_or (components path) MountError.invalid) (remove_at t) r e2 in
    let n = ap (λ p. p.0) (ok_inj (put_table v ns r.0, r.1) (v', gone) e3) in
    elim (any_route-with_table v.entries ns r.0 id (ap (λ w. any_routes_to w id) n ∙ h)) [
      | inl q ↦
          any_route-find v.entries ns t id
            (ok_or_ok (find_ns v.entries ns) MountError.not_mounted t found)
            (routes_to-remove_at t r.0 comps r.1 id e5 q)
      | inr old ↦ old
    ]
