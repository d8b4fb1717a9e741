-- ===== src/Vfs/Namespace/Taken.antt =====
-- The route that an unmount takes out of the namespaces (fs/vfs-core/src/namespace.rs and mount.rs).
use mathlib.Core.List.{Memᴰ}
use mathlib.Core.List.Memᴰ
use pureshade_os.Base.{
  ℕ, ◌≡◌, refl, ap, sym, ◌∙◌, ◌≢◌, inl, inr, Bool, true, false, some, List, [], ◌∷◌, ◌++◌, ◌==◌,
  ◌||◌, arith, Bool-cases, subst, ==_iff,
}
use pureshade_os.Base.Result.{ok, Result-cases, bind_ok, ok_or, ok_or_ok, ok_inj}
use pureshade_os.Base.Names.{Name, same_names, same_names_iff}
use pureshade_os.Vfs.Paths.{components}
use pureshade_os.Vfs.Store.{BackendId}
use pureshade_os.Vfs.Mount.{MountError, Mount, MountTable, routes_to, remove_at, unmount}
use pureshade_os.Vfs.Mount.Covering.{true_ne_false}
use pureshade_os.Vfs.Namespace.Routes.{
  remove_here, remove_later, remove_nothing, nothing_removed, err_ne_removed,
}
use pureshade_os.Vfs.Namespace.{
  NsId, Namespace, Namespaces, find_ns, with_table, put_table, any_route, unmount_in, unmount_table,
}

-- Some namespace has a mount of the backend.
abbrev pub Routed : Namespaces → BackendId → Type 0
Routed v id =
    (e : NsId × Namespace) × (m : Mount) × Memᴰ e v.entries × Memᴰ m e.1.table × (m.backend_id ≡ id)

or_left : (a b : Bool) → a ≡ true → (a || b) ≡ true
or_left a b h = ground arith

or_right : (a b : Bool) → b ≡ true → (a || b) ≡ true
or_right a b h = ground arith

pub Memᴰ-routes_to :
    (ms : MountTable) (m : Mount) (id : BackendId)
    → Memᴰ m ms
    → m.backend_id ≡ id
    → routes_to ms id ≡ true
unfolding routes_to
Memᴰ-routes_to [] m id p e = elim p [ ]
Memᴰ-routes_to (n ∷ ms) m id (Memᴰ.head h) e =
    or_left (n.backend_id == id) (routes_to ms id)
      ((==_iff n.backend_id id).1 (ap (λ k. k.backend_id) (sym h) ∙ e))
Memᴰ-routes_to (n ∷ ms) m id (Memᴰ.tail h) e =
    or_right (n.backend_id == id) (routes_to ms id) (Memᴰ-routes_to ms m id h e)

pub routes_to-Memᴰ :
    (ms : MountTable) (id : BackendId)
    → routes_to ms id ≡ true
    → (m : Mount) × Memᴰ m ms × (m.backend_id ≡ id)
unfolding routes_to
routes_to-Memᴰ [] id h = cc
routes_to-Memᴰ (n ∷ ms) id h = elim (Bool-cases (n.backend_id == id)) [
  | inl e ↦ (n, Memᴰ.head refl, (==_iff n.backend_id id).0 e)
  | inr e ↦ let (m, at, q) = routes_to-Memᴰ ms id (ground (arith, e, h)) in (m, Memᴰ.tail at, q)
]

pub Routed-any_route :
    (es : List (NsId × Namespace)) (e : NsId × Namespace) (id : BackendId)
    → Memᴰ e es
    → routes_to e.1.table id ≡ true
    → any_route es id ≡ true
unfolding any_route
Routed-any_route [] e id p h = elim p [ ]
Routed-any_route ((i, n) ∷ es) e id (Memᴰ.head p) h =
    or_left (routes_to n.table id) (any_route es id) (sym (ap (λ f. routes_to f.1.table id) p) ∙ h)
Routed-any_route ((i, n) ∷ es) e id (Memᴰ.tail p) h =
    or_right (routes_to n.table id) (any_route es id) (Routed-any_route es e id p h)

pub any_route-Routed :
    (es : List (NsId × Namespace)) (id : BackendId)
    → any_route es id ≡ true
    → (e : NsId × Namespace) × Memᴰ e es × (routes_to e.1.table id ≡ true)
unfolding any_route
any_route-Routed [] id h = cc
any_route-Routed ((i, n) ∷ es) id h = elim (Bool-cases (routes_to n.table id)) [
  | inl e ↦ ((i, n), Memᴰ.head refl, e)
  | inr e ↦ let (f, at, q) = any_route-Routed es id (ground (arith, e, h)) in (f, Memᴰ.tail at, q)
]

find_ns-with_table :
    (es : List (NsId × Namespace)) (ns : NsId) (t u : MountTable)
    → find_ns es ns ≡ some t
    → find_ns (with_table es ns u) ns ≡ some u
unfolding find_ns with_table
find_ns-with_table [] ns t u h = cc
find_ns-with_table ((i, n) ∷ es) ns t u h = ground (arith, find_ns-with_table es ns t u)

find_ns-with_table_ne :
    (es : List (NsId × Namespace)) (ns j : NsId) (u : MountTable)
    → j ≢ ns
    → find_ns (with_table es ns u) j ≡ find_ns es j
unfolding find_ns with_table
find_ns-with_table_ne [] ns j u d = refl
find_ns-with_table_ne ((i, n) ∷ es) ns j u d =
    ground (arith, find_ns-with_table_ne es ns j u d, ==_iff i ns, ==_iff i j)

-- The table `ms'` is `ms` without its first mount at the components, which was one of `gone`.
abbrev pub FirstTaken : MountTable → List Name → MountTable → BackendId → Type 0
FirstTaken ms comps ms' gone =
    (before : MountTable) × (after : MountTable) × (m : Mount) × (ms ≡ before ++ m ∷ after)
    × (ms' ≡ before ++ after)
    × (m.at_point ≡ comps)
    × (m.backend_id ≡ gone)
    × ((n : Mount) → Memᴰ n before → n.at_point ≢ comps)

later_taken :
    (k : Mount) (ms ms' : MountTable) (comps : List Name) (gone : BackendId)
    → k.at_point ≢ comps
    → FirstTaken ms comps ms' gone
    → FirstTaken (k ∷ ms) comps (k ∷ ms') gone
later_taken k ms ms' comps gone d (before, after, m, e, f, p, q, first) =
    (k ∷ before, after, m, ap (λ l. k ∷ l) e, ap (λ l. k ∷ l) f, p, q, others)
  where
    others : (n : Mount) → Memᴰ n (k ∷ before) → n.at_point ≢ comps
    others n (Memᴰ.head h) r = d (ap (λ k. k.at_point) (sym h) ∙ r)
    others n (Memᴰ.tail h) r = first n h r

different_names : (a b : List Name) → same_names a b ≡ false → a ≢ b
different_names a b e h = true_ne_false (sym ((same_names_iff a b).1 h) ∙ e)

remove_at_lem :
    (ms ms' : MountTable) (comps : List Name) (gone : BackendId)
    → remove_at ms comps ≡ ok (ms', gone)
    → FirstTaken ms comps ms' gone
remove_at_lem [] ms' comps gone h = absurd (nothing_removed comps ms' gone h)
remove_at_lem (k ∷ ms) ms' comps gone h = elim (Bool-cases (same_names k.at_point comps)) [
  | inl e ↦
      let r = ok_inj (ms, k.backend_id) (ms', gone) (sym (remove_here k ms comps e) ∙ h) in
      (
        [],
        ms,
        k,
        refl,
        sym (ap (λ p. p.0) r),
        (same_names_iff k.at_point comps).0 e,
        ap (λ p. p.1) r,
        λ n p. absurd (Memᴰ.not-nil p),
      )
  | inr e ↦ elim (Result-cases (remove_at ms comps)) [
    | inl ((t, g), f) ↦
        let r = ok_inj (k ∷ t, g) (ms', gone) (sym (remove_later k ms t comps g e f) ∙ h) in
        subst (λ u. FirstTaken (k ∷ ms) comps u gone) (ap (λ p. p.0) r)
          (later_taken k ms t comps gone (different_names k.at_point comps e)
            (remove_at_lem ms t comps gone (f ∙ ap (λ i. ok (t, i)) (ap (λ p. p.1) r))))
    | inr (x, f) ↦ absurd (err_ne_removed x (ms', gone) (sym (remove_nothing k ms comps x e f) ∙ h))
  ]
]

-- One namespace has lost a route, and the tables of the others are as they were.
abbrev pub Unrouted : Namespaces → NsId → List ℕ → Namespaces → BackendId → Type 0
Unrouted v ns path w gone =
    (t : MountTable) × (t' : MountTable) × (comps : List Name) × (find_ns v.entries ns ≡ some t)
    × (components path ≡ some comps)
    × FirstTaken t comps t' gone
    × (find_ns w.entries ns ≡ some t')
    × ((j : NsId) → j ≢ ns → find_ns w.entries j ≡ find_ns v.entries j)

pub unmount_in_lem :
    (v w : Namespaces) (ns : NsId) (path : List ℕ) (gone : BackendId)
    → unmount_in v ns path ≡ ok (w, gone)
    → Unrouted v ns path w gone
unfolding unmount_in unmount_table unmount
unmount_in_lem v w ns path gone e =
    let (t, found, e1) =
      bind_ok (ok_or (find_ns v.entries ns) MountError.not_mounted) (unmount_table v ns path)
        (w, gone) e in
    let (r, e2, e3) = bind_ok (unmount t path) (λ r. ok (put_table v ns r.0, r.1)) (w, gone) e1 in
    let (comps, e4, e5) = bind_ok (ok_or (components path) MountError.invalid) (remove_at t) r e2 in
    let p = ok_inj (put_table v ns r.0, r.1) (w, gone) e3 in
    let at = ok_or_ok (find_ns v.entries ns) MountError.not_mounted t found in
    subst (λ q. Unrouted v ns path q.0 q.1) p
      (
        t,
        r.0,
        comps,
        at,
        ok_or_ok (components path) MountError.invalid comps e4,
        remove_at_lem t r.0 comps r.1 e5,
        find_ns-with_table v.entries ns t r.0 at,
        λ j d. find_ns-with_table_ne v.entries ns j r.0 d,
      )
