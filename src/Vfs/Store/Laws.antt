-- ===== src/Vfs/Store/Laws.antt =====
-- The store as a map: what each change leaves to be found.
use pureshade_os.Base.{
  ◌≡◌, refl, ◌≢◌, true, none, some, List, [], ◌∷◌, ◌==◌, arith, Bool-cases, inl, inr, ==_iff,
  ==_refl, ne→not_==,
}
use pureshade_os.Vfs.Store.{
  BackendId, BackendStore, find_entry, without, insert, get, put_back, remove, contains, is_some,
}

module _ {B : Type 0} where
  pub find-without_self :
      (es : List (BackendId × B)) (id : BackendId) → find_entry (without es id) id ≡ none
  unfolding find_entry without
  find-without_self [] id = refl
  find-without_self ((i, b) ∷ es) id = elim (Bool-cases (i == id)) [
    | inl e ↦ rw e (find-without_self es id)
    | inr e ↦ rw (e, e) (find-without_self es id)
  ]

  pub find-without_ne :
      (es : List (BackendId × B)) (id j : BackendId)
      → id ≢ j
      → find_entry (without es id) j ≡ find_entry es j
  unfolding find_entry without
  find-without_ne [] id j d = refl
  find-without_ne ((i, b) ∷ es) id j d =
      ground (arith, find-without_ne es id j d, ==_iff i id, ==_iff i j)

  pub get-put_back :
      (s : BackendStore B) (id : BackendId) (b : B) → get (put_back s id b) id ≡ some b
  unfolding get put_back find_entry
  get-put_back s id b = rw (==_refl id) refl

  pub get-put_back_ne :
      (s : BackendStore B) (id j : BackendId) (b : B) → id ≢ j → get (put_back s id b) j ≡ get s j
  unfolding get put_back find_entry
  get-put_back_ne s id j b d = rw (ne→not_== id j d) (find-without_ne s.backends id j d)

  pub get-insert_self : (s : BackendStore B) (b : B) → get (insert s b).0 s.next_id ≡ some b
  unfolding get insert find_entry
  get-insert_self s b = rw (==_refl s.next_id) refl

  pub get-insert_ne :
      (s : BackendStore B) (b : B) (j : BackendId) → s.next_id ≢ j → get (insert s b).0 j ≡ get s j
  unfolding get insert find_entry
  get-insert_ne s b j d = rw (ne→not_== s.next_id j d) (find-without_ne s.backends s.next_id j d)

  pub get-remove_self : (s : BackendStore B) (id : BackendId) → get (remove s id).0 id ≡ none
  unfolding get remove
  get-remove_self s id = find-without_self s.backends id

  pub get-remove_ne :
      (s : BackendStore B) (id j : BackendId) → id ≢ j → get (remove s id).0 j ≡ get s j
  unfolding get remove
  get-remove_ne s id j d = find-without_ne s.backends id j d

  pub contains-get :
      (s : BackendStore B) (id : BackendId) (b : B) → get s id ≡ some b → contains s id ≡ true
  unfolding contains get is_some
  contains-get s id b e = rw e refl

  -- Whether an id is live depends on what `get` finds only.
  pub contains_cong :
      (s t : BackendStore B) (id : BackendId) → get s id ≡ get t id → contains s id ≡ contains t id
  unfolding contains get is_some
  contains_cong s t id e = rw e refl
