-- ===== src/Shm/Writes.antt =====
-- What `Set` and `ReplaceSubkeys` leave in the store.
use k2hash.Base.{
  ◌≡◌, ◌≢◌, refl, ◌∙◌, Bool, true, false, none, some, Option-cases, inl, inr, [], ◌∷◌,
  if◌then◌else◌,
}
use k2hash.Bytes.{Bytes}
use k2hash.SubKeys.{SubKeys}
use k2hash.SubKeys.Single.{erase-nil}
use k2hash.Attrs.{Attrs}
use k2hash.Shm.{
  Item, Db, Host, Request, get_item, drop_item, put_item, remove_ex, remove, retrieve, make_element,
  set,
}
use k2hash.Shm.Items.{
  get_item-drop_item, get_item-drop_item_other, get_item-put_item, get_item-put_item_other,
}
use k2hash.Shm.Removal.{remove_subkeys-nil}

-- The store `db'` is `db` with `item` for `key`.
pub record IsWritten (key : Bytes) (item : Item) (db db' : Db) : Type 0 where
  pub here : get_item db' key ≡ some item
  pub there : (x : Bytes) → key ≢ x → get_item db' x ≡ get_item db x

-- The store `db'` is `db` without `key`.
pub record IsDropped (key : Bytes) (db db' : Db) : Type 0 where
  pub here : get_item db' key ≡ none
  pub there : (x : Bytes) → key ≢ x → get_item db' x ≡ get_item db x

-- A host whose areas always have room.
pub record HasRoom (h : Host) : Type 0 where
  pub allocate : (db : Db) → h.allocate_element db ≡ true
  pub expand : (db : Db) → h.check_expanding_key_area db ≡ true

-- No item, or one without subkeys.
abbrev pub HasNoSubkeys : Db → Bytes → Type 0
HasNoSubkeys db key = (i : Item) → get_item db key ≡ some i → i.subkeys ≡ []

pub drop_item-IsDropped : (key : Bytes) (db : Db) → IsDropped key db (drop_item key db)
drop_item-IsDropped key db = record {
  here = get_item-drop_item key db;
  there = λ x h. get_item-drop_item_other key x db h;
}

pub put_item-IsWritten : (key : Bytes) (i : Item) (db : Db) → IsWritten key i db (put_item key i db)
put_item-IsWritten key i db = record {
  here = get_item-put_item key i db;
  there = λ x h. get_item-put_item_other key x i db h;
}

retrieve_nil : (ks : SubKeys) → retrieve ks [] ≡ []
unfolding retrieve
retrieve_nil [] = refl
retrieve_nil (k ∷ ks) = rw (erase-nil k) (retrieve_nil ks)

if_same : (b : Bool) → ◌≡◌ {A = SubKeys} (if b then [] else []) []
if_same true = refl
if_same false = refl

remove_ex-HasNoSubkeys :
    (key : Bytes) (b : Bool) (db : Db)
    → HasNoSubkeys db key
    → (db' : Db) × (remove_ex key b db ≡ ([], db'))
      × ((x : Bytes) → key ≢ x → get_item db' x ≡ get_item db x)
unfolding remove_ex
remove_ex-HasNoSubkeys key b db h = elim (Option-cases (get_item db key)) [
  | inl e ↦ (db, rw (remove_ex, e) refl, λ x f. refl)
  | inr (i, e) ↦ (
    drop_item key db,
    rw (remove_ex, e) (rw (h i e, if_same b) refl),
    λ x f. get_item-drop_item_other key x db f,
  )
]

module _ (h : Host) (room : HasRoom h) (r : Request) (value : Bytes) (subkeys : SubKeys) where
  make_element-IsWritten :
      (key : Bytes) (attrs : Attrs) (db : Db) (attrs' : Attrs) (value' : Bytes)
      → h.update r key value attrs ≡ some (attrs', value')
      → let item : Item = record { value = value'; subkeys = subkeys; attrs = attrs' } in
        (db' : Db) × (make_element h r key value subkeys [] attrs db ≡ (true, db'))
        × IsWritten key item db db'
  unfolding make_element
  make_element-IsWritten key attrs db attrs' value' e =
      let item : Item = record { value = value'; subkeys = subkeys; attrs = attrs' } in
      (
        put_item key item db,
        rw
            (
              make_element,
              e,
              room.allocate db,
              remove_subkeys-nil (put_item key item db),
              room.expand,
            )
            refl,
        put_item-IsWritten key item db,
      )

  -- `Set` of a key that has no subkeys so far.
  pub set-IsWritten :
      (key : Bytes) (is_remove : Bool) (attrs : Attrs) (db : Db) (attrs' : Attrs) (value' : Bytes)
      → key ≢ []
      → HasNoSubkeys db key
      → h.update r key value attrs ≡ some (attrs', value')
      → let item : Item = record { value = value'; subkeys = subkeys; attrs = attrs' } in
        (db' : Db) × (set h r key value subkeys is_remove attrs db ≡ (true, db'))
        × IsWritten key item db db'
  unfolding set
  set-IsWritten [] is_remove attrs db attrs' value' name bare e = absurd (name refl)
  set-IsWritten (b ∷ bs) is_remove attrs db attrs' value' name bare e =
      let (db1, run1, same) = remove_ex-HasNoSubkeys (b ∷ bs) is_remove db bare in
      let (db', run, done) = make_element-IsWritten (b ∷ bs) attrs db1 attrs' value' e in
      (
        db',
        rw (run1, retrieve_nil subkeys) run,
        record { here = done.here; there = λ x f. done.there x f ∙ same x f },
      )

-- `Remove` of a key alone.
pub remove-IsDropped : (key : Bytes) (db : Db) → key ≢ [] → IsDropped key db (remove key false db).1
unfolding remove remove_ex
remove-IsDropped [] db n = absurd (n refl)
remove-IsDropped (b ∷ bs) db n = elim (Option-cases (get_item db (b ∷ bs))) [
  | inl e ↦ rw (remove_ex, e, remove_subkeys-nil db) (record { here = e; there = λ x f. refl })
  | inr (i, e) ↦
      rw (remove_ex, e, remove_subkeys-nil (drop_item (b ∷ bs) db))
        (drop_item-IsDropped (b ∷ bs) db)
]
