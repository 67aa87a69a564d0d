-- ===== src/Shm/Overwrite.antt =====
-- What `Set` does to the old subkeys of a key that it makes anew.
use k2hash.Base.{◌≡◌, ◌≢◌, refl, true, none, some, [], ◌∷◌, ℕ}
use k2hash.Bytes.{Bytes}
use k2hash.SubKeys.{SubKeys}
use k2hash.SubKeys.Single.{erase-other}
use k2hash.Attrs.{Attrs}
use k2hash.Shm.{
  Item, Db, Host, Request, get_item, drop_item, put_item, remove_subkeys, remove_ex, retrieve,
  make_element, set,
}
use k2hash.Shm.Removal.{remove_subkeys-gone}
use k2hash.Shm.Writes.{HasRoom}

retrieve_other :
    (old : Bytes) (c : ℕ) (cs : Bytes)
    → old ≢ c ∷ cs
    → retrieve ((c ∷ cs) ∷ []) (old ∷ []) ≡ old ∷ []
unfolding retrieve
retrieve_other old c cs n = erase-other old c cs n

remove_ex-found :
    (key : Bytes) (i : Item) (db : Db)
    → get_item db key ≡ some i
    → remove_ex key true db ≡ (i.subkeys, drop_item key db)
unfolding remove_ex
remove_ex-found key i db e = rw (remove_ex, e) refl

module _ (h : Host) (room : HasRoom h) (r : Request) (value : Bytes) (subkeys : SubKeys) where
  make_element_removing :
      (key : Bytes) (removed : SubKeys) (attrs : Attrs) (db : Db) (attrs' : Attrs) (value' : Bytes)
      → h.update r key value attrs ≡ some (attrs', value')
      → let item : Item = record { value = value'; subkeys = subkeys; attrs = attrs' } in
        make_element h r key value subkeys removed attrs db
        ≡ (true, remove_subkeys removed (put_item key item db))
  unfolding make_element
  make_element_removing key removed attrs db attrs' value' e =
      let item : Item = record { value = value'; subkeys = subkeys; attrs = attrs' } in
      rw
        (
          make_element,
          e,
          room.allocate db,
          room.expand (remove_subkeys removed (put_item key item db)),
        )
        refl

-- `Set` with `isRemoveSubKeys` of a key that has the subkey `old`, for the one new subkey `c ∷ cs`:
-- it succeeds, and `old` is not in the store any more.
pub set-removes_old :
    (h : Host) (r : Request) (key value old : Bytes) (c : ℕ) (cs : Bytes) (attrs : Attrs) (i : Item)
    (db : Db) (attrs' : Attrs) (value' : Bytes)
    → HasRoom h
    → key ≢ []
    → get_item db key ≡ some i
    → i.subkeys ≡ old ∷ []
    → old ≢ c ∷ cs
    → h.update r key value attrs ≡ some (attrs', value')
    → (db' : Db) × (set h r key value ((c ∷ cs) ∷ []) true attrs db ≡ (true, db'))
      × (get_item db' old ≡ none)
unfolding set
set-removes_old h r [] value old c cs attrs i db attrs' value' room n found s other e =
    absurd (n refl)
set-removes_old h r (b ∷ bs) value old c cs attrs i db attrs' value' room n found s other e =
    let item : Item = record { value = value'; subkeys = (c ∷ cs) ∷ []; attrs = attrs' } in
    let db1 = put_item (b ∷ bs) item (drop_item (b ∷ bs) db) in
    (
      remove_subkeys (old ∷ []) db1,
      rw (remove_ex-found (b ∷ bs) i db found, s, retrieve_other old c cs other)
          (make_element_removing h room r value ((c ∷ cs) ∷ []) (b ∷ bs) (old ∷ []) attrs
            (drop_item (b ∷ bs) db) attrs' value' e),
      remove_subkeys-gone (old ∷ []) db1 0 old refl,
    )
