-- ===== src/Queue/Race.antt =====
-- A round of `AddLifoQueue` that is a second try, after another process changed the start key.
use k2hash.Base.{◌≡◌, ◌≢◌, refl, ap, ◌∙◌, Option, none, some, [], ◌∷◌, ℕ}
use k2hash.Bytes.{Bytes}
use k2hash.Attrs.{Attrs}
use k2hash.SubKeys.Single.{insert-nil}
use k2hash.Marker.{K2hMarker}
use k2hash.Shm.{Item, Db, Host, get_item}
use k2hash.Shm.Writes.{HasRoom}
use k2hash.Shm.Overwrite.{set-removes_old}
use k2hash.Queue.{start_of, one_subkey, Others}
use k2hash.Queue.Add.{Pushed, lifo_locked, lifo_round}

one_subkey-cons : (c : ℕ) (cs : Bytes) → one_subkey (c ∷ cs) ≡ (c ∷ cs) ∷ []
unfolding one_subkey
one_subkey-cons c cs = insert-nil c cs

-- On a host that has room, if the pushed key, which is not empty, is in the store with `old` as its
-- only subkey, the marker `before` starts with a key that is neither empty nor `old`, and the
-- attributes can be made, then a round of `AddLifoQueue` comes to the locked marker with a store
-- that does not have `old` any more.
pub lifo_round-removes :
    (h : Host) (mark : Bytes) (p : Pushed) (o : Others) (before : Option K2hMarker) (old : Bytes)
    (c : ℕ) (cs : Bytes) (i : Item) (attrs' : Attrs) (value' : Bytes) (db : Db)
    → HasRoom h
    → p.key ≢ []
    → get_item (o.before_set db) p.key ≡ some i
    → i.subkeys ≡ old ∷ []
    → start_of before ≡ c ∷ cs
    → old ≢ c ∷ cs
    → h.update p.request p.key p.value p.attrs ≡ some (attrs', value')
    → (d : Db) × (lifo_round h mark p o before db ≡ lifo_locked h mark p o before (o.before_lock d))
      × (get_item d old ≡ none)
unfolding lifo_round
lifo_round-removes h mark p o before old c cs i attrs' value' db room n found s start other e =
    let (d, run, gone) =
      set-removes_old h p.request p.key p.value old c cs p.attrs i (o.before_set db) attrs' value'
        room n found s other e in
    let subkeys = ap one_subkey start ∙ one_subkey-cons c cs in
    (d, rw (lifo_round, subkeys, run) refl, gone)
