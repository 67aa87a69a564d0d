-- ===== src/Queue/Lifo.antt =====
-- `AddLifoQueue` puts its key in front of the queue as it stands when the marker is locked.
use k2hash.Base.{
  ℕ, ◌≡◌, ◌≢◌, refl, ap, sym, ◌∙◌, true, false, Option, none, some, List, [], ◌∷◌, take,
}
use k2hash.Bytes.{Bytes}
use k2hash.Attrs.{Attrs}
use k2hash.Marker.{K2hMarker, init_k2h_marker, update_k2h_marker}
use k2hash.Marker.Keys.{
  HasKeys, HasKeys-read, init_k2h_marker-HasKeys, updated, update_k2h_marker-HasKeys,
}
use k2hash.Marker.Block.{start_key}
use k2hash.Util.Names.{Apart, is_same_refl}
use k2hash.Shm.{Item, Db, Host, get_item}
use k2hash.Shm.Writes.{IsWritten, set-IsWritten}
use k2hash.Queue.{get_marker, start_of, one_subkey, Others, alone, put_marker}
use k2hash.Queue.Chain.{IsName, Chained, Holds, last_of, last_of-IsName, Chained-fresh}
use k2hash.Queue.Written.{Works}
use k2hash.Queue.Frame.{
  head_key, start_of-IsMarked, one_subkey-head_key, Holds-frame, put_marker-Holds,
}
use k2hash.Queue.Add.{finished, Pushed, lifo_locked, lifo_round, lifo_loop, add_lifo_queue}

-- The store in which the pushed key stands in front of the queue `ks`.
pub record IsInFront (mark : Bytes) (p : Pushed) (item : Item) (ks : List Bytes) (db : Db)
    : Type 0 where
  pub queue : Holds db mark ks
  pub name : IsName p.key
  pub apart_mark : mark ≢ p.key
  pub apart : Apart p.key ks
  pub found : get_item db p.key ≡ some item
  pub subkeys : item.subkeys ≡ take 1 ks

module _ (h : Host) (works : Works h) (mark : Bytes) (p : Pushed) where
  locked_none :
      (o : Others) (before : Option K2hMarker) (db : Db) (m : K2hMarker) (db' : Db)
      → get_marker db mark ≡ none
      → start_of before ≡ []
      → init_k2h_marker true p.key [] ≡ some m
      → put_marker h mark m db ≡ (true, db')
      → lifo_locked h mark p o before db ≡ finished true db'
  unfolding lifo_locked
  locked_none o before db m db' e f g r = rw (lifo_locked, e, f, e, is_same_refl [], g, r) refl

  locked_some :
      (o : Others) (before : Option K2hMarker) (db : Db) (m m' : K2hMarker) (c : ℕ) (cs : Bytes)
      (db' : Db)
      → get_marker db mark ≡ some m
      → start_key m ≡ c ∷ cs
      → start_of before ≡ c ∷ cs
      → update_k2h_marker true m p.key false ≡ some m'
      → put_marker h mark m' db ≡ (true, db')
      → lifo_locked h mark p o before db ≡ finished true db'
  unfolding lifo_locked
  locked_some o before db m m' c cs db' e s f g r =
      rw (lifo_locked, e, s, f, e, s, f, is_same_refl (c ∷ cs), g, r) refl

  -- What a push leaves: the key in front, its item, and every key but it and the marker.
  record IsPushed (item : Item) (ks : List Bytes) (db db' : Db) : Type 0 where
    queue : Holds db' mark ks
    found : get_item db' p.key ≡ some item
    same : (x : Bytes) → mark ≢ x → get_item db' x ≡ get_item db x

  front :
      {item : Item} {ks : List Bytes} {db : Db}
      → IsInFront mark p item ks db
      → Chained db mark (p.key ∷ ks)
  front {item} f = (
    record {
      name = f.name;
      apart_mark = f.apart_mark;
      apart = f.apart;
      item = item;
      found = f.found;
      subkeys = f.subkeys;
    },
    f.queue.chained,
  )

  -- The locked part of a round, when the marker still has the start key that was read before.
  lifo_locked-Holds :
      (o : Others) (before : Option K2hMarker) (item : Item) (ks : List Bytes) (db : Db)
      → IsInFront mark p item ks db
      → start_of before ≡ head_key ks
      → (db' : Db) × (lifo_locked h mark p o before db ≡ finished true db')
        × IsPushed item (p.key ∷ ks) db db'
  lifo_locked-Holds o before item [] db f e =
      let (m, run, keys, _) = init_k2h_marker-HasKeys p.key [] in
      let (db', put, done, q) =
        put_marker-Holds h mark m p.key [] db works f.queue.mark_name (λ i g. (f.queue.bare i g).0)
          keys f.name (front f) in
      (
        db',
        locked_none o before db m db' f.queue.marked e run put,
        record { queue = q; found = done.there p.key f.apart_mark ∙ f.found; same = done.there },
      )
  lifo_locked-Holds o before item ([] ∷ ks) db f e = absurd (f.queue.chained.0.name.filled refl)
  lifo_locked-Holds o before item ((b ∷ bs) ∷ ks) db f e =
      let (m, found, keys) = f.queue.marked in
      let last = last_of-IsName db mark (b ∷ bs) ks f.queue.chained in
      let (m', run, keys') =
        update_k2h_marker-HasKeys m (b ∷ bs) (last_of (b ∷ bs) ks) p.key false keys in
      let (db', put, done, q) =
        put_marker-Holds h mark m' p.key ((b ∷ bs) ∷ ks) db works f.queue.mark_name
          (λ i g. (f.queue.bare i g).0) (updated-front m' (last_of (b ∷ bs) ks) last.filled keys')
          last (front f) in
      (
        db',
        locked_some o before db m m' b bs db' found
            (HasKeys-read m (b ∷ bs) (last_of (b ∷ bs) ks) keys).0 e run put,
        record { queue = q; found = done.there p.key f.apart_mark ∙ f.found; same = done.there },
      )
    where
      updated-front :
          (m' : K2hMarker) (last : Bytes)
          → last ≢ []
          → HasKeys m' (updated (b ∷ bs) last p.key false).0 (updated (b ∷ bs) last p.key false).1
          → HasKeys m' p.key last
      updated-front m' [] n k = absurd (n refl)
      updated-front m' (c ∷ cs) n k = k

  -- On a host that has room and leaves the value of a marker, a round of `AddLifoQueue` sets a key
  -- that is new when it is set, is not the marker, is neither empty nor of `2 ^ 62` bytes or more,
  -- and whose attributes can be made, with the start key of the marker `before` as its subkey. If,
  -- once the marker is locked, the queue holds any keys `ks` that the key is none of, with that
  -- same start key, and the key is as it was set, whatever other processes did in between, then the
  -- round ends with true, and the queue holds the key and then `ks`.
  pub lifo_round-Holds :
      (o : Others) (before : Option K2hMarker) (attrs' : Attrs) (value' : Bytes) (ks : List Bytes)
      (db : Db)
      → let item : Item = record {
        value = value';
        subkeys = one_subkey (start_of before);
        attrs = attrs';
      } in
        IsName p.key
        → mark ≢ p.key
        → Apart p.key ks
        → get_item (o.before_set db) p.key ≡ none
        → h.update p.request p.key p.value p.attrs ≡ some (attrs', value')
        → ((d : Db)
            → IsWritten p.key item (o.before_set db) d
            → Holds (o.before_lock d) mark ks × (get_item (o.before_lock d) p.key ≡ some item))
        → start_of before ≡ head_key ks
        → (db' : Db) × (lifo_round h mark p o before db ≡ finished true db')
          × Holds db' mark (p.key ∷ ks)
          × (get_item db' p.key ≡ some item)
  unfolding lifo_round
  lifo_round-Holds o before attrs' value' ks db name n a fresh up rely e =
      let item : Item = record {
        value = value';
        subkeys = one_subkey (start_of before);
        attrs = attrs';
      } in
      let (d, run, done) =
        set-IsWritten h works.room p.request p.value (one_subkey (start_of before)) p.key true
          p.attrs (o.before_set db) attrs' value' name.filled (λ i g. cc) up in
      let (q, found) = rely d done in
      let subkeys : one_subkey (start_of before) ≡ take 1 ks =
        ap one_subkey e ∙ one_subkey-head_key (o.before_lock d) mark ks q.chained in
      let (db', locked, r) =
        lifo_locked-Holds o before item ks (o.before_lock d)
          (record {
            queue = q;
            name = name;
            apart_mark = n;
            apart = a;
            found = found;
            subkeys = subkeys;
          })
          e in
      (db', rw (lifo_round, run, locked) refl, r.queue, r.found)

  -- On a host that has room and leaves the value of a marker, without other processes,
  -- `AddLifoQueue` of a key that is new, is not the marker, is neither empty nor of `2 ^ 62` bytes
  -- or more, and whose attributes can be made, into a queue that holds `ks`, returns true in the
  -- first round and leaves a queue that holds the key and then `ks`. The first of `ks`, if there is
  -- one, is the subkey of the key.
  pub add_lifo_queue-Holds :
      (os : List Others) (attrs' : Attrs) (value' : Bytes) (ks : List Bytes) (db : Db)
      → IsName p.key
      → mark ≢ p.key
      → get_item db p.key ≡ none
      → h.update p.request p.key p.value p.attrs ≡ some (attrs', value')
      → Holds db mark ks
      → (db' : Db) × (add_lifo_queue h mark p (alone ∷ os) db ≡ some (true, db'))
        × Holds db' mark (p.key ∷ ks)
        × (get_item db' p.key
            ≡ some (record { value = value'; subkeys = one_subkey (head_key ks); attrs = attrs' }))
  unfolding add_lifo_queue lifo_loop
  add_lifo_queue-Holds os attrs' value' ks db name n fresh up q =
      let before = get_marker db mark in
      let e : start_of before ≡ head_key ks = start_of-IsMarked db mark ks q.marked in
      let a : Apart p.key ks = Chained-fresh db mark p.key ks fresh q.chained in
      let (db', run, q', found) =
        lifo_round-Holds alone before attrs' value' ks db name n a fresh up
          (λ d s. (Holds-frame db d mark p.key ks s.there (λ f. n (sym f)) a q, s.here)) e in
      (
        db',
        rw (add_lifo_queue, lifo_loop, run) refl,
        q',
        found
            ∙ ap
                (λ (b : Bytes).
                  some (record { value = value'; subkeys = one_subkey b; attrs = attrs' }))
                e,
      )
