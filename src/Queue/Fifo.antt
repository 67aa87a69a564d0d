-- ===== src/Queue/Fifo.antt =====
-- `AddFifoQueue` puts its key behind the last key of the queue.
use k2hash.Base.{ℕ, ◌≡◌, ◌≢◌, refl, ap, sym, ◌∙◌, true, none, some, List, [], ◌∷◌, ◌++◌}
use k2hash.Bytes.{Bytes}
use k2hash.Attrs.{Attrs}
use k2hash.SubKeys.Single.{insert-nil}
use k2hash.Marker.{K2hMarker, init_k2h_marker, update_k2h_marker}
use k2hash.Marker.Keys.{HasKeys-read, init_k2h_marker-HasKeys, update_k2h_marker-HasKeys}
use k2hash.Marker.Block.{end_key}
use k2hash.Util.Names.{Apart, is_same_refl}
use k2hash.Shm.{Item, Db, Host, get_item, put_item}
use k2hash.Shm.Writes.{IsWritten, put_item-IsWritten, set-IsWritten}
use k2hash.Queue.{get_marker, one_subkey, Others, alone, put_marker}
use k2hash.Queue.Chain.{
  IsName, Chained, Holds, last_of, last_of-IsName, Apart-last, Chained-fresh, Chained-mark,
}
use k2hash.Queue.Written.{Works}
use k2hash.Queue.Frame.{get_marker-same, Holds-frame, put_marker-Holds}
use k2hash.Queue.Add.{finished, Pushed, fifo_locked, fifo_round, fifo_loop, add_fifo_queue}

Apart-snoc : (k x : Bytes) (ks : List Bytes) → Apart k ks → k ≢ x → Apart k (ks ++ x ∷ [])
Apart-snoc k x [] a n = (n, tt)
Apart-snoc k x (y ∷ ks) a n = (a.0, Apart-snoc k x ks a.1 n)

last_of-snoc : (k x : Bytes) (ks : List Bytes) → last_of k (ks ++ x ∷ []) ≡ x
last_of-snoc k x [] = refl
last_of-snoc k x (y ∷ ks) = last_of-snoc y x ks

-- The last key has no subkeys.
last_item :
    (db : Db) (mark k : Bytes) (ks : List Bytes)
    → Chained db mark (k ∷ ks)
    → (i : Item) × (get_item db (last_of k ks) ≡ some i) × (i.subkeys ≡ [])
last_item db mark k [] c = (c.0.item, c.0.found, c.0.subkeys)
last_item db mark k (y ∷ ks) c = last_item db mark y ks c.1

-- The chain with one more key, once the last key has it as its subkey.
Chained-snoc :
    (db db' : Db) (mark k x : Bytes) (ks : List Bytes) (i j : Item)
    → Chained db mark (k ∷ ks)
    → IsName x
    → mark ≢ x
    → Apart x (k ∷ ks)
    → IsWritten (last_of k ks) i db db'
    → i.subkeys ≡ x ∷ []
    → get_item db' x ≡ some j
    → j.subkeys ≡ []
    → Chained db' mark ((k ∷ ks) ++ x ∷ [])
Chained-snoc db db' mark k x [] i j c name n a s e f g =
    let l = c.0 in
    (
      record {
        name = l.name;
        apart_mark = l.apart_mark;
        apart = (λ h. a.0 (sym h), tt);
        item = i;
        found = s.here;
        subkeys = e;
      },
      (record { name = name; apart_mark = n; apart = tt; item = j; found = f; subkeys = g }, tt),
    )
Chained-snoc db db' mark k x (y ∷ ks) i j c name n a s e f g =
    let l = c.0 in
    (
      record {
        name = l.name;
        apart_mark = l.apart_mark;
        apart = Apart-snoc k x (y ∷ ks) l.apart (λ h. a.0 (sym h));
        item = l.item;
        found = s.there k (λ h. Apart-last k y ks l.apart (sym h)) ∙ l.found;
        subkeys = l.subkeys;
      },
      Chained-snoc db db' mark y x ks i j c.1 name n a.1 s e f g,
    )

one_subkey-IsName : (x : Bytes) → IsName x → one_subkey x ≡ x ∷ []
unfolding one_subkey
one_subkey-IsName [] n = absurd (n.filled refl)
one_subkey-IsName (b ∷ bs) n = insert-nil b bs

module _ (h : Host) (works : Works h) (mark : Bytes) (p : Pushed) where
  fifo_none :
      (o : Others) (db : Db) (m : K2hMarker) (db' : Db)
      → get_marker (o.before_lock (o.before_set db)) mark ≡ none
      → init_k2h_marker true p.key [] ≡ some m
      → put_marker h mark m (o.before_lock (o.before_set db)) ≡ (true, db')
      → fifo_round h mark p o none [] db ≡ finished true db'
  unfolding fifo_round fifo_locked
  fifo_none o db m db' e g r = rw (fifo_round, fifo_locked, e, e, is_same_refl [], g, r) refl

  fifo_some :
      (db : Db) (m m' : K2hMarker) (c : ℕ) (cs : Bytes) (i : Item) (db' : Db)
      → let item : Item = record i { subkeys = one_subkey p.key } in
        end_key m ≡ c ∷ cs
        → get_item db (c ∷ cs) ≡ some i
        → i.subkeys ≡ []
        → get_marker (put_item (c ∷ cs) item db) mark ≡ some m
        → update_k2h_marker true m p.key true ≡ some m'
        → put_marker h mark m' (put_item (c ∷ cs) item db) ≡ (true, db')
        → fifo_round h mark p alone (some m) [] db ≡ finished true db'
  unfolding fifo_round fifo_locked
  fifo_some db m m' c cs i db' e f n a g r =
      rw (fifo_round, e, f, n, fifo_locked, a, e, e, a, e, is_same_refl (c ∷ cs), g, r) refl

  fifo_append :
      (end : Bytes) (item : Item) (b : ℕ) (bs : Bytes) (ks : List Bytes) (db : Db)
      → end ≡ last_of (b ∷ bs) ks
      → IsName p.key
      → mark ≢ p.key
      → Apart p.key ((b ∷ bs) ∷ ks)
      → get_item db p.key ≡ some item
      → item.subkeys ≡ []
      → Holds db mark ((b ∷ bs) ∷ ks)
      → (db' : Db) × (fifo_round h mark p alone (get_marker db mark) [] db ≡ finished true db')
        × Holds db' mark (((b ∷ bs) ∷ ks) ++ p.key ∷ [])
        × (get_item db' p.key ≡ some item)
  fifo_append [] item b bs ks db at name n a found e q =
      absurd ((last_of-IsName db mark (b ∷ bs) ks q.chained).filled (sym at))
  fifo_append (c ∷ cs) item b bs ks db at name n a found e q =
      let (m, mark_run, keys) = q.marked in
      let (i, end_found, end_bare) = last_item db mark (b ∷ bs) ks q.chained in
      let item' : Item = record i { subkeys = one_subkey p.key } in
      let db1 = put_item (c ∷ cs) item' db in
      let s : IsWritten (last_of (b ∷ bs) ks) item' db db1 =
        rw (← at) (put_item-IsWritten (c ∷ cs) item' db) in
      let end_mark : c ∷ cs ≢ mark = λ f.
        Apart-last mark (b ∷ bs) ks (Chained-mark db mark ((b ∷ bs) ∷ ks) q.chained) (sym f ∙ at) in
      let end_key_name : c ∷ cs ≢ p.key = λ f. Apart-last p.key (b ∷ bs) ks a (sym f ∙ at) in
      let there = (put_item-IsWritten (c ∷ cs) item' db).there in
      let found1 : get_item db1 p.key ≡ some item = there p.key end_key_name ∙ found in
      let marker1 : get_marker db1 mark ≡ some m =
        get_marker-same db db1 mark (there mark end_mark) ∙ mark_run in
      let chain =
        Chained-snoc db db1 mark (b ∷ bs) p.key ks item' item q.chained name n a s
          (one_subkey-IsName p.key name) found1 e in
      let (m', run, keys') =
        update_k2h_marker-HasKeys m (b ∷ bs) (last_of (b ∷ bs) ks) p.key true keys in
      let (db', put, done, r) =
        put_marker-Holds h mark m' (b ∷ bs) (ks ++ p.key ∷ []) db1 works q.mark_name
          (λ j g. (q.bare j (sym (there mark end_mark) ∙ g)).0)
          (rw (last_of-snoc (b ∷ bs) p.key ks) keys') (rw (last_of-snoc (b ∷ bs) p.key ks) name)
          chain in
      (
        db',
        rw mark_run (
            fifo_some db m m' c cs i db'
              ((HasKeys-read m (b ∷ bs) (last_of (b ∷ bs) ks) keys).1 ∙ sym at)
              (ap (get_item db) at ∙ end_found) end_bare marker1 run put),
        r,
        done.there p.key n ∙ found1,
      )

  -- The round of a key that the store has already, without subkeys.
  fifo_round-Holds :
      (item : Item) (ks : List Bytes) (db : Db)
      → IsName p.key
      → mark ≢ p.key
      → Apart p.key ks
      → get_item db p.key ≡ some item
      → item.subkeys ≡ []
      → Holds db mark ks
      → (db' : Db) × (fifo_round h mark p alone (get_marker db mark) [] db ≡ finished true db')
        × Holds db' mark (ks ++ p.key ∷ [])
        × (get_item db' p.key ≡ some item)
  fifo_round-Holds item [] db name n a found e q =
      let (m, run, keys, _) = init_k2h_marker-HasKeys p.key [] in
      let (db', put, done, r) =
        put_marker-Holds h mark m p.key [] db works q.mark_name (λ i g. (q.bare i g).0) keys name
          (
            record {
              name = name;
              apart_mark = n;
              apart = tt;
              item = item;
              found = found;
              subkeys = e;
            },
            tt,
          ) in
      (db', rw q.marked (fifo_none alone db m db' q.marked run put), r, done.there p.key n ∙ found)
  fifo_round-Holds item ([] ∷ ks) db name n a found e q = absurd (q.chained.0.name.filled refl)
  fifo_round-Holds item ((b ∷ bs) ∷ ks) db name n a found e q =
      fifo_append (last_of (b ∷ bs) ks) item b bs ks db refl name n a found e q

  -- On a host that has room and leaves the value of a marker, without other processes,
  -- `AddFifoQueue` of a key that is new, is not the marker, is neither empty nor of `2 ^ 62` bytes
  -- or more, and whose attributes can be made, into a queue that holds `ks`, returns true in the
  -- first round and leaves a queue that holds `ks` and then the key, which has the value that the
  -- attribute manager gives and no subkey.
  pub add_fifo_queue-Holds :
      (os : List Others) (attrs' : Attrs) (value' : Bytes) (ks : List Bytes) (db : Db)
      → IsName p.key
      → mark ≢ p.key
      → get_item db p.key ≡ none
      → h.update p.request p.key p.value p.attrs ≡ some (attrs', value')
      → Holds db mark ks
      → (db' : Db) × (add_fifo_queue h mark p (alone ∷ os) db ≡ some (true, db'))
        × Holds db' mark (ks ++ p.key ∷ [])
        × (get_item db' p.key ≡ some (record { value = value'; subkeys = []; attrs = attrs' }))
  unfolding add_fifo_queue fifo_loop
  add_fifo_queue-Holds os attrs' value' ks db name n fresh up q =
      let item : Item = record { value = value'; subkeys = []; attrs = attrs' } in
      let a : Apart p.key ks = Chained-fresh db mark p.key ks fresh q.chained in
      let (d, set_run, s) =
        set-IsWritten h works.room p.request p.value [] p.key true p.attrs db attrs' value'
          name.filled (λ i g. cc) up in
      let q' = Holds-frame db d mark p.key ks s.there (λ f. n (sym f)) a q in
      let (db', run, r, found) = fifo_round-Holds item ks d name n a s.here refl q' in
      (db', rw (add_fifo_queue, set_run, fifo_loop, run) refl, r, found)
