-- ===== src/Queue/Front.antt =====
-- `PopQueueEx` takes the first key of the queue, and what it loses when the queue grows meanwhile.
use k2hash.Base.{◌≡◌, ◌≢◌, refl, ap, sym, ◌∙◌, true, false, Option, none, some, List, [], ◌∷◌, take}
use k2hash.Bytes.{Bytes}
use k2hash.Marker.{K2hMarker, init_k2h_marker}
use k2hash.Marker.Keys.{HasKeys, HasKeys-read, init_k2h_marker-HasKeys}
use k2hash.Marker.Block.{start_key, end_key}
use k2hash.Util.Names.{Apart, is_same_refl}
use k2hash.Shm.{Db, Host, get_item, get_subkeys, remove}
use k2hash.Shm.Writes.{remove-IsDropped}
use k2hash.Queue.{get_marker, start_of, Others, alone, put_marker}
use k2hash.Queue.Chain.{IsName, Holds, last_of, last_of-IsName}
use k2hash.Queue.Written.{Works}
use k2hash.Queue.Frame.{
  head_key, start_of-IsMarked, get_subkeys-IsLinked, next_key-take, Holds-frame, put_marker-Holds,
  put_marker-empty,
}
use k2hash.Queue.Take.{Popped, nothing, popped, candidate, pop_locked, pop_round, pop_queue_ex}

module _ (h : Host) (works : Works h) (mark : Bytes) (encpass : Option Bytes) where
  locked_step :
      (c : Popped) (next : Bytes) (o : Others) (db db1 : Db) (m m' : K2hMarker)
      → get_marker db mark ≡ some m
      → start_key m ≡ c.key
      → init_k2h_marker true next (end_key m) ≡ some m'
      → put_marker h mark m' db ≡ (true, db1)
      → pop_locked h mark encpass c next o db ≡ popped c (remove c.key false (o.before_read db1)).1
  unfolding pop_locked
  locked_step c next o db db1 m m' e s i r = rw (pop_locked, e, s, is_same_refl c.key, i, r) refl

  -- The removal of the popped key from a queue that does not hold it any more.
  pub removed-Holds :
      (k : Bytes) (ks : List Bytes) (db : Db)
      → IsName k
      → mark ≢ k
      → Apart k ks
      → Holds db mark ks
      → Holds (remove k false db).1 mark ks
  removed-Holds k ks db name n a q =
      let d = remove-IsDropped k db name.filled in
      Holds-frame db (remove k false db).1 mark k ks d.there (λ f. n (sym f)) a q

  -- The keys of the marker that a pop makes.
  new_marker :
      (next end : Bytes)
      → end ≢ []
      → (m : K2hMarker) × (init_k2h_marker true next end ≡ some m) × HasKeys m next end
  new_marker next [] n = absurd (n refl)
  new_marker next (b ∷ bs) n =
      let (m, run, keys, _) = init_k2h_marker-HasKeys next (b ∷ bs) in (m, run, keys)

  -- The marker of a queue with the first key `k`, put again for the key `next` and the end key that it
  -- has: then the queue holds `rest`.
  pub record IsAdvanced (k next : Bytes) (rest : List Bytes) (db : Db) : Type 0 where
    pub old : K2hMarker
    pub new : K2hMarker
    pub after : Db
    pub found : get_marker db mark ≡ some old
    pub start : start_key old ≡ k
    pub made : init_k2h_marker true next (end_key old) ≡ some new
    pub put : put_marker h mark new db ≡ (true, after)
    pub queue : Holds after mark rest
    pub same : (x : Bytes) → mark ≢ x → get_item after x ≡ get_item db x

  -- With no key read behind the first one, the queue is empty afterwards, whatever it held.
  advance_empty :
      (k : Bytes) (ks : List Bytes) (db : Db) → Holds db mark (k ∷ ks) → IsAdvanced k [] [] db
  advance_empty k ks db q =
      let (m, found, keys) = q.marked in
      let (s, e) = HasKeys-read m k (last_of k ks) keys in
      let last = last_of-IsName db mark k ks q.chained in
      let (m', run, keys') = new_marker [] (last_of k ks) last.filled in
      let (db1, put, done, q') =
        put_marker-empty h mark m' (last_of k ks) db works q.mark_name (λ i g. (q.bare i g).0) keys'
          last.short in
      record {
        old = m;
        new = m';
        after = db1;
        found = found;
        start = s;
        made = ap (init_k2h_marker true []) e ∙ run;
        put = put;
        queue = q';
        same = done.there;
      }

  -- With the key behind the first one read right, the queue goes on at that key.
  pub advance :
      (k : Bytes) (ks : List Bytes) (db : Db)
      → Holds db mark (k ∷ ks)
      → IsAdvanced k (head_key ks) ks db
  advance k [] db q = advance_empty k [] db q
  advance k (n ∷ ks) db q =
      let (m, found, keys) = q.marked in
      let (s, e) = HasKeys-read m k (last_of n ks) keys in
      let last = last_of-IsName db mark n ks q.chained.1 in
      let (m', run, keys') = new_marker n (last_of n ks) last.filled in
      let (db1, put, done, q') =
        put_marker-Holds h mark m' n ks db works q.mark_name (λ i g. (q.bare i g).0) keys' last
          q.chained.1 in
      record {
        old = m;
        new = m';
        after = db1;
        found = found;
        start = s;
        made = ap (init_k2h_marker true n) e ∙ run;
        put = put;
        queue = q';
        same = done.there;
      }

  -- The locked part of a pop whose marker advances.
  pop_locked-Holds :
      (c : Popped) (next : Bytes) (o : Others) (rest : List Bytes) (db : Db)
      → ((d : Db) → o.before_read d ≡ d)
      → IsName c.key
      → mark ≢ c.key
      → Apart c.key rest
      → IsAdvanced c.key next rest db
      → (db' : Db) × (pop_locked h mark encpass c next o db ≡ popped c db')
        × Holds db' mark rest
        × (get_item db' c.key ≡ none)
        × ((x : Bytes) → mark ≢ x → c.key ≢ x → get_item db' x ≡ get_item db x)
  pop_locked-Holds c next o rest db quiet name n a v =
      let gone = remove-IsDropped c.key v.after name.filled in
      (
        (remove c.key false v.after).1,
        locked_step c next o db v.after v.old v.new v.found v.start v.made v.put
            ∙ ap (λ (d : Db). popped c (remove c.key false d).1) (quiet v.after),
        removed-Holds c.key rest v.after name n a v.queue,
        gone.here,
        λ x f g. gone.there x g ∙ v.same x f,
      )

  -- What a round reads before the lock.
  read_step :
      (o : Others) (k : Bytes) (ks : List Bytes) (db : Db)
      → Holds (o.before_set db) mark (k ∷ ks)
      → pop_round h mark encpass o db
        ≡ pop_locked h mark encpass
            (candidate h mark encpass (o.before_set db) k)
            (head_key ks)
            o
            (o.before_lock (o.before_set db))
  unfolding pop_round
  read_step o [] ks db q = absurd (q.chained.0.name.filled refl)
  read_step o (b ∷ bs) ks db q =
      let start : start_of (get_marker (o.before_set db) mark) ≡ b ∷ bs =
        start_of-IsMarked (o.before_set db) mark ((b ∷ bs) ∷ ks) q.marked in
      let next : get_subkeys h (o.before_set db) (b ∷ bs) false ≡ take 1 ks =
        get_subkeys-IsLinked h (o.before_set db) mark (b ∷ bs) ks q.chained.0 in
      rw (pop_round, start, next, next_key-take ks) refl

  -- On a host that has room and leaves the value of a marker, without other processes, `PopQueueEx`
  -- of a queue that holds `k` and then `ks` returns `k` with what was read of it, leaves a queue
  -- that holds `ks`, and `k` is not in the store any more; all keys but `k` and the marker are as
  -- they were.
  pub pop_queue_ex-Holds :
      (os : List Others) (k : Bytes) (ks : List Bytes) (db : Db)
      → Holds db mark (k ∷ ks)
      → (db' : Db) × (pop_queue_ex h mark encpass (alone ∷ os) db
          ≡ some (popped (candidate h mark encpass db k) db'))
        × Holds db' mark ks
        × (get_item db' k ≡ none)
        × ((x : Bytes) → mark ≢ x → k ≢ x → get_item db' x ≡ get_item db x)
  unfolding pop_queue_ex
  pop_queue_ex-Holds os k ks db q =
      let (db', run, left, gone, same) =
        pop_locked-Holds (candidate h mark encpass db k) (head_key ks) alone ks db (λ d. refl)
          q.chained.0.name q.chained.0.apart_mark q.chained.0.apart (advance k ks db q) in
      (db', rw (pop_queue_ex, read_step alone k ks db q, run) refl, left, gone, same)

  pub pop_queue_ex-nothing :
      (os : List Others) (db : Db)
      → Holds db mark []
      → pop_queue_ex h mark encpass (alone ∷ os) db ≡ some (nothing db)
  unfolding pop_queue_ex pop_round
  pop_queue_ex-nothing os db q =
      rw (pop_queue_ex, pop_round, start_of-IsMarked db mark [] q.marked) refl

  -- On a host that has room and leaves the value of a marker, if the queue held the key `k` alone
  -- when `PopQueueEx` read it, and `k` and then `added` when the marker was locked, and nobody acts
  -- before the key is removed, then the round returns `k` and leaves an empty queue, although all
  -- keys but `k` and the marker are still in the store.
  pub pop_round-loses :
      (o : Others) (k : Bytes) (added : List Bytes) (db : Db)
      → ((d : Db) → o.before_read d ≡ d)
      → Holds (o.before_set db) mark (k ∷ [])
      → Holds (o.before_lock (o.before_set db)) mark (k ∷ added)
      → (db' : Db) × (pop_round h mark encpass o db
          ≡ popped (candidate h mark encpass (o.before_set db) k) db')
        × Holds db' mark []
        × ((x : Bytes)
            → Apart x (mark ∷ k ∷ [])
            → get_item db' x ≡ get_item (o.before_lock (o.before_set db)) x)
  pop_round-loses o k added db quiet q r =
      let (db', run, left, gone, same) =
        pop_locked-Holds (candidate h mark encpass (o.before_set db) k) [] o []
          (o.before_lock (o.before_set db)) quiet q.chained.0.name q.chained.0.apart_mark tt
          (advance_empty k added (o.before_lock (o.before_set db)) r) in
      (
        db',
        read_step o k [] db q ∙ run,
        left,
        λ x a. same x (λ f. a.0 (sym f)) (λ f. a.1.0 (sym f)),
      )
