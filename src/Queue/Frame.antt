-- ===== src/Queue/Frame.antt =====
-- What a queue keeps under changes of keys that are not its own, and what its marker shows.
use k2hash.Base.{
  ◌^◌, ◌<◌, ◌≡◌, ◌≢◌, refl, ap, sym, ◌∙◌, true, false, some, List, [], ◌∷◌, length, take, arith,
}
use k2hash.Bytes.{Bytes}
use k2hash.SubKeys.Single.{insert-nil}
use k2hash.Marker.{K2hMarker}
use k2hash.Marker.Keys.{HasKeys, HasKeys-read}
use k2hash.Util.Names.{Apart}
use k2hash.Shm.{Item, Db, Host, get_item, get_subkeys}
use k2hash.Shm.Writes.{IsWritten}
use k2hash.Queue.{get_marker, start_of, end_of, one_subkey, next_key, put_marker}
use k2hash.Queue.Chain.{
  IsName, IsLinked, Chained, Chained-frame, Chained-mark, IsMarked, Holds, last_of,
}
use k2hash.Queue.Written.{Works, marker_item, stored, put_marker-IsWritten}

-- The first and the last key, or nothing.
abbrev pub head_key : List Bytes → Bytes
head_key [] = []
head_key (k ∷ ks) = k

abbrev pub end_key_of : List Bytes → Bytes
end_key_of [] = []
end_key_of (k ∷ ks) = last_of k ks

pub get_marker-same :
    (db db' : Db) (mark : Bytes)
    → get_item db' mark ≡ get_item db mark
    → get_marker db' mark ≡ get_marker db mark
unfolding get_marker
get_marker-same db db' mark e = rw (get_marker, e) refl

IsMarked-same :
    (db db' : Db) (mark : Bytes) (ks : List Bytes)
    → get_marker db' mark ≡ get_marker db mark
    → IsMarked db mark ks
    → IsMarked db' mark ks
IsMarked-same db db' mark [] e m = e ∙ m
IsMarked-same db db' mark (k ∷ ks) e (m, run, keys) = (m, e ∙ run, keys)

-- A change of one key that is neither the marker nor in the queue.
pub Holds-frame :
    (db db' : Db) (mark y : Bytes) (ks : List Bytes)
    → ((x : Bytes) → y ≢ x → get_item db' x ≡ get_item db x)
    → y ≢ mark
    → Apart y ks
    → Holds db mark ks
    → Holds db' mark ks
Holds-frame db db' mark y ks same n a q = record {
  mark_name = q.mark_name;
  bare = λ i e. q.bare i (sym (same mark n) ∙ e);
  marked = IsMarked-same db db' mark ks (get_marker-same db db' mark (same mark n)) q.marked;
  chained = Chained-frame db db' mark y ks same a q.chained;
}

-- The keys that a marker shows.
pub start_of-IsMarked :
    (db : Db) (mark : Bytes) (ks : List Bytes)
    → IsMarked db mark ks
    → start_of (get_marker db mark) ≡ head_key ks
start_of-IsMarked db mark [] e = rw e refl
start_of-IsMarked db mark (k ∷ ks) (m, run, keys) = rw run (HasKeys-read m k (last_of k ks) keys).0

pub end_of-IsMarked :
    (db : Db) (mark : Bytes) (ks : List Bytes)
    → IsMarked db mark ks
    → end_of (get_marker db mark) ≡ end_key_of ks
end_of-IsMarked db mark [] e = rw e refl
end_of-IsMarked db mark (k ∷ ks) (m, run, keys) = rw run (HasKeys-read m k (last_of k ks) keys).1

-- The subkeys of a key of the queue, and the key that is read from them.
pub get_subkeys-IsLinked :
    (h : Host) (db : Db) (mark k : Bytes) (ks : List Bytes)
    → IsLinked db mark k ks
    → get_subkeys h db k false ≡ take 1 ks
unfolding get_subkeys
get_subkeys-IsLinked h db mark k ks l = rw (get_subkeys, l.found, l.subkeys) refl

pub next_key-take : (ks : List Bytes) → next_key (take 1 ks) ≡ head_key ks
next_key-take [] = refl
next_key-take (k ∷ ks) = refl

-- The list of the first key is the list that a key in front of it has.
pub one_subkey-head_key :
    (db : Db) (mark : Bytes) (ks : List Bytes)
    → Chained db mark ks
    → one_subkey (head_key ks) ≡ take 1 ks
unfolding one_subkey
one_subkey-head_key db mark [] c = refl
one_subkey-head_key db mark ([] ∷ ks) c = absurd (c.0.name.filled refl)
one_subkey-head_key db mark ((b ∷ bs) ∷ ks) c = insert-nil b bs

marker_item-bare :
    (m : K2hMarker) (db : Db) (mark : Bytes)
    → get_item db mark ≡ some (marker_item m)
    → (i : Item) → get_item db mark ≡ some i
    → (i.subkeys ≡ []) × (i.attrs ≡ [])
marker_item-bare m db mark f i e =
    let same : marker_item m ≡ i = cc in
    (ap (λ (a : Item). a.subkeys) (sym same), ap (λ (a : Item). a.attrs) (sym same))

-- The queue after its marker was written for the keys `k ∷ ks`, which the store has chained.
pub put_marker-Holds :
    (h : Host) (mark : Bytes) (m : K2hMarker) (k : Bytes) (ks : List Bytes) (db : Db)
    → Works h
    → mark ≢ []
    → ((i : Item) → get_item db mark ≡ some i → i.subkeys ≡ [])
    → HasKeys m k (last_of k ks)
    → IsName (last_of k ks)
    → Chained db mark (k ∷ ks)
    → (db' : Db) × (put_marker h mark m db ≡ (true, db'))
      × IsWritten mark (marker_item m) db db'
      × Holds db' mark (k ∷ ks)
put_marker-Holds h mark m k ks db works name bare keys last c =
    let (db', run, done, found) =
      put_marker-IsWritten h works mark m k (last_of k ks) db name bare keys c.0.name.short
        last.short in
    (
      db',
      run,
      done,
      record {
        mark_name = name;
        bare = marker_item-bare m db' mark done.here;
        marked = (m, found ∙ stored-name k m c.0.name.filled, keys);
        chained =
            Chained-frame db db' mark mark (k ∷ ks) done.there (Chained-mark db mark (k ∷ ks) c) c;
      },
    )
  where
    stored-name : (k : Bytes) (m : K2hMarker) → k ≢ [] → stored k m ≡ some m
    stored-name [] m h = absurd (h refl)
    stored-name (b ∷ bs) m h = refl

-- The queue after its marker was written without a first key.
pub put_marker-empty :
    (h : Host) (mark : Bytes) (m : K2hMarker) (last : Bytes) (db : Db)
    → Works h
    → mark ≢ []
    → ((i : Item) → get_item db mark ≡ some i → i.subkeys ≡ [])
    → HasKeys m [] last
    → length last < 2 ^ 62
    → (db' : Db) × (put_marker h mark m db ≡ (true, db'))
      × IsWritten mark (marker_item m) db db'
      × Holds db' mark []
put_marker-empty h mark m last db works name bare keys short =
    let (db', run, done, found) =
      put_marker-IsWritten h works mark m [] last db name bare keys (omega arith) short in
    (
      db',
      run,
      done,
      record {
        mark_name = name;
        bare = marker_item-bare m db' mark done.here;
        marked = found;
        chained = tt;
      },
    )
