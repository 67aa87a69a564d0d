-- ===== src/Queue/Chain.antt =====
-- What it means that a queue of lib/k2hshmque.cc holds a list of keys.
use k2hash.Base.{◌^◌, ◌<◌, ◌≡◌, ◌≢◌, ◌∙◌, none, some, List, [], ◌∷◌, length, take}
use k2hash.Bytes.{Bytes}
use k2hash.Marker.{K2hMarker}
use k2hash.Marker.Keys.{HasKeys}
use k2hash.Util.Names.{Apart}
use k2hash.Shm.{Item, Db, get_item}
use k2hash.Queue.{get_marker}

-- A key that is there, and of a length that a marker can hold.
pub record IsName (k : Bytes) : Type 0 where
  pub filled : k ≢ []
  pub short : length k < 2 ^ 62

-- The key `k` of a queue with the keys `ks` behind it: its only subkey is the next key.
pub record IsLinked (db : Db) (mark k : Bytes) (ks : List Bytes) : Type 0 where
  pub name : IsName k
  pub apart_mark : mark ≢ k
  pub apart : Apart k ks
  pub item : Item
  pub found : get_item db k ≡ some item
  pub subkeys : item.subkeys ≡ take 1 ks

abbrev pub Chained : Db → Bytes → List Bytes → Type 0
Chained db mark [] = Unit
Chained db mark (k ∷ ks) = IsLinked db mark k ks × Chained db mark ks

abbrev pub last_of : Bytes → List Bytes → Bytes
last_of k [] = k
last_of k (x ∷ xs) = last_of x xs

-- The marker of a queue of the given keys.
abbrev pub IsMarked : Db → Bytes → List Bytes → Type 0
IsMarked db mark [] = get_marker db mark ≡ none
IsMarked db mark (k ∷ ks) =
    (m : K2hMarker) × (get_marker db mark ≡ some m) × HasKeys m k (last_of k ks)

-- The queue of the marker `mark` holds the keys `ks`, the first to be popped first.
pub record Holds (db : Db) (mark : Bytes) (ks : List Bytes) : Type 0 where
  pub mark_name : mark ≢ []
  pub bare : (i : Item) → get_item db mark ≡ some i → (i.subkeys ≡ []) × (i.attrs ≡ [])
  pub marked : IsMarked db mark ks
  pub chained : Chained db mark ks

-- A change of one key leaves the chain of other keys.
pub Chained-frame :
    (db db' : Db) (mark : Bytes) (y : Bytes) (ks : List Bytes)
    → ((x : Bytes) → y ≢ x → get_item db' x ≡ get_item db x)
    → Apart y ks
    → Chained db mark ks
    → Chained db' mark ks
Chained-frame db db' mark y [] same a c = tt
Chained-frame db db' mark y (k ∷ ks) same a c =
    let l = c.0 in
    (
      record {
        name = l.name;
        apart_mark = l.apart_mark;
        apart = l.apart;
        item = l.item;
        found = same k a.0 ∙ l.found;
        subkeys = l.subkeys;
      },
      Chained-frame db db' mark y ks same a.1 c.1,
    )

-- The marker is none of the keys.
pub Chained-mark : (db : Db) (mark : Bytes) (ks : List Bytes) → Chained db mark ks → Apart mark ks
Chained-mark db mark [] c = tt
Chained-mark db mark (k ∷ ks) c = (c.0.apart_mark, Chained-mark db mark ks c.1)

-- A key that is not in the store is none of the keys.
pub Chained-fresh :
    (db : Db) (mark : Bytes) (y : Bytes) (ks : List Bytes)
    → get_item db y ≡ none
    → Chained db mark ks
    → Apart y ks
Chained-fresh db mark y [] e c = tt
Chained-fresh db mark y (k ∷ ks) e c = (
  λ f. let e' : get_item db k ≡ none = rw (← f) e in let g = c.0.found in cc,
  Chained-fresh db mark y ks e c.1,
)

pub last_of-IsName :
    (db : Db) (mark : Bytes) (k : Bytes) (ks : List Bytes)
    → Chained db mark (k ∷ ks)
    → IsName (last_of k ks)
last_of-IsName db mark k [] c = c.0.name
last_of-IsName db mark k (x ∷ xs) c = last_of-IsName db mark x xs c.1

-- The last key is not among the keys that are apart from all.
pub Apart-last : (k y : Bytes) (ks : List Bytes) → Apart k (y ∷ ks) → k ≢ last_of y ks
Apart-last k y [] a = a.0
Apart-last k y (z ∷ ks) a = Apart-last k z ks a.1
