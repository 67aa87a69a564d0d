-- ===== src/Tests/Stores.antt =====
-- A host, and stores with queues of no, one and two keys, for the tests of the queues.
use k2hash.Base.{
  ℕ, ◌≡◌, ◌≢◌, refl, sym, ap, ◌∙◌, true, false, Option, none, some, List, [], ◌∷◌, arith,
}
use k2hash.Bytes.{Bytes, compare_bytes}
use k2hash.Attrs.{Attrs}
use k2hash.Util.{is_same, bincmp}
use k2hash.Marker.{K2hMarker, is_empty_k2h_marker}
use k2hash.Marker.Keys.{HasKeys}
use k2hash.Marker.Block.{to_block, checked_marker}
use k2hash.Shm.{Item, Db, Host, get_item, normal}
use k2hash.Shm.Writes.{HasRoom}
use k2hash.Queue.{get_marker}
use k2hash.Queue.Add.{Pushed}
use k2hash.Queue.Chain.{IsName, Holds}
use k2hash.Queue.Written.{Works, checked_marker-to_block}

-- Values keep no attributes, and there is always room.
abbrev pub host : Host
host = record {
  update = λ r key value attrs. some ([], value);
  is_expire = λ attrs. false;
  is_history = λ attrs. false;
  is_value_encrypted = λ attrs. false;
  get_decrypt_value = λ attrs encpass value. some value;
  allocate_element = λ db. true;
  check_expanding_key_area = λ db. true;
}

pub host_room : HasRoom host
host_room = record { allocate = λ db. refl; expand = λ db. refl }

pub host_works : Works host
host_works = record { room = host_room; plain = λ key value. refl }

abbrev pub mark : Bytes
mark = 9 ∷ []

-- The key 3 with the value 33.
abbrev pub three : Pushed
three = record { key = 3 ∷ []; value = 33 ∷ []; attrs = []; request = normal host }

pub IsName-one : (x : ℕ) → IsName (x ∷ [])
IsName-one x = record { filled = λ f. ground arith; short = omega arith }

pub one_apart : (x y : ℕ) → x ≢ y → ◌≢◌ {A = Bytes} (x ∷ []) (y ∷ [])
one_apart x y n f = n (ground arith)

pub empty_Holds : Holds [] mark []
unfolding get_marker get_item
empty_Holds = record {
  mark_name = λ f. ground arith;
  bare = λ i e. ground arith;
  marked = refl;
  chained = tt;
}

-- A marker of the keys 1 and 2, or 1 and 1.
abbrev pub marker_to : ℕ → K2hMarker
marker_to x = record { startlen = 1; startoff = 32; endlen = 1; endoff = 33; body = 1 ∷ x ∷ [] }

marker_to-HasKeys : (x : ℕ) → HasKeys (marker_to x) (1 ∷ []) (x ∷ [])
marker_to-HasKeys x = record {
  startlen = refl;
  startoff = refl;
  endlen = refl;
  endoff = refl;
  body = refl;
}

abbrev pub plain_item : Bytes → List Bytes → Item
plain_item value subkeys = record { value = value; subkeys = subkeys; attrs = [] }

abbrev pub one_key : Db
one_key = (mark, plain_item (to_block (marker_to 1)) []) ∷ (1 ∷ [], plain_item (11 ∷ []) []) ∷ []

abbrev pub two_keys : Db
two_keys =
    (mark, plain_item (to_block (marker_to 2)) [])
    ∷ (1 ∷ [], plain_item (11 ∷ []) ((2 ∷ []) ∷ []))
    ∷ (2 ∷ [], plain_item (22 ∷ []) [])
    ∷ []

marker_found : (x : ℕ) → checked_marker (to_block (marker_to x)) ≡ some (marker_to x)
unfolding is_empty_k2h_marker
marker_found x =
    checked_marker-to_block (marker_to x) (1 ∷ []) (x ∷ []) (marker_to-HasKeys x) (omega arith)
      (omega arith)

found_one : get_item one_key (1 ∷ []) ≡ some (plain_item (11 ∷ []) [])
unfolding get_item is_same bincmp compare_bytes
found_one = refl

mark_in :
    (v : Bytes) (db : Db) → get_item ((mark, plain_item v []) ∷ db) mark ≡ some (plain_item v [])
unfolding get_item is_same bincmp compare_bytes
mark_in v db = refl

abbrev subkeys_of : Option Item → List Bytes
subkeys_of none = []
subkeys_of (some i) = i.subkeys

abbrev attrs_of : Option Item → Attrs
attrs_of none = []
attrs_of (some i) = i.attrs

bare_mark :
    (v : Bytes) (db : Db) (i : Item)
    → get_item ((mark, plain_item v []) ∷ db) mark ≡ some i
    → (i.subkeys ≡ []) × (i.attrs ≡ [])
bare_mark v db i e =
    let f : some i ≡ some (plain_item v []) = sym e ∙ mark_in v db in
    (ap subkeys_of f, ap attrs_of f)

marked_in :
    (x : ℕ) (db : Db)
    → get_marker ((mark, plain_item (to_block (marker_to x)) []) ∷ db) mark ≡ some (marker_to x)
unfolding get_marker
marked_in x db = rw (get_marker, mark_in (to_block (marker_to x)) db) (marker_found x)

pub one_key_Holds : Holds one_key mark ((1 ∷ []) ∷ [])
one_key_Holds = record {
  mark_name = λ f. ground arith;
  bare = bare_mark _ _;
  marked = (marker_to 1, marked_in 1 _, marker_to-HasKeys 1);
  chained = (
    record {
      name = IsName-one 1;
      apart_mark = one_apart 9 1 (λ f. omega arith);
      apart = tt;
      item = plain_item (11 ∷ []) [];
      found = found_one;
      subkeys = refl;
    },
    tt,
  );
}

found_first : get_item two_keys (1 ∷ []) ≡ some (plain_item (11 ∷ []) ((2 ∷ []) ∷ []))
unfolding get_item is_same bincmp compare_bytes
found_first = refl

found_second : get_item two_keys (2 ∷ []) ≡ some (plain_item (22 ∷ []) [])
unfolding get_item is_same bincmp compare_bytes
found_second = refl

pub two_keys_Holds : Holds two_keys mark ((1 ∷ []) ∷ (2 ∷ []) ∷ [])
two_keys_Holds = record {
  mark_name = λ f. ground arith;
  bare = bare_mark _ _;
  marked = (marker_to 2, marked_in 2 _, marker_to-HasKeys 2);
  chained = (
    record {
      name = IsName-one 1;
      apart_mark = one_apart 9 1 (λ f. omega arith);
      apart = (one_apart 1 2 (λ f. omega arith), tt);
      item = plain_item (11 ∷ []) ((2 ∷ []) ∷ []);
      found = found_first;
      subkeys = refl;
    },
    (
      record {
        name = IsName-one 2;
        apart_mark = one_apart 9 2 (λ f. omega arith);
        apart = tt;
        item = plain_item (22 ∷ []) [];
        found = found_second;
        subkeys = refl;
      },
      tt,
    ),
  );
}

pub three_fresh : get_item two_keys three.key ≡ none
unfolding get_item is_same bincmp compare_bytes
three_fresh = refl
