-- ===== src/Queue.antt =====
-- The queues of lib/k2hshmque.cc: keys of the store that are chained by their first subkeys, and a
-- marker, the value of another key, that holds the first and the last of them.
pub mod Add
pub mod Take
pub mod Strip
pub mod Object
pub mod Names
pub mod Chain
pub mod Count
pub mod Written
pub mod Frame
pub mod Fifo
pub mod Lifo
pub mod Front
pub mod Live
pub mod Stripped
pub mod Race
use k2hash.Base.{
  ℕ, zero, suc, ◌+◌, ◌==◌, length, Bool, true, false, Option, none, some, List, [], ◌∷◌,
  if◌then◌else◌,
}
use k2hash.Bytes.{Bytes}
use k2hash.SubKeys
use k2hash.SubKeys.{SubKeys}
use k2hash.Marker.{K2hMarker, marker_size, init_k2h_marker, update_k2h_marker, is_empty_k2h_marker}
use k2hash.Marker.Block.{to_block, of_block, checked_marker, start_key, end_key}
use k2hash.Util.{is_same}
use k2hash.Shm.{Db, Host, Request, AttrInit, get_item, get, get_subkeys, set}

-- `GetMarker`
unfoldable pub get_marker : Db → Bytes → Option K2hMarker
get_marker db mark = elim (get_item db mark) [ none ↦ none | some i ↦ checked_marker i.value ]

-- `before_startkey` and `before_endkey`, which are NULL without a marker.
abbrev pub start_of : Option K2hMarker → Bytes
start_of none = []
start_of (some m) = start_key m

abbrev pub end_of : Option K2hMarker → Bytes
end_of none = []
end_of (some m) = end_key m

-- The list of subkeys that holds one key, or none for NULL.
unfoldable pub one_subkey : Bytes → SubKeys
one_subkey [] = []
one_subkey (b ∷ bs) = (SubKeys.insert (λ _. true) [] (some (b ∷ bs))).0

-- `psubkeys->begin()`, which is NULL for a list that is empty or not there.
abbrev pub next_key : SubKeys → Bytes
next_key [] = []
next_key (k ∷ ks) = k

abbrev pub checked_value : Option Bytes → Option K2hMarker
checked_value none = none
checked_value (some v) = checked_marker v

abbrev pub marker_request : Request
marker_request = record { encpass = none; expire = none; attrtype = AttrInit.mask_all }

-- What other processes do to the store while this one holds no lock.
pub record Others : Type 0 where
  pub before_set : Db → Db
  pub before_lock : Db → Db
  pub before_read : Db → Db

abbrev pub alone : Others
alone = record { before_set = λ d. d; before_lock = λ d. d; before_read = λ d. d }

module _ (h : Host) (mark : Bytes) where
  -- `Set` of the marker, which has neither attributes nor subkeys.
  unfoldable pub put_marker : K2hMarker → Db → Bool × Db
  put_marker m db = set h marker_request mark (to_block m) [] true [] db

  abbrev pub put_new_marker : Option K2hMarker → Db → Bool × Db
  put_new_marker none db = (false, db)
  put_new_marker (some m) db = put_marker m db

  -- The marker as `Get` finds it.
  abbrev pub read_marker : (checkattr : Bool) → Db → Option K2hMarker
  read_marker checkattr db = checked_value (get h db mark checkattr none)

  -- `IsEmptyQueue`
  unfoldable pub is_empty_queue : Db → Bool
  is_empty_queue db = elim (read_marker true db) [ none ↦ true | some m ↦ false ]

  -- The loop of `GetCountQueue`, on fuel.
  unfoldable pub count_loop : ℕ → (end key : Bytes) → Db → ℕ → Option ℕ
  count_loop zero end key db count = none
  count_loop (suc n) end [] db count = some count
  count_loop (suc n) end (b ∷ bs) db count = elim (is_same (b ∷ bs) end) [
    | true ↦ some count
    | false ↦ elim (get_subkeys h db (b ∷ bs) false) [
      | [] ↦ some count
      | next ∷ rest ↦ count_loop n end next db (suc count)
    ]
  ]

  -- `GetCountQueue`; `none` is a chain that is longer than the fuel.
  unfoldable pub get_count_queue : ℕ → Db → Option ℕ
  get_count_queue fuel db = elim (read_marker true db) [
    | none ↦ some 0
    | some m ↦ count_loop fuel (end_key m) (start_key m) db 1
  ]

  -- The loop of `ReadQueue` over the positions; an empty key is NULL.
  unfoldable pub read_loop : ℕ → (end key : Bytes) → Db → Bytes
  read_loop zero end key db = key
  read_loop (suc n) end [] db = []
  read_loop (suc n) end (b ∷ bs) db = elim (is_same (b ∷ bs) end) [
    | true ↦ []
    | false ↦ elim (get_subkeys h db (b ∷ bs) false) [
      | [] ↦ []
      | next ∷ rest ↦ read_loop n end next db
    ]
  ]

  -- `ReadQueue` of the key at a position, where `none` is position -1, the end; an empty result is
  -- the return value false.
  unfoldable pub read_queue : Option ℕ → Db → Bytes
  read_queue pos db = elim (read_marker false db) [
    | none ↦ []
    | some m ↦ elim pos [ none ↦ end_key m | some n ↦ read_loop n (end_key m) (start_key m) db ]
  ]

  -- `ReadQueue` of the key and its value, read with its attributes.
  unfoldable pub read_queue_value :
      Option ℕ → (encpass : Option Bytes) → Db → Option (Bytes × Bytes)
  read_queue_value pos encpass db = elim (read_queue pos db) [
    | [] ↦ none
    | b ∷ bs ↦ elim (get h db (b ∷ bs) true encpass) [ none ↦ none | some v ↦ some (b ∷ bs, v) ]
  ]

  -- `AddQueue(byMark, marklength, byKey, keylength, is_fifo)`: only the marker.
  unfoldable pub add_queue_key : Bytes → (is_fifo : Bool) → Db → Bool × Db
  add_queue_key [] is_fifo db = (false, db)
  add_queue_key (b ∷ bs) is_fifo db =
      let start : Option K2hMarker = elim (get_marker db mark) [
        | none ↦ init_k2h_marker true [] []
        | some m ↦ some m
      ] in
      elim start [
        | none ↦ (false, db)
        | some m ↦ put_new_marker (update_k2h_marker true m (b ∷ bs) is_fifo) db
      ]

  -- The new marker of `UpdateStartK2HMarker`.
  abbrev restarted : Bytes → K2hMarker → Option K2hMarker
  restarted [] m = init_k2h_marker true [] []
  restarted (b ∷ bs) m =
      if is_same (b ∷ bs) (start_key m) then some m else update_k2h_marker true m (b ∷ bs) false

  -- `UpdateStartK2HMarker`
  unfoldable pub update_start_k2h_marker : Bytes → Db → Bool × Db
  update_start_k2h_marker key db = elim (get h db mark false none) [
    | none ↦ (false, db)
    | some v ↦ elim (of_block v) [
      | none ↦ (false, db)
      | some m ↦
          if length v == marker_size + m.startlen + m.endlen
          then (if is_empty_k2h_marker m then (true, db) else put_new_marker (restarted key m) db)
          else (false, db)
    ]
  ]
