-- ===== src/Queue/Take.antt =====
-- `PopQueueEx`, `PopQueue` and `RemoveQueue` of lib/k2hshmque.cc.
use k2hash.Base.{ℕ, zero, suc, Bool, true, false, Option, none, some, List, [], ◌∷◌, if◌then◌else◌}
use k2hash.Bytes.{Bytes}
use k2hash.Attrs.{Attrs}
use k2hash.Marker.{init_k2h_marker}
use k2hash.Util.{is_same}
use k2hash.Shm.{Item, Db, Host, get_item, get_from, get_subkeys, remove}
use k2hash.Queue.{get_marker, start_of, end_of, next_key, Others, put_new_marker}

-- What is read of the first key before the marker is locked. `pKeyAttrs` is deleted and set to NULL
-- after the test, so that no attributes are returned.
pub record Popped : Type 0 where
  pub key : Bytes
  pub value : Option Bytes
  pub attrs : Attrs
  pub is_expired : Bool

-- How a round of `PopQueueEx` ends.
pub data Pop : Type 0 where
  failed : Db → Pop
  nothing : Db → Pop
  popped : Popped → Db → Pop
  retry : Db → Pop

module _ (h : Host) (mark : Bytes) (encpass : Option Bytes) where
  -- `GetAttrs`, where an empty list is NULL.
  abbrev attrs_of : Option Item → Attrs
  attrs_of none = []
  attrs_of (some i) = i.attrs

  abbrev is_dead : Attrs → Bool
  is_dead [] = false
  is_dead (a ∷ rest) = h.is_expire (a ∷ rest)

  abbrev pub candidate_from : Bytes → Option Item → Popped
  candidate_from key found = record {
    key = key;
    value = get_from h found true encpass;
    attrs = [];
    is_expired = is_dead (attrs_of found);
  }

  abbrev pub candidate : Db → Bytes → Popped
  candidate db key = candidate_from key (get_item db key)

  -- The marker goes on to `next`, which was read before the lock, and keeps its end key.
  unfoldable pub pop_locked : Popped → (next : Bytes) → Others → Db → Pop
  pop_locked c next o db = elim (get_marker db mark) [
    | none ↦ failed db
    | some m ↦
        if is_same c.key (start_of (some m))
        then (let (ok, db1) =
              put_new_marker h mark (init_k2h_marker true next (end_of (some m))) db in
            if ok then popped c (remove c.key false (o.before_read db1)).1 else failed db1)
        else retry db
  ]

  -- One round of `PopQueueEx`.
  unfoldable pub pop_round : Others → Db → Pop
  pop_round o db0 =
      let db = o.before_set db0 in
      elim (start_of (get_marker db mark)) [
        | [] ↦ nothing db
        | b ∷ bs ↦
            let next = next_key (get_subkeys h db (b ∷ bs) false) in
            pop_locked (candidate db (b ∷ bs)) next o (o.before_lock db)
      ]

  -- `PopQueueEx`, with what the others do in each round; `none` is a loop that goes on.
  unfoldable pub pop_queue_ex : List Others → Db → Option Pop
  pop_queue_ex [] db = none
  pop_queue_ex (o ∷ os) db = elim (pop_round o db) [
    | failed db' ↦ some (failed db')
    | nothing db' ↦ some (nothing db')
    | popped c db' ↦ some (popped c db')
    | retry db' ↦ pop_queue_ex os db'
  ]

  -- `PopQueue`, on fuel: keys that are expired are skipped.
  unfoldable pub pop_queue : ℕ → (rounds : List Others) → Db → Option Pop
  pop_queue zero rounds db = none
  pop_queue (suc n) rounds db = elim (pop_queue_ex rounds db) [
    | none ↦ none
    | some (failed db') ↦ some (failed db')
    | some (nothing db') ↦ some (nothing db')
    | some (retry db') ↦ none
    | some (popped c db') ↦ elim c.is_expired [
      | true ↦ pop_queue n rounds db'
      | false ↦ some (popped c db')
    ]
  ]
