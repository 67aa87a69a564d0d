-- ===== src/Queue/Add.antt =====
-- `AddFifoQueue` and `AddLifoQueue` of lib/k2hshmque.cc: a round of each loop, and the loops. The
-- other processes act where this one holds no lock.
use k2hash.Base.{Bool, true, false, Option, none, some, List, [], ◌∷◌, if◌then◌else◌}
use k2hash.Bytes.{Bytes}
use k2hash.Attrs.{Attrs}
use k2hash.Marker.{K2hMarker, init_k2h_marker, update_k2h_marker}
use k2hash.Util.{is_same}
use k2hash.Shm.{Item, Db, Host, Request, get_item, put_item, set}
use k2hash.Queue.{get_marker, start_of, end_of, one_subkey, Others, put_new_marker}

-- How a round ends: with the return value, or with the marker, and the end key that was not found,
-- of the next round.
pub data Round : Type 0 where
  finished : Bool → Db → Round
  again : (before : Option K2hMarker) → (last : Bytes) → Db → Round

abbrev pub round_of : Bool × Db → Round
round_of r = finished r.0 r.1

-- The next round reads the marker anew.
abbrev pub reread : Others → Bytes → (last : Bytes) → Db → Round
reread o mark last db = let db' = o.before_read db in again (get_marker db' mark) last db'

-- What is pushed.
pub record Pushed : Type 0 where
  pub key : Bytes
  pub value : Bytes
  pub attrs : Attrs
  pub request : Request

module _ (h : Host) (mark : Bytes) (p : Pushed) where
  -- Both keys of a new marker are the pushed key, or one key of the old marker is replaced.
  abbrev pub marked : Option K2hMarker → (is_end : Bool) → Option K2hMarker
  marked none is_end = init_k2h_marker true p.key []
  marked (some m) is_end = update_k2h_marker true m p.key is_end

  -- `Set` of the pushed key in front of the first key of the marker.
  abbrev pub set_pushed : Option K2hMarker → Db → Bool × Db
  set_pushed before db =
      set h p.request p.key p.value (one_subkey (start_of before)) true p.attrs db

  -- A round of `AddLifoQueue` once the marker is locked.
  unfoldable pub lifo_locked : Others → (before : Option K2hMarker) → Db → Round
  lifo_locked o before db =
      let after = get_marker db mark in
      elim (start_of after) [
        | a ∷ as_after ↦ elim (start_of before) [
          | [] ↦ reread o mark [] db
          | b ∷ as_before ↦
              if is_same (start_of before) (start_of after)
              then round_of (put_new_marker h mark (marked after false) db)
              else if is_same p.key (start_of after)
              then finished true db
              else reread o mark [] db
        ]
        | [] ↦
            if is_same (start_of before) (start_of after)
            then round_of (put_new_marker h mark (marked after false) db)
            else reread o mark [] db
      ]

  -- A round of `AddLifoQueue`.
  unfoldable pub lifo_round : Others → (before : Option K2hMarker) → Db → Round
  lifo_round o before db =
      let (ok, db1) = set_pushed before (o.before_set db) in
      if ok then lifo_locked o before (o.before_lock db1) else finished false db1

  -- The rest of a round of `AddFifoQueue` when the end of the marker is neither the one read before
  -- nor the pushed key.
  unfoldable pub fifo_deep : Others → (after : Option K2hMarker) → Db → Round
  fifo_deep o after db = elim (get_item db p.key) [
    | none ↦ finished true db
    | some i ↦ elim i.subkeys [ [] ↦ again after [] db | k ∷ ks ↦ finished true db ]
  ]

  -- A round of `AddFifoQueue` once the marker is locked.
  unfoldable pub fifo_locked : Others → (before : Option K2hMarker) → Db → Round
  fifo_locked o before db =
      let after = get_marker db mark in
      elim (end_of after) [
        | a ∷ as_after ↦ elim (end_of before) [
          | [] ↦ reread o mark [] db
          | b ∷ as_before ↦
              if is_same (end_of before) (end_of after)
              then round_of (put_new_marker h mark (marked after true) db)
              else if is_same p.key (end_of after)
              then finished true db
              else fifo_deep o after (o.before_read db)
        ]
        | [] ↦
            if is_same (end_of before) (end_of after)
            then round_of (put_new_marker h mark (marked after true) db)
            else finished true db
      ]

  -- A round of `AddFifoQueue`: the end key takes the pushed key as its subkey, then the marker.
  unfoldable pub fifo_round : Others → (before : Option K2hMarker) → (last : Bytes) → Db → Round
  fifo_round o before last db0 =
      let db = o.before_set db0 in
      elim (end_of before) [
        | [] ↦ fifo_locked o before (o.before_lock db)
        | e ∷ es ↦ elim (get_item db (e ∷ es)) [
          | none ↦ if is_same (e ∷ es) last then finished false db else reread o mark (e ∷ es) db
          | some i ↦ elim i.subkeys [
            | k ∷ ks ↦ reread o mark [] db
            | [] ↦
                let item : Item = record i { subkeys = one_subkey p.key } in
                fifo_locked o before (o.before_lock (put_item (e ∷ es) item db))
          ]
        ]
      ]

  -- The loop of `AddLifoQueue`, on fuel: `none` is a loop that goes on.
  unfoldable pub lifo_loop : List Others → (before : Option K2hMarker) → Db → Option (Bool × Db)
  lifo_loop [] before db = none
  lifo_loop (o ∷ os) before db = elim (lifo_round o before db) [
    | finished r db' ↦ some (r, db')
    | again before' last db' ↦ lifo_loop os before' db'
  ]

  -- The loop of `AddFifoQueue`.
  unfoldable pub fifo_loop :
      List Others → (before : Option K2hMarker) → (last : Bytes) → Db → Option (Bool × Db)
  fifo_loop [] before last db = none
  fifo_loop (o ∷ os) before last db = elim (fifo_round o before last db) [
    | finished r db' ↦ some (r, db')
    | again before' last' db' ↦ fifo_loop os before' last' db'
  ]

  -- `AddLifoQueue`, with what the others do in each round.
  unfoldable pub add_lifo_queue : List Others → Db → Option (Bool × Db)
  add_lifo_queue os db = lifo_loop os (get_marker db mark) db

  -- `AddFifoQueue`: the key is made first, without subkeys.
  unfoldable pub add_fifo_queue : List Others → Db → Option (Bool × Db)
  add_fifo_queue os db =
      let (ok, db1) = set h p.request p.key p.value [] true p.attrs db in
      if ok then fifo_loop os (get_marker db1 mark) [] db1 else some (false, db1)

  -- `AddQueue`
  unfoldable pub add_queue : (is_fifo : Bool) → List Others → Db → Option (Bool × Db)
  add_queue is_fifo os db = elim p.key [
    | [] ↦ some (false, db)
    | b ∷ bs ↦ if is_fifo then add_fifo_queue os db else add_lifo_queue os db
  ]
