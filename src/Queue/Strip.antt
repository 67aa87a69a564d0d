-- ===== src/Queue/Strip.antt =====
-- `RemoveQueue` of lib/k2hshmque.cc, which removes keys from the top of the queue, and from behind
-- the keys that its callback keeps.
use k2hash.Base.{ℕ, zero, suc, ◌+◌, Bool, true, false, Option, none, some, [], ◌∷◌, if◌then◌else◌}
use k2hash.Bytes.{Bytes}
use k2hash.SubKeys.{SubKeys}
use k2hash.Attrs.{Attrs}
use k2hash.Marker.{init_k2h_marker}
use k2hash.Util.{is_same}
use k2hash.Shm.{Db, Host, get_item, get, get_subkeys, remove, replace_subkeys}
use k2hash.Queue.{get_marker, start_of, end_of, next_key, Others, put_new_marker}

-- `K2HQRMCBRES`
pub data Verdict : Type 0 where
  res_error : Verdict
  res_con_rm : Verdict
  res_con_notrm : Verdict
  res_fin_rm : Verdict
  res_fin_notrm : Verdict

-- How a round of the loop ends: it stops, once the key was removed or before, or goes on with the top
-- key that is kept, or none, and the number of keys removed.
pub data Strip : Type 0 where
  stop : Db → Strip
  next_round : (top : Bytes) → (removed : ℕ) → Db → Strip
  stop_removed : Db → Strip
  null_object : Strip

-- The arguments of `RemoveQueue`; `fp` comes with its `pExtData`.
pub record Stripping : Type 0 where
  pub rmkeyval : Bool
  pub callback : Option (Bytes → Attrs → Verdict)
  pub encpass : Option Bytes

module _ (h : Host) (mark : Bytes) (s : Stripping) where
  abbrev key_attrs : Db → Bytes → Attrs
  key_attrs db key = elim (get_item db key) [ none ↦ [] | some i ↦ i.attrs ]

  -- `pTmpValue`
  abbrev pub tmp_value : Db → Bytes → Option Bytes
  tmp_value db key = if s.rmkeyval then get h db key true s.encpass else none

  -- `res`, which asks the callback only for a value.
  abbrev pub verdict_on : Db → Bytes → Option Bytes → Verdict
  verdict_on db key value = elim s.callback [
    | none ↦ res_con_rm
    | some fp ↦ elim value [ none ↦ res_con_rm | some v ↦ fp v (key_attrs db key) ]
  ]

  -- The key itself, and the key that its value names.
  unfoldable pub remove_with : Bytes → Option Bytes → Db → Db
  remove_with key value db =
      let db1 = (remove key false db).1 in
      elim value [ none ↦ db1 | some v ↦ (remove v true db1).1 ]

  -- Removing the first key, with the marker locked.
  unfoldable pub strip_top : (key next : Bytes) → Option Bytes → Db → Strip
  strip_top key next value db = elim (get_marker db mark) [
    | none ↦ stop db
    | some m ↦
        if is_same key (start_of (some m))
        then (let (ok, db1) =
              put_new_marker h mark (init_k2h_marker true next (end_of (some m))) db in
            if ok then next_round [] 1 (remove_with key value db1) else stop db1)
        else next_round [] 0 db
  ]

  -- A round at the top of the queue.
  unfoldable pub top_round : Others → Db → Strip
  top_round o db = elim (start_of (get_marker db mark)) [
    | [] ↦ stop db
    | b ∷ bs ↦
        let next = next_key (get_subkeys h db (b ∷ bs) false) in
        let value = tmp_value db (b ∷ bs) in
        elim (verdict_on db (b ∷ bs) value) [
          | res_error ↦ stop db
          | res_con_rm ↦ strip_top (b ∷ bs) next value (o.before_lock db)
          | res_fin_rm ↦ strip_top (b ∷ bs) next value (o.before_lock db)
          | res_con_notrm ↦ next_round (b ∷ bs) 0 db
          | res_fin_notrm ↦ next_round (b ∷ bs) 0 db
        ]
  ]

  -- The marker whose end key was removed ends at `top`.
  unfoldable pub move_end : (top removed : Bytes) → Db → Strip
  move_end top removed db = elim (get_marker db mark) [
    | none ↦ stop_removed db
    | some m ↦
        if is_same (end_of (some m)) removed
        then (let (ok, db1) =
              put_new_marker h mark (init_k2h_marker true (start_of (some m)) top) db in
            if ok then next_round top 1 db1 else stop_removed db1)
        else stop_removed db
  ]

  -- Removing the key behind `top`, with `top` locked; `ends` are the subkeys of the key to remove,
  -- and an object that is NULL if there are none.
  unfoldable pub strip_behind :
      (top key : Bytes) → (ends : SubKeys) → (is_end : Bool) → Option Bytes → Db → Strip
  strip_behind top key ends is_end value db = elim (get_subkeys h db top false) [
    | [] ↦ stop db
    | k ∷ ks ↦ if is_same key k then stop db else elim ends [
      | [] ↦ null_object
      | e ∷ es ↦
          let (ok, db1) = replace_subkeys h top (e ∷ es) db in
          if ok
          then (let db2 = remove_with key value db1 in
              if is_end then move_end top key db2 else next_round top 1 db2)
          else stop db1
    ]
  ]

  -- A round behind the kept key `top`.
  unfoldable pub middle_round : Others → (top : Bytes) → Db → Strip
  middle_round o top db = elim (end_of (get_marker db mark)) [
    | [] ↦ stop db
    | e ∷ es ↦ if is_same (e ∷ es) top then stop db else elim (get_subkeys h db top false) [
      | [] ↦ stop db
      | key ∷ keys ↦
          let is_end = is_same (e ∷ es) key in
          let value = tmp_value db key in
          let ends = get_subkeys h db key false in
          elim (verdict_on db key value) [
            | res_error ↦ stop db
            | res_con_rm ↦ strip_behind top key ends is_end value (o.before_lock db)
            | res_fin_rm ↦ strip_behind top key ends is_end value (o.before_lock db)
            | res_con_notrm ↦ next_round key 0 db
            | res_fin_notrm ↦ next_round key 0 db
          ]
    ]
  ]

  abbrev pub strip_round : Others → (top : Bytes) → Db → Strip
  strip_round o [] db = top_round o db
  strip_round o (b ∷ bs) db = middle_round o (b ∷ bs) db

  -- The loop, `count` rounds at most; `none` is a call of a NULL object.
  unfoldable pub strip_loop : (ℕ → Others) → ℕ → (top : Bytes) → ℕ → Db → Option (ℕ × Db)
  strip_loop os zero top removed db = some (removed, db)
  strip_loop os (suc count) top removed db = elim (strip_round (os count) top db) [
    | stop db' ↦ some (removed, db')
    | stop_removed db' ↦ some (removed + 1, db')
    | null_object ↦ none
    | next_round top' n db' ↦ strip_loop os count top' (removed + n) db'
  ]

  -- `RemoveQueue`
  unfoldable pub remove_queue : (ℕ → Others) → ℕ → Db → Option (ℕ × Db)
  remove_queue os count db = strip_loop os count [] 0 db
