-- ===== src/Queue/Object.antt =====
-- The classes `K2HUniqTimespec`, `K2HQueue`, `K2HKeyQueue` and `K2HLowOpsQueue` of lib/k2hqueue.cc.
use k2hash.Base.{
  ℕ, zero, suc, ◌+◌, ◌/◌, ◌%◌, Bool, true, false, Option, none, some, List, [], ◌∷◌, ◌++◌, ltb, leb,
  if◌then◌else◌,
}
use k2hash.Bytes.{Bytes}
use k2hash.Attrs.{Attrs}
use k2hash.Util.{binappendstr}
use k2hash.Shm.{Db, Host, Request, AttrInit, get, set, remove}
use k2hash.Queue.{Others, read_queue, read_queue_value, add_queue_key, update_start_k2h_marker}
use k2hash.Queue.Add.{Pushed, add_queue}
use k2hash.Queue.Take.{Pop, failed, nothing, popped, retry, pop_queue}
use k2hash.Queue.Strip.{Verdict, remove_queue}

-- `struct timespec`
pub record Timespec : Type 0 where
  pub tv_sec : ℕ
  pub tv_nsec : ℕ

-- `GetUniqTimespec`: the counter after the call is also what it returns.
unfoldable pub get_uniq_timespec : Timespec → Timespec
get_uniq_timespec t =
    if leb 1000000000 (t.tv_nsec + 1)
    then record { tv_sec = t.tv_sec + 1; tv_nsec = 0 }
    else record { tv_sec = t.tv_sec; tv_nsec = t.tv_nsec + 1 }

-- A digit of `%X`, and `n` of them.
unfoldable pub hex_digit : ℕ → ℕ
hex_digit d = if ltb d 10 then 48 + d else 55 + d

unfoldable pub hex : ℕ → ℕ → Bytes
hex zero w = []
hex (suc n) w = hex n (w / 16) ++ hex_digit (w % 16) ∷ []

-- `K2HQUEUE_KEY_FORM`, for numbers of at most 16 digits.
unfoldable pub key_form : (tid : ℕ) → Timespec → Bytes
key_form tid t = hex 16 tid ++ 95 ∷ (hex 16 t.tv_sec ++ 95 ∷ hex 16 t.tv_nsec)

-- `GetUniqKeyName`, from the counter after `GetUniqTimespec`.
unfoldable pub get_uniq_key_name : (pref : Bytes) → (tid : ℕ) → Timespec → Bytes
get_uniq_key_name pref tid t = binappendstr pref (some (key_form tid t))

-- `GetMarkerName`
unfoldable pub get_marker_name : Bytes → Bytes
get_marker_name pref = binappendstr pref (some (77 ∷ 65 ∷ 82 ∷ 75 ∷ 69 ∷ 82 ∷ []))

-- `K2HQueue::builtin_pref`
unfoldable pub builtin_pref : Bytes
builtin_pref =
    0 ∷ 75 ∷ 50 ∷ 72 ∷ 81 ∷ 85 ∷ 69 ∷ 85 ∷ 69 ∷ 95 ∷ 80 ∷ 82 ∷ 69 ∷ 70 ∷ 73 ∷ 88 ∷ 95 ∷ []

-- A queue object that is attached to a store.
pub record QueueObject : Type 0 where
  pub is_fifo : Bool
  pub prefix : Bytes
  pub marker : Bytes
  pub tid : ℕ
  pub attrtype : AttrInit

-- `K2HQueue::Init(pref, preflen, type)` of an object that has a store; an empty prefix is NULL.
unfoldable pub init : QueueObject → Bytes → AttrInit → QueueObject
init q pref type =
    let prefix : Bytes = elim pref [ [] ↦ builtin_pref | b ∷ bs ↦ b ∷ bs ] in
    record {
      is_fifo = q.is_fifo;
      prefix = prefix;
      marker = get_marker_name prefix;
      tid = q.tid;
      attrtype = type;
    }

module _ (h : Host) (q : QueueObject) where
  -- `K2HQueue::Push`: the counter, and what `AddQueue` returns for the new key.
  unfoldable pub push :
      List Others
      → (data_bytes : Bytes) → Attrs
      → (encpass : Option Bytes) → (expire : Option ℕ) → Timespec
      → Db
      → Timespec × Option (Bool × Db)
  push os data_bytes attrs encpass expire t db =
      let t' = get_uniq_timespec t in
      let pushed : Pushed = record {
        key = get_uniq_key_name q.prefix q.tid t';
        value = data_bytes;
        attrs = attrs;
        request = record { encpass = encpass; expire = expire; attrtype = q.attrtype };
      } in
      (t', add_queue h q.marker pushed q.is_fifo os db)

  -- `K2HQueue::Pop`
  unfoldable pub pop : ℕ → List Others → (encpass : Option Bytes) → Db → Option Pop
  pop fuel os encpass db = pop_queue h q.marker encpass fuel os db

  -- `K2HQueue::Read`
  unfoldable pub read : (pos : Option ℕ) → (encpass : Option Bytes) → Db → Option Bytes
  read pos encpass db = elim (read_queue_value h q.marker pos encpass db) [
    | none ↦ none
    | some (k, v) ↦ some v
  ]

  -- `K2HQueue::Remove`
  unfoldable pub remove_all :
      (ℕ → Others)
      → ℕ
      → Option (Bytes → Attrs → Verdict)
      → (encpass : Option Bytes) → Db
      → Option (ℕ × Db)
  remove_all os count callback encpass db =
      remove_queue h q.marker (record { rmkeyval = true; callback = callback; encpass = encpass })
        os count db

  -- `K2HKeyQueue::Push`: the key with its value, and the key as the data of the queue.
  unfoldable pub push_key :
      List Others
      → (key value : Bytes) → (encpass : Option Bytes) → (expire : Option ℕ) → Timespec
      → Db
      → Timespec × Option (Bool × Db)
  push_key os [] value encpass expire t db = (t, some (false, db))
  push_key os (b ∷ bs) value encpass expire t db =
      let request : Request = record {
        encpass = encpass;
        expire = expire;
        attrtype = AttrInit.mask_normal;
      } in
      let (ok, db1) = set h request (b ∷ bs) value [] false [] db in
      if ok then push os (b ∷ bs) [] encpass expire t db1 else (t, some (false, db1))

  -- `K2HKeyQueue::Pop`: the value of the key that is popped, and the key is removed.
  unfoldable pub pop_key :
      ℕ → List Others → (encpass : Option Bytes) → Db → Option (Option (Bytes × Bytes) × Db)
  pop_key fuel os encpass db = elim (pop fuel os encpass db) [
    | none ↦ none
    | some (failed db1) ↦ some (none, db1)
    | some (nothing db1) ↦ some (none, db1)
    | some (retry db1) ↦ none
    | some (popped c db1) ↦ elim c.value [
      | none ↦ some (none, db1)
      | some k ↦ elim (get h db1 k true encpass) [
        | none ↦ some (none, db1)
        | some v ↦ some (some (k, v), (remove k true db1).1)
      ]
    ]
  ]

  -- `K2HLowOpsQueue::Push`, `ReplaceTopQueueKey` and `GetEdgeQueueKey`.
  unfoldable pub low_push : Bytes → Db → Bool × Db
  low_push key db = add_queue_key h q.marker key q.is_fifo db

  unfoldable pub replace_top_queue_key : Bytes → Db → Bool × Db
  replace_top_queue_key key db = update_start_k2h_marker h q.marker key db

  unfoldable pub get_edge_queue_key : (is_top : Bool) → Db → Bytes
  get_edge_queue_key is_top db = read_queue h q.marker (if is_top then some 0 else none) db
