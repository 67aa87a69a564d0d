-- ===== src/Queue/Stripped.antt =====
-- What `RemoveQueue` removes: the first keys, up to one that the callback keeps, and none behind it.
use k2hash.Base.{
  ℕ, zero, suc, ◌+◌, ◌≡◌, ◌⊎◌, refl, ap, subst, ◌∙◌, Bool, true, false, Bool-cases, Option, none,
  some, inl, inr, List, [], ◌∷◌, length, drop, min, arith,
}
use k2hash.Bytes.{Bytes}
use k2hash.Util.{is_same}
use k2hash.Util.Names.{is_same_refl}
use k2hash.Shm.{Db, Host, get_subkeys, remove}
use k2hash.Queue.{get_marker, start_of, end_of, next_key, alone}
use k2hash.Queue.Chain.{Chained, Holds}
use k2hash.Queue.Written.{Works}
use k2hash.Queue.Frame.{head_key, start_of-IsMarked, get_subkeys-IsLinked, next_key-take}
use k2hash.Queue.Front.{IsAdvanced, advance, removed-Holds}
use k2hash.Queue.Strip.{
  Verdict, res_error, res_con_rm, res_con_notrm, res_fin_rm, res_fin_notrm, stop, next_round,
  Stripping, tmp_value, verdict_on, remove_with, strip_top, top_round, strip_behind, middle_round,
  strip_round, strip_loop, remove_queue,
}

abbrev removes : Verdict → Bool
removes res_error = false
removes res_con_rm = true
removes res_fin_rm = true
removes res_con_notrm = false
removes res_fin_notrm = false

Verdict-cases :
    (v : Verdict)
    → (v ≡ res_error)
      ⊎ (v ≡ res_con_rm)
      ⊎ (v ≡ res_fin_rm)
      ⊎ (v ≡ res_con_notrm)
      ⊎ (v ≡ res_fin_notrm)
Verdict-cases res_error = inl refl
Verdict-cases res_con_rm = inr (inl refl)
Verdict-cases res_fin_rm = inr (inr (inl refl))
Verdict-cases res_con_notrm = inr (inr (inr (inl refl)))
Verdict-cases res_fin_notrm = inr (inr (inr (inr refl)))

module _ (h : Host) (mark : Bytes) (s : Stripping) where
  -- The subkey read under the lock is the one read before it, and then nothing is removed.
  strip_behind-stop :
      (top key : Bytes) (keys ends : List Bytes) (is_end : Bool) (value : Option Bytes) (db : Db)
      → get_subkeys h db top false ≡ key ∷ keys
      → strip_behind h mark s top key ends is_end value db ≡ stop db
  unfolding strip_behind
  strip_behind-stop top key keys ends is_end value db e =
      rw (strip_behind, e, is_same_refl key) refl

  -- A round behind a kept key stops, or goes on to the next key, and leaves the store as it is.
  middle_round-same :
      (t : ℕ) (ts : Bytes) (ks : List Bytes) (end : Bytes) (db : Db)
      → end_of (get_marker db mark) ≡ end
      → Chained db mark ((t ∷ ts) ∷ ks)
      → (middle_round h mark s alone (t ∷ ts) db ≡ stop db)
        ⊎ ((y : Bytes) × (rest : List Bytes) × (ks ≡ y ∷ rest)
            × (middle_round h mark s alone (t ∷ ts) db ≡ next_round y 0 db))
  unfolding middle_round
  middle_round-same t ts ks [] db e c = inl (rw (middle_round, e) refl)
  middle_round-same t ts [] (b ∷ bs) db e c =
      let none_left : get_subkeys h db (t ∷ ts) false ≡ [] =
        get_subkeys-IsLinked h db mark (t ∷ ts) [] c.0 in
      elim (Bool-cases (is_same (b ∷ bs) (t ∷ ts))) [
        | inl f ↦ inl (rw (middle_round, e, f) refl)
        | inr f ↦ inl (rw (middle_round, e, f, none_left) refl)
      ]
  middle_round-same t ts (y ∷ ks) (b ∷ bs) db e c =
      let one_left : get_subkeys h db (t ∷ ts) false ≡ y ∷ [] =
        get_subkeys-IsLinked h db mark (t ∷ ts) (y ∷ ks) c.0 in
      let stops =
        strip_behind-stop (t ∷ ts) y [] (get_subkeys h db y false) (is_same (b ∷ bs) y)
          (tmp_value h mark s db y) db one_left in
      elim (Bool-cases (is_same (b ∷ bs) (t ∷ ts))) [
        | inl f ↦ inl (rw (middle_round, e, f) refl)
        | inr f ↦ elim (Verdict-cases (verdict_on h mark s db y (tmp_value h mark s db y))) [
          | inl v ↦ inl (rw (middle_round, e, f, one_left, v) refl)
          | inr (inl v) ↦ inl (rw (middle_round, e, f, one_left, v, stops) refl)
          | inr (inr (inl v)) ↦ inl (rw (middle_round, e, f, one_left, v, stops) refl)
          | inr (inr (inr (inl v))) ↦ inr (y, ks, refl, rw (middle_round, e, f, one_left, v) refl)
          | inr (inr (inr (inr v))) ↦ inr (y, ks, refl, rw (middle_round, e, f, one_left, v) refl)
        ]
      ]

  stop_step :
      (count removed : ℕ) (top : Bytes) (db db' : Db)
      → strip_round h mark s alone top db ≡ stop db'
      → strip_loop h mark s (λ _. alone) (suc count) top removed db ≡ some (removed, db')
  unfolding strip_loop
  stop_step count removed top db db' e = rw (strip_loop, e) refl

  next_step :
      (count removed n : ℕ) (top top' : Bytes) (db db' : Db)
      → strip_round h mark s alone top db ≡ next_round top' n db'
      → strip_loop h mark s (λ _. alone) (suc count) top removed db
        ≡ strip_loop h mark s (λ _. alone) count top' (removed + n) db'
  unfolding strip_loop
  next_step count removed n top top' db db' e = rw (strip_loop, e) refl

  kept_loop :
      (count removed : ℕ) (top : Bytes) (ks : List Bytes) (db : Db)
      → Chained db mark (top ∷ ks)
      → strip_loop h mark s (λ _. alone) count top removed db ≡ some (removed, db)
  unfolding strip_loop
  kept_loop zero removed top ks db c = refl
  kept_loop (suc count) removed [] ks db c = absurd (c.0.name.filled refl)
  kept_loop (suc count) removed (t ∷ ts) ks db c =
      elim (middle_round-same t ts ks (end_of (get_marker db mark)) db refl c) [
        | inl e ↦ stop_step count removed (t ∷ ts) db db e
        | inr (y, rest, f, e) ↦
            let c' : Chained db mark (y ∷ rest) = subst (Chained db mark) f c.1 in
            next_step count removed 0 (t ∷ ts) y db db e
            ∙ ap (λ (n : ℕ). strip_loop h mark s (λ _. alone) count y n db) (omega arith)
            ∙ kept_loop count removed y rest db c'
      ]

  keep_top :
      (k : Bytes) (ks : List Bytes) (db : Db)
      → removes (verdict_on h mark s db k (tmp_value h mark s db k)) ≡ false
      → Holds db mark (k ∷ ks)
      → (strip_round h mark s alone [] db ≡ stop db)
        ⊎ (strip_round h mark s alone [] db ≡ next_round k 0 db)
  unfolding top_round
  keep_top [] ks db v q = absurd (q.chained.0.name.filled refl)
  keep_top (b ∷ bs) ks db v q =
      let start = start_of-IsMarked db mark ((b ∷ bs) ∷ ks) q.marked in
      elim (Verdict-cases (verdict_on h mark s db (b ∷ bs) (tmp_value h mark s db (b ∷ bs)))) [
        | inl e ↦ inl (rw (top_round, start, e) refl)
        | inr (inl e) ↦ absurd (ground (arith, v, ap removes e))
        | inr (inr (inl e)) ↦ absurd (ground (arith, v, ap removes e))
        | inr (inr (inr (inl e))) ↦ inr (rw (top_round, start, e) refl)
        | inr (inr (inr (inr e))) ↦ inr (rw (top_round, start, e) refl)
      ]

  -- Without other processes, `RemoveQueue` of a queue whose first key the callback keeps, or fails
  -- on, removes no key and returns 0, whatever the callback says of the keys behind it, and
  -- whatever `count` is.
  pub remove_queue-kept :
      (count : ℕ) (k : Bytes) (ks : List Bytes) (db : Db)
      → removes (verdict_on h mark s db k (tmp_value h mark s db k)) ≡ false
      → Holds db mark (k ∷ ks)
      → remove_queue h mark s (λ _. alone) count db ≡ some (0, db)
  unfolding remove_queue strip_loop
  remove_queue-kept zero k ks db v q = refl
  remove_queue-kept (suc count) k ks db v q = elim (keep_top k ks db v q) [
    | inl e ↦ stop_step count 0 [] db db e
    | inr e ↦
        next_step count 0 0 [] k db db e
        ∙ ap (λ (n : ℕ). strip_loop h mark s (λ _. alone) count k n db) (omega arith)
        ∙ kept_loop count 0 k ks db q.chained
  ]

module _ (h : Host) (works : Works h) (mark : Bytes) (encpass : Option Bytes) where
  -- A call without a callback that leaves the values.
  abbrev pub plain_call : Stripping
  plain_call = record { rmkeyval = false; callback = none; encpass = encpass }

  top_step :
      (b : ℕ) (bs next : Bytes) (db : Db)
      → start_of (get_marker db mark) ≡ b ∷ bs
      → next_key (get_subkeys h db (b ∷ bs) false) ≡ next
      → top_round h mark plain_call alone db ≡ strip_top h mark plain_call (b ∷ bs) next none db
  unfolding top_round
  top_step b bs next db e f = rw (top_round, e, f) refl

  advance_step :
      (k next : Bytes) (ks : List Bytes) (db : Db)
      (v : IsAdvanced h works mark encpass k next ks db)
      → strip_top h mark plain_call k next none db ≡ next_round [] 1 (remove k false v.after).1
  unfolding strip_top remove_with
  advance_step k next ks db v =
      rw (strip_top, v.found, v.start, is_same_refl k, v.made, v.put, remove_with) refl

  -- The round that takes the first key off.
  strip_step :
      (k : Bytes) (ks : List Bytes) (db : Db)
      → Holds db mark (k ∷ ks)
      → (db' : Db) × (strip_round h mark plain_call alone [] db ≡ next_round [] 1 db')
        × Holds db' mark ks
  strip_step [] ks db q = absurd (q.chained.0.name.filled refl)
  strip_step (b ∷ bs) ks db q =
      let next =
        ap next_key (get_subkeys-IsLinked h db mark (b ∷ bs) ks q.chained.0) ∙ next_key-take ks in
      let v = advance h works mark encpass (b ∷ bs) ks db q in
      let l = q.chained.0 in
      (
        (remove (b ∷ bs) false v.after).1,
        top_step b bs (head_key ks) db (start_of-IsMarked db mark ((b ∷ bs) ∷ ks) q.marked) next
            ∙ advance_step (b ∷ bs) (head_key ks) ks db v,
        removed-Holds h works mark encpass (b ∷ bs) ks v.after l.name l.apart_mark l.apart v.queue,
      )

  empty_step : (db : Db) → Holds db mark [] → strip_round h mark plain_call alone [] db ≡ stop db
  unfolding top_round
  empty_step db q = rw (top_round, start_of-IsMarked db mark [] q.marked) refl

  strip_loop-Holds :
      (count removed : ℕ) (ks : List Bytes) (db : Db)
      → Holds db mark ks
      → (db' : Db) × (strip_loop h mark plain_call (λ _. alone) count [] removed db
          ≡ some (removed + min count (length ks), db'))
        × Holds db' mark (drop count ks)
  unfolding strip_loop
  strip_loop-Holds zero removed ks db q = (db, ap (λ (n : ℕ). some (n, db)) (omega arith), q)
  strip_loop-Holds (suc count) removed [] db q = (
    db,
    stop_step h mark plain_call count removed [] db db (empty_step db q)
        ∙ ap (λ (n : ℕ). some (n, db)) (omega arith),
    q,
  )
  strip_loop-Holds (suc count) removed (k ∷ ks) db q =
      let (db1, run, q1) = strip_step k ks db q in
      let (db', rest, q') = strip_loop-Holds count (removed + 1) ks db1 q1 in
      (
        db',
        next_step h mark plain_call count removed 1 [] [] db db1 run
            ∙ rest
            ∙ ap (λ (n : ℕ). some (n, db')) (omega arith),
        q',
      )

  -- On a host that has room and leaves the value of a marker, without other processes,
  -- `RemoveQueue` without a callback and without removing values, of a queue that holds `ks`,
  -- removes the first `count` keys, or all if there are fewer, returns their number, and leaves a
  -- queue that holds the others in their order.
  pub remove_queue-Holds :
      (count : ℕ) (ks : List Bytes) (db : Db)
      → Holds db mark ks
      → (db' : Db) × (remove_queue h mark plain_call (λ _. alone) count db
          ≡ some (min count (length ks), db'))
        × Holds db' mark (drop count ks)
  unfolding remove_queue
  remove_queue-Holds count ks db q =
      let (db', run, q') = strip_loop-Holds count 0 ks db q in
      (db', run ∙ ap (λ (n : ℕ). some (n, db')) (omega arith), q')
