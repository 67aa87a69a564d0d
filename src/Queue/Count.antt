-- ===== src/Queue/Count.antt =====
-- `IsEmptyQueue`, `GetCountQueue` and `ReadQueue` on a queue that holds a list of keys.
use k2hash.Base.{
  ℕ, zero, suc, ◌+◌, ◌<◌, ◌≡◌, ◌≢◌, refl, ap, sym, ◌∙◌, Bool, true, false, Option, Option-cases,
  inl, inr, none, some, List, [], ◌∷◌, length, arith,
}
use k2hash.Bytes.{Bytes, decode}
use k2hash.Util.Names.{is_same_refl, ne→is_same}
use k2hash.Marker.Block.{of_block, checked_marker}
use k2hash.Marker.Keys.{HasKeys-read}
use k2hash.Shm.{Item, Db, Host, get_item, get, get_from, or_null, get_subkeys}
use k2hash.Queue.{
  get_marker, checked_value, read_marker, is_empty_queue, count_loop, get_count_queue, read_loop,
  read_queue,
}
use k2hash.Queue.Chain.{Chained, Holds, last_of, Apart-last}
use k2hash.Queue.Frame.{end_key_of, get_subkeys-IsLinked}

-- The key at a position, or NULL.
abbrev pub key_at : ℕ → List Bytes → Bytes
key_at n [] = []
key_at zero (k ∷ ks) = k
key_at (suc n) (k ∷ ks) = key_at n ks

abbrev pub is_nil : List Bytes → Bool
is_nil [] = true
is_nil (k ∷ ks) = false

checked_marker-nil : checked_marker [] ≡ none
unfolding checked_marker of_block decode
checked_marker-nil = refl

checked_value-or_null : (v : Bytes) → checked_value (or_null v) ≡ checked_marker v
checked_value-or_null [] = sym checked_marker-nil
checked_value-or_null (b ∷ bs) = refl

module _ (h : Host) (mark : Bytes) where
  get_from-plain :
      (i : Item) (checkattr : Bool)
      → i.attrs ≡ []
      → get_from h (some i) checkattr none ≡ or_null i.value
  get_from-plain i false e = refl
  get_from-plain i true e = elim i.value [ [] ↦ rw e refl | b ∷ bs ↦ rw e refl ]

  read_marker-get_marker :
      (checkattr : Bool) (db : Db)
      → ((i : Item) → get_item db mark ≡ some i → i.attrs ≡ [])
      → read_marker h mark checkattr db ≡ get_marker db mark
  unfolding get get_marker
  read_marker-get_marker checkattr db plain = elim (Option-cases (get_item db mark)) [
    | inl e ↦
        ap (λ (o : Option Item). checked_value (get_from h o checkattr none)) e
        ∙ rw (get_marker, e) refl
    | inr (i, e) ↦
        ap (λ (o : Option Item). checked_value (get_from h o checkattr none)) e
        ∙ ap checked_value (get_from-plain i checkattr (plain i e))
        ∙ checked_value-or_null i.value
        ∙ rw (get_marker, e) refl
  ]

  count_last :
      (n count : ℕ) (key : Bytes) (db : Db)
      → key ≢ []
      → count_loop h mark (suc n) key key db count ≡ some count
  unfolding count_loop
  count_last n count [] db f = refl
  count_last n count (b ∷ bs) db f = rw (count_loop, is_same_refl (b ∷ bs)) refl

  count_next :
      (n count : ℕ) (end key next : Bytes) (rest : List Bytes) (db : Db)
      → key ≢ []
      → key ≢ end
      → get_subkeys h db key false ≡ next ∷ rest
      → count_loop h mark (suc n) end key db count ≡ count_loop h mark n end next db (suc count)
  unfolding count_loop
  count_next n count end [] next rest db f g e = absurd (f refl)
  count_next n count end (b ∷ bs) next rest db f g e =
      rw (count_loop, ne→is_same (b ∷ bs) end g, e) refl

  count_loop-Chained :
      (n count : ℕ) (end k : Bytes) (ks : List Bytes) (db : Db)
      → end ≡ last_of k ks
      → length ks < n
      → Chained db mark (k ∷ ks)
      → count_loop h mark n end k db count ≡ some (count + length ks)
  count_loop-Chained zero count end k ks db e few c = absurd (omega arith)
  count_loop-Chained (suc n) count end k [] db e few c =
      rw e (count_last n count k db c.0.name.filled ∙ ap some (omega arith))
  count_loop-Chained (suc n) count end k (y ∷ ks) db e few c =
      let apart : k ≢ end = λ f. Apart-last k y ks c.0.apart (f ∙ e) in
      count_next n count end k y [] db c.0.name.filled apart
        (get_subkeys-IsLinked h db mark k (y ∷ ks) c.0)
      ∙ count_loop-Chained n (suc count) end y ks db e (omega arith) c.1
      ∙ ap some (omega arith)

  read_last : (n : ℕ) (key : Bytes) (db : Db) → key ≢ [] → read_loop h mark (suc n) key key db ≡ []
  unfolding read_loop
  read_last n [] db f = refl
  read_last n (b ∷ bs) db f = rw (read_loop, is_same_refl (b ∷ bs)) refl

  read_next :
      (n : ℕ) (end key next : Bytes) (rest : List Bytes) (db : Db)
      → key ≢ []
      → key ≢ end
      → get_subkeys h db key false ≡ next ∷ rest
      → read_loop h mark (suc n) end key db ≡ read_loop h mark n end next db
  unfolding read_loop
  read_next n end [] next rest db f g e = absurd (f refl)
  read_next n end (b ∷ bs) next rest db f g e = rw (read_loop, ne→is_same (b ∷ bs) end g, e) refl

  read_loop-Chained :
      (n : ℕ) (end k : Bytes) (ks : List Bytes) (db : Db)
      → end ≡ last_of k ks
      → Chained db mark (k ∷ ks)
      → read_loop h mark n end k db ≡ key_at n (k ∷ ks)
  unfolding read_loop
  read_loop-Chained zero end k ks db e c = refl
  read_loop-Chained (suc n) end k [] db e c = rw e (read_last n k db c.0.name.filled)
  read_loop-Chained (suc n) end k (y ∷ ks) db e c =
      let apart : k ≢ end = λ f. Apart-last k y ks c.0.apart (f ∙ e) in
      read_next n end k y [] db c.0.name.filled apart
        (get_subkeys-IsLinked h db mark k (y ∷ ks) c.0)
      ∙ read_loop-Chained n end y ks db e c.1

  module _ (ks : List Bytes) (db : Db) (q : Holds db mark ks) where
    marker_read : (checkattr : Bool) → read_marker h mark checkattr db ≡ get_marker db mark
    marker_read checkattr = read_marker-get_marker checkattr db (λ i e. (q.bare i e).1)

-- Of a queue that holds `ks`, `IsEmptyQueue` is true exactly if there are none, `GetCountQueue`, on
-- more fuel than these are, gives their number, and `ReadQueue` gives the key at a position, NULL
-- behind the last, and the last at position -1.
pub observers-Holds :
    (h : Host) (mark : Bytes) (ks : List Bytes) (db : Db) (fuel : ℕ)
    → length ks < fuel
    → Holds db mark ks
    → (is_empty_queue h mark db ≡ is_nil ks)
      × (get_count_queue h mark fuel db ≡ some (length ks))
      × ((n : ℕ) → read_queue h mark (some n) db ≡ key_at n ks)
      × (read_queue h mark none db ≡ end_key_of ks)
unfolding is_empty_queue get_count_queue read_queue
observers-Holds h mark [] db fuel few q =
    let a = marker_read h mark [] db q true ∙ q.marked in
    let b = marker_read h mark [] db q false ∙ q.marked in
    (
      rw (is_empty_queue, a) refl,
      rw (get_count_queue, a) refl,
      λ n. rw (read_queue, b) refl,
      rw (read_queue, b) refl,
    )
observers-Holds h mark (k ∷ ks) db fuel few q =
    let (m, run, keys) = q.marked in
    let (s, e) = HasKeys-read m k (last_of k ks) keys in
    let a = marker_read h mark (k ∷ ks) db q true ∙ run in
    let b = marker_read h mark (k ∷ ks) db q false ∙ run in
    (
      rw (is_empty_queue, a) refl,
      rw (get_count_queue, a, s, e)
          (count_loop-Chained h mark fuel 1 (last_of k ks) k ks db refl (omega arith) q.chained
            ∙ ap some (omega arith)),
      λ n.
          rw (read_queue, b, s, e)
            (read_loop-Chained h mark n (last_of k ks) k ks db refl q.chained),
      rw (read_queue, b) e,
    )
