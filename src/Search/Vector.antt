-- ===== src/Search/Vector.antt =====
-- `store` and `index_of` on a sorted vector.
use k2hash.Base.{
  ℕ, zero, suc, ◌≤◌, ◌<◌, ◌≡◌, refl, inl, ◌⊎◌, Ordering, none, some, List, [], ◌∷◌, arith, is_eq,
  if◌then◌else◌, length, get_elem?, insert_at, erase_at, get_elem?_past, erase_at_past,
}
use k2hash.Bytes.{Bytes}
use k2hash.Bytes.Order.{lex, lex-flip, compare_bytes-lex, eq_of_lex}
use k2hash.Search.Bisect.{IsRank, Lands, bisect-Lands}
use k2hash.Search.Sorted.{
  Above, IsSorted, lookup, put, remove, Above-trans, lookup-Above, remove-Above,
}
use k2hash.Search.{Slot, found, after, before, probe, search_key, index_of, store}

module _ {A : Type 0} (key : A → Bytes) where
  -- The number of leading elements below the key.
  pub rank : List A → Bytes → ℕ
  rank [] k = 0
  rank (x ∷ xs) k = elim (lex (key x) k) [
    | Ordering.lt ↦ suc (rank xs k)
    | Ordering.eq ↦ 0
    | Ordering.gt ↦ 0
  ]

  rank-le-length : (xs : List A) (k : Bytes) → rank xs k ≤ length xs
  unfolding rank
  rank-le-length [] k = omega arith
  rank-le-length (x ∷ xs) k = ground (arith, rank-le-length xs k)

  probe_below : (xs : List A) (k : Bytes) (i : ℕ) → i < rank xs k → probe key xs k i ≡ Ordering.lt
  unfolding rank
  probe_below [] k i h = refl
  probe_below (x ∷ xs) k zero h = ground (arith, compare_bytes-lex (key x) k)
  probe_below (x ∷ xs) k (suc i) h = ground (arith, probe_below xs k i)

  -- Past an element that is above the key, all are.
  probe-Above :
      (j k : Bytes) (xs : List A) (i : ℕ)
      → lex k j ≡ Ordering.lt
      → Above key j xs
      → i < length xs
      → probe key xs k i ≡ Ordering.gt
  probe-Above j k [] i h v l = absurd (omega arith)
  probe-Above j k (x ∷ xs) zero h v l =
      let a = Above-trans key k j (x ∷ xs) h v in
      ground (arith, compare_bytes-lex (key x) k, lex-flip k (key x))
  probe-Above j k (x ∷ xs) (suc i) h v l = probe-Above j k xs i h v.1 (omega arith)

  probe_eq :
      (j k : Bytes) (xs : List A) (i : ℕ)
      → lex j k ≡ Ordering.eq
      → Above key j xs
      → i < length xs
      → probe key xs k i ≡ Ordering.gt
  probe_eq j k [] i h v l = absurd (omega arith)
  probe_eq j k (x ∷ xs) zero h v l =
      ground (arith, compare_bytes-lex (key x) k, lex-flip j (key x), eq_of_lex j k)
  probe_eq j k (x ∷ xs) (suc i) h v l = probe_eq j k xs i h v.1 (omega arith)

  probe_past : (xs : List A) (k : Bytes) (i : ℕ) → length xs ≤ i → probe key xs k i ≡ Ordering.lt
  probe_past xs k i h = rw (get_elem?_past xs i h, probe)

  probe_at :
      (xs : List A) (k : Bytes)
      → rank xs k < length xs
      → (probe key xs k (rank xs k) ≡ Ordering.gt) ⊎ (probe key xs k (rank xs k) ≡ Ordering.eq)
  unfolding rank
  probe_at [] k h = absurd (omega arith)
  probe_at (x ∷ xs) k h = ground (arith, probe_at xs k, compare_bytes-lex (key x) k)

  probe_over :
      (xs : List A) (k : Bytes) (i : ℕ)
      → IsSorted key xs
      → rank xs k < i
      → i < length xs
      → probe key xs k i ≡ Ordering.gt
  unfolding rank
  probe_over [] k i s h l = absurd (omega arith)
  probe_over (x ∷ xs) k zero s h l = absurd (omega arith)
  probe_over (x ∷ xs) k (suc i) s h l = ground (
    arith,
    probe_over xs k i,
    probe_eq (key x) k xs i,
    probe-Above (key x) k xs i,
    lex-flip (key x) k,
  )

  rank-IsRank :
      (xs : List A) (k : Bytes) → IsSorted key xs → IsRank (probe key xs k) (length xs) (rank xs k)
  rank-IsRank xs k s = record {
    bounded = rank-le-length xs k;
    below = probe_below xs k;
    at = probe_at xs k;
    above = λ i. probe_over xs k i s;
    past = probe_past xs k;
  }

  -- The search of a sorted vector ends, at the rank of the key.
  search_key-Lands :
      (xs : List A) (k : Bytes)
      → IsSorted key xs
      → (slot : Slot) × (search_key key xs k ≡ some slot)
        × Lands (probe key xs k) (length xs) (rank xs k) slot
  unfolding search_key
  search_key-Lands xs k s =
      bisect-Lands _ _ _ (rank-IsRank xs k s) (suc (length xs)) 0 (length xs) (omega arith)
        (omega arith) (rank-le-length xs k) (omega arith) (inl refl) (inl refl)

  -- Insertion at the rank, after erasing what is equal there.
  put_at_rank :
      (a : A) (xs : List A)
      → put key a xs
        ≡ insert_at (rank xs (key a)) a (
            if is_eq (probe key xs (key a) (rank xs (key a)))
            then erase_at (rank xs (key a)) xs
            else xs)
  unfolding put rank
  put_at_rank a [] = refl
  put_at_rank a (x ∷ xs) = ground (arith, put_at_rank a xs, compare_bytes-lex (key x) (key a))

  store_slot :
      (a : A) (xs : List A) (slot : Slot)
      → search_key key xs (key a) ≡ some slot
      → Lands (probe key xs (key a)) (length xs) (rank xs (key a)) slot
      → store key a xs ≡ (put key a xs, rank xs (key a))
  unfolding store
  store_slot a xs (found i) run l = rw (run, store) (ground (arith, put_at_rank a xs))
  store_slot a xs (after i) run l = rw (run, store) (ground (arith, put_at_rank a xs))
  store_slot a xs (before i) run l = rw (run, store) (ground (arith, put_at_rank a xs))

  -- `insert` on a sorted vector is ordered insertion, and returns the rank.
  pub store-put :
      (a : A) (xs : List A) → IsSorted key xs → store key a xs ≡ (put key a xs, rank xs (key a))
  store-put a xs s =
      let (slot, run, lands) = search_key-Lands xs (key a) s in store_slot a xs slot run lands

  -- The returned position holds the new element.
  pub get_elem?-put : (a : A) (xs : List A) → get_elem? (put key a xs) (rank xs (key a)) ≡ some a
  unfolding put rank
  get_elem?-put a [] = refl
  get_elem?-put a (x ∷ xs) = ground (arith, get_elem?-put a xs)

  lookup_at_rank :
      (xs : List A) (k : Bytes)
      → IsSorted key xs
      → lookup key k xs
        ≡ (if is_eq (probe key xs k (rank xs k)) then get_elem? xs (rank xs k) else none)
  unfolding lookup rank
  lookup_at_rank [] k s = refl
  lookup_at_rank (x ∷ xs) k s = ground (
    arith,
    lookup_at_rank xs k s.1,
    compare_bytes-lex (key x) k,
    lookup-Above key k xs,
    Above-trans key k (key x) xs,
    lex-flip (key x) k,
  )

  erase_at-rank :
      (xs : List A) (k : Bytes)
      → IsSorted key xs
      → remove key k xs
        ≡ (if is_eq (probe key xs k (rank xs k)) then erase_at (rank xs k) xs else xs)
  unfolding remove rank
  erase_at-rank [] k s = refl
  erase_at-rank (x ∷ xs) k s = ground (
    arith,
    erase_at-rank xs k s.1,
    compare_bytes-lex (key x) k,
    remove-Above key k xs,
    Above-trans key k (key x) xs,
    lex-flip (key x) k,
  )

  index_slot :
      (xs : List A) (k : Bytes) (slot : Slot)
      → search_key key xs k ≡ some slot
      → Lands (probe key xs k) (length xs) (rank xs k) slot
      → index_of key xs k ≡ (if is_eq (probe key xs k (rank xs k)) then rank xs k else length xs)
  unfolding index_of
  index_slot xs k (found i) run l = rw (run, index_of) (ground arith)
  index_slot xs k (after i) run l = rw (run, index_of) (ground arith)
  index_slot xs k (before i) run l = rw (run, index_of) (ground arith)

  index_of-rank :
      (xs : List A) (k : Bytes)
      → IsSorted key xs
      → index_of key xs k ≡ (if is_eq (probe key xs k (rank xs k)) then rank xs k else length xs)
  index_of-rank xs k s =
      let (slot, run, lands) = search_key-Lands xs k s in index_slot xs k slot run lands

  -- `find` points at what the map holds, and at the end for a key that it lacks.
  pub get_elem?-index_of :
      (xs : List A) (k : Bytes)
      → IsSorted key xs
      → get_elem? xs (index_of key xs k) ≡ lookup key k xs
  get_elem?-index_of xs k s =
      rw (index_of-rank xs k s, lookup_at_rank xs k s)
        (ground (arith, get_elem?_past xs (length xs)))

  -- Erasing at the index that `find` returns removes the key.
  pub erase_at-index_of :
      (xs : List A) (k : Bytes)
      → IsSorted key xs
      → erase_at (index_of key xs k) xs ≡ remove key k xs
  erase_at-index_of xs k s =
      rw (index_of-rank xs k s, erase_at-rank xs k s) (ground (arith, erase_at_past xs (length xs)))

  pub index_of-le : (xs : List A) (k : Bytes) → IsSorted key xs → index_of key xs k ≤ length xs
  index_of-le xs k s = ground (arith, index_of-rank xs k s, rank-le-length xs k)
