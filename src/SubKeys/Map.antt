-- ===== src/SubKeys/Map.antt =====
-- `K2HSubKeys` of lib/k2hsubkeys.cc as a finite map from byte strings: a strictly sorted vector of
-- subkeys that are not empty.
use k2hash.Base.{
  ℕ, ◌<◌, ◌≡◌, refl, ◌∙◌, Option-cases, ◌⊎◌, inl, inr, Bool, true, false, Option, none, some, [],
  ◌∷◌, ◌++◌, arith, is_eq, if◌then◌else◌, ◌==◌, length, get_elem?, append_assoc, append-nil,
  get_elem?_past, get_elem?_within, erase_at_past,
}
use k2hash.Bytes.{Bytes}
use k2hash.Bytes.Order.{lex}
use k2hash.Search.{index_of}
use k2hash.Search.Append.{store_last}
use k2hash.Search.Sorted.{
  IsSorted, lookup, put, remove, put-IsSorted, remove-IsSorted, lookup-put, lookup-remove,
  key-lookup,
}
use k2hash.Search.Vector.{
  rank, store-put, get_elem?-put, get_elem?-index_of, erase_at-index_of, index_of-le,
}
use k2hash.SubKeys.{SubKeys, key, find, erase, insert, insert_all, assign}

abbrev pub Filled : SubKeys → Type 0
Filled [] = Unit {0}
Filled (k ∷ m) = (0 < length k) × Filled m

pub record IsValid (m : SubKeys) : Type 0 where
  pub sorted : IsSorted key m
  pub filled : Filled m

Filled-put : (k : Bytes) (m : SubKeys) → 0 < length k → Filled m → Filled (put key k m)
unfolding put
Filled-put k [] h f = (h, tt)
Filled-put k (x ∷ m) h f = ground (arith, Filled-put k m)

Filled-remove : (k : Bytes) (m : SubKeys) → Filled m → Filled (remove key k m)
unfolding remove
Filled-remove k [] f = tt
Filled-remove k (x ∷ m) f = ground (arith, Filled-remove k m)

module _ (malloc : ℕ → Bool) where
  -- What `insert` does with a subkey that is not empty, if its memory can be allocated.
  pub record Inserted (m : SubKeys) (k : Bytes) (r : SubKeys × ℕ) : Type 0 where
    pub valid : IsValid r.0
    pub at : get_elem? r.0 r.1 ≡ some k
    pub reads :
        (j : Bytes) → lookup key j r.0 ≡ (if is_eq (lex k j) then some k else lookup key j m)

  insert_runs :
      (m : SubKeys) (k : Bytes)
      → 0 < length k
      → malloc (length k) ≡ true
      → IsSorted key m
      → insert malloc m (some k) ≡ (put key k m, rank key m k)
  unfolding insert
  insert_runs m k h ok s = ground (arith, store-put key k m s)

  -- In a valid vector, `insert` of a subkey that is not empty, with memory for it, keeps the vector
  -- valid, returns the place of the new element, and changes the map at that subkey alone.
  pub insert-Inserted :
      (m : SubKeys) (k : Bytes)
      → IsValid m
      → 0 < length k
      → malloc (length k) ≡ true
      → Inserted m k (insert malloc m (some k))
  insert-Inserted m k v h ok = rw (insert_runs m k h ok v.sorted) (record {
    valid = record { sorted = put-IsSorted key k m v.sorted; filled = Filled-put k m h v.filled };
    at = get_elem?-put key k m;
    reads = λ j. lookup-put key j k m v.sorted;
  })

  -- Without the memory, or with a subkey that is NULL or empty, it returns the end and changes nothing.
  pub insert_refused :
      (m : SubKeys) (k : Option Bytes)
      → (k ≡ none) ⊎ (k ≡ some []) ⊎ ((b : Bytes) × (k ≡ some b) × (malloc (length b) ≡ false))
      → insert malloc m k ≡ (m, length m)
  unfolding insert
  insert_refused m none h = refl
  insert_refused m (some []) h = refl
  insert_refused m (some (x ∷ b)) h = ground arith

  -- Every element of the vector can be allocated.
  abbrev pub Allocates : SubKeys → Type 0
  Allocates [] = Unit {0}
  Allocates (k ∷ m) = (malloc (length k) ≡ true) × Allocates m

  -- An element above all others goes to the end.
  pub insert_last :
      (m : SubKeys) (k : Bytes) (rest : SubKeys)
      → IsSorted key (m ++ k ∷ rest)
      → 0 < length k
      → malloc (length k) ≡ true
      → (insert malloc m (some k)).0 ≡ m ++ k ∷ []
  unfolding insert
  insert_last m k rest s h ok = ground (arith, store_last key m k rest s)

  insert_all_runs :
      (rest done : SubKeys)
      → Allocates rest
      → IsSorted key (done ++ rest)
      → Filled rest
      → insert_all malloc rest done ≡ done ++ rest
  unfolding insert_all
  insert_all_runs [] done ok s f = rw append-nil
  insert_all_runs (k ∷ rest) done ok s f = rw (insert_last done k rest s f.0 ok.0) (
      insert_all_runs rest (done ++ k ∷ []) ok.1 (rw append_assoc s) f.1
      ∙ append_assoc done (k ∷ []) rest)

  -- `operator=` from a valid object whose elements can be allocated makes the target equal to it,
  -- whatever it held before.
  pub assign_lem :
      (m other : SubKeys) → IsValid other → Allocates other → assign malloc m other ≡ other
  unfolding assign
  assign_lem m other v ok = insert_all_runs other [] ok v.sorted v.filled

-- In a valid vector, `find` of a subkey that is not empty returns its position, and the end exactly
-- where the map lacks it.
pub find-lookup :
    (m : SubKeys) (k : Bytes)
    → IsValid m
    → 0 < length k
    → get_elem? m (find m (some k)) ≡ lookup key k m
unfolding find
find-lookup m k v h = ground (arith, get_elem?-index_of key m k v.sorted)

-- What `erase` does with a subkey that is not empty: it says whether the subkey was there, and
-- takes it, and nothing else, out of the map.
pub record Erased (m : SubKeys) (k : Bytes) (r : Bool × SubKeys) : Type 0 where
  pub valid : IsValid r.1
  pub was : lookup key k m ≡ (if r.0 then some k else none)
  pub reads : (j : Bytes) → lookup key j r.1 ≡ (if is_eq (lex k j) then none else lookup key j m)

-- Whether `find` stops before the end.
find_stops :
    (m : SubKeys) (k : Bytes)
    → IsSorted key m
    → lookup key k m ≡ (if index_of key m k == length m then none else some k)
find_stops m k s = elim (Option-cases (lookup key k m)) [
  | inl e ↦ ground (
    arith,
    get_elem?-index_of key m k s,
    get_elem?_within m (index_of key m k),
    index_of-le key m k s,
  )
  | inr (a, e) ↦ ground (
    arith,
    key-lookup key k m a e,
    get_elem?-index_of key m k s,
    get_elem?_past m (index_of key m k),
  )
]

pub erase_runs :
    (m : SubKeys) (k : Bytes)
    → IsSorted key m
    → 0 < length k
    → ((erase m (some k)).1 ≡ remove key k m)
      × (lookup key k m ≡ (if (erase m (some k)).0 then some k else none))
unfolding erase
erase_runs m k s h =
    ground
      (arith, find_stops m k s, erase_at-index_of key m k s, erase_at_past m (index_of key m k))

-- `erase` of a subkey that is not empty keeps a valid vector valid, says whether the subkey was
-- there, and changes the map at that subkey alone, where nothing is left.
pub erase-Erased :
    (m : SubKeys) (k : Bytes) → IsValid m → 0 < length k → Erased m k (erase m (some k))
erase-Erased m k v h =
    let (run, was) = erase_runs m k v.sorted h in
    record {
      valid = rw run (record {
        sorted = remove-IsSorted key k m v.sorted;
        filled = Filled-remove k m v.filled;
      });
      was = was;
      reads = λ j. rw run (lookup-remove key j k m v.sorted);
    }
