-- ===== src/Attrs/Map.antt =====
-- `K2HAttrs` of lib/k2hattrs.cc as a finite map from names to attributes: a vector strictly sorted by
-- names that are not empty.
use k2hash.Base.{
  ℕ, ◌<◌, ◌≡◌, refl, ◌∙◌, Option-cases, ◌⊎◌, inl, inr, Bool, true, false, Option, none, some, [],
  ◌∷◌, ◌++◌, arith, is_eq, if◌then◌else◌, ◌==◌, length, get_elem?, append_assoc, append-nil,
  get_elem?_past, get_elem?_within, erase_at_past,
}
use k2hash.Bytes.{Bytes}
use k2hash.Bytes.Order.{lex}
use k2hash.Search.{index_of, store}
use k2hash.Search.Append.{store_last}
use k2hash.Search.Sorted.{
  IsSorted, lookup, put, remove, put-IsSorted, remove-IsSorted, lookup-put, lookup-remove,
}
use k2hash.Search.Vector.{
  store-put, get_elem?-put, get_elem?-index_of, erase_at-index_of, index_of-le,
}
use k2hash.Attrs.{Attr, attr, Attrs, key, find, erase, insert, insert_all, assign}

abbrev pub Named : Attrs → Type 0
Named [] = Unit {0}
Named (a ∷ m) = (0 < length a.pkey) × Named m

pub record IsValid (m : Attrs) : Type 0 where
  pub sorted : IsSorted key m
  pub named : Named m

Named-put : (a : Attr) (m : Attrs) → 0 < length a.pkey → Named m → Named (put key a m)
unfolding put
Named-put a [] h f = (h, tt)
Named-put a (x ∷ m) h f = ground (arith, Named-put a m)

Named-remove : (k : Bytes) (m : Attrs) → Named m → Named (remove key k m)
unfolding remove
Named-remove k [] f = tt
Named-remove k (x ∷ m) f = ground (arith, Named-remove k m)

module _ (malloc : ℕ → Bool) where
  -- The memory that a copy of the attribute needs.
  abbrev pub Room : Bytes → Bytes → Type 0
  Room k v = (malloc (length k) ≡ true) × ((length v ≡ 0) ⊎ (malloc (length v) ≡ true))

  abbrev pub Allocates : Attrs → Type 0
  Allocates [] = Unit {0}
  Allocates (a ∷ m) = Room a.pkey a.pval × Allocates m

  length_zero : (v : Bytes) → length v ≡ 0 → v ≡ []
  length_zero [] h = refl
  length_zero (x ∷ v) h = absurd (omega arith)

  insert_stores :
      (m : Attrs) (k v : Bytes)
      → 0 < length k
      → Room k v
      → insert malloc m (some k) v ≡ store key (attr k v) m
  unfolding insert
  insert_stores m k v h ok = ground (arith, length_zero v)

  -- What `insert` does with a name that is not empty, if its memory can be allocated.
  pub record Added (m : Attrs) (k v : Bytes) (r : Attrs × ℕ) : Type 0 where
    pub valid : IsValid r.0
    pub at : get_elem? r.0 r.1 ≡ some (attr k v)
    pub reads :
        (j : Bytes)
        → lookup key j r.0 ≡ (if is_eq (lex k j) then some (attr k v) else lookup key j m)

  -- In a valid vector, `insert` of an attribute whose name is not empty, with memory for name and
  -- value, keeps the vector valid, returns the place of the new element, and changes the map at
  -- that name alone, whatever value stood there.
  pub insert-Added :
      (m : Attrs) (k v : Bytes)
      → IsValid m
      → 0 < length k
      → Room k v
      → Added m k v (insert malloc m (some k) v)
  insert-Added m k v ok h room =
      rw (insert_stores m k v h room, store-put key (attr k v) m ok.sorted)
        (record {
          valid = record {
            sorted = put-IsSorted key (attr k v) m ok.sorted;
            named = Named-put (attr k v) m h ok.named;
          };
          at = get_elem?-put key (attr k v) m;
          reads = λ j. lookup-put key j (attr k v) m ok.sorted;
        })

  -- An element above all others goes to the end.
  pub insert_last :
      (m : Attrs) (a : Attr) (rest : Attrs)
      → IsSorted key (m ++ a ∷ rest)
      → 0 < length a.pkey
      → Room a.pkey a.pval
      → (insert malloc m (some a.pkey) a.pval).0 ≡ m ++ a ∷ []
  insert_last m a rest s h ok = rw (insert_stores m a.pkey a.pval h ok) (store_last key m a rest s)

  insert_all_runs :
      (rest done : Attrs)
      → Allocates rest
      → IsSorted key (done ++ rest)
      → Named rest
      → insert_all malloc rest done ≡ done ++ rest
  unfolding insert_all
  insert_all_runs [] done ok s f = rw append-nil
  insert_all_runs (a ∷ rest) done ok s f = rw (insert_last done a rest s f.0 ok.0) (
      insert_all_runs rest (done ++ a ∷ []) ok.1 (rw append_assoc s) f.1
      ∙ append_assoc done (a ∷ []) rest)

  -- `operator=` makes an object equal to the other one, whatever it held before.
  pub assign_lem :
      (m other : Attrs) → IsValid other → Allocates other → assign malloc m other ≡ other
  unfolding assign
  assign_lem m other v ok = insert_all_runs other [] ok v.sorted v.named

-- `find` returns the position of the name, and the end exactly where the map lacks it.
pub find-lookup :
    (m : Attrs) (k : Bytes)
    → IsValid m
    → 0 < length k
    → get_elem? m (find m (some k)) ≡ lookup key k m
unfolding find
find-lookup m k v h = ground (arith, get_elem?-index_of key m k v.sorted)

abbrev pub is_some : Option Attr → Bool
is_some none = false
is_some (some _) = true

-- What `erase` does with a name that is not empty: it says whether the map had it, and takes it,
-- and nothing else, out of the map.
pub record Dropped (m : Attrs) (k : Bytes) (r : Bool × Attrs) : Type 0 where
  pub valid : IsValid r.1
  pub was : r.0 ≡ is_some (lookup key k m)
  pub reads : (j : Bytes) → lookup key j r.1 ≡ (if is_eq (lex k j) then none else lookup key j m)

-- Whether `find` stops before the end.
find_stops :
    (m : Attrs) (k : Bytes)
    → IsSorted key m
    → is_some (lookup key k m) ≡ (if index_of key m k == length m then false else true)
find_stops m k s = elim (Option-cases (lookup key k m)) [
  | inl e ↦ ground (
    arith,
    get_elem?-index_of key m k s,
    get_elem?_within m (index_of key m k),
    index_of-le key m k s,
  )
  | inr (a, e) ↦ ground (arith, get_elem?-index_of key m k s, get_elem?_past m (index_of key m k))
]

erase_runs :
    (m : Attrs) (k : Bytes)
    → IsSorted key m
    → 0 < length k
    → ((erase m (some k)).1 ≡ remove key k m) × ((erase m (some k)).0 ≡ is_some (lookup key k m))
unfolding erase
erase_runs m k s h =
    ground
      (arith, find_stops m k s, erase_at-index_of key m k s, erase_at_past m (index_of key m k))

-- `erase` of a name that is not empty keeps a valid vector valid, says whether the name was there,
-- and changes the map at that name alone, where nothing is left.
pub erase-Dropped :
    (m : Attrs) (k : Bytes) → IsValid m → 0 < length k → Dropped m k (erase m (some k))
erase-Dropped m k v h =
    let (run, was) = erase_runs m k v.sorted h in
    record {
      valid =
          rw run (record {
            sorted = remove-IsSorted key k m v.sorted;
            named = Named-remove k m v.named;
          });
      was = was;
      reads = λ j. rw run (lookup-remove key j k m v.sorted);
    }
