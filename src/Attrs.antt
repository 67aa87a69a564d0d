-- ===== src/Attrs.antt =====
-- The class `K2HAttrs` of lib/k2hattrs.cc: the vector of a key's attributes sorted by name, and its
-- binary form. `none` is the NULL pointer, and an iterator is the index that it stands at.
pub mod Map
pub mod Stored
pub mod Untrusted
use k2hash.Base.{
  ℕ, zero, suc, ◌+◌, ◌-◌, ◌^◌, ◌%◌, Bool, true, false, Option, none, some, List, [], ◌∷◌, ◌++◌,
  ◌==◌, ltb, if◌then◌else◌, length, drop, erase_at,
}
use k2hash.Bytes.{Bytes, put_size, get_size, read_bytes}
use k2hash.Search.{index_of, store}

-- `K2HATTR`; a length is that of its bytes, and a value of length 0 is NULL.
pub record Attr : Type 0 where
  pub pkey : Bytes
  pub pval : Bytes

abbrev pub attr : Bytes → Bytes → Attr
attr k v = record { pkey = k; pval = v }

abbrev pub key : Attr → Bytes
key a = a.pkey

-- `Attrs`, the member `std::vector<K2HATTR>`.
abbrev pub Attrs : Type 0
Attrs = List Attr

pub find : Attrs → Option Bytes → ℕ
find m none = length m
find m (some k) = if length k == 0 then length m else index_of key m k

-- `erase(iterator)`: nothing at the end.
unfoldable pub erase_iterator : Attrs → ℕ → Attrs
erase_iterator m i = if i == length m then m else erase_at i m

pub erase : Attrs → Option Bytes → Bool × Attrs
unfolding find erase_iterator
erase m k = let i = find m k in if i == length m then (false, m) else (true, erase_iterator m i)

-- `operator++` of the iterator, which stays at the end.
pub next : Attrs → ℕ → ℕ
next m i = if i == length m then i else i + 1

unfoldable pub save_entries : Attrs → Bytes
save_entries [] = []
save_entries (a ∷ m) =
    put_size (length a.pkey) ++ (put_size (length a.pval) ++ (a.pkey ++ (a.pval ++ save_entries m)))

-- `tlength` without the count in front.
unfoldable pub save_length : Attrs → ℕ
save_length [] = 0
save_length (a ∷ m) = 16 + length a.pkey + length a.pval + save_length m

-- `malloc n` tells whether an allocation of `n` bytes succeeds.
module _ (malloc : ℕ → Bool) where
  -- Returns the vector and the index of the new element, or of the end where it changes nothing.
  pub insert : Attrs → Option Bytes → Bytes → Attrs × ℕ
  unfolding store
  insert m none v = (m, length m)
  insert m (some k) v =
      if length k == 0
      then (m, length m)
      else if malloc (length k)
      then (if length v == 0
          then store key (attr k []) m
          else if malloc (length v)
          then store key (attr k v) m
          else (m, length m))
      else (m, length m)

  -- The same call on pointers into memory: `at` and `vat` are what may be read from `pkey` and from
  -- `pval` on, and `none` is a read past the end, made only once its allocation has succeeded.
  unfoldable pub insert_memory : Attrs → Bytes → ℕ → Bytes → ℕ → Option (Attrs × ℕ)
  unfolding store
  insert_memory m at n vat vn =
      if n == 0
      then some (m, length m)
      else if malloc n
      then elim (read_bytes n at) [
        | none ↦ none
        | some k ↦
            if vn == 0
            then some (store key (attr k []) m)
            else if malloc vn
            then elim (read_bytes vn vat) [ none ↦ none | some v ↦ some (store key (attr k v) m) ]
            else some (m, length m)
      ]
      else some (m, length m)

  pub insert_all : List Attr → Attrs → Attrs
  unfolding insert
  insert_all [] m = m
  insert_all (a ∷ as') m = insert_all as' (insert m (some a.pkey) a.pval).0

  -- `operator=`: clear, then insert each element of the other object.
  pub assign : Attrs → Attrs → Attrs
  unfolding insert_all
  assign m other = insert_all other []

  -- `Serialize(unsigned char**, size_t&)`: `none` is the return value false, and `some none` a
  -- NULL buffer of length 0.
  pub save : Attrs → Option (Option Bytes)
  unfolding save_entries save_length
  save [] = some none
  save (a ∷ m) =
      if malloc (8 + save_length (a ∷ m))
      then some (some (put_size (length (a ∷ m)) ++ save_entries (a ∷ m)))
      else none

  -- The loop over `TotalCount`: `at` is the memory from `byReadPos` on, `rest` is `rest_length`.
  -- `none` is a read outside of the buffer. The sum of a record's sizes is a `size_t` and wraps.
  unfoldable pub load_loop : ℕ → Bytes → ℕ → Attrs → Option Attrs
  load_loop zero at rest m = some m
  load_loop (suc count) at rest m = if ltb rest 16 then some m else elim (get_size at) [
    | none ↦ none
    | some n ↦ elim (get_size (drop 8 at)) [
      | none ↦ none
      | some vn ↦
          let total = (16 + n + vn) % 2 ^ 64 in
          if ltb rest total
          then some m
          else elim (insert_memory m (drop 16 at) n (drop n (drop 16 at)) vn) [
            | none ↦ none
            | some r ↦ load_loop count (drop total at) (rest - total) r.0
          ]
    ]
  ]

  -- `Serialize(const unsigned char*, size_t)`, which returns true whenever it returns.
  pub load : Option Bytes → Option Attrs
  load none = some []
  load (some b) = if ltb (length b) 8 then some [] else elim (get_size b) [
    | none ↦ none
    | some count ↦ load_loop count (drop 8 b) (length b - 8) []
  ]
