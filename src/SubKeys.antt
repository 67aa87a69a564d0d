-- ===== src/SubKeys.antt =====
-- The class `K2HSubKeys` of lib/k2hsubkeys.cc: the sorted vector of a key's subkeys, and its binary
-- form. `none` is the NULL pointer, and an iterator is the index that it stands at.
pub mod Map
pub mod Single
pub mod Stored
pub mod Truncated
use k2hash.Base.{
  ℕ, zero, suc, ◌+◌, ◌-◌, ◌^◌, Bool, true, false, Option, none, some, List, [], ◌∷◌, ◌++◌, ◌==◌,
  ltb, if◌then◌else◌, length, drop, get_elem?, erase_at,
}
use k2hash.Bytes.{Bytes, put_size, get_size, read_bytes}
use k2hash.Search.{index_of, store}

-- `SubKeys`, the member `std::vector<SUBKEY>`; an element is its bytes, of its `length`.
abbrev pub SubKeys : Type 0
SubKeys = List Bytes

abbrev pub key : Bytes → Bytes
key k = k

-- `strlen(p) + 1` bytes at `p`, the terminator included.
abbrev pub c_string : Option Bytes → Option Bytes
c_string none = none
c_string (some text) = some (text ++ 0 ∷ [])

pub find : SubKeys → Option Bytes → ℕ
unfolding index_of
find m none = length m
find m (some k) = if length k == 0 then length m else index_of key m k

-- `erase(iterator)`: nothing at the end.
unfoldable pub erase_iterator : SubKeys → ℕ → SubKeys
erase_iterator m i = if i == length m then m else erase_at i m

pub erase : SubKeys → Option Bytes → Bool × SubKeys
unfolding find erase_iterator
erase m k = let i = find m k in if i == length m then (false, m) else (true, erase_iterator m i)

-- `erase(const char*)`.
pub erase_string : SubKeys → Option Bytes → Bool × SubKeys
unfolding erase
erase_string m text = erase m (c_string text)

-- `operator++` of the iterator, which stays at the end.
pub next : SubKeys → ℕ → ℕ
next m i = if i == length m then i else i + 1

-- The vector's part of a `Serialize` for writing: each length, then the bytes.
unfoldable pub save_entries : SubKeys → Bytes
save_entries [] = []
save_entries (k ∷ m) = put_size (length k) ++ (k ++ save_entries m)

-- `tlength` without the count in front.
unfoldable pub save_length : SubKeys → ℕ
save_length [] = 0
save_length (k ∷ m) = 8 + length k + save_length m

-- How a `Serialize` for reading ends: with its return value and the vector, or by a read outside
-- of the memory that it was given.
pub data Load (M : Type 0) : Type 0 where
  loaded : Bool → M → Load M
  fault : Load M

-- `malloc n` tells whether an allocation of `n` bytes succeeds.
module _ (malloc : ℕ → Bool) where
  -- Returns the vector and the index of the new element, or of the end where it changes nothing.
  pub insert : SubKeys → Option Bytes → SubKeys × ℕ
  unfolding store
  insert m none = (m, length m)
  insert m (some k) =
      if length k == 0
      then (m, length m)
      else if malloc (length k)
      then store key k m
      else (m, length m)

  -- The same call on a pointer into memory: `at` is what may be read from there on, and `none` is a
  -- read past its end, which the code makes only once the allocation has succeeded.
  unfoldable pub insert_memory : SubKeys → Option Bytes → ℕ → Option (SubKeys × ℕ)
  unfolding store
  insert_memory m none n = some (m, length m)
  insert_memory m (some at) n =
      if n == 0
      then some (m, length m)
      else if malloc n
      then elim (read_bytes n at) [ none ↦ none | some k ↦ some (store key k m) ]
      else some (m, length m)

  -- `insert(const char*)`.
  pub insert_string : SubKeys → Option Bytes → SubKeys × ℕ
  unfolding insert
  insert_string m text = insert m (c_string text)

  pub insert_all : List Bytes → SubKeys → SubKeys
  unfolding insert
  insert_all [] m = m
  insert_all (k ∷ ks) m = insert_all ks (insert m (some k)).0

  -- `operator=`: clear, then insert each element of the other object.
  pub assign : SubKeys → SubKeys → SubKeys
  unfolding insert_all
  assign m other = insert_all other []

  -- `Serialize(unsigned char**, size_t&)`: `none` is the return value false, and `some none` a
  -- NULL buffer of length 0.
  pub save : SubKeys → Option (Option Bytes)
  unfolding save_entries save_length
  save [] = some none
  save (k ∷ m) =
      if malloc (8 + save_length (k ∷ m))
      then some (some (put_size (length (k ∷ m)) ++ save_entries (k ∷ m)))
      else none

  -- The loop over `TotalCount`: `at` is the memory from `byReadPos` on, `rest` is `rest_length`.
  unfoldable pub load_loop : ℕ → Bytes → ℕ → SubKeys → Load SubKeys
  load_loop zero at rest m = loaded true m
  load_loop (suc count) at rest m = if ltb rest 8 then loaded false m else elim (get_size at) [
    | none ↦ fault
    | some n ↦
        if ltb (rest - 8) n then loaded false m else elim (insert_memory m (some (drop 8 at)) n) [
          | none ↦ fault
          | some r ↦ load_loop count (drop n (drop 8 at)) (rest - 8 - n) r.0
        ]
  ]

  -- `Serialize(const unsigned char*, size_t)`. The buffer is the whole memory that may be read.
  pub load : Option Bytes → Load SubKeys
  load none = loaded true []
  load (some b) = if length b == 0 then loaded true [] else elim (get_size b) [
    | none ↦ fault
    | some count ↦ load_loop count (drop 8 b) (length b) []
  ]
