-- ===== src/Search.antt =====
-- The binary search that lib/k2hsubkeys.cc and lib/k2hattrs.cc run over their sorted vectors, and
-- the changes that `find` and `insert` make with its result.
pub mod Append
pub mod Bisect
pub mod Sorted
pub mod Vector
use k2hash.Base.{
  ℕ, zero, suc, ◌+◌, ◌/◌, Ordering, Option, none, some, List, ◌==◌, if◌then◌else◌, leb, Bool, true,
  false, length, get_elem?, insert_at, erase_at,
}
use k2hash.Bytes.{Bytes, compare_bytes}

-- How the loop ends: at an equal element, or with the place of insertion after or before one.
pub data Slot : Type 0 where
  found : ℕ → Slot
  after : ℕ → Slot
  before : ℕ → Slot

-- The loop `while(true)`. `probe i` is `nResult` for the element at `i`, and `lt` past the end.
-- `none` means that the fuel ran out.
unfoldable pub bisect : (ℕ → Ordering) → ℕ → ℕ → ℕ → Option Slot
bisect probe zero start end = none
bisect probe (suc fuel) start end =
    let mid = (start + end) / 2 in
    let upper = bisect probe fuel mid end in
    let lower = bisect probe fuel start mid in
    elim (probe mid) [
      | Ordering.eq ↦ some (found mid)
      | Ordering.lt ↦ if start == mid then some (after mid) else upper
      | Ordering.gt ↦ if end == mid then some (before mid) else lower
    ]

-- Where `insert` puts the new element, in a vector of `size` elements.
abbrev pub position : ℕ → Slot → ℕ
position size (found i) = i
position size (after i) = if leb size (i + 1) then size else i + 1
position size (before i) = i

abbrev pub is_found : Slot → Bool
is_found (found i) = true
is_found (after i) = false
is_found (before i) = false

module _ {A : Type 0} (key : A → Bytes) where
  -- `nResult` at position `i`.
  abbrev pub probe : List A → Bytes → ℕ → Ordering
  probe xs k i = elim (get_elem? xs i) [ none ↦ Ordering.lt | some x ↦ compare_bytes (key x) k ]

  -- The search over the whole vector; each round shrinks `EndPos - StartPos`.
  unfoldable pub search_key : List A → Bytes → Option Slot
  search_key xs k = bisect (probe xs k) (suc (length xs)) 0 (length xs)

  -- The index that `find` returns, the size of the vector standing for `end()`.
  unfoldable pub index_of : List A → Bytes → ℕ
  index_of xs k = elim (search_key xs k) [
    | none ↦ length xs
    | some (found i) ↦ i
    | some (after i) ↦ length xs
    | some (before i) ↦ length xs
  ]

  -- The second half of `insert`: erase an equal element, and insert the new one in its order.
  -- With the vector it returns the index of the new element.
  unfoldable pub store : A → List A → List A × ℕ
  store a xs = elim (search_key xs (key a)) [
    | none ↦ (xs, length xs)
    | some (found i) ↦ (insert_at i a (erase_at i xs), i)
    | some (after i) ↦ let p = position (length xs) (after i) in (insert_at p a xs, p)
    | some (before i) ↦ (insert_at i a xs, i)
  ]
