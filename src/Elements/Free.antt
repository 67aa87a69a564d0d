-- ===== src/Elements/Free.antt =====
-- `ReserveElement`, `PutBackElement` and `InitializeElementArray`: the elements that no key has, a
-- list in both directions over `same` and `parent`.
use k2hash.Base.{ℕ, zero, suc, ◌+◌, ◌-◌, Option, none, some, ◌==◌, ltb, if◌then◌else◌}
use k2hash.Elements.{Element, Store, put_element, set_parent}

-- The fields of `K2H` that these functions use.
pub record FreeList : Type 0 where
  pub pfree_elements : ℕ
  pub free_element_count : ℕ

-- The element that `InitializeElementArray` writes; it leaves `attrs` and `attrlength` as the new
-- area has them, which is 0.
unfoldable pub fresh_element : (parent same : ℕ) → Element
fresh_element parent same = record {
  small = 0;
  big = 0;
  parent = parent;
  same = same;
  hash = 0;
  subhash = 0;
  key = 0;
  value = 0;
  subkeys = 0;
  attrs = 0;
  keylength = 0;
  vallength = 0;
  skeylength = 0;
  attrlength = 0;
}

-- The loop of `InitializeElementArray`: `count` elements of `size` bytes from `pos` on, linked both
-- ways, the last one to the old list.
unfoldable pub initialize_element_array : (size : ℕ) → Store → (pos parent last : ℕ) → ℕ → Store
unfolding fresh_element
initialize_element_array size h pos parent last zero = h
initialize_element_array size h pos parent last (suc zero) =
    put_element h pos (fresh_element parent last)
initialize_element_array size h pos parent last (suc (suc count)) =
    initialize_element_array size (put_element h pos (fresh_element parent (pos + size)))
      (pos + size) pos last (suc count)

-- `ReserveElement` after the free list has one: its first element, off the list.
unfoldable pub take_free : Store → FreeList → ℕ × Store × FreeList
take_free h free =
    let e = free.pfree_elements in
    let next = (h e).same in
    let h1 = if next == 0 then h else set_parent h next 0 in
    (
      e,
      put_element h1 e (record (h1 e) { parent = 0; same = 0; small = 0; big = 0 }),
      record {
        pfree_elements = next;
        free_element_count =
            if ltb 0 free.free_element_count then free.free_element_count - 1 else 0;
      },
    )

-- `ReserveElement`. `expand` is what `ExpandElementArea` leaves: nothing when it fails.
unfoldable pub reserve_element :
    Store → FreeList → Option (Store × FreeList) → Option (ℕ × Store × FreeList)
unfolding take_free
reserve_element h free expand =
    if free.pfree_elements == 0
    then elim expand [
      | none ↦ none
      | some r ↦ if r.1.pfree_elements == 0 then none else some (take_free r.0 r.1)
    ]
    else some (take_free h free)

-- `PutBackElement`
unfoldable pub put_back_element : Store → FreeList → ℕ → Store × FreeList
put_back_element h free e =
    let top = free.pfree_elements in
    let h1 = if top == 0 then h else set_parent h top e in
    (
      put_element h1 e (record (h1 e) {
        small = 0;
        big = 0;
        parent = 0;
        same = top;
        hash = 0;
        subhash = 0;
        key = 0;
        value = 0;
        subkeys = 0;
      }),
      record { pfree_elements = e; free_element_count = free.free_element_count + 1 },
    )
