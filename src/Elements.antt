-- ===== src/Elements.antt =====
-- The elements of lib/k2hshm.cc: the free list, and the binary tree that a collision key index
-- holds, in a store of elements by their offsets. Offset 0 is NULL.
pub mod Store
pub mod Holds
pub mod Insert
pub mod Find
pub mod Attach
pub mod Behind
pub mod Append
pub mod Free
pub mod FreeList
pub mod Initialize
pub mod Steps
pub mod Undo
pub mod TakeBack
pub mod Move
pub mod Stale
pub mod TakeOff
use k2hash.Base.{
  ℕ, zero, suc, ◌+◌, ◌-◌, Bool, true, false, Option, none, some, ◌==◌, ltb, if◌then◌else◌,
}

-- `ELEMENT`: the links, the two hashes, the pages and their lengths.
pub record Element : Type 0 where
  pub small : ℕ
  pub big : ℕ
  pub parent : ℕ
  pub same : ℕ
  pub hash : ℕ
  pub subhash : ℕ
  pub key : ℕ
  pub value : ℕ
  pub subkeys : ℕ
  pub attrs : ℕ
  pub keylength : ℕ
  pub vallength : ℕ
  pub skeylength : ℕ
  pub attrlength : ℕ

-- `CKINDEX`
pub record CkIndex : Type 0 where
  pub element_count : ℕ
  pub element_list : ℕ

-- The mapped file, as far as elements go.
abbrev pub Store : Type 0
Store = ℕ → Element

-- One element overwritten.
unfoldable pub put_element : Store → ℕ → Element → Store
put_element h p e q = if q == p then e else h q

abbrev pub set_small : Store → ℕ → ℕ → Store
set_small h p v = put_element h p (record (h p) { small = v })

abbrev pub set_big : Store → ℕ → ℕ → Store
set_big h p v = put_element h p (record (h p) { big = v })

abbrev pub set_parent : Store → ℕ → ℕ → Store
set_parent h p v = put_element h p (record (h p) { parent = v })

abbrev pub set_same : Store → ℕ → ℕ → Store
set_same h p v = put_element h p (record (h p) { same = v })

-- `GetElementList` from an element on; the fuel counts the steps down, `none` that it ran out.
unfoldable pub get_element_list : ℕ → Store → (p hash subhash : ℕ) → Option ℕ
get_element_list zero h p hash subhash = none
get_element_list (suc fuel) h p hash subhash =
    let below =
      get_element_list fuel h (if ltb subhash (h p).subhash then (h p).small else (h p).big) hash
        subhash in
    if p == 0
    then some 0
    else if subhash == (h p).subhash
    then (if hash == (h p).hash then some p else some 0)
    else below

-- `GetElementList` of a collision key index.
unfoldable pub get_ckindex_list : ℕ → Store → CkIndex → (hash subhash : ℕ) → Option ℕ
unfolding get_element_list
get_ckindex_list fuel h ck hash subhash =
    if ck.element_count == 0 then some 0 else get_element_list fuel h ck.element_list hash subhash

-- `GetElementListUpCount`: the elements below and at `p`, `none` when the fuel runs out.
unfoldable pub get_element_list_up_count : ℕ → Store → ℕ → Option ℕ
get_element_list_up_count zero h p = none
get_element_list_up_count (suc fuel) h p =
    let small = get_element_list_up_count fuel h (h p).small in
    let big = get_element_list_up_count fuel h (h p).big in
    let same = get_element_list_up_count fuel h (h p).same in
    if p == 0 then some 0 else elim small [
      | none ↦ none
      | some s ↦ elim big [
        | none ↦ none
        | some b ↦ elim same [ none ↦ none | some m ↦ some (1 + s + b + m) ]
      ]
    ]

-- The loop of `InsertElement` to the last of the elements of one second hash.
unfoldable pub last_same : ℕ → Store → ℕ → Option ℕ
last_same zero h p = none
last_same (suc fuel) h p =
    let rest = last_same fuel h (h p).same in if (h p).same == 0 then some p else rest

-- `InsertElement`, with false for NULL; `none` when the fuel runs out.
unfoldable pub insert_element : ℕ → Store → (top e : ℕ) → Option (Bool × Store)
unfolding last_same
insert_element zero h top e = none
insert_element (suc fuel) h top e =
    let is_big = ltb (h top).subhash (h e).subhash in
    let next = if is_big then (h top).big else (h top).small in
    let below = insert_element fuel h next e in
    if (if top == 0 then true else e == 0)
    then some (false, h)
    else if (h top).subhash == (h e).subhash
    then elim (last_same (suc fuel) h top) [
      | none ↦ none
      | some last ↦ some (true, set_parent (set_same h last e) e last)
    ]
    else if next == 0
    then some (true, set_parent (if is_big then set_big h top e else set_small h top e) e top)
    else below

-- `GetElement` along the elements of one second hash. `compare` is whether the pages of an element
-- hold the key; it is false for an element whose pages cannot be read.
unfoldable pub get_element : ℕ → (ℕ → Bool) → Store → ℕ → Option ℕ
get_element zero compare h p = none
get_element (suc fuel) compare h p =
    let rest = get_element fuel compare h (h p).same in
    if p == 0 then some 0 else if compare p then some p else rest

-- `GetElement` of a key under a collision key index: the list of its second hash, and the key in it.
unfoldable pub find_element : ℕ → (ℕ → Bool) → Store → CkIndex → (hash subhash : ℕ) → Option ℕ
find_element fuel compare h ck hash subhash = elim (get_ckindex_list fuel h ck hash subhash) [
  | none ↦ none
  | some p ↦ if p == 0 then some 0 else get_element fuel compare h p
]
