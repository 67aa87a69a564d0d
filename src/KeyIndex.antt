-- ===== src/KeyIndex.antt =====
-- The double array of key indexes: how lib/k2hshminit.cc builds it, how lib/k2hshm.cc adds an array
-- when the mask grows, and how it finds the key index of a hash.
pub mod Array
pub mod Expand
pub mod Lookup
pub mod Assigned
use k2hash.Base.{
  ℕ, zero, suc, ◌+◌, ◌-◌, ◌*◌, ◌^◌, ◌%◌, bit_and, Bool, true, false, Option, none, some, List, [],
  ◌∷◌, ◌==◌, ltb, leb, if◌then◌else◌, get_elem?,
}
use k2hash.Mask.{shift_left, shift_right, make_mask, get_mask_bit_count, KIndexPos, get_kindex_pos}

-- `KINDEX`; `ckey_list` is the number of its first collision key index.
pub record KIndex : Type 0 where
  pub assign : Bool
  pub shifted_mask : ℕ
  pub masked_hash : ℕ
  pub ckey_list : ℕ

-- The fields of `K2H` that these functions use. `key_index_area` is the array of pointers, `none`
-- being a pointer that is not set.
pub record Head : Type 0 where
  pub max_mask : ℕ
  pub cur_mask : ℕ
  pub collision_mask : ℕ
  pub max_element_count : ℕ
  pub key_index_area : ℕ → Option (List KIndex)

-- `INIT_KINDEX_CNT`, `CKINDEX_BYKINDEX_CNT`: `1L << bitcnt`.
abbrev pub init_kindex_count : ℕ → ℕ
init_kindex_count bitcnt = 2 ^ bitcnt

-- `InitializeKeyIndexArray`, the entries from a position on; `start_hash` grows with it.
unfoldable pub init_kindex_array :
    (count start_hash cur_mask cmask_bitcnt ckey : ℕ) → Bool → List KIndex
init_kindex_array zero start_hash cur_mask cmask_bitcnt ckey assign = []
init_kindex_array (suc count) start_hash cur_mask cmask_bitcnt ckey assign =
    record {
      assign = assign;
      shifted_mask = shift_left cur_mask cmask_bitcnt;
      masked_hash = bit_and (shift_left start_hash cmask_bitcnt) (shift_left cur_mask cmask_bitcnt);
      ckey_list = ckey;
    }
    ∷ init_kindex_array count (start_hash + 1) cur_mask cmask_bitcnt
        (ckey + init_kindex_count cmask_bitcnt) assign

-- One pointer of the array set.
unfoldable pub set_area : (ℕ → Option (List KIndex)) → ℕ → List KIndex → ℕ → Option (List KIndex)
set_area areas i array j = if j == i then some array else areas j

-- The loop of `InitializeFile` over the bit counts, with the rounds that are left.
unfoldable pub init_areas_loop :
    (rounds bitcnt cur_hash cur_mask cmask_bitcnt ckey : ℕ)
    → (ℕ → Option (List KIndex))
    → ℕ
    → Option (List KIndex)
init_areas_loop zero bitcnt cur_hash cur_mask cmask_bitcnt ckey areas = areas
init_areas_loop (suc rounds) bitcnt cur_hash cur_mask cmask_bitcnt ckey areas =
    let count = 2 ^ (if ltb 0 bitcnt then bitcnt - 1 else bitcnt) in
    init_areas_loop rounds (bitcnt + 1) (cur_hash + count) cur_mask cmask_bitcnt
      (ckey + count * init_kindex_count cmask_bitcnt)
      (set_area areas bitcnt (init_kindex_array count cur_hash cur_mask cmask_bitcnt ckey true))

-- The head that `InitializeFile` makes; `MAX_MASK_BITCOUNT` is 28.
unfoldable pub init_head : (mask_bitcnt cmask_bitcnt max_element_count : ℕ) → Head
init_head mask_bitcnt cmask_bitcnt max_element_count = record {
  max_mask = make_mask 28;
  cur_mask = make_mask mask_bitcnt;
  collision_mask = make_mask cmask_bitcnt;
  max_element_count = max_element_count;
  key_index_area =
      init_areas_loop (mask_bitcnt + 1) 0 0 (make_mask mask_bitcnt)
        (get_mask_bit_count (make_mask cmask_bitcnt)) 0 (λ _. none);
}

-- `ExpandKIndexArea`. `ckey` is where `ExpandArea` put the new collision key indexes, and
-- `has_kindex` tells whether it got the area for the key indexes; either may fail.
unfoldable pub expand_kindex_area : Head → Option ℕ → Bool → Bool × Head
expand_kindex_area h none has_kindex = (false, h)
expand_kindex_area h (some ckey) false = (false, h)
expand_kindex_area h (some ckey) true =
    let bits = get_mask_bit_count h.cur_mask in
    let new_cur_mask = (shift_left h.cur_mask 1 + 1) % 2 ^ 64 in
    let array =
      init_kindex_array (init_kindex_count bits) (2 ^ bits) new_cur_mask
        (get_mask_bit_count h.collision_mask) ckey false in
    (
      true,
      record h {
        cur_mask = new_cur_mask;
        key_index_area = set_area h.key_index_area (get_mask_bit_count new_cur_mask) array;
      },
    )

-- The test of `CheckExpandingKeyArea`: there is nothing to do.
abbrev pub is_enough : Head → ℕ → Bool
is_enough h element_count =
    if leb element_count h.max_element_count then true else leb h.max_mask h.cur_mask

-- `CheckExpandingKeyArea`. Between its read lock and its write lock another process may have changed
-- the head and the count, so it sees two of each, the second only if the first asks for more.
unfoldable pub check_expanding_key_area :
    (seen : Head) (seen_count : ℕ) (h : Head) (count : ℕ) → Option ℕ → Bool → Bool × Head
unfolding expand_kindex_area
check_expanding_key_area seen seen_count h count ckey has_kindex =
    if is_enough seen seen_count
    then (true, seen)
    else if is_enough h count
    then (true, h)
    else expand_kindex_area h ckey has_kindex

-- `GetReservedKIndex`: `none` is NULL, or an entry that no array has.
unfoldable pub get_reserved_kindex : Head → ℕ → Option ℕ → Option KIndex
get_reserved_kindex h hash mask = elim (get_kindex_pos h.cur_mask h.collision_mask hash mask) [
  | none ↦ none
  | some p ↦ elim (h.key_index_area p.ptr_array_pos) [
    | none ↦ none
    | some array ↦ get_elem? array p.array_pos
  ]
]

-- The loop of `GetKIndex` without a merge: the key index under ever smaller masks, until one is
-- assigned; `last` is the one tried before. The outer `none` means that the fuel ran out.
unfoldable pub get_kindex_loop : ℕ → Head → (hash mask : ℕ) → Option KIndex → Option (Option KIndex)
get_kindex_loop zero h hash mask last = none
get_kindex_loop (suc fuel) h hash mask last = elim (mask == 0) [
  | true ↦ some last
  | false ↦ elim (get_reserved_kindex h hash (some mask)) [
    | none ↦ some none
    | some k ↦ elim k.assign [
      | true ↦ some (some k)
      | false ↦ get_kindex_loop fuel h hash (shift_right mask 1) (some k)
    ]
  ]
]

-- `GetKIndex` with `isMergeCurmask` false; a word has at most 64 masks that are not 0.
unfoldable pub get_kindex : Head → ℕ → Option (Option KIndex)
unfolding get_kindex_loop
get_kindex h hash = get_kindex_loop 65 h hash h.cur_mask none

-- `GetCKIndex` of a key index: the number of the collision key index of a hash.
unfoldable pub get_ckindex : Head → KIndex → ℕ → ℕ
get_ckindex h k hash = k.ckey_list + bit_and hash h.collision_mask
