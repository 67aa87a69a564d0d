-- ===== src/KeyIndex/Expand.antt =====
-- The key index areas after `InitializeFile` and after `ExpandKIndexArea`.
use k2hash.Base.{
  ℕ, zero, suc, ◌+◌, ◌-◌, ◌^◌, ◌%◌, ◌≤◌, ◌<◌, ◌≡◌, refl, ap, ◌∙◌, Bool, true, false, Option, none,
  some, List, ◌==◌, ltb, if◌then◌else◌, arith, Bool-cases, ◌≢◌, inl, inr, lt→ltb, ==→eq, ne→==,
  ==_refl,
}
use k2hash.Bits.{ones, two_pow_suc, two_pow_pos}
use k2hash.KeyIndex.{
  KIndex, Head, set_area, init_areas_loop, init_head, expand_kindex_area, is_enough,
  check_expanding_key_area,
}
use k2hash.KeyIndex.Array.{IsArray, init_kindex_array-IsArray}
use k2hash.Mask.{shift_left, get_mask_bit_count}
use k2hash.Mask.Count.{two_pow_mono, make_mask-ones, get_mask_bit_count-width, ones-IsWidth}
use native.Mathlib.Numerals.{add-one}
use k2hash.Mask.Position.{array_size, array_start}

-- The arrays below a position are set, each with the key indexes that belong there.
abbrev pub HasArrays : ℕ → ℕ → (ℕ → Option (List KIndex)) → Type 0
HasArrays n cmask areas =
    (b : ℕ)
    → b < n
    → (array : List KIndex) × (areas b ≡ some array)
      × IsArray (array_size b) (array_start b) cmask array

-- A head of `c` bits of mask and `cmask` bits of collision mask.
pub record IsValid (c cmask : ℕ) (h : Head) : Type 0 where
  pub cur : h.cur_mask ≡ ones c
  pub collision : h.collision_mask ≡ ones cmask
  pub fits : c + cmask ≤ 64
  pub has_arrays : HasArrays (suc c) cmask h.key_index_area

set_area_same :
    (areas : ℕ → Option (List KIndex)) (i : ℕ) (array : List KIndex)
    → set_area areas i array i ≡ some array
unfolding set_area
set_area_same areas i array = rw (==_refl i) refl

pub set_area_other :
    (areas : ℕ → Option (List KIndex)) (i j : ℕ) (array : List KIndex)
    → j ≢ i
    → set_area areas i array j ≡ areas j
unfolding set_area
set_area_other areas i j array h = rw (ne→== j i (λ e. absurd (h e))) refl

HasArrays-set_area :
    (n cmask : ℕ) (areas : ℕ → Option (List KIndex)) (array : List KIndex)
    → HasArrays n cmask areas
    → IsArray (array_size n) (array_start n) cmask array
    → HasArrays (suc n) cmask (set_area areas n array)
HasArrays-set_area n cmask areas array old new b h = elim (Bool-cases (b == n)) [
  | inl e ↦ let f : b ≡ n = ==→eq b n e in rw f (array, set_area_same areas n array, new)
  | inr e ↦
      let other : b ≢ n = λ f. ground (arith, ==_refl n) in
      let (array', g, all) = old b (omega arith) in
      (array', set_area_other areas n b array other ∙ g, all)
]

init_count : (b : ℕ) → 2 ^ (if ltb 0 b then b - 1 else b) ≡ array_size b
init_count zero = refl
init_count (suc b) =
    let e : suc b - 1 ≡ b = omega arith in rw (lt→ltb 0 (suc b) (omega arith), e) refl

next_start : (b : ℕ) → array_start b + array_size b ≡ array_start (suc b)
next_start zero = refl
next_start (suc b) = omega (arith, two_pow_suc b)

start_suc : (b : ℕ) → array_start (suc b) ≡ 2 ^ b
start_suc b = refl

init_areas_loop-HasArrays :
    (rounds b c cmask ckey : ℕ) (areas : ℕ → Option (List KIndex))
    → b + rounds ≡ suc c
    → c + cmask ≤ 64
    → HasArrays b cmask areas
    → HasArrays (suc c) cmask (init_areas_loop rounds b (array_start b) (ones c) cmask ckey areas)
unfolding init_areas_loop
init_areas_loop-HasArrays zero b c cmask ckey areas e h all =
    let f : b ≡ suc c = omega arith in rw f at all
init_areas_loop-HasArrays (suc rounds) b c cmask ckey areas e h all =
    let f : b + 1 ≡ suc b = omega arith in
    rw (init_count b, next_start b, f)
      (init_areas_loop-HasArrays rounds (suc b) c cmask _ _ (omega arith) h (
        HasArrays-set_area b cmask areas _ all (
          init_kindex_array-IsArray (array_size b) (array_start b) c cmask ckey true
            (omega (arith, next_start b, start_suc b, two_pow_mono b c (omega arith))) h)))

-- The head that `InitializeFile` makes is valid, for any two bit counts that fit a word together.
pub init_head-IsValid :
    (mask_bitcnt cmask_bitcnt max_element_count : ℕ)
    → mask_bitcnt + cmask_bitcnt ≤ 64
    → IsValid mask_bitcnt cmask_bitcnt (init_head mask_bitcnt cmask_bitcnt max_element_count)
unfolding init_head
init_head-IsValid c cmask count h =
    let width : get_mask_bit_count (ones cmask) ≡ cmask =
      get_mask_bit_count-width (ones cmask) cmask (ones-IsWidth cmask) in
    record {
      cur = make_mask-ones c (omega arith);
      collision = make_mask-ones cmask (omega arith);
      fits = h;
      has_arrays =
          rw (make_mask-ones c (omega arith), make_mask-ones cmask (omega arith), width, add-one c)
            (init_areas_loop-HasArrays (suc c) 0 c cmask 0 _ (omega arith) h
              (λ b l. absurd (omega arith)));
    }

-- What `ExpandKIndexArea` did: one bit of mask more, its array set, the other arrays as they were.
pub record Expanded (c cmask : ℕ) (h h' : Head) : Type 0 where
  pub valid : IsValid (suc c) cmask h'
  pub kept : (j : ℕ) → j ≢ suc c → h'.key_index_area j ≡ h.key_index_area j

twice_ones : (c : ℕ) → c < 64 → (shift_left (ones c) 1 + 1) % 2 ^ 64 ≡ ones (suc c)
twice_ones c h = omega (arith, two_pow_suc c, two_pow_pos c, two_pow_mono (suc c) 64 (omega arith))

-- With a valid head, room in a word for one bit of mask more, and both areas given,
-- `ExpandKIndexArea` gives a valid head of one bit of mask more and moves no other array.
pub expand_kindex_area-Expanded :
    (c cmask ckey : ℕ) (h : Head)
    → IsValid c cmask h
    → suc c + cmask ≤ 64
    → (h' : Head) × (expand_kindex_area h (some ckey) true ≡ (true, h')) × Expanded c cmask h h'
unfolding expand_kindex_area
expand_kindex_area-Expanded c cmask ckey h v b =
    let bits : get_mask_bit_count h.cur_mask ≡ c =
      ap get_mask_bit_count v.cur ∙ get_mask_bit_count-width (ones c) c (ones-IsWidth c) in
    let next : (shift_left h.cur_mask 1 + 1) % 2 ^ 64 ≡ ones (suc c) =
      ap (λ (t : ℕ). (shift_left t 1 + 1) % 2 ^ 64) v.cur ∙ twice_ones c (omega arith) in
    let width : get_mask_bit_count (ones (suc c)) ≡ suc c =
      get_mask_bit_count-width (ones (suc c)) (suc c) (ones-IsWidth (suc c)) in
    let cbits : get_mask_bit_count h.collision_mask ≡ cmask =
      ap get_mask_bit_count v.collision
      ∙ get_mask_bit_count-width (ones cmask) cmask (ones-IsWidth cmask) in
    (
      _,
      refl,
      record {
        valid = record {
          cur = next;
          collision = v.collision;
          fits = b;
          has_arrays =
              rw (next, width, bits, cbits)
                (HasArrays-set_area (suc c) cmask h.key_index_area _ v.has_arrays (
                  init_kindex_array-IsArray (2 ^ c) (2 ^ c) (suc c) cmask ckey false
                    (omega (arith, two_pow_suc c)) b));
        };
        kept = λ j other. rw (next, width) (set_area_other h.key_index_area (suc c) j _ other);
      },
    )

no_area_lem : (h : Head) (has_kindex : Bool) → expand_kindex_area h none has_kindex ≡ (false, h)
unfolding expand_kindex_area
no_area_lem h has_kindex = refl

no_kindex_lem : (h : Head) (ckey : ℕ) → expand_kindex_area h (some ckey) false ≡ (false, h)
unfolding expand_kindex_area
no_kindex_lem h ckey = refl

-- The ways that `CheckExpandingKeyArea` may end, under a largest mask of `m` bits.
pub data Checked (c cmask m : ℕ) (seen : Head) (seen_count : ℕ) (h : Head) (count : ℕ)
    : Bool → Head → Type 0 where
  enough_at_first :
      is_enough seen seen_count ≡ true → Checked c cmask m seen seen_count h count true seen
  enough_now : is_enough h count ≡ true → Checked c cmask m seen seen_count h count true h
  no_area : h.max_element_count < count → c < m → Checked c cmask m seen seen_count h count false h
  expanded :
      {h' : Head}
      → h.max_element_count < count
      → c < m
      → Expanded c cmask h h'
      → Checked c cmask m seen seen_count h count true h'

is_enough-below :
    (c m : ℕ) (h : Head) (count : ℕ)
    → h.cur_mask ≡ ones c
    → h.max_mask ≡ ones m
    → is_enough h count ≡ false
    → (h.max_element_count < count) × (c < m)
is_enough-below c m h count e f more =
    let over : ones c < ones m = rw (e, f) at more_mask in (ground arith, below over)
  where
    more_mask : h.cur_mask < h.max_mask
    more_mask = ground arith

    below : ones c < ones m → c < m
    below l = ground (arith, two_pow_mono m c, two_pow_pos c)

-- With a valid head and a largest mask that fits a word together with the collision mask,
-- `CheckExpandingKeyArea` succeeds without a change, fails without a change when there is no area
-- though the count is over the limit, or expands the mask by one bit, never past the largest.
pub check_expanding_key_area-Checked :
    (c cmask m : ℕ) (seen : Head) (seen_count : ℕ) (h : Head) (count : ℕ) (ckey : Option ℕ)
    (has_kindex : Bool)
    → IsValid c cmask h
    → h.max_mask ≡ ones m
    → m + cmask ≤ 64
    → (ok : Bool) × (h' : Head) × (check_expanding_key_area seen seen_count h count ckey has_kindex
        ≡ (ok, h'))
      × Checked c cmask m seen seen_count h count ok h'
unfolding check_expanding_key_area
check_expanding_key_area-Checked c cmask m seen seen_count h count ckey has_kindex v e b =
    elim (Bool-cases (is_enough seen seen_count)) [
      | inl first ↦ (true, seen, rw first refl, enough_at_first first)
      | inr go ↦ elim (Bool-cases (is_enough h count)) [
        | inl now ↦ (true, h, rw (go, now) refl, enough_now now)
        | inr more ↦
            let (over, below) = is_enough-below c m h count v.cur e more in
            let (ok, h', run, how) = expands over below ckey has_kindex in
            (ok, h', rw (go, more) run, how)
      ]
    ]
  where
    expands :
        h.max_element_count < count
        → c < m
        → (ckey : Option ℕ) (has_kindex : Bool)
        → (ok : Bool) × (h' : Head) × (expand_kindex_area h ckey has_kindex ≡ (ok, h'))
          × Checked c cmask m seen seen_count h count ok h'
    expands over below none has_kindex = (false, h, no_area_lem h has_kindex, no_area over below)
    expands over below (some ckey) false = (false, h, no_kindex_lem h ckey, no_area over below)
    expands over below (some ckey) true =
        let (h', run, how) = expand_kindex_area-Expanded c cmask ckey h v (omega arith) in
        (true, h', run, expanded over below how)
