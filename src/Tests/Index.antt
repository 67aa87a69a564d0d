-- ===== src/Tests/Index.antt =====
-- The masks, the key indexes and the hashes at concrete values.
use k2hash.Base.{
  ℕ, ◌<◌, ◌≤◌, ◌*◌, ◌%◌, ◌^◌, ◌↔◌, ◌≡◌, refl, sym, ap, ◌∙◌, bit_and, Bool, true, false, Option,
  none, some, [], ◌∷◌, arith, ◌+◌,
}
use k2hash.Bytes.{Bytes}
use k2hash.Bits.{ones}
use k2hash.Hash.{k2h_fnv_hash}
use k2hash.Hash.Signed.{fnv_1a}
use k2hash.KeyIndex.{
  init_areas_loop, init_kindex_array, set_area, KIndex, Head, init_head, expand_kindex_area,
  check_expanding_key_area, get_reserved_kindex, get_kindex, get_ckindex, init_kindex_count,
}
use k2hash.KeyIndex.Assigned.{IsAssigned, get_kindex-assigned}
use k2hash.KeyIndex.Expand.{
  IsValid, Expanded, Checked, init_head-IsValid, expand_kindex_area-Expanded,
  check_expanding_key_area-Checked,
}
use k2hash.KeyIndex.Lookup.{get_ckindex-within, get_reserved_kindex-masked}
use k2hash.Mask.{
  get_kindex_pos, array_pos_loop, KIndexPos, kindex_pos, make_mask, get_mask_bit_count, shift_right,
}
use k2hash.Mask.Count.{make_mask-ones}
use k2hash.Mask.Position.{Placed, kindex_pos-Placed, kindex_pos-injective}

kindex_pos-Placed_example :
    (p : KIndexPos) × (kindex_pos 13 (ones 3) ≡ some p) × Placed (13 % 2 ^ 3) 3 p
kindex_pos-Placed_example = kindex_pos-Placed 13 3 (omega arith) (omega arith)

kindex_pos-injective_example :
    (kindex_pos 13 (ones 3) ≡ kindex_pos 21 (ones 3)) ↔ (bit_and 13 (ones 3) ≡ bit_and 21 (ones 3))
kindex_pos-injective_example =
    kindex_pos-injective 13 21 3 (omega arith) (omega arith) (omega arith)

-- Two bits of mask, two of collision mask, eight elements at most.
abbrev head : Head
head = init_head 2 2 8

head-IsValid : IsValid 2 2 head
head-IsValid = init_head-IsValid 2 2 8 (omega arith)

expand_kindex_area-Expanded_example :
    (h' : Head) × (expand_kindex_area head (some 16) true ≡ (true, h')) × Expanded 2 2 head h'
expand_kindex_area-Expanded_example =
    expand_kindex_area-Expanded 2 2 16 head head-IsValid (omega arith)

head_max : head.max_mask ≡ ones 28
unfolding init_head
head_max = make_mask-ones 28 (omega arith)

check_expanding_key_area-Checked_example :
    (ok : Bool) × (h' : Head) × (check_expanding_key_area head 9 head 9 (some 16) true ≡ (ok, h'))
    × Checked 2 2 28 head 9 head 9 ok h'
check_expanding_key_area-Checked_example =
    check_expanding_key_area-Checked 2 2 28 head 9 head 9 (some 16) true head-IsValid head_max
      (omega arith)

get_reserved_kindex-masked_example :
    (k : KIndex) × (get_reserved_kindex head 13 none ≡ some k)
    × (k.masked_hash ≡ bit_and (shift_right 13 2) head.cur_mask * 2 ^ 2)
get_reserved_kindex-masked_example =
    get_reserved_kindex-masked 2 2 head 13 head-IsValid (omega arith)

-- One bit more, whose key indexes are not assigned yet.
abbrev grown : Head
grown = (expand_kindex_area head (some 16) true).1

grown-IsValid : IsValid 3 2 grown
grown-IsValid =
    let (h', run, how) = expand_kindex_area-Expanded 2 2 16 head head-IsValid (omega arith) in
    rw (ap (λ (r : Bool × Head). r.1) run) how.valid

-- The key index of the hash 29 under three bits is new; under two bits it is assigned.
abbrev old_kindex : KIndex
old_kindex = record { assign = true; shifted_mask = 12; masked_hash = 12; ckey_list = 12 }

abbrev new_kindex : KIndex
new_kindex = record { assign = false; shifted_mask = 28; masked_hash = 28; ckey_list = 28 }

old_found : get_reserved_kindex grown 29 (some (ones 2)) ≡ some old_kindex
unfolding init_head init_areas_loop init_kindex_array set_area expand_kindex_area
    get_reserved_kindex get_kindex_pos kindex_pos array_pos_loop make_mask get_mask_bit_count
old_found = refl

new_found : get_reserved_kindex grown 29 (some (ones 3)) ≡ some new_kindex
unfolding init_head init_areas_loop init_kindex_array set_area expand_kindex_area
    get_reserved_kindex get_kindex_pos kindex_pos array_pos_loop make_mask get_mask_bit_count
new_found = refl

old_kindex-IsAssigned : IsAssigned 3 2 grown 29 old_kindex
old_kindex-IsAssigned = record { here = old_found; assigned = refl; above = above }
  where
    assign_of : Option KIndex → Bool
    assign_of none = false
    assign_of (some k) = k.assign

    by_value : (k : KIndex) → some k ≡ some new_kindex → k.assign ≡ false
    by_value k g = ap (λ (o : Option KIndex). assign_of o) g

    above :
        (n : ℕ) (k : KIndex)
        → 2 < n
        → n ≤ 3
        → get_reserved_kindex grown 29 (some (ones n)) ≡ some k
        → k.assign ≡ false
    above n k b c f =
        let e : n ≡ 3 = omega arith in
        let g : some k ≡ some new_kindex =
          sym f ∙ ap (λ (m : ℕ). get_reserved_kindex grown 29 (some (ones m))) e ∙ new_found in
        by_value k g

get_kindex-assigned_example : get_kindex grown 29 ≡ some (some old_kindex)
get_kindex-assigned_example =
    get_kindex-assigned 3 2 2 grown 29 old_kindex grown-IsValid (omega arith) (omega arith)
      (omega arith) old_kindex-IsAssigned

get_ckindex-within_example :
    (old_kindex.ckey_list ≤ get_ckindex grown old_kindex 29)
    × (get_ckindex grown old_kindex 29 < old_kindex.ckey_list + init_kindex_count 2)
    × ((get_ckindex grown old_kindex 29 ≡ get_ckindex grown old_kindex 33)
        ↔ (29 % 2 ^ 2 ≡ 33 % 2 ^ 2))
get_ckindex-within_example = get_ckindex-within 3 2 grown old_kindex 29 33 grown-IsValid

-- A byte with its sign bit set is widened with its sign, which FNV-1a does not do.
abbrev high_byte : Bytes
high_byte = 200 ∷ []

signed_hash : k2h_fnv_hash high_byte ≡ 5808610749223691959
unfolding k2h_fnv_hash
signed_hash = refl

published_hash : fnv_1a 14695981039346656037 high_byte ≡ 12638373018020809655
published_hash = refl
