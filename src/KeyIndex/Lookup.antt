-- ===== src/KeyIndex/Lookup.antt =====
-- Which key index `GetReservedKIndex` finds.
use k2hash.Base.{
  ◌+◌, ℕ, ◌*◌, ◌^◌, ◌/◌, ◌<◌, ◌≡◌, refl, sym, ap, ◌∙◌, bit_and, none, some, List, arith, get_elem?,
  get_elem?_within, ◌↔◌, ◌≤◌, ◌%◌,
}
use k2hash.Bits.{ones, bit_and-ones, two_pow_pos}
use native.Mathlib.Nat.{mod-lt, div-le_self}
use k2hash.KeyIndex.{get_ckindex, init_kindex_count, KIndex, Head, get_reserved_kindex}
use k2hash.KeyIndex.Expand.{IsValid}
use k2hash.Mask.{shift_right, get_mask_bit_count, kindex_pos, get_kindex_pos, KIndexPos}
use k2hash.Mask.Count.{get_mask_bit_count-width, ones-IsWidth}
use k2hash.Mask.Position.{kindex_pos-Placed}

found :
    (h : Head) (hash : ℕ) (p : KIndexPos) (array : List KIndex) (k : KIndex)
    → get_kindex_pos h.cur_mask h.collision_mask hash none ≡ some p
    → h.key_index_area p.ptr_array_pos ≡ some array
    → get_elem? array p.array_pos ≡ some k
    → get_reserved_kindex h hash none ≡ some k
unfolding get_reserved_kindex
found h hash p array k e f g = rw (get_reserved_kindex, e, f, g) refl

by_bits :
    (h : Head) (hash c cmask : ℕ)
    → get_mask_bit_count h.collision_mask ≡ cmask
    → h.cur_mask ≡ ones c
    → get_kindex_pos h.cur_mask h.collision_mask hash none ≡ kindex_pos (hash / 2 ^ cmask) (ones c)
unfolding get_kindex_pos
by_bits h hash c cmask e f = rw (e, f) refl

-- With a valid head, every 64-bit hash has a key index, and the masked hash that it was initialized
-- with is the hash's own bits above the collision mask and below the current mask.
pub get_reserved_kindex-masked :
    (c cmask : ℕ) (h : Head) (hash : ℕ)
    → IsValid c cmask h
    → hash < 2 ^ 64
    → (k : KIndex) × (get_reserved_kindex h hash none ≡ some k)
      × (k.masked_hash ≡ bit_and (shift_right hash cmask) h.cur_mask * 2 ^ cmask)
get_reserved_kindex-masked c cmask h hash v b =
    let shifted = shift_right hash cmask in
    let small : hash / 2 ^ cmask < 2 ^ 64 = omega (arith, div-le_self hash (2 ^ cmask)) in
    let (p, run, at) = kindex_pos-Placed (hash / 2 ^ cmask) c small (omega (arith, v.fits)) in
    let (array, set, all) = v.has_arrays p.ptr_array_pos (omega (arith, at.has_array)) in
    let (k, got) = get_elem?_within array p.array_pos (omega (arith, at.has_place, all.sized)) in
    let cbits : get_mask_bit_count h.collision_mask ≡ cmask =
      ap get_mask_bit_count v.collision
      ∙ get_mask_bit_count-width (ones cmask) cmask (ones-IsWidth cmask) in
    (
      k,
      found h hash p array k (by_bits h hash c cmask cbits v.cur ∙ run) set got,
      all.numbered p.array_pos k got
          ∙ ap (λ (t : ℕ). t * 2 ^ cmask)
              (at.decodes
                ∙ sym (ap (bit_and (hash / 2 ^ cmask)) v.cur ∙ bit_and-ones c (hash / 2 ^ cmask))),
    )

-- With a valid head, the collision key index of a hash is one of those that its key index has, and
-- two hashes of one key index share it exactly if their bits in the collision mask are equal.
pub get_ckindex-within :
    (c cmask : ℕ) (h : Head) (k : KIndex) (hash hash' : ℕ)
    → IsValid c cmask h
    → (k.ckey_list ≤ get_ckindex h k hash)
      × (get_ckindex h k hash < k.ckey_list + init_kindex_count cmask)
      × ((get_ckindex h k hash ≡ get_ckindex h k hash') ↔ (hash % 2 ^ cmask ≡ hash' % 2 ^ cmask))
unfolding get_ckindex
get_ckindex-within c cmask h k hash hash' v =
    let low : bit_and hash h.collision_mask ≡ hash % 2 ^ cmask =
      ap (bit_and hash) v.collision ∙ bit_and-ones cmask hash in
    let low' : bit_and hash' h.collision_mask ≡ hash' % 2 ^ cmask =
      ap (bit_and hash') v.collision ∙ bit_and-ones cmask hash' in
    (
      omega arith,
      omega (arith, low, mod-lt hash (two_pow_pos cmask)),
      (λ e. omega (arith, low, low'), λ e. omega (arith, low, low')),
    )
