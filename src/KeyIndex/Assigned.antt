-- ===== src/KeyIndex/Assigned.antt =====
-- Which key index `GetKIndex` ends at while the new ones are not assigned yet.
use k2hash.Base.{
  ℕ, zero, suc, ◌-◌, ◌*◌, ◌^◌, ◌/◌, ◌≤◌, ◌<◌, ◌≡◌, ◌≢◌, refl, sym, ap, ◌∙◌, bit_and, Bool, true,
  false, Bool-cases, inl, inr, Option, none, some, List, arith, get_elem?, get_elem?_within, ltb,
  if◌then◌else◌, ltb→lt, ne→==,
}
use k2hash.Bits.{ones, bit_and-ones, two_pow_pos, two_pow_suc}
use k2hash.KeyIndex.{KIndex, Head, get_reserved_kindex, get_kindex_loop, get_kindex}
use k2hash.KeyIndex.Expand.{IsValid}
use k2hash.Mask.{shift_right, get_mask_bit_count, kindex_pos, get_kindex_pos, KIndexPos}
use k2hash.Mask.Count.{get_mask_bit_count-width, ones-IsWidth, two_pow_mono}
use k2hash.Mask.Position.{kindex_pos-Placed}
use native.Mathlib.Nat.{div-le_self}

found :
    (h : Head) (hash t : ℕ) (p : KIndexPos) (array : List KIndex) (k : KIndex)
    → get_kindex_pos h.cur_mask h.collision_mask hash (some (ones t)) ≡ some p
    → h.key_index_area p.ptr_array_pos ≡ some array
    → get_elem? array p.array_pos ≡ some k
    → get_reserved_kindex h hash (some (ones t)) ≡ some k
unfolding get_reserved_kindex
found h hash t p array k e f g = rw (get_reserved_kindex, e, f, g) refl

ones-below : (c t : ℕ) → t ≤ c → ltb (ones c) (ones t) ≡ false
ones-below c t b = ground (arith, two_pow_mono t c b)

by_bits :
    (h : Head) (hash c cmask t : ℕ)
    → get_mask_bit_count h.collision_mask ≡ cmask
    → h.cur_mask ≡ ones c
    → t ≤ c
    → get_kindex_pos h.cur_mask h.collision_mask hash (some (ones t))
      ≡ kindex_pos (hash / 2 ^ cmask) (ones t)
unfolding get_kindex_pos
by_bits h hash c cmask t e f b = rw (e, f, ones-below c t b) refl

-- Under any mask of at most the current bits, every hash has a key index, whose masked hash is the
-- hash's own under that mask.
pub get_reserved_kindex-under :
    (c cmask t : ℕ) (h : Head) (hash : ℕ)
    → IsValid c cmask h
    → hash < 2 ^ 64
    → t ≤ c
    → (k : KIndex) × (get_reserved_kindex h hash (some (ones t)) ≡ some k)
      × (k.masked_hash ≡ bit_and (shift_right hash cmask) (ones t) * 2 ^ cmask)
get_reserved_kindex-under c cmask t h hash v b le =
    let small : hash / 2 ^ cmask < 2 ^ 64 = omega (arith, div-le_self hash (2 ^ cmask)) in
    let (p, run, at) = kindex_pos-Placed (hash / 2 ^ cmask) t small (omega (arith, v.fits)) in
    let (array, set, all) = v.has_arrays p.ptr_array_pos (omega (arith, at.has_array)) in
    let (k, got) = get_elem?_within array p.array_pos (omega (arith, at.has_place, all.sized)) in
    let cbits : get_mask_bit_count h.collision_mask ≡ cmask =
      ap get_mask_bit_count v.collision
      ∙ get_mask_bit_count-width (ones cmask) cmask (ones-IsWidth cmask) in
    (
      k,
      found h hash t p array k (by_bits h hash c cmask t cbits v.cur le ∙ run) set got,
      all.numbered p.array_pos k got
          ∙ ap (λ (x : ℕ). x * 2 ^ cmask) (at.decodes ∙ sym (bit_and-ones t (hash / 2 ^ cmask))),
    )

loop_step :
    (fuel : ℕ) (h : Head) (hash mask : ℕ) (last : Option KIndex) (k : KIndex)
    → mask ≢ 0
    → get_reserved_kindex h hash (some mask) ≡ some k
    → get_kindex_loop (suc fuel) h hash mask last ≡ (
        if k.assign
        then some (some k)
        else get_kindex_loop fuel h hash (shift_right mask 1) (some k))
unfolding get_kindex_loop
loop_step fuel h hash mask last k some_mask e =
    rw (get_kindex_loop, ne→== mask 0 (λ x. absurd (some_mask x)), e) (branch k.assign)
  where
    branch :
        (b : Bool)
        → (elim b [
          | true ↦ some (some k)
          | false ↦ get_kindex_loop fuel h hash (shift_right mask 1) (some k)
        ])
          ≡ (if b then some (some k) else get_kindex_loop fuel h hash (shift_right mask 1) (some k))
    branch true = refl
    branch false = refl

half_ones : (n : ℕ) → shift_right (ones (suc n)) 1 ≡ ones n
half_ones n = omega (arith, two_pow_suc n, two_pow_pos n)

-- The key index of a hash under a mask of `t` bits is assigned, and under no larger one.
pub record IsAssigned (c t : ℕ) (h : Head) (hash : ℕ) (k : KIndex) : Type 0 where
  pub here : get_reserved_kindex h hash (some (ones t)) ≡ some k
  pub assigned : k.assign ≡ true
  pub above :
      (n : ℕ) (k' : KIndex)
      → t < n
      → n ≤ c
      → get_reserved_kindex h hash (some (ones n)) ≡ some k'
      → k'.assign ≡ false

get_kindex_loop-assigned :
    (c cmask t : ℕ) (h : Head) (hash : ℕ) (k : KIndex)
    → IsValid c cmask h
    → hash < 2 ^ 64
    → 0 < t
    → IsAssigned c t h hash k
    → (fuel n : ℕ) (last : Option KIndex) → t ≤ n
    → n ≤ c
    → n - t < fuel
    → get_kindex_loop fuel h hash (ones n) last ≡ some (some k)
get_kindex_loop-assigned c cmask t h hash k v b pos a zero n last le le' f = absurd (omega arith)
get_kindex_loop-assigned c cmask t h hash k v b pos a (suc fuel) zero last le le' f =
    absurd (omega arith)
get_kindex_loop-assigned c cmask t h hash k v b pos a (suc fuel) (suc n) last le le' f =
    let some_mask : ones (suc n) ≢ 0 = λ x. omega (arith, two_pow_suc n, two_pow_pos n) in
    elim (Bool-cases (ltb t (suc n))) [
      | inl more ↦
          let (k', got, _) = get_reserved_kindex-under c cmask (suc n) h hash v b le' in
          let not_yet : k'.assign ≡ false = a.above (suc n) k' (ltb→lt t (suc n) more) le' got in
          let up : t < suc n = ltb→lt t (suc n) more in
          loop_step fuel h hash (ones (suc n)) last k' some_mask got
          ∙ rw (not_yet, half_ones n)
              (get_kindex_loop-assigned c cmask t h hash k v b pos a fuel n (some k') (omega arith)
                (omega arith) (omega arith))
      | inr at_t ↦
          let e : t ≡ suc n = ground arith in
          loop_step fuel h hash (ones (suc n)) last k some_mask (rw e at a.here)
          ∙ rw a.assigned refl
    ]

-- With a valid head, a 64-bit hash, and a mask of at least one bit whose key index of the hash is
-- assigned while those under larger masks are not, `GetKIndex` without a merge ends and gives that
-- key index.
pub get_kindex-assigned :
    (c cmask t : ℕ) (h : Head) (hash : ℕ) (k : KIndex)
    → IsValid c cmask h
    → hash < 2 ^ 64
    → 0 < t
    → t ≤ c
    → IsAssigned c t h hash k
    → get_kindex h hash ≡ some (some k)
unfolding get_kindex
get_kindex-assigned c cmask t h hash k v b pos le a =
    ap (λ (x : ℕ). get_kindex_loop 65 h hash x none) v.cur
    ∙ get_kindex_loop-assigned c cmask t h hash k v b pos a 65 c none le (omega arith)
        (omega (arith, v.fits))
