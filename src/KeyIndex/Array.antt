-- ===== src/KeyIndex/Array.antt =====
-- What an array of key indexes holds, and how it is built.
use k2hash.Base.{
  ℕ, zero, suc, ◌+◌, ◌*◌, ◌^◌, ◌≤◌, ◌<◌, ◌≡◌, refl, ap, ◌∙◌, bit_and, Bool, some, List, ◌∷◌, arith,
  length, get_elem?, sym,
}
use k2hash.Bits.{ones, two_pow_pos, two_pow_add, bit_and-ones, bit_and-scale}
use k2hash.KeyIndex.{KIndex, init_kindex_array}
use native.Mathlib.Nat.{mod-eq_of_lt, mul-lt-mul_of_pos_right}
use k2hash.Mask.{shift_left}
use k2hash.Mask.Count.{two_pow_mono}

-- `size` key indexes, the first for the masked hash `start`, one for each that follows.
pub record IsArray (size start cmask : ℕ) (array : List KIndex) : Type 0 where
  pub sized : length array ≡ size
  pub numbered :
      (i : ℕ) (k : KIndex) → get_elem? array i ≡ some k → k.masked_hash ≡ (start + i) * 2 ^ cmask

-- Shifting a masked hash and the mask of `c` bits loses nothing in a word that holds both.
masked_hash-shift :
    (x c cmask : ℕ)
    → x < 2 ^ c
    → c + cmask ≤ 64
    → bit_and (shift_left x cmask) (shift_left (ones c) cmask) ≡ x * 2 ^ cmask
masked_hash-shift x c cmask h b =
    let word : 2 ^ c * 2 ^ cmask ≤ 2 ^ 64 =
      rw (two_pow_add c cmask) at (two_pow_mono (c + cmask) 64 b) in
    let e : shift_left x cmask ≡ x * 2 ^ cmask = mod-eq_of_lt (small x h word) in
    let f : shift_left (ones c) cmask ≡ ones c * 2 ^ cmask =
      mod-eq_of_lt (small (ones c) (omega (arith, two_pow_pos c)) word) in
    let g : bit_and x (ones c) ≡ x = bit_and-ones c x ∙ mod-eq_of_lt h in
    rw (e, f, bit_and-scale cmask x (ones c), g) refl
  where
    small : (y : ℕ) → y < 2 ^ c → 2 ^ c * 2 ^ cmask ≤ 2 ^ 64 → y * 2 ^ cmask < 2 ^ 64
    small y l w = omega (arith, mul-lt-mul_of_pos_right l (two_pow_pos cmask))

-- One more key index in front.
IsArray-cons :
    {size start cmask : ℕ} {rest : List KIndex} (k : KIndex)
    → k.masked_hash ≡ start * 2 ^ cmask
    → IsArray size (start + 1) cmask rest
    → IsArray (suc size) start cmask (k ∷ rest)
IsArray-cons {size} {start} {cmask} {rest} k e all = record {
  sized = ap suc all.sized;
  numbered = numbered;
}
  where
    numbered :
        (i : ℕ) (k' : KIndex)
        → get_elem? (k ∷ rest) i ≡ some k'
        → k'.masked_hash ≡ (start + i) * 2 ^ cmask
    numbered zero k' f =
        let g : start + 0 ≡ start = omega arith in let q : k ≡ k' = ground arith in rw (g, sym q) e
    numbered (suc i) k' f =
        let g : start + suc i ≡ start + 1 + i = omega arith in rw g (all.numbered i k' f)

-- `InitializeKeyIndexArray` makes such an array, where the masks fit a word.
pub init_kindex_array-IsArray :
    (size start c cmask ckey : ℕ) (assign : Bool)
    → start + size ≤ 2 ^ c
    → c + cmask ≤ 64
    → IsArray size start cmask (init_kindex_array size start (ones c) cmask ckey assign)
unfolding init_kindex_array
init_kindex_array-IsArray zero start c cmask ckey assign h b = record {
  sized = refl;
  numbered = λ i k e. ground arith;
}
init_kindex_array-IsArray (suc size) start c cmask ckey assign h b =
    IsArray-cons
      (record {
        assign = assign;
        shifted_mask = shift_left (ones c) cmask;
        masked_hash = bit_and (shift_left start cmask) (shift_left (ones c) cmask);
        ckey_list = ckey;
      })
      (masked_hash-shift start c cmask (omega arith) b)
      (init_kindex_array-IsArray size (start + 1) c cmask (ckey + 2 ^ cmask) assign (omega arith) b)
