-- ===== src/Mask/Count.antt =====
-- `MakeMask` and `GetMaskBitCount` of lib/k2hshm.cc against the width of a number.
use k2hash.Base.{
  Bool-cases, ltb, ltb→lt, ℕ, zero, suc, ◌+◌, ◌*◌, ◌/◌, ◌%◌, ◌^◌, ◌≤◌, ◌<◌, ◌≡◌, ap, ◌∙◌, inl, inr,
  bit_or, arith, lt_wf,
}
use k2hash.Bits.{ones, two_pow_suc, two_pow_pos, bit_or-double_one}
use k2hash.Mask.{shift_left, make_mask_loop, make_mask, bit_count_loop, get_mask_bit_count}
use mathlib.Core.Logic.{dif_pos, dif_neg}
use mathlib.Core.WellFounded.{Acc}
use native.Mathlib.Decide.{dec_lt}
use native.Mathlib.Bridge.{le_prop}
use native.Mathlib.Nat.{pow-le-pow_right}

pub two_pow_mono : (i j : ℕ) → i ≤ j → 2 ^ i ≤ 2 ^ j
two_pow_mono i j h = pow-le-pow_right (omega arith) h

pub next_ones : (k : ℕ) → suc k ≤ 64 → bit_or (shift_left (ones k) 1) 1 ≡ ones (suc k)
next_ones k h =
    let wrap : ones k * 2 ^ 1 % 2 ^ 64 ≡ ones k * 2 =
      omega (arith, two_pow_suc k, two_pow_pos k, two_pow_mono (suc k) 64 h) in
    rw (wrap, bit_or-double_one (ones k)) (omega (arith, two_pow_suc k, two_pow_pos k))

make_mask_loop-ones : (n k m : ℕ) → m ≡ n + k → m ≤ 64 → make_mask_loop n (ones k) ≡ ones m
unfolding make_mask_loop
make_mask_loop-ones zero k m e h = ap ones (omega arith)
make_mask_loop-ones (suc n) k m e h =
    rw (next_ones k (omega arith)) (make_mask_loop-ones n (suc k) m (omega arith) h)

-- `MakeMask(n)` is the number with the `n` low bits set, for every width of a word.
pub make_mask-ones : (n : ℕ) → n ≤ 64 → make_mask n ≡ ones n
unfolding make_mask
make_mask-ones n h = make_mask_loop-ones n 0 n (omega arith) h

-- `n` bits are enough to write `x`, and no fewer.
pub record IsWidth (x n : ℕ) : Type 0 where
  pub fits : x < 2 ^ n
  pub least : (k : ℕ) → k < n → 2 ^ k ≤ x

IsWidth-half : (x n : ℕ) → IsWidth x (suc n) → IsWidth (x / 2) n
IsWidth-half x n w = record {
  fits = omega (arith, two_pow_suc n, w.fits);
  least = λ k h. omega (arith, two_pow_suc k, w.least (suc k) (omega arith));
}

bit_count_loop-width : (n x b : ℕ) (a : Acc ◌<◌ x) → IsWidth x n → bit_count_loop x b a ≡ b + n
unfolding bit_count_loop
bit_count_loop-width zero x b (Acc.intro _ smaller) w =
    let none_left : ¬ (0 < x) = omega (arith, w.fits) in
    rw (dif_neg (dec_lt 0 x) none_left) (omega arith)
bit_count_loop-width (suc n) x b (Acc.intro _ smaller) w =
    let some_left : 0 < x = omega (arith, w.least n, two_pow_pos n) in
    rw (dif_pos (dec_lt 0 x) le_prop some_left) (
      bit_count_loop-width n (x / 2) (b + 1) (smaller (x / 2) _) (IsWidth-half x n w) ∙ omega arith)

pub get_mask_bit_count-width : (x n : ℕ) → IsWidth x n → get_mask_bit_count x ≡ n
unfolding get_mask_bit_count
get_mask_bit_count-width x n w = bit_count_loop-width n x 0 (lt_wf.apply x) w ∙ (omega arith)

pub ones-IsWidth : (n : ℕ) → IsWidth (ones n) n
ones-IsWidth n = record {
  fits = omega (arith, two_pow_pos n);
  least = λ k h. omega (arith, two_pow_mono (suc k) n (omega arith), two_pow_suc k, two_pow_pos k);
}

-- The count of the bits of a mask of at most 64 bits gives back what it was made of.
pub get_mask_bit_count-make_mask : (n : ℕ) → n ≤ 64 → get_mask_bit_count (make_mask n) ≡ n
get_mask_bit_count-make_mask n h =
    rw (make_mask-ones n h) (get_mask_bit_count-width (ones n) n (ones-IsWidth n))

pub IsWidth-exists : (m x : ℕ) → x < 2 ^ m → (n : ℕ) × (n ≤ m) × IsWidth x n
IsWidth-exists zero x h = (0, omega arith, record { fits = h; least = λ k h. absurd (omega arith) })
IsWidth-exists (suc m) x h = elim (Bool-cases (ltb x (2 ^ m))) [
  | inl small ↦ let (n, le, w) = IsWidth-exists m x (ltb→lt x (2 ^ m) small) in (n, omega arith, w)
  | inr large ↦
      (suc m, omega arith, record { fits = h; least = λ k p. ground (arith, two_pow_mono k m) })
]
