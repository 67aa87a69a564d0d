-- ===== src/Bits.antt =====
-- `&` and `|` with the masks that the program builds, as arithmetic.
mod Digits
use k2hash.Base.{
  ℕ, zero, suc, ◌+◌, ◌-◌, ◌*◌, ◌/◌, ◌%◌, ◌^◌, ◌≤◌, ◌<◌, ◌≡◌, refl, sym, ap, ◌∙◌, bit_and, bit_or,
  arith, lt_wf, min, max,
}
use mathlib.Core.Path.{ap₂}
use mathlib.Core.WellFounded
use native.Mathlib.Nat.{
  pow-suc, one-le-pow, mul-add-mod_self_right, mod-eq_of_lt, mod-lt, div-add-mod',
  div-div-eq-div-mul, div-one,
}
use Digits.{bit_and-halve, bit_or-halve}

-- A number with nothing set.
pub bit_and-zero : (a : ℕ) → bit_and a 0 ≡ 0
bit_and-zero a =
    WellFounded.induction lt_wf {C = λ n. bit_and n 0 ≡ 0} a
      (λ n ih. ground (arith, bit_and-halve n 0, ih (n / 2), base n))
  where
    base : (n : ℕ) → n ≡ 0 → bit_and n 0 ≡ 0
    base n e = rw e

bit_or-zero : (a : ℕ) → bit_or a 0 ≡ a
bit_or-zero a =
    WellFounded.induction lt_wf {C = λ n. bit_or n 0 ≡ n} a
      (λ n ih. ground (arith, bit_or-halve n 0, ih (n / 2), base n))
  where
    base : (n : ℕ) → n ≡ 0 → bit_or n 0 ≡ n
    base n e = rw e

-- The mask of the `k` low bits.
abbrev pub ones : ℕ → ℕ
ones k = 2 ^ k - 1

pub two_pow_suc : (k : ℕ) → 2 ^ suc k ≡ 2 * 2 ^ k
two_pow_suc k = omega (arith, pow-suc 2 k)

pub two_pow_pos : (k : ℕ) → 1 ≤ 2 ^ k
two_pow_pos k = one-le-pow k 2 (omega arith)

rem_unique : (q m r : ℕ) → r < m → (q * m + r) % m ≡ r
rem_unique q m r h = mul-add-mod_self_right q m r ∙ mod-eq_of_lt h

-- The remainder by an even number, by halves.
rem_halve : (a p : ℕ) → 0 < p → a % (2 * p) ≡ a / 2 % p * 2 + a % 2
rem_halve a p h =
    ap (λ (t : ℕ). t % (2 * p)) split
    ∙ rem_unique (a / 2 / p) (2 * p) (a / 2 % p * 2 + a % 2) (omega (arith, mod-lt (a / 2) h))
  where
    split : a ≡ a / 2 / p * (2 * p) + (a / 2 % p * 2 + a % 2)
    split = omega (arith, div-add-mod' (a / 2) p)

-- `x & mask` keeps the low bits.
pub bit_and-ones : (k a : ℕ) → bit_and a (ones k) ≡ a % 2 ^ k
bit_and-ones zero a = rw bit_and-zero (omega arith)
bit_and-ones (suc k) a =
    let half : ones (suc k) / 2 ≡ ones k = omega (arith, two_pow_suc k, two_pow_pos k) in
    omega (
      arith,
      bit_and-halve a (ones (suc k)),
      ap (bit_and (a / 2)) half,
      bit_and-ones k (a / 2),
      two_pow_suc k,
      two_pow_pos k,
      rem_halve a (2 ^ k) (two_pow_pos k),
      ap (λ (t : ℕ). a % t) (two_pow_suc k),
    )

two_pow_suc_add : (k m : ℕ) → 2 ^ (suc k + m) ≡ 2 * 2 ^ (k + m)
two_pow_suc_add k m =
    let e : suc k + m ≡ suc (k + m) = omega arith in ap (λ (t : ℕ). 2 ^ t) e ∙ two_pow_suc (k + m)

pub two_pow_add : (k m : ℕ) → 2 ^ (k + m) ≡ 2 ^ k * 2 ^ m
two_pow_add zero m = let e : 0 + m ≡ m = omega arith in rw e (omega arith)
two_pow_add (suc k) m =
    omega (arith, two_pow_suc_add k m, two_pow_add k m, ap (λ (t : ℕ). t * 2 ^ m) (two_pow_suc k))

div_halve : (a k : ℕ) → a / 2 ^ suc k ≡ a / 2 / 2 ^ k
div_halve a k = ap (λ (t : ℕ). a / t) (two_pow_suc k) ∙ sym (div-div-eq-div-mul a 2 (2 ^ k))

-- `x & ~mask` in a word of `k + m` bits clears them.
pub bit_and-high : (k m a : ℕ) → bit_and a (2 ^ (k + m) - 2 ^ k) ≡ a / 2 ^ k % 2 ^ m * 2 ^ k
bit_and-high zero m a =
    let e : 0 + m ≡ m = omega arith in
    let f : a / 1 ≡ a = omega arith in rw (e, f, bit_and-ones m a) (omega arith)
bit_and-high (suc k) m a =
    let half : (2 ^ (suc k + m) - 2 ^ suc k) / 2 ≡ 2 ^ (k + m) - 2 ^ k =
      omega (arith, two_pow_suc_add k m, two_pow_suc k) in
    omega (
      arith,
      bit_and-halve a (2 ^ (suc k + m) - 2 ^ suc k),
      ap (bit_and (a / 2)) half,
      bit_and-high k m (a / 2),
      two_pow_suc k,
      two_pow_suc_add k m,
      ap (λ (t : ℕ). t % 2 ^ m) (div_halve a k),
      ap (λ (t : ℕ). a / 2 ^ suc k % 2 ^ m * t) (two_pow_suc k),
      ap (λ (t : ℕ). t * 2 ^ k) (ap (λ (t : ℕ). t % 2 ^ m) (div_halve a k)),
    )

-- `(mask << 1) | 1`
pub bit_or-double_one : (a : ℕ) → bit_or (a * 2) 1 ≡ a * 2 + 1
bit_or-double_one a =
    omega (arith, bit_or-halve (a * 2) 1, bit_or-zero a, ap (λ (t : ℕ). bit_or t 0) (half a))
  where
    half : (n : ℕ) → n * 2 / 2 ≡ n
    half n = omega arith

-- A common shift may be taken out.
pub bit_and-scale : (k a b : ℕ) → bit_and (a * 2 ^ k) (b * 2 ^ k) ≡ bit_and a b * 2 ^ k
bit_and-scale zero a b =
    let e : a * 1 ≡ a = omega arith in let f : b * 1 ≡ b = omega arith in rw (e, f) (omega arith)
bit_and-scale (suc k) a b = omega (
  arith,
  bit_and-halve (a * 2 ^ suc k) (b * 2 ^ suc k),
  ap₂ bit_and (half a) (half b),
  even a,
  even b,
  bit_and-scale k a b,
  ap (λ (t : ℕ). bit_and a b * t) (two_pow_suc k),
)
  where
    twice : (x : ℕ) → x * 2 ^ suc k ≡ x * 2 ^ k * 2
    twice x = omega (arith, ap (λ (t : ℕ). x * t) (two_pow_suc k))

    half : (x : ℕ) → x * 2 ^ suc k / 2 ≡ x * 2 ^ k
    half x = omega (arith, twice x)

    even : (x : ℕ) → x * 2 ^ suc k % 2 ≡ 0
    even x = omega (arith, twice x)
