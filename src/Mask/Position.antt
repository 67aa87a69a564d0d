-- ===== src/Mask/Position.antt =====
-- Where `GetKIndexPos` of lib/k2hshm.cc puts a hash under a mask of `c` bits.
use k2hash.Base.{
  ℕ, zero, suc, ◌+◌, ◌-◌, ◌*◌, ◌/◌, ◌%◌, ◌^◌, ◌≤◌, ◌<◌, ◌≡◌, sym, ap, ◌∙◌, ◌↔◌, inl, inr, bit_and,
  arith, Bool-cases, ltb→lt, lt→ltb, ◌≢◌, some, ◌==◌, ltb, if◌then◌else◌,
}
use k2hash.Bits.{ones, two_pow_suc, two_pow_add, two_pow_pos, bit_and-ones, bit_and-high}
use k2hash.Mask.{complement, make_mask, array_pos_loop, KIndexPos, kindex_pos}
use native.Mathlib.Nat.{
  div-lt_iff_lt-mul, le-div_iff_mul-le, mod-eq_of_lt, div-eq_of_lt, mod-lt, mod-le, mod-mod_of_dvd,
  dvd-mul_right, mod-eq-sub-mod,
}
use native.Mathlib.Numerals.{add-one}
use k2hash.Mask.Count.{two_pow_mono, next_ones, make_mask-ones, IsWidth, IsWidth-exists}

-- What the loop tests: no bit of `t` stands at `k` or above.
rest_bits : (t k : ℕ) → t < 2 ^ 64 → k ≤ 64 → bit_and t (complement (ones k)) ≡ t / 2 ^ k * 2 ^ k
rest_bits t k h b =
    let m = 64 - k in
    let whole : k + (64 - k) ≡ 64 = omega arith in
    let word : 2 ^ k * 2 ^ (64 - k) ≡ 2 ^ 64 =
      sym (two_pow_add k (64 - k)) ∙ ap (λ (t : ℕ). 2 ^ t) whole in
    let mask : complement (ones k) ≡ 2 ^ (k + (64 - k)) - 2 ^ k =
      omega (arith, two_pow_pos k, two_pow_mono k 64 b, ap (λ (t : ℕ). 2 ^ t) whole) in
    let small : t / 2 ^ k < 2 ^ (64 - k) =
      (div-lt_iff_lt-mul (two_pow_pos k)).1 (omega (arith, word)) in
    rw (mask, bit_and-high k (64 - k) t, mod-eq_of_lt small)

rest_bits_zero :
    (t k : ℕ) → t < 2 ^ 64 → k ≤ 64 → (bit_and t (complement (ones k)) == 0) ≡ ltb t (2 ^ k)
rest_bits_zero t k h b = elim (Bool-cases (ltb t (2 ^ k))) [
  | inl small ↦ rw (rest_bits t k h b, small, div-eq_of_lt (ltb→lt t (2 ^ k) small)) (ground arith)
  | inr large ↦
      let q : 1 ≤ t / 2 ^ k = (le-div_iff_mul-le (two_pow_pos k)).1 (ground arith) in
      let pos : 1 ≤ t / 2 ^ k * 2 ^ k = grind (arith, two_pow_pos k) in
      rw (rest_bits t k h b, large) (ground arith)
]

array_pos_loop-width :
    (fuel t n k : ℕ)
    → t < 2 ^ 64
    → IsWidth t n
    → n ≤ 64
    → k ≤ n
    → n - k < fuel
    → array_pos_loop fuel t k (ones k) ≡ some n
unfolding array_pos_loop
array_pos_loop-width zero t n k h w b p f = absurd (omega arith)
array_pos_loop-width (suc fuel) t n k h w b p f = elim (Bool-cases (ltb t (2 ^ k))) [
  | inl done ↦ rw (rest_bits_zero t k h (omega arith), done) (ap some (ground (arith, w.least k)))
  | inr more ↦
      let other : k ≢ n = λ e. ground (arith, ap (λ (i : ℕ). 2 ^ i) e) in
      let ahead : suc k ≤ n = omega arith in
      rw (rest_bits_zero t k h (omega arith), more, next_ones k (omega arith), add-one k)
        (array_pos_loop-width fuel t n (suc k) h w b ahead (omega arith))
]

-- The number of key indexes in the array at a position.
abbrev pub array_size : ℕ → ℕ
array_size zero = 1
array_size (suc n) = 2 ^ n

-- The first masked hash of the array at a position.
abbrev pub array_start : ℕ → ℕ
array_start zero = 0
array_start (suc n) = 2 ^ n

-- The search ends, at an array that the mask has and a place inside of it; the array's first hash
-- plus the place is the masked hash.
pub record Placed (masked c : ℕ) (p : KIndexPos) : Type 0 where
  pub has_array : p.ptr_array_pos ≤ c
  pub has_place : p.array_pos < array_size p.ptr_array_pos
  pub decodes : array_start p.ptr_array_pos + p.array_pos ≡ masked

-- The place in the array of `n` bits.
abbrev place : ℕ → ℕ → KIndexPos
place shifted n = record { ptr_array_pos = n; array_pos = shifted % 2 ^ (n - 1) }

place-runs :
    (shifted n : ℕ)
    → n ≤ 64
    → bit_and shifted (make_mask (if ltb 0 n then n - 1 else 0)) ≡ shifted % 2 ^ (n - 1)
place-runs shifted zero h = rw (make_mask-ones 0 (omega arith)) (bit_and-ones 0 shifted)
place-runs shifted (suc n) h =
    let e : suc n - 1 ≡ n = omega arith in
    rw (lt→ltb 0 (suc n) (omega arith), e, make_mask-ones n (omega arith)) (bit_and-ones n shifted)

low_bits : (x n c : ℕ) → n ≤ c → x % 2 ^ c % 2 ^ n ≡ x % 2 ^ n
low_bits x n c h =
    let e : n + (c - n) ≡ c = omega arith in
    let split : 2 ^ n * 2 ^ (c - n) ≡ 2 ^ c =
      sym (two_pow_add n (c - n)) ∙ ap (λ (t : ℕ). 2 ^ t) e in
    mod-mod_of_dvd (2 ^ n) x (rw split at (dvd-mul_right (2 ^ n) (2 ^ (c - n))))

place-Placed :
    (shifted c n : ℕ)
    → n ≤ c
    → IsWidth (shifted % 2 ^ c) n
    → Placed (shifted % 2 ^ c) c (place shifted n)
place-Placed shifted c zero le w = record {
  has_array = le;
  has_place = omega arith;
  decodes = omega (arith, w.fits);
}
place-Placed shifted c (suc n) le w =
    let e : suc n - 1 ≡ n = omega arith in
    let high : 2 ^ n ≤ shifted % 2 ^ c = w.least n (omega arith) in
    let low : shifted % 2 ^ n ≡ shifted % 2 ^ c - 2 ^ n =
      sym (low_bits shifted n c (omega arith))
      ∙ mod-eq-sub-mod high
      ∙ mod-eq_of_lt (omega (arith, w.fits, two_pow_suc n)) in
    record {
      has_array = le;
      has_place = rw e (mod-lt shifted (two_pow_pos n));
      decodes = rw e (omega (arith, low));
    }

kindex_pos_runs :
    (shifted c n : ℕ)
    → array_pos_loop 65 (shifted % 2 ^ c) 0 0 ≡ some n
    → n ≤ 64
    → kindex_pos shifted (ones c) ≡ some (place shifted n)
unfolding kindex_pos
kindex_pos_runs shifted c n run h =
    rw (bit_and-ones c shifted, kindex_pos, run, place-runs shifted n h)

-- Under a mask of at most 64 bits, the search for the place of a shifted 64-bit hash ends, at an
-- array that the mask has and a place inside of it, and the array's first hash plus the place is
-- the masked hash.
pub kindex_pos-Placed :
    (shifted c : ℕ)
    → shifted < 2 ^ 64
    → c ≤ 64
    → (p : KIndexPos) × (kindex_pos shifted (ones c) ≡ some p) × Placed (shifted % 2 ^ c) c p
kindex_pos-Placed shifted c h b =
    let (n, le, w) = IsWidth-exists c (shifted % 2 ^ c) (mod-lt shifted (two_pow_pos c)) in
    let word : shifted % 2 ^ c < 2 ^ 64 = omega (arith, mod-le shifted (2 ^ c)) in
    let run : array_pos_loop 65 (shifted % 2 ^ c) 0 0 ≡ some n =
      array_pos_loop-width 65 (shifted % 2 ^ c) n 0 word w (omega arith) (omega arith)
        (omega arith) in
    (place shifted n, kindex_pos_runs shifted c n run (omega arith), place-Placed shifted c n le w)

same_place :
    (n i m j : ℕ)
    → i < array_size n
    → j < array_size m
    → array_start n + i ≡ array_start m + j
    → (n ≡ m) × (i ≡ j)
same_place zero i zero j h k e = omega arith
same_place zero i (suc m) j h k e = absurd (omega (arith, two_pow_pos m))
same_place (suc n) i zero j h k e = absurd (omega (arith, two_pow_pos n))
same_place (suc n) i (suc m) j h k e =
    let up : suc n ≤ m → ⊥ = λ l. omega (arith, two_pow_suc n, two_pow_mono (suc n) m l) in
    let down : suc m ≤ n → ⊥ = λ l. omega (arith, two_pow_suc m, two_pow_mono (suc m) n l) in
    let same : n ≡ m = omega arith in (ap suc same, omega (arith, ap (λ (t : ℕ). 2 ^ t) same))

Placed-unique : {masked c : ℕ} (p q : KIndexPos) → Placed masked c p → Placed masked c q → p ≡ q
Placed-unique p q at at' =
    let (e, f) =
      same_place p.ptr_array_pos p.array_pos q.ptr_array_pos q.array_pos at.has_place at'.has_place
        (at.decodes ∙ sym at'.decodes) in
    ground arith

-- Under a mask of at most 64 bits, two shifted 64-bit hashes get one place exactly if their masked
-- hashes are equal.
pub kindex_pos-injective :
    (s t c : ℕ)
    → s < 2 ^ 64
    → t < 2 ^ 64
    → c ≤ 64
    → (kindex_pos s (ones c) ≡ kindex_pos t (ones c)) ↔ (bit_and s (ones c) ≡ bit_and t (ones c))
kindex_pos-injective s t c hs ht b =
    let (p, run, at) = kindex_pos-Placed s c hs b in
    let (q, run', at') = kindex_pos-Placed t c ht b in
    (
      λ e. rw (bit_and-ones c s, bit_and-ones c t) (ground (arith, at.decodes, at'.decodes)),
      λ e.
          let same : s % 2 ^ c ≡ t % 2 ^ c = sym (bit_and-ones c s) ∙ e ∙ bit_and-ones c t in
          run ∙ ap some (Placed-unique p q at (rw same at')) ∙ sym run',
    )
