-- ===== src/Search/Bisect.antt =====
-- Where the loop of the binary search ends.
use k2hash.Base.{
  ℕ, zero, suc, ◌+◌, ◌-◌, ◌/◌, ◌≤◌, ◌<◌, ◌≡◌, ◌⊎◌, inl, inr, Ordering, some, arith, is_eq, ◌==◌,
  Bool-cases, Ordering-cases,
}
use k2hash.Search.{Slot, found, after, before, bisect, position, is_found}

-- `r` is the number of elements below the target among `n`.
pub record IsRank (probe : ℕ → Ordering) (n r : ℕ) : Type 0 where
  pub bounded : r ≤ n
  pub below : (i : ℕ) → i < r → probe i ≡ Ordering.lt
  pub at : r < n → (probe r ≡ Ordering.gt) ⊎ (probe r ≡ Ordering.eq)
  pub above : (i : ℕ) → r < i → i < n → probe i ≡ Ordering.gt
  pub past : (i : ℕ) → n ≤ i → probe i ≡ Ordering.lt

-- The slot stands for position `r`, and tells whether the element there is equal.
abbrev pub Lands : (ℕ → Ordering) → ℕ → ℕ → Slot → Type 0
Lands probe n r slot = (position n slot ≡ r) × (is_found slot ≡ is_eq (probe r))

module _ (probe : ℕ → Ordering) (n r : ℕ) (k : IsRank probe n r) where
  lt_of_probe : (i : ℕ) → i < n → probe i ≡ Ordering.lt → i < r
  lt_of_probe i h e = ground (arith, k.at, k.above i)

  le_of_probe : (i : ℕ) → probe i ≡ Ordering.gt → (r ≤ i) × (i < n)
  le_of_probe i e = ground (arith, k.below i, k.past i)

  eq_of_probe : (i : ℕ) → probe i ≡ Ordering.eq → (i ≡ r) × (i < n)
  eq_of_probe i e = ground (arith, k.below i, k.past i, k.above i)

  pub bisect-Lands :
      (fuel start end : ℕ)
      → end - start < fuel
      → start ≤ r
      → r ≤ end
      → end ≤ n
      → (start ≡ 0) ⊎ (start < r)
      → (end ≡ n) ⊎ (probe end ≡ Ordering.gt)
      → (slot : Slot) × (bisect probe fuel start end ≡ some slot) × Lands probe n r slot
  unfolding bisect
  bisect-Lands zero start end f p q b s t = absurd (omega arith)
  bisect-Lands (suc fuel) start end f p q b s t = elim (Ordering-cases (probe mid)) [
    | inl lt ↦ elim (Bool-cases (start == mid)) [
      | inl here ↦ (
        after mid,
        rw (lt, bisect, here),
        (
          ground (arith, lt_of_probe mid, k.past mid),
          ground (arith, lt_of_probe mid, k.at, k.past n, k.past mid),
        ),
      )
      | inr more ↦
          rw (lt, bisect, more)
            (bisect-Lands fuel mid end (ground arith) (ground (arith, lt_of_probe mid)) q b
              (inr (ground (arith, lt_of_probe mid))) t)
    ]
    | inr (inl eq) ↦
        (found mid, rw (eq, bisect), ((eq_of_probe mid eq).0, ground (arith, eq_of_probe mid eq)))
    | inr (inr gt) ↦ elim (Bool-cases (end == mid)) [
      | inl here ↦ (
        before mid,
        rw (gt, bisect, here),
        (ground (arith, le_of_probe mid gt), ground (arith, le_of_probe mid gt)),
      )
      | inr more ↦
          rw (gt, bisect, more)
            (bisect-Lands fuel start mid (ground arith) p (ground (arith, le_of_probe mid gt))
              (ground arith) s (inr gt))
    ]
  ]
    where
      mid : ℕ
      mid = (start + end) / 2
