-- ===== src/Pages/Data/Splice.antt =====
-- Bytes that are written at an offset in other bytes.
use k2hash.Base.{
  ℕ, zero, suc, ◌+◌, ◌-◌, ◌≤◌, ◌≡◌, refl, sym, ap, ◌∙◌, [], ◌∷◌, ◌++◌, length, take, drop,
  append_assoc, length-append, length-drop, arith,
}
use k2hash.Bytes.{Bytes}
use k2hash.Pages.Data.{splice}

pub length-splice :
    (o : ℕ) (xs bs : Bytes) → o + length xs ≤ length bs → length (splice o xs bs) ≡ length bs
unfolding splice
length-splice zero xs bs b =
    omega (arith, length-append xs (drop (length xs) bs), length-drop (length xs) bs)
length-splice (suc o) xs [] b = absurd (omega arith)
length-splice (suc o) xs (c ∷ bs) b =
    let e = length-splice o xs bs (omega arith) in omega (arith, e)

take_front :
    (xs bs : Bytes) (n : ℕ)
    → length xs ≤ n
    → take n (xs ++ drop (length xs) bs) ≡ xs ++ drop (length xs) (take n bs)
take_front [] bs n b = refl
take_front (x ∷ xs) bs zero b = absurd (omega arith)
take_front (x ∷ xs) [] (suc n) b = ap (◌∷◌ x) (nothing xs n (omega arith))
  where
    nothing : (ys : Bytes) (k : ℕ) → length ys ≤ k → take k (ys ++ []) ≡ ys ++ []
    nothing [] zero b = refl
    nothing [] (suc k) b = refl
    nothing (y ∷ ys) zero b = absurd (omega arith)
    nothing (y ∷ ys) (suc k) b = ap (◌∷◌ y) (nothing ys k (omega arith))
take_front (x ∷ xs) (c ∷ bs) (suc n) b = ap (◌∷◌ x) (take_front xs bs n (omega arith))

-- What stands behind the first `n` bytes does not matter to them.
pub take-splice :
    (o : ℕ) (xs bs : Bytes) (n : ℕ)
    → o + length xs ≤ n
    → n ≤ length bs
    → take n (splice o xs bs) ≡ splice o xs (take n bs)
unfolding splice
take-splice zero xs bs n b c = take_front xs bs n (omega arith)
take-splice (suc o) xs bs zero b c = absurd (omega arith)
take-splice (suc o) xs [] (suc n) b c = absurd (omega arith)
take-splice (suc o) xs (y ∷ bs) (suc n) b c =
    ap (◌∷◌ y) (take-splice o xs bs n (omega arith) (omega arith))

-- Writing behind, within, and over the end of the first part.
pub splice_behind :
    (o : ℕ) (xs bs cs : Bytes)
    → length bs ≤ o
    → splice o xs (bs ++ cs) ≡ bs ++ splice (o - length bs) xs cs
unfolding splice
splice_behind o xs [] cs b = let e : o - 0 ≡ o = omega arith in rw e refl
splice_behind zero xs (y ∷ bs) cs b = absurd (omega arith)
splice_behind (suc o) xs (y ∷ bs) cs b =
    let e : suc o - suc (length bs) ≡ o - length bs = omega arith in
    rw e (ap (◌∷◌ y) (splice_behind o xs bs cs (omega arith)))

drop_front : (n : ℕ) (bs cs : Bytes) → n ≤ length bs → drop n (bs ++ cs) ≡ drop n bs ++ cs
drop_front zero bs cs b = refl
drop_front (suc n) [] cs b = absurd (omega arith)
drop_front (suc n) (y ∷ bs) cs b = drop_front n bs cs (omega arith)

pub splice_within :
    (o : ℕ) (xs bs cs : Bytes)
    → o + length xs ≤ length bs
    → splice o xs (bs ++ cs) ≡ splice o xs bs ++ cs
unfolding splice
splice_within zero xs bs cs b =
    ap (λ (y : Bytes). xs ++ y) (drop_front (length xs) bs cs (omega arith))
    ∙ sym (append_assoc xs (drop (length xs) bs) cs)
splice_within (suc o) xs [] cs b = absurd (omega arith)
splice_within (suc o) xs (y ∷ bs) cs b = ap (◌∷◌ y) (splice_within o xs bs cs (omega arith))

-- The bytes up to the end of the first part, and the others at the start of the second one.
pub splice_over :
    (o : ℕ) (xs bs cs : Bytes)
    → o ≤ length bs
    → length bs - o ≤ length xs
    → splice o xs (bs ++ cs)
      ≡ splice o (take (length bs - o) xs) bs ++ splice 0 (drop (length bs - o) xs) cs
unfolding splice
splice_over zero xs bs cs b c =
    let e : length bs - 0 ≡ length bs = omega arith in rw e (over xs bs (omega (arith, e, c)))
  where
    over :
        (ys as_ : Bytes)
        → length as_ ≤ length ys
        → ys ++ drop (length ys) (as_ ++ cs)
          ≡ (take (length as_) ys ++ drop (length (take (length as_) ys)) as_)
            ++ (drop (length as_) ys ++ drop (length (drop (length as_) ys)) cs)
    over ys [] b = refl
    over [] (a ∷ as_) b = absurd (omega arith)
    over (y ∷ ys) (a ∷ as_) b = ap (◌∷◌ y) (over ys as_ (omega arith))
splice_over (suc o) xs [] cs b c = absurd (omega arith)
splice_over (suc o) xs (y ∷ bs) cs b c =
    let e : suc (length bs) - suc o ≡ length bs - o = omega arith in
    rw e (ap (◌∷◌ y) (splice_over o xs bs cs (omega arith) (omega (arith, e, c))))
