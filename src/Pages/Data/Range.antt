-- ===== src/Pages/Data/Range.antt =====
-- `LoadData` from an offset on reads a part of the bytes.
use k2hash.Base.{
  ℕ, zero, suc, ◌+◌, ◌-◌, ◌≤◌, ◌≡◌, ◌≢◌, ◌⊎◌, refl, sym, ap, ◌∙◌, true, Bool-cases, inl, inr, some,
  List, [], ◌∷◌, ◌++◌, ◌==◌, leb, length, take, drop, append-nil, append_assoc, length-drop, ne→==,
  arith,
}
use k2hash.Bytes.{Bytes}
use k2hash.Pages.{PageStore}
use k2hash.Pages.Data.{DataStore, this_length, next_offset, range_loop, load_range}
use k2hash.Pages.Data.Written.{IsStored, stored_end, stored_more}

-- A part that lies within the first `k` bytes.
take-take : (n k : ℕ) (xs : Bytes) → n ≤ k → take n (take k xs) ≡ take n xs
take-take zero k xs b = refl
take-take (suc n) zero xs b = absurd (omega arith)
take-take (suc n) (suc k) [] b = refl
take-take (suc n) (suc k) (x ∷ xs) b = ap (◌∷◌ x) (take-take n k xs (omega arith))

part : (o n k : ℕ) (xs : Bytes) → o + n ≤ k → take n (drop o (take k xs)) ≡ take n (drop o xs)
part zero n k xs b = take-take n k xs (omega arith)
part (suc o) n zero xs b = absurd (omega arith)
part (suc o) n (suc k) [] b = refl
part (suc o) n (suc k) (x ∷ xs) b = part o n k xs (omega arith)

drop_behind : (o : ℕ) (xs ys : Bytes) → length xs ≤ o → drop o (xs ++ ys) ≡ drop (o - length xs) ys
drop_behind o [] ys b = let e : o - 0 ≡ o = omega arith in rw e refl
drop_behind zero (x ∷ xs) ys b = absurd (omega arith)
drop_behind (suc o) (x ∷ xs) ys b =
    let e : suc o - suc (length xs) ≡ o - length xs = omega arith in
    rw e (drop_behind o xs ys (omega arith))

drop_within : (o : ℕ) (xs ys : Bytes) → o ≤ length xs → drop o (xs ++ ys) ≡ drop o xs ++ ys
drop_within zero xs ys b = refl
drop_within (suc o) [] ys b = absurd (omega arith)
drop_within (suc o) (x ∷ xs) ys b = drop_within o xs ys (omega arith)

take_within : (n : ℕ) (xs ys : Bytes) → n ≤ length xs → take n (xs ++ ys) ≡ take n xs
take_within zero xs ys b = refl
take_within (suc n) [] ys b = absurd (omega arith)
take_within (suc n) (x ∷ xs) ys b = ap (◌∷◌ x) (take_within n xs ys (omega arith))

take_behind :
    (n : ℕ) (xs ys : Bytes)
    → length xs ≤ n
    → take n (xs ++ ys) ≡ take (length xs) xs ++ take (n - length xs) ys
take_behind n [] ys b = let e : n - 0 ≡ n = omega arith in rw e refl
take_behind zero (x ∷ xs) ys b = absurd (omega arith)
take_behind (suc n) (x ∷ xs) ys b =
    let e : suc n - suc (length xs) ≡ n - length xs = omega arith in
    rw e (ap (◌∷◌ x) (take_behind n xs ys (omega arith)))

take_none : (n : ℕ) → take {A = ℕ} n [] ≡ []
take_none zero = refl
take_none (suc n) = refl

drop_none : (n : ℕ) → drop {A = ℕ} n [] ≡ []
drop_none zero = refl
drop_none (suc n) = refl

-- What a page gives and what is left for those behind it.
take_part :
    (o l : ℕ) (bs cs : Bytes)
    → let t = this_length (length bs) o l in
      take l (drop o (bs ++ cs))
      ≡ take t (drop o bs) ++ take (l - t) (drop (next_offset (length bs) o) cs)
unfolding this_length next_offset
take_part o l bs cs = elim (Bool-cases (leb (length bs) o)) [
  | inl e ↦
      let whole : l - 0 ≡ l = omega arith in
      rw (e, whole) (ap (take l) (drop_behind o bs cs (ground arith)))
  | inr e ↦
      let rest : length (drop o bs) ≡ length bs - o = length-drop o bs in
      elim (Bool-cases (leb (length bs - o) l)) [
        | inl f ↦
            rw (e, f)
              (ap (take l) (drop_within o bs cs (ground arith))
                ∙ take_behind l (drop o bs) cs (ground (arith, rest))
                ∙ ap (λ (k : ℕ). take k (drop o bs) ++ take (l - k) cs) rest)
        | inr f ↦
            let done : l - l ≡ 0 = omega arith in
            rw (e, f, done)
              (ap (take l) (drop_within o bs cs (ground arith))
                ∙ take_within l (drop o bs) cs (ground (arith, rest))
                ∙ sym (append-nil (take l (drop o bs))))
      ]
]

page_part :
    (o l : ℕ) (bs xs : Bytes)
    → take (length bs) xs ≡ bs
    → take (this_length (length bs) o l) (drop o xs)
      ≡ take (this_length (length bs) o l) (drop o bs)
unfolding this_length
page_part o l bs xs here = elim (Bool-cases (leb (length bs) o)) [
  | inl e ↦ rw e refl
  | inr e ↦ elim (Bool-cases (leb (length bs - o) l)) [
    | inl f ↦
        rw (e, f)
          (sym (part o (length bs - o) (length bs) xs (ground arith))
            ∙ ap (λ (y : Bytes). take (length bs - o) (drop o y)) here)
    | inr f ↦
        rw (e, f)
          (sym (part o l (length bs) xs (ground arith))
            ∙ ap (λ (y : Bytes). take l (drop o y)) here)
  ]
]

-- The first page gives `all`; the pages behind it give what `next` reads, or there are none.
module _ (n : ℕ) (h : PageStore) (d : DataStore) (p o l : ℕ) (acc : Bytes) where
  abbrev this : ℕ
  this = this_length (h p).length o l

  range_loop-last :
      (length_left : l - this ≡ 0)
      → range_loop (suc n) h d p o l acc ≡ some (p, acc ++ take this (drop o (d p)), o + this)
  unfolding range_loop
  range_loop-last e = let f : (l - this == 0) ≡ true = ground (arith, e) in rw (range_loop, f) refl

  range_loop-end :
      l - this ≢ 0
      → (h p).next ≡ 0
      → range_loop (suc n) h d p o l acc ≡ some (p, acc ++ take this (drop o (d p)), o + this)
  unfolding range_loop
  range_loop-end more e = rw (range_loop, ne→== (l - this) 0 (λ f. absurd (more f)), e) refl

  range_loop-more :
      l - this ≢ 0
      → (h p).next ≢ 0
      → range_loop (suc n) h d p o l acc
        ≡ range_loop n h d
            (h p).next
            (next_offset (h p).length o)
            (l - this)
            (acc ++ take this (drop o (d p)))
  unfolding range_loop
  range_loop-more more other =
      rw
        (
          range_loop,
          ne→== (l - this) 0 (λ f. absurd (more f)),
          ne→== (h p).next 0 (λ f. absurd (other f)),
        )
        refl

next_none :
    {size : ℕ} {h : PageStore} {d : DataStore} {ps : List ℕ} {p : ℕ} {cs : Bytes}
    → IsStored size h d p ps cs
    → p ≡ 0
    → cs ≡ []
next_none stored_end e = refl
next_none (stored_more bs some_p long fits here rest) e = absurd (some_p e)

zero_or_not : (n : ℕ) → (n ≡ 0) ⊎ (n ≢ 0)
zero_or_not zero = inl refl
zero_or_not (suc n) = inr (λ e. omega arith)

-- The loop on pages that hold `bs` reads the part of it from `o` on, of `l` bytes or up to the end.
range_loop-IsStored :
    (size : ℕ) (h : PageStore) (d : DataStore) (n p : ℕ) (ps : List ℕ) (o l : ℕ) (acc bs : Bytes)
    → p ≢ 0
    → length ps ≤ n
    → IsStored size h d p ps bs
    → (q : ℕ) × (pos : ℕ) × (range_loop n h d p o l acc ≡ some (q, acc ++ take l (drop o bs), pos))
range_loop-IsStored size h d n _ _ o l acc _ other fuel stored_end = absurd (other refl)
range_loop-IsStored size h d zero p _ o l acc _ other fuel
      (stored_more bs some_p long fits here rest) =
    absurd (omega arith)
range_loop-IsStored size h d (suc n) p _ o l acc _ other fuel
      (stored_more {ps = ps} {cs = cs} bs some_p long fits here rest) =
    let t = this_length (h p).length o l in
    let o' = next_offset (h p).length o in
    let page : take t (drop o (d p)) ≡ take t (drop o bs) = rw long (page_part o l bs (d p) here) in
    let whole : take l (drop o (bs ++ cs)) ≡ take t (drop o bs) ++ take (l - t) (drop o' cs) =
      rw long (take_part o l bs cs) in
    let rejoin : (xs : Bytes)
        → xs ≡ take (l - t) (drop o' cs)
        → (acc ++ take t (drop o (d p))) ++ xs ≡ acc ++ take l (drop o (bs ++ cs)) =
      λ xs e.
        append_assoc acc (take t (drop o (d p))) xs
        ∙ ap (λ (y : Bytes). acc ++ y)
            (ap (λ (y : Bytes). y ++ xs) page
              ∙ ap (λ (y : Bytes). take t (drop o bs) ++ y) e
              ∙ sym whole) in
    let stops : take (l - t) (drop o' cs) ≡ []
        → acc ++ take t (drop o (d p)) ≡ acc ++ take l (drop o (bs ++ cs)) =
      λ e. sym (append-nil (acc ++ take t (drop o (d p)))) ∙ rejoin [] (sym e) in
    elim (zero_or_not (l - t)) [
      | inl e ↦ (
        p,
        o + t,
        range_loop-last n h d p o l acc e
            ∙ ap (λ (y : Bytes). some (p, y, o + t))
                (stops (ap (λ (k : ℕ). take k (drop o' cs)) e)),
      )
      | inr more ↦ elim (zero_or_not (h p).next) [
        | inl e ↦ (
          p,
          o + t,
          range_loop-end n h d p o l acc more e
              ∙ ap (λ (y : Bytes). some (p, y, o + t))
                  (stops (
                    ap (λ (y : Bytes). take (l - t) (drop o' y)) (next_none rest e)
                    ∙ ap (take (l - t)) (drop_none o')
                    ∙ take_none (l - t))),
        )
        | inr e ↦
            let (q, pos, run) =
              range_loop-IsStored size h d n (h p).next ps o' (l - t) (acc ++ take t (drop o (d p)))
                cs e (omega arith) rest in
            (
              q,
              pos,
              range_loop-more n h d p o l acc more e
                  ∙ run
                  ∙ ap (λ (y : Bytes). some (q, y, pos)) (rejoin (take (l - t) (drop o' cs)) refl),
            )
      ]
    ]

-- `LoadData` of `l` bytes from the offset `o` on, in pages that hold `bs`, with as many steps as
-- there are pages, reads the bytes of `bs` from `o` on, `l` of them or up to the end.
pub load_range-IsStored :
    (size n : ℕ) (h : PageStore) (d : DataStore) (p : ℕ) (ps : List ℕ) (o l : ℕ) (bs : Bytes)
    → p ≢ 0
    → length ps ≤ n
    → IsStored size h d p ps bs
    → (q : ℕ) × (pos : ℕ) × (load_range n h d p o l ≡ some (q, take l (drop o bs), pos))
unfolding load_range
load_range-IsStored size n h d p ps o l bs other fuel s =
    let (q, pos, run) = range_loop-IsStored size h d n p ps o l [] bs other fuel s in
    (q, pos, rw (load_range, ne→== p 0 (λ f. absurd (other f))) run)
