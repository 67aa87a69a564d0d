-- ===== src/Pages/Data/Overwrite.antt =====
-- `SetData` from an offset on, of bytes that fit what is stored: it overwrites them.
use k2hash.Base.{
  ℕ, zero, suc, ◌+◌, ◌-◌, ◌≤◌, ◌<◌, ◌≡◌, ◌≢◌, refl, ap, ◌∙◌, true, false, Option, some, List, [],
  ◌∷◌, ltb, leb, length, take, drop, ==_refl, ne→==, arith,
}
use k2hash.Bytes.{Bytes}
use k2hash.Elements.FreeList.{Apart, apart_cons}
use k2hash.Pages.{PageStore}
use k2hash.Pages.Data.{DataStore, splice, put_at, grown, next_page, write_loop}
use k2hash.Pages.Data.Written.{
  IsStored, stored_end, stored_more, take_all, drop_all, one_length-fits, one_length-more,
}
use k2hash.Pages.Data.Splice.{length-splice, take-splice}

-- Every page is full but the last.
abbrev pub IsFull : ℕ → PageStore → List ℕ → Type 0
IsFull size h [] = Unit
IsFull size h (p ∷ []) = Unit
IsFull size h (p ∷ (q ∷ ps)) = ((h p).length ≡ size) × IsFull size h (q ∷ ps)

-- Each page is there once.
abbrev pub IsOnce : List ℕ → Type 0
IsOnce [] = Unit
IsOnce (p ∷ ps) = Apart p ps × IsOnce ps

put_at_same : (d : DataStore) (p o : ℕ) (xs : Bytes) → put_at d p o xs p ≡ splice o xs (d p)
unfolding put_at
put_at_same d p o xs = rw (==_refl p) refl

pub put_at_other : (d : DataStore) (p q o : ℕ) (xs : Bytes) → q ≢ p → put_at d p o xs q ≡ d q
unfolding put_at
put_at_other d p q o xs other = rw (ne→== q p (λ f. absurd (other f))) refl

-- A page and those behind it, when the bytes of other pages change.
pub IsStored-other :
    {size : ℕ} {h : PageStore} {d d' : DataStore} {p q : ℕ} {ps : List ℕ} {bs : Bytes}
    → Apart q ps
    → ((x : ℕ) → x ≢ q → d' x ≡ d x)
    → IsStored size h d p ps bs
    → IsStored size h d' p ps bs
IsStored-other off same stored_end = stored_end
IsStored-other (apart_cons other off) same (stored_more bs some_p long fits here rest) =
    stored_more bs some_p long fits (rw (same _ other) here) (IsStored-other off same rest)

grown-same : (h : PageStore) (p n : ℕ) → n ≤ (h p).length → grown h p n ≡ h
grown-same h p n b = let e : ltb (h p).length n ≡ false = ground arith in rw e refl

pub length-take_le : (n : ℕ) (xs : Bytes) → n ≤ length xs → length (take n xs) ≡ n
length-take_le zero xs b = refl
length-take_le (suc n) [] b = absurd (omega arith)
length-take_le (suc n) (x ∷ xs) b = let e = length-take_le n xs (omega arith) in omega (arith, e)

-- The bytes of a page that is written in place.
pub stored_at :
    (d : DataStore) (p o : ℕ) (xs bs : Bytes)
    → o + length xs ≤ length bs
    → take (length bs) (d p) ≡ bs
    → take (length (splice o xs bs)) (put_at d p o xs p) ≡ splice o xs bs
stored_at d p o xs bs b here =
    let room : length bs ≤ length (d p) =
      within (length bs) (d p) (ap (λ (y : Bytes). length y) here) in
    ap (λ (n : ℕ). take n (put_at d p o xs p)) (length-splice o xs bs b)
    ∙ ap (take (length bs)) (put_at_same d p o xs)
    ∙ take-splice o xs (d p) (length bs) b room
    ∙ ap (splice o xs) here
  where
    within : (n : ℕ) (ys : Bytes) → length (take n ys) ≡ n → n ≤ length ys
    within zero ys e = omega arith
    within (suc n) [] e = absurd (omega arith)
    within (suc n) (y ∷ ys) e = let f = within n ys (omega (arith, e)) in omega (arith, f)

module _ (add_pages : PageStore → (p length : ℕ) → Option PageStore) (size : ℕ)
    (h : PageStore) where
  pub write_loop-skip :
      (n : ℕ) (d : DataStore) (p o : ℕ) (bs : Bytes)
      → size ≤ o
      → size ≤ (h p).length
      → (h p).next ≢ 0
      → write_loop (suc n) add_pages size h d p o bs
        ≡ write_loop n add_pages size h d (h p).next (o - size) bs
  unfolding write_loop next_page
  write_loop-skip n d p o bs b full more =
      let e : leb size o ≡ true = ground arith in
      let f : ltb (h p).length size ≡ false = ground arith in
      rw (write_loop, e, f, next_page, ne→== (h p).next 0 (λ g. absurd (more g))) refl

  pub write_loop-last :
      (n : ℕ) (d : DataStore) (p o : ℕ) (bs : Bytes)
      → o < size
      → length bs ≤ size - o
      → length bs + o ≤ (h p).length
      → write_loop (suc n) add_pages size h d p o bs ≡ some (some (p, h, put_at d p o bs))
  unfolding write_loop
  write_loop-last n d p o bs b fits stays =
      let e : leb size o ≡ false = ground arith in
      let r = one_length-fits (size - o) bs fits in
      let f : ltb (h p).length (length bs + o) ≡ false = ground arith in
      rw (write_loop, e, r, drop_all bs, r, f, take_all bs) refl

  pub write_loop-more :
      (n : ℕ) (d : DataStore) (p o c : ℕ) (bs cs : Bytes)
      → o < size
      → size - o < length bs
      → drop (size - o) bs ≡ c ∷ cs
      → size ≤ (h p).length
      → (h p).next ≢ 0
      → write_loop (suc n) add_pages size h d p o bs
        ≡ write_loop n add_pages size h (put_at d p o (take (size - o) bs)) (h p).next 0 (c ∷ cs)
  unfolding write_loop next_page
  write_loop-more n d p o c bs cs b past left full more =
      let e : leb size o ≡ false = ground arith in
      let r = one_length-more (size - o) bs past in
      let whole : size - o + o ≡ size = omega arith in
      let f : ltb (h p).length size ≡ false = ground arith in
      rw
        (
          write_loop,
          e,
          r,
          left,
          r,
          whole,
          f,
          next_page,
          ne→== (h p).next 0 (λ g. absurd (more g)),
          r,
        )
        refl
