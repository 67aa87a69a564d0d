-- ===== src/Pages/Data/Replaced.antt =====
-- `SetData` from an offset on, within what is stored, replaces these bytes and nothing else.
use k2hash.Base.{
  ℕ, zero, suc, ◌+◌, ◌-◌, ◌≤◌, ◌<◌, ◌≡◌, ◌≢◌, refl, sym, ap, subst, ◌∙◌, Bool-cases, inl, inr,
  Option, some, List, [], ◌∷◌, ◌++◌, leb, length, take, drop, length-drop, length-append, ne→==,
  arith,
}
use k2hash.Bytes.{Bytes}
use k2hash.Elements.FreeList.{Apart, apart_cons}
use k2hash.Pages.{PageStore}
use k2hash.Pages.Data.{DataStore, splice, put_at, write_loop, write_range}
use k2hash.Pages.Data.Written.{IsStored, stored_end, stored_more}
use k2hash.Pages.Data.Splice.{length-splice, splice_behind, splice_within, splice_over}
use k2hash.Pages.Data.Overwrite.{
  IsFull, IsOnce, put_at_other, IsStored-other, length-take_le, stored_at, write_loop-skip,
  write_loop-last, write_loop-more,
}

stored_none :
    {size : ℕ} {h : PageStore} {d : DataStore} {p : ℕ} {cs : Bytes}
    → IsStored size h d p [] cs
    → cs ≡ []
stored_none stored_end = refl

stored_some :
    {size : ℕ} {h : PageStore} {d : DataStore} {p q : ℕ} {ps : List ℕ} {cs : Bytes}
    → IsStored size h d p (q ∷ ps) cs
    → p ≢ 0
stored_some (stored_more bs some_p long fits here rest) = some_p

-- What `SetData` from an offset on leaves: the same page heads, the pages with the bytes in place, and the
-- bytes of all other pages.
pub record IsOverwritten (size : ℕ) (h : PageStore) (d : DataStore) (p : ℕ) (ps : List ℕ) (o : ℕ)
    (xs bs : Bytes) (run : Option (Option (ℕ × PageStore × DataStore))) : Type 0 where
  pub last : ℕ
  pub datas : DataStore
  pub runs : run ≡ some (some (last, h, datas))
  pub stored : IsStored size h datas p ps (splice o xs bs)
  pub others : (x : ℕ) → Apart x ps → datas x ≡ d x

other_of : {x p : ℕ} {ps : List ℕ} → Apart x (p ∷ ps) → x ≢ p
other_of (apart_cons other off) = λ e. other (sym e)

behind_of : {x p : ℕ} {ps : List ℕ} → Apart x (p ∷ ps) → Apart x ps
behind_of (apart_cons other off) = off

module _ (add_pages : PageStore → (p length : ℕ) → Option PageStore) (size : ℕ)
    (h : PageStore) where
  -- All the bytes fit the page.
  overwrite_here :
      (n : ℕ) (d : DataStore) (p : ℕ) (ps : List ℕ) (o : ℕ) (xs bs cs : Bytes)
      → p ≢ 0
      → (h p).length ≡ length bs
      → length bs ≤ size
      → take (length bs) (d p) ≡ bs
      → Apart p ps
      → IsStored size h d (h p).next ps cs
      → 0 < length xs
      → o + length xs ≤ length bs
      → IsOverwritten size h d p
          (p ∷ ps)
          o
          xs
          (bs ++ cs)
          (write_loop (suc n) add_pages size h d p o xs)
  overwrite_here n d p ps o xs bs cs some_p long fits here once rest pos b =
      let l = length-splice o xs bs b in
      record {
        last = p;
        datas = put_at d p o xs;
        runs =
            write_loop-last add_pages size h n d p o xs (omega arith) (omega arith)
              (omega (arith, long));
        stored =
            subst (IsStored size h (put_at d p o xs) p (p ∷ ps)) (sym (splice_within o xs bs cs b))
              (stored_more (splice o xs bs) some_p (long ∙ sym l) (omega (arith, l))
                (stored_at d p o xs bs b here)
                (IsStored-other once (λ x e. put_at_other d p x o xs e) rest));
        others = λ x off. put_at_other d p x o xs (other_of off);
      }

  -- The page ends before the offset.
  overwrite_behind :
      (n : ℕ) (d : DataStore) (p q : ℕ) (ps : List ℕ) (o : ℕ) (xs bs cs : Bytes)
      → p ≢ 0
      → (h p).length ≡ length bs
      → length bs ≡ size
      → take (length bs) (d p) ≡ bs
      → Apart p (q ∷ ps)
      → (h p).next ≢ 0
      → size ≤ o
      → IsOverwritten size h d
          (h p).next
          (q ∷ ps)
          (o - size)
          xs
          cs
          (write_loop n add_pages size h d (h p).next (o - size) xs)
      → IsOverwritten size h d p
          (p ∷ q ∷ ps)
          o
          xs
          (bs ++ cs)
          (write_loop (suc n) add_pages size h d p o xs)
  overwrite_behind n d p q ps o xs bs cs some_p long full here once more b w = record {
    last = w.last;
    datas = w.datas;
    runs = write_loop-skip add_pages size h n d p o xs b (omega (arith, long, full)) more ∙ w.runs;
    stored =
        subst (IsStored size h w.datas p (p ∷ q ∷ ps))
          (sym (
            splice_behind o xs bs cs (omega (arith, full))
            ∙ ap (λ (k : ℕ). bs ++ splice (o - k) xs cs) full))
          (stored_more bs some_p long (omega (arith, full)) (rw (w.others p once) here) w.stored);
    others = λ x off. w.others x (behind_of off);
  }

  -- The bytes go on in the page behind.
  overwrite_over :
      (n : ℕ) (d : DataStore) (p q : ℕ) (ps : List ℕ) (o : ℕ) (xs bs cs : Bytes) (y : ℕ)
      (ys : Bytes)
      → p ≢ 0
      → (h p).length ≡ length bs
      → length bs ≡ size
      → take (length bs) (d p) ≡ bs
      → Apart p (q ∷ ps)
      → (h p).next ≢ 0
      → o < size
      → size - o < length xs
      → drop (size - o) xs ≡ y ∷ ys
      → IsOverwritten size h
          (put_at d p o (take (size - o) xs))
          (h p).next
          (q ∷ ps)
          0
          (y ∷ ys)
          cs
          (write_loop n add_pages size h (put_at d p o (take (size - o) xs)) (h p).next 0 (y ∷ ys))
      → IsOverwritten size h d p
          (p ∷ q ∷ ps)
          o
          xs
          (bs ++ cs)
          (write_loop (suc n) add_pages size h d p o xs)
  overwrite_over n d p q ps o xs bs cs y ys some_p long full here once more b past left w =
      let x1 = take (size - o) xs in
      let t : length x1 ≡ size - o = length-take_le (size - o) xs (omega arith) in
      let inside : o + length x1 ≤ length bs = omega (arith, t, full) in
      let l = length-splice o x1 bs inside in
      record {
        last = w.last;
        datas = w.datas;
        runs =
            write_loop-more add_pages size h n d p o y xs ys b past left (omega (arith, long, full))
              more
            ∙ w.runs;
        stored =
            subst (IsStored size h w.datas p (p ∷ q ∷ ps))
              (sym (
                splice_over o xs bs cs (omega (arith, full)) (omega (arith, full))
                ∙ ap (λ (k : ℕ). splice o (take (k - o) xs) bs ++ splice 0 (drop (k - o) xs) cs)
                    full
                ∙ ap (λ (z : Bytes). splice o x1 bs ++ splice 0 z cs) left))
              (stored_more (splice o x1 bs) some_p (long ∙ sym l) (omega (arith, l, full))
                (ap (take (length (splice o x1 bs))) (w.others p once)
                  ∙ stored_at d p o x1 bs inside here)
                w.stored);
        others = λ x off. w.others x (behind_of off) ∙ put_at_other d p x o x1 (other_of off);
      }

-- On pages that hold `bs`, full but the last, of bytes that stay within these.
write_loop-IsOverwritten :
    (add_pages : PageStore → (p length : ℕ) → Option PageStore) (size : ℕ) (h : PageStore) (n : ℕ)
    (d : DataStore) (p : ℕ) (ps : List ℕ) (o : ℕ) (xs bs : Bytes)
    → IsStored size h d p ps bs
    → IsFull size h ps
    → IsOnce ps
    → length ps ≤ n
    → 0 < length xs
    → o + length xs ≤ length bs
    → IsOverwritten size h d p ps o xs bs (write_loop n add_pages size h d p o xs)
write_loop-IsOverwritten add_pages size h n d _ _ o xs _ stored_end full once fuel pos b =
    absurd (omega arith)
write_loop-IsOverwritten add_pages size h zero d p _ o xs _
      (stored_more {ps = ps} {cs = cs} bs some_p long fits here rest) full once fuel pos b =
    absurd (omega arith)
write_loop-IsOverwritten add_pages size h (suc n) d p _ o xs _
      (stored_more {ps = []} {cs = cs} bs some_p long fits here rest) full once fuel pos b =
    let none_left : length cs ≡ 0 = ap (λ (y : Bytes). length y) (stored_none rest) in
    overwrite_here add_pages size h n d p [] o xs bs cs some_p long fits here once.0 rest pos
      (omega (arith, length-append bs cs, none_left))
write_loop-IsOverwritten add_pages size h (suc n) d p _ o xs _
      (stored_more {ps = q ∷ ps} {cs = cs} bs some_p long fits here rest) full once fuel pos b =
    let whole : length bs ≡ size = sym long ∙ full.0 in
    let all = length-append bs cs in
    let more = stored_some rest in
    elim (Bool-cases (leb (o + length xs) size)) [
      | inl e ↦
          overwrite_here add_pages size h n d p (q ∷ ps) o xs bs cs some_p long fits here once.0
            rest pos (ground (arith, whole))
      | inr e ↦ elim (Bool-cases (leb size o)) [
        | inl f ↦
            overwrite_behind add_pages size h n d p q ps o xs bs cs some_p long whole here once.0
              more (ground arith)
              (write_loop-IsOverwritten add_pages size h n d (h p).next (q ∷ ps) (o - size) xs cs
                rest full.1 once.1 (omega arith) pos (ground (arith, all, whole)))
        | inr f ↦
            go (drop (size - o) xs) refl (length-drop (size - o) xs) whole all more (ground arith)
              (ground arith)
              (λ r v w.
                write_loop-IsOverwritten add_pages size h n (put_at d p o (take (size - o) xs))
                  (h p).next (q ∷ ps) 0 r cs
                  (IsStored-other once.0 (λ x g. put_at_other d p x o (take (size - o) xs) g) rest)
                  full.1 once.1 (omega arith) v w)
      ]
    ]
  where
    go :
        (r : Bytes)
        → drop (size - o) xs ≡ r
        → length (drop (size - o) xs) ≡ length xs - (size - o)
        → length bs ≡ size
        → length (bs ++ cs) ≡ length bs + length cs
        → (h p).next ≢ 0
        → o < size
        → size - o < length xs
        → ((r' : Bytes)
            → 0 < length r'
            → 0 + length r' ≤ length cs
            → IsOverwritten size h
                (put_at d p o (take (size - o) xs))
                (h p).next
                (q ∷ ps)
                0
                r'
                cs
                (write_loop n add_pages size h (put_at d p o (take (size - o) xs)) (h p).next 0 r'))
        → IsOverwritten size h d p
            (p ∷ q ∷ ps)
            o
            xs
            (bs ++ cs)
            (write_loop (suc n) add_pages size h d p o xs)
    go [] e l whole all more within past next =
        let g : length (drop (size - o) xs) ≡ 0 = ap (λ (y : Bytes). length y) e in
        absurd (omega (arith, g, l))
    go (y ∷ ys) e l whole all more within past next =
        let g : length (drop (size - o) xs) ≡ suc (length ys) = ap (λ (z : Bytes). length z) e in
        overwrite_over add_pages size h n d p q ps o xs bs cs y ys some_p long whole here once.0
          more within past e (next (y ∷ ys) (omega arith) (omega (arith, g, l, whole, all)))

-- `SetData` of bytes that are not empty from the offset `o` on, in pages that hold `bs`, each once
-- and full but the last, where the bytes stay within `bs`, with as many steps as there are pages:
-- it needs no more pages and changes no page head, the pages then hold `bs` with these bytes in
-- place, and the bytes of all other pages are as they were.
pub write_range-IsOverwritten :
    (add_pages : PageStore → (p length : ℕ) → Option PageStore) (size : ℕ) (h : PageStore) (n : ℕ)
    (d : DataStore) (p : ℕ) (ps : List ℕ) (o x : ℕ) (xs bs : Bytes)
    → p ≢ 0
    → IsStored size h d p ps bs
    → IsFull size h ps
    → IsOnce ps
    → length ps ≤ n
    → o + length (x ∷ xs) ≤ length bs
    → IsOverwritten size h d p ps o (x ∷ xs) bs (write_range n add_pages size h d p o (x ∷ xs))
unfolding write_range
write_range-IsOverwritten add_pages size h n d p ps o x xs bs some_p s full once fuel b =
    rw (write_range, ne→== p 0 (λ g. absurd (some_p g)))
      (write_loop-IsOverwritten add_pages size h n d p ps o (x ∷ xs) bs s full once fuel
        (omega arith) b)
