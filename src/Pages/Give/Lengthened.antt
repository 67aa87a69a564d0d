-- ===== src/Pages/Give/Lengthened.antt =====
-- What `Truncate` does to a value whose first page is full.
use k2hash.Base.{
  ℕ, zero, suc, ◌+◌, ◌-◌, ◌*◌, ◌<◌, ◌≡◌, ◌≢◌, refl, ◌∙◌, Bool, true, false, Option, some, List, ◌∷◌,
  ltb, leb, length, ne→==, arith,
}
use k2hash.Pages.{PageStore, PageList}
use k2hash.Pages.Chain.{IsChain, chain_end, chain_more, IsChain-put}
use k2hash.Pages.Data.{set_length}
use k2hash.Pages.Give.{lengthen_loop, lengthen, truncate}

loop_end :
    (n size m : ℕ) (h : PageStore) → m ≢ 0 → lengthen_loop (suc n) size h 0 m ≡ some (false, h)
unfolding lengthen_loop
loop_end n size m h some_m = rw (lengthen_loop, ne→== m 0 (λ e. absurd (some_m e))) refl

loop_step :
    (n size m : ℕ) (h : PageStore) (p : ℕ)
    → p ≢ 0
    → size < m
    → lengthen_loop (suc n) size h p m
      ≡ lengthen_loop n size (set_length h p size) (h p).next (m - size)
unfolding lengthen_loop
loop_step n size m h p some_p b =
    let e : leb m size ≡ false = ground arith in
    rw (lengthen_loop, ne→== m 0 (λ f. omega (arith, f)), ne→== p 0 (λ f. absurd (some_p f)), e)
      refl

-- The loop has too few pages.
lengthen_loop-short :
    (n size m : ℕ) (h : PageStore) (before p : ℕ) (ps : List ℕ)
    → IsChain h before p ps
    → size * length ps < m
    → length ps < n
    → (h' : PageStore) × (lengthen_loop n size h p m ≡ some (false, h'))
lengthen_loop-short zero size m h before p ps c b fuel = absurd (omega arith)
lengthen_loop-short (suc n) size m h before _ _ chain_end b fuel =
    (h, loop_end n size m h (λ e. omega (arith, e)))
lengthen_loop-short (suc n) size m h before p _ (chain_more {ps = ps} some_p once f rest) b fuel =
    let a : size * suc (length ps) ≡ size + size * length ps = grind arith in
    let (h', run) =
      lengthen_loop-short n size (m - size) (set_length h p size) p (h p).next ps
        (IsChain-put h p _ p (h p).next ps once rest) (omega (arith, a)) (omega arith) in
    (h', loop_step n size m h p some_p (omega (arith, a)) ∙ run)

lengthen-full :
    (n : ℕ) (add_pages : PageStore → PageList → (p length : ℕ) → Option (PageStore × PageList))
    (size m : ℕ) (h h' : PageStore) (free : PageList) (p : ℕ) (r : Bool)
    → (h p).length ≡ size
    → (h p).next ≢ 0
    → 0 < m
    → lengthen_loop n size h (h p).next m ≡ some (r, h')
    → lengthen n add_pages size h free p m ≡ some (r, h', free)
unfolding lengthen
lengthen-full n add_pages size m h h' free p r full more pos e =
    let f : ltb (h p).length size ≡ false = ground (arith, full) in
    rw
      (
        lengthen,
        f,
        ne→== m 0 (λ g. omega (arith, g)),
        ne→== (h p).next 0 (λ g. absurd (more g)),
        f,
        e,
      )
      refl

truncate-longer :
    (n : ℕ) (add_pages : PageStore → PageList → (p length : ℕ) → Option (PageStore × PageList))
    (size m : ℕ) (h : PageStore) (free : PageList) (p : ℕ)
    → p ≢ 0
    → (h p).length < m
    → truncate n add_pages size h free p m ≡ lengthen n add_pages size h free p m
unfolding truncate
truncate-longer n add_pages size m h free p some_p b =
    let e : ltb m (h p).length ≡ false = ground arith in
    let f : ltb (h p).length m ≡ true = ground arith in
    rw (truncate, ne→== p 0 (λ g. absurd (some_p g)), ne→== m 0 (λ g. omega (arith, g)), e, f) refl

chain_some : {h : PageStore} {before p q : ℕ} {ps : List ℕ} → IsChain h before p (q ∷ ps) → p ≢ 0
chain_some (chain_more some_p once f rest) = some_p

-- `Truncate` of a value of two pages or more whose first page is full, to a length for which the
-- pages behind the first have no room, gives false without adding a page, with more steps than
-- there are pages behind the first, although all pages together may have the room.
pub truncate-full :
    (n : ℕ) (add_pages : PageStore → PageList → (p length : ℕ) → Option (PageStore × PageList))
    (size m : ℕ) (h : PageStore) (free : PageList) (p q : ℕ) (ps : List ℕ)
    → p ≢ 0
    → (h p).length ≡ size
    → IsChain h p (h p).next (q ∷ ps)
    → size * length (q ∷ ps) < m
    → length (q ∷ ps) < n
    → (h' : PageStore) × (truncate n add_pages size h free p m ≡ some (false, h', free))
truncate-full n add_pages size m h free p q ps some_p full c b fuel =
    let a : size * suc (length ps) ≡ size + size * length ps = grind arith in
    let (h', run) = lengthen_loop-short n size m h p (h p).next (q ∷ ps) c b fuel in
    (
      h',
      truncate-longer n add_pages size m h free p some_p (omega (arith, full, a))
          ∙ lengthen-full n add_pages size m h h' free p false full (chain_some c) (omega arith)
              run,
    )
