-- ===== src/Pages/Give/Freed.antt =====
-- `Free` of a value's pages.
use k2hash.Base.{
  ℕ, zero, suc, ◌+◌, ◌≤◌, ◌<◌, ◌≡◌, ◌≢◌, refl, sym, ap, ◌∙◌, Bool, true, some, List, [], ◌∷◌, ◌++◌,
  ◌==◌, leb, if◌then◌else◌, length, ne→==, ==→eq, Bool-cases, inl, inr, subst, arith,
}
use k2hash.Pages.{PageStore, PageList, put_page, put_back_pages}
use k2hash.Pages.Chain.{
  IsChain, chain_end, chain_more, IsChain-put, IsRun, run_last, run_more, AreApart,
}
use k2hash.Pages.PutBack.{IsFreePages, put_back_pages-IsChain}
use k2hash.Pages.Data.{set_length}
use k2hash.Pages.Give.{free_loop, free_pages}

-- The stores differ in the lengths of pages alone.
record HasLinks (h h' : PageStore) : Type 0 where
  prevs : (q : ℕ) → (h' q).prev ≡ (h q).prev
  nexts : (q : ℕ) → (h' q).next ≡ (h q).next

set_length-HasLinks : (h : PageStore) (p n : ℕ) → HasLinks h (set_length h p n)
unfolding put_page
set_length-HasLinks h p n = record {
  prevs = λ q. elim (Bool-cases (q == p)) [
    | inl e ↦ let f : q ≡ p = ==→eq q p e in rw (e, f) refl
    | inr e ↦ rw e refl
  ];
  nexts = λ q. elim (Bool-cases (q == p)) [
    | inl e ↦ let f : q ≡ p = ==→eq q p e in rw (e, f) refl
    | inr e ↦ rw e refl
  ];
}

IsChain-HasLinks :
    {h h' : PageStore} {before p : ℕ} {ps : List ℕ}
    → HasLinks h h'
    → IsChain h before p ps
    → IsChain h' before p ps
IsChain-HasLinks l chain_end = chain_end
IsChain-HasLinks {h' = h'} {p = p} l (chain_more {ps = ps} some_p once f rest) =
    chain_more some_p once (l.prevs p ∙ f)
      (subst (λ (q : ℕ). IsChain h' p q ps) (sym (l.nexts p)) (IsChain-HasLinks l rest))

abbrev last_page : ℕ → List ℕ → ℕ
last_page p [] = p
last_page p (q ∷ qs) = last_page q qs

-- The pages of a chain are a run up to the last.
chain-IsRun :
    {h : PageStore} {before p q : ℕ} {qs : List ℕ}
    → IsChain h before p (q ∷ qs)
    → IsRun h before p (q ∷ qs) (last_page p qs)
chain-IsRun (chain_more {ps = []} some_p once f rest) = run_last some_p f
chain-IsRun {h = h} (chain_more {p = p} {ps = r ∷ rs} some_p once f rest) = run_more some_p once f (
    subst (λ (x : ℕ). IsRun h p (h p).next (r ∷ rs) (last_page x rs)) (first_of rest)
      (chain-IsRun rest))
  where
    first_of : {before x r : ℕ} {rs : List ℕ} → IsChain h before x (r ∷ rs) → x ≡ r
    first_of (chain_more some_x once f rest) = refl

free_loop-step :
    (n : ℕ) (h : PageStore) (p last count : ℕ)
    → p ≢ 0
    → free_loop (suc n) h p last count ≡ free_loop n (set_length h p 0) (h p).next p (count + 1)
unfolding free_loop
free_loop-step n h p last count some_p = rw (free_loop, ne→== p 0 (λ f. absurd (some_p f))) refl

free_loop-HasLinks :
    (n : ℕ) (h : PageStore) (before p : ℕ) (qs : List ℕ) (last count : ℕ)
    → IsChain h before p qs
    → length qs < n
    → (h' : PageStore) × (free_loop n h p last count
        ≡ some (h', last_page last qs, count + length qs))
      × HasLinks h h'
unfolding free_loop
free_loop-HasLinks zero h before p qs last count c fuel = absurd (omega arith)
free_loop-HasLinks (suc n) h before _ _ last count chain_end fuel =
    let e : count + 0 ≡ count = omega arith in
    (h, rw e refl, record { prevs = λ q. refl; nexts = λ q. refl })
free_loop-HasLinks (suc n) h before p _ last count (chain_more {ps = qs} some_p once f rest) fuel =
    let (h', run, l) =
      free_loop-HasLinks n (set_length h p 0) p (h p).next qs p (count + 1)
        (IsChain-put h p _ p (h p).next qs once rest) (omega arith) in
    let s = set_length-HasLinks h p 0 in
    let e : count + 1 + length qs ≡ count + suc (length qs) = omega arith in
    (
      h',
      free_loop-step n h p last count some_p ∙ run ∙ ap (λ (k : ℕ). some (h', last_page p qs, k)) e,
      record { prevs = λ q. l.prevs q ∙ s.prevs q; nexts = λ q. l.nexts q ∙ s.nexts q },
    )

free_pages-step :
    (n : ℕ) (h h1 : PageStore) (free : PageList) (p last count : ℕ)
    → p ≢ 0
    → free_loop n (set_length h p 0) (h p).next p 1 ≡ some (h1, last, count)
    → free_pages n h free p ≡ some (put_back_pages h1 free p last count)
unfolding free_pages
free_pages-step n h h1 free p last count some_p e =
    rw (free_pages, ne→== p 0 (λ f. absurd (some_p f)), e) refl

-- `Free` of a chain of pages that are not free, with as many steps as there are pages, gives true
-- and puts all of them in front of the free ones. The count then is the number of pages if no more
-- pages are put back than were free, and otherwise 0.
pub free_pages-IsChain :
    (n : ℕ) (h : PageStore) (free : PageList) (p q : ℕ) (qs ps : List ℕ)
    → IsChain h 0 p (q ∷ qs)
    → AreApart ps (q ∷ qs)
    → IsFreePages h free ps
    → length (q ∷ qs) ≤ n
    → (h' : PageStore) × (free' : PageList) × (free_pages n h free p ≡ some (true, h', free'))
      × IsChain h' 0 free'.pfree_pages (q ∷ qs ++ ps)
      × (free'.free_page_count
          ≡ (if leb (length (q ∷ qs)) (length ps) then length (q ∷ qs ++ ps) else 0))
free_pages-IsChain n h free p _ qs ps (chain_more some_p once f rest) apart fr fuel =
    let c = chain_more some_p once f rest in
    let (h1, run, l) =
      free_loop-HasLinks n (set_length h p 0) p (h p).next qs p 1
        (IsChain-put h p _ p (h p).next qs once rest) (omega arith) in
    let s = set_length-HasLinks h p 0 in
    let links : HasLinks h h1 = record {
      prevs = λ x. l.prevs x ∙ s.prevs x;
      nexts = λ x. l.nexts x ∙ s.nexts x;
    } in
    let (h', free', back, chain, count) =
      put_back_pages-IsChain h1 free p (last_page p qs) (p ∷ qs) ps
        (chain-IsRun (IsChain-HasLinks links c)) apart
        (record { chain = IsChain-HasLinks links fr.chain; counted = fr.counted }) in
    let e : 1 + length qs ≡ suc (length qs) = omega arith in
    (
      h',
      free',
      free_pages-step n h h1 free p (last_page p qs) (1 + length qs) some_p run
          ∙ ap (λ (k : ℕ). some (put_back_pages h1 free p (last_page p qs) k)) e
          ∙ ap (λ (r : Bool × PageStore × PageList). some r) back,
      chain,
      count,
    )
