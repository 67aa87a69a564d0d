-- ===== src/Pages/PutBack.antt =====
-- `PutBackPages` on the list of free pages, and on its count.
use k2hash.Base.{
  ℕ, ◌≡◌, ◌≢◌, refl, sym, ap, ◌∙◌, true, List, ◌∷◌, ◌++◌, ◌==◌, leb, if◌then◌else◌, length,
  length-append, ne→==, arith,
}
use k2hash.Elements.FreeList.{Apart, apart_nil, apart_cons}
use k2hash.Pages.{Page, PageStore, PageList, set_prev, set_next, put_back_count, put_back_pages}
use k2hash.Pages.Chain.{
  page_same, page_other, IsChain, chain_end, chain_more, IsRun, run_last, run_more, AreApart,
  are_apart_cons, IsChain-put, IsChain-before, IsRun-last,
}

Apart-append : (x : ℕ) (qs ps : List ℕ) → Apart x qs → Apart x ps → Apart x (qs ++ ps)
Apart-append x _ ps apart_nil b = b
Apart-append x (q ∷ qs) ps (apart_cons other a) b = apart_cons other (Apart-append x qs ps a b)

-- A store in which the last page of a run leads to a chain has them as one chain.
IsRun-joined :
    (h h' : PageStore) (before p last after : ℕ) (qs ps : List ℕ)
    → IsRun h before p qs last
    → AreApart ps qs
    → ((q : ℕ) → q ≢ last → Apart q ps → h' q ≡ h q)
    → (h' last).prev ≡ (h last).prev
    → (h' last).next ≡ after
    → IsChain h' last after ps
    → IsChain h' before p (qs ++ ps)
IsRun-joined h h' before p _ after _ ps (run_last some_p f) (are_apart_cons a _) keeps prev next
      rest =
    chain_more some_p a (prev ∙ f) (rw next rest)
IsRun-joined h h' before p last after (_ ∷ qs) ps (run_more some_p once f run)
      (are_apart_cons a as') keeps prev next rest =
    let other : p ≢ last = λ x. IsRun-last p run once (sym x) in
    let same : h' p ≡ h p = keeps p other a in
    chain_more some_p (Apart-append p qs ps once a) (ap (λ (x : Page). x.prev) same ∙ f) (
      rw (ap (λ (x : Page). x.next) same)
        (IsRun-joined h h' p (h p).next last after qs ps run as' keeps prev next rest))

-- The store that `PutBackPages` leaves.
abbrev joined : PageStore → (free last : ℕ) → PageStore
joined h free last =
    if free == 0 then set_next h last free else set_prev (set_next h last free) free last

joined-keeps :
    (h : PageStore) (free last : ℕ) (ps : List ℕ) (before q : ℕ)
    → IsChain h before free ps
    → q ≢ last
    → Apart q ps
    → joined h free last q ≡ h q
joined-keeps h _ last _ before q chain_end other a = page_other h last q _ other
joined-keeps h free last (_ ∷ ps) before q (chain_more some_p once f rest) other
      (apart_cons away a) =
    rw (ne→== free 0 (λ x. absurd (some_p x)))
      (page_other _ free q _ (λ x. away (sym x)) ∙ page_other h last q _ other)

joined-last :
    (h : PageStore) (free last : ℕ) (ps : List ℕ) (before : ℕ)
    → IsChain h before free ps
    → Apart last ps
    → joined h free last last ≡ record (h last) { next = free }
joined-last h _ last _ before chain_end a = page_same h last _
joined-last h free last (_ ∷ ps) before (chain_more some_p once f rest) (apart_cons away a) =
    rw (ne→== free 0 (λ x. absurd (some_p x)))
      (page_other _ free last _ (λ x. away (sym x)) ∙ page_same h last _)

-- The list of free pages and its count.
pub record IsFreePages (h : PageStore) (free : PageList) (ps : List ℕ) : Type 0 where
  pub chain : IsChain h 0 free.pfree_pages ps
  pub counted : free.free_page_count ≡ length ps

put_back_runs :
    (h : PageStore) (free : PageList) (top last pagecount : ℕ)
    → top ≢ 0
    → last ≢ 0
    → put_back_pages h free top last pagecount ≡ (
      true,
      joined h free.pfree_pages last,
      record { pfree_pages = top; free_page_count = put_back_count free.free_page_count pagecount },
    )
unfolding put_back_pages
put_back_runs h free top last pagecount some_top some_last =
    rw (ne→== top 0 (λ x. absurd (some_top x)), ne→== last 0 (λ x. absurd (some_last x))) refl

IsRun-some :
    {h : PageStore} {before p last : ℕ} {qs : List ℕ}
    → IsRun h before p qs last
    → (p ≢ 0) × (last ≢ 0)
IsRun-some (run_last some_p f) = (some_p, some_p)
IsRun-some (run_more some_p once f rest) = (some_p, (IsRun-some rest).1)

last-Apart :
    {h : PageStore} {before p last : ℕ} {qs ps : List ℕ}
    → IsRun h before p qs last
    → AreApart ps qs
    → Apart last ps
last-Apart (run_last some_p f) (are_apart_cons a _) = a
last-Apart (run_more some_p once f rest) (are_apart_cons a as') = last-Apart rest as'

-- `PutBackPages` of a run of pages that are not free gives true and puts all of them in front of
-- the free ones. The count then is the number of pages if no more pages are put back than were
-- free, and otherwise 0.
pub put_back_pages-IsChain :
    (h : PageStore) (free : PageList) (top last : ℕ) (qs ps : List ℕ)
    → IsRun h 0 top qs last
    → AreApart ps qs
    → IsFreePages h free ps
    → (h' : PageStore) × (free' : PageList) × (put_back_pages h free top last (length qs)
        ≡ (true, h', free'))
      × IsChain h' 0 free'.pfree_pages (qs ++ ps)
      × (free'.free_page_count ≡ (if leb (length qs) (length ps) then length (qs ++ ps) else 0))
put_back_pages-IsChain h free top last qs ps run apart f =
    let (some_top, some_last) = IsRun-some run in
    let alone = last-Apart run apart in
    let at_last = joined-last h free.pfree_pages last ps 0 f.chain alone in
    (
      joined h free.pfree_pages last,
      record {
        pfree_pages = top;
        free_page_count = put_back_count free.free_page_count (length qs);
      },
      put_back_runs h free top last (length qs) some_top some_last,
      IsRun-joined h (joined h free.pfree_pages last) 0 top last free.pfree_pages qs ps run apart
          (λ q other a. joined-keeps h free.pfree_pages last ps 0 q f.chain other a)
          (ap (λ (x : Page). x.prev) at_last) (ap (λ (x : Page). x.next) at_last)
          (IsChain-before (set_next h last free.pfree_pages) 0 last free.pfree_pages ps
            (IsChain-put h last _ 0 free.pfree_pages ps alone f.chain)),
      rw (f.counted, length-append qs ps) (ground arith),
    )
