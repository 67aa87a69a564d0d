-- ===== src/Pages/Chain.antt =====
-- Chains of pages, and how writing one page head changes them.
use k2hash.Base.{ℕ, ◌≡◌, ◌≢◌, refl, ap, List, [], ◌∷◌, ◌==◌, if◌then◌else◌, ==_refl, ne→==}
use k2hash.Elements.FreeList.{Apart, apart_cons}
use k2hash.Pages.{Page, PageStore, put_page, set_prev}

pub page_same : (h : PageStore) (p : ℕ) (x : Page) → put_page h p x p ≡ x
unfolding put_page
page_same h p x = rw (==_refl p) refl

pub page_other : (h : PageStore) (p q : ℕ) (x : Page) → q ≢ p → put_page h p x q ≡ h q
unfolding put_page
page_other h p q x other = rw (ne→== q p (λ f. absurd (other f))) refl

-- From `p` on, `next` leads over the pages `ps` to NULL, each of them once, and `prev` leads back.
pub data IsChain (h : PageStore) : (before p : ℕ) → List ℕ → Type 0 where
  chain_end : {before : ℕ} → IsChain h before 0 []
  chain_more :
      {before p : ℕ} {ps : List ℕ}
      → p ≢ 0
      → Apart p ps
      → (h p).prev ≡ before
      → IsChain h p (h p).next ps
      → IsChain h before p (p ∷ ps)

-- The pages `qs` from `p` to `last`, whose `next` may be anything.
pub data IsRun (h : PageStore) : (before p : ℕ) → List ℕ → (last : ℕ) → Type 0 where
  run_last : {before p : ℕ} → p ≢ 0 → (h p).prev ≡ before → IsRun h before p (p ∷ []) p
  run_more :
      {before p last : ℕ} {ps : List ℕ}
      → p ≢ 0
      → Apart p ps
      → (h p).prev ≡ before
      → IsRun h p (h p).next ps last
      → IsRun h before p (p ∷ ps) last

-- No page of the first list is in the second one.
pub data AreApart (ps : List ℕ) : List ℕ → Type 0 where
  are_apart_nil : AreApart ps []
  are_apart_cons : {q : ℕ} {qs : List ℕ} → Apart q ps → AreApart ps qs → AreApart ps (q ∷ qs)

pub IsChain-put :
    (h : PageStore) (e : ℕ) (x : Page) (before p : ℕ) (ps : List ℕ)
    → Apart e ps
    → IsChain h before p ps
    → IsChain (put_page h e x) before p ps
IsChain-put h e x before _ _ apart chain_end = chain_end
IsChain-put h e x before p (_ ∷ ps) (apart_cons other apart) (chain_more some_p once f rest) =
    chain_more some_p once (rw (page_other h e p x other) f)
      (rw (page_other h e p x other) (IsChain-put h e x p (h p).next ps apart rest))

-- The way back from the first page is all that changes with what stands before it.
pub IsChain-before :
    (h : PageStore) (before v p : ℕ) (ps : List ℕ)
    → IsChain h before p ps
    → IsChain (if p == 0 then h else set_prev h p v) v p ps
IsChain-before h before v _ _ chain_end = chain_end
IsChain-before h before v p (_ ∷ ps) (chain_more some_p once f rest) =
    rw (ne→== p 0 (λ x. absurd (some_p x))) (
      chain_more some_p once (ap (λ (x : Page). x.prev) (page_same h p _)) (
        rw (ap (λ (x : Page). x.next) (page_same h p (record (h p) { prev = v })))
          (IsChain-put h p _ p (h p).next ps once rest)))

pub IsRun-last :
    {h : PageStore} {before p last : ℕ} {ps : List ℕ} (x : ℕ)
    → IsRun h before p ps last
    → Apart x ps
    → last ≢ x
IsRun-last x (run_last some_p f) (apart_cons other apart) = other
IsRun-last x (run_more some_p once f rest) (apart_cons other apart) = IsRun-last x rest apart
