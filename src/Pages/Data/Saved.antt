-- ===== src/Pages/Data/Saved.antt =====
-- What `SetData` leaves in a chain of as many pages as the bytes need.
use k2hash.Base.{
  ℕ, zero, suc, ◌+◌, ◌-◌, ◌*◌, ◌≤◌, ◌<◌, ◌≡◌, ◌≢◌, refl, sym, ap, subst, ◌∙◌, append-nil, true,
  some, List, [], ◌∷◌, ◌++◌, length, take, drop, take-append, length-drop, arith,
}
use k2hash.Bytes.{Bytes}
use k2hash.Elements.FreeList.{Apart}
use k2hash.Pages.{Page, PageStore}
use k2hash.Pages.Chain.{page_same, IsChain, chain_end, chain_more, IsChain-put}
use k2hash.Pages.Data.{DataStore, put_data, set_length, set_loop}
use k2hash.Pages.Data.Written.{
  IsStored, stored_end, stored_more, AgreeOff, data_same, set_loop-fits, set_loop-more,
  AgreeOff-write, AgreeOff-more,
}

take-drop : (n : ℕ) (xs : Bytes) → take n xs ++ drop n xs ≡ xs
take-drop zero xs = refl
take-drop (suc n) [] = refl
take-drop (suc n) (x ∷ xs) = ap (◌∷◌ x) (take-drop n xs)

length-take : (n : ℕ) (xs : Bytes) → n ≤ length xs → length (take n xs) ≡ n
length-take zero xs b = refl
length-take (suc n) [] b = absurd (omega arith)
length-take (suc n) (x ∷ xs) b = let e = length-take n xs (omega arith) in omega (arith, e)

-- A page that was written, once the pages behind it are.
IsStored-write :
    (size : ℕ) (h : PageStore) (d : DataStore) (h' : PageStore) (d' : DataStore) (p n : ℕ)
    (ps : List ℕ) (bs cs : Bytes)
    → p ≢ 0
    → Apart p ps
    → n ≡ length bs
    → length bs ≤ size
    → AgreeOff ps (set_length h p n) h' (put_data d p bs) d'
    → IsStored size h' d' (h p).next ps cs
    → IsStored size h' d' p (p ∷ ps) (bs ++ cs)
IsStored-write size h d h' d' p n ps bs cs some_p once e fits a rest =
    let head : h' p ≡ record (h p) { length = n } = a.heads p once ∙ page_same h p _ in
    stored_more bs some_p (ap (λ (x : Page). x.length) head ∙ e) fits
      (ap (take (length bs)) (a.datas p once ∙ data_same d p bs)
        ∙ take-append bs (drop (length bs) (d p)))
      (subst (λ (q : ℕ). IsStored size h' d' q ps cs) (sym (ap (λ (x : Page). x.next) head)) rest)

chain_of_none : {h : PageStore} {before p : ℕ} → IsChain h before p [] → p ≡ 0
chain_of_none chain_end = refl

chain_of_some : {h : PageStore} {before p q : ℕ} {ps : List ℕ} → IsChain h before p (q ∷ ps) → p ≢ 0
chain_of_some (chain_more some_p once f rest) = some_p

-- What is left for the pages behind the first.
left_over :
    (size m len : ℕ)
    → size * (suc (suc m) - 1) < len
    → len ≤ size * suc (suc m)
    → (size < len) × (size * (suc m - 1) < len - size) × (len - size ≤ size * suc m)
left_over size m len few enough =
    let a : size * suc m ≡ size + size * m = grind arith in
    let b : size * suc (suc m) ≡ size + size * suc m = grind arith in
    let one : suc (suc m) - 1 ≡ suc m = omega arith in
    let zero_less : suc m - 1 ≡ m = omega arith in
    let few' : size * suc m < len = rw one at few in
    (omega (arith, a, few'), rw zero_less (omega (arith, a, few')), omega (arith, b))

-- The chain `ps` after `SetData` of `bs`.
pub record IsSaved (n size : ℕ) (h : PageStore) (d : DataStore) (p : ℕ) (ps : List ℕ) (bs : Bytes)
    : Type 0 where
  pub heads : PageStore
  pub datas : DataStore
  pub runs : set_loop n size h d p bs ≡ some (true, heads, datas)
  pub stored : IsStored size heads datas p ps bs
  pub agree : AgreeOff ps h heads d datas

-- A chain of as many pages as the bytes need holds them.
pub set_loop-IsSaved :
    (n size : ℕ) (h : PageStore) (d : DataStore) (before p : ℕ) (ps : List ℕ) (bs : Bytes)
    → IsChain h before p ps
    → size * (length ps - 1) < length bs
    → length bs ≤ size * length ps
    → length ps ≤ n
    → IsSaved n size h d p ps bs
set_loop-IsSaved zero size h d before _ [] bs chain_end few enough fuel =
    absurd (omega (arith, few, enough))
set_loop-IsSaved (suc n) size h d before _ [] bs chain_end few enough fuel =
    absurd (omega (arith, few, enough))
set_loop-IsSaved zero size h d before p (_ ∷ ps) bs (chain_more some_p once f rest) few enough
      fuel =
    absurd (omega arith)
set_loop-IsSaved (suc n) size h d before p (_ ∷ ps) [] (chain_more some_p once f rest) few enough
      fuel =
    absurd (omega arith)
set_loop-IsSaved (suc n) size h d before p (_ ∷ []) (c ∷ cs) (chain_more some_p once f rest) few
      enough fuel =
    let b : length (c ∷ cs) ≤ size = ground arith in
    let end : (h p).next ≡ 0 = chain_of_none rest in
    record {
      heads = set_length h p (length (c ∷ cs));
      datas = put_data d p (c ∷ cs);
      runs = set_loop-fits n size h d p c cs b;
      stored = subst (IsStored size _ _ p (p ∷ [])) (append-nil (c ∷ cs)) (
          IsStored-write size h d _ _ p _ [] (c ∷ cs) [] some_p once refl b
            (record { heads = λ q a. refl; datas = λ q a. refl }) (rw end stored_end));
      agree = AgreeOff-write h d p (length (c ∷ cs)) (c ∷ cs) [];
    }
set_loop-IsSaved (suc n) size h d before p (_ ∷ (y ∷ ys)) (c ∷ cs) (chain_more some_p once f rest)
      few enough fuel =
    let (b, few', enough') = left_over size (length ys) (length (c ∷ cs)) few enough in
    let l : length (drop size (c ∷ cs)) ≡ length (c ∷ cs) - size = length-drop size (c ∷ cs) in
    go
      (λ rem v w.
        set_loop-IsSaved n size (set_length h p size) (put_data d p (take size (c ∷ cs))) p
          (h p).next (y ∷ ys) rem (IsChain-put h p _ p (h p).next (y ∷ ys) once rest) v w
          (omega arith))
      (drop size (c ∷ cs)) refl b (omega (arith, l, few')) (omega (arith, l, enough'))
  where
    go :
        ((rem : Bytes)
          → size * (suc (length ys) - 1) < length rem
          → length rem ≤ size * suc (length ys)
          → IsSaved n size
              (set_length h p size)
              (put_data d p (take size (c ∷ cs)))
              (h p).next
              (y ∷ ys)
              rem)
        → (rem : Bytes) → drop size (c ∷ cs) ≡ rem
        → size < length (c ∷ cs)
        → size * (suc (length ys) - 1) < length rem
        → length rem ≤ size * suc (length ys)
        → IsSaved (suc n) size h d p (p ∷ y ∷ ys) (c ∷ cs)
    go next [] e b few' enough' = absurd (omega arith)
    go next (k ∷ ks) e b few' enough' =
        let t : length (take size (c ∷ cs)) ≡ size = length-take size (c ∷ cs) (omega arith) in
        let s = next (k ∷ ks) few' enough' in
        record {
          heads = s.heads;
          datas = s.datas;
          runs = set_loop-more n size h d p c cs k ks b e (chain_of_some rest) ∙ s.runs;
          stored =
              subst (IsStored size s.heads s.datas p (p ∷ y ∷ ys))
                (ap (λ (x : Bytes). take size (c ∷ cs) ++ x) (sym e) ∙ take-drop size (c ∷ cs))
                (IsStored-write size h d s.heads s.datas p size (y ∷ ys) (take size (c ∷ cs))
                  (k ∷ ks) some_p once (sym t) (omega (arith, t)) s.agree s.stored);
          agree =
              AgreeOff-more p (y ∷ ys) (AgreeOff-write h d p size (take size (c ∷ cs)) (y ∷ ys))
                s.agree;
        }
