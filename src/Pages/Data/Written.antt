-- ===== src/Pages/Data/Written.antt =====
-- Bytes that are stored in a chain of pages, and the steps of `SetData`.
use k2hash.Base.{
  ℕ, suc, ◌≤◌, ◌<◌, ◌≡◌, ◌≢◌, refl, sym, ap, ◌∙◌, true, some, List, [], ◌∷◌, ◌++◌, length, take,
  drop, ==_refl, ne→==, arith,
}
use k2hash.Bytes.{Bytes}
use k2hash.Elements.FreeList.{Apart, apart_cons}
use k2hash.Pages.{PageStore}
use k2hash.Pages.Chain.{page_other, AreApart, are_apart_cons}
use k2hash.Pages.Data.{DataStore, put_data, set_length, one_length, set_loop}

-- The pages `ps` from `p` on hold the bytes, each with its number of them in its head.
pub data IsStored (size : ℕ) (h : PageStore) (d : DataStore)
    : (p : ℕ) → List ℕ → Bytes → Type 0 where
  stored_end : IsStored size h d 0 [] []
  stored_more :
      {p : ℕ} {ps : List ℕ} {cs : Bytes} (bs : Bytes)
      → p ≢ 0
      → (h p).length ≡ length bs
      → length bs ≤ size
      → take (length bs) (d p) ≡ bs
      → IsStored size h d (h p).next ps cs
      → IsStored size h d p (p ∷ ps) (bs ++ cs)

-- The stores agree on pages apart from `ps`.
pub record AgreeOff (ps : List ℕ) (h h' : PageStore) (d d' : DataStore) : Type 0 where
  pub heads : (q : ℕ) → Apart q ps → h' q ≡ h q
  pub datas : (q : ℕ) → Apart q ps → d' q ≡ d q

pub data_same :
    (d : DataStore) (p : ℕ) (bs : Bytes) → put_data d p bs p ≡ bs ++ drop (length bs) (d p)
unfolding put_data
data_same d p bs = rw (==_refl p) refl

pub data_other : (d : DataStore) (p q : ℕ) (bs : Bytes) → q ≢ p → put_data d p bs q ≡ d q
unfolding put_data
data_other d p q bs other = rw (ne→== q p (λ f. absurd (other f))) refl

-- What is stored does not depend on other pages.
pub IsStored-frame :
    {size : ℕ} {h h' : PageStore} {d d' : DataStore} (ps : List ℕ) {p : ℕ} {qs : List ℕ}
    {bs : Bytes}
    → AgreeOff ps h h' d d'
    → AreApart ps qs
    → IsStored size h d p qs bs
    → IsStored size h' d' p qs bs
IsStored-frame ps a apart stored_end = stored_end
IsStored-frame {size = size} {h = h} {h' = h'} {d' = d'} ps {p = p} a (are_apart_cons off apart)
      (stored_more {ps = qs} {cs = cs} bs some_p long fits here rest) =
    let same : h' p ≡ h p = a.heads p off in
    let next : IsStored size h' d' (h p).next qs cs = IsStored-frame ps a apart rest in
    stored_more bs some_p (rw same long) fits (rw (a.datas p off) here) (rw same next)

pub drop_all : (xs : Bytes) → drop (length xs) xs ≡ []
drop_all [] = refl
drop_all (x ∷ xs) = drop_all xs

pub take_all : (xs : Bytes) → take (length xs) xs ≡ xs
take_all [] = refl
take_all (x ∷ xs) = ap (◌∷◌ x) (take_all xs)

pub one_length-fits : (size : ℕ) (bs : Bytes) → length bs ≤ size → one_length size bs ≡ length bs
unfolding one_length
one_length-fits size bs b = ground arith

pub one_length-more : (size : ℕ) (bs : Bytes) → size < length bs → one_length size bs ≡ size
unfolding one_length
one_length-more size bs b = ground arith

-- The steps of the loop.
module _ (n size : ℕ) (h : PageStore) (d : DataStore) (p : ℕ) (c : ℕ) (cs : Bytes) where
  pub set_loop-fits :
      length (c ∷ cs) ≤ size
      → set_loop (suc n) size h d p (c ∷ cs)
        ≡ some (true, set_length h p (length (c ∷ cs)), put_data d p (c ∷ cs))
  unfolding set_loop
  set_loop-fits b =
      let e = one_length-fits size (c ∷ cs) b in rw (set_loop, e, drop_all cs, e, take_all cs) refl

  pub set_loop-more :
      (k : ℕ) (ks : Bytes)
      → size < length (c ∷ cs)
      → drop size (c ∷ cs) ≡ k ∷ ks
      → (h p).next ≢ 0
      → set_loop (suc n) size h d p (c ∷ cs)
        ≡ set_loop n size
            (set_length h p size)
            (put_data d p (take size (c ∷ cs)))
            (h p).next
            (k ∷ ks)
  unfolding set_loop
  set_loop-more k ks b left more =
      let e = one_length-more size (c ∷ cs) b in
      rw (set_loop, e, left, ne→== (h p).next 0 (λ f. absurd (more f)), e) refl

-- One page and its bytes written.
pub AgreeOff-write :
    (h : PageStore) (d : DataStore) (p n : ℕ) (bs : Bytes) (ps : List ℕ)
    → AgreeOff (p ∷ ps) h (set_length h p n) d (put_data d p bs)
AgreeOff-write h d p n bs ps = record {
  heads = λ q a. elim a [ apart_cons other off ↦ page_other h p q _ (λ f. other (sym f)) ];
  datas = λ q a. elim a [ apart_cons other off ↦ data_other d p q bs (λ f. other (sym f)) ];
}

pub AgreeOff-more :
    {h h1 h2 : PageStore} {d d1 d2 : DataStore} (p : ℕ) (ps : List ℕ)
    → AgreeOff (p ∷ ps) h h1 d d1
    → AgreeOff ps h1 h2 d1 d2
    → AgreeOff (p ∷ ps) h h2 d d2
AgreeOff-more p ps a b = record {
  heads = λ q off. b.heads q (behind off) ∙ a.heads q off;
  datas = λ q off. b.datas q (behind off) ∙ a.datas q off;
}
  where
    behind : {q : ℕ} → Apart q (p ∷ ps) → Apart q ps
    behind (apart_cons other off) = off
