-- ===== src/Pages/Data/Reserved.antt =====
-- `ReservePages` of bytes: they are read again, and what other pages hold stays.
use k2hash.Base.{
  ℕ, ◌+◌, ◌*◌, ◌≤◌, ◌<◌, ◌≡◌, ◌≢◌, refl, sym, ap, ◌∙◌, true, Option, some, List, [], ◌∷◌, ◌++◌,
  length, length-append, ne→==, arith,
}
use k2hash.Bytes.{Bytes}
use k2hash.Elements.FreeList.{Apart, apart_nil, apart_cons}
use k2hash.Pages.{PageStore, PageList, reserve_pages}
use k2hash.Pages.Chain.{
  IsChain, chain_end, chain_more, IsRun-last, AreApart, are_apart_nil, are_apart_cons,
}
use k2hash.Pages.PutBack.{IsFreePages}
use k2hash.Pages.Reserve.{IsReserved, reserve_pages-IsReserved, next-ne, Apart-left, Apart-right}
use k2hash.Pages.Loaded.{Loaded}
use k2hash.Pages.Data.{DataStore, set_loop, set_data, reserve_data, load_data}
use k2hash.Pages.Data.Written.{IsStored, AgreeOff, IsStored-frame}
use k2hash.Pages.Data.Saved.{set_loop-IsSaved}
use k2hash.Pages.Data.Kept.{always, HasRead, load_data-IsStored}

-- The free pages that are left are none of the pages that were taken.
Apart-more : (q : ℕ) (qs rs : List ℕ) → Apart q rs → AreApart qs rs → AreApart (q ∷ qs) rs
Apart-more q qs [] apart_nil are_apart_nil = are_apart_nil
Apart-more q qs (r ∷ rs) (apart_cons other a) (are_apart_cons off b) =
    are_apart_cons (apart_cons (λ e. other (sym e)) off) (Apart-more q qs rs a b)

Apart-nothing : (rs : List ℕ) → AreApart [] rs
Apart-nothing [] = are_apart_nil
Apart-nothing (r ∷ rs) = are_apart_cons apart_nil (Apart-nothing rs)

chain-AreApart :
    {h : PageStore} {before p : ℕ} (qs rs : List ℕ) → IsChain h before p (qs ++ rs) → AreApart qs rs
chain-AreApart [] rs c = Apart-nothing rs
chain-AreApart (q ∷ qs) rs (chain_more some_p once f rest) =
    Apart-more q qs rs (Apart-right q qs rs once) (chain-AreApart qs rs rest)

IsChain-agree :
    {h h' : PageStore} {d d' : DataStore} (qs : List ℕ) {before p : ℕ} {rs : List ℕ}
    → AgreeOff qs h h' d d'
    → AreApart qs rs
    → IsChain h before p rs
    → IsChain h' before p rs
IsChain-agree qs a off chain_end = chain_end
IsChain-agree qs {p = p} a (are_apart_cons o off) (chain_more some_p once f rest) =
    let same = a.heads p o in
    chain_more some_p once (rw same f) (rw same (IsChain-agree qs a off rest))

-- What `ReservePages` of bytes leaves: an object that reads them, free pages, and all that was stored in
-- pages that are neither NULL nor free.
pub record IsKept (n page_size size : ℕ) (h : PageStore) (d : DataStore) (ps : List ℕ) (bs : Bytes)
    (p : ℕ) (h' : PageStore) (d' : DataStore) (free' : PageList) : Type 0 where
  pub object : Loaded
  pub loads : load_data n always page_size size h' d' p ≡ some object
  pub reads : HasRead bs object
  pub rest : List ℕ
  pub free : IsFreePages h' free' rest
  pub others :
      (q : ℕ) (qs : List ℕ) (cs : Bytes)
      → AreApart (0 ∷ ps) qs
      → IsStored size h d q qs cs
      → IsStored size h' d' q qs cs

AgreeOff-reserved :
    {h h1 h2 : PageStore} {d d2 : DataStore} {size bytes last : ℕ} {free free' : PageList}
    (ps qs rs : List ℕ)
    → ps ≡ qs ++ rs
    → IsReserved h size bytes free qs rs last h1 free'
    → AgreeOff qs h1 h2 d d2
    → AgreeOff (0 ∷ ps) h h2 d d2
AgreeOff-reserved {h = h} {h1 = h1} {last = last} ps qs rs split t a = record {
  heads = λ q off. elim off [
    | apart_cons some_q o ↦
        let o' : Apart q (qs ++ rs) = rw split at o in
        a.heads q (Apart-left q qs rs o')
        ∙ t.keeps q (λ e. IsRun-last q t.run (Apart-left q qs rs o') (sym e))
            (λ e.
              next-ne t.left.chain (Apart-right q qs rs o') (λ z. some_q (sym z)) (t.top ∙ sym e))
  ];
  datas =
      λ q off. elim off [ apart_cons some_q o ↦ a.datas q (Apart-left q qs rs (rw split at o)) ];
}

reserve_data-step :
    (fuel size : ℕ) (h : PageStore) (d : DataStore) (free : PageList) (bs : Bytes)
    (expanded : Option (PageStore × PageList)) (p : ℕ) (h1 h2 : PageStore) (d2 : DataStore)
    (free1 : PageList)
    → p ≢ 0
    → reserve_pages fuel h free size (length bs) expanded ≡ some (p, h1, free1)
    → set_loop fuel size h1 d p bs ≡ some (true, h2, d2)
    → reserve_data fuel size h d free bs expanded ≡ some (p, h2, d2, free1)
unfolding reserve_data set_data
reserve_data-step fuel size h d free bs expanded p h1 h2 d2 free1 some_p e f =
    rw (reserve_data, e, set_data, ne→== p 0 (λ g. absurd (some_p g)), f) refl

some_chain :
    {h : PageStore} {before p : ℕ} {qs : List ℕ} (size bytes : ℕ)
    → 0 < bytes
    → bytes ≤ size * length qs
    → IsChain h before p qs
    → p ≢ 0
some_chain size bytes pos room chain_end = absurd (omega (arith, pos, room))
some_chain size bytes pos room (chain_more some_p once f rest) = some_p

-- `ReservePages` of bytes that are not empty and fit the free pages, with as many steps as these
-- are, gives a page from which `LoadData`, with memory and a page size that is not 0, reads these
-- bytes again. The free pages that are left are a list with their number, and what was stored in
-- pages that are neither NULL nor free still is.
pub reserve_data-IsKept :
    (fuel page_size size : ℕ) (h : PageStore) (d : DataStore) (free : PageList) (ps : List ℕ)
    (bs : Bytes) (expanded : Option (PageStore × PageList))
    → IsFreePages h free ps
    → 0 < page_size
    → 0 < length bs
    → length bs ≤ size * length ps
    → length ps ≤ fuel
    → (h' : PageStore) × (d' : DataStore) × (free' : PageList) × (reserve_data fuel size h d free bs
          expanded
        ≡ some (free.pfree_pages, h', d', free'))
      × IsKept fuel page_size size h d ps bs free.pfree_pages h' d' free'
reserve_data-IsKept fuel page_size size h d free ps bs expanded f page pos room b =
    let (h1, free', qs, rs, last, run, split, t) =
      reserve_pages-IsReserved fuel h free size (length bs) ps expanded f pos room b in
    let all : length ps ≡ length qs + length rs =
      ap (λ (x : List ℕ). length x) split ∙ length-append qs rs in
    let some_p = some_chain size (length bs) pos t.enough t.chain in
    let s =
      set_loop-IsSaved fuel size h1 d 0 free.pfree_pages qs bs t.chain t.tight t.enough
        (omega (arith, all)) in
    let off : AreApart qs rs = chain-AreApart qs rs (rw split at f.chain) in
    let a = AgreeOff-reserved ps qs rs split t s.agree in
    let (m, loads, reads) =
      load_data-IsStored fuel page_size size s.heads s.datas free.pfree_pages qs bs some_p
        (omega (arith, all)) page s.stored in
    (
      s.heads,
      s.datas,
      free',
      reserve_data-step fuel size h d free bs expanded free.pfree_pages h1 s.heads s.datas free'
          some_p run s.runs,
      record {
        object = m;
        loads = loads;
        reads = reads;
        rest = rs;
        free = record {
          chain = IsChain-agree qs s.agree off t.left.chain;
          counted = t.left.counted;
        };
        others = λ q rq cs o st. IsStored-frame (0 ∷ ps) a o st;
      },
    )
