-- ===== src/Pages/Data/Kept.antt =====
-- What pages hold is read by `LoadData`.
use k2hash.Base.{
  ℕ, zero, suc, ◌≤◌, ◌<◌, ◌≡◌, ◌≢◌, refl, sym, ap, ◌∙◌, Bool, true, false, Option, some, List, [],
  ◌∷◌, ◌++◌, ◌==◌, leb, length, take, append-nil, append_assoc, ne→==, arith,
}
use k2hash.Bytes.{Bytes}
use k2hash.Pages.{PageStore}
use k2hash.Pages.Loaded.{Loaded, used, IsSound, append_data-IsSound}
use k2hash.Pages.Data.{DataStore, load_page, append_page, load_after, load_data}
use k2hash.Pages.Data.Written.{IsStored, stored_end, stored_more}

-- Memory is always given.
abbrev pub always : ℕ → Bool
always n = true

abbrev one_page : ℕ → Bytes → Loaded
one_page size bs = record {
  page_data = some bs;
  alloc_length = size;
  data_length = length bs;
  is_loaded = false;
}

load_page-stored :
    (size : ℕ) (h : PageStore) (d : DataStore) (p : ℕ) (bs : Bytes)
    → p ≢ 0
    → (h p).length ≡ length bs
    → length bs ≤ size
    → take (length bs) (d p) ≡ bs
    → load_page always size h d p ≡ some (one_page size bs)
unfolding load_page
load_page-stored size h d p bs some_p long fits here =
    let e : leb (length bs) size ≡ true = ground arith in
    rw (load_page, ne→== p 0 (λ f. absurd (some_p f)), long, e, here) refl

-- A page is appended to what was read before.
append_page-IsSound :
    (page_size size : ℕ) (m : Loaded) (acc bs : Bytes)
    → 0 < page_size
    → IsSound m
    → m.page_data ≡ some acc
    → (m' : Loaded) × (append_page always page_size m (one_page size bs) ≡ some m')
      × IsSound m'
      × (m'.page_data ≡ some (acc ++ bs))
append_page-IsSound page_size size m acc [] b s e =
    (m, refl, s, e ∙ ap (λ (x : Bytes). some x) (sym (append-nil acc)))
append_page-IsSound page_size size m acc (c ∷ cs) b s e =
    let (m', run, s', e') = append_data-IsSound page_size m (c ∷ cs) b s in
    let some_bytes : (suc (length cs) == 0) ≡ false = ground arith in
    (m', rw some_bytes run, s', e' ∙ ap (λ (x : Option Bytes). some (used x ++ c ∷ cs)) e)

load_after-step :
    (n page_size size : ℕ) (h : PageStore) (d : DataStore) (p : ℕ) (m after m1 : Loaded)
    → p ≢ 0
    → load_page always size h d p ≡ some after
    → append_page always page_size m after ≡ some m1
    → load_after (suc n) always page_size size h d p m
      ≡ load_after n always page_size size h d (h p).next m1
unfolding load_after
load_after-step n page_size size h d p m after m1 some_p e f =
    rw (load_after, ne→== p 0 (λ g. absurd (some_p g)), e, f) refl

load_after-IsStored :
    (n page_size size : ℕ) (h : PageStore) (d : DataStore) (p : ℕ) (ps : List ℕ) (m : Loaded)
    (acc cs : Bytes)
    → length ps < n
    → 0 < page_size
    → IsSound m
    → m.page_data ≡ some acc
    → IsStored size h d p ps cs
    → (m' : Loaded) × (load_after n always page_size size h d p m ≡ some m')
      × IsSound m'
      × (m'.page_data ≡ some (acc ++ cs))
unfolding load_after
load_after-IsStored zero page_size size h d p ps m acc cs fuel b s e st = absurd (omega arith)
load_after-IsStored (suc n) page_size size h d _ _ m acc _ fuel b s e stored_end =
    (m, refl, s, e ∙ ap (λ (x : Bytes). some x) (sym (append-nil acc)))
load_after-IsStored (suc n) page_size size h d p _ m acc _ fuel b s e
      (stored_more {ps = ps} {cs = cs} bs some_p long fits here rest) =
    let (m1, run, s1, e1) = append_page-IsSound page_size size m acc bs b s e in
    let (m', go, s', e') =
      load_after-IsStored n page_size size h d (h p).next ps m1 (acc ++ bs) cs (omega arith) b s1 e1
        rest in
    (
      m',
      load_after-step n page_size size h d p m _ m1 some_p
            (load_page-stored size h d p bs some_p long fits here) run
          ∙ go,
      s',
      e' ∙ ap (λ (x : Bytes). some x) (append_assoc acc bs cs),
    )

-- The object that has read the bytes.
pub record HasRead (bs : Bytes) (m : Loaded) : Type 0 where
  pub sound : IsSound m
  pub bytes : m.page_data ≡ some bs
  pub loaded : m.is_loaded ≡ true

load_data-step :
    (n page_size size : ℕ) (h : PageStore) (d : DataStore) (p : ℕ) (m m1 : Loaded)
    → load_page always size h d p ≡ some m
    → load_after n always page_size size h d (h p).next m ≡ some m1
    → load_data n always page_size size h d p ≡ some (record m1 { is_loaded = true })
unfolding load_data
load_data-step n page_size size h d p m m1 e f = rw (load_data, e, f) refl

-- `LoadData` reads what the pages hold.
pub load_data-IsStored :
    (n page_size size : ℕ) (h : PageStore) (d : DataStore) (p : ℕ) (ps : List ℕ) (bs : Bytes)
    → p ≢ 0
    → length ps ≤ n
    → 0 < page_size
    → IsStored size h d p ps bs
    → (m : Loaded) × (load_data n always page_size size h d p ≡ some m) × HasRead bs m
load_data-IsStored n page_size size h d _ _ _ some_p fuel b stored_end = absurd (some_p refl)
load_data-IsStored n page_size size h d p _ _ other fuel b
      (stored_more {ps = ps} {cs = cs} bs some_p long fits here rest) =
    let (m1, run, s, e) =
      load_after-IsStored n page_size size h d (h p).next ps (one_page size bs) bs cs (omega arith)
        b (record { measured = refl; fits = fits }) refl rest in
    (
      record m1 { is_loaded = true },
      load_data-step n page_size size h d p _ m1
          (load_page-stored size h d p bs some_p long fits here) run,
      record { sound = record { measured = s.measured; fits = s.fits }; bytes = e; loaded = refl },
    )
