-- ===== src/Pages/Reserve.antt =====
-- `ReservePages` on the list of free pages.
use k2hash.Base.{
  ℕ, zero, suc, ◌+◌, ◌-◌, ◌*◌, ◌≤◌, ◌<◌, ◌≡◌, ◌≢◌, refl, sym, ap, ◌∙◌, true, false, Option, some,
  List, [], ◌∷◌, ◌++◌, ◌==◌, leb, ltb, if◌then◌else◌, length, length-append, ne→==, ==→eq,
  Bool-cases, inl, inr, arith,
}
use k2hash.Elements.FreeList.{Apart, apart_nil, apart_cons}
use k2hash.Pages.{
  Page, PageStore, PageList, set_prev, set_next, reserve_loop, take_pages, reserve_pages,
}
use k2hash.Pages.Chain.{
  page_same, page_other, IsChain, chain_end, chain_more, IsRun, run_last, run_more, IsRun-last,
  IsChain-put, IsChain-before,
}
use k2hash.Pages.PutBack.{IsFreePages}

-- The pages `qs` of `ps` that a value of `bytes` takes, the first of them the page number `count`:
-- enough for it and no more, and `last` the last of them.
pub record IsTaken (h : PageStore) (size bytes before p count : ℕ) (ps qs rs : List ℕ) (last : ℕ)
    : Type 0 where
  pub split : ps ≡ qs ++ rs
  pub run : IsRun h before p qs last
  pub rest : IsChain h last (h last).next rs
  pub apart : Apart last rs
  pub enough : bytes ≤ size * (count + length qs - 1)
  pub tight : size * (count + length qs - 2) < bytes
  pub next_apart : Apart (h last).next qs

loop_stops :
    (fuel : ℕ) (h : PageStore) (size bytes p count last : ℕ)
    → p ≢ 0
    → bytes ≤ size * count
    → reserve_loop (suc fuel) h size bytes p count last ≡ some (p, (h p).next, count)
unfolding reserve_loop
loop_stops fuel h size bytes p count last some_p b =
    let e : leb bytes (size * count) ≡ true = ground arith in
    rw (reserve_loop, ne→== p 0 (λ x. absurd (some_p x)), e) refl

loop_goes :
    (fuel : ℕ) (h : PageStore) (size bytes p count last : ℕ)
    → p ≢ 0
    → size * count < bytes
    → reserve_loop (suc fuel) h size bytes p count last
      ≡ reserve_loop fuel h size bytes (h p).next (count + 1) p
unfolding reserve_loop
loop_goes fuel h size bytes p count last some_p b =
    let e : leb bytes (size * count) ≡ false = ground arith in
    rw (reserve_loop, ne→== p 0 (λ x. absurd (some_p x)), e) refl

IsChain-none :
    {h : PageStore} {before p : ℕ} {ps : List ℕ} → IsChain h before p ps → p ≡ 0 → ps ≡ []
IsChain-none chain_end e = refl
IsChain-none (chain_more some_p once f rest) e = absurd (some_p e)

IsChain-some :
    {h : PageStore} {before p : ℕ} {ps : List ℕ} → IsChain h before p ps → 0 < length ps → p ≢ 0
IsChain-some chain_end b = absurd (omega arith)
IsChain-some (chain_more some_p once f rest) b = some_p

pub Apart-left : (x : ℕ) (qs rs : List ℕ) → Apart x (qs ++ rs) → Apart x qs
Apart-left x [] rs a = apart_nil
Apart-left x (q ∷ qs) rs (apart_cons other a) = apart_cons other (Apart-left x qs rs a)

pub Apart-right : (x : ℕ) (qs rs : List ℕ) → Apart x (qs ++ rs) → Apart x rs
Apart-right x [] rs a = a
Apart-right x (q ∷ qs) rs (apart_cons other a) = Apart-right x qs rs a

pub next-ne :
    {h : PageStore} {before x p : ℕ} {rs : List ℕ}
    → IsChain h before x rs
    → Apart p rs
    → p ≢ 0
    → x ≢ p
next-ne chain_end a some_p e = some_p (sym e)
next-ne (chain_more some_x once f rest) (apart_cons other a) some_p e = other e

-- The loop ends at the first page that makes the room enough, if the list has enough.
reserve_loop-IsTaken :
    (h : PageStore) (size bytes : ℕ) (ps : List ℕ) (fuel before p count last : ℕ)
    → IsChain h before p ps
    → 0 < length ps
    → 0 < count
    → size * (count - 1) < bytes
    → bytes ≤ size * (count + length ps - 1)
    → length ps ≤ fuel
    → (last' : ℕ) × (qs : List ℕ) × (rs : List ℕ) × (reserve_loop fuel h size bytes p count last
        ≡ some (last', (h last').next, count + length qs - 1))
      × IsTaken h size bytes before p count ps qs rs last'
reserve_loop-IsTaken h size bytes _ fuel before _ count last chain_end some_ps pos few b f =
    absurd (omega arith)
reserve_loop-IsTaken h size bytes (_ ∷ ps) zero before p count last (chain_more some_p once g rest)
      some_ps pos few b f =
    absurd (omega arith)
reserve_loop-IsTaken h size bytes (_ ∷ ps) (suc fuel) before p count last
      (chain_more some_p once g rest) some_ps pos few b f =
    elim (Bool-cases (leb bytes (size * count))) [
      | inl enough ↦
          let one : count + 1 - 1 ≡ count = omega arith in
          let two : count + 1 - 2 ≡ count - 1 = omega arith in
          (
            p,
            p ∷ [],
            ps,
            loop_stops fuel h size bytes p count last some_p (ground arith) ∙ rw one refl,
            record {
              split = refl;
              run = run_last some_p g;
              rest = rest;
              apart = once;
              enough = rw one (ground arith);
              tight = rw two few;
              next_apart = apart_cons (λ e. next-ne rest once some_p (sym e)) apart_nil;
            },
          )
      | inr more ↦
          let short : size * count < bytes = ground arith in
          let whole : count + suc (length ps) - 1 ≡ count + 1 + length ps - 1 = omega arith in
          let back : count + 1 - 1 ≡ count = omega arith in
          let left : 0 < length ps = more_left ps short b in
          let (last', qs, rs, runs, t) =
            reserve_loop-IsTaken h size bytes ps fuel p (h p).next (count + 1) p rest left
              (omega arith) (rw back short) (rw whole at b) (omega arith) in
          let total : count + suc (length qs) - 1 ≡ count + 1 + length qs - 1 = omega arith in
          let total2 : count + suc (length qs) - 2 ≡ count + 1 + length qs - 2 = omega arith in
          let away : Apart p rs = Apart-right p qs rs (rw t.split at once) in
          (
            last',
            p ∷ qs,
            rs,
            loop_goes fuel h size bytes p count last some_p short ∙ rw total runs,
            record {
              split = ap (◌∷◌ p) t.split;
              run = run_more some_p (Apart-left p qs rs (rw t.split at once)) g t.run;
              rest = t.rest;
              apart = t.apart;
              enough = rw total t.enough;
              tight = rw total2 t.tight;
              next_apart = apart_cons (λ e. next-ne t.rest away some_p (sym e)) t.next_apart;
            },
          )
    ]
  where
    more_left :
        (xs : List ℕ)
        → size * count < bytes
        → bytes ≤ size * (count + suc (length xs) - 1)
        → 0 < length xs
    more_left [] c d = let one : count + 1 - 1 ≡ count = omega arith in omega (arith, rw one at d)
    more_left (x ∷ xs) c d = omega arith

-- The store that `ReservePages` leaves when pages are left.
abbrev parted : PageStore → (next last : ℕ) → PageStore
parted h next last = if next == 0 then h else set_next (set_prev h next 0) last 0

-- What `ReservePages` gives: the run `qs` of free pages up to `last`, with room for all the bytes, not
-- more pages than these take, and no page behind it, and the pages `rs` as the free ones.
pub record IsReserved (h : PageStore) (size bytes : ℕ) (free : PageList) (qs rs : List ℕ) (last : ℕ)
    (h' : PageStore) (free' : PageList) : Type 0 where
  pub run : IsRun h 0 free.pfree_pages qs last
  pub enough : bytes ≤ size * length qs
  pub tight : size * (length qs - 1) < bytes
  pub ends : (h' last).next ≡ 0
  pub chain : IsChain h' 0 free.pfree_pages qs
  pub keeps : (q : ℕ) → q ≢ last → q ≢ (h last).next → h' q ≡ h q
  pub left : IsFreePages h' free' rs
  pub top : free'.pfree_pages ≡ (h last).next

-- A run whose last page is made to end.
IsRun-IsChain :
    {h : PageStore} (h' : PageStore) {before p last : ℕ} (nx : ℕ) {qs : List ℕ}
    → IsRun h before p qs last
    → ((h' last).next ≡ 0) × ((h' last).prev ≡ (h last).prev)
    → ((q : ℕ) → q ≢ last → q ≢ nx → h' q ≡ h q)
    → Apart nx qs
    → IsChain h' before p qs
IsRun-IsChain h' {p = p} nx (run_last some_p f) ends keeps a =
    chain_more some_p apart_nil (ends.1 ∙ f) (rw ends.0 chain_end)
IsRun-IsChain h' {p = p} nx (run_more some_p once f rest) ends keeps (apart_cons other a) =
    let same = keeps p (λ e. IsRun-last p rest once (sym e)) other in
    chain_more some_p once (rw same f) (rw same (IsRun-IsChain h' nx rest ends keeps a))

take_pages_runs :
    (fuel : ℕ) (h : PageStore) (free : PageList) (size bytes last count : ℕ)
    → reserve_loop fuel h size bytes free.pfree_pages 1 0 ≡ some (last, (h last).next, count)
    → take_pages fuel h free size bytes
      ≡ some (
        free.pfree_pages,
        parted h (h last).next last,
        record {
          pfree_pages = (h last).next;
          free_page_count =
              if (h last).next == 0
              then 0
              else if leb count free.free_page_count
              then free.free_page_count - count
              else 0;
        },
      )
unfolding take_pages
take_pages_runs fuel h free size bytes last count run = elim (Bool-cases ((h last).next == 0)) [
  | inl e ↦
      let none_left : (h last).next ≡ 0 = ==→eq (h last).next 0 e in
      rw (take_pages, run, e)
        (ap (λ (n : ℕ). some (free.pfree_pages, h, record { pfree_pages = n; free_page_count = 0 }))
          (sym none_left))
  | inr e ↦ rw (take_pages, run, e) refl
]

IsRun-last-ne :
    {h : PageStore} {before p last : ℕ} {ps : List ℕ} → IsRun h before p ps last → last ≢ 0
IsRun-last-ne (run_last some_p f) = some_p
IsRun-last-ne (run_more some_p once f rest) = IsRun-last-ne rest

IsReserved-taken :
    (h : PageStore) (size bytes : ℕ) (free : PageList) (ps qs rs : List ℕ) (last : ℕ)
    → IsFreePages h free ps
    → IsTaken h size bytes 0 free.pfree_pages 1 ps qs rs last
    → IsReserved h size bytes free qs rs last (parted h (h last).next last) (record {
      pfree_pages = (h last).next;
      free_page_count =
          if (h last).next == 0
          then 0
          else if leb (1 + length qs - 1) free.free_page_count
          then free.free_page_count - (1 + length qs - 1)
          else 0;
    })
IsReserved-taken h size bytes free ps qs rs last f t =
    let number : 1 + length qs - 1 ≡ length qs = omega arith in
    let fewer : 1 + length qs - 2 ≡ length qs - 1 = omega arith in
    let last_apart : (h last).next ≢ last = next-ne t.rest t.apart (IsRun-last-ne t.run) in
    let all : free.free_page_count ≡ length qs + length rs =
      f.counted ∙ ap length t.split ∙ length-append qs rs in
    elim (Bool-cases ((h last).next == 0)) [
      | inl e ↦
          let none_left : (h last).next ≡ 0 = ==→eq (h last).next 0 e in
          record {
            run = t.run;
            enough = rw number at t.enough;
            ends = rw e none_left;
            tight = rw fewer at t.tight;
            chain = rw e (
                IsRun-IsChain h (h last).next t.run (none_left, refl) (λ q a b. refl) t.next_apart);
            keeps = λ q a b. rw e refl;
            left = record {
              chain = rw (e, none_left, IsChain-none t.rest none_left) chain_end;
              counted = rw (e, IsChain-none t.rest none_left) refl;
            };
            top = refl;
          }
      | inr e ↦ record {
        run = t.run;
        enough = rw number at t.enough;
        ends = rw e (ap (λ (x : Page). x.next) (page_same _ last _));
        tight = rw fewer at t.tight;
        chain = rw e (
            IsRun-IsChain (set_next (set_prev h (h last).next 0) last 0) (h last).next t.run
              (
                ap (λ (x : Page). x.next) (page_same _ last _),
                ap (λ (x : Page). x.prev) (page_same _ last _)
                    ∙ ap (λ (x : Page). x.prev)
                        (page_other h (h last).next last _ (λ f. last_apart (sym f))),
              )
              (λ q a b. page_other _ last q _ a ∙ page_other h (h last).next q _ b) t.next_apart);
        keeps = λ q a b. rw e (page_other _ last q _ a ∙ page_other h (h last).next q _ b);
        left = record {
          chain = rw e (
              IsChain-put _ last _ 0 (h last).next rs t.apart
                (rw e at (IsChain-before h last 0 (h last).next rs t.rest)));
          counted = rw (e, number) (ground (arith, all));
        };
        top = refl;
      }
    ]

-- `ReservePages` of one byte or more with enough free pages, and as many steps as there are pages,
-- gives the first of a run of pages that has room for all the bytes, would not have it with a page
-- less, and ends at NULL, changes no page but the last of the run and the first that is left, and
-- leaves the others as the free pages, with their number.
pub reserve_pages-IsReserved :
    (fuel : ℕ) (h : PageStore) (free : PageList) (size bytes : ℕ) (ps : List ℕ)
    (expanded : Option (PageStore × PageList))
    → IsFreePages h free ps
    → 0 < bytes
    → bytes ≤ size * length ps
    → length ps ≤ fuel
    → (h' : PageStore) × (free' : PageList) × (qs : List ℕ) × (rs : List ℕ) × (last : ℕ)
      × (reserve_pages fuel h free size bytes expanded ≡ some (free.pfree_pages, h', free'))
      × (ps ≡ qs ++ rs)
      × IsReserved h size bytes free qs rs last h' free'
unfolding reserve_pages
reserve_pages-IsReserved fuel h free size bytes ps expanded f pos room b =
    let number : 1 + length ps - 1 ≡ length ps = omega arith in
    let some_ps : 0 < length ps = some_page ps pos room in
    let (last, qs, rs, runs, t) =
      reserve_loop-IsTaken h size bytes ps fuel 0 free.pfree_pages 1 0 f.chain some_ps (omega arith)
        (first_page bytes pos) (rw number room) b in
    let fits : ltb (size * free.free_page_count) bytes ≡ false = rw f.counted (ground arith) in
    (
      _,
      _,
      qs,
      rs,
      last,
      rw fits (take_pages_runs fuel h free size bytes last _ runs),
      t.split,
      IsReserved-taken h size bytes free ps qs rs last f t,
    )
  where
    first_page : (n : ℕ) → 0 < n → size * (1 - 1) < n
    first_page n c = omega arith

    some_page : (xs : List ℕ) → 0 < bytes → bytes ≤ size * length xs → 0 < length xs
    some_page [] c d = absurd (omega arith)
    some_page (x ∷ xs) c d = omega arith
