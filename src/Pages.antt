-- ===== src/Pages.antt =====
-- The free pages of lib/k2hshm.cc, a list in both directions over the page heads. Offset 0 is NULL.
pub mod Chain
pub mod PutBack
pub mod Reserve
pub mod Loaded
pub mod Data
pub mod Give
use k2hash.Base.{
  ℕ, zero, suc, ◌+◌, ◌-◌, ◌*◌, Bool, true, false, Option, none, some, ◌==◌, ltb, leb, if◌then◌else◌,
}

-- `PAGEHEAD`
pub record Page : Type 0 where
  pub prev : ℕ
  pub next : ℕ
  pub length : ℕ

abbrev pub PageStore : Type 0
PageStore = ℕ → Page

-- The fields of `K2H` for free pages.
pub record PageList : Type 0 where
  pub pfree_pages : ℕ
  pub free_page_count : ℕ

-- One page head overwritten.
unfoldable pub put_page : PageStore → ℕ → Page → PageStore
put_page h p x q = if q == p then x else h q

abbrev pub set_prev : PageStore → ℕ → ℕ → PageStore
set_prev h p v = put_page h p (record (h p) { prev = v })

abbrev pub set_next : PageStore → ℕ → ℕ → PageStore
set_next h p v = put_page h p (record (h p) { next = v })

-- `ReplacePageHead` writes one of the two links.
abbrev pub replace_page_head : PageStore → (last ptr : ℕ) → (is_set_prev : Bool) → PageStore
replace_page_head h last ptr is_set_prev =
    if is_set_prev then set_prev h last ptr else set_next h last ptr

-- The count after `pagecount` pages were put back.
abbrev pub put_back_count : (free_count pagecount : ℕ) → ℕ
put_back_count free_count pagecount = if leb pagecount free_count then free_count + pagecount else 0

-- `PutBackPages`: the pages from `top` to `last` in front of the free ones. Both kinds of mapping
-- write the same two links.
unfoldable pub put_back_pages :
    PageStore → PageList → (top last pagecount : ℕ) → Bool × PageStore × PageList
put_back_pages h free top last pagecount =
    let h1 = replace_page_head h last free.pfree_pages false in
    if (if top == 0 then true else last == 0) then (false, h, free) else (
      true,
      (if free.pfree_pages == 0 then h1 else replace_page_head h1 free.pfree_pages last true),
      record { pfree_pages = top; free_page_count = put_back_count free.free_page_count pagecount },
    )

-- The loop of `ReservePages` from a page on: the last page that is needed, the page behind it, and how
-- many there are. A list that ends too early gives its end. `size` is a page's room for data.
unfoldable pub reserve_loop :
    ℕ → PageStore → (size length : ℕ) → (p count last : ℕ) → Option (ℕ × ℕ × ℕ)
reserve_loop zero h size length p count last = none
reserve_loop (suc fuel) h size length p count last =
    let rest = reserve_loop fuel h size length (h p).next (count + 1) p in
    if p == 0
    then some (last, 0, count)
    else if leb length (size * count)
    then some (p, (h p).next, count)
    else rest

-- `ReservePages` with enough free pages: the first page, and what is left.
unfoldable pub take_pages :
    ℕ → PageStore → PageList → (size length : ℕ) → Option (ℕ × PageStore × PageList)
unfolding reserve_loop
take_pages fuel h free size length = elim (reserve_loop fuel h size length free.pfree_pages 1 0) [
  | none ↦ none
  | some r ↦
      let last = r.0 in
      let next = r.1 in
      let count = r.2 in
      if next == 0
      then some (free.pfree_pages, h, record { pfree_pages = 0; free_page_count = 0 })
      else some (
        free.pfree_pages,
        set_next (set_prev h next 0) last 0,
        record {
          pfree_pages = next;
          free_page_count =
              if leb count free.free_page_count then free.free_page_count - count else 0;
        },
      )
]

-- `ReservePages`. `expanded` is what the loop over `ExpandPageArea` leaves, nothing when that fails.
unfoldable pub reserve_pages :
    ℕ
    → PageStore
    → PageList
    → (size length : ℕ) → Option (PageStore × PageList)
    → Option (ℕ × PageStore × PageList)
reserve_pages fuel h free size length expanded =
    if ltb (size * free.free_page_count) length
    then elim expanded [ none ↦ none | some r ↦ take_pages fuel r.0 r.1 size length ]
    else take_pages fuel h free size length

-- `InitializePageArray`: `count` heads, one every `pagesize` bytes from `pos` on.
unfoldable pub initialize_page_array :
    (pagesize : ℕ) → PageStore → (pos prev last : ℕ) → ℕ → PageStore
initialize_page_array pagesize h pos prev last zero = h
initialize_page_array pagesize h pos prev last (suc zero) =
    put_page h pos (record { prev = prev; next = last; length = 0 })
initialize_page_array pagesize h pos prev last (suc (suc count)) =
    initialize_page_array pagesize
      (put_page h pos (record { prev = prev; next = pos + pagesize; length = 0 })) (pos + pagesize)
      pos last (suc count)
