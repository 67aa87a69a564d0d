-- ===== src/Tests/PageLists.antt =====
-- Free pages at concrete values.
use k2hash.Base.{
  ℕ, none, some, ◌≡◌, refl, true, false, [], ◌∷◌, leb, if◌then◌else◌, arith, List, ◌++◌,
}
use k2hash.Elements.FreeList.{apart_nil, apart_cons}
use k2hash.Pages.{PageStore, PageList, reserve_pages}
use k2hash.Pages.Chain.{IsChain, chain_end, chain_more, are_apart_nil, are_apart_cons}
use k2hash.Pages.Reserve.{IsReserved, reserve_pages-IsReserved}
use k2hash.Bytes.{Bytes}
use k2hash.Pages.Data.{DataStore, reserve_data, load_range, write_range}
use k2hash.Pages.Data.Replaced.{IsOverwritten, write_range-IsOverwritten}
use k2hash.Pages.Give.{free_pages, truncate}
use k2hash.Pages.Give.Freed.{free_pages-IsChain}
use k2hash.Pages.Give.Lengthened.{truncate-full}
use k2hash.Pages.Data.Written.{IsStored, stored_end, stored_more}
use k2hash.Pages.Data.Range.{load_range-IsStored}
use k2hash.Pages.Data.Reserved.{IsKept, reserve_data-IsKept}
use k2hash.Pages.PutBack.{IsFreePages}

-- The page 64 is free, the pages 16 and 32 are a value's.
abbrev pages : PageStore
pages p =
    if leb p 16
    then record { prev = 0; next = 32; length = 8 }
    else if leb p 32
    then record { prev = 16; next = 0; length = 4 }
    else record { prev = 0; next = 0; length = 0 }

abbrev one_page : PageList
one_page = record { pfree_pages = 64; free_page_count = 1 }

one_page-IsFreePages : IsFreePages pages one_page (64 ∷ [])
one_page-IsFreePages = record {
  chain = chain_more {p = 64} (λ e. omega arith) apart_nil refl chain_end;
  counted = refl;
}

-- Three free pages with room for four bytes each.
abbrev three : PageStore
three p =
    if leb p 16
    then record { prev = 0; next = 32; length = 0 }
    else if leb p 32
    then record { prev = 16; next = 64; length = 0 }
    else record { prev = 32; next = 0; length = 0 }

abbrev three_pages : PageList
three_pages = record { pfree_pages = 16; free_page_count = 3 }

three_pages-IsFreePages : IsFreePages three three_pages (16 ∷ 32 ∷ 64 ∷ [])
three_pages-IsFreePages = record {
  chain =
      chain_more {p = 16} (λ e. omega arith)
        (apart_cons (λ e. omega arith) (apart_cons (λ e. omega arith) apart_nil)) refl
        (chain_more {p = 32} (λ e. omega arith) (apart_cons (λ e. omega arith) apart_nil) refl
          (chain_more {p = 64} (λ e. omega arith) apart_nil refl chain_end));
  counted = refl;
}

reserve_pages-IsReserved_example :
    (h' : PageStore) × (free' : PageList) × (qs : List ℕ) × (rs : List ℕ) × (last : ℕ)
    × (reserve_pages 3 three three_pages 4 7 none ≡ some (16, h', free'))
    × (16 ∷ 32 ∷ 64 ∷ [] ≡ qs ++ rs)
    × IsReserved three 4 7 three_pages qs rs last h' free'
reserve_pages-IsReserved_example =
    reserve_pages-IsReserved 3 three three_pages 4 7 (16 ∷ 32 ∷ 64 ∷ []) none
      three_pages-IsFreePages (omega arith) (omega arith) (omega arith)

abbrev seven_bytes : Bytes
seven_bytes = 1 ∷ 2 ∷ 3 ∷ 4 ∷ 5 ∷ 6 ∷ 7 ∷ []

reserve_data-IsKept_example :
    (h' : PageStore) × (d' : DataStore) × (free' : PageList) × (reserve_data 3 4 three
        (λ p. [])
        three_pages
        seven_bytes
        none
      ≡ some (16, h', d', free'))
    × IsKept 3 32 4 three (λ p. []) (16 ∷ 32 ∷ 64 ∷ []) seven_bytes 16 h' d' free'
reserve_data-IsKept_example =
    reserve_data-IsKept 3 32 4 three (λ p. []) three_pages (16 ∷ 32 ∷ 64 ∷ []) seven_bytes none
      three_pages-IsFreePages (omega arith) (omega arith) (omega arith) (omega arith)

-- The bytes 1 to 4 in one page and 5 to 7 in the next.
abbrev written : DataStore
written p = if leb p 16 then 1 ∷ 2 ∷ 3 ∷ 4 ∷ [] else 5 ∷ 6 ∷ 7 ∷ []

abbrev written_pages : PageStore
written_pages p =
    if leb p 16
    then record { prev = 0; next = 32; length = 4 }
    else record { prev = 16; next = 0; length = 3 }

seven_bytes-IsStored : IsStored 4 written_pages written 16 (16 ∷ 32 ∷ []) seven_bytes
seven_bytes-IsStored =
    stored_more {p = 16} (1 ∷ 2 ∷ 3 ∷ 4 ∷ []) (λ e. omega arith) refl (omega arith) refl
      (stored_more {p = 32} (5 ∷ 6 ∷ 7 ∷ []) (λ e. omega arith) refl (omega arith) refl stored_end)

-- Five bytes from the second on.
load_range-IsStored_example :
    (q : ℕ) × (pos : ℕ) × (load_range 2 written_pages written 16 1 5
      ≡ some (q, 2 ∷ 3 ∷ 4 ∷ 5 ∷ 6 ∷ [], pos))
load_range-IsStored_example =
    load_range-IsStored 4 2 written_pages written 16 (16 ∷ 32 ∷ []) 1 5 seven_bytes
      (λ e. omega arith) (omega arith) seven_bytes-IsStored

-- Three bytes over the end of the first page, in a file that has no room for more pages.
write_range-IsOverwritten_example :
    IsOverwritten 4 written_pages written 16
      (16 ∷ 32 ∷ [])
      2
      (99 ∷ 98 ∷ 97 ∷ [])
      seven_bytes
      (write_range 2 (λ h p n. none) 4 written_pages written 16 2 (99 ∷ 98 ∷ 97 ∷ []))
write_range-IsOverwritten_example =
    write_range-IsOverwritten (λ h p n. none) 4 written_pages 2 written 16 (16 ∷ 32 ∷ []) 2 99
      (98 ∷ 97 ∷ []) seven_bytes (λ e. omega arith) seven_bytes-IsStored (refl, tt)
      (apart_cons (λ e. omega arith) apart_nil, (apart_nil, tt)) (omega arith) (omega arith)

two_pages-IsChain : IsChain pages 0 16 (16 ∷ 32 ∷ [])
two_pages-IsChain =
    chain_more {p = 16} (λ e. omega arith) (apart_cons (λ e. omega arith) apart_nil) refl
      (chain_more {p = 32} (λ e. omega arith) apart_nil refl chain_end)

-- Two pages are put back, while one is free.
free_pages-IsChain_example :
    (h' : PageStore) × (free' : PageList) × (free_pages 2 pages one_page 16
      ≡ some (true, h', free'))
    × IsChain h' 0 free'.pfree_pages (16 ∷ 32 ∷ 64 ∷ [])
    × (free'.free_page_count ≡ 0)
free_pages-IsChain_example =
    free_pages-IsChain 2 pages one_page 16 16 (32 ∷ []) (64 ∷ []) two_pages-IsChain
      (are_apart_cons (apart_cons (λ e. omega arith) apart_nil)
        (are_apart_cons (apart_cons (λ e. omega arith) apart_nil) are_apart_nil))
      one_page-IsFreePages (omega arith)

-- The two pages of four bytes each hold seven, but are said to have no room for seven.
truncate-full_example :
    (h' : PageStore) × (truncate 2 (λ h free p n. none) 4 written_pages one_page 16 7
      ≡ some (false, h', one_page))
truncate-full_example =
    truncate-full 2 (λ h free p n. none) 4 7 written_pages one_page 16 32 [] (λ e. omega arith) refl
      (chain_more {p = 32} (λ e. omega arith) apart_nil refl chain_end) (omega arith) (omega arith)
