-- ===== src/Pages/Give.antt =====
-- `Free` and `Truncate` of lib/k2hpagemem.cc.
pub mod Freed
pub mod Lengthened
use k2hash.Base.{
  ℕ, zero, suc, ◌+◌, ◌-◌, Bool, true, false, Option, none, some, ◌==◌, ltb, leb, if◌then◌else◌,
}
use k2hash.Pages.{PageStore, PageList, put_back_pages}
use k2hash.Pages.Data.{set_length}

-- The loop of `Free` over the pages behind the first, on fuel: the last page, and the count.
unfoldable pub free_loop : ℕ → PageStore → (p last count : ℕ) → Option (PageStore × ℕ × ℕ)
free_loop zero h p last count = none
free_loop (suc n) h p last count = elim (p == 0) [
  | true ↦ some (h, last, count)
  | false ↦ free_loop n (set_length h p 0) (h p).next p (count + 1)
]

-- `Free` of all pages.
unfoldable pub free_pages :
    ℕ → PageStore → PageList → (p : ℕ) → Option (Bool × PageStore × PageList)
free_pages fuel h free p =
    if p == 0
    then some (true, h, free)
    else elim (free_loop fuel (set_length h p 0) (h p).next p 1) [
      | none ↦ none
      | some (h1, last, count) ↦ some (put_back_pages h1 free p last count)
    ]

-- The loop of `Truncate` over the pages behind the first, on fuel: whether there were enough.
unfoldable pub lengthen_loop :
    ℕ → (size : ℕ) → PageStore → (p length : ℕ) → Option (Bool × PageStore)
lengthen_loop zero size h p length = none
lengthen_loop (suc n) size h p length =
    let one = if leb length size then length else size in
    elim (length == 0) [
      | true ↦ some (true, h)
      | false ↦ elim (p == 0) [
        | true ↦ some (false, h)
        | false ↦ lengthen_loop n size (set_length h p one) (h p).next (length - one)
      ]
    ]

-- `Truncate` to a length that the first page does not have yet; `add_pages` is `AddPages`.
unfoldable pub lengthen :
    ℕ
    → (add_pages : PageStore → PageList → (p length : ℕ) → Option (PageStore × PageList)) (size : ℕ)
    → PageStore
    → PageList
    → (p length : ℕ) → Option (Bool × PageStore × PageList)
lengthen fuel add_pages size h free p length =
    let one = if leb length size then length else size in
    let short = ltb (h p).length size in
    let h1 = if short then set_length h p one else h in
    let remaining = if short then length - one else length in
    elim (remaining == 0) [
      | true ↦ some (true, h1, free)
      | false ↦ elim (if (h p).next == 0 then add_pages h1 free p remaining else some (h1, free)) [
        | none ↦ some (false, h1, free)
        | some (h2, free2) ↦ elim (lengthen_loop fuel size h2 (h2 p).next remaining) [
          | none ↦ none
          | some (ok, h3) ↦ some (ok, h3, free2)
        ]
      ]
    ]

-- `Truncate`
unfoldable pub truncate :
    ℕ
    → (add_pages : PageStore → PageList → (p length : ℕ) → Option (PageStore × PageList)) (size : ℕ)
    → PageStore
    → PageList
    → (p length : ℕ) → Option (Bool × PageStore × PageList)
truncate fuel add_pages size h free p length =
    if (if p == 0 then true else length == 0)
    then some (false, h, free)
    else if ltb length (h p).length
    then (if (h p).next == 0
        then some (true, set_length h p length, free)
        else free_pages fuel (set_length h p length) free (h p).next)
    else if ltb (h p).length length
    then lengthen fuel add_pages size h free p length
    else some (true, h, free)
