-- ===== src/Pages/Data.antt =====
-- The data in the pages of the file, as lib/k2hpagemem.cc writes and reads them. Each page has room for
-- `size` bytes behind its head.
pub mod Written
pub mod Saved
pub mod Kept
pub mod Reserved
pub mod Range
pub mod Splice
pub mod Overwrite
pub mod Replaced
use k2hash.Base.{
  ℕ, zero, suc, ◌+◌, ◌-◌, ltb, Bool, true, false, Option, none, some, [], ◌∷◌, ◌++◌, ◌==◌, leb,
  if◌then◌else◌, length, take, drop,
}
use k2hash.Bytes.{Bytes}
use k2hash.Pages.{Page, PageStore, PageList, put_page, reserve_pages}
use k2hash.Pages.Loaded.{Loaded, used, append_data}

-- The room for data of each page.
abbrev pub DataStore : Type 0
DataStore = ℕ → Bytes

-- `memcpy` to the start of a page's data.
unfoldable pub put_data : DataStore → ℕ → Bytes → DataStore
put_data d p bs q = if q == p then bs ++ drop (length bs) (d p) else d q

abbrev pub set_length : PageStore → ℕ → ℕ → PageStore
set_length h p n = put_page h p (record (h p) { length = n })

-- `one_length`: as many bytes as a page takes.
unfoldable pub one_length : (size : ℕ) → Bytes → ℕ
one_length size bs = if leb (length bs) size then length bs else size

-- The loop of `SetData`, on fuel: the bytes in pieces, each with its length in the head of its page.
unfoldable pub set_loop :
    ℕ → (size : ℕ) → PageStore → DataStore → (p : ℕ) → Bytes → Option (Bool × PageStore × DataStore)
set_loop zero size h d p bs = none
set_loop (suc n) size h d p bs =
    let one = one_length size bs in
    let h1 = set_length h p one in
    let d1 = put_data d p (take one bs) in
    let remaining = drop one bs in
    elim bs [
      | [] ↦ some (true, h, d)
      | c ∷ cs ↦ elim remaining [
        | [] ↦ some (true, h1, d1)
        | e ∷ es ↦ elim ((h p).next == 0) [
          | true ↦ some (false, h1, d1)
          | false ↦ set_loop n size h1 d1 (h p).next (e ∷ es)
        ]
      ]
    ]

-- `SetData`
unfoldable pub set_data :
    (fuel size : ℕ)
    → PageStore
    → DataStore
    → (p : ℕ) → Bytes
    → Option (Bool × PageStore × DataStore)
set_data fuel size h d p bs = if p == 0 then some (false, h, d) else set_loop fuel size h d p bs

-- `ReservePages` of the bytes: the pages, then the data; `none` is the return value false.
unfoldable pub reserve_data :
    (fuel size : ℕ)
    → PageStore
    → DataStore
    → PageList
    → Bytes
    → (expanded : Option (PageStore × PageList)) → Option (ℕ × PageStore × DataStore × PageList)
reserve_data fuel size h d free bs expanded =
    elim (reserve_pages fuel h free size (length bs) expanded) [
      | none ↦ none
      | some (p, h1, free1) ↦ elim (set_data fuel size h1 d p bs) [
        | none ↦ none
        | some (ok, h2, d2) ↦ if ok then some (p, h2, d2, free1) else none
      ]
    ]

-- `LoadData` of one page; `none` also where its length goes past its room.
unfoldable pub load_page :
    (malloc : ℕ → Bool) (size : ℕ) → PageStore → DataStore → ℕ → Option Loaded
load_page malloc size h d p =
    if p == 0
    then none
    else if malloc size
    then (if leb (h p).length size
        then some (record {
          page_data = some (take (h p).length (d p));
          alloc_length = size;
          data_length = (h p).length;
          is_loaded = false;
        })
        else none)
    else none

-- The data of a page behind the first are appended, if there are any.
abbrev pub append_page : (malloc : ℕ → Bool) (page_size : ℕ) → Loaded → Loaded → Option Loaded
append_page malloc page_size m after =
    if after.data_length == 0 then some m else append_data malloc page_size m (used after.page_data)

-- The loop of `LoadData` over the pages behind the first, on fuel.
unfoldable pub load_after :
    ℕ
    → (malloc : ℕ → Bool) (page_size size : ℕ) → PageStore
    → DataStore
    → (p : ℕ) → Loaded
    → Option Loaded
load_after zero malloc page_size size h d p m = none
load_after (suc n) malloc page_size size h d p m = elim (p == 0) [
  | true ↦ some m
  | false ↦ elim (load_page malloc size h d p) [
    | none ↦ none
    | some after ↦ elim (append_page malloc page_size m after) [
      | none ↦ none
      | some m1 ↦ load_after n malloc page_size size h d (h p).next m1
    ]
  ]
]

-- `LoadData` of all pages.
unfoldable pub load_data :
    ℕ → (malloc : ℕ → Bool) (page_size size : ℕ) → PageStore → DataStore → (p : ℕ) → Option Loaded
load_data fuel malloc page_size size h d p = elim (load_page malloc size h d p) [
  | none ↦ none
  | some m ↦ elim (load_after fuel malloc page_size size h d (h p).next m) [
    | none ↦ none
    | some m1 ↦ some (record m1 { is_loaded = true })
  ]
]

-- How many bytes the loop of `LoadData` from an offset on takes of a page, and the offset in the next.
unfoldable pub this_length : (page offset length : ℕ) → ℕ
this_length page offset length =
    if leb page offset then 0 else if leb (page - offset) length then page - offset else length

unfoldable pub next_offset : (page offset : ℕ) → ℕ
next_offset page offset = if leb page offset then offset - page else 0

-- The loop of `LoadData` from an offset on, on fuel: the last page, the data behind `data_bytes`, and
-- the next position in that page.
unfoldable pub range_loop :
    ℕ
    → PageStore
    → DataStore
    → (p offset length : ℕ) → (data_bytes : Bytes) → Option (ℕ × Bytes × ℕ)
range_loop zero h d p offset length data_bytes = none
range_loop (suc n) h d p offset length data_bytes =
    let this = this_length (h p).length offset length in
    let all = data_bytes ++ take this (drop offset (d p)) in
    let position = offset + this in
    elim (length - this == 0) [
      | true ↦ some (p, all, position)
      | false ↦ elim ((h p).next == 0) [
        | true ↦ some (p, all, position)
        | false ↦ range_loop n h d (h p).next (next_offset (h p).length offset) (length - this) all
      ]
    ]

-- `LoadData` of `length` bytes from an offset on, into memory of that size; `none` is NULL.
unfoldable pub load_range :
    ℕ → PageStore → DataStore → (p offset length : ℕ) → Option (ℕ × Bytes × ℕ)
load_range fuel h d p offset length =
    if p == 0 then none else range_loop fuel h d p offset length []

-- `memcpy` to an offset in memory, where what was never written is 0.
unfoldable pub splice : (offset : ℕ) → (bs memory : Bytes) → Bytes
splice zero bs memory = bs ++ drop (length bs) memory
splice (suc n) bs [] = 0 ∷ splice n bs []
splice (suc n) bs (b ∷ memory) = b ∷ splice n bs memory

unfoldable pub put_at : DataStore → ℕ → (offset : ℕ) → Bytes → DataStore
put_at d p offset bs q = if q == p then splice offset bs (d p) else d q

-- How the loop of `SetData` from an offset on leaves the length of a page that is to hold `n` bytes.
abbrev pub grown : PageStore → ℕ → (n : ℕ) → PageStore
grown h p n = if ltb (h p).length n then set_length h p n else h

-- The page behind `p`, which `AddPages` makes if there is none.
unfoldable pub next_page :
    (add_pages : PageStore → (p length : ℕ) → Option PageStore)
    → PageStore
    → (p length : ℕ) → Option PageStore
next_page add_pages h p length = if (h p).next == 0 then add_pages h p length else some h

-- The loop of `SetData` from an offset on, on fuel: the last page, and the stores; nothing inside is the
-- return value NULL.
unfoldable pub write_loop :
    ℕ
    → (add_pages : PageStore → (p length : ℕ) → Option PageStore) (size : ℕ) → PageStore
    → DataStore
    → (p offset : ℕ) → Bytes
    → Option (Option (ℕ × PageStore × DataStore))
write_loop zero add_pages size h d p offset bs = none
write_loop (suc n) add_pages size h d p offset bs =
    let room = one_length (size - offset) bs in
    elim (leb size offset) [
      | true ↦ elim (next_page add_pages (grown h p size) p (length bs)) [
        | none ↦ some none
        | some h1 ↦ write_loop n add_pages size h1 d (h1 p).next (offset - size) bs
      ]
      | false ↦ elim (drop room bs) [
        | [] ↦ some (some (p, grown h p (room + offset), put_at d p offset (take room bs)))
        | c ∷ cs ↦ elim (next_page add_pages (grown h p (room + offset)) p (length (c ∷ cs))) [
          | none ↦ some none
          | some h1 ↦
              write_loop n add_pages size h1 (put_at d p offset (take room bs)) (h1 p).next 0
                (c ∷ cs)
        ]
      ]
    ]

-- `SetData` of bytes from an offset on.
unfoldable pub write_range :
    ℕ
    → (add_pages : PageStore → (p length : ℕ) → Option PageStore) (size : ℕ) → PageStore
    → DataStore
    → (p offset : ℕ) → Bytes
    → Option (Option (ℕ × PageStore × DataStore))
write_range fuel add_pages size h d p offset [] = some none
write_range fuel add_pages size h d p offset (b ∷ bs) =
    if p == 0 then some none else write_loop fuel add_pages size h d p offset (b ∷ bs)
