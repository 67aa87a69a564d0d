-- ===== src/Pages/Loaded.antt =====
-- `K2HPage` of lib/k2hpage.cc: the data of an object's pages while it is in memory.
use k2hash.Base.{
  ℕ, ◌+◌, ◌*◌, ◌/◌, ◌%◌, ◌≤◌, ◌<◌, ◌≡◌, ◌↔◌, refl, sym, ap, ◌∙◌, Ordering, is_eq, Bool, true, false,
  Option, none, some, [], ◌∷◌, ◌++◌, ◌==◌, ltb, if◌then◌else◌, length, length-append, ne→==, ==→eq,
  ==_refl, Bool-cases, inl, inr, arith,
}
use k2hash.Bytes.{Bytes, memcmp}
use native.Mathlib.Nat.{div-add-mod', mod-lt}

-- `pPageData`, `none` for NULL and else its used part, with `AllocLength`, `DataLength`, `isLoaded`.
pub record Loaded : Type 0 where
  pub page_data : Option Bytes
  pub alloc_length : ℕ
  pub data_length : ℕ
  pub is_loaded : Bool

-- `CleanLoadedData`
unfoldable pub clean_loaded_data : Loaded → Loaded
clean_loaded_data m = record {
  page_data = none;
  alloc_length = 0;
  data_length = 0;
  is_loaded = false;
}

abbrev pub used : Option Bytes → Bytes
used none = []
used (some bs) = bs

abbrev pub is_null : Option Bytes → Bool
is_null none = true
is_null (some bs) = false

-- `AppendData`: `none` is NULL, which leaves the object as it was. `realloc` tells which sizes can be
-- allocated.
unfoldable pub append_data : (realloc : ℕ → Bool) (page_size : ℕ) → Loaded → Bytes → Option Loaded
append_data realloc page_size m bs =
    let need = m.data_length + length bs in
    let new_length = (need / page_size + 1) * page_size in
    let bytes : Option Bytes = some (used m.page_data ++ bs) in
    if (if is_null m.page_data then true else ltb m.alloc_length need)
    then (if realloc new_length
        then some (record {
          page_data = bytes;
          alloc_length = new_length;
          data_length = need;
          is_loaded = m.is_loaded;
        })
        else none)
    else some (record {
      page_data = bytes;
      alloc_length = m.alloc_length;
      data_length = need;
      is_loaded = m.is_loaded;
    })

-- `Compare`
unfoldable pub compare_data : Loaded → Option Bytes → Bool
compare_data m none = false
compare_data m (some bs) =
    if length bs == 0
    then false
    else if m.is_loaded
    then (if length bs == m.data_length
        then elim m.page_data [ none ↦ false | some bytes ↦ is_eq (memcmp m.data_length bytes bs) ]
        else false)
    else false

-- The used part has the length that the object says, and fits what is allocated.
pub record IsSound (m : Loaded) : Type 0 where
  pub measured : m.data_length ≡ length (used m.page_data)
  pub fits : m.data_length ≤ m.alloc_length

room_for : (need page_size : ℕ) → 0 < page_size → need ≤ (need / page_size + 1) * page_size
room_for need page_size b =
    let split : need / page_size * page_size + need % page_size ≡ need =
      div-add-mod' need page_size in
    let small : need % page_size < page_size = mod-lt need b in grind (arith, split, small)

-- With memory and a page size that is not 0, `AppendData` keeps a sound object sound, so that no
-- more is used than is allocated, and puts the bytes behind the ones that it had.
pub append_data-IsSound :
    (page_size : ℕ) (m : Loaded) (bs : Bytes)
    → 0 < page_size
    → IsSound m
    → (m' : Loaded) × (append_data (λ _. true) page_size m bs ≡ some m')
      × IsSound m'
      × (m'.page_data ≡ some (used m.page_data ++ bs))
unfolding append_data
append_data-IsSound page_size m bs b s =
    elim (Bool-cases
      (if is_null m.page_data then true else ltb m.alloc_length (m.data_length + length bs))) [
        | inl grow ↦
            let m' : Loaded = record {
              page_data = some (used m.page_data ++ bs);
              alloc_length = ((m.data_length + length bs) / page_size + 1) * page_size;
              data_length = m.data_length + length bs;
              is_loaded = m.is_loaded;
            } in
            (
              m',
              rw grow refl,
              record {
                measured = omega (arith, s.measured, length-append (used m.page_data) bs);
                fits = room_for (m.data_length + length bs) page_size b;
              },
              refl,
            )
        | inr stay ↦
            let m' : Loaded = record {
              page_data = some (used m.page_data ++ bs);
              alloc_length = m.alloc_length;
              data_length = m.data_length + length bs;
              is_loaded = m.is_loaded;
            } in
            (
              m',
              rw stay refl,
              record {
                measured = omega (arith, s.measured, length-append (used m.page_data) bs);
                fits = enough (is_null m.page_data) stay;
              },
              refl,
            )
      ]
  where
    enough :
        (c : Bool)
        → (if c then true else ltb m.alloc_length (m.data_length + length bs)) ≡ false
        → m.data_length + length bs ≤ m.alloc_length
    enough true e = ground arith
    enough false e = ground arith

memcmp-equal : (a b : Bytes) → length a ≡ length b → is_eq (memcmp (length a) a b) ≡ true → a ≡ b
unfolding memcmp
memcmp-equal [] [] e f = refl
memcmp-equal [] (y ∷ b) e f = absurd (omega arith)
memcmp-equal (x ∷ a) [] e f = absurd (omega arith)
memcmp-equal (x ∷ a) (y ∷ b) e f = ground (arith, memcmp-equal a b)

memcmp_refl : (a : Bytes) → memcmp (length a) a a ≡ Ordering.eq
unfolding memcmp
memcmp_refl [] = refl
memcmp_refl (x ∷ a) = ground (arith, memcmp_refl a)

compare_runs :
    (m : Loaded) (bytes bs : Bytes)
    → IsSound m
    → m.is_loaded ≡ true
    → m.page_data ≡ some bytes
    → 0 < length bs
    → compare_data m (some bs)
      ≡ (if length bs == length bytes then is_eq (memcmp (length bytes) bytes bs) else false)
unfolding compare_data
compare_runs m bytes bs s loaded e b =
    let size : m.data_length ≡ length bytes =
      s.measured ∙ ap (λ (d : Option Bytes). length (used d)) e in
    rw (compare_data, ne→== (length bs) 0 (λ x. omega arith), loaded, e, size) refl

-- `Compare` of a sound loaded object that has data with bytes that are not empty is true exactly
-- for its own bytes.
pub compare_data-equal :
    (m : Loaded) (bytes bs : Bytes)
    → IsSound m
    → m.is_loaded ≡ true
    → m.page_data ≡ some bytes
    → 0 < length bs
    → (compare_data m (some bs) ≡ true) ↔ (bytes ≡ bs)
compare_data-equal m bytes bs s loaded e b = (
  λ f. elim (Bool-cases (length bs == length bytes)) [
    | inl same ↦
        let g : is_eq (memcmp (length bytes) bytes bs) ≡ true =
          rw (compare_runs m bytes bs s loaded e b, same) at f in
        memcmp-equal bytes bs (sym (==→eq (length bs) (length bytes) same)) g
    | inr other ↦
        let g : false ≡ true = rw (compare_runs m bytes bs s loaded e b, other) at f in ground arith
  ],
  λ f.
      compare_runs m bytes bs s loaded e b
      ∙ rw (sym f, ==_refl (length bytes), memcmp_refl bytes) refl,
)
