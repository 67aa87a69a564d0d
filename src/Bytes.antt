-- ===== src/Bytes.antt =====
-- Byte strings, the comparison of keys (lib/k2hsubkeys.h `subkey::compare`, the same code in
-- lib/k2hattrs.h `k2h_attr::compare`), and `size_t` values in memory.
pub mod Order
pub mod Word
use k2hash.Base.{
  ℕ, zero, suc, ◌+◌, ◌*◌, ◌/◌, ◌%◌, ◌^◌, min, compare, Ordering, Option, none, some, List, [], ◌∷◌,
  ltb, if◌then◌else◌, length,
}

abbrev pub Bytes : Type 0
Bytes = List ℕ

-- The sign of `memcmp(a, b, n)`.
unfoldable pub memcmp : ℕ → Bytes → Bytes → Ordering
memcmp zero a b = Ordering.eq
memcmp (suc n) (x ∷ a) (y ∷ b) = elim (compare x y) [
  | Ordering.eq ↦ memcmp n a b
  | Ordering.lt ↦ Ordering.lt
  | Ordering.gt ↦ Ordering.gt
]
memcmp (suc n) _ _ = Ordering.eq

-- The case of `subkey::compare` in which neither pointer is NULL.
unfoldable pub compare_bytes : Bytes → Bytes → Ordering
unfolding memcmp
compare_bytes a b = elim (memcmp (min (length a) (length b)) a b) [
  | Ordering.eq ↦
      if ltb (length a) (length b)
      then Ordering.lt
      else if ltb (length b) (length a)
      then Ordering.gt
      else Ordering.eq
  | Ordering.lt ↦ Ordering.lt
  | Ordering.gt ↦ Ordering.gt
]

-- `subkey::compare`, where `none` is the NULL pointer.
pub compare_key : Option Bytes → Option Bytes → Ordering
unfolding compare_bytes
compare_key none none = Ordering.eq
compare_key none (some b) = Ordering.lt
compare_key (some a) none = Ordering.gt
compare_key (some a) (some b) = compare_bytes a b

-- The `n` low bytes of a word, the lowest first: an unsigned value as it stands in memory.
unfoldable pub encode : ℕ → ℕ → Bytes
encode zero w = []
encode (suc n) w = w % 256 ∷ encode n (w / 256)

unfoldable pub decode : ℕ → Bytes → Option ℕ
decode zero b = some 0
decode (suc n) [] = none
decode (suc n) (x ∷ b) = elim (decode n b) [ none ↦ none | some w ↦ some (x + 256 * w) ]

-- Writing and reading `*(size_t*)p`; a read past the end of the memory at hand is `none`.
abbrev pub put_size : ℕ → Bytes
put_size = encode 8

abbrev pub get_size : Bytes → Option ℕ
get_size = decode 8

-- Copying `n` bytes out of the memory at hand, `none` past its end.
unfoldable pub read_bytes : ℕ → Bytes → Option Bytes
read_bytes zero b = some []
read_bytes (suc n) [] = none
read_bytes (suc n) (x ∷ b) = elim (read_bytes n b) [ none ↦ none | some c ↦ some (x ∷ c) ]
