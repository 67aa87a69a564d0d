-- ===== src/Bytes/Order.antt =====
-- The comparison of keys against the lexicographic order of byte strings.
use k2hash.Base.{suc, min, ◌≡◌, refl, compare, Ordering, [], ◌∷◌, arith, length}
use k2hash.Bytes.{Bytes, compare_bytes}

-- Lexicographic order, a proper prefix first.
unfoldable pub lex : Bytes → Bytes → Ordering
lex [] [] = Ordering.eq
lex [] (y ∷ b) = Ordering.lt
lex (x ∷ a) [] = Ordering.gt
lex (x ∷ a) (y ∷ b) = elim (compare x y) [
  | Ordering.eq ↦ lex a b
  | Ordering.lt ↦ Ordering.lt
  | Ordering.gt ↦ Ordering.gt
]

abbrev pub flip_ordering : Ordering → Ordering
flip_ordering Ordering.lt = Ordering.gt
flip_ordering Ordering.eq = Ordering.eq
flip_ordering Ordering.gt = Ordering.lt

pub compare_bytes-lex : (a b : Bytes) → compare_bytes a b ≡ lex a b
unfolding compare_bytes lex
compare_bytes-lex [] [] = refl
compare_bytes-lex [] (y ∷ b) = ground arith
compare_bytes-lex (x ∷ a) [] = ground arith
compare_bytes-lex (x ∷ a) (y ∷ b) =
    let e : min (suc (length a)) (suc (length b)) ≡ suc (min (length a) (length b)) = omega arith in
    rw (e, compare_bytes) (ground (arith, compare_bytes-lex a b))

pub lex_refl : (a : Bytes) → lex a a ≡ Ordering.eq
unfolding lex
lex_refl [] = refl
lex_refl (x ∷ a) = ground (arith, lex_refl a)

pub lex-flip : (a b : Bytes) → lex b a ≡ flip_ordering (lex a b)
unfolding lex
lex-flip [] [] = refl
lex-flip [] (y ∷ b) = refl
lex-flip (x ∷ a) [] = refl
lex-flip (x ∷ a) (y ∷ b) = ground (arith, lex-flip a b)

pub eq_of_lex : (a b : Bytes) → lex a b ≡ Ordering.eq → a ≡ b
unfolding lex
eq_of_lex [] [] h = refl
eq_of_lex [] (y ∷ b) h = ground arith
eq_of_lex (x ∷ a) [] h = ground arith
eq_of_lex (x ∷ a) (y ∷ b) h = ground (arith, eq_of_lex a b)

pub lex_trans :
    (a b c : Bytes) → lex a b ≡ Ordering.lt → lex b c ≡ Ordering.lt → lex a c ≡ Ordering.lt
unfolding lex
lex_trans [] [] c h k = ground arith
lex_trans [] (y ∷ b) [] h k = ground arith
lex_trans [] (y ∷ b) (z ∷ c) h k = refl
lex_trans (x ∷ a) [] c h k = ground arith
lex_trans (x ∷ a) (y ∷ b) [] h k = ground arith
lex_trans (x ∷ a) (y ∷ b) (z ∷ c) h k = ground (arith, lex_trans a b c)
