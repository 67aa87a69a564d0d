-- ===== src/Util/Names.antt =====
-- The test of two byte strings for equality decides it.
use k2hash.Base.{
  ◌≡◌, ◌≢◌, refl, ap, true, false, Ordering, is_eq, Bool-cases, inl, inr, ◌⊎◌, List, [], ◌∷◌, arith,
}
use k2hash.Bytes.{Bytes}
use k2hash.Bytes.Order.{compare_bytes-lex, lex_refl, eq_of_lex}
use k2hash.Util.{bincmp, is_same}

pub is_eq→eq : (o : Ordering) → is_eq o ≡ true → o ≡ Ordering.eq
is_eq→eq Ordering.eq h = refl
is_eq→eq Ordering.lt h = ground arith
is_eq→eq Ordering.gt h = ground arith

pub is_same_refl : (a : Bytes) → is_same a a ≡ true
unfolding is_same bincmp
is_same_refl [] = refl
is_same_refl (x ∷ a) = rw (compare_bytes-lex (x ∷ a) (x ∷ a), lex_refl (x ∷ a)) refl

pub is_same→eq : (a b : Bytes) → is_same a b ≡ true → a ≡ b
unfolding is_same bincmp
is_same→eq [] [] h = refl
is_same→eq [] (y ∷ b) h = ground arith
is_same→eq (x ∷ a) [] h = ground arith
is_same→eq (x ∷ a) (y ∷ b) h =
    eq_of_lex (x ∷ a) (y ∷ b) (rw (← compare_bytes-lex (x ∷ a) (y ∷ b)) (is_eq→eq _ h))

pub ne→is_same : (a b : Bytes) → a ≢ b → is_same a b ≡ false
ne→is_same a b h = elim (Bool-cases (is_same a b)) [
  | inl e ↦ absurd (h (is_same→eq a b e))
  | inr e ↦ e
]

pub Bytes-cases : (a b : Bytes) → (a ≡ b) ⊎ (a ≢ b)
Bytes-cases a b = elim (Bool-cases (is_same a b)) [
  | inl e ↦ inl (is_same→eq a b e)
  | inr e ↦ inr (λ f. ground (arith, e, ap (is_same a) f, is_same_refl a))
]

-- `k` is none of the keys `ks`.
abbrev pub Apart : Bytes → List Bytes → Type 0
Apart k [] = Unit
Apart k (x ∷ ks) = (k ≢ x) × Apart k ks
