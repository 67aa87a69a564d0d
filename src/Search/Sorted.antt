-- ===== src/Search/Sorted.antt =====
-- Vectors that are strictly sorted by key, as finite maps: the abstract view of both classes.
use k2hash.Base.{
  suc, ◌≡◌, refl, Ordering, Option, none, some, List, [], ◌∷◌, arith, is_eq, if◌then◌else◌, length,
}
use k2hash.Bytes.{Bytes}
use k2hash.Bytes.Order.{lex, lex_refl, lex-flip, eq_of_lex, lex_trans}

module _ {A : Type 0} (key : A → Bytes) where
  -- Every element of the list has a larger key.
  abbrev pub Above : Bytes → List A → Type 0
  Above k [] = Unit {0}
  Above k (x ∷ xs) = (lex k (key x) ≡ Ordering.lt) × Above k xs

  abbrev pub IsSorted : List A → Type 0
  IsSorted [] = Unit {0}
  IsSorted (x ∷ xs) = Above (key x) xs × IsSorted xs

  -- The map that a vector stands for.
  unfoldable pub lookup : Bytes → List A → Option A
  lookup k [] = none
  lookup k (x ∷ xs) = if is_eq (lex (key x) k) then some x else lookup k xs

  -- Ordered insertion, an equal key replaced.
  unfoldable pub put : A → List A → List A
  put a [] = a ∷ []
  put a (x ∷ xs) = elim (lex (key x) (key a)) [
    | Ordering.lt ↦ x ∷ put a xs
    | Ordering.eq ↦ a ∷ xs
    | Ordering.gt ↦ a ∷ x ∷ xs
  ]

  unfoldable pub remove : Bytes → List A → List A
  remove k [] = []
  remove k (x ∷ xs) = if is_eq (lex (key x) k) then xs else x ∷ remove k xs

  pub Above-trans : (j k : Bytes) (xs : List A) → lex j k ≡ Ordering.lt → Above k xs → Above j xs
  Above-trans j k [] h v = tt
  Above-trans j k (x ∷ xs) h v = (lex_trans j k (key x) h v.0, Above-trans j k xs h v.1)

  Above-put :
      (k : Bytes) (a : A) (xs : List A)
      → lex k (key a) ≡ Ordering.lt
      → Above k xs
      → Above k (put a xs)
  unfolding put
  Above-put k a [] h v = (h, tt)
  Above-put k a (x ∷ xs) h v = ground (arith, Above-put k a xs)

  pub put-IsSorted : (a : A) (xs : List A) → IsSorted xs → IsSorted (put a xs)
  unfolding put
  put-IsSorted a [] s = (tt, tt)
  put-IsSorted a (x ∷ xs) s = ground (
    arith,
    put-IsSorted a xs,
    Above-put (key x) a xs,
    eq_of_lex (key x) (key a),
    lex-flip (key x) (key a),
    Above-trans (key a) (key x) xs,
  )

  pub lookup-Above : (k : Bytes) (xs : List A) → Above k xs → lookup k xs ≡ none
  unfolding lookup
  lookup-Above k [] v = refl
  lookup-Above k (x ∷ xs) v = ground (arith, lookup-Above k xs, lex-flip k (key x))

  pub remove-Above : (k : Bytes) (xs : List A) → Above k xs → remove k xs ≡ xs
  unfolding remove
  remove-Above k [] v = refl
  remove-Above k (x ∷ xs) v = ground (arith, remove-Above k xs, lex-flip k (key x))

  Above-remove : (j k : Bytes) (xs : List A) → Above j xs → Above j (remove k xs)
  unfolding remove
  Above-remove j k [] v = tt
  Above-remove j k (x ∷ xs) v = ground (arith, Above-remove j k xs)

  pub remove-IsSorted : (k : Bytes) (xs : List A) → IsSorted xs → IsSorted (remove k xs)
  unfolding remove
  remove-IsSorted k [] s = tt
  remove-IsSorted k (x ∷ xs) s = ground (arith, remove-IsSorted k xs, Above-remove (key x) k xs)

  -- One element more for a new key, as many for a known one.
  pub length-put :
      (a : A) (xs : List A)
      → IsSorted xs
      → length (put a xs)
        ≡ (elim (lookup (key a) xs) [ none ↦ suc (length xs) | some _ ↦ length xs ])
  unfolding put lookup
  length-put a [] s = refl
  length-put a (x ∷ xs) s = ground (
    arith,
    length-put a xs,
    lex-flip (key x) (key a),
    Above-trans (key a) (key x) xs,
    lookup-Above (key a) xs,
  )

  pub lookup-put :
      (k : Bytes) (a : A) (xs : List A)
      → IsSorted xs
      → lookup k (put a xs) ≡ (if is_eq (lex (key a) k) then some a else lookup k xs)
  unfolding lookup put
  lookup-put k a [] s = refl
  lookup-put k a (x ∷ xs) s = ground (
    arith,
    lookup-put k a xs,
    eq_of_lex (key x) (key a),
    eq_of_lex (key x) k,
    eq_of_lex (key a) k,
    lex_refl k,
  )

  pub lookup-remove :
      (k j : Bytes) (xs : List A)
      → IsSorted xs
      → lookup k (remove j xs) ≡ (if is_eq (lex j k) then none else lookup k xs)
  unfolding lookup remove
  lookup-remove k j [] s = ground arith
  lookup-remove k j (x ∷ xs) s = ground (
    arith,
    lookup-remove k j xs,
    eq_of_lex (key x) j,
    eq_of_lex (key x) k,
    eq_of_lex j k,
    lex_refl k,
    lookup-Above (key x) xs,
  )

  -- What the map holds under a key has that key.
  pub key-lookup : (k : Bytes) (xs : List A) (a : A) → lookup k xs ≡ some a → key a ≡ k
  unfolding lookup
  key-lookup k [] a h = ground arith
  key-lookup k (x ∷ xs) a h = ground (arith, key-lookup k xs a, eq_of_lex (key x) k)
