-- ===== src/Search/Append.antt =====
-- Storing an element above all others.
use k2hash.Base.{◌≡◌, refl, Ordering, List, [], ◌∷◌, ◌++◌, arith}
use k2hash.Bytes.{Bytes}
use k2hash.Bytes.Order.{lex}
use k2hash.Search.Sorted.{Above, IsSorted, put}
use k2hash.Search.{store}
use k2hash.Search.Vector.{store-put}

module _ {A : Type 0} (key : A → Bytes) where
  Above-append_left : (k : Bytes) (xs ys : List A) → Above key k (xs ++ ys) → Above key k xs
  Above-append_left k [] ys v = tt
  Above-append_left k (x ∷ xs) ys v = (v.0, Above-append_left k xs ys v.1)

  Above-append_right :
      (k : Bytes) (xs : List A) (a : A) (ys : List A)
      → Above key k (xs ++ a ∷ ys)
      → lex k (key a) ≡ Ordering.lt
  Above-append_right k [] a ys v = v.0
  Above-append_right k (x ∷ xs) a ys v = Above-append_right k xs a ys v.1

  pub IsSorted-append_left : (xs ys : List A) → IsSorted key (xs ++ ys) → IsSorted key xs
  IsSorted-append_left [] ys s = tt
  IsSorted-append_left (x ∷ xs) ys s =
      (Above-append_left (key x) xs ys s.0, IsSorted-append_left xs ys s.1)

  put_last :
      (xs : List A) (a : A) (ys : List A)
      → IsSorted key (xs ++ a ∷ ys)
      → put key a xs ≡ xs ++ a ∷ []
  unfolding put
  put_last [] a ys s = refl
  put_last (x ∷ xs) a ys s =
      ground (arith, put_last xs a ys s.1, Above-append_right (key x) xs a ys s.0)

  pub store_last :
      (xs : List A) (a : A) (ys : List A)
      → IsSorted key (xs ++ a ∷ ys)
      → (store key a xs).0 ≡ xs ++ a ∷ []
  store_last xs a ys s =
      rw (store-put key a xs (IsSorted-append_left xs (a ∷ ys) s)) (put_last xs a ys s)
