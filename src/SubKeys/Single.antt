-- ===== src/SubKeys/Single.antt =====
-- Sets of no subkey and of one.
use k2hash.Base.{
  suc, ◌≡◌, ◌≢◌, ◌∙◌, is_eq, refl, ap, true, false, some, [], ◌∷◌, Bool-cases, inl, inr, ◌==◌,
  length, ℕ, arith,
}
use k2hash.Bytes.{Bytes}
use k2hash.Bytes.Order.{lex, eq_of_lex}
use k2hash.Search.Sorted.{put, remove}
use k2hash.Search.Vector.{store-put}
use k2hash.SubKeys.Map.{erase_runs}
use k2hash.Util.Names.{is_eq→eq}
use k2hash.SubKeys.{SubKeys, key, find, erase, erase_iterator, insert}

pub erase-nil : (k : Bytes) → (erase [] (some k)).1 ≡ []
unfolding erase erase_iterator
erase-nil k = elim (Bool-cases (find [] (some k) == 0)) [
  | inl e ↦ rw (erase, e) refl
  | inr e ↦ rw (erase, e) refl
]

pub insert-nil : (b : ℕ) (bs : Bytes) → (insert (λ _. true) [] (some (b ∷ bs))).0 ≡ (b ∷ bs) ∷ []
unfolding insert put
insert-nil b bs =
    let filled : (suc (length bs) == 0) ≡ false = ground arith in
    rw (insert, filled) (ap (λ (p : SubKeys × ℕ). p.0) (store-put key (b ∷ bs) [] tt))

pub erase-other :
    (k : Bytes) (c : ℕ) (cs : Bytes) → k ≢ c ∷ cs → (erase (k ∷ []) (some (c ∷ cs))).1 ≡ k ∷ []
unfolding remove
erase-other k c cs n =
    let differ : is_eq (lex k (c ∷ cs)) ≡ false = elim (Bool-cases (is_eq (lex k (c ∷ cs)))) [
      | inl e ↦ absurd (n (eq_of_lex k (c ∷ cs) (is_eq→eq (lex k (c ∷ cs)) e)))
      | inr e ↦ e
    ] in
    (erase_runs (k ∷ []) (c ∷ cs) (tt, tt) (omega arith)).0 ∙ rw (remove, differ) refl
