-- ===== src/Elements/Holds.antt =====
-- What a tree of elements holds: for each second hash, the list of its elements, oldest first.
use k2hash.Base.{
  ℕ, zero, suc, ◌≡◌, ◌≢◌, refl, sym, ◌∙◌, Bool, true, false, Bool-cases, inl, inr, some, List, [],
  ◌∷◌, ◌==◌, ltb, if◌then◌else◌, arith, length, ==_refl, ne→==, ◌<◌,
}
use k2hash.Elements.{Element, Store, get_element_list, get_element}

unfoldable pub way : ℕ → Element → ℕ
way t p = if ltb t p.subhash then p.small else p.big

-- The way down from an element for a second hash.
abbrev pub next : Store → ℕ → ℕ → ℕ
next h t p = way t (h p)

-- The way down for `t` from `p` ends at `r` after `depth` steps: at NULL, or at an element of `t`.
pub data Finds (h : Store) (t : ℕ) : (depth p r : ℕ) → Type 0 where
  finds_none : Finds h t 0 0 0
  finds_here : {p : ℕ} → p ≢ 0 → (h p).subhash ≡ t → Finds h t 0 p p
  finds_down :
      {n p r : ℕ} → p ≢ 0 → (h p).subhash ≢ t → Finds h t n (next h t p) r → Finds h t (suc n) p r

-- The elements from `p` on over `same`, all of the second hash `t`.
pub data Chain (h : Store) (t : ℕ) : ℕ → List ℕ → Type 0 where
  chain_end : Chain h t 0 []
  chain_more :
      {p : ℕ} {ps : List ℕ}
      → p ≢ 0
      → (h p).subhash ≡ t
      → Chain h t (h p).same ps
      → Chain h t p (p ∷ ps)

-- Under `top`, the second hash `t` has the elements `ps`, the first of them `head`.
pub record Holds (h : Store) (top t : ℕ) (ps : List ℕ) : Type 0 where
  pub depth : ℕ
  pub head : ℕ
  pub finds : Finds h t depth top head
  pub chain : Chain h t head ps

list_here :
    (n : ℕ) (h : Store) (p hash t : ℕ)
    → p ≢ 0
    → (h p).subhash ≡ t
    → get_element_list (suc n) h p hash t ≡ some (if hash == (h p).hash then p else 0)
unfolding get_element_list
list_here n h p hash t some_p e =
    rw (ne→== p 0 (λ f. absurd (some_p f)), e, ==_refl t) (split (hash == (h p).hash))
  where
    split : (b : Bool) → (if b then some p else some 0) ≡ some (if b then p else 0)
    split true = refl
    split false = refl

list_down :
    (n : ℕ) (h : Store) (p hash t : ℕ)
    → p ≢ 0
    → (h p).subhash ≢ t
    → get_element_list (suc n) h p hash t ≡ get_element_list n h (next h t p) hash t
unfolding get_element_list way
list_down n h p hash t some_p e =
    rw (ne→== p 0 (λ f. absurd (some_p f)), ne→== t (h p).subhash (λ f. absurd (e (sym f)))) refl

-- `GetElementList` gives the first element of the second hash, if its main hash is the one asked for.
pub get_element_list-Finds :
    (n : ℕ) (h : Store) (p hash t depth r : ℕ)
    → Finds h t depth p r
    → depth < n
    → get_element_list n h p hash t
      ≡ some (if r == 0 then 0 else if hash == (h r).hash then r else 0)
unfolding get_element_list
get_element_list-Finds zero h p hash t depth r f b = absurd (omega arith)
get_element_list-Finds (suc n) h _ hash t _ _ finds_none b = refl
get_element_list-Finds (suc n) h p hash t _ _ (finds_here some_p e) b =
    let not_null : (p == 0) ≡ false = ne→== p 0 (λ f. absurd (some_p f)) in
    list_here n h p hash t some_p e ∙ rw not_null refl
get_element_list-Finds (suc n) h p hash t (suc depth) r (finds_down some_p e f) b =
    list_down n h p hash t some_p e
    ∙ get_element_list-Finds n h (next h t p) hash t depth r f (omega arith)

-- The first element that a test accepts; 0 if there is none.
unfoldable pub first : (ℕ → Bool) → List ℕ → ℕ
first compare [] = 0
first compare (p ∷ ps) = if compare p then p else first compare ps

-- `GetElement` gives the first element of the list whose key is the one asked for.
pub get_element-first :
    (n : ℕ) (compare : ℕ → Bool) (h : Store) (t p : ℕ) (ps : List ℕ)
    → Chain h t p ps
    → length ps < n
    → get_element n compare h p ≡ some (first compare ps)
unfolding get_element first
get_element-first zero compare h t p ps c b = absurd (omega arith)
get_element-first (suc n) compare h t _ _ chain_end b = refl
get_element-first (suc n) compare h t p (_ ∷ ps) (chain_more some_p e c) b =
    elim (Bool-cases (compare p)) [
      | inl it ↦ rw (ne→== p 0 (λ f. absurd (some_p f)), it) refl
      | inr other ↦
          rw (ne→== p 0 (λ f. absurd (some_p f)), other)
            (get_element-first n compare h t (h p).same ps c (omega arith))
    ]
