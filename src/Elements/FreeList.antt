-- ===== src/Elements/FreeList.antt =====
-- The shape of the free list, and `ReserveElement` and `PutBackElement` of lib/k2hshm.cc on it.
use k2hash.Base.{
  ℕ, ◌≡◌, ◌≢◌, refl, ap, ◌∙◌, false, Option, none, some, List, [], ◌∷◌, ◌==◌, if◌then◌else◌, arith,
  length, ne→==,
}
use k2hash.Elements.{Element, Store, put_element, set_parent}
use k2hash.Elements.Free.{FreeList, take_free, reserve_element, put_back_element}
use k2hash.Elements.Store.{put_same, put_other}

-- An element is none of these.
pub data Apart (e : ℕ) : List ℕ → Type 0 where
  apart_nil : Apart e []
  apart_cons : {p : ℕ} {ps : List ℕ} → p ≢ e → Apart e ps → Apart e (p ∷ ps)

-- From `p` on, `same` leads over the elements `ps`, each of them once, and `parent` leads back.
pub data Linked (h : Store) : (before p : ℕ) → List ℕ → Type 0 where
  linked_end : {before : ℕ} → Linked h before 0 []
  linked_more :
      {before p : ℕ} {ps : List ℕ}
      → p ≢ 0
      → Apart p ps
      → (h p).parent ≡ before
      → Linked h p (h p).same ps
      → Linked h before p (p ∷ ps)

-- The free list has the elements `ps`, and their number is its count.
pub record IsFree (h : Store) (free : FreeList) (ps : List ℕ) : Type 0 where
  pub linked : Linked h 0 free.pfree_elements ps
  pub counted : free.free_element_count ≡ length ps

pub Linked-put :
    (h : Store) (e : ℕ) (x : Element) (before p : ℕ) (ps : List ℕ)
    → Apart e ps
    → Linked h before p ps
    → Linked (put_element h e x) before p ps
Linked-put h e x before _ _ apart linked_end = linked_end
Linked-put h e x before p (_ ∷ ps) (apart_cons other apart) (linked_more some_p once f rest) =
    linked_more some_p once (rw (put_other h e p x other) f)
      (rw (put_other h e p x other) (Linked-put h e x p (h p).same ps apart rest))

-- The first element's way back is the one thing that changes with what stands before it.
Linked-before :
    (h : Store) (before v p : ℕ) (ps : List ℕ)
    → Linked h before p ps
    → Linked (if p == 0 then h else set_parent h p v) v p ps
Linked-before h before v _ _ linked_end = linked_end
Linked-before h before v p (_ ∷ ps) (linked_more some_p once f rest) =
    rw (ne→== p 0 (λ x. absurd (some_p x))) (
      linked_more some_p once (ap (λ (x : Element). x.parent) (put_same h p _)) (
        rw (ap (λ (x : Element). x.same) (put_same h p (record (h p) { parent = v })))
          (Linked-put h p _ p (h p).same ps once rest)))

Linked-push :
    (h : Store) (e p : ℕ) (x : Element) (ps : List ℕ)
    → e ≢ 0
    → Apart e ps
    → x.parent ≡ 0
    → x.same ≡ p
    → Linked h e p ps
    → Linked (put_element h e x) 0 e (e ∷ ps)
Linked-push h e p x ps some_e apart f g rest =
    linked_more some_e apart (ap (λ (y : Element). y.parent) (put_same h e x) ∙ f)
      (rw (ap (λ (y : Element). y.same) (put_same h e x) ∙ g) (Linked-put h e x e p ps apart rest))

Linked-nil : {h : Store} {before p : ℕ} → Linked h before p [] → p ≡ 0
Linked-nil linked_end = refl

Linked-head :
    {h : Store} {before p e : ℕ} {ps : List ℕ}
    → Linked h before p (e ∷ ps)
    → (p ≡ e) × (e ≢ 0) × Apart e ps × Linked h e (h e).same ps
Linked-head (linked_more some_p once f rest) = (refl, some_p, once, rest)

-- `PutBackElement` of an element that is not NULL and not on the free list puts it in front of the
-- list and counts it.
pub put_back_element-IsFree :
    (h : Store) (free : FreeList) (e : ℕ) (ps : List ℕ)
    → e ≢ 0
    → Apart e ps
    → IsFree h free ps
    → (let r = put_back_element h free e in IsFree r.0 r.1 (e ∷ ps))
unfolding put_back_element
put_back_element-IsFree h free e ps some_e apart f = record {
  linked =
      Linked-push _ e free.pfree_elements _ ps some_e apart refl refl
        (Linked-before h 0 e free.pfree_elements ps f.linked);
  counted = omega (arith, f.counted);
}

-- The element that `ReserveElement` gives: no link leads on from it.
pub record IsCleared (x : Element) : Type 0 where
  pub small_none : x.small ≡ 0
  pub big_none : x.big ≡ 0
  pub parent_none : x.parent ≡ 0
  pub same_none : x.same ≡ 0

-- What `ReserveElement` gives of a list that starts with `e`.
pub record Reserved (e : ℕ) (ps : List ℕ) (r : ℕ × Store × FreeList) : Type 0 where
  pub element : r.0 ≡ e
  pub cleared : IsCleared (r.1 e)
  pub is_free : IsFree r.1 r.2 ps

take_free-Reserved :
    (h : Store) (free : FreeList) (e : ℕ) (ps : List ℕ)
    → IsFree h free (e ∷ ps)
    → Reserved e ps (take_free h free)
unfolding take_free
take_free-Reserved h free e ps f =
    let (top, some_e, apart, rest) = Linked-head f.linked in
    record {
      element = top;
      cleared =
          rw (top, put_same (before (h e).same) e (cleared_element (before (h e).same) e))
            (record { small_none = refl; big_none = refl; parent_none = refl; same_none = refl });
      is_free = record {
        linked =
            rw top
              (Linked-put _ e _ 0 (h e).same ps apart (Linked-before h e 0 (h e).same ps rest));
        counted = ground (arith, f.counted);
      };
    }
  where
    before : ℕ → Store
    before next = if next == 0 then h else set_parent h next 0

    cleared_element : Store → ℕ → Element
    cleared_element h1 e = record (h1 e) { parent = 0; same = 0; small = 0; big = 0 }

-- `ReserveElement` with a free list that is not empty gives its first element with all links
-- cleared, and leaves the rest as the list with its count.
pub reserve_element-Reserved :
    (h : Store) (free : FreeList) (expand : Option (Store × FreeList)) (e : ℕ) (ps : List ℕ)
    → IsFree h free (e ∷ ps)
    → (r : ℕ × Store × FreeList) × (reserve_element h free expand ≡ some r) × Reserved e ps r
unfolding reserve_element
reserve_element-Reserved h free expand e ps f =
    let (top, some_e, _, _) = Linked-head f.linked in
    let not_null : (free.pfree_elements == 0) ≡ false =
      rw top (ne→== e 0 (λ x. absurd (some_e x))) in
    (take_free h free, rw not_null refl, take_free-Reserved h free e ps f)

-- With an empty free list, `ReserveElement` gives the first element of the list that
-- `ExpandElementArea` leaves, if that is not empty, and nothing when the expansion fails.
pub reserve_element-expand :
    (h h' : Store) (free free' : FreeList) (e : ℕ) (ps : List ℕ)
    → IsFree h free []
    → IsFree h' free' (e ∷ ps)
    → (reserve_element h free none ≡ none)
      × (r : ℕ × Store × FreeList) × (reserve_element h free (some (h', free')) ≡ some r)
      × Reserved e ps r
unfolding reserve_element
reserve_element-expand h h' free free' e ps f g =
    let top : free.pfree_elements ≡ 0 = Linked-nil f.linked in
    let (top', some_e, _, _) = Linked-head g.linked in
    let not_null : (free'.pfree_elements == 0) ≡ false =
      rw top' (ne→== e 0 (λ x. absurd (some_e x))) in
    (rw top refl, take_free h' free', rw (top, not_null) refl, take_free-Reserved h' free' e ps g)
