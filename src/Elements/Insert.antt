-- ===== src/Elements/Insert.antt =====
-- What `InsertElement` does to the tree.
use k2hash.Base.{
  ℕ, zero, suc, ◌≡◌, ◌≢◌, refl, sym, ap, ◌∙◌, Bool, true, false, Bool-cases, inl, inr, some, ◌==◌,
  ◌⊎◌, ltb, if◌then◌else◌, arith, ne→==, ==→eq, ◌≤◌,
}
use k2hash.Elements.{Element, Store, set_small, set_big, set_parent, insert_element}
use k2hash.Elements.Holds.{way, next, Finds, finds_none, finds_here, finds_down}
use k2hash.Elements.Store.{put_same, put_other, put_keeps}

-- An element that no link leads to and that leads nowhere, as `ReserveElement` gives it.
pub record IsFresh (h : Store) (e : ℕ) : Type 0 where
  pub some_element : e ≢ 0
  pub no_small : (p : ℕ) → (h p).small ≢ e
  pub no_big : (p : ℕ) → (h p).big ≢ e
  pub no_same : (p : ℕ) → (h p).same ≢ e
  pub small_none : (h e).small ≡ 0
  pub big_none : (h e).big ≡ 0
  pub same_none : (h e).same ≡ 0

-- The store after `e` was hung below `q`.
unfoldable pub attach : Store → ℕ → ℕ → ℕ → Store
attach h s q e = set_parent (if ltb (h q).subhash s then set_big h q e else set_small h q e) e q

attach-keeps :
    (f : Element → ℕ) (h : Store) (s q e p : ℕ)
    → ((x : Element) (v : ℕ) → f (record x { parent = v }) ≡ f x)
    → ((x : Element) (v : ℕ) → f (record x { big = v }) ≡ f x)
    → ((x : Element) (v : ℕ) → f (record x { small = v }) ≡ f x)
    → f (attach h s q e p) ≡ f (h p)
unfolding attach
attach-keeps f h s q e p on_parent on_big on_small =
    put_keeps f (hung (ltb (h q).subhash s)) e _ (on_parent _ q) p ∙ below (ltb (h q).subhash s)
  where
    hung : Bool → Store
    hung b = if b then set_big h q e else set_small h q e

    below : (b : Bool) → f ((if b then set_big h q e else set_small h q e) p) ≡ f (h p)
    below true = put_keeps f h q _ (on_big (h q) e) p
    below false = put_keeps f h q _ (on_small (h q) e) p

pub attach-way_other : (h : Store) (s q e t p : ℕ) → p ≢ q → way t (attach h s q e p) ≡ way t (h p)
unfolding attach way
attach-way_other h s q e t p other = put_keeps (way t) _ e _ refl p ∙ below (ltb (h q).subhash s)
  where
    below : (b : Bool) → way t ((if b then set_big h q e else set_small h q e) p) ≡ way t (h p)
    below true = ap (way t) (put_other h q p _ other)
    below false = ap (way t) (put_other h q p _ other)

attach-way_here :
    (h : Store) (s q e t : ℕ)
    → (h q).subhash ≢ s
    → way t (attach h s q e q) ≡ (
        if ltb t (h q).subhash
        then (if ltb (h q).subhash s then (h q).small else e)
        else (if ltb (h q).subhash s then e else (h q).big))
unfolding attach way
attach-way_here h s q e t differ = put_keeps (way t) _ e _ refl q ∙ below (ltb (h q).subhash s)
  where
    below :
        (b : Bool)
        → way t ((if b then set_big h q e else set_small h q e) q) ≡ (
            if ltb t (h q).subhash
            then (if b then (h q).small else e)
            else (if b then e else (h q).big))
    below true = ap (way t) (put_same h q _)
    below false = ap (way t) (put_same h q _)

attach-own : (h : Store) (s q e : ℕ) → (h q).subhash ≢ s → way s (attach h s q e q) ≡ e
attach-own h s q e differ = attach-way_here h s q e s differ ∙ ground arith

pub attach-others :
    (h : Store) (s q e t : ℕ)
    → (h q).subhash ≢ s
    → next h s q ≡ 0
    → (way t (attach h s q e q) ≡ next h t q) ⊎ ((next h t q ≡ 0) × (way t (attach h s q e q) ≡ e))
unfolding way
attach-others h s q e t differ empty = rw (attach-way_here h s q e t differ) (ground arith)

-- What holds after `e` of the second hash `s` was hung below an element of `top`.
pub record Hung (h : Store) (s e top : ℕ) (q : ℕ) : Type 0 where
  pub some_place : q ≢ 0
  pub differs : (h q).subhash ≢ s
  pub empty : next h s q ≡ 0
  pub own_depth : ℕ
  pub own : Finds (attach h s q e) s own_depth top e

sides :
    (x : Element) (s : ℕ) → x.subhash ≢ s → (if ltb x.subhash s then x.big else x.small) ≡ way s x
unfolding way
sides x s differ = ground arith

pub insert_below :
    (n : ℕ) (h : Store) (top e : ℕ)
    → top ≢ 0
    → e ≢ 0
    → (h top).subhash ≢ (h e).subhash
    → insert_element (suc n) h top e ≡ (
        if next h (h e).subhash top == 0
        then some (true, attach h (h e).subhash top e)
        else insert_element n h (next h (h e).subhash top) e)
unfolding insert_element attach way
insert_below n h top e some_top some_e differ =
    rw
      (
        ne→== top 0 (λ f. absurd (some_top f)),
        ne→== e 0 (λ f. absurd (some_e f)),
        ne→== (h top).subhash (h e).subhash (λ f. absurd (differ f)),
        sides (h top) (h e).subhash differ,
      )
      refl

pub attach-subhash : (h : Store) (s q e p : ℕ) → (attach h s q e p).subhash ≡ (h p).subhash
attach-subhash h s q e p =
    attach-keeps (λ x. x.subhash) h s q e p (λ x v. refl) (λ x v. refl) (λ x v. refl)

pub attach-same : (h : Store) (s q e p : ℕ) → (attach h s q e p).same ≡ (h p).same
attach-same h s q e p =
    attach-keeps (λ x. x.same) h s q e p (λ x v. refl) (λ x v. refl) (λ x v. refl)

Hung-here :
    (h : Store) (s top e : ℕ)
    → (h e).subhash ≡ s
    → top ≢ 0
    → e ≢ 0
    → (h top).subhash ≢ s
    → next h s top ≡ 0
    → Hung h s e top top
Hung-here h s top e f some_top some_e differ empty = record {
  some_place = some_top;
  differs = differ;
  empty = empty;
  own_depth = 1;
  own =
      finds_down some_top (λ g. differ (sym (attach-subhash h s top e top) ∙ g))
        (rw (attach-own h s top e differ) (finds_here some_e (attach-subhash h s top e e ∙ f)));
}

Hung-down :
    (h : Store) (s e top q : ℕ)
    → top ≢ 0
    → (h top).subhash ≢ s
    → next h s top ≢ 0
    → Hung h s e (next h s top) q
    → Hung h s e top q
Hung-down h s e top q some_top differ more hung = record {
  some_place = hung.some_place;
  differs = hung.differs;
  empty = hung.empty;
  own_depth = suc hung.own_depth;
  own =
      finds_down some_top (λ f. differ (sym (attach-subhash h s q e top) ∙ f))
        (rw (attach-way_other h s q e s top other) hung.own);
}
  where
    other : top ≢ q
    other f = more (ap (next h s) f ∙ hung.empty)

pub IsFresh-next : (h : Store) (e t p : ℕ) → IsFresh h e → e ≢ next h t p
unfolding way
IsFresh-next h e t p fresh f = elim (Bool-cases (ltb t (h p).subhash)) [
  | inl small ↦ fresh.no_small p (sym (rw small at f))
  | inr big ↦ fresh.no_big p (sym (rw big at f))
]

-- With no element of its second hash, a new element is hung below some element.
pub insert_element-Hung :
    (h : Store) (e n depth top : ℕ)
    → e ≢ 0
    → Finds h (h e).subhash depth top 0
    → top ≢ 0
    → depth ≤ n
    → (q : ℕ) × (insert_element n h top e ≡ some (true, attach h (h e).subhash q e))
      × Hung h (h e).subhash e top q
insert_element-Hung h e n _ _ some_e finds_none some_top b = absurd (some_top refl)
insert_element-Hung h e n _ _ some_e (finds_here f g) some_top b = absurd (f refl)
insert_element-Hung h e zero (suc depth) top some_e (finds_down f g rest) some_top b =
    absurd (omega arith)
insert_element-Hung h e (suc n) (suc depth) top some_e (finds_down f g rest) some_top b =
    elim (Bool-cases (next h (h e).subhash top == 0)) [
      | inl last ↦
          let empty : next h (h e).subhash top ≡ 0 = ==→eq (next h (h e).subhash top) 0 last in
          (
            top,
            insert_below n h top e some_top some_e g ∙ rw last refl,
            Hung-here h (h e).subhash top e refl some_top some_e g empty,
          )
      | inr more ↦
          let more' : next h (h e).subhash top ≢ 0 = λ e. ground arith in
          let (q, run, hung) =
            insert_element-Hung h e n depth (next h (h e).subhash top) some_e rest more'
              (omega arith) in
          (
            q,
            insert_below n h top e some_top some_e g ∙ rw more run,
            Hung-down h (h e).subhash e top q some_top g more' hung,
          )
    ]
