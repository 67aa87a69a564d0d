-- ===== src/Elements/Behind.antt =====
-- The ways and lists of a tree after an element was put behind the last of its second hash.
use k2hash.Base.{
  ℕ, zero, suc, ◌≡◌, ◌≢◌, refl, sym, ap, ◌∙◌, true, false, Bool-cases, inl, inr, some, List, [],
  ◌∷◌, ◌++◌, ◌==◌, if◌then◌else◌, arith, length, ==_refl, ne→==, ==→eq, ◌≤◌,
}
use k2hash.Elements.{Element, Store, set_parent, set_same, last_same, insert_element}
use k2hash.Elements.Holds.{
  way, next, Finds, finds_none, finds_here, finds_down, Chain, chain_end, chain_more,
}
use k2hash.Elements.Insert.{IsFresh}
use k2hash.Elements.Store.{put_same, put_other, put_keeps}

-- The store after `e` was put behind `last` in the list of its second hash.
unfoldable pub behind : Store → ℕ → ℕ → Store
behind h last e = set_parent (set_same h last e) e last

behind-keeps :
    (f : Element → ℕ) (h : Store) (last e p : ℕ)
    → ((x : Element) (v : ℕ) → f (record x { parent = v }) ≡ f x)
    → ((x : Element) (v : ℕ) → f (record x { same = v }) ≡ f x)
    → f (behind h last e p) ≡ f (h p)
unfolding behind
behind-keeps f h last e p on_parent on_same =
    put_keeps f (set_same h last e) e _ (on_parent _ last) p
    ∙ put_keeps f h last _ (on_same (h last) e) p

behind-subhash : (h : Store) (last e p : ℕ) → (behind h last e p).subhash ≡ (h p).subhash
behind-subhash h last e p = behind-keeps (λ x. x.subhash) h last e p (λ x v. refl) (λ x v. refl)

behind-next : (h : Store) (last e t p : ℕ) → next (behind h last e) t p ≡ next h t p
unfolding way
behind-next h last e t p = behind-keeps (way t) h last e p (λ x v. refl) (λ x v. refl)

behind-same_other : (h : Store) (last e p : ℕ) → p ≢ last → (behind h last e p).same ≡ (h p).same
unfolding behind
behind-same_other h last e p other =
    put_keeps (λ x. x.same) (set_same h last e) e _ refl p
    ∙ ap (λ (x : Element). x.same) (put_other h last p _ other)

behind-same_here : (h : Store) (last e : ℕ) → (behind h last e last).same ≡ e
unfolding behind
behind-same_here h last e =
    put_keeps (λ x. x.same) (set_same h last e) e _ refl last
    ∙ ap (λ (x : Element). x.same) (put_same h last _)

pub behind-Finds :
    (h : Store) (last e t depth p r : ℕ) → Finds h t depth p r → Finds (behind h last e) t depth p r
behind-Finds h last e t _ _ _ finds_none = finds_none
behind-Finds h last e t _ p _ (finds_here some_p f) =
    finds_here some_p (behind-subhash h last e p ∙ f)
behind-Finds h last e t (suc depth) p r (finds_down some_p f rest) =
    finds_down some_p (λ g. f (sym (behind-subhash h last e p) ∙ g))
      (rw (behind-next h last e t p) (behind-Finds h last e t depth (next h t p) r rest))

-- The list of another second hash is as it was.
pub behind-Chain_other :
    (h : Store) (last e t p : ℕ) (ps : List ℕ)
    → (h last).subhash ≢ t
    → Chain h t p ps
    → Chain (behind h last e) t p ps
behind-Chain_other h last e t _ _ other chain_end = chain_end
behind-Chain_other h last e t p (_ ∷ ps) other (chain_more some_p f rest) =
    chain_more some_p (behind-subhash h last e p ∙ f) (
      rw (behind-same_other h last e p (λ g. other (ap (λ (x : ℕ). (h x).subhash) (sym g) ∙ f)))
        (behind-Chain_other h last e t (h p).same ps other rest))

-- The last element of a list, and the list with one more behind it.
pub record Longer (h : Store) (t e p last : ℕ) (ps : List ℕ) : Type 0 where
  pub some_last : last ≢ 0
  pub apart : last ≢ e
  pub ends : (h last).same ≡ 0
  pub hash : (h last).subhash ≡ t
  pub longer : Chain (behind h last e) t p (ps ++ (e ∷ []))

pub Chain-at_none : {h : Store} {t x : ℕ} {ps : List ℕ} → Chain h t x ps → x ≡ 0 → ps ≡ []
Chain-at_none chain_end f = refl
Chain-at_none (chain_more some_p g rest) f = absurd (some_p f)

last_same-step :
    (n : ℕ) (h : Store) (p : ℕ)
    → last_same (suc n) h p ≡ (if (h p).same == 0 then some p else last_same n h (h p).same)
unfolding last_same
last_same-step n h p = refl

Longer-here :
    (h : Store) (t e p : ℕ)
    → IsFresh h e
    → (h e).subhash ≡ t
    → p ≢ e
    → p ≢ 0
    → (h p).subhash ≡ t
    → (h p).same ≡ 0
    → Longer h t e p p (p ∷ [])
Longer-here h t e p fresh f apart some_p g nothing = record {
  some_last = some_p;
  apart = apart;
  ends = nothing;
  hash = g;
  longer = chain_more some_p (behind-subhash h p e p ∙ g) (
      rw (behind-same_here h p e) (
        chain_more fresh.some_element (behind-subhash h p e e ∙ f)
          (rw (behind-same_other h p e e (λ x. apart (sym x)) ∙ fresh.same_none) chain_end)));
}

Longer-more :
    (h : Store) (t e p last : ℕ) (ps : List ℕ)
    → p ≢ 0
    → (h p).subhash ≡ t
    → (h p).same ≢ 0
    → Longer h t e (h p).same last ps
    → Longer h t e p last (p ∷ ps)
Longer-more h t e p last ps some_p g more l = record {
  some_last = l.some_last;
  apart = l.apart;
  ends = l.ends;
  hash = l.hash;
  longer = chain_more some_p (behind-subhash h last e p ∙ g) (
      rw (behind-same_other h last e p (λ x. more (ap (λ (y : ℕ). (h y).same) x ∙ l.ends)))
        l.longer);
}

-- The loop of `InsertElement` ends at the last element of the list.
pub last_same-Longer :
    (h : Store) (t e : ℕ)
    → IsFresh h e
    → (h e).subhash ≡ t
    → (ps : List ℕ) (n p : ℕ) → Chain h t p ps
    → p ≢ 0
    → p ≢ e
    → length ps ≤ n
    → (last : ℕ) × (last_same n h p ≡ some last) × Longer h t e p last ps
last_same-Longer h t e fresh f _ n _ chain_end some_p apart b = absurd (some_p refl)
last_same-Longer h t e fresh f (_ ∷ ps) zero p (chain_more q g rest) some_p apart b =
    absurd (omega arith)
last_same-Longer h t e fresh f (_ ∷ ps) (suc n) p (chain_more q g rest) some_p apart b =
    elim (Bool-cases ((h p).same == 0)) [
      | inl last ↦
          let nothing : (h p).same ≡ 0 = ==→eq (h p).same 0 last in
          (
            p,
            last_same-step n h p ∙ rw last refl,
            rw (Chain-at_none rest nothing) (Longer-here h t e p fresh f apart some_p g nothing),
          )
      | inr more ↦
          let more' : (h p).same ≢ 0 = λ x. ground arith in
          let (last, run, l) =
            last_same-Longer h t e fresh f ps n (h p).same rest more' (fresh.no_same p)
              (omega arith) in
          (last, last_same-step n h p ∙ rw more run, Longer-more h t e p last ps some_p g more' l)
    ]

pub insert_here :
    (n : ℕ) (h : Store) (top e last : ℕ)
    → top ≢ 0
    → e ≢ 0
    → (h top).subhash ≡ (h e).subhash
    → last_same (suc n) h top ≡ some last
    → insert_element (suc n) h top e ≡ some (true, behind h last e)
unfolding insert_element behind
insert_here n h top e last some_top some_e f run =
    let t : (top == 0) ≡ false = ne→== top 0 (λ x. absurd (some_top x)) in
    let u : (e == 0) ≡ false = ne→== e 0 (λ x. absurd (some_e x)) in
    let v : ((h top).subhash == (h e).subhash) ≡ true = rw f (==_refl (h e).subhash) in
    rw (insert_element, t, u, v, run) refl
