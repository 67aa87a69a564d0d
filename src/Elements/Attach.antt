-- ===== src/Elements/Attach.antt =====
-- The ways and lists of a tree after an element was hung below another one.
use k2hash.Base.{
  ℕ, suc, ◌≡◌, ◌≢◌, refl, sym, ap, ◌∙◌, Bool-cases, inl, inr, List, ◌∷◌, ◌==◌, arith, ==_refl,
  ==→eq,
}
use k2hash.Elements.{Store}
use k2hash.Elements.Holds.{
  next, Finds, finds_none, finds_here, finds_down, Chain, chain_end, chain_more,
}
use k2hash.Elements.Insert.{attach, attach-subhash, attach-same, attach-way_other, attach-others}

-- From NULL the way ends at once.
pub Finds-at_none : {h : Store} {t n x r : ℕ} → Finds h t n x r → x ≡ 0 → r ≡ 0
Finds-at_none finds_none y = refl
Finds-at_none (finds_here z w) y = absurd (z y)
Finds-at_none (finds_down z w v) y = absurd (z y)

-- Hanging an element below `q` leaves the way of every other second hash, one step longer at most.
pub attach-Finds :
    (h : Store) (s q e t depth p r : ℕ)
    → e ≢ 0
    → (h e).subhash ≡ s
    → (h q).subhash ≢ s
    → next h s q ≡ 0
    → e ≢ q
    → next h t e ≡ 0
    → t ≢ s
    → Finds h t depth p r
    → (d : ℕ) × Finds (attach h s q e) t d p r
attach-Finds h s q e t _ _ _ some_e f differ empty apart none_below other finds_none =
    (0, finds_none)
attach-Finds h s q e t _ p _ some_e f differ empty apart none_below other (finds_here some_p g) =
    (0, finds_here some_p (attach-subhash h s q e p ∙ g))
attach-Finds h s q e t (suc depth) p r some_e f differ empty apart none_below other
      (finds_down some_p g rest) =
    elim (Bool-cases (p == q)) [
      | inr away ↦
          let (d, more) =
            attach-Finds h s q e t depth (next h t p) r some_e f differ empty apart none_below other
              rest in
          let p_q : p ≢ q = λ x. ground (arith, ==_refl q) in
          (suc d, finds_down some_p keeps (rw (attach-way_other h s q e t p p_q) more))
      | inl at ↦
          let p_q : p ≡ q = ==→eq p q at in
          elim (attach-others h s q e t differ empty) [
            | inl same ↦
                let (d, more) =
                  attach-Finds h s q e t depth (next h t p) r some_e f differ empty apart none_below
                    other rest in
                (
                  suc d,
                  finds_down some_p keeps (
                      rw
                        (ap (λ (x : ℕ). next (attach h s q e) t x) p_q
                          ∙ same
                          ∙ sym (ap (next h t) p_q))
                        more),
                )
            | inr (gone, new) ↦
                let r_none : r ≡ 0 = Finds-at_none rest (ap (next h t) p_q ∙ gone) in
                (
                  2,
                  finds_down some_p keeps (
                      rw (ap (λ (x : ℕ). next (attach h s q e) t x) p_q ∙ new, r_none)
                        (finds_down some_e
                          (λ x. other (sym (sym (attach-subhash h s q e e ∙ f) ∙ x)))
                          (rw (attach-way_other h s q e t e apart ∙ none_below) finds_none))),
                )
          ]
    ]
  where
    keeps : (attach h s q e p).subhash ≢ t
    keeps x = g (sym (attach-subhash h s q e p) ∙ x)

pub attach-Chain :
    (h : Store) (s q e t p : ℕ) (ps : List ℕ) → Chain h t p ps → Chain (attach h s q e) t p ps
attach-Chain h s q e t _ _ chain_end = chain_end
attach-Chain h s q e t p (_ ∷ ps) (chain_more some_p f rest) =
    chain_more some_p (attach-subhash h s q e p ∙ f)
      (rw (attach-same h s q e p) (attach-Chain h s q e t (h p).same ps rest))
