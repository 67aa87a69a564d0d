-- ===== src/Elements/Stale.antt =====
-- What `TakeOffElement` does with an element whose `parent` does not name its parent, and how it
-- makes one.
use k2hash.Base.{ℕ, ◌-◌, ◌≡◌, ◌≢◌, refl, sym, ap, ◌∙◌, true, some, ne→==, ◌<◌}
use k2hash.Elements.{Element, CkIndex, Store, put_element}
use k2hash.Elements.Store.{put_same, put_other}
use k2hash.Elements.Steps.{
  take_off-below, take_off-top, finish-uncounted, finish-counted, IsLeaf, unlink-leaf,
}
use k2hash.Elements.TakeOff.{
  nowhere, link_of, relink, unlink, unlink_same, retop, clear_links, take_off_element,
}

link_of-nowhere :
    (h : Store) (p e : ℕ)
    → (h p).small ≢ e
    → (h p).big ≢ e
    → (h p).same ≢ e
    → link_of h p e ≡ nowhere
unfolding link_of
link_of-nowhere h p e f g k =
    rw
      (
        ne→== (h p).small e (λ x. absurd (f x)),
        ne→== (h p).big e (λ x. absurd (g x)),
        ne→== (h p).same e (λ x. absurd (k x)),
      )
      refl

-- `TakeOffElement` of a leaf whose `parent` is not NULL and has no link to it gives true, but all
-- that changes are the links of the leaf itself, and the count stays.
pub take_off_element-nowhere :
    (n : ℕ) (h : Store) (ck : CkIndex) (e : ℕ)
    → e ≢ 0
    → IsLeaf (h e)
    → (h e).parent ≢ 0
    → (h (h e).parent).small ≢ e
    → (h (h e).parent).big ≢ e
    → (h (h e).parent).same ≢ e
    → take_off_element n h ck e ≡ some (true, clear_links h e, ck)
unfolding relink
take_off_element-nowhere n h ck e some_e l some_p f g k =
    take_off-below n h ck e some_e some_p
    ∙ rw (unlink-leaf h ck.element_list e l some_p, link_of-nowhere h (h e).parent e f g k)
        (finish-uncounted n ck e h ck.element_list)

unlink-same_top :
    (h : Store) (list e : ℕ)
    → (h e).same ≢ 0
    → (h e).parent ≡ 0
    → unlink h list e
      ≡ retop
          (put_element h
            (h e).same
            (record (h (h e).same) { parent = (h e).parent; small = (h e).small; big = (h e).big }))
          (h e).same
          0
unfolding unlink unlink_same
unlink-same_top h list e some_same top =
    rw (ne→== (h e).same 0 (λ x. absurd (some_same x))) (rw top refl)

-- The store after the top `e` was taken off in favour of the next of its second hash.
abbrev retopped : Store → ℕ → Store
retopped h e =
    clear_links
      (put_element h (h e).same
        (record (h (h e).same) { parent = (h e).parent; small = (h e).small; big = (h e).big }))
      e

retopped-other : (h : Store) (e p : ℕ) → p ≢ e → p ≢ (h e).same → retopped h e p ≡ h p
unfolding clear_links
retopped-other h e p f g = put_other _ e p _ f ∙ put_other h (h e).same p _ g

retopped-small : (h : Store) (e : ℕ) → (retopped h e e).small ≡ 0
unfolding clear_links
retopped-small h e = ap (λ (x : Element). x.small) (put_same _ e _)

retopped-big : (h : Store) (e : ℕ) → (retopped h e e).big ≡ 0
unfolding clear_links
retopped-big h e = ap (λ (x : Element). x.big) (put_same _ e _)

retopped-same : (h : Store) (e : ℕ) → (retopped h e e).same ≡ 0
unfolding clear_links
retopped-same h e = ap (λ (x : Element). x.same) (put_same _ e _)

-- When the top of a tree of two elements or more has another element of its second hash and a small
-- child that is a leaf, taking the top off and then the child gives true twice, but the tree still
-- has the child, and taking the child off does not change the count.
pub take_off_element-stale :
    (n : ℕ) (h : Store) (ck : CkIndex) (e m s : ℕ)
    → e ≢ 0
    → m ≢ 0
    → s ≢ 0
    → m ≢ e
    → s ≢ e
    → s ≢ m
    → ck.element_list ≡ e
    → 1 < ck.element_count
    → (h e).parent ≡ 0
    → (h e).same ≡ m
    → (h e).small ≡ s
    → (h s).parent ≡ e
    → IsLeaf (h s)
    → (h1 : Store) × (h2 : Store) × (ck1 : CkIndex) × (take_off_element n h ck e
        ≡ some (true, h1, ck1))
      × (take_off_element n h1 ck1 s ≡ some (true, h2, ck1))
      × (ck1.element_list ≡ m)
      × ((h2 m).small ≡ s)
unfolding retop clear_links
take_off_element-stale n h ck e m s some_e some_m some_s m_e s_e s_m top b no_parent same small
      parent leaf =
    let some_same : (h e).same ≢ 0 = λ x. some_m (sym same ∙ x) in
    let s_same : s ≢ (h e).same = λ x. s_m (x ∙ same) in
    let m_at : retopped h e m
        ≡ record (h (h e).same) { parent = (h e).parent; small = (h e).small; big = (h e).big } =
      put_other _ e m _ m_e ∙ rw (sym same) (put_same h (h e).same _) in
    let s_at : retopped h e s ≡ h s = retopped-other h e s s_e s_same in
    let parent_at : (retopped h e s).parent ≡ e = ap (λ (x : Element). x.parent) s_at ∙ parent in
    let ck1 : CkIndex = record {
      element_count = ck.element_count - 1;
      element_list = (h e).same;
    } in
    (
      retopped h e,
      clear_links (retopped h e) s,
      ck1,
      take_off-top n h ck e some_e no_parent top
          ∙ rw (unlink-same_top h ck.element_list e some_same no_parent)
              (finish-counted n ck e _ (h e).same some_same b),
      take_off_element-nowhere n (retopped h e) ck1 s some_s (rw s_at leaf)
          (λ x. some_e (sym parent_at ∙ x))
          (rw parent_at (λ x. some_s (sym x ∙ retopped-small h e)))
          (rw parent_at (λ x. some_s (sym x ∙ retopped-big h e)))
          (rw parent_at (λ x. some_s (sym x ∙ retopped-same h e))),
      same,
      ap (λ (x : Element). x.small) (put_other (retopped h e) s m _ (λ x. s_m (sym x)) ∙ m_at)
          ∙ small,
    )
