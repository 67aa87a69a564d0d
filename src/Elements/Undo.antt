-- ===== src/Elements/Undo.antt =====
-- `TakeOffElement` of the element that `InsertElement` put in last.
use k2hash.Base.{
  ℕ, ◌+◌, ◌-◌, ◌≡◌, ◌≢◌, refl, sym, ap, ◌∙◌, true, Bool-cases, inl, inr, some, ◌==◌, if◌then◌else◌,
  arith, ==_refl, ne→==, ==→eq, ◌<◌,
}
use k2hash.Elements.{Element, CkIndex, Store, put_element, set_small, set_big, set_parent}
use k2hash.Elements.Behind.{behind}
use k2hash.Elements.Insert.{IsFresh}
use k2hash.Elements.Steps.{take_off-below, finish-counted, IsLeaf, unlink-leaf}
use k2hash.Elements.Store.{put_same, put_other}
use k2hash.Elements.TakeOff.{
  Link, at_small, at_big, at_same, nowhere, link_of, relink, clear_links, take_off_element,
}

-- Two elements written twice, at the end with what they had.
restored :
    (h : Store) (q e : ℕ) (x y x' y' : Element)
    → x' ≡ h q
    → y' ≡ h e
    → (p : ℕ) → put_element (put_element (put_element (put_element h q x) e y) q x') e y' p ≡ h p
restored h q e x y x' y' f g p = elim (Bool-cases (p == e)) [
  | inl at ↦ let k : p ≡ e = ==→eq p e at in rw k (put_same _ e y' ∙ g)
  | inr other ↦
      let p_e : p ≢ e = λ k. ground (arith, ==_refl e) in
      put_other _ e p y' p_e ∙ elim (Bool-cases (p == q)) [
        | inl at ↦ let k : p ≡ q = ==→eq p q at in rw k (put_same _ q x' ∙ f)
        | inr away ↦
            let p_q : p ≢ q = λ k. ground (arith, ==_refl q) in
            put_other _ q p x' p_q ∙ put_other _ e p y p_e ∙ put_other h q p x p_q
      ]
]

-- A new element with its links at NULL is at the place of a link that was NULL.
pub record IsUndone (h h'' : Store) (ck ck'' : CkIndex) : Type 0 where
  pub store : (p : ℕ) → h'' p ≡ h p
  pub count : ck''.element_count + 1 ≡ ck.element_count
  pub list : ck''.element_list ≡ ck.element_list

-- The store after a link of `q` was set to `e`, which makes `q` the element `x`.
abbrev linked : Store → ℕ → ℕ → Element → Store
linked h q e x = set_parent (put_element h q x) e q

linked-child :
    (h : Store) (q e : ℕ) (x : Element) → q ≢ e → linked h q e x e ≡ record (h e) { parent = q }
linked-child h q e x apart =
    put_same _ e _
    ∙ ap (λ (y : Element). record y { parent = q }) (put_other h q e x (λ f. apart (sym f)))

linked-parent : (h : Store) (q e : ℕ) (x : Element) → q ≢ e → linked h q e x q ≡ x
linked-parent h q e x apart = put_other _ e q _ apart ∙ put_same h q x

unlinked :
    (n : ℕ) (h : Store) (ck : CkIndex) (q e : ℕ) (l : Link) (x x' : Element)
    → IsFresh h e
    → (h e).parent ≡ 0
    → q ≢ 0
    → q ≢ e
    → ck.element_list ≢ 0
    → 1 < ck.element_count
    → link_of (linked h q e x) q e ≡ l
    → relink (linked h q e x) ck.element_list q 0 0 0 0 l ≡ record {
      store = put_element (linked h q e x) q x';
      element_list = ck.element_list;
      insert_small = 0;
      insert_big = 0;
      is_count_down = true;
    }
    → x' ≡ h q
    → (h'' : Store) × (ck'' : CkIndex) × (take_off_element n (linked h q e x) ck e
        ≡ some (true, h'', ck''))
      × IsUndone h h'' ck ck''
unfolding clear_links
unlinked n h ck q e l x x' fresh no_parent some_q apart some_list b f g back =
    let child = linked-child h q e x apart in
    let leaf : IsLeaf (linked h q e x e) = rw child (record {
      small_none = fresh.small_none;
      big_none = fresh.big_none;
      same_none = fresh.same_none;
    }) in
    let up : (linked h q e x e).parent ≡ q = ap (λ (y : Element). y.parent) child in
    (
      clear_links (put_element (linked h q e x) q x') e,
      record { element_count = ck.element_count - 1; element_list = ck.element_list },
      take_off-below n (linked h q e x) ck e fresh.some_element (λ z. some_q (sym up ∙ z))
          ∙ rw
              (
                unlink-leaf (linked h q e x) ck.element_list e leaf (λ z. some_q (sym up ∙ z)),
                up,
                f,
                g,
              )
              (finish-counted n ck e _ ck.element_list some_list b),
      record {
        store = restored h q e x _ x' _ back (
            ap cleared (put_other _ q e x' (λ z. apart (sym z)) ∙ child)
            ∙ cleared_lem (h e) fresh.small_none fresh.big_none fresh.same_none no_parent);
        count = omega arith;
        list = refl;
      },
    )
  where
    cleared : Element → Element
    cleared y = record y { small = 0; big = 0; parent = 0; same = 0 }

    cleared_lem :
        (y : Element) → y.small ≡ 0 → y.big ≡ 0 → y.same ≡ 0 → y.parent ≡ 0 → cleared y ≡ y
    cleared_lem y f1 f2 f3 f4 =
        ap (λ (v : ℕ). record y { small = v; big = 0; parent = 0; same = 0 }) (sym f1)
        ∙ ap (λ (v : ℕ). record y { big = v; parent = 0; same = 0 }) (sym f2)
        ∙ ap (λ (v : ℕ). record y { parent = v; same = 0 }) (sym f4)
        ∙ ap (λ (v : ℕ). record y { same = v }) (sym f3)

link_of-by :
    (h : Store) (q e : ℕ) (x : Element) (l : Link)
    → h q ≡ x
    → (if x.small == e
        then at_small
        else if x.big == e
        then at_big
        else if x.same == e
        then at_same
        else nowhere)
      ≡ l
    → link_of h q e ≡ l
unfolding link_of
link_of-by h q e x l f g =
    rw
      (ap
        (λ (y : Element).
          if y.small == e
          then at_small
          else if y.big == e
          then at_big
          else if y.same == e
          then at_same
          else nowhere)
        f)
      g

-- Taking off the element that was inserted last gives the store and the list that were there.
abbrev pub Undo : ℕ → Store → Store → CkIndex → ℕ → Type 0
Undo n h h' ck e =
    (h'' : Store) × (ck'' : CkIndex) × (take_off_element n h' ck e ≡ some (true, h'', ck''))
    × IsUndone h h'' ck ck''

pub Undo-behind :
    (n : ℕ) (h : Store) (ck : CkIndex) (q e : ℕ)
    → IsFresh h e
    → (h e).parent ≡ 0
    → q ≢ 0
    → q ≢ e
    → (h q).same ≡ 0
    → ck.element_list ≢ 0
    → 1 < ck.element_count
    → Undo n h (behind h q e) ck e
unfolding behind relink
Undo-behind n h ck q e fresh no_parent some_q apart ends some_list b =
    unlinked n h ck q e at_same (record (h q) { same = e }) _ fresh no_parent some_q apart some_list
      b
      (link_of-by (linked h q e (record (h q) { same = e })) q e _ at_same
        (linked-parent h q e _ apart)
        (rw
          (
            ne→== (h q).small e (λ x. absurd (fresh.no_small q x)),
            ne→== (h q).big e (λ x. absurd (fresh.no_big q x)),
            ==_refl e,
          )
          refl))
      refl
      (ap (λ (y : Element). record y { same = 0 })
          (linked-parent h q e (record (h q) { same = e }) apart)
        ∙ ap (λ (v : ℕ). record (h q) { same = v }) (sym ends))

pub Undo-big :
    (n : ℕ) (h : Store) (ck : CkIndex) (q e : ℕ)
    → IsFresh h e
    → (h e).parent ≡ 0
    → q ≢ 0
    → q ≢ e
    → (h q).big ≡ 0
    → ck.element_list ≢ 0
    → 1 < ck.element_count
    → Undo n h (set_parent (set_big h q e) e q) ck e
unfolding relink
Undo-big n h ck q e fresh no_parent some_q apart ends some_list b =
    unlinked n h ck q e at_big (record (h q) { big = e }) _ fresh no_parent some_q apart some_list b
      (link_of-by (linked h q e (record (h q) { big = e })) q e _ at_big
        (linked-parent h q e _ apart)
        (rw (ne→== (h q).small e (λ x. absurd (fresh.no_small q x)), ==_refl e) refl))
      refl
      (ap (λ (y : Element). record y { big = 0 })
          (linked-parent h q e (record (h q) { big = e }) apart)
        ∙ ap (λ (v : ℕ). record (h q) { big = v }) (sym ends))

pub Undo-small :
    (n : ℕ) (h : Store) (ck : CkIndex) (q e : ℕ)
    → IsFresh h e
    → (h e).parent ≡ 0
    → q ≢ 0
    → q ≢ e
    → (h q).small ≡ 0
    → ck.element_list ≢ 0
    → 1 < ck.element_count
    → Undo n h (set_parent (set_small h q e) e q) ck e
unfolding relink
Undo-small n h ck q e fresh no_parent some_q apart ends some_list b =
    unlinked n h ck q e at_small (record (h q) { small = e }) _ fresh no_parent some_q apart
      some_list b
      (link_of-by (linked h q e (record (h q) { small = e })) q e _ at_small
        (linked-parent h q e _ apart) (rw (==_refl e) refl))
      refl
      (ap (λ (y : Element). record y { small = 0 })
          (linked-parent h q e (record (h q) { small = e }) apart)
        ∙ ap (λ (v : ℕ). record (h q) { small = v }) (sym ends))
