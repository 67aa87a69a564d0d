-- ===== src/Elements/TakeBack.antt =====
-- `InsertElement` and then `TakeOffElement` of the same element.
use k2hash.Base.{
  ℕ, ◌+◌, ◌≡◌, ◌≢◌, ap, true, false, Bool-cases, inl, inr, some, List, ltb, arith, length, ◌<◌,
}
use k2hash.Elements.{Element, CkIndex, Store, insert_element}
use k2hash.Elements.Append.{Placed, placed_below, placed_behind, insert_element-Placed}
use k2hash.Elements.Holds.{Holds, way}
use k2hash.Elements.Insert.{IsFresh, attach, Hung}
use k2hash.Elements.TakeOff.{take_off_element}
use k2hash.Elements.Undo.{IsUndone, Undo, Undo-behind, Undo-big, Undo-small}

big_empty : (x : Element) (s : ℕ) → way s x ≡ 0 → x.subhash ≢ s → ltb x.subhash s ≡ true → x.big ≡ 0
unfolding way
big_empty x s f g h = ground arith

small_empty :
    (x : Element) (s : ℕ) → way s x ≡ 0 → x.subhash ≢ s → ltb x.subhash s ≡ false → x.small ≡ 0
unfolding way
small_empty x s f g h = ground arith

Undo-attach :
    (n : ℕ) (h : Store) (ck : CkIndex) (q e : ℕ)
    → IsFresh h e
    → (h e).parent ≡ 0
    → Hung h (h e).subhash e ck.element_list q
    → ck.element_list ≢ 0
    → 1 < ck.element_count
    → Undo n h (attach h (h e).subhash q e) ck e
unfolding attach
Undo-attach n h ck q e fresh no_parent hung some_list b =
    elim (Bool-cases (ltb (h q).subhash (h e).subhash)) [
      | inl big ↦ rw big (
          Undo-big n h ck q e fresh no_parent hung.some_place apart
            (big_empty (h q) (h e).subhash hung.empty hung.differs big) some_list b)
      | inr small ↦ rw small (
          Undo-small n h ck q e fresh no_parent hung.some_place apart
            (small_empty (h q) (h e).subhash hung.empty hung.differs small) some_list b)
    ]
  where
    apart : q ≢ e
    apart f = hung.differs (ap (λ (x : ℕ). (h x).subhash) f)

Undo-Placed :
    (n : ℕ) (h : Store) (ck : CkIndex) (e : ℕ) (ps : List ℕ) (h' : Store)
    → IsFresh h e
    → (h e).parent ≡ 0
    → Placed h ck.element_list e ps h'
    → ck.element_list ≢ 0
    → 1 < ck.element_count
    → Undo n h h' ck e
Undo-Placed n h ck e ps _ fresh no_parent (placed_below q f hung) some_list b =
    Undo-attach n h ck q e fresh no_parent hung some_list b
Undo-Placed n h ck e ps _ fresh no_parent (placed_behind last finds l) some_list b =
    Undo-behind n h ck last e fresh no_parent l.some_last l.apart l.ends some_list b

-- A fresh element without a parent that `InsertElement`, with enough fuel for the way down and the
-- list, puts into a tree whose count with it is at least 2 is taken off again by `TakeOffElement`,
-- with any fuel: every element is then as it was before, the list has the same top, and the count
-- is one less.
pub take_off_element-insert_element :
    (n m : ℕ) (h : Store) (ck : CkIndex) (e : ℕ) (ps : List ℕ)
    → IsFresh h e
    → (h e).parent ≡ 0
    → ck.element_list ≢ 0
    → ck.element_list ≢ e
    → 1 < ck.element_count
    → (holds : Holds h ck.element_list (h e).subhash ps) → holds.depth + length ps < n
    → (h' : Store) × (h'' : Store) × (ck'' : CkIndex) × (insert_element n h ck.element_list e
        ≡ some (true, h'))
      × (take_off_element m h' ck e ≡ some (true, h'', ck''))
      × IsUndone h h'' ck ck''
take_off_element-insert_element n m h ck e ps fresh no_parent some_list apart b holds fuel =
    let (h', run, placed) =
      insert_element-Placed n h ck.element_list e ps fresh some_list apart holds fuel in
    let (h'', ck'', off, undone) = Undo-Placed m h ck e ps h' fresh no_parent placed some_list b in
    (h', h'', ck'', run, off, undone)
