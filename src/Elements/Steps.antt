-- ===== src/Elements/Steps.antt =====
-- One step of `TakeOffElement` at a time.
use k2hash.Base.{ℕ, ◌-◌, ◌≡◌, ◌≢◌, refl, true, false, some, arith, ==_refl, ne→==, ◌<◌, lt→ltb}
use k2hash.Elements.{Element, CkIndex, Store}
use k2hash.Elements.TakeOff.{
  link_of, relink, unlink, unlink_leaf, clear_links, finish, insert_again, count_down,
  take_off_element,
}

pub take_off-below :
    (n : ℕ) (h : Store) (ck : CkIndex) (e : ℕ)
    → e ≢ 0
    → (h e).parent ≢ 0
    → take_off_element n h ck e ≡ finish n ck e (unlink h ck.element_list e)
unfolding take_off_element
take_off-below n h ck e some_e some_p =
    rw
      (
        take_off_element,
        ne→== e 0 (λ x. absurd (some_e x)),
        ne→== (h e).parent 0 (λ x. absurd (some_p x)),
      )
      refl

pub take_off-top :
    (n : ℕ) (h : Store) (ck : CkIndex) (e : ℕ)
    → e ≢ 0
    → (h e).parent ≡ 0
    → ck.element_list ≡ e
    → take_off_element n h ck e ≡ finish n ck e (unlink h ck.element_list e)
unfolding take_off_element
take_off-top n h ck e some_e no_parent top =
    rw (take_off_element, ne→== e 0 (λ x. absurd (some_e x)), no_parent, top, ==_refl e) refl

insert_again-none : (n : ℕ) (h : Store) (list : ℕ) → insert_again n h list 0 ≡ some (true, h, list)
unfolding insert_again
insert_again-none n h list = refl

count_down-more :
    (n : ℕ) (h : Store) (ck : CkIndex)
    → ck.element_list ≢ 0
    → 1 < ck.element_count
    → count_down n h ck
      ≡ some (record { element_count = ck.element_count - 1; element_list = ck.element_list })
unfolding count_down
count_down-more n h ck some_list b =
    rw
      (
        ne→== ck.element_list 0 (λ x. absurd (some_list x)),
        lt→ltb 0 ck.element_count (omega arith),
        ne→== (ck.element_count - 1) 0 (λ x. omega arith),
      )
      refl

-- Nothing to insert again and nothing to count.
pub finish-uncounted :
    (n : ℕ) (ck : CkIndex) (e : ℕ) (h : Store) (list : ℕ)
    → finish n ck e (record {
      store = h;
      element_list = list;
      insert_small = 0;
      insert_big = 0;
      is_count_down = false;
    })
      ≡ some
          (true, clear_links h e, record { element_count = ck.element_count; element_list = list })
unfolding finish
finish-uncounted n ck e h list =
    rw
      (
        finish,
        insert_again-none n (clear_links h e) list,
        insert_again-none n (clear_links h e) list,
      )
      refl

-- Nothing to insert again, one to count, and others left.
pub finish-counted :
    (n : ℕ) (ck : CkIndex) (e : ℕ) (h : Store) (list : ℕ)
    → list ≢ 0
    → 1 < ck.element_count
    → finish n ck e (record {
      store = h;
      element_list = list;
      insert_small = 0;
      insert_big = 0;
      is_count_down = true;
    })
      ≡ some (
        true,
        clear_links h e,
        record { element_count = ck.element_count - 1; element_list = list },
      )
unfolding finish
finish-counted n ck e h list some_list b =
    rw
      (
        finish,
        insert_again-none n (clear_links h e) list,
        insert_again-none n (clear_links h e) list,
        count_down-more n (clear_links h e)
            (record { element_count = ck.element_count; element_list = list }) some_list b,
      )
      refl

-- An element with nothing under it.
pub record IsLeaf (x : Element) : Type 0 where
  pub small_none : x.small ≡ 0
  pub big_none : x.big ≡ 0
  pub same_none : x.same ≡ 0

pub unlink-leaf :
    (h : Store) (list e : ℕ)
    → IsLeaf (h e)
    → (h e).parent ≢ 0
    → unlink h list e ≡ relink h list (h e).parent 0 0 0 0 (link_of h (h e).parent e)
unfolding unlink unlink_leaf
unlink-leaf h list e l some_p =
    rw (l.same_none, l.big_none, l.small_none, ne→== (h e).parent 0 (λ x. absurd (some_p x))) refl
