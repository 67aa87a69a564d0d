-- ===== src/Elements/TakeOff.antt =====
-- `TakeOffElement`, as lib/k2hshm.cc has it: which link of the parent holds the element, what takes
-- its place, and the elements put in again after that.
use k2hash.Base.{ℕ, ◌-◌, Bool, true, false, Option, none, some, ◌==◌, ltb, if◌then◌else◌}
use k2hash.Elements.{
  CkIndex, Store, put_element, set_small, set_big, set_parent, set_same, insert_element,
  get_element_list_up_count,
}

-- The link of a parent that holds an element, in the order of the tests.
pub data Link : Type 0 where
  at_small : Link
  at_big : Link
  at_same : Link
  nowhere : Link

unfoldable pub link_of : Store → (parent e : ℕ) → Link
link_of h p e =
    if (h p).small == e
    then at_small
    else if (h p).big == e
    then at_big
    else if (h p).same == e
    then at_same
    else nowhere

-- What the links are after the element is out: the elements to insert again, and `isCountDown`.
pub record Unlinked : Type 0 where
  pub store : Store
  pub element_list : ℕ
  pub insert_small : ℕ
  pub insert_big : ℕ
  pub is_count_down : Bool

-- Under a parent, `v` in place of the element; under `same`, `w`, and `small` and `big` to insert.
unfoldable pub relink : Store → (list p v w small big : ℕ) → Link → Unlinked
relink h list p v w small big at_small = record {
  store = set_small h p v;
  element_list = list;
  insert_small = 0;
  insert_big = 0;
  is_count_down = true;
}
relink h list p v w small big at_big = record {
  store = set_big h p v;
  element_list = list;
  insert_small = 0;
  insert_big = 0;
  is_count_down = true;
}
relink h list p v w small big at_same = record {
  store = set_same h p w;
  element_list = list;
  insert_small = small;
  insert_big = big;
  is_count_down = true;
}
relink h list p v w small big nowhere = record {
  store = h;
  element_list = list;
  insert_small = 0;
  insert_big = 0;
  is_count_down = false;
}

-- The top of the tree replaced.
unfoldable pub retop : Store → (list small : ℕ) → Unlinked
retop h list small = record {
  store = h;
  element_list = list;
  insert_small = small;
  insert_big = 0;
  is_count_down = true;
}

-- The element has others of its second hash: the next of them takes its place.
unfoldable pub unlink_same : Store → (list e : ℕ) → Unlinked
unlink_same h list e =
    let child = (h e).same in
    let p = (h e).parent in
    let h1 =
      put_element h child (record (h child) { parent = p; small = (h e).small; big = (h e).big }) in
    if p == 0 then retop h1 child 0 else relink h1 list p child child 0 0 (link_of h1 p e)

-- The element has a small and a big one.
unfoldable pub unlink_both : Store → (list e : ℕ) → Unlinked
unlink_both h list e =
    let p = (h e).parent in
    let small = (h e).small in
    let big = (h e).big in
    if p == 0 then retop (set_parent h big 0) big small else elim (link_of h p e) [
      | at_small ↦ record {
        store = set_small (set_parent h big p) p big;
        element_list = list;
        insert_small = small;
        insert_big = 0;
        is_count_down = true;
      }
      | at_big ↦ record {
        store = set_big (set_parent h small p) p small;
        element_list = list;
        insert_small = 0;
        insert_big = big;
        is_count_down = true;
      }
      | at_same ↦ relink h list p 0 0 small big at_same
      | nowhere ↦ relink h list p 0 0 0 0 nowhere
    ]

-- The element has only a big one.
unfoldable pub unlink_big : Store → (list e : ℕ) → Unlinked
unlink_big h list e =
    let p = (h e).parent in
    let big = (h e).big in
    let h1 = set_parent h big p in
    if p == 0 then retop h1 big 0 else relink h1 list p big 0 0 big (link_of h1 p e)

-- The element has only a small one.
unfoldable pub unlink_small : Store → (list e : ℕ) → Unlinked
unlink_small h list e =
    let p = (h e).parent in
    let small = (h e).small in
    let h1 = set_parent h small p in
    if p == 0 then retop h1 small 0 else relink h1 list p small 0 small 0 (link_of h1 p e)

-- The element has nothing under it.
unfoldable pub unlink_leaf : Store → (list e : ℕ) → Unlinked
unlink_leaf h list e =
    let p = (h e).parent in if p == 0 then retop h 0 0 else relink h list p 0 0 0 0 (link_of h p e)

-- The five cases, in the order of the tests.
unfoldable pub unlink : Store → (list e : ℕ) → Unlinked
unlink h list e =
    if (h e).same == 0
    then (if (h e).big == 0
        then (if (h e).small == 0 then unlink_leaf h list e else unlink_small h list e)
        else (if (h e).small == 0 then unlink_big h list e else unlink_both h list e))
    else unlink_same h list e

unfoldable pub clear_links : Store → ℕ → Store
clear_links h e = put_element h e (record (h e) { small = 0; big = 0; parent = 0; same = 0 })

-- One of the two elements inserted again; it becomes the list where there is none.
unfoldable pub insert_again : ℕ → Store → (list e : ℕ) → Option (Bool × Store × ℕ)
unfolding insert_element
insert_again fuel h list e =
    if e == 0
    then some (true, h, list)
    else if list == 0
    then some (true, h, e)
    else elim (insert_element fuel h list e) [ none ↦ none | some r ↦ some (r.0, r.1, list) ]

-- The count after it, and the repair of a count that does not agree with the list.
unfoldable pub count_down : ℕ → Store → CkIndex → Option CkIndex
unfolding get_element_list_up_count
count_down fuel h ck =
    let count = if ltb 0 ck.element_count then ck.element_count - 1 else ck.element_count in
    if ck.element_list == 0
    then some (record { element_count = 0; element_list = 0 })
    else if count == 0
    then elim (get_element_list_up_count fuel h ck.element_list) [
      | none ↦ none
      | some n ↦ some (record { element_count = n; element_list = ck.element_list })
    ]
    else some (record { element_count = count; element_list = ck.element_list })

-- `TakeOffElement` after the links are taken care of.
unfoldable pub finish : ℕ → CkIndex → ℕ → Unlinked → Option (Bool × Store × CkIndex)
finish fuel ck e u =
    elim (insert_again fuel (clear_links u.store e) u.element_list u.insert_small) [
      | none ↦ none
      | some r ↦
          if r.0
          then elim (insert_again fuel r.1 r.2 u.insert_big) [
            | none ↦ none
            | some s ↦
                let ck1 : CkIndex = record {
                  element_count = ck.element_count;
                  element_list = s.2;
                } in
                if s.0
                then (if u.is_count_down
                    then elim (count_down fuel s.1 ck1) [
                      | none ↦ none
                      | some ck2 ↦ some (true, s.1, ck2)
                    ]
                    else some (true, s.1, ck1))
                else some (false, s.1, ck1)
          ]
          else some (false, r.1, record { element_count = ck.element_count; element_list = r.2 })
    ]

-- `TakeOffElement`, with false for NULL and for an element without a parent that is not the top.
unfoldable pub take_off_element : ℕ → Store → CkIndex → ℕ → Option (Bool × Store × CkIndex)
take_off_element fuel h ck e =
    if (if e == 0
      then true
      else if (h e).parent == 0
      then (if e == ck.element_list then false else true)
      else false)
    then some (false, h, ck)
    else finish fuel ck e (unlink h ck.element_list e)
