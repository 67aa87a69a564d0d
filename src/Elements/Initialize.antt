-- ===== src/Elements/Initialize.antt =====
-- The free list that `InitializeElementArray` makes.
use k2hash.Base.{ℕ, zero, suc, ◌+◌, ◌≡◌, refl, sym, ap, ◌∙◌, List, [], ◌∷◌, arith, length, ◌<◌}
use k2hash.Elements.{Element, Store, put_element}
use k2hash.Elements.Free.{fresh_element, initialize_element_array}
use k2hash.Elements.FreeList.{Apart, apart_nil, apart_cons, Linked, linked_end, linked_more, IsFree}
use k2hash.Elements.Store.{put_same, put_other}

-- The places of `count` elements of `size` bytes from `pos` on.
unfoldable pub positions : (size pos count : ℕ) → List ℕ
positions size pos zero = []
positions size pos (suc count) = pos ∷ positions size (pos + size) count

positions-Apart : (size e count pos : ℕ) → e < pos → Apart e (positions size pos count)
unfolding positions
positions-Apart size e zero pos b = apart_nil
positions-Apart size e (suc count) pos b =
    apart_cons (λ f. omega arith) (positions-Apart size e count (pos + size) (omega arith))

length-positions : (size count pos : ℕ) → length (positions size pos count) ≡ count
unfolding positions
length-positions size zero pos = refl
length-positions size (suc count) pos = ap suc (length-positions size count (pos + size))

initialize-keeps :
    (size count : ℕ) (h : Store) (pos parent last q : ℕ)
    → q < pos
    → initialize_element_array size h pos parent last count q ≡ h q
unfolding initialize_element_array
initialize-keeps size zero h pos parent last q b = refl
initialize-keeps size (suc zero) h pos parent last q b = put_other h pos q _ (λ f. omega arith)
initialize-keeps size (suc (suc count)) h pos parent last q b =
    initialize-keeps size (suc count) _ (pos + size) pos last q (omega arith)
    ∙ put_other h pos q _ (λ f. omega arith)

initialize-Linked :
    (size count : ℕ) (h : Store) (pos parent : ℕ)
    → 0 < size
    → 0 < pos
    → Linked
        (initialize_element_array size h pos parent 0 (suc count))
        parent
        pos
        (positions size pos (suc count))
unfolding initialize_element_array positions fresh_element
initialize-Linked size zero h pos parent b c =
    linked_more (λ f. omega arith) apart_nil (ap (λ (x : Element). x.parent) (put_same h pos _))
      (rw (ap (λ (x : Element). x.same) (put_same h pos (fresh_element parent 0))) linked_end)
initialize-Linked size (suc count) h pos parent b c =
    let at =
      initialize-keeps size (suc count) (put_element h pos (fresh_element parent (pos + size)))
        (pos + size) pos 0 pos (omega arith)
      ∙ put_same h pos (fresh_element parent (pos + size)) in
    linked_more (λ f. omega arith) (positions-Apart size pos (suc count) (pos + size) (omega arith))
      (ap (λ (x : Element). x.parent) at)
      (rw (ap (λ (x : Element). x.same) at) (
        initialize-Linked size count (put_element h pos (fresh_element parent (pos + size)))
          (pos + size) pos b (omega arith)))

-- `InitializeElementArray` of one element or more over an area that does not start at 0, with
-- elements of at least one byte, makes a free list of all its elements in their order, and leaves
-- every element before the area as it was.
pub initialize_element_array-IsFree :
    (size count : ℕ) (h : Store) (pos q : ℕ)
    → 0 < size
    → 0 < pos
    → q < pos
    → IsFree
        (initialize_element_array size h pos 0 0 (suc count))
        (record { pfree_elements = pos; free_element_count = suc count })
        (positions size pos (suc count))
      × (initialize_element_array size h pos 0 0 (suc count) q ≡ h q)
initialize_element_array-IsFree size count h pos q b c before = (
  record {
    linked = initialize-Linked size count h pos 0 b c;
    counted = sym (length-positions size (suc count) pos);
  },
  initialize-keeps size (suc count) h pos 0 0 q before,
)
