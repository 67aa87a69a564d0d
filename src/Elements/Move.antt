-- ===== src/Elements/Move.antt =====
-- `MoveElementToUpperMask`: the elements of a tree whose hash belongs to a larger mask's key index
-- leave for the tree of that key index.
use k2hash.Base.{
  ℕ, zero, suc, ◌+◌, ◌≡◌, ◌≢◌, ◌<◌, refl, bit_and, Bool, true, false, Option, none, some, ◌==◌,
  if◌then◌else◌, arith, ne→==,
}
use k2hash.Elements.{CkIndex, Store, insert_element}
use k2hash.Elements.TakeOff.{take_off_element}
use k2hash.Mask.{shift_right}

-- The elements, and the two collision key indexes that are locked.
pub record Move : Type 0 where
  pub store : Store
  pub source : CkIndex
  pub target : CkIndex

-- What the move is for: `target_mask`, `target_masked_val`, and the bits of the collision mask.
pub record Aim : Type 0 where
  pub mask : ℕ
  pub masked_val : ℕ
  pub cmask_bits : ℕ

-- The next step after one that gave true; false ends the move.
unfoldable pub and_then :
    Option (Bool × Move) → (Move → Option (Bool × Move)) → Option (Bool × Move)
and_then none f = none
and_then (some (false, s)) f = some (false, s)
and_then (some (true, s)) f = f s

-- Whether the hash of an element belongs to the upper key index.
abbrev pub is_aimed : Aim → Store → ℕ → Bool
is_aimed aim h p = aim.masked_val == bit_and (shift_right (h p).hash aim.cmask_bits) aim.mask

-- The element is in no tree now, and goes into the target's.
unfoldable pub put_in_target : ℕ → Move → ℕ → Option (Bool × Move)
put_in_target fuel s p =
    let count = s.target.element_count + 1 in
    if s.target.element_list == 0
    then some (true, record s { target = record { element_count = count; element_list = p } })
    else elim (insert_element fuel s.store s.target.element_list p) [
      | none ↦ none
      | some r ↦
          if r.0
          then some (
            true,
            record {
              store = r.1;
              source = s.source;
              target = record { element_count = count; element_list = s.target.element_list };
            },
          )
          else some (false, s)
    ]

-- The part of `MoveElementToUpperMask` for the element itself.
unfoldable pub move_own : ℕ → Aim → Move → ℕ → Option (Bool × Move)
unfolding put_in_target
move_own fuel aim s p =
    if is_aimed aim s.store p
    then elim (take_off_element fuel s.store s.source p) [
      | none ↦ none
      | some r ↦
          let s1 : Move = record { store = r.1; source = r.2; target = s.target } in
          if r.0 then put_in_target fuel s1 p else some (false, s1)
    ]
    else some (true, s)

-- `MoveElementToUpperMask`, and true for a child that is NULL: the three children, then the element.
-- An element that is its own child is not repaired: the source compares its offset with an address.
unfoldable pub move_elements : ℕ → Aim → Move → ℕ → Option (Bool × Move)
unfolding and_then move_own
move_elements zero aim s p = none
move_elements (suc fuel) aim s p = elim (p == 0) [
  | true ↦ some (true, s)
  | false ↦ and_then (move_elements fuel aim s (s.store p).same) (λ s1.
      and_then (move_elements fuel aim s1 (s1.store p).small) (λ s2.
        and_then (move_elements fuel aim s2 (s2.store p).big) (λ s3. move_own fuel aim s3 p)))
]

-- `MoveElementToUpperMask`
unfoldable pub move_element_to_upper_mask : ℕ → Aim → Move → ℕ → Option (Bool × Move)
unfolding move_elements
move_element_to_upper_mask fuel aim s p =
    if p == 0 then some (false, s) else move_elements fuel aim s p

-- A tree of at most `depth` levels below `p`, over all three links, that has no element to move.
pub data HasNoneAimed (aim : Aim) (h : Store) : (depth p : ℕ) → Type 0 where
  tree_none : {n : ℕ} → HasNoneAimed aim h n 0
  tree_node :
      {n p : ℕ}
      → p ≢ 0
      → is_aimed aim h p ≡ false
      → HasNoneAimed aim h n (h p).same
      → HasNoneAimed aim h n (h p).small
      → HasNoneAimed aim h n (h p).big
      → HasNoneAimed aim h (suc n) p

move_own-stays :
    (fuel : ℕ) (aim : Aim) (s : Move) (p : ℕ)
    → is_aimed aim s.store p ≡ false
    → move_own fuel aim s p ≡ some (true, s)
unfolding move_own
move_own-stays fuel aim s p e = rw e refl

move_step :
    (fuel : ℕ) (aim : Aim) (s : Move) (p : ℕ)
    → p ≢ 0
    → move_elements fuel aim s (s.store p).same ≡ some (true, s)
    → move_elements fuel aim s (s.store p).small ≡ some (true, s)
    → move_elements fuel aim s (s.store p).big ≡ some (true, s)
    → move_own fuel aim s p ≡ some (true, s)
    → move_elements (suc fuel) aim s p ≡ some (true, s)
unfolding move_elements and_then
move_step fuel aim s p some_p e f g k =
    rw (move_elements, ne→== p 0 (λ x. absurd (some_p x)), e, f, g) k

move_null : (fuel : ℕ) (aim : Aim) (s : Move) → move_elements (suc fuel) aim s 0 ≡ some (true, s)
unfolding move_elements
move_null fuel aim s = refl

move_elements-stay :
    (fuel depth : ℕ) (aim : Aim) (s : Move) (p : ℕ)
    → HasNoneAimed aim s.store depth p
    → depth < fuel
    → move_elements fuel aim s p ≡ some (true, s)
move_elements-stay zero depth aim s p t b = absurd (omega arith)
move_elements-stay (suc fuel) depth aim s _ tree_none b = move_null fuel aim s
move_elements-stay (suc fuel) (suc depth) aim s p (tree_node some_p e same small big) b =
    move_step fuel aim s p some_p
      (move_elements-stay fuel depth aim s (s.store p).same same (omega arith))
      (move_elements-stay fuel depth aim s (s.store p).small small (omega arith))
      (move_elements-stay fuel depth aim s (s.store p).big big (omega arith))
      (move_own-stays fuel aim s p e)

-- Where no element of a tree that is not NULL belongs to the upper key index, the move, with more
-- fuel than the tree has levels, gives true and changes nothing.
pub move_element_to_upper_mask-stays :
    (fuel depth : ℕ) (aim : Aim) (s : Move) (p : ℕ)
    → p ≢ 0
    → HasNoneAimed aim s.store depth p
    → depth < fuel
    → move_element_to_upper_mask fuel aim s p ≡ some (true, s)
unfolding move_element_to_upper_mask
move_element_to_upper_mask-stays fuel depth aim s p some_p t b =
    rw (ne→== p 0 (λ x. absurd (some_p x))) (move_elements-stay fuel depth aim s p t b)
