-- ===== src/Elements/Append.antt =====
-- `InsertElement` as an operation on what the tree holds.
use k2hash.Base.{
  ℕ, zero, suc, ◌+◌, ◌≡◌, ◌≢◌, refl, sym, ap, ◌∙◌, true, false, Bool-cases, inl, inr, some, List,
  [], ◌∷◌, ◌++◌, ◌==◌, arith, length, ne→==, ==→eq, ◌<◌, ◌-◌,
}
use k2hash.Elements.{Element, Store, last_same, insert_element}
use k2hash.Elements.Holds.{
  way, next, Finds, finds_none, finds_here, finds_down, chain_end, chain_more, Holds,
}
use k2hash.Elements.Insert.{
  IsFresh, attach, attach-subhash, attach-same, IsFresh-next, Hung, insert_element-Hung,
  insert_below,
}
use k2hash.Elements.Attach.{attach-Finds, attach-Chain, Finds-at_none}
use k2hash.Elements.Behind.{
  behind, Longer, behind-Finds, behind-Chain_other, last_same-Longer, insert_here, Chain-at_none,
}

-- The tree under `top` of `h'` holds `e` behind the elements that it had of the second hash `s`, and
-- of every other second hash what it had.
pub record Appended (h h' : Store) (top s e : ℕ) (ps : List ℕ) : Type 0 where
  pub own : Holds h' top s (ps ++ (e ∷ []))
  pub others : (t : ℕ) (qs : List ℕ) → t ≢ s → Holds h top t qs → Holds h' top t qs

empty_way : (t : ℕ) (x : Element) → x.small ≡ 0 → x.big ≡ 0 → way t x ≡ 0
unfolding way
empty_way t x f g = ground arith

Appended-attach :
    (h : Store) (top e q : ℕ)
    → IsFresh h e
    → Hung h (h e).subhash e top q
    → Appended h (attach h (h e).subhash q e) top (h e).subhash e []
Appended-attach h top e q fresh hung = record {
  own = record {
    depth = hung.own_depth;
    head = e;
    finds = hung.own;
    chain =
        chain_more fresh.some_element (attach-subhash h (h e).subhash q e e)
          (rw (attach-same h (h e).subhash q e e ∙ fresh.same_none) chain_end);
  };
  others = λ t qs other holds.
      let (d, finds) =
        attach-Finds h (h e).subhash q e t holds.depth top holds.head fresh.some_element refl
          hung.differs hung.empty apart (nowhere_down t) other holds.finds in
      record {
        depth = d;
        head = holds.head;
        finds = finds;
        chain = attach-Chain h (h e).subhash q e t holds.head qs holds.chain;
      };
}
  where
    apart : e ≢ q
    apart f = hung.differs (ap (λ (x : ℕ). (h x).subhash) (sym f))

    nowhere_down : (t : ℕ) → next h t e ≡ 0
    nowhere_down t = empty_way t (h e) fresh.small_none fresh.big_none

Appended-behind :
    (h : Store) (top e depth head last : ℕ) (ps : List ℕ)
    → Finds h (h e).subhash depth top head
    → Longer h (h e).subhash e head last ps
    → Appended h (behind h last e) top (h e).subhash e ps
Appended-behind h top e depth head last ps finds l = record {
  own = record {
    depth = depth;
    head = head;
    finds = behind-Finds h last e (h e).subhash depth top head finds;
    chain = l.longer;
  };
  others = λ t qs other holds. record {
    depth = holds.depth;
    head = holds.head;
    finds = behind-Finds h last e t holds.depth top holds.head holds.finds;
    chain = behind-Chain_other h last e t holds.head qs (λ f. other (sym f ∙ l.hash)) holds.chain;
  };
}

-- No way leads to an element that no link leads to.
Finds-other : (h : Store) (e t depth p r : ℕ) → IsFresh h e → p ≢ e → Finds h t depth p r → r ≢ e
Finds-other h e t _ _ _ fresh apart finds_none = apart
Finds-other h e t _ _ _ fresh apart (finds_here some_p f) = apart
Finds-other h e t (suc depth) p r fresh apart (finds_down some_p f rest) =
    Finds-other h e t depth (next h t p) r fresh (λ x. IsFresh-next h e t p fresh (sym x)) rest

insert_found :
    (h : Store) (e last n depth p r : ℕ)
    → e ≢ 0
    → Finds h (h e).subhash depth p r
    → r ≢ 0
    → depth < n
    → last_same (n - depth) h r ≡ some last
    → insert_element n h p e ≡ some (true, behind h last e)
insert_found h e last n _ _ _ some_e finds_none some_r b run = absurd (some_r refl)
insert_found h e last zero _ p _ some_e (finds_here some_p f) some_r b run = absurd (omega arith)
insert_found h e last (suc n) _ p _ some_e (finds_here some_p f) some_r b run =
    let whole : suc n - 0 ≡ suc n = omega arith in
    insert_here n h p e last some_p some_e f (rw whole at run)
insert_found h e last zero (suc depth) p r some_e (finds_down some_p f rest) some_r b run =
    absurd (omega arith)
insert_found h e last (suc n) (suc depth) p r some_e (finds_down some_p f rest) some_r b run =
    let less : suc n - suc depth ≡ n - depth = omega arith in
    let more : (next h (h e).subhash p == 0) ≡ false =
      ne→== (next h (h e).subhash p) 0 (λ x. absurd (some_r (Finds-at_none rest x))) in
    insert_below n h p e some_p some_e f
    ∙ rw more (
        insert_found h e last n depth (next h (h e).subhash p) r some_e rest some_r (omega arith)
          (rw less at run))

-- Where `InsertElement` puts an element: below one of another second hash, or behind the last of its own.
pub data Placed (h : Store) (top e : ℕ) (ps : List ℕ) : Store → Type 0 where
  placed_below :
      (q : ℕ)
      → ps ≡ []
      → Hung h (h e).subhash e top q
      → Placed h top e ps (attach h (h e).subhash q e)
  placed_behind :
      {depth head : ℕ} (last : ℕ)
      → Finds h (h e).subhash depth top head
      → Longer h (h e).subhash e head last ps
      → Placed h top e ps (behind h last e)

pub insert_element-Placed :
    (n : ℕ) (h : Store) (top e : ℕ) (ps : List ℕ)
    → IsFresh h e
    → top ≢ 0
    → top ≢ e
    → (holds : Holds h top (h e).subhash ps) → holds.depth + length ps < n
    → (h' : Store) × (insert_element n h top e ≡ some (true, h')) × Placed h top e ps h'
insert_element-Placed n h top e ps fresh some_top apart holds b =
    elim (Bool-cases (holds.head == 0)) [
      | inl at ↦
          let nothing : holds.head ≡ 0 = ==→eq holds.head 0 at in
          let (q, run, hung) =
            insert_element-Hung h e n holds.depth top fresh.some_element (rw nothing at holds.finds)
              some_top (omega arith) in
          (attach h (h e).subhash q e, run, placed_below q (Chain-at_none holds.chain nothing) hung)
      | inr at ↦
          let some_head : holds.head ≢ 0 = λ x. ground arith in
          let (last, run, l) =
            last_same-Longer h (h e).subhash e fresh refl ps (n - holds.depth) holds.head
              holds.chain some_head (head_other holds.finds) (omega arith) in
          (
            behind h last e,
            insert_found h e last n holds.depth top holds.head fresh.some_element holds.finds
                some_head (omega arith) run,
            placed_behind last holds.finds l,
          )
    ]
  where
    head_other : Finds h (h e).subhash holds.depth top holds.head → holds.head ≢ e
    head_other finds = Finds-other h e (h e).subhash holds.depth top holds.head fresh apart finds

Placed-Appended :
    (h : Store) (top e : ℕ) (ps : List ℕ) (h' : Store)
    → IsFresh h e
    → Placed h top e ps h'
    → Appended h h' top (h e).subhash e ps
Placed-Appended h top e ps _ fresh (placed_below q f hung) =
    rw f (Appended-attach h top e q fresh hung)
Placed-Appended h top e ps _ fresh (placed_behind {depth} {head} last finds l) =
    Appended-behind h top e depth head last ps finds l

-- `InsertElement` of a fresh element into a tree that holds the list `ps` of its second hash, with
-- more fuel than the way down and the list have steps, ends with true and leaves a tree that holds
-- the new element behind `ps` and the same lists of all other second hashes.
pub insert_element-Appended :
    (n : ℕ) (h : Store) (top e : ℕ) (ps : List ℕ)
    → IsFresh h e
    → top ≢ 0
    → top ≢ e
    → (holds : Holds h top (h e).subhash ps) → holds.depth + length ps < n
    → (h' : Store) × (insert_element n h top e ≡ some (true, h'))
      × Appended h h' top (h e).subhash e ps
insert_element-Appended n h top e ps fresh some_top apart holds b =
    let (h', run, placed) = insert_element-Placed n h top e ps fresh some_top apart holds b in
    (h', run, Placed-Appended h top e ps h' fresh placed)
