-- ===== src/Tests/Trees.antt =====
-- Elements, their trees and their free list at concrete values.
use k2hash.Base.{
  ℕ, ◌≡◌, refl, Bool, true, Bool-cases, inl, inr, some, [], ◌∷◌, ◌==◌, if◌then◌else◌, arith,
}
use k2hash.Elements.{Element, CkIndex, Store, insert_element}
use k2hash.Elements.Append.{Appended, insert_element-Appended}
use k2hash.Elements.Holds.{way, finds_none, finds_here, finds_down, chain_end, chain_more, Holds}
use k2hash.Elements.Insert.{IsFresh}
use k2hash.Elements.Stale.{take_off_element-stale}
use k2hash.Elements.TakeBack.{take_off_element-insert_element}
use k2hash.Elements.TakeOff.{take_off_element}
use k2hash.Elements.Undo.{IsUndone}

-- An element with its links and its two hashes.
abbrev node : (small big parent same hash subhash : ℕ) → Element
node small big parent same hash subhash = record {
  small = small;
  big = big;
  parent = parent;
  same = same;
  hash = hash;
  subhash = subhash;
  key = 0;
  value = 0;
  subkeys = 0;
  attrs = 0;
  keylength = 0;
  vallength = 0;
  skeylength = 0;
  attrlength = 0;
}

-- The tree is the element 8, of the second hash 5; the element 9, of the second hash 7, is fresh.
abbrev one : Store
one p = if p == 8 then node 0 0 0 0 50 5 else if p == 9 then node 0 0 0 0 70 7 else node 0 0 0 0 0 0

no_link :
    (f : Element → ℕ)
    → f (node 0 0 0 0 50 5) ≡ 0
    → f (node 0 0 0 0 70 7) ≡ 0
    → f (node 0 0 0 0 0 0) ≡ 0
    → (p : ℕ) → f (one p) ≡ 0
no_link f a b c p = elim (Bool-cases (p == 8)) [
  | inl e ↦ rw e a
  | inr e ↦ elim (Bool-cases (p == 9)) [ inl g ↦ rw (e, g) b | inr g ↦ rw (e, g) c ]
]

nine-IsFresh : IsFresh one 9
nine-IsFresh = record {
  some_element = λ e. omega arith;
  no_small = λ p e. omega (arith, no_link (λ x. x.small) refl refl refl p, e);
  no_big = λ p e. omega (arith, no_link (λ x. x.big) refl refl refl p, e);
  no_same = λ p e. omega (arith, no_link (λ x. x.same) refl refl refl p, e);
  small_none = refl;
  big_none = refl;
  same_none = refl;
}

one_holds : Holds one 8 7 []
unfolding way
one_holds = record {
  depth = 1;
  head = 0;
  finds = finds_down (λ e. omega arith) (λ e. omega arith) finds_none;
  chain = chain_end;
}

insert_element-Appended_example :
    (h' : Store) × (insert_element 2 one 8 9 ≡ some (true, h')) × Appended one h' 8 7 9 []
unfolding one_holds
insert_element-Appended_example =
    insert_element-Appended 2 one 8 9 [] nine-IsFresh (λ e. omega arith) (λ e. omega arith)
      one_holds (omega arith)

abbrev two_in_all : CkIndex
two_in_all = record { element_count = 2; element_list = 8 }

take_off_element-insert_element_example :
    (h' : Store) × (h'' : Store) × (ck'' : CkIndex) × (insert_element 2 one 8 9 ≡ some (true, h'))
    × (take_off_element 1 h' two_in_all 9 ≡ some (true, h'', ck''))
    × IsUndone one h'' two_in_all ck''
unfolding one_holds
take_off_element-insert_element_example =
    take_off_element-insert_element 2 1 one two_in_all 9 [] nine-IsFresh refl (λ e. omega arith)
      (λ e. omega arith) (omega arith) one_holds (omega arith)

-- The top 8 has 9 of its own second hash and the small child 4.
abbrev three : Store
three p =
    if p == 8
    then node 4 0 0 9 50 5
    else if p == 9
    then node 0 0 8 0 50 5
    else if p == 4
    then node 0 0 8 0 30 3
    else node 0 0 0 0 0 0

abbrev three_in_all : CkIndex
three_in_all = record { element_count = 3; element_list = 8 }

three_holds : Holds three 8 5 (8 ∷ 9 ∷ [])
three_holds = record {
  depth = 0;
  head = 8;
  finds = finds_here (λ e. omega arith) refl;
  chain = chain_more (λ e. omega arith) refl (chain_more (λ e. omega arith) refl chain_end);
}

-- The key is that of the element 9.
abbrev is_nine : ℕ → Bool
is_nine p = p == 9

take_off_element-stale_example :
    (h1 : Store) × (h2 : Store) × (ck1 : CkIndex) × (take_off_element 1 three three_in_all 8
      ≡ some (true, h1, ck1))
    × (take_off_element 1 h1 ck1 4 ≡ some (true, h2, ck1))
    × (ck1.element_list ≡ 9)
    × ((h2 9).small ≡ 4)
take_off_element-stale_example =
    take_off_element-stale 1 three three_in_all 8 9 4 (λ e. omega arith) (λ e. omega arith)
      (λ e. omega arith) (λ e. omega arith) (λ e. omega arith) (λ e. omega arith) refl (omega arith)
      refl refl refl refl (record { small_none = refl; big_none = refl; same_none = refl })
