-- ===== src/Shm/Removal.antt =====
-- Which keys are left once a key is removed with its subkeys.
use k2hash.Base.{
  ℕ, zero, suc, ◌≤◌, ◌≡◌, ◌⊎◌, refl, ap, sym, ◌∙◌, true, none, some, Option-cases, inl, inr, List,
  [], ◌∷◌, length, get_elem?, arith,
}
use k2hash.Bytes.{Bytes}
use k2hash.Util.Names.{Bytes-cases}
use k2hash.Shm.{
  Item, Db, get_item, drop_item, remove_each, remove_tree, remove_subkeys, remove_ex, remove,
}
use k2hash.Shm.Items.{
  get_item-drop_item, get_item-drop_item_other, length-drop_item, length-drop_item_lt,
}

-- `x` is reached from `key` over the subkeys of keys that are in the store.
pub data Under (db : Db) (key : Bytes) : Bytes → Type 0 where
  top : Under db key key
  down :
      {x s : Bytes} (i : Item) (j : ℕ)
      → Under db key x
      → get_item db x ≡ some i
      → get_elem? i.subkeys j ≡ some s
      → Under db key s

-- `db'` is `db` without some keys that are all under one of `keys`, and what is under them.
record IsCut (keys : List Bytes) (db db' : Db) : Type 0 where
  kept :
      (x : Bytes)
      → (get_item db' x ≡ get_item db x)
        ⊎ ((get_item db' x ≡ none)
            × (j : ℕ) × (k : Bytes) × (get_elem? keys j ≡ some k)
            × Under db k x)
  closed :
      (x s : Bytes) (i : Item) (j : ℕ)
      → get_item db x ≡ some i
      → get_item db' x ≡ none
      → get_elem? i.subkeys j ≡ some s
      → get_item db' s ≡ none
  gone : (j : ℕ) (k : Bytes) → get_elem? keys j ≡ some k → get_item db' k ≡ none
  fewer : length db' ≤ length db

-- What is not in `db` is not in `db'`.
IsCut-none :
    {keys : List Bytes} {db db' : Db} (x : Bytes)
    → IsCut keys db db'
    → get_item db x ≡ none
    → get_item db' x ≡ none
IsCut-none x c e = elim (c.kept x) [ inl f ↦ f ∙ e | inr f ↦ f.0 ]

Under-trans : {db : Db} {a b c : Bytes} → Under db a b → Under db b c → Under db a c
Under-trans u top = u
Under-trans u (down i j v e f) = down i j (Under-trans u v) e f

-- A path in the smaller store is one in the larger.
Under-smaller :
    {db db' : Db} {k x : Bytes}
    → ((y : Bytes) (i : Item) → get_item db' y ≡ some i → get_item db y ≡ some i)
    → Under db' k x
    → Under db k x
Under-smaller h top = top
Under-smaller h (down {x} i j u e f) = down i j (Under-smaller h u) (h x i e) f

IsCut-some :
    {keys : List Bytes} {db db' : Db} (x : Bytes) (i : Item)
    → IsCut keys db db'
    → get_item db' x ≡ some i
    → get_item db x ≡ some i
IsCut-some x i c e = elim (c.kept x) [ inl f ↦ sym f ∙ e | inr f ↦ cc ]

IsCut-refl : (db : Db) → IsCut [] db db
IsCut-refl db = record {
  kept = λ x. inl refl;
  closed = λ x s i j e f g. cc;
  gone = λ j k e. cc;
  fewer = omega arith;
}

gone_cons :
    {k : Bytes} {keys : List Bytes} {db db1 db2 : Db}
    → IsCut (k ∷ []) db db1
    → IsCut keys db1 db2
    → (j : ℕ) (k' : Bytes) → get_elem? (k ∷ keys) j ≡ some k'
    → get_item db2 k' ≡ none
gone_cons c d zero k' e = IsCut-none k' d (c.gone 0 k' e)
gone_cons c d (suc j) k' e = d.gone j k' e

IsCut-cons :
    {k : Bytes} {keys : List Bytes} {db db1 db2 : Db}
    → IsCut (k ∷ []) db db1
    → IsCut keys db1 db2
    → IsCut (k ∷ keys) db db2
IsCut-cons {k} {keys} {db} {db1} {db2} c d = record {
  kept = λ x. elim (d.kept x) [
    | inl e ↦ elim (c.kept x) [
      | inl f ↦ inl (e ∙ f)
      | inr (f, zero, k', l, u) ↦ inr (e ∙ f, 0, k', l, u)
      | inr (f, suc j, k', l, u) ↦ cc
    ]
    | inr (e, j, k', l, u) ↦ inr (e, suc j, k', l, Under-smaller (λ y i f. IsCut-some y i c f) u)
  ];
  closed = λ x s i j e f g. elim (c.kept x) [
    | inl e1 ↦ d.closed x s i j (e1 ∙ e) f g
    | inr lost ↦ IsCut-none s d (c.closed x s i j e lost.0 g)
  ];
  gone = gone_cons c d;
  fewer = omega (arith, c.fewer, d.fewer);
}

remove_each-IsCut :
    (f : Bytes → Db → Db) (n : ℕ)
    → ((k : Bytes) (d : Db) → length d ≤ n → IsCut (k ∷ []) d (f k d))
    → (ks : List Bytes) (db : Db) → length db ≤ n
    → IsCut ks db (remove_each f ks db)
unfolding remove_each
remove_each-IsCut f n h [] db few = IsCut-refl db
remove_each-IsCut f n h (k ∷ ks) db few =
    let c = h k db few in
    IsCut-cons c (remove_each-IsCut f n h ks (f k db) (omega (arith, c.fewer)))

drop_item-some :
    (key y : Bytes) (a : Item) (db : Db)
    → get_item (drop_item key db) y ≡ some a
    → get_item db y ≡ some a
drop_item-some key y a db f = elim (Bytes-cases key y) [
  | inl g ↦
      let away : get_item (drop_item key db) y ≡ none = rw (← g) (get_item-drop_item key db) in cc
  | inr g ↦ sym (get_item-drop_item_other key y db g) ∙ f
]

-- The only element of a list.
only : {a b : Bytes} (j : ℕ) → get_elem? (a ∷ []) j ≡ some b → a ≡ b
only zero e = cc
only (suc j) e = cc

-- A key that is taken away with all under its subkeys.
module _ (key : Bytes) (i : Item) (db db' : Db) (e : get_item db key ≡ some i)
    (c : IsCut i.subkeys (drop_item key db) db') where
  away : get_item db' key ≡ none
  away = IsCut-none key c (get_item-drop_item key db)

  absent : {x : Bytes} → key ≡ x → get_item db' x ≡ none
  absent g = rw (← g) away

  kept_step :
      (x : Bytes)
      → (get_item db' x ≡ get_item db x)
        ⊎ ((get_item db' x ≡ none)
            × (j : ℕ) × (k : Bytes) × (get_elem? (key ∷ []) j ≡ some k)
            × Under db k x)
  kept_step x = elim (Bytes-cases key x) [
    | inl g ↦ inr (absent g, 0, key, refl, rw (← g) top)
    | inr g ↦ elim (c.kept x) [
      | inl f ↦ inl (f ∙ get_item-drop_item_other key x db g)
      | inr (f, j, k, l, u) ↦ inr (
        f,
        0,
        key,
        refl,
        Under-trans (down i j top e l) (Under-smaller (λ y a. drop_item-some key y a db) u),
      )
    ]
  ]

  IsCut-step : IsCut (key ∷ []) db db'
  IsCut-step = record {
    kept = kept_step;
    closed = λ x s a j f g l. elim (Bytes-cases key x) [
      | inl same ↦
          let e' : get_item db key ≡ some a = ap (get_item db) same ∙ f in
          let as_one : i ≡ a = cc in c.gone j s (rw as_one l)
      | inr other ↦ c.closed x s a j (get_item-drop_item_other key x db other ∙ f) g l
    ];
    gone = λ j k f. absent (only j f);
    fewer = omega (arith, c.fewer, length-drop_item key db);
  }

IsCut-absent : {key : Bytes} {db : Db} → get_item db key ≡ none → IsCut (key ∷ []) db db
IsCut-absent e = record {
  kept = λ x. inl refl;
  closed = λ x s i j f g l. cc;
  gone = λ j k f. rw (← only j f) e;
  fewer = omega arith;
}

-- On fuel for as many levels as there are keys.
remove_tree-IsCut :
    (n : ℕ) (key : Bytes) (db : Db) → length db ≤ n → IsCut (key ∷ []) db (remove_tree n key db)
unfolding remove_tree get_item
remove_tree-IsCut zero key [] few = IsCut-absent refl
remove_tree-IsCut zero key (x ∷ db) few = absurd (omega arith)
remove_tree-IsCut (suc n) key db few = elim (Option-cases (get_item db key)) [
  | inl e ↦ rw (remove_tree, e) (IsCut-absent e)
  | inr (i, e) ↦
      rw (remove_tree, e)
        (IsCut-step key i db _ e (
          remove_each-IsCut (remove_tree n) n (λ k d m. remove_tree-IsCut n k d m) i.subkeys
            (drop_item key db) (omega (arith, length-drop_item_lt key i db e, few))))
]

-- `remove_subkeys` gives each key fuel for the store as it then is.
remove_subkeys-IsCut : (ks : List Bytes) (db : Db) → IsCut ks db (remove_subkeys ks db)
unfolding remove_subkeys
remove_subkeys-IsCut ks db =
    remove_each-IsCut (λ k d. remove_tree (length d) k d) (length db)
      (λ k d m. remove_tree-IsCut (length d) k d (omega arith)) ks db (omega arith)

gone-Under :
    {key : Bytes} {db db' : Db}
    → IsCut (key ∷ []) db db'
    → (x : Bytes) → Under db key x
    → get_item db' x ≡ none
gone-Under c _ top = c.gone 0 _ refl
gone-Under c x (down i j u e f) = c.closed _ x i j e (gone-Under c _ u) f

pub remove_subkeys-nil : (db : Db) → remove_subkeys [] db ≡ db
unfolding remove_subkeys remove_each
remove_subkeys-nil db = refl

remove-IsCut :
    (b : ℕ) (bs : Bytes) (db : Db)
    → (db' : Db) × (remove (b ∷ bs) true db ≡ (true, db')) × IsCut ((b ∷ bs) ∷ []) db db'
unfolding remove remove_ex
remove-IsCut b bs db = elim (Option-cases (get_item db (b ∷ bs))) [
  | inl e ↦
      (db, rw (remove_ex, e) (ap (λ (d : Db). (true, d)) (remove_subkeys-nil db)), IsCut-absent e)
  | inr (i, e) ↦
      let rest = remove_subkeys i.subkeys (drop_item (b ∷ bs) db) in
      (
        rest,
        rw (remove_ex, e) refl,
        IsCut-step (b ∷ bs) i db rest e (remove_subkeys-IsCut i.subkeys (drop_item (b ∷ bs) db)),
      )
]

-- `Remove` of a key that is not empty with its subkeys succeeds. No key that is reached from it
-- over subkeys is left, and every other key is as it was.
pub remove-Under :
    (b : ℕ) (bs : Bytes) (db : Db)
    → (db' : Db) × (remove (b ∷ bs) true db ≡ (true, db'))
      × ((x : Bytes) → Under db (b ∷ bs) x → get_item db' x ≡ none)
      × ((x : Bytes)
          → (get_item db' x ≡ get_item db x) ⊎ ((get_item db' x ≡ none) × Under db (b ∷ bs) x))
remove-Under b bs db =
    let (db', run, c) = remove-IsCut b bs db in
    (
      db',
      run,
      gone-Under c,
      λ x. elim (c.kept x) [ inl e ↦ inl e | inr (e, j, k, l, u) ↦ inr (e, rw (only j l) u) ],
    )

-- None of the subkeys that are removed is left.
pub remove_subkeys-gone :
    (ks : List Bytes) (db : Db) (j : ℕ) (k : Bytes)
    → get_elem? ks j ≡ some k
    → get_item (remove_subkeys ks db) k ≡ none
remove_subkeys-gone ks db j k e = (remove_subkeys-IsCut ks db).gone j k e
