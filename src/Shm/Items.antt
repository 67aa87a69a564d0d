-- ===== src/Shm/Items.antt =====
-- Reading the item of a key after a change of one key.
use k2hash.Base.{
  ◌≡◌, ◌≢◌, refl, ap, sym, ◌∙◌, false, Option, none, some, Bool-cases, inl, inr, [], ◌∷◌,
  if◌then◌else◌, length, ◌≤◌, ◌<◌, arith,
}
use k2hash.Bytes.{Bytes}
use k2hash.Util.{is_same}
use k2hash.Util.Names.{is_same_refl, is_same→eq, ne→is_same}
use k2hash.Shm.{Item, Db, get_item, drop_item, put_item}

pub get_item-drop_item : (key : Bytes) (db : Db) → get_item (drop_item key db) key ≡ none
unfolding get_item drop_item
get_item-drop_item key [] = refl
get_item-drop_item key ((k, i) ∷ db) = elim (Bool-cases (is_same k key)) [
  | inl e ↦ rw e (get_item-drop_item key db)
  | inr e ↦ rw (e, get_item, e) (get_item-drop_item key db)
]

pub get_item-drop_item_other :
    (key other : Bytes) (db : Db)
    → key ≢ other
    → get_item (drop_item key db) other ≡ get_item db other
unfolding get_item drop_item
get_item-drop_item_other key other [] h = refl
get_item-drop_item_other key other ((k, i) ∷ db) h = elim (Bool-cases (is_same k key)) [
  | inl e ↦
      let f : is_same k other ≡ false =
        ne→is_same k other (λ g. h (sym (is_same→eq k key e) ∙ g)) in
      rw (e, f) (get_item-drop_item_other key other db h)
  | inr e ↦
      rw (e, get_item)
        (ap (λ (t : Option Item). if is_same k other then some i else t)
          (get_item-drop_item_other key other db h))
]

pub get_item-put_item :
    (key : Bytes) (i : Item) (db : Db) → get_item (put_item key i db) key ≡ some i
unfolding put_item get_item
get_item-put_item key i db = rw (is_same_refl key) refl

pub get_item-put_item_other :
    (key other : Bytes) (i : Item) (db : Db)
    → key ≢ other
    → get_item (put_item key i db) other ≡ get_item db other
unfolding put_item get_item
get_item-put_item_other key other i db h =
    rw (get_item, ne→is_same key other h) (get_item-drop_item_other key other db h)

pub length-drop_item : (key : Bytes) (db : Db) → length (drop_item key db) ≤ length db
unfolding drop_item
length-drop_item key [] = omega arith
length-drop_item key ((k, i) ∷ db) = ground (arith, length-drop_item key db)

pub length-drop_item_lt :
    (key : Bytes) (i : Item) (db : Db)
    → get_item db key ≡ some i
    → length (drop_item key db) < length db
unfolding drop_item get_item
length-drop_item_lt key i [] h = ground arith
length-drop_item_lt key i ((k, j) ∷ db) h = elim (Bool-cases (is_same k key)) [
  | inl e ↦ rw e (omega (arith, length-drop_item key db))
  | inr e ↦ rw e (omega (arith, length-drop_item_lt key i db (rw (← h, get_item, e) refl)))
]
