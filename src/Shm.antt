-- ===== src/Shm.antt =====
-- The operations on keys of lib/k2hshm.cc, above the trees of elements: the store is the list of its
-- keys with what the pages of each element hold. The keys keep no history (`IsMarkHistory` is
-- false), the areas are attached, and an allocation of memory succeeds.
pub mod Items
pub mod Removal
pub mod Writes
pub mod Overwrite
use k2hash.Base.{
  ℕ, zero, suc, Bool, true, false, Option, none, some, List, [], ◌∷◌, ◌||◌, if◌then◌else◌, length,
  get_elem?,
}
use k2hash.Bytes.{Bytes}
use k2hash.SubKeys
use k2hash.SubKeys.{SubKeys}
use k2hash.Attrs.{Attrs}
use k2hash.Util.{is_same}

-- What an element points to; an empty list is a page list that is not there.
pub record Item : Type 0 where
  pub value : Bytes
  pub subkeys : SubKeys
  pub attrs : Attrs

abbrev pub Db : Type 0
Db = List (Bytes × Item)

-- `GetElement(byKey, length, ...)`
unfoldable pub get_item : Db → Bytes → Option Item
get_item [] key = none
get_item ((k, i) ∷ db) key = if is_same k key then some i else get_item db key

-- `TakeOffElement` and `FreeElement` of the element of a key.
unfoldable pub drop_item : Bytes → Db → Db
drop_item key [] = []
drop_item key ((k, i) ∷ db) =
    let rest = drop_item key db in if is_same k key then rest else (k, i) ∷ rest

-- `InsertElement`, and `ReplacePage` of an element that is there.
unfoldable pub put_item : Bytes → Item → Db → Db
put_item key item db = (key, item) ∷ drop_item key db

-- `K2hAttrOpsMan::ATTRINITTYPE`
pub data AttrInit : Type 0 where
  mask_normal : AttrInit
  mask_his_expirekp : AttrInit
  mask_all_not_expirekp : AttrInit
  mask_all : AttrInit

-- What a caller of `Set` gives besides the data.
pub record Request : Type 0 where
  pub encpass : Option Bytes
  pub expire : Option ℕ
  pub attrtype : AttrInit

-- The manager of attributes (lib/k2hattropsman.cc) as the store uses it, and the areas of the file.
pub record Host : Type 0 where
  -- `Initialize`, `UpdateAttr` and `GetValue`; `none` is a failure.
  pub update : Request → (key value : Bytes) → Attrs → Option (Attrs × Bytes)
  pub is_expire : Attrs → Bool
  pub is_history : Attrs → Bool
  pub is_value_encrypted : Attrs → Bool
  pub get_decrypt_value : Attrs → Option Bytes → Bytes → Option Bytes
  -- `AllocateElement` finds an element and pages, or makes room for them.
  pub allocate_element : Db → Bool
  -- `CheckExpandingKeyArea`
  pub check_expanding_key_area : Db → Bool

-- A buffer that is NULL where nothing was read.
abbrev pub or_null : Bytes → Option Bytes
or_null [] = none
or_null (b ∷ bs) = some (b ∷ bs)

-- The loop over a list of subkeys in `RemoveSubkeys` and `RemoveEx`.
unfoldable pub remove_each : (Bytes → Db → Db) → List Bytes → Db → Db
remove_each remove [] db = db
remove_each remove (k ∷ ks) db = remove_each remove ks (remove k db)

-- `RemoveEx(byKey, keylength, ptranslist, ...)`, on fuel: a key with all that is under it.
unfoldable pub remove_tree : ℕ → Bytes → Db → Db
remove_tree zero key db = db
remove_tree (suc n) key db = elim (get_item db key) [
  | none ↦ db
  | some i ↦ remove_each (remove_tree n) i.subkeys (drop_item key db)
]

-- `RemoveSubkeys`; there are no more levels than keys.
unfoldable pub remove_subkeys : SubKeys → Db → Db
remove_subkeys subkeys db = remove_each (λ k d. remove_tree (length d) k d) subkeys db

-- `RemoveEx(byKey, keylength, isSubKeys, pSubKeys, ...)`: the subkeys it keeps, and the store.
unfoldable pub remove_ex : Bytes → (is_subkeys : Bool) → Db → SubKeys × Db
remove_ex key is_subkeys db = elim (get_item db key) [
  | none ↦ ([], db)
  | some i ↦ (if is_subkeys then i.subkeys else [], drop_item key db)
]

-- `Remove(byKey, keylength, isSubKeys, ...)`
unfoldable pub remove : Bytes → (is_subkeys : Bool) → Db → Bool × Db
remove [] is_subkeys db = (false, db)
remove (b ∷ bs) is_subkeys db =
    let (subkeys, db1) = remove_ex (b ∷ bs) is_subkeys db in (true, remove_subkeys subkeys db1)

-- The removing list of `Set` without the new subkeys.
unfoldable pub retrieve : SubKeys → SubKeys → SubKeys
retrieve [] removed = removed
retrieve (k ∷ ks) removed = retrieve ks (SubKeys.erase removed (some k)).1

module _ (h : Host) where
  abbrev is_hidden : Item → Bool
  is_hidden i = elim i.attrs [
    | [] ↦ false
    | a ∷ rest ↦ h.is_expire (a ∷ rest) || h.is_history (a ∷ rest)
  ]

  abbrev decrypted : Item → Option Bytes → Option Bytes
  decrypted i encpass = elim i.value [
    | [] ↦ none
    | b ∷ bs ↦ elim i.attrs [
      | [] ↦ some (b ∷ bs)
      | a ∷ rest ↦
          if h.is_value_encrypted (a ∷ rest)
          then h.get_decrypt_value (a ∷ rest) encpass (b ∷ bs)
          else some (b ∷ bs)
    ]
  ]

  -- `Get` once the element is found, or not; `none` is -1.
  abbrev pub get_from : Option Item → (checkattr : Bool) → (encpass : Option Bytes) → Option Bytes
  get_from none checkattr encpass = none
  get_from (some i) checkattr encpass =
      if checkattr then (if is_hidden i then none else decrypted i encpass) else or_null i.value

  -- `Get(byKey, length, byValue, checkattr, encpass)`
  unfoldable pub get : Db → Bytes → (checkattr : Bool) → (encpass : Option Bytes) → Option Bytes
  get db key checkattr encpass = get_from (get_item db key) checkattr encpass

  -- `GetSubKeys(byKey, length, checkattr)`, where an empty list is NULL.
  unfoldable pub get_subkeys : Db → Bytes → (checkattr : Bool) → SubKeys
  get_subkeys db key checkattr = elim (get_item db key) [
    | none ↦ []
    | some i ↦ if checkattr then (if is_hidden i then [] else i.subkeys) else i.subkeys
  ]

  -- The new element of `Set`, once the old one is away.
  unfoldable pub make_element :
      Request → (key value : Bytes) → (subkeys removed : SubKeys) → Attrs → Db → Bool × Db
  make_element r key value subkeys removed attrs db = elim (h.update r key value attrs) [
    | none ↦ (false, db)
    | some (attrs', value') ↦
        if h.allocate_element db
        then (let item : Item = record { value = value'; subkeys = subkeys; attrs = attrs' } in
            let db' = remove_subkeys removed (put_item key item db) in
            (h.check_expanding_key_area db', db'))
        else (false, db)
  ]

  -- `Set(byKey, keylength, byValue, vallength, pSubKeys, isRemoveSubKeys, pAttrs, ...)`
  unfoldable pub set :
      Request → (key value : Bytes) → SubKeys → (is_remove_subkeys : Bool) → Attrs → Db → Bool × Db
  set r [] value subkeys is_remove_subkeys attrs db = (false, db)
  set r (b ∷ bs) value subkeys is_remove_subkeys attrs db =
      let (removed, db1) = remove_ex (b ∷ bs) is_remove_subkeys db in
      make_element r (b ∷ bs) value subkeys (retrieve subkeys removed) attrs db1

  abbrev pub normal : Request
  normal = record { encpass = none; expire = none; attrtype = mask_normal }

  -- `ReplaceSubkeys`
  unfoldable pub replace_subkeys : Bytes → SubKeys → Db → Bool × Db
  replace_subkeys [] subkeys db = (false, db)
  replace_subkeys (b ∷ bs) subkeys db = elim (get_item db (b ∷ bs)) [
    | none ↦ set normal (b ∷ bs) [] subkeys false [] db
    | some i ↦ (true, put_item (b ∷ bs) (record i { subkeys = subkeys }) db)
  ]

  -- `AddSubkey`: the subkey with its value, then the list of its parent.
  unfoldable pub add_subkey : Request → (key subkey value : Bytes) → Db → Bool × Db
  add_subkey r key subkey value db =
      let (ok, db1) = set r subkey value [] false [] db in
      if ok
      then (let subkeys =
            (SubKeys.insert (λ _. true) (get_subkeys db1 key true) (or_null subkey)).0 in
          replace_subkeys key subkeys db1)
      else (false, db1)
