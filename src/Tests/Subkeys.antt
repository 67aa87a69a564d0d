-- ===== src/Tests/Subkeys.antt =====
-- The subkeys of lib/k2hsubkeys.cc at concrete values.
use k2hash.Base.{ℕ, ◌≡◌, refl, Bool, true, Option, some, [], ◌∷◌, ◌++◌, arith}
use k2hash.Bytes.{Bytes, put_size}
use k2hash.Bytes.Order.{lex}
use k2hash.SubKeys.{SubKeys, insert, erase, save, load, fault, loaded}
use k2hash.SubKeys.Map.{IsValid, Inserted, Erased, insert-Inserted, erase-Erased}
use k2hash.SubKeys.Stored.{load-save}
use k2hash.SubKeys.Truncated.{load_overread}

-- Memory for everything.
abbrev room : ℕ → Bool
room n = true

abbrev two_keys : SubKeys
two_keys = (1 ∷ 2 ∷ []) ∷ (9 ∷ []) ∷ []

two_keys-IsValid : IsValid two_keys
unfolding lex
two_keys-IsValid = record {
  sorted = ((refl, tt), (tt, tt));
  filled = (omega arith, (omega arith, tt));
}

insert-Inserted_example : Inserted room two_keys (7 ∷ []) (insert room two_keys (some (7 ∷ [])))
insert-Inserted_example = insert-Inserted room two_keys (7 ∷ []) two_keys-IsValid (omega arith) refl

erase-Erased_example : Erased two_keys (9 ∷ []) (erase two_keys (some (9 ∷ [])))
erase-Erased_example = erase-Erased two_keys (9 ∷ []) two_keys-IsValid (omega arith)

load-save_example :
    (b : Option Bytes) × (save room two_keys ≡ some b) × (load room b ≡ loaded true two_keys)
load-save_example =
    load-save room two_keys two_keys-IsValid (omega arith, (omega arith, tt)) (omega arith)
      (refl, (refl, tt)) refl

load_overread_example : load room (some (put_size 1 ++ (put_size 3 ++ (5 ∷ 6 ∷ [])))) ≡ fault
load_overread_example =
    load_overread room 0 3 (5 ∷ 6 ∷ []) (omega arith) (omega arith) (omega arith) (omega arith) refl
