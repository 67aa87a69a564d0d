-- ===== src/Tests/Attributes.antt =====
-- The attributes of lib/k2hattrs.cc at concrete values.
use k2hash.Base.{ℕ, ◌≡◌, refl, inl, inr, Bool, true, Option, none, some, [], ◌∷◌, ◌++◌, arith}
use k2hash.Bytes.{Bytes, put_size}
use k2hash.Bytes.Order.{lex}
use k2hash.Attrs.{attr, Attrs, insert, erase, save, load}
use k2hash.Attrs.Map.{IsValid, Added, Dropped, insert-Added, erase-Dropped}
use k2hash.Attrs.Stored.{load-save_attrs}
use k2hash.Attrs.Untrusted.{load_wrapped}

-- Memory for everything.
abbrev room : ℕ → Bool
room n = true

-- One name with a value, one without.
abbrev two_attrs : Attrs
two_attrs = attr (1 ∷ []) (8 ∷ 8 ∷ []) ∷ attr (2 ∷ []) [] ∷ []

two_attrs-IsValid : IsValid two_attrs
unfolding lex
two_attrs-IsValid = record {
  sorted = ((refl, tt), (tt, tt));
  named = (omega arith, (omega arith, tt));
}

insert-Added_example :
    Added room two_attrs (2 ∷ []) (3 ∷ []) (insert room two_attrs (some (2 ∷ [])) (3 ∷ []))
insert-Added_example =
    insert-Added room two_attrs (2 ∷ []) (3 ∷ []) two_attrs-IsValid (omega arith) (refl, inr refl)

erase-Dropped_example : Dropped two_attrs (1 ∷ []) (erase two_attrs (some (1 ∷ [])))
erase-Dropped_example = erase-Dropped two_attrs (1 ∷ []) two_attrs-IsValid (omega arith)

load-save_attrs_example :
    (b : Option Bytes) × (save room two_attrs ≡ some b) × (load room b ≡ some two_attrs)
load-save_attrs_example =
    load-save_attrs room two_attrs two_attrs-IsValid (omega arith, (omega arith, tt)) (omega arith)
      ((refl, inr refl), ((refl, inl refl), tt)) refl

-- A buffer that was cut short: the count, and nothing behind it.
abbrev cut_short : Bytes
cut_short = 1 ∷ 0 ∷ 0 ∷ 0 ∷ 0 ∷ 0 ∷ 0 ∷ 0 ∷ []

load_wrapped_example :
    load room (some (put_size 1 ++ (put_size 18446744073709551600 ++ (put_size 0 ++ [])))) ≡ none
load_wrapped_example =
    load_wrapped room 0 18446744073709551600 0 [] (omega arith) (omega arith) (omega arith)
      (omega arith) (omega arith) refl
