-- ===== src/History.antt =====
-- The keys of lib/k2hshm.cc for the history of a key: the key, a NUL, and the id of the change as a C
-- string.
pub mod Trip
use k2hash.Base.{
  ℕ, zero, suc, ◌+◌, ◌-◌, Bool, true, false, Option, none, some, List, [], ◌∷◌, ◌++◌, ◌==◌, ltb,
  if◌then◌else◌, length, get_elem?, take, drop,
}
use k2hash.Bytes.{Bytes}

-- `MakeHistoryKey`; `base` and `uniqid` are empty where the source has NULL or no length. `malloc`
-- tells whether there is memory.
unfoldable pub make_history_key : (malloc : Bool) → (base uniqid : Bytes) → Option Bytes
make_history_key malloc [] uniqid = none
make_history_key malloc (b ∷ base) [] = none
make_history_key false (b ∷ base) (u ∷ uniqid) = none
make_history_key true (b ∷ base) (u ∷ uniqid) =
    some ((b ∷ base) ++ (0 ∷ ((u ∷ uniqid) ++ (0 ∷ []))))

-- Whether the byte at a place is a NUL.
unfoldable pub is_nul : Bytes → ℕ → Bool
is_nul key i = elim (get_elem? key i) [ none ↦ false | some b ↦ b == 0 ]

-- The loop of `ParseHistoryKey` from a place down; it stops at a NUL or at the start.
unfoldable pub separator_loop : Bytes → ℕ → ℕ
unfolding is_nul
separator_loop key zero = zero
separator_loop key (suc i) =
    let rest = separator_loop key i in if is_nul key (suc i) then suc i else rest

-- The C string that starts a memory.
unfoldable pub c_string : Bytes → Bytes
c_string [] = []
c_string (b ∷ bs) = if b == 0 then [] else b ∷ c_string bs

-- `ParseHistoryKey`: the base key and the id. A separator at the start means a wrong format.
unfoldable pub parse_history_key : (malloc : Bool) → Bytes → Option (Bytes × Bytes)
parse_history_key malloc [] = none
parse_history_key malloc (b ∷ bs) =
    let key = b ∷ bs in
    let separator = separator_loop key (length key - 2) in
    if is_nul key (length key - 1)
    then (if separator == 0
        then none
        else if malloc
        then some (take separator key, c_string (drop (separator + 1) key))
        else none)
    else none
