-- ===== src/Util.antt =====
-- Byte strings and string arrays of lib/k2hutil.cc. A pointer and its length are one list; NULL or a
-- length of 0 is the empty one.
pub mod Names
use k2hash.Base.{
  ℕ, zero, suc, ◌+◌, Bool, true, false, Option, none, some, List, [], ◌∷◌, ◌++◌, Ordering, is_eq,
}
use k2hash.Bytes.{Bytes, compare_bytes}

-- `k2hbincmp`
unfoldable pub bincmp : Bytes → Bytes → Ordering
bincmp [] [] = Ordering.eq
bincmp [] (y ∷ b) = Ordering.lt
bincmp (x ∷ a) [] = Ordering.gt
bincmp (x ∷ a) (y ∷ b) = compare_bytes (x ∷ a) (y ∷ b)

-- `0 == k2hbincmp(a, b)`
unfoldable pub is_same : Bytes → Bytes → Bool
is_same a b = is_eq (bincmp a b)

-- `k2hbinappend`, where there is memory.
unfoldable pub binappend : Bytes → Bytes → Bytes
binappend [] b = b
binappend (x ∷ a) b = (x ∷ a) ++ b

-- `k2hbinappendstr`: a string comes with its terminator.
unfoldable pub binappendstr : Bytes → Option Bytes → Bytes
binappendstr a none = binappend a []
binappendstr a (some text) = binappend a (text ++ 0 ∷ [])
