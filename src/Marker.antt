-- ===== src/Marker.antt =====
-- The marker of a queue (lib/k2hshmque.cc): where the keys of its first and last element stand in one
-- block of memory, behind their lengths and offsets.
pub mod Keys
pub mod Block
use k2hash.Base.{
  ℕ, zero, suc, ◌+◌, ◌-◌, ◌*◌, Bool, true, false, Option, none, some, List, [], ◌∷◌, ◌++◌, ◌==◌,
  if◌then◌else◌, length, take, drop,
}
use k2hash.Bytes.{Bytes}

-- `sizeof(K2HMARKER)`: two lengths and two offsets.
abbrev pub marker_size : ℕ
marker_size = 32

-- `BK2HMARKER`; `body` is the memory behind the four fields.
pub record K2hMarker : Type 0 where
  pub startlen : ℕ
  pub startoff : ℕ
  pub endlen : ℕ
  pub endoff : ℕ
  pub body : Bytes

-- The bytes at an offset of the block.
abbrev pub bytes_at : K2hMarker → (off len : ℕ) → Bytes
bytes_at m off len = take len (drop (off - marker_size) m.body)

-- `InitK2HMarker`; an empty list is a key that is not given. `malloc` tells whether there is memory.
unfoldable pub init_k2h_marker : (malloc : Bool) → (start end : Bytes) → Option K2hMarker
init_k2h_marker malloc start end =
    let last : Bytes = elim end [ [] ↦ start | b ∷ bs ↦ b ∷ bs ] in
    if malloc
    then some (record {
      startlen = length start;
      startoff = marker_size;
      endlen = length last;
      endoff = marker_size + length start;
      body = start ++ last;
    })
    else none

-- The branch of `UpdateK2HMarker` for a marker that has both keys.
unfoldable pub replace_key : K2hMarker → Bytes → (is_end : Bool) → K2hMarker
replace_key m key is_end =
    let startlen = if is_end then m.startlen else length key in
    let endlen = if is_end then length key else m.endlen in
    let start : Bytes = if is_end then bytes_at m m.startoff startlen else take startlen key in
    let last : Bytes = if is_end then take endlen key else bytes_at m m.endoff endlen in
    record {
      startlen = startlen;
      startoff = marker_size;
      endlen = endlen;
      endoff = marker_size + startlen;
      body = start ++ last;
    }

-- `UpdateK2HMarker`
unfoldable pub update_k2h_marker :
    (malloc : Bool) → K2hMarker → Bytes → (is_end : Bool) → Option K2hMarker
update_k2h_marker malloc m key is_end =
    if (if m.startlen == 0 then m.endlen == 0 else false)
    then (if malloc
        then some (record {
          startlen = length key;
          startoff = marker_size;
          endlen = length key;
          endoff = marker_size + length key;
          body = take (length key) key ++ take (length key) key;
        })
        else none)
    else if (if is_end then m.startlen == 0 else m.endlen == 0)
    then init_k2h_marker malloc key []
    else if malloc
    then some (replace_key m key is_end)
    else none

-- `IsEmptyK2HMarker`, for a marker that is there.
unfoldable pub is_empty_k2h_marker : K2hMarker → Bool
is_empty_k2h_marker m = m.startlen == 0
