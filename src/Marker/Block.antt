-- ===== src/Marker/Block.antt =====
-- The marker of a queue as the bytes that the store keeps: its four fields, then the keys.
use k2hash.Base.{◌+◌, Option, none, some, ◌++◌, ◌==◌, if◌then◌else◌, length, drop}
use k2hash.Bytes.{Bytes, put_size, get_size}
use k2hash.Marker.{K2hMarker, marker_size, bytes_at, is_empty_k2h_marker}

-- The memory of `BK2HMARKER`.
unfoldable pub to_block : K2hMarker → Bytes
to_block m =
    put_size m.startlen
    ++ (put_size m.startoff ++ (put_size m.endlen ++ (put_size m.endoff ++ m.body)))

-- The cast of a value to `PBK2HMARKER`; `none` is a value that is shorter than the four fields.
unfoldable pub of_block : Bytes → Option K2hMarker
of_block v = elim (get_size v) [
  | none ↦ none
  | some startlen ↦ elim (get_size (drop 8 v)) [
    | none ↦ none
    | some startoff ↦ elim (get_size (drop 16 v)) [
      | none ↦ none
      | some endlen ↦ elim (get_size (drop 24 v)) [
        | none ↦ none
        | some endoff ↦ some (record {
          startlen = startlen;
          startoff = startoff;
          endlen = endlen;
          endoff = endoff;
          body = drop 32 v;
        })
      ]
    ]
  ]
]

-- The tests that follow every read of a marker: it is not empty, and its size is the computed one.
unfoldable pub checked_marker : Bytes → Option K2hMarker
checked_marker v = elim (of_block v) [
  | none ↦ none
  | some m ↦
      if is_empty_k2h_marker m
      then none
      else if length v == marker_size + m.startlen + m.endlen
      then some m
      else none
]

abbrev pub start_key : K2hMarker → Bytes
start_key m = bytes_at m m.startoff m.startlen

abbrev pub end_key : K2hMarker → Bytes
end_key m = bytes_at m m.endoff m.endlen
