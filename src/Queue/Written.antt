-- ===== src/Queue/Written.antt =====
-- A marker that is written is read again.
use k2hash.Base.{
  ℕ, suc, ◌+◌, ◌^◌, ◌<◌, ◌≡◌, ◌≢◌, refl, ap, ◌∙◌, true, false, Option, none, some, [], ◌∷◌, ◌++◌,
  ◌==◌, ==_refl, if◌then◌else◌, length, drop, drop-drop, length-append, arith,
}
use k2hash.Bytes.{Bytes, put_size, get_size}
use k2hash.Bytes.Word.{length-encode, get_size-put_size, drop-encode}
use k2hash.Marker.{K2hMarker, marker_size, is_empty_k2h_marker}
use k2hash.Marker.Keys.{HasKeys}
use k2hash.Marker.Block.{to_block, of_block, checked_marker}
use k2hash.Shm.{Item, Db, Host, get_item}
use k2hash.Shm.Writes.{HasRoom, IsWritten, set-IsWritten}
use k2hash.Queue.{get_marker, marker_request, put_marker}

-- A host with room, whose attribute manager leaves a value alone when all attributes are masked.
pub record Works (h : Host) : Type 0 where
  pub room : HasRoom h
  pub plain : (key value : Bytes) → h.update marker_request key value [] ≡ some ([], value)

of_block_fields :
    (v : Bytes) (a b c d : ℕ)
    → get_size v ≡ some a
    → get_size (drop 8 v) ≡ some b
    → get_size (drop 16 v) ≡ some c
    → get_size (drop 24 v) ≡ some d
    → of_block v
      ≡ some (record { startlen = a; startoff = b; endlen = c; endoff = d; body = drop 32 v })
unfolding of_block
of_block_fields v a b c d e f g h = rw (of_block, e, f, g, h) refl

-- The four fields in front of the bytes of the keys.
module _ (a b c d : ℕ) (s : Bytes) where
  abbrev block : Bytes
  block = put_size a ++ (put_size b ++ (put_size c ++ (put_size d ++ s)))

  drop_8 : drop 8 block ≡ put_size b ++ (put_size c ++ (put_size d ++ s))
  drop_8 = drop-encode 8 a _

  drop_16 : drop 16 block ≡ put_size c ++ (put_size d ++ s)
  drop_16 = drop-drop 8 8 16 block refl ∙ ap (drop 8) drop_8 ∙ drop-encode 8 b _

  drop_24 : drop 24 block ≡ put_size d ++ s
  drop_24 = drop-drop 16 8 24 block refl ∙ ap (drop 8) drop_16 ∙ drop-encode 8 c _

  drop_32 : drop 32 block ≡ s
  drop_32 = drop-drop 24 8 32 block refl ∙ ap (drop 8) drop_24 ∙ drop-encode 8 d s

  length-block : length block ≡ 32 + length s
  length-block = omega (
    arith,
    length-append (put_size a) (put_size b ++ (put_size c ++ (put_size d ++ s))),
    length-append (put_size b) (put_size c ++ (put_size d ++ s)),
    length-append (put_size c) (put_size d ++ s),
    length-append (put_size d) s,
    length-encode 8 a,
    length-encode 8 b,
    length-encode 8 c,
    length-encode 8 d,
  )

  of_block-block :
      a < 2 ^ 64
      → b < 2 ^ 64
      → c < 2 ^ 64
      → d < 2 ^ 64
      → of_block block
        ≡ some (record { startlen = a; startoff = b; endlen = c; endoff = d; body = s })
  of_block-block ha hb hc hd =
      of_block_fields block a b c d (get_size-put_size a _ ha)
        (ap get_size drop_8 ∙ get_size-put_size b _ hb)
        (ap get_size drop_16 ∙ get_size-put_size c _ hc)
        (ap get_size drop_24 ∙ get_size-put_size d _ hd)
      ∙ ap
          (λ (t : Bytes).
            some (record { startlen = a; startoff = b; endlen = c; endoff = d; body = t }))
          drop_32

eq→== : {a b : ℕ} → a ≡ b → (a == b) ≡ true
eq→== {a} e = rw (← e) (==_refl a)

pub checked_marker-to_block :
    (m : K2hMarker) (start last : Bytes)
    → HasKeys m start last
    → length start < 2 ^ 62
    → length last < 2 ^ 62
    → checked_marker (to_block m) ≡ (if is_empty_k2h_marker m then none else some m)
unfolding checked_marker to_block is_empty_k2h_marker
checked_marker-to_block m start last k hs hl =
    let read : of_block (to_block m) ≡ some m =
      of_block-block m.startlen m.startoff m.endlen m.endoff m.body (omega (arith, k.startlen))
        (omega (arith, k.startoff)) (omega (arith, k.endlen)) (omega (arith, k.endoff)) in
    let size : (length (to_block m) == marker_size + m.startlen + m.endlen) ≡ true = eq→== (
      omega (
        arith,
        length-block m.startlen m.startoff m.endlen m.endoff m.body,
        ap (λ (t : Bytes). length t) k.body,
        length-append start last,
        k.startlen,
        k.endlen,
      )) in
    rw (checked_marker, read, size) refl

-- The marker that `get_marker` finds after a marker of the keys `start` and `last` was put.
abbrev pub stored : Bytes → K2hMarker → Option K2hMarker
stored [] m = none
stored (b ∷ bs) m = some m

stored-is_empty :
    (m : K2hMarker) (start : Bytes)
    → m.startlen ≡ length start
    → ◌≡◌ {A = Option K2hMarker} (if is_empty_k2h_marker m then none else some m) (stored start m)
unfolding is_empty_k2h_marker
stored-is_empty m [] e = rw e refl
stored-is_empty m (b ∷ bs) e =
    let filled : (suc (length bs) == 0) ≡ false = ground arith in rw (e, filled) refl

-- The item of a marker.
abbrev pub marker_item : K2hMarker → Item
marker_item m = record { value = to_block m; subkeys = []; attrs = [] }

module _ (h : Host) (works : Works h) (mark : Bytes) where
  pub put_marker-IsWritten :
      (m : K2hMarker) (start last : Bytes) (db : Db)
      → mark ≢ []
      → ((i : Item) → get_item db mark ≡ some i → i.subkeys ≡ [])
      → HasKeys m start last
      → length start < 2 ^ 62
      → length last < 2 ^ 62
      → (db' : Db) × (put_marker h mark m db ≡ (true, db'))
        × IsWritten mark (marker_item m) db db'
        × (get_marker db' mark ≡ stored start m)
  unfolding put_marker get_marker
  put_marker-IsWritten m start last db name bare k hs hl =
      let (db', run, done) =
        set-IsWritten h works.room marker_request (to_block m) [] mark true [] db [] (to_block m)
          name bare (works.plain mark (to_block m)) in
      (
        db',
        run,
        done,
        rw (get_marker, done.here)
            (checked_marker-to_block m start last k hs hl ∙ stored-is_empty m start k.startlen),
      )
