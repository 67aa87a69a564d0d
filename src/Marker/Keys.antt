-- ===== src/Marker/Keys.antt =====
-- What the keys of a marker are after each operation.
use k2hash.Base.{
  ◌+◌, ◌-◌, ◌≡◌, ◌≢◌, refl, sym, ap, ◌∙◌, Bool, true, false, Bool-cases, inl, inr, some, [], ◌∷◌,
  ◌++◌, ◌==◌, if◌then◌else◌, length, take, take-append, drop-append, append-nil, arith, ne→==,
}
use k2hash.Bytes.{Bytes}
use k2hash.Marker.{
  K2hMarker, marker_size, bytes_at, init_k2h_marker, replace_key, update_k2h_marker,
  is_empty_k2h_marker,
}

-- A marker whose block holds exactly the keys `start` and `last`.
pub record HasKeys (m : K2hMarker) (start last : Bytes) : Type 0 where
  pub startlen : m.startlen ≡ length start
  pub startoff : m.startoff ≡ marker_size
  pub endlen : m.endlen ≡ length last
  pub endoff : m.endoff ≡ marker_size + length start
  pub body : m.body ≡ start ++ last

take_all : (xs : Bytes) → take (length xs) xs ≡ xs
take_all xs = ap (take (length xs)) (sym (append-nil xs)) ∙ take-append xs []

-- What is read at the offsets are the keys.
pub HasKeys-read :
    (m : K2hMarker) (start last : Bytes)
    → HasKeys m start last
    → (bytes_at m m.startoff m.startlen ≡ start) × (bytes_at m m.endoff m.endlen ≡ last)
HasKeys-read m start last k =
    let skip : marker_size + length start - marker_size ≡ length start = omega arith in
    (
      rw (k.startoff, k.startlen, k.body) (take-append start last),
      rw (k.endoff, k.endlen, k.body, skip, drop-append start last) (take_all last),
    )

-- The keys that `UpdateK2HMarker` leaves: the new key at its end, and at the other end the key that
-- was there, or the new one too if there was none.
abbrev pub updated : (start last key : Bytes) → (is_end : Bool) → Bytes × Bytes
updated [] last key true = (key, key)
updated (b ∷ start) last key true = (b ∷ start, key)
updated start [] key false = (key, key)
updated start (b ∷ last) key false = (key, b ∷ last)

-- `InitK2HMarker` with memory makes a marker of the two keys, the first for both if there is no
-- second one, and it is empty exactly if the first key is.
pub init_k2h_marker-HasKeys :
    (start last : Bytes)
    → (m : K2hMarker) × (init_k2h_marker true start last ≡ some m)
      × HasKeys m start (elim last [ [] ↦ start | b ∷ bs ↦ b ∷ bs ])
      × (is_empty_k2h_marker m ≡ (length start == 0))
unfolding init_k2h_marker is_empty_k2h_marker
init_k2h_marker-HasKeys start last = (
  _,
  refl,
  record { startlen = refl; startoff = refl; endlen = refl; endoff = refl; body = refl },
  refl,
)

replace_key-HasKeys :
    (m : K2hMarker) (start last key : Bytes) (is_end : Bool)
    → HasKeys m start last
    → HasKeys
        (replace_key m key is_end)
        (if is_end then start else key)
        (if is_end then key else last)
unfolding replace_key
replace_key-HasKeys m start last key true k =
    let (first, _) = HasKeys-read m start last k in
    record {
      startlen = k.startlen;
      startoff = refl;
      endlen = refl;
      endoff = ap (◌+◌ marker_size) k.startlen;
      body = rw (first, take_all key) refl;
    }
replace_key-HasKeys m start last key false k =
    let (_, second) = HasKeys-read m start last k in
    record {
      startlen = refl;
      startoff = refl;
      endlen = k.endlen;
      endoff = refl;
      body = rw (second, take_all key) refl;
    }

update_empty :
    (m : K2hMarker) (key : Bytes) (is_end : Bool)
    → m.startlen ≡ 0
    → m.endlen ≡ 0
    → (m' : K2hMarker) × (update_k2h_marker true m key is_end ≡ some m') × HasKeys m' key key
unfolding update_k2h_marker
update_empty m key is_end f g =
    let m' : K2hMarker = record {
      startlen = length key;
      startoff = marker_size;
      endlen = length key;
      endoff = marker_size + length key;
      body = take (length key) key ++ take (length key) key;
    } in
    (
      m',
      rw (f, g) refl,
      record {
        startlen = refl;
        startoff = refl;
        endlen = refl;
        endoff = refl;
        body = ap (λ (t : Bytes). t ++ t) (take_all key);
      },
    )

update_init_start :
    (m : K2hMarker) (key : Bytes)
    → m.startlen ≡ 0
    → m.endlen ≢ 0
    → update_k2h_marker true m key true ≡ init_k2h_marker true key []
unfolding update_k2h_marker
update_init_start m key f g = rw (update_k2h_marker, f, ne→== m.endlen 0 (λ x. absurd (g x))) refl

update_init_end :
    (m : K2hMarker) (key : Bytes)
    → m.startlen ≢ 0
    → m.endlen ≡ 0
    → update_k2h_marker true m key false ≡ init_k2h_marker true key []
unfolding update_k2h_marker
update_init_end m key f g = rw (update_k2h_marker, ne→== m.startlen 0 (λ x. absurd (f x)), g) refl

update_replace_end :
    (m : K2hMarker) (key : Bytes)
    → m.startlen ≢ 0
    → update_k2h_marker true m key true ≡ some (replace_key m key true)
unfolding update_k2h_marker
update_replace_end m key f = rw (update_k2h_marker, ne→== m.startlen 0 (λ x. absurd (f x))) refl

update_replace_start :
    (m : K2hMarker) (key : Bytes)
    → m.endlen ≢ 0
    → update_k2h_marker true m key false ≡ some (replace_key m key false)
unfolding update_k2h_marker
update_replace_start m key f = elim (Bool-cases (m.startlen == 0)) [
  | inl e ↦ rw (update_k2h_marker, e, ne→== m.endlen 0 (λ x. absurd (f x))) refl
  | inr e ↦ rw (update_k2h_marker, e, ne→== m.endlen 0 (λ x. absurd (f x))) refl
]

-- `UpdateK2HMarker` of a marker with two keys, with memory, leaves a marker of the new key at its
-- end and the old key, or the new one where there was none, at the other.
pub update_k2h_marker-HasKeys :
    (m : K2hMarker) (start last key : Bytes) (is_end : Bool)
    → HasKeys m start last
    → (m' : K2hMarker) × (update_k2h_marker true m key is_end ≡ some m')
      × HasKeys m' (updated start last key is_end).0 (updated start last key is_end).1
update_k2h_marker-HasKeys m [] [] key true k = update_empty m key true k.startlen k.endlen
update_k2h_marker-HasKeys m [] (c ∷ last) key true k =
    let (m', run, keys, _) = init_k2h_marker-HasKeys key [] in
    (m', update_init_start m key k.startlen (λ x. omega (arith, k.endlen)) ∙ run, keys)
update_k2h_marker-HasKeys m (b ∷ start) last key true k = (
  _,
  update_replace_end m key (λ x. omega (arith, k.startlen)),
  replace_key-HasKeys m (b ∷ start) last key true k,
)
update_k2h_marker-HasKeys m [] [] key false k = update_empty m key false k.startlen k.endlen
update_k2h_marker-HasKeys m (b ∷ start) [] key false k =
    let (m', run, keys, _) = init_k2h_marker-HasKeys key [] in
    (m', update_init_end m key (λ x. omega (arith, k.startlen)) k.endlen ∙ run, keys)
update_k2h_marker-HasKeys m start (c ∷ last) key false k = (
  _,
  update_replace_start m key (λ x. omega (arith, k.endlen)),
  replace_key-HasKeys m start (c ∷ last) key false k,
)
