-- ===== src/History/Trip.antt =====
-- `ParseHistoryKey` of lib/k2hshm.cc on what `MakeHistoryKey` makes.
use k2hash.Base.{
  ℕ, zero, suc, ◌+◌, ◌-◌, ◌≡◌, ◌≢◌, ◌<◌, ◌≤◌, refl, ap, ◌∙◌, true, false, some, [], ◌∷◌, ◌++◌,
  ne→==, length, take, drop, length-append, take-append, drop-append, drop-drop, arith,
}
use k2hash.Bytes.{Bytes}
use k2hash.History.{make_history_key, is_nul, separator_loop, c_string, parse_history_key}

-- A C string has no NUL inside.
pub data IsText : Bytes → Type 0 where
  text_nil : IsText []
  text_cons : {b : ℕ} {bs : Bytes} → b ≢ 0 → IsText bs → IsText (b ∷ bs)

is_nul-append : (xs ys : Bytes) (i : ℕ) → is_nul (xs ++ ys) (length xs + i) ≡ is_nul ys i
unfolding is_nul
is_nul-append [] ys i = let e : 0 + i ≡ i = omega arith in rw e refl
is_nul-append (x ∷ xs) ys i =
    let e : suc (length xs) + i ≡ suc (length xs + i) = omega arith in rw e (is_nul-append xs ys i)

is_nul-text : (us : Bytes) (i : ℕ) → IsText us → i < length us → is_nul (us ++ (0 ∷ [])) i ≡ false
unfolding is_nul
is_nul-text _ i text_nil b = absurd (omega arith)
is_nul-text (u ∷ us) zero (text_cons h t) b = ne→== u 0 (λ x. absurd (h x))
is_nul-text (u ∷ us) (suc i) (text_cons h t) b = is_nul-text us i t (omega arith)

is_nul-inside :
    (us : Bytes) (i : ℕ) → IsText us → i < length us → is_nul (0 ∷ (us ++ (0 ∷ []))) (suc i) ≡ false
unfolding is_nul
is_nul-inside us i t b = is_nul-text us i t b

is_nul-last : (us : Bytes) → is_nul (us ++ (0 ∷ [])) (length us) ≡ true
unfolding is_nul
is_nul-last [] = refl
is_nul-last (u ∷ us) = is_nul-last us

is_nul-end : (us : Bytes) → is_nul (0 ∷ (us ++ (0 ∷ []))) (suc (length us)) ≡ true
unfolding is_nul
is_nul-end us = is_nul-last us

c_string-text : (us : Bytes) → IsText us → c_string (us ++ (0 ∷ [])) ≡ us
unfolding c_string
c_string-text _ text_nil = refl
c_string-text (u ∷ us) (text_cons h t) =
    rw (ne→== u 0 (λ x. absurd (h x))) (ap (◌∷◌ u) (c_string-text us t))

-- From inside of the id, the loop goes down to the separator.
separator_loop-base :
    (base us : Bytes) (i n : ℕ)
    → 0 < length base
    → IsText us
    → i ≤ length us
    → n ≡ length base + i
    → separator_loop (base ++ (0 ∷ (us ++ (0 ∷ [])))) n ≡ length base
unfolding separator_loop
separator_loop-base base us i zero p t b e = absurd (omega arith)
separator_loop-base base us zero (suc n) p t b e =
    rw (e, is_nul-append base (0 ∷ (us ++ (0 ∷ []))) 0) (omega arith)
separator_loop-base base us (suc i) (suc n) p t b e =
    rw (e, is_nul-append base (0 ∷ (us ++ (0 ∷ []))) (suc i), is_nul-inside us i t (omega arith))
      (separator_loop-base base us i n p t (omega arith) (omega arith))

parse_runs :
    (b : ℕ) (bs : Bytes) (s : ℕ)
    → separator_loop (b ∷ bs) (length (b ∷ bs) - 2) ≡ s
    → is_nul (b ∷ bs) (length (b ∷ bs) - 1) ≡ true
    → s ≢ 0
    → parse_history_key true (b ∷ bs) ≡ some (take s (b ∷ bs), c_string (drop (s + 1) (b ∷ bs)))
unfolding parse_history_key
parse_runs b bs s f g h = rw (parse_history_key, f, g, ne→== s 0 (λ x. absurd (h x))) refl

rest_of_key : (base us : Bytes) → drop (length base + 1) (base ++ (0 ∷ us)) ≡ us
rest_of_key base us =
    drop-drop (length base) 1 (length base + 1) (base ++ (0 ∷ us)) refl
    ∙ ap (drop 1) (drop-append base (0 ∷ us))

-- With memory, a history key gives back the key and the id that it was made of, if neither is empty
-- and the id is a C string; the key may hold NULs of its own.
pub parse_history_key-make_history_key :
    (b : ℕ) (base : Bytes) (u : ℕ) (us : Bytes)
    → IsText (u ∷ us)
    → (key : Bytes) × (make_history_key true (b ∷ base) (u ∷ us) ≡ some key)
      × (parse_history_key true key ≡ some (b ∷ base, u ∷ us))
unfolding make_history_key
parse_history_key-make_history_key b base u us t =
    let id : Bytes = u ∷ us in
    let bs : Bytes = b ∷ base in
    let size : length (bs ++ (0 ∷ (id ++ (0 ∷ [])))) ≡ length bs + suc (length id + 1) =
      length-append bs (0 ∷ (id ++ (0 ∷ [])))
      ∙ ap (λ (n : ℕ). length bs + suc n) (length-append id (0 ∷ [])) in
    let last : length (bs ++ (0 ∷ (id ++ (0 ∷ [])))) - 1 ≡ length bs + suc (length id) =
      omega arith in
    let start : length (bs ++ (0 ∷ (id ++ (0 ∷ [])))) - 2 ≡ length bs + length id = omega arith in
    (
      bs ++ (0 ∷ (id ++ (0 ∷ []))),
      refl,
      parse_runs b (base ++ (0 ∷ (id ++ (0 ∷ [])))) (length bs)
            (separator_loop-base bs id (length id) _ (omega arith) t (omega arith) start)
            (ap (is_nul (bs ++ (0 ∷ (id ++ (0 ∷ []))))) last
              ∙ is_nul-append bs (0 ∷ (id ++ (0 ∷ []))) (suc (length id))
              ∙ is_nul-end id)
            (λ x. omega arith)
          ∙ rw
              (
                take-append bs (0 ∷ (id ++ (0 ∷ []))),
                rest_of_key bs (id ++ (0 ∷ [])),
                c_string-text id t,
              )
              refl,
    )
