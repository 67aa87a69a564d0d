-- ===== src/Queue/Names.antt =====
-- The key names of a queue: no two calls of `GetUniqKeyName` give the same one.
use native.Mathlib.Nat.{pow-suc}
use k2hash.Base.{
  ℕ, zero, suc, ◌+◌, ◌*◌, ◌/◌, ◌%◌, ◌^◌, ◌<◌, ◌≡◌, ◌≢◌, refl, ap, sym, ◌∙◌, [], ◌∷◌, ◌++◌, length,
  take, drop, take-append, drop-append, length-append, arith,
}
use k2hash.Bytes.{Bytes}
use k2hash.Util.{binappend, binappendstr}
use k2hash.Queue.Object.{Timespec, get_uniq_timespec, hex_digit, hex, key_form, get_uniq_key_name}

hex_digit_inj : (a b : ℕ) → a < 16 → b < 16 → hex_digit a ≡ hex_digit b → a ≡ b
unfolding hex_digit
hex_digit_inj a b ha hb e = ground arith

length-hex : (n w : ℕ) → length (hex n w) ≡ n
unfolding hex
length-hex zero w = refl
length-hex (suc n) w =
    omega (arith, length-append (hex n (w / 16)) (hex_digit (w % 16) ∷ []), length-hex n (w / 16))

-- The first digits, and the last one.
snoc_init :
    (xs ys : Bytes) (a b : ℕ) → length xs ≡ length ys → xs ++ a ∷ [] ≡ ys ++ b ∷ [] → xs ≡ ys
snoc_init xs ys a b l e =
    sym (take-append xs (a ∷ []))
    ∙ ap (take (length xs)) e
    ∙ ap (λ (n : ℕ). take n (ys ++ b ∷ [])) l
    ∙ take-append ys (b ∷ [])

snoc_last :
    (xs ys : Bytes) (a b : ℕ)
    → length xs ≡ length ys
    → xs ++ a ∷ [] ≡ ys ++ b ∷ []
    → a ∷ [] ≡ b ∷ []
snoc_last xs ys a b l e =
    sym (drop-append xs (a ∷ []))
    ∙ ap (drop (length xs)) e
    ∙ ap (λ (n : ℕ). drop n (ys ++ b ∷ [])) l
    ∙ drop-append ys (b ∷ [])

abbrev first : Bytes → ℕ
first [] = 0
first (x ∷ xs) = x

hex_inj : (n w v : ℕ) → w < 16 ^ n → v < 16 ^ n → hex n w ≡ hex n v → w ≡ v
unfolding hex
hex_inj zero w v hw hv e = omega arith
hex_inj (suc n) w v hw hv e =
    let l : length (hex n (w / 16)) ≡ length (hex n (v / 16)) =
      length-hex n (w / 16) ∙ sym (length-hex n (v / 16)) in
    let digit : hex_digit (w % 16) ≡ hex_digit (v % 16) = ap first (snoc_last _ _ _ _ l e) in
    let low : w % 16 ≡ v % 16 = hex_digit_inj (w % 16) (v % 16) (omega arith) (omega arith) digit in
    let high : w / 16 ≡ v / 16 =
      hex_inj n (w / 16) (v / 16) (omega (arith, pow-suc 16 n)) (omega (arith, pow-suc 16 n))
        (snoc_init _ _ _ _ l e) in
    omega (arith, low, high)

-- A counter of nanoseconds, as text of 16 digits.
pub record IsTime (t : Timespec) : Type 0 where
  pub sec : t.tv_sec < 2 ^ 64
  pub nsec : t.tv_nsec < 1000000000

length-key_form : (tid : ℕ) (t : Timespec) → length (key_form tid t) ≡ 50
unfolding key_form
length-key_form tid t = omega (
  arith,
  length-append (hex 16 tid) (95 ∷ (hex 16 t.tv_sec ++ 95 ∷ hex 16 t.tv_nsec)),
  length-append (hex 16 t.tv_sec) (95 ∷ hex 16 t.tv_nsec),
  length-hex 16 tid,
  length-hex 16 t.tv_sec,
  length-hex 16 t.tv_nsec,
)

key_form_inj :
    (tid : ℕ) (t u : Timespec)
    → IsTime t
    → IsTime u
    → key_form tid t ≡ key_form tid u
    → (t.tv_sec ≡ u.tv_sec) × (t.tv_nsec ≡ u.tv_nsec)
unfolding key_form
key_form_inj tid t u ht hu e =
    let behind : (x : Bytes) → drop 16 (hex 16 tid ++ x) ≡ x = λ x.
      ap (λ (n : ℕ). drop n (hex 16 tid ++ x)) (sym (length-hex 16 tid))
      ∙ drop-append (hex 16 tid) x in
    let both : hex 16 t.tv_sec ++ 95 ∷ hex 16 t.tv_nsec ≡ hex 16 u.tv_sec ++ 95 ∷ hex 16 u.tv_nsec =
      ap (drop 1) (sym (behind _) ∙ ap (drop 16) e ∙ behind _) in
    let front : (w : ℕ) (x : Bytes) → take 16 (hex 16 w ++ x) ≡ hex 16 w = λ w x.
      ap (λ (n : ℕ). take n (hex 16 w ++ x)) (sym (length-hex 16 w)) ∙ take-append (hex 16 w) x in
    let back : (w : ℕ) (x : Bytes) → drop 16 (hex 16 w ++ x) ≡ x = λ w x.
      ap (λ (n : ℕ). drop n (hex 16 w ++ x)) (sym (length-hex 16 w)) ∙ drop-append (hex 16 w) x in
    (
      hex_inj 16 t.tv_sec u.tv_sec (omega (arith, ht.sec)) (omega (arith, hu.sec))
          (sym (front _ _) ∙ ap (take 16) both ∙ front _ _),
      hex_inj 16 t.tv_nsec u.tv_nsec (omega (arith, ht.nsec)) (omega (arith, hu.nsec))
          (ap (drop 1) (sym (back _ _) ∙ ap (drop 16) both ∙ back _ _)),
    )

binappend-cons : (b : ℕ) (bs x : Bytes) → binappend (b ∷ bs) x ≡ (b ∷ bs) ++ x
unfolding binappend
binappend-cons b bs x = refl

-- The counter in nanoseconds.
abbrev nanos : Timespec → ℕ
nanos t = t.tv_sec * 1000000000 + t.tv_nsec

-- The counter after `n` calls.
abbrev pub after : ℕ → Timespec → Timespec
after zero t = t
after (suc n) t = after n (get_uniq_timespec t)

get_uniq_timespec-nanos :
    (t : Timespec)
    → t.tv_nsec < 1000000000
    → (nanos (get_uniq_timespec t) ≡ nanos t + 1) × ((get_uniq_timespec t).tv_nsec < 1000000000)
unfolding get_uniq_timespec
get_uniq_timespec-nanos t h = ground arith

after-nanos :
    (n : ℕ) (t : Timespec)
    → t.tv_nsec < 1000000000
    → (nanos (after n t) ≡ nanos t + n) × ((after n t).tv_nsec < 1000000000)
after-nanos zero t h = (omega arith, h)
after-nanos (suc n) t h =
    let (e, h') = get_uniq_timespec-nanos t h in
    let (e', h2) = after-nanos n (get_uniq_timespec t) h' in (omega (arith, e, e'), h2)

-- With a prefix that is not empty, from a counter of less than a second of nanoseconds, two
-- different calls of `GetUniqKeyName` of one thread give different names, if the seconds of both
-- are 64-bit words.
pub get_uniq_key_name-after :
    (b : ℕ) (bs : Bytes) (tid m n : ℕ) (t : Timespec)
    → t.tv_nsec < 1000000000
    → (after m t).tv_sec < 2 ^ 64
    → (after n t).tv_sec < 2 ^ 64
    → m ≢ n
    → get_uniq_key_name (b ∷ bs) tid (after m t) ≢ get_uniq_key_name (b ∷ bs) tid (after n t)
unfolding get_uniq_key_name binappendstr
get_uniq_key_name-after b bs tid m n t h hm hn differ e =
    let (em, vm) = after-nanos m t h in
    let (en, vn) = after-nanos n t h in
    let form : (k : ℕ)
        → drop (length (b ∷ bs)) (get_uniq_key_name (b ∷ bs) tid (after k t))
          ≡ key_form tid (after k t) ++ 0 ∷ [] =
      λ k.
        ap (drop (length (b ∷ bs))) (binappend-cons b bs (key_form tid (after k t) ++ 0 ∷ []))
        ∙ drop-append (b ∷ bs) (key_form tid (after k t) ++ 0 ∷ []) in
    let forms : key_form tid (after m t) ++ 0 ∷ [] ≡ key_form tid (after n t) ++ 0 ∷ [] =
      sym (form m) ∙ ap (drop (length (b ∷ bs))) e ∙ form n in
    let same =
      key_form_inj tid (after m t) (after n t) (record { sec = hm; nsec = vm })
        (record { sec = hn; nsec = vn })
        (snoc_init (key_form tid (after m t)) (key_form tid (after n t)) 0 0
          (length-key_form tid (after m t) ∙ sym (length-key_form tid (after n t))) forms) in
    differ (omega (arith, em, en, same.0, same.1))
