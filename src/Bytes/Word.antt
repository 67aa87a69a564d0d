-- ===== src/Bytes/Word.antt =====
-- Reading words and blocks from memory.
use k2hash.Base.{
  ℕ, zero, suc, ◌+◌, ◌*◌, ◌/◌, ◌^◌, ◌≤◌, ◌<◌, ◌≡◌, refl, ap, none, some, [], ◌∷◌, ◌++◌, arith,
  length, drop,
}
use k2hash.Bytes.{Bytes, encode, decode, put_size, get_size, read_bytes}
use native.Mathlib.Nat.{pow-suc}

pub length-encode : (n w : ℕ) → length (encode n w) ≡ n
unfolding encode
length-encode zero w = refl
length-encode (suc n) w = ap suc (length-encode n (w / 256))

pub decode-encode : (n w : ℕ) (rest : Bytes) → w < 256 ^ n → decode n (encode n w ++ rest) ≡ some w
unfolding encode decode
decode-encode zero w rest h = ground arith
decode-encode (suc n) w rest h =
    rw (decode-encode n (w / 256) rest (omega (arith, pow-suc 256 n))) (ground arith)

pub drop-encode : (n w : ℕ) (rest : Bytes) → drop n (encode n w ++ rest) ≡ rest
unfolding encode
drop-encode zero w rest = refl
drop-encode (suc n) w rest = drop-encode n (w / 256) rest

pub get_size-put_size : (w : ℕ) (rest : Bytes) → w < 2 ^ 64 → get_size (put_size w ++ rest) ≡ some w
get_size-put_size w rest h = decode-encode 8 w rest h

pub read_bytes-append : (a rest : Bytes) → read_bytes (length a) (a ++ rest) ≡ some a
unfolding read_bytes
read_bytes-append [] rest = refl
read_bytes-append (x ∷ a) rest = rw (read_bytes-append a rest)

-- A read past the end of the memory.
pub read_bytes_past : (n : ℕ) (b : Bytes) → length b < n → read_bytes n b ≡ none
unfolding read_bytes
read_bytes_past zero b h = elim h [ ]
read_bytes_past (suc n) [] h = refl
read_bytes_past (suc n) (x ∷ b) h = rw (read_bytes_past n b (omega arith))

pub decode_past : (n : ℕ) (b : Bytes) → length b < n → decode n b ≡ none
unfolding decode
decode_past zero b h = elim h [ ]
decode_past (suc n) [] h = refl
decode_past (suc n) (x ∷ b) h = rw (decode_past n b (omega arith))

-- A read inside of the memory.
pub read_bytes_within : (n : ℕ) (b : Bytes) → n ≤ length b → (c : Bytes) × (read_bytes n b ≡ some c)
unfolding read_bytes
read_bytes_within zero b h = ([], refl)
read_bytes_within (suc n) [] h = absurd (omega arith)
read_bytes_within (suc n) (x ∷ b) h =
    let (c, e) = read_bytes_within n b (omega arith) in (x ∷ c, rw e)

pub decode_within : (n : ℕ) (b : Bytes) → n ≤ length b → (w : ℕ) × (decode n b ≡ some w)
unfolding decode
decode_within zero b h = (0, refl)
decode_within (suc n) [] h = absurd (omega arith)
decode_within (suc n) (x ∷ b) h =
    let (w, e) = decode_within n b (omega arith) in (x + 256 * w, rw e)
