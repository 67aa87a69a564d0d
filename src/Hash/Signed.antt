-- ===== src/Hash/Signed.antt =====
-- The built-in hash against FNV-1a as it is published, over unsigned bytes.
use k2hash.Base.{
  ℕ, suc, ◌-◌, ◌*◌, ◌^◌, ◌%◌, ◌<◌, ◌≡◌, refl, ap, ◌∙◌, [], ◌∷◌, ◌++◌, ltb, lt→ltb, if◌then◌else◌,
  take, length, length-append, take-append, arith,
}
use k2hash.Bytes.{Bytes}
use k2hash.Hash.{widen_char, fnv_loop, k2h_fnv_hash, k2h_hash, k2h_second_hash}
use Prim.Native.Nat.{bit_xor}
use native.Mathlib.Nat.{mod-lt}

-- FNV-1a: for each byte, `hash = (hash ^ byte) * prime` in 64 bits.
abbrev pub fnv_1a : ℕ → Bytes → ℕ
fnv_1a hash [] = hash
fnv_1a hash (c ∷ cs) = fnv_1a (bit_xor hash c * 1099511628211 % 2 ^ 64) cs

-- No byte has its sign bit set.
pub data IsAscii : Bytes → Type 0 where
  ascii_nil : IsAscii []
  ascii_cons : {c : ℕ} {cs : Bytes} → c < 128 → IsAscii cs → IsAscii (c ∷ cs)

fnv_loop-ascii : (cs : Bytes) (hash : ℕ) → IsAscii cs → fnv_loop hash cs ≡ fnv_1a hash cs
unfolding fnv_loop widen_char
fnv_loop-ascii _ hash ascii_nil = refl
fnv_loop-ascii (c ∷ cs) hash (ascii_cons b rest) = rw (lt→ltb c 128 b) (fnv_loop-ascii cs _ rest)

-- On keys whose bytes are all below 128 the built-in hash is FNV-1a with its published basis.
pub k2h_fnv_hash-ascii :
    (cs : Bytes) → IsAscii cs → k2h_fnv_hash cs ≡ fnv_1a 14695981039346656037 cs
unfolding k2h_fnv_hash
k2h_fnv_hash-ascii cs a = fnv_loop-ascii cs 14695981039346656037 a

fnv_loop-word : (hash : ℕ) (cs : Bytes) → hash < 2 ^ 64 → fnv_loop hash cs < 2 ^ 64
unfolding fnv_loop
fnv_loop-word hash [] b = b
fnv_loop-word hash (c ∷ cs) b =
    fnv_loop-word (bit_xor hash (widen_char c) * 1099511628211 % 2 ^ 64) cs
      (mod-lt (bit_xor hash (widen_char c) * 1099511628211) (omega arith))

fnv_word : (cs : Bytes) → k2h_fnv_hash cs < 2 ^ 64
unfolding k2h_fnv_hash
fnv_word cs = fnv_loop-word 14695981039346656037 cs (omega arith)

-- Both hashes of a key are 64-bit words, whatever the key is.
pub k2h_hash-word : (cs : Bytes) → (k2h_hash cs < 2 ^ 64) × (k2h_second_hash cs < 2 ^ 64)
unfolding k2h_hash k2h_second_hash
k2h_hash-word [] = (omega arith, omega arith)
k2h_hash-word (c ∷ cs) = (
  fnv_word (c ∷ cs),
  fnv_word
      (take (if ltb 1 (length (c ∷ cs)) then length (c ∷ cs) - 1 else length (c ∷ cs)) (c ∷ cs)),
)

take_init : (cs : Bytes) (c : ℕ) (n : ℕ) → n ≡ length cs → take n (cs ++ (c ∷ [])) ≡ cs
take_init cs c n e = rw e (take-append cs (c ∷ []))

-- The second hash of a key of two bytes or more is the first hash of the key without its last byte.
pub k2h_second_hash-init :
    (b : ℕ) (cs : Bytes) (c : ℕ) → k2h_second_hash (b ∷ cs ++ (c ∷ [])) ≡ k2h_hash (b ∷ cs)
unfolding k2h_second_hash k2h_hash
k2h_second_hash-init b cs c =
    let size : length (b ∷ cs ++ (c ∷ [])) ≡ suc (suc (length cs)) =
      ap suc (length-append cs (c ∷ []) ∙ omega arith) in
    let less : suc (suc (length cs)) - 1 ≡ length (b ∷ cs) = omega arith in
    rw (size, lt→ltb 1 (suc (suc (length cs))) (omega arith))
      (ap k2h_fnv_hash (take_init (b ∷ cs) c _ less))
