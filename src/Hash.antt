-- ===== src/Hash.antt =====
-- The hash functions of lib/k2hashfunc.cc.
pub mod Signed
use k2hash.Base.{ℕ, ◌+◌, ◌-◌, ◌*◌, ◌^◌, ◌%◌, List, [], ◌∷◌, ltb, if◌then◌else◌, take, length}
use k2hash.Bytes.{Bytes}
use Prim.Native.Nat.{bit_xor}

-- `static_cast<k2h_hash_t>(*cptr)`: a `char` with a sign, widened to 64 bits.
unfoldable pub widen_char : ℕ → ℕ
widen_char c = if ltb c 128 then c else 2 ^ 64 - (256 - c)

-- The loop of `k2h_Fnv_hash`.
unfoldable pub fnv_loop : ℕ → Bytes → ℕ
unfolding widen_char
fnv_loop hash [] = hash
fnv_loop hash (c ∷ cs) = fnv_loop (bit_xor hash (widen_char c) * 1099511628211 % 2 ^ 64) cs

-- `k2h_Fnv_hash`
unfoldable pub k2h_fnv_hash : Bytes → ℕ
unfolding fnv_loop
k2h_fnv_hash cs = fnv_loop 14695981039346656037 cs

-- `k2h_hash`
unfoldable pub k2h_hash : Bytes → ℕ
unfolding k2h_fnv_hash
k2h_hash [] = 0
k2h_hash (c ∷ cs) = k2h_fnv_hash (c ∷ cs)

-- `k2h_second_hash`: without the last byte, where there are two or more.
unfoldable pub k2h_second_hash : Bytes → ℕ
unfolding k2h_fnv_hash
k2h_second_hash [] = 0
k2h_second_hash (c ∷ cs) =
    k2h_fnv_hash
      (take (if ltb 1 (length (c ∷ cs)) then length (c ∷ cs) - 1 else length (c ∷ cs)) (c ∷ cs))
