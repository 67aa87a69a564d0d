-- ===== src/Mask.antt =====
-- The hash masks of lib/k2hshm.cc (`MakeMask`, `GetMaskBitCount`) and the position of a hash in the
-- double array of key indexes (`GetKIndexPos`). A hash is a `uint64_t`.
pub mod Count
pub mod Position
use k2hash.Base.{
  ℕ, zero, suc, ◌+◌, ◌-◌, ◌*◌, ◌/◌, ◌%◌, ◌^◌, ◌<◌, bit_and, bit_or, Option, none, some, ◌==◌, ltb,
  if◌then◌else◌, arith, lt_wf,
}
use mathlib.Core.Logic.{dite}
use mathlib.Core.WellFounded.{Acc, WellFounded}
use native.Mathlib.Decide.{dec_lt}

-- `x << n` of a 64-bit word.
abbrev pub shift_left : ℕ → ℕ → ℕ
shift_left x n = x * 2 ^ n % 2 ^ 64

-- `x >> n`
abbrev pub shift_right : ℕ → ℕ → ℕ
shift_right x n = x / 2 ^ n

-- `~x` of a 64-bit word.
abbrev pub complement : ℕ → ℕ
complement x = 2 ^ 64 - 1 - x

-- `MakeMask`: one round for each bit asked for.
make_mask_loop : ℕ → ℕ → ℕ
make_mask_loop zero mask = mask
make_mask_loop (suc bitcnt) mask = make_mask_loop bitcnt (bit_or (shift_left mask 1) 1)

unfoldable pub make_mask : ℕ → ℕ
unfolding make_mask_loop
make_mask bitcnt = make_mask_loop bitcnt 0

-- `GetMaskBitCount`: the shifted mask falls until it is 0.
bit_count_loop : (mask : ℕ) → ℕ → Acc ◌<◌ mask → ℕ
bit_count_loop mask bitcnt (Acc.intro _ smaller) =
    dite (dec_lt 0 mask)
      (λ h. bit_count_loop (mask / 2) (bitcnt + 1) (smaller (mask / 2) (omega arith))) (λ _. bitcnt)

unfoldable pub get_mask_bit_count : ℕ → ℕ
unfolding bit_count_loop lt_wf dec_lt
get_mask_bit_count mask = bit_count_loop mask 0 (lt_wf.apply mask)

-- The search of `GetKIndexPos` for the array: `none` means that the fuel ran out.
unfoldable pub array_pos_loop : ℕ → ℕ → ℕ → ℕ → Option ℕ
array_pos_loop zero tmphash pos bitmask = none
array_pos_loop (suc fuel) tmphash pos bitmask =
    let rest = array_pos_loop fuel tmphash (pos + 1) (bit_or (shift_left bitmask 1) 1) in
    if bit_and tmphash (complement bitmask) == 0 then some pos else rest

-- `KIPtrArrayPos` and `KIArrayPos`.
pub record KIndexPos : Type 0 where
  pub ptr_array_pos : ℕ
  pub array_pos : ℕ

-- `GetKIndexPos` under a mask: a 64-bit word is used up after 64 rounds, and one more sees that.
unfoldable pub kindex_pos : ℕ → ℕ → Option KIndexPos
kindex_pos shifted_hash mask = elim (array_pos_loop 65 (bit_and shifted_hash mask) 0 0) [
  | none ↦ none
  | some pos ↦ some (record {
    ptr_array_pos = pos;
    array_pos = bit_and shifted_hash (make_mask (if ltb 0 pos then pos - 1 else 0));
  })
]

-- `GetKIndexPos`, with `*pCurMask` where it is given: false for a mask over the current one.
unfoldable pub get_kindex_pos : (cur_mask collision_mask : ℕ) → ℕ → Option ℕ → Option KIndexPos
get_kindex_pos cur_mask collision_mask hash none =
    kindex_pos (shift_right hash (get_mask_bit_count collision_mask)) cur_mask
get_kindex_pos cur_mask collision_mask hash (some mask) =
    if ltb cur_mask mask
    then none
    else kindex_pos (shift_right hash (get_mask_bit_count collision_mask)) mask
