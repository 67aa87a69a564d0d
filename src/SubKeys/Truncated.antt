-- ===== src/SubKeys/Truncated.antt =====
-- `K2HSubKeys::Serialize` of lib/k2hsubkeys.cc on bytes that were cut short. It starts with
-- `rest_length = length`, though the count is read already.
use k2hash.Base.{
  ℕ, suc, ◌+◌, ◌-◌, ◌^◌, ◌≤◌, ◌<◌, ◌≡◌, ◌∙◌, Bool, true, none, some, [], ◌++◌, arith, le→ltb,
  length, drop, length-append,
}
use k2hash.Bytes.{Bytes, put_size, get_size, read_bytes}
use k2hash.Bytes.Word.{length-encode, get_size-put_size, drop-encode, read_bytes_past}
use k2hash.SubKeys.{insert_memory, SubKeys, fault, load_loop, load}
use k2hash.SubKeys.Stored.{load_counted}

module _ (malloc : ℕ → Bool) where
  insert_memory_past :
      (n : ℕ) (at : Bytes) (m : SubKeys)
      → read_bytes n at ≡ none
      → 0 < n
      → malloc n ≡ true
      → insert_memory malloc m (some at) n ≡ none
  unfolding insert_memory
  insert_memory_past n at m past pos ok = ground arith

  load_loop_fault :
      (count : ℕ) (at : Bytes) (r n : ℕ) (m : SubKeys)
      → get_size at ≡ some n
      → read_bytes n (drop 8 at) ≡ none
      → 0 < n
      → malloc n ≡ true
      → 8 + n ≤ r
      → load_loop malloc (suc count) at r m ≡ fault
  unfolding load_loop
  load_loop_fault count at r n m size past pos ok h = rw (
    le→ltb r 8 (omega arith),
    load_loop,
    size,
    le→ltb (r - 8) n (omega arith),
    insert_memory_past n (drop 8 at) m past pos ok,
  )

  -- Reading subkeys whose first record declares a word that exceeds what is left by one to eight
  -- bytes passes the check against `rest_length`, and if memory for the subkey can be allocated,
  -- the copy reads outside of the buffer.
  pub load_overread :
      (count n : ℕ) (rest : Bytes)
      → suc count < 2 ^ 64
      → n < 2 ^ 64
      → length rest < n
      → n ≤ 8 + length rest
      → malloc n ≡ true
      → load malloc (some (put_size (suc count) ++ (put_size n ++ rest))) ≡ fault
  load_overread count n rest c w short late ok =
      load_counted malloc (suc count) (put_size n ++ rest) c
      ∙ load_loop_fault count (put_size n ++ rest) (8 + length (put_size n ++ rest)) n []
          (get_size-put_size n rest w) (rw (drop-encode 8 n rest) (read_bytes_past n rest short))
          (omega arith) ok (omega (arith, length-append (put_size n) rest, length-encode 8 n))
