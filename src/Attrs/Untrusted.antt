-- ===== src/Attrs/Untrusted.antt =====
-- `K2HAttrs::Serialize` of lib/k2hattrs.cc on bytes that it did not write.
use k2hash.Base.{
  ℕ, suc, ◌+◌, ◌%◌, ◌^◌, ◌≤◌, ◌<◌, ◌≡◌, ap, ◌∙◌, Bool, true, none, some, [], ◌++◌, arith, le→ltb,
  length, drop, length-append, drop-drop,
}
use k2hash.Bytes.{Bytes, put_size, get_size, read_bytes}
use k2hash.Bytes.Word.{length-encode, get_size-put_size, drop-encode, read_bytes_past}
use k2hash.Attrs.{Attrs, insert_memory, load_loop, load}
use k2hash.Attrs.Stored.{load_counted}

-- No eight bytes in a row, wherever they start, make a number that could wrap in a sum.
abbrev pub SmallSizes : Bytes → Type 0
SmallSizes b = (i w : ℕ) → get_size (drop i b) ≡ some w → w < 2 ^ 62

drop_sizes : (n vn : ℕ) (rest : Bytes) → drop 16 (put_size n ++ (put_size vn ++ rest)) ≡ rest
drop_sizes n vn rest =
    drop-drop 8 8 16 (put_size n ++ (put_size vn ++ rest)) (omega arith)
    ∙ ap (drop 8) (drop-encode 8 n (put_size vn ++ rest))
    ∙ drop-encode 8 vn rest

module _ (malloc : ℕ → Bool) where
  insert_memory_past :
      (m : Attrs) (at vat : Bytes) (n vn : ℕ)
      → read_bytes n at ≡ none
      → 0 < n
      → malloc n ≡ true
      → insert_memory malloc m at n vat vn ≡ none
  unfolding insert_memory
  insert_memory_past m at vat n vn past pos ok = ground arith

  load_round_past :
      (count : ℕ) (at : Bytes) (r n vn : ℕ) (m : Attrs)
      → get_size at ≡ some n
      → get_size (drop 8 at) ≡ some vn
      → 16 ≤ r
      → (16 + n + vn) % 2 ^ 64 ≤ r
      → read_bytes n (drop 16 at) ≡ none
      → 0 < n
      → malloc n ≡ true
      → load_loop malloc (suc count) at r m ≡ none
  unfolding load_loop
  load_round_past count at r n vn m kn kv h fits past pos ok = rw (
    le→ltb r 16 h,
    load_loop,
    kn,
    kv,
    le→ltb r _ fits,
    insert_memory_past m (drop 16 at) (drop n (drop 16 at)) n vn past pos ok,
  )

  -- Reading attributes whose first record declares two words that wrap to a sum that fits the
  -- buffer passes the check, and if the name is longer than what is left and memory for it can be
  -- allocated, the copy reads outside of the buffer.
  pub load_wrapped :
      (count n vn : ℕ) (rest : Bytes)
      → suc count < 2 ^ 64
      → n < 2 ^ 64
      → vn < 2 ^ 64
      → (16 + n + vn) % 2 ^ 64 ≤ 16 + length rest
      → length rest < n
      → malloc n ≡ true
      → load malloc (some (put_size (suc count) ++ (put_size n ++ (put_size vn ++ rest)))) ≡ none
  load_wrapped count n vn rest c w u fits short ok =
      let at = put_size n ++ (put_size vn ++ rest) in
      let size : length at ≡ 16 + length rest = omega (
        arith,
        length-append (put_size n) (put_size vn ++ rest),
        length-append (put_size vn) rest,
        length-encode 8 n,
        length-encode 8 vn,
      ) in
      load_counted malloc (suc count) at c
      ∙ load_round_past count at (length at) n vn [] (get_size-put_size n _ w)
          (rw (drop-encode 8 n (put_size vn ++ rest)) (get_size-put_size vn rest u))
          (omega (arith, size)) (omega (arith, size))
          (rw (drop_sizes n vn rest) (read_bytes_past n rest short)) (omega arith) ok
