-- ===== src/SubKeys/Stored.antt =====
-- What `K2HSubKeys::Serialize` of lib/k2hsubkeys.cc writes, and what it makes of that when it reads.
use k2hash.Base.{
  ℕ, suc, ◌+◌, ◌-◌, ◌^◌, ◌≤◌, ◌<◌, ◌≡◌, refl, sym, ap, ◌∙◌, Bool, true, Option, none, some, [], ◌∷◌,
  ◌++◌, arith, le→ltb, length, drop, length-append, append_assoc, append-nil, drop-append,
}
use k2hash.Bytes.{Bytes, put_size, get_size, read_bytes}
use k2hash.Bytes.Word.{length-encode, get_size-put_size, drop-encode, read_bytes-append}
use k2hash.Search.Sorted.{IsSorted}
use k2hash.SubKeys.{
  SubKeys, key, loaded, insert, insert_memory, save_entries, save_length, save, load_loop, load,
}
use k2hash.SubKeys.Map.{Filled, IsValid, Allocates, insert_last}

-- Every length is a `size_t`.
abbrev pub Words : SubKeys → Type 0
Words [] = Unit {0}
Words (k ∷ m) = (length k < 2 ^ 64) × Words m

length-save_entries : (m : SubKeys) → length (save_entries m) ≡ save_length m
unfolding save_entries save_length
length-save_entries [] = refl
length-save_entries (k ∷ m) = omega (
  arith,
  length-append (put_size (length k)) (k ++ save_entries m),
  length-encode 8 (length k),
  length-append k (save_entries m),
  length-save_entries m,
)

module _ (malloc : ℕ → Bool) where
  -- The memory that `Serialize` allocates is filled to its last byte.
  pub length-save :
      (m : SubKeys) (b : Bytes) → save malloc m ≡ some (some b) → length b ≡ 8 + save_length m
  unfolding save
  length-save [] b h = ground arith
  length-save (k ∷ m) b h = ground (
    arith,
    length-append (put_size (length (k ∷ m))) (save_entries (k ∷ m)),
    length-encode 8 (length (k ∷ m)),
    length-save_entries (k ∷ m),
  )

  -- On memory that holds the subkey the two forms of `insert` agree.
  insert_memory-insert :
      (m : SubKeys) (at k : Bytes)
      → read_bytes (length k) at ≡ some k
      → insert_memory malloc m (some at) (length k) ≡ some (insert malloc m (some k))
  unfolding insert_memory insert
  insert_memory-insert m at k e = ground arith

  -- One round over a well formed record.
  load_step :
      (n : ℕ) (at next : Bytes) (r : ℕ) (k : Bytes) (m : SubKeys)
      → get_size at ≡ some (length k)
      → read_bytes (length k) (drop 8 at) ≡ some k
      → drop (length k) (drop 8 at) ≡ next
      → 8 + length k ≤ r
      → load_loop malloc (suc n) at r m
        ≡ load_loop malloc n next (r - 8 - length k) (insert malloc m (some k)).0
  unfolding load_loop
  load_step n at next r k m size bytes rest h = rw (
    le→ltb r 8 (omega arith),
    load_loop,
    size,
    le→ltb (r - 8) (length k) (omega arith),
    insert_memory-insert m (drop 8 at) k bytes,
    rest,
  )

  load_record :
      (n : ℕ) (k rest : Bytes) (r : ℕ) (m : SubKeys)
      → length k < 2 ^ 64
      → 8 + length k ≤ r
      → load_loop malloc (suc n) (put_size (length k) ++ (k ++ rest)) r m
        ≡ load_loop malloc n rest (r - 8 - length k) (insert malloc m (some k)).0
  load_record n k rest r m w h =
      load_step n _ rest r k m (get_size-put_size (length k) (k ++ rest) w)
        (rw (drop-encode 8 (length k) (k ++ rest)) (read_bytes-append k rest))
        (rw (drop-encode 8 (length k) (k ++ rest)) (drop-append k rest)) h

  load_loop_zero : (at : Bytes) (r : ℕ) (m : SubKeys) → load_loop malloc 0 at r m ≡ loaded true m
  unfolding load_loop
  load_loop_zero at r m = refl

  load_loop_saved :
      (rest done : SubKeys) (tail : Bytes) (r : ℕ)
      → Words rest
      → Filled rest
      → Allocates malloc rest
      → IsSorted key (done ++ rest)
      → save_length rest ≤ r
      → load_loop malloc (length rest) (save_entries rest ++ tail) r done
        ≡ loaded true (done ++ rest)
  unfolding save_entries save_length
  load_loop_saved [] done tail r w f ok s h =
      load_loop_zero (save_entries [] ++ tail) r done ∙ ap (loaded true) (sym (append-nil done))
  load_loop_saved (k ∷ rest) done tail r w f ok s h = simp append_assoc (
      load_record (length rest) k (save_entries rest ++ tail) r done w.0 (omega arith)
      ∙ rw (insert_last malloc done k rest s f.0 ok.0) (
          load_loop_saved rest (done ++ k ∷ []) tail (r - 8 - length k) w.1 f.1 ok.1
            (rw append_assoc s) (omega arith)
          ∙ ap (loaded true) (append_assoc done (k ∷ []) rest)))

  load_sized :
      (b : Bytes) (count : ℕ)
      → get_size b ≡ some count
      → 0 < length b
      → load malloc (some b) ≡ load_loop malloc count (drop 8 b) (length b) []
  unfolding load
  load_sized b count e h = rw (e, load) (ground arith)

  pub load_counted :
      (count : ℕ) (rest : Bytes)
      → count < 2 ^ 64
      → load malloc (some (put_size count ++ rest))
        ≡ load_loop malloc count rest (8 + length rest) []
  load_counted count rest h =
      let size : length (put_size count ++ rest) ≡ 8 + length rest =
        omega (arith, length-append (put_size count) rest, length-encode 8 count) in
      load_sized (put_size count ++ rest) count (get_size-put_size count rest h) (omega arith)
      ∙ rw (drop-encode 8 count rest, size)

  load_saved :
      (m : SubKeys)
      → IsValid m
      → Words m
      → length m < 2 ^ 64
      → Allocates malloc m
      → load malloc (some (put_size (length m) ++ save_entries m)) ≡ loaded true m
  load_saved m v w n ok =
      let run =
        load_loop_saved m [] [] (8 + length (save_entries m)) w v.filled ok v.sorted
          (omega (arith, length-save_entries m)) in
      load_counted (length m) (save_entries m) n ∙ (rw append-nil at run)

  -- A valid object whose sizes are machine words, and whose memory can be allocated, is read back
  -- from what was written as it was.
  pub load-save :
      (m : SubKeys)
      → IsValid m
      → Words m
      → length m < 2 ^ 64
      → Allocates malloc m
      → malloc (8 + save_length m) ≡ true
      → (b : Option Bytes) × (save malloc m ≡ some b) × (load malloc b ≡ loaded true m)
  unfolding save
  load-save [] v w n ok room = (none, refl, unfold load in refl)
  load-save (k ∷ m) v w n ok room = (
    some (put_size (length (k ∷ m)) ++ save_entries (k ∷ m)),
    rw room,
    load_saved (k ∷ m) v w n ok,
  )
