-- ===== src/Attrs/Stored.antt =====
-- What `K2HAttrs::Serialize` of lib/k2hattrs.cc writes, and what it makes of that when it reads.
use k2hash.Base.{
  ℕ, suc, ◌+◌, ◌-◌, ◌%◌, ◌^◌, ◌≤◌, ◌<◌, ◌≡◌, refl, sym, ap, ◌∙◌, Bool, true, Option, none, some, [],
  ◌∷◌, ◌++◌, arith, le→ltb, length, drop, length-append, append_assoc, append-nil, drop-append,
  drop-drop,
}
use k2hash.Bytes.{Bytes, put_size, get_size, read_bytes}
use k2hash.Bytes.Word.{length-encode, get_size-put_size, drop-encode, read_bytes-append}
use k2hash.Search.Sorted.{IsSorted}
use k2hash.Attrs.{
  Attr, Attrs, key, insert, insert_memory, save_entries, save_length, save, load_loop, load,
}
use k2hash.Attrs.Map.{Named, IsValid, Allocates, insert_last}

-- The bytes of one attribute in the buffer.
abbrev pub packed : Attr → Bytes → Bytes
packed a rest =
    put_size (length a.pkey) ++ (put_size (length a.pval) ++ (a.pkey ++ (a.pval ++ rest)))

-- Every record's size is a `size_t`.
abbrev pub Words : Attrs → Type 0
Words [] = Unit {0}
Words (a ∷ m) = (16 + length a.pkey + length a.pval < 2 ^ 64) × Words m

length-save_entries : (m : Attrs) → length (save_entries m) ≡ save_length m
unfolding save_entries save_length
length-save_entries [] = refl
length-save_entries (a ∷ m) = simp length-append (
    omega (
      arith,
      length-encode 8 (length a.pkey),
      length-encode 8 (length a.pval),
      length-save_entries m,
    ))

drop_lengths : (a : Attr) (rest : Bytes) → drop 16 (packed a rest) ≡ a.pkey ++ (a.pval ++ rest)
drop_lengths a rest =
    drop-drop 8 8 16 (packed a rest) (omega arith)
    ∙ ap (drop 8) (drop-encode 8 (length a.pkey) _)
    ∙ drop-encode 8 (length a.pval) _

drop-packed :
    (a : Attr) (rest : Bytes) → drop (16 + length a.pkey + length a.pval) (packed a rest) ≡ rest
drop-packed a rest =
    drop-drop (16 + length a.pkey) (length a.pval) _ (packed a rest) refl
    ∙ ap (drop (length a.pval)) (drop-drop 16 (length a.pkey) _ (packed a rest) refl)
    ∙ ap (λ (b : Bytes). drop (length a.pval) (drop (length a.pkey) b)) (drop_lengths a rest)
    ∙ ap (drop (length a.pval)) (drop-append a.pkey (a.pval ++ rest))
    ∙ drop-append a.pval rest

module _ (malloc : ℕ → Bool) where
  -- The memory that `Serialize` allocates is filled to its last byte.
  pub length-save :
      (m : Attrs) (b : Bytes) → save malloc m ≡ some (some b) → length b ≡ 8 + save_length m
  unfolding save
  length-save [] b h = ground arith
  length-save (a ∷ m) b h = ground (
    arith,
    length-append (put_size (length (a ∷ m))) (save_entries (a ∷ m)),
    length-encode 8 (length (a ∷ m)),
    length-save_entries (a ∷ m),
  )

  -- On memory that holds the name and the value the two forms of `insert` agree.
  insert_memory-insert :
      (m : Attrs) (at vat k v : Bytes)
      → read_bytes (length k) at ≡ some k
      → read_bytes (length v) vat ≡ some v
      → insert_memory malloc m at (length k) vat (length v) ≡ some (insert malloc m (some k) v)
  unfolding insert_memory insert
  insert_memory-insert m at vat k v e f = ground arith

  -- One round over a well formed record.
  load_step :
      (n : ℕ) (at : Bytes) (r : ℕ) (a : Attr) (m : Attrs) (total : ℕ)
      → get_size at ≡ some (length a.pkey)
      → get_size (drop 8 at) ≡ some (length a.pval)
      → read_bytes (length a.pkey) (drop 16 at) ≡ some a.pkey
      → read_bytes (length a.pval) (drop (length a.pkey) (drop 16 at)) ≡ some a.pval
      → (16 + length a.pkey + length a.pval) % 2 ^ 64 ≡ total
      → 16 ≤ r
      → total ≤ r
      → load_loop malloc (suc n) at r m
        ≡ load_loop malloc n (drop total at) (r - total) (insert malloc m (some a.pkey) a.pval).0
  unfolding load_loop
  load_step n at r a m total kn vn kb vb size h fits =
      rw
        (
          le→ltb r 16 (omega arith),
          load_loop,
          kn,
          vn,
          size,
          le→ltb r total fits,
          insert_memory-insert m (drop 16 at) (drop (length a.pkey) (drop 16 at)) a.pkey a.pval kb
              vb,
        )
        (rw size)

  load_record :
      (n : ℕ) (a : Attr) (rest : Bytes) (r : ℕ) (m : Attrs)
      → 16 + length a.pkey + length a.pval < 2 ^ 64
      → 16 + length a.pkey + length a.pval ≤ r
      → load_loop malloc (suc n) (packed a rest) r m
        ≡ load_loop malloc n rest
            (r - (16 + length a.pkey + length a.pval))
            (insert malloc m (some a.pkey) a.pval).0
  load_record n a rest r m w h =
      load_step n (packed a rest) r a m (16 + length a.pkey + length a.pval)
        (get_size-put_size (length a.pkey) _ (omega arith))
        (rw (drop-encode 8 (length a.pkey) _) (get_size-put_size (length a.pval) _ (omega arith)))
        (rw (drop_lengths a rest) (read_bytes-append a.pkey _))
        (rw (drop_lengths a rest, drop-append a.pkey (a.pval ++ rest))
          (read_bytes-append a.pval rest))
        (omega arith) (omega arith) h
      ∙ rw (drop-packed a rest)

  load_loop_zero : (at : Bytes) (r : ℕ) (m : Attrs) → load_loop malloc 0 at r m ≡ some m
  unfolding load_loop
  load_loop_zero at r m = refl

  load_loop_saved :
      (rest done : Attrs) (tail : Bytes) (r : ℕ)
      → Words rest
      → Named rest
      → Allocates malloc rest
      → IsSorted key (done ++ rest)
      → save_length rest ≤ r
      → load_loop malloc (length rest) (save_entries rest ++ tail) r done ≡ some (done ++ rest)
  unfolding save_entries save_length
  load_loop_saved [] done tail r w f ok s h =
      load_loop_zero (save_entries [] ++ tail) r done ∙ ap some (sym (append-nil done))
  load_loop_saved (a ∷ rest) done tail r w f ok s h = simp append_assoc (
      load_record (length rest) a (save_entries rest ++ tail) r done w.0 (omega arith)
      ∙ rw (insert_last malloc done a rest s f.0 ok.0) (
          load_loop_saved rest (done ++ a ∷ []) tail _ w.1 f.1 ok.1 (rw append_assoc s)
            (omega arith)
          ∙ ap some (append_assoc done (a ∷ []) rest)))

  load_sized :
      (b : Bytes) (count : ℕ)
      → get_size b ≡ some count
      → 8 ≤ length b
      → load malloc (some b) ≡ load_loop malloc count (drop 8 b) (length b - 8) []
  unfolding load
  load_sized b count e h = rw (le→ltb (length b) 8 h, load, e)

  pub load_counted :
      (count : ℕ) (rest : Bytes)
      → count < 2 ^ 64
      → load malloc (some (put_size count ++ rest)) ≡ load_loop malloc count rest (length rest) []
  load_counted count rest h =
      let size : length (put_size count ++ rest) ≡ 8 + length rest =
        omega (arith, length-append (put_size count) rest, length-encode 8 count) in
      let left : 8 + length rest - 8 ≡ length rest = omega arith in
      load_sized (put_size count ++ rest) count (get_size-put_size count rest h) (omega arith)
      ∙ rw (drop-encode 8 count rest, size, left)

  load_saved :
      (m : Attrs)
      → IsValid m
      → Words m
      → length m < 2 ^ 64
      → Allocates malloc m
      → load malloc (some (put_size (length m) ++ save_entries m)) ≡ some m
  load_saved m v w n ok =
      let run =
        load_loop_saved m [] [] (length (save_entries m)) w v.named ok v.sorted
          (omega (arith, length-save_entries m)) in
      load_counted (length m) (save_entries m) n ∙ (rw append-nil at run)

  -- A valid object whose sizes, summed in each record, are machine words, and whose memory can be
  -- allocated, is read back from what was written as it was, the values included.
  pub load-save_attrs :
      (m : Attrs)
      → IsValid m
      → Words m
      → length m < 2 ^ 64
      → Allocates malloc m
      → malloc (8 + save_length m) ≡ true
      → (b : Option Bytes) × (save malloc m ≡ some b) × (load malloc b ≡ some m)
  unfolding save
  load-save_attrs [] v w n ok room = (none, refl, unfold load in refl)
  load-save_attrs (a ∷ m) v w n ok room = (
    some (put_size (length (a ∷ m)) ++ save_entries (a ∷ m)),
    rw room,
    load_saved (a ∷ m) v w n ok,
  )
