-- ===== src/Command/Parts.antt =====
-- The data of a command that `Put` laid out, as `Load` reads them.
use k2hash.Base.{
  ℕ, ◌+◌, ◌^◌, ◌<◌, ◌≡◌, refl, ap, sym, ◌∙◌, some, [], ◌++◌, length, length-append, append_assoc,
  append-nil, arith,
}
use k2hash.Bytes.{Bytes}
use k2hash.Command.{
  scom_size, Kind, set_all, replace_val, replace_skey, del_key, ow_val, replace_attrs, rename,
  Command, Places, at, nowhere, places, payload,
}
use k2hash.Command.Replay.{read_part, read_parts}
use k2hash.Command.Layout.{read_part-at, header, length-header, trimmed}

-- A place without data.
read_part-nowhere : (file : Bytes) (offset : ℕ) → read_part file offset nowhere ≡ some []
unfolding read_part
read_part-nowhere file offset = refl

read_parts_step :
    (file : Bytes) (offset : ℕ) (kind : Kind) (p : Places) (k v s a e : Bytes)
    → read_part file offset p.key ≡ some k
    → read_part file offset p.val ≡ some v
    → read_part file offset p.skey ≡ some s
    → read_part file offset p.attrs ≡ some a
    → read_part file offset p.exdata ≡ some e
    → read_parts file offset kind p
      ≡ some (record { kind = kind; key = k; val = v; skey = s; attrs = a; exdata = e })
unfolding read_parts
read_parts_step file offset kind p k v s a e f g h i j = rw (read_parts, f, g, h, i, j) refl

-- A command that stands in the file behind `pre`.
module _ (file pre post head key : Bytes) (h : length head ≡ scom_size)
    (small : length file < 2 ^ 63) where
  -- The key, and what follows it.
  read_key :
      (rest : Bytes)
      → file ≡ pre ++ (head ++ ((key ++ rest) ++ post))
      → read_part file (length pre) (at scom_size key) ≡ some key
  read_key rest e =
      read_part-at file pre head [] key (rest ++ post) scom_size
        (e ∙ ap (λ (t : Bytes). pre ++ (head ++ t)) (append_assoc key rest post)) h (omega arith)
        small

  read_first :
      (a rest : Bytes)
      → file ≡ pre ++ (head ++ ((key ++ (a ++ rest)) ++ post))
      → read_part file (length pre) (at (scom_size + length key) a) ≡ some a
  read_first a rest e =
      read_part-at file pre head key a (rest ++ post) (scom_size + length key)
        (e
          ∙ ap (λ (t : Bytes). pre ++ (head ++ t))
              (append_assoc key (a ++ rest) post ∙ ap (◌++◌ key) (append_assoc a rest post)))
        h refl small

  read_second :
      (a b rest : Bytes)
      → file ≡ pre ++ (head ++ ((key ++ (a ++ (b ++ rest))) ++ post))
      → read_part file (length pre) (at (scom_size + length key + length a) b) ≡ some b
  read_second a b rest e =
      read_part-at file pre head (key ++ a) b (rest ++ post) (scom_size + length key + length a)
        (e ∙ ap (λ (t : Bytes). pre ++ (head ++ t)) (simp (append_assoc))) h
        (omega (arith, length-append key a)) small

  read_third :
      (a b c rest : Bytes)
      → file ≡ pre ++ (head ++ ((key ++ (a ++ (b ++ (c ++ rest)))) ++ post))
      → read_part file (length pre) (at (scom_size + length key + length a + length b) c) ≡ some c
  read_third a b c rest e =
      read_part-at file pre head ((key ++ a) ++ b) c (rest ++ post)
        (scom_size + length key + length a + length b)
        (e ∙ ap (λ (t : Bytes). pre ++ (head ++ t)) (simp (append_assoc))) h
        (omega (arith, length-append key a, length-append (key ++ a) b)) small

-- The data of a command in the file, whatever stands around it.
module _ (file pre post key val skey attrs exdata : Bytes) (small : length file < 2 ^ 63) where
  abbrev cmd : Kind → Command
  cmd kind = record {
    kind = kind;
    key = key;
    val = val;
    skey = skey;
    attrs = attrs;
    exdata = exdata;
  }

  none_here : read_part file (length pre) nowhere ≡ some []
  none_here = read_part-nowhere file (length pre)

  -- The file with a given payload behind the key.
  abbrev Follows : Kind → Bytes → Type 0
  Follows kind rest = file ≡ pre ++ (header (cmd kind) ++ ((key ++ rest) ++ post))

  -- The last part has nothing behind it.
  last_part :
      (kind : Kind) (rest : Bytes → Bytes) (b : Bytes)
      → Follows kind (rest b)
      → Follows kind (rest (b ++ []))
  last_part kind rest b e =
      e
      ∙ ap (λ (t : Bytes). pre ++ (header (cmd kind) ++ ((key ++ rest t) ++ post)))
          (sym (append-nil b))

  key_place :
      (kind : Kind) (rest : Bytes)
      → Follows kind rest
      → read_part file (length pre) (at scom_size key) ≡ some key
  key_place kind = read_key file pre post (header (cmd kind)) key (length-header (cmd kind)) small

  first_place :
      (kind : Kind) (a rest : Bytes)
      → Follows kind (a ++ rest)
      → read_part file (length pre) (at (scom_size + length key) a) ≡ some a
  first_place kind =
      read_first file pre post (header (cmd kind)) key (length-header (cmd kind)) small

  second_place :
      (kind : Kind) (a b rest : Bytes)
      → Follows kind (a ++ (b ++ rest))
      → read_part file (length pre) (at (scom_size + length key + length a) b) ≡ some b
  second_place kind =
      read_second file pre post (header (cmd kind)) key (length-header (cmd kind)) small

  only_first :
      (kind : Kind) (a : Bytes)
      → Follows kind a
      → read_part file (length pre) (at (scom_size + length key) a) ≡ some a
  only_first kind a e = first_place kind a [] (last_part kind (λ t. t) a e)

  last_second :
      (kind : Kind) (a b : Bytes)
      → Follows kind (a ++ b)
      → read_part file (length pre) (at (scom_size + length key + length a) b) ≡ some b
  last_second kind a b e = second_place kind a b [] (last_part kind (λ t. a ++ t) b e)

  -- The parts of each type, with the key.
  pub read_parts-block :
      (kind : Kind)
      → file ≡ pre ++ (header (cmd kind) ++ (payload (cmd kind) ++ post))
      → read_parts file (length pre) kind (places (cmd kind)) ≡ some (trimmed (cmd kind))
  unfolding places payload
  read_parts-block set_all e =
      read_parts_step file (length pre) set_all (places (cmd set_all)) key val skey attrs []
        (key_place set_all (val ++ (skey ++ attrs)) e) (first_place set_all val (skey ++ attrs) e)
        (second_place set_all val skey attrs e)
        (read_third file pre post (header (cmd set_all)) key (length-header (cmd set_all)) small val
          skey attrs [] (last_part set_all (λ t. val ++ (skey ++ t)) attrs e))
        none_here
  read_parts-block replace_val e =
      read_parts_step file (length pre) replace_val (places (cmd replace_val)) key val [] [] []
        (key_place replace_val val e) (only_first replace_val val e) none_here none_here none_here
  read_parts-block replace_skey e =
      read_parts_step file (length pre) replace_skey (places (cmd replace_skey)) key [] skey [] []
        (key_place replace_skey skey e) none_here (only_first replace_skey skey e) none_here
        none_here
  read_parts-block del_key e =
      read_parts_step file (length pre) del_key (places (cmd del_key)) key [] [] [] []
        (key_place del_key [] e) none_here none_here none_here none_here
  read_parts-block ow_val e =
      read_parts_step file (length pre) ow_val (places (cmd ow_val)) key val [] [] exdata
        (key_place ow_val (val ++ exdata) e) (first_place ow_val val exdata e) none_here none_here
        (last_second ow_val val exdata e)
  read_parts-block replace_attrs e =
      read_parts_step file (length pre) replace_attrs (places (cmd replace_attrs)) key [] [] attrs
        [] (key_place replace_attrs attrs e) none_here none_here (only_first replace_attrs attrs e)
        none_here
  read_parts-block rename e =
      read_parts_step file (length pre) rename (places (cmd rename)) key [] [] attrs exdata
        (key_place rename (attrs ++ exdata) e) none_here none_here
        (first_place rename attrs exdata e) (last_second rename attrs exdata e)
