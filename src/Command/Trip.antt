-- ===== src/Command/Trip.antt =====
-- Loading an archive that is a list of commands performs them in their order.
use k2hash.Base.{
  ℕ, zero, suc, ◌+◌, ◌%◌, ◌^◌, ◌<◌, ◌≡◌, refl, ap, sym, subst, ◌∙◌, Bool, true, false, Bool-cases,
  inl, inr, Option, some, List, [], ◌∷◌, ◌++◌, leb, if◌then◌else◌, length, drop, length-append,
  append_assoc, append-nil, arith,
}
use k2hash.Bytes.{Bytes}
use k2hash.Command.{
  scom_size, Kind, set_all, replace_val, replace_skey, del_key, ow_val, replace_attrs, rename, code,
  Command, Places, places, payload, fields, block, command_string, put_sizes, scom_total_length,
}
use k2hash.Command.Layout.{
  read_file-here, Fit, kind_of-code, header, length-header, scom_of-header, trimmed,
}
use k2hash.Command.Parts.{read_parts-block}
use k2hash.Command.Replay.{
  read_file, get_sizes, scom_of, Target, perform, load_one, load_loop, load,
}

-- The file that the commands are written to one behind the other.
unfoldable pub archive : List Command → Bytes
archive [] = []
archive (c ∷ cs) = block c ++ archive cs

-- The commands in their order; the first that fails ends it, unless failures are skipped.
unfoldable pub perform_all :
    {S : Type 0} → Target S → (is_err_skip : Bool) → List Command → S → Bool × S
perform_all t is_err_skip [] s = (true, s)
perform_all t is_err_skip (c ∷ cs) s =
    let (ok, s') = perform t (trimmed c) s in
    let rest = perform_all t is_err_skip cs s' in
    if (if ok then true else is_err_skip) then rest else (false, s')

length-block : (c : Command) → length (block c) ≡ scom_size + length (payload c)
unfolding block
length-block c =
    ap (λ (b : Bytes). length b)
      (sym (
        append_assoc (command_string c.kind) (put_sizes (fields (code c.kind) (places c)))
          (payload c)))
    ∙ length-append (header c) (payload c)
    ∙ ap (λ (n : ℕ). n + length (payload c)) (length-header c)

module _ (key val skey attrs exdata : Bytes) where
  abbrev cmd : Kind → Command
  cmd kind = record {
    kind = kind;
    key = key;
    val = val;
    skey = skey;
    attrs = attrs;
    exdata = exdata;
  }

  -- The lengths in the header are those of the data.
  length-payload :
      (kind : Kind)
      → let p = places (cmd kind) in
        length (payload (cmd kind))
        ≡ p.key.len + p.val.len + p.skey.len + p.attrs.len + p.exdata.len
  unfolding payload places
  length-payload set_all = omega (
    arith,
    length-append key (val ++ (skey ++ attrs)),
    length-append val (skey ++ attrs),
    length-append skey attrs,
  )
  length-payload replace_val = omega (arith, length-append key val)
  length-payload replace_skey = omega (arith, length-append key skey)
  length-payload del_key = omega (arith, length-append key [])
  length-payload ow_val = omega (arith, length-append key (val ++ exdata), length-append val exdata)
  length-payload replace_attrs = omega (arith, length-append key attrs)
  length-payload rename =
      omega (arith, length-append key (attrs ++ exdata), length-append attrs exdata)

  -- The fields of a command that fits in a file.
  fields-Fit :
      (kind : Kind)
      → scom_size + length (payload (cmd kind)) < 2 ^ 63
      → Fit (fields (code kind) (places (cmd kind)))
  unfolding places code
  fields-Fit set_all h = ground (arith, length-payload set_all)
  fields-Fit replace_val h = ground (arith, length-payload replace_val)
  fields-Fit replace_skey h = ground (arith, length-payload replace_skey)
  fields-Fit del_key h = ground (arith, length-payload del_key)
  fields-Fit ow_val h = ground (arith, length-payload ow_val)
  fields-Fit replace_attrs h = ground (arith, length-payload replace_attrs)
  fields-Fit rename h = ground (arith, length-payload rename)

module _ {S : Type 0} (t : Target S) (is_err_skip : Bool) where
  -- What the loop does with one command.
  abbrev step : Command → S → Bool × S
  step c s = let r = perform t (trimmed c) s in (if r.0 then true else is_err_skip, r.1)

  load_one-block :
      (file pre post : Bytes) (c : Command) (s : S)
      → file ≡ pre ++ (header c ++ (payload c ++ post))
      → length file < 2 ^ 63
      → load_one t is_err_skip file (length pre) (code c.kind) (places c) s ≡ step c s
  unfolding load_one
  load_one-block file pre post c s e small =
      rw
        (
          load_one,
          kind_of-code c.kind,
          read_parts-block file pre post c.key c.val c.skey c.attrs c.exdata small c.kind e,
        )
        refl

  -- How the loop goes on from the result of its body.
  abbrev goes_on : ℕ → Bytes → ℕ → Bool × S → Option (Bool × S)
  goes_on n file offset r = elim r.0 [
    | true ↦ load_loop t n is_err_skip file offset r.1
    | false ↦ some (false, r.1)
  ]

  loop_step :
      (n : ℕ) (file head : Bytes) (offset type : ℕ) (p : Places) (s : S)
      → read_file file scom_size offset ≡ some head
      → scom_of (get_sizes 11 (drop 16 head)) ≡ some (type, p)
      → load_loop t (suc n) is_err_skip file offset s
        ≡ goes_on n file
            ((offset + scom_total_length p) % 2 ^ 64)
            (load_one t is_err_skip file offset type p s)
  unfolding load_loop
  loop_step n file head offset type p s e f = rw (load_loop, e, f) refl

  loop_end :
      (n : ℕ) (file : Bytes) (s : S)
      → load_loop t (suc n) is_err_skip file (length file) s ≡ some (true, s)
  unfolding load_loop read_file
  loop_end n file s =
      let past : leb (length file + scom_size) (length file) ≡ false = ground arith in
      elim (Bool-cases (leb (2 ^ 63) (length file))) [
        | inl e ↦ rw (load_loop, read_file, e) refl
        | inr e ↦ rw (load_loop, read_file, e, past) refl
      ]

  -- The header and the end of a command in the file.
  module _ (pre post : Bytes) (c : Command)
      (small : length (pre ++ (block c ++ post)) < 2 ^ 63) where
    size :
        length (pre ++ (block c ++ post))
        ≡ length pre + (scom_size + length (payload c) + length post)
    size =
        length-append pre (block c ++ post)
        ∙ ap (λ (n : ℕ). length pre + n)
            (length-append (block c) post ∙ ap (λ (n : ℕ). n + length post) (length-block c))

    split_block : pre ++ (block c ++ post) ≡ pre ++ (header c ++ (payload c ++ post))
    unfolding block
    split_block = simp (append_assoc)

    read_header : read_file (pre ++ (block c ++ post)) scom_size (length pre) ≡ some (header c)
    read_header =
        ap (λ (n : ℕ). read_file (pre ++ (block c ++ post)) n (length pre)) (sym (length-header c))
        ∙ read_file-here (pre ++ (block c ++ post)) pre (header c) (payload c ++ post) split_block
            (omega (arith, length-header c)) small

    next_offset : (length pre + scom_total_length (places c)) % 2 ^ 64 ≡ length (pre ++ block c)
    unfolding scom_total_length
    next_offset =
        let lengths = length-payload c.key c.val c.skey c.attrs c.exdata c.kind in
        omega (arith, size, small, lengths, length-append pre (block c), length-block c)

    loop_block :
        (n : ℕ) (s : S)
        → load_loop t (suc n) is_err_skip (pre ++ (block c ++ post)) (length pre) s
          ≡ goes_on n (pre ++ (block c ++ post)) (length (pre ++ block c)) (step c s)
    loop_block n s =
        let fit =
          fields-Fit c.key c.val c.skey c.attrs c.exdata c.kind (omega (arith, size, small)) in
        loop_step n (pre ++ (block c ++ post)) (header c) (length pre) (code c.kind) (places c) s
          read_header (scom_of-header c fit)
        ∙ ap
            (λ (m : ℕ). goes_on n (pre ++ (block c ++ post)) m (
              load_one t is_err_skip (pre ++ (block c ++ post)) (length pre) (code c.kind)
                (places c) s))
            next_offset
        ∙ ap (goes_on n (pre ++ (block c ++ post)) (length (pre ++ block c)))
            (load_one-block (pre ++ (block c ++ post)) pre post c s split_block small)

  goes_on-perform_all :
      (n : ℕ) (file : Bytes) (offset : ℕ) (cs : List Command) (b : Bool) (s : S)
      → load_loop t n is_err_skip file offset s ≡ some (perform_all t is_err_skip cs s)
      → goes_on n file offset (b, s)
        ≡ some (if b then perform_all t is_err_skip cs s else (false, s))
  goes_on-perform_all n file offset cs true s e = e
  goes_on-perform_all n file offset cs false s e = refl

  load_loop-archive :
      (n : ℕ) (pre : Bytes) (cs : List Command) (s : S)
      → length cs < n
      → length (pre ++ archive cs) < 2 ^ 63
      → load_loop t n is_err_skip (pre ++ archive cs) (length pre) s
        ≡ some (perform_all t is_err_skip cs s)
  unfolding archive perform_all
  load_loop-archive zero pre cs s few small = absurd (omega arith)
  load_loop-archive (suc n) pre [] s few small =
      ap (λ (b : Bytes). load_loop t (suc n) is_err_skip b (length pre) s) (append-nil pre)
      ∙ loop_end n pre s
  load_loop-archive (suc n) pre (c ∷ cs) s few small =
      let next : pre ++ (block c ++ archive cs) ≡ (pre ++ block c) ++ archive cs =
        sym (append_assoc pre (block c) (archive cs)) in
      let s' = (perform t (trimmed c) s).1 in
      loop_block pre (archive cs) c small n s
      ∙ ap (λ (b : Bytes). goes_on n b (length (pre ++ block c)) (step c s)) next
      ∙ goes_on-perform_all n ((pre ++ block c) ++ archive cs) (length (pre ++ block c)) cs
          (step c s).0 s'
          (load_loop-archive n (pre ++ block c) cs s' (omega arith)
            (subst (λ (b : Bytes). length b < 2 ^ 63) next small))

  -- `Load` of an archive of commands, of less than `2 ^ 63` bytes and on fuel for one more round
  -- than it has commands, performs the commands in their order, each without the data that its type
  -- does not have, up to the first that fails, or all if failures are skipped.
  pub load-archive :
      (n : ℕ) (cs : List Command) (s : S)
      → length cs < n
      → length (archive cs) < 2 ^ 63
      → load t n is_err_skip (archive cs) s ≡ some (perform_all t is_err_skip cs s)
  unfolding load
  load-archive n cs s few small = load_loop-archive n [] cs s few small
