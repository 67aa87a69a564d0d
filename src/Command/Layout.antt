-- ===== src/Command/Layout.antt =====
-- What `Load` reads of a command that `Put` laid out.
use k2hash.Base.{
  ℕ, suc, ◌+◌, ◌*◌, ◌%◌, ◌^◌, ◌<◌, ◌≡◌, refl, ap, sym, ◌∙◌, true, false, some, List, [], ◌∷◌, ◌++◌,
  ◌==◌, leb, length, take, drop, take-append, drop-append, length-append, append_assoc, arith,
}
use k2hash.Bytes.{Bytes, put_size, get_size}
use k2hash.Bytes.Word.{length-encode, get_size-put_size, drop-encode}
use k2hash.Command.{
  scom_size, Kind, set_all, replace_val, replace_skey, del_key, ow_val, replace_attrs, rename, code,
  kind_of, command_string, Command, at, places, put_sizes, fields,
}
use k2hash.Command.Replay.{read_file, get_sizes, scom_of, read_part}

-- All of the bytes of a part of the file.
pub read_file-here :
    (file pre part post : Bytes)
    → file ≡ pre ++ (part ++ post)
    → 0 < length part
    → length file < 2 ^ 63
    → read_file file (length part) (length pre) ≡ some part
unfolding read_file
read_file-here file pre part post e some_bytes small =
    let size : length file ≡ length pre + (length part + length post) =
      ap (λ (t : Bytes). length t) e
      ∙ length-append pre (part ++ post)
      ∙ ap (λ (n : ℕ). length pre + n) (length-append part post) in
    let filled : (length part == 0) ≡ false = ground arith in
    let offset : leb (2 ^ 63) (length pre) ≡ false = ground arith in
    let within : leb (length pre + length part) (length file) ≡ true = ground arith in
    rw (read_file, filled, offset, within)
      (ap some (
        ap (λ (t : Bytes). take (length part) (drop (length pre) t)) e
        ∙ ap (take (length part)) (drop-append pre (part ++ post))
        ∙ take-append part post))

-- A part of the payload at its position behind the header.
pub read_part-at :
    (file pre header a part b : Bytes) (pos : ℕ)
    → file ≡ pre ++ (header ++ (a ++ (part ++ b)))
    → length header ≡ scom_size
    → pos ≡ scom_size + length a
    → length file < 2 ^ 63
    → read_part file (length pre) (at pos part) ≡ some part
unfolding read_part
read_part-at file pre header a [] b pos e h p small = refl
read_part-at file pre header a (x ∷ part) b pos e h p small =
    let e' : file ≡ (pre ++ (header ++ a)) ++ ((x ∷ part) ++ b) =
      e
      ∙ ap (◌++◌ pre) (sym (append_assoc header a ((x ∷ part) ++ b)))
      ∙ sym (append_assoc pre (header ++ a) ((x ∷ part) ++ b)) in
    let size : length (pre ++ (header ++ a)) ≡ length pre + (length header + length a) =
      length-append pre (header ++ a) ∙ ap (λ (n : ℕ). length pre + n) (length-append header a) in
    let total : length file ≡ length (pre ++ (header ++ a)) + length ((x ∷ part) ++ b) =
      ap (λ (t : Bytes). length t) e' ∙ length-append (pre ++ (header ++ a)) ((x ∷ part) ++ b) in
    let offset : (length pre + pos) % 2 ^ 64 ≡ length (pre ++ (header ++ a)) =
      omega (arith, size, h, p, total, small) in
    let filled : (suc (length part) == 0) ≡ false = ground arith in
    rw (read_part, filled, offset)
      (read_file-here file (pre ++ (header ++ a)) (x ∷ part) b e' (omega arith) small)

-- Numbers that fit in a `size_t`.
abbrev pub Fit : List ℕ → Type 0
Fit [] = Unit
Fit (n ∷ ns) = (n < 2 ^ 64) × Fit ns

get_sizes_step :
    (n : ℕ) (b : Bytes) (s : ℕ)
    → get_size b ≡ some s
    → get_sizes (suc n) b ≡ s ∷ get_sizes n (drop 8 b)
unfolding get_sizes
get_sizes_step n b s e = rw (get_sizes, e) refl

get_sizes-put_sizes : (ns : List ℕ) → Fit ns → get_sizes (length ns) (put_sizes ns) ≡ ns
unfolding get_sizes put_sizes
get_sizes-put_sizes [] f = refl
get_sizes-put_sizes (n ∷ ns) f =
    get_sizes_step (length ns) (put_size n ++ put_sizes ns) n
      (get_size-put_size n (put_sizes ns) f.0)
    ∙ ap (λ (b : Bytes). n ∷ get_sizes (length ns) b) (drop-encode 8 n (put_sizes ns))
    ∙ ap (◌∷◌ n) (get_sizes-put_sizes ns f.1)

length-put_sizes : (ns : List ℕ) → length (put_sizes ns) ≡ 8 * length ns
unfolding put_sizes
length-put_sizes [] = omega arith
length-put_sizes (n ∷ ns) =
    omega (arith, length-append (put_size n) (put_sizes ns), length-encode 8 n, length-put_sizes ns)

length-command_string : (k : Kind) → length (command_string k) ≡ 16
unfolding command_string
length-command_string set_all = refl
length-command_string replace_val = refl
length-command_string replace_skey = refl
length-command_string del_key = refl
length-command_string ow_val = refl
length-command_string replace_attrs = refl
length-command_string rename = refl

pub kind_of-code : (k : Kind) → kind_of (code k) ≡ some k
unfolding kind_of code
kind_of-code set_all = refl
kind_of-code replace_val = refl
kind_of-code replace_skey = refl
kind_of-code del_key = refl
kind_of-code ow_val = refl
kind_of-code replace_attrs = refl
kind_of-code rename = refl

-- The header of a command, and its fields as they are read.
abbrev pub header : Command → Bytes
header c = command_string c.kind ++ put_sizes (fields (code c.kind) (places c))

pub length-header : (c : Command) → length (header c) ≡ scom_size
length-header c =
    length-append (command_string c.kind) (put_sizes (fields (code c.kind) (places c)))
    ∙ omega
        (arith, length-command_string c.kind, length-put_sizes (fields (code c.kind) (places c)))

drop_16 : (k : Kind) (b : Bytes) → drop 16 (command_string k ++ b) ≡ b
unfolding command_string
drop_16 set_all b = refl
drop_16 replace_val b = refl
drop_16 replace_skey b = refl
drop_16 del_key b = refl
drop_16 ow_val b = refl
drop_16 replace_attrs b = refl
drop_16 rename b = refl

pub scom_of-header :
    (c : Command)
    → Fit (fields (code c.kind) (places c))
    → scom_of (get_sizes 11 (drop 16 (header c))) ≡ some (code c.kind, places c)
unfolding scom_of
scom_of-header c f =
    ap (λ (b : Bytes). scom_of (get_sizes 11 b))
      (drop_16 c.kind (put_sizes (fields (code c.kind) (places c))))
    ∙ ap scom_of (get_sizes-put_sizes (fields (code c.kind) (places c)) f)

-- A command without the data that its type does not have.
abbrev pub trimmed : Command → Command
trimmed c = elim c.kind [
  | set_all ↦ record c { exdata = [] }
  | replace_val ↦ record c { skey = []; attrs = []; exdata = [] }
  | replace_skey ↦ record c { val = []; attrs = []; exdata = [] }
  | del_key ↦ record c { val = []; skey = []; attrs = []; exdata = [] }
  | ow_val ↦ record c { skey = []; attrs = [] }
  | replace_attrs ↦ record c { val = []; skey = []; exdata = [] }
  | rename ↦ record c { val = []; skey = [] }
]
