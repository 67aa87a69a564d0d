-- ===== src/Command/Replay.antt =====
-- `K2HArchive::Load` of lib/k2harchive.cc on the bytes of a file.
use k2hash.Base.{
  ℕ, zero, suc, ◌+◌, ◌%◌, ◌^◌, Bool, true, false, Option, none, some, List, [], ◌∷◌, ◌==◌, leb,
  if◌then◌else◌, length, take, drop,
}
use k2hash.Bytes.{Bytes, get_size}
use k2hash.Command.{
  scom_size, Kind, set_all, replace_val, replace_skey, del_key, ow_val, replace_attrs, rename,
  kind_of, Command, Place, Places, scom_total_length,
}

-- `ReadFile`: all of `count` bytes at an offset, which is an `off_t`.
unfoldable pub read_file : Bytes → (count offset : ℕ) → Option Bytes
read_file file count offset =
    if count == 0
    then none
    else if leb (2 ^ 63) offset
    then none
    else if leb (offset + count) (length file)
    then some (take count (drop offset file))
    else none

unfoldable pub get_sizes : ℕ → Bytes → List ℕ
get_sizes zero b = []
get_sizes (suc n) b = elim (get_size b) [ none ↦ [] | some s ↦ s ∷ get_sizes n (drop 8 b) ]

-- The header as the code reads its fields.
unfoldable pub scom_of : List ℕ → Option (ℕ × Places)
scom_of (t ∷ k ∷ v ∷ s ∷ a ∷ e ∷ kp ∷ vp ∷ sp ∷ ap ∷ ep ∷ []) = some (
  t,
  record {
    key = record { len = k; pos = kp };
    val = record { len = v; pos = vp };
    skey = record { len = s; pos = sp };
    attrs = record { len = a; pos = ap };
    exdata = record { len = e; pos = ep };
  },
)
scom_of ns = none

-- One of the five reads of data: none is needed for a length of 0.
unfoldable pub read_part : Bytes → (offset : ℕ) → Place → Option Bytes
read_part file offset p =
    if p.len == 0 then some [] else read_file file p.len ((offset + p.pos) % 2 ^ 64)

unfoldable pub read_parts : Bytes → (offset : ℕ) → Kind → Places → Option Command
read_parts file offset kind p = elim (read_part file offset p.key) [
  | none ↦ none
  | some k ↦ elim (read_part file offset p.val) [
    | none ↦ none
    | some v ↦ elim (read_part file offset p.skey) [
      | none ↦ none
      | some s ↦ elim (read_part file offset p.attrs) [
        | none ↦ none
        | some a ↦ elim (read_part file offset p.exdata) [
          | none ↦ none
          | some e ↦
              some (record { kind = kind; key = k; val = v; skey = s; attrs = a; exdata = e })
        ]
      ]
    ]
  ]
]

-- The store as `Load` calls it.
pub record Target (S : Type 0) : Type 0 where
  pub replace_all : (key val skey attrs : Bytes) → S → Bool × S
  pub replace_value : (key val : Bytes) → S → Bool × S
  pub replace_subkeys : (key skey : Bytes) → S → Bool × S
  pub replace_attributes : (key attrs : Bytes) → S → Bool × S
  pub remove_key : (key : Bytes) → S → Bool × S
  -- Direct access: the value, from an offset on.
  pub over_write_value : (key val exdata : Bytes) → S → Bool × S
  pub rename_key : (key exdata attrs : Bytes) → S → Bool × S

module _ {S : Type 0} (t : Target S) where
  -- The dispatch over the type.
  unfoldable pub perform : Command → S → Bool × S
  perform c s = elim c.kind [
    | set_all ↦ t.replace_all c.key c.val c.skey c.attrs s
    | replace_val ↦ t.replace_value c.key c.val s
    | replace_skey ↦ t.replace_subkeys c.key c.skey s
    | replace_attrs ↦ t.replace_attributes c.key c.attrs s
    | del_key ↦ t.remove_key c.key s
    | ow_val ↦ elim c.exdata [
      | [] ↦ (false, s)
      | b ∷ bs ↦ t.over_write_value c.key c.val (b ∷ bs) s
    ]
    | rename ↦ t.rename_key c.key c.exdata c.attrs s
  ]

  -- The body of the loop for a header that was read: whether the loop goes on, and the store.
  unfoldable pub load_one : (is_err_skip : Bool) → Bytes → (offset : ℕ) → ℕ → Places → S → Bool × S
  load_one is_err_skip file offset type p s = elim (kind_of type) [
    | none ↦ (is_err_skip, s)
    | some kind ↦ elim (read_parts file offset kind p) [
      | none ↦ (is_err_skip, s)
      | some c ↦ let (ok, s') = perform c s in (if ok then true else is_err_skip, s')
    ]
  ]

  -- The loop of `Load`, on fuel: `none` is a loop that goes on.
  unfoldable pub load_loop : ℕ → (is_err_skip : Bool) → Bytes → (offset : ℕ) → S → Option (Bool × S)
  load_loop zero is_err_skip file offset s = none
  load_loop (suc n) is_err_skip file offset s = elim (read_file file scom_size offset) [
    | none ↦ some (true, s)
    | some header ↦ elim (scom_of (get_sizes 11 (drop 16 header))) [
      | none ↦ some (true, s)
      | some (type, p) ↦
          let (goes_on, s') = load_one is_err_skip file offset type p s in
          elim goes_on [
            | true ↦ load_loop n is_err_skip file ((offset + scom_total_length p) % 2 ^ 64) s'
            | false ↦ some (false, s')
          ]
    ]
  ]

  -- `Load`
  unfoldable pub load : ℕ → (is_err_skip : Bool) → Bytes → S → Option (Bool × S)
  load fuel is_err_skip file s = load_loop fuel is_err_skip file 0 s
