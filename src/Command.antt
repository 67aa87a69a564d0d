-- ===== src/Command.antt =====
-- The commands of lib/k2hcommand.cc, as they stand in an archive and in a transaction, and the loading
-- of an archive (lib/k2harchive.cc).
pub mod Layout
pub mod Parts
pub mod Replay
pub mod Trip
use k2hash.Base.{
  ℕ, zero, suc, ◌+◌, ◌%◌, ◌^◌, ◌≤◌, Bool, true, false, Option, none, some, List, [], ◌∷◌, ◌++◌,
  ◌==◌, ltb, leb, if◌then◌else◌, length, take, drop,
}
use k2hash.Bytes.{Bytes, put_size, get_size}

-- `sizeof(SCOM)`: a string, the type, five lengths and five positions.
abbrev pub scom_size : ℕ
scom_size = 104

-- `SCOM_SET_ALL` and the others.
pub data Kind : Type 0 where
  set_all : Kind
  replace_val : Kind
  replace_skey : Kind
  del_key : Kind
  ow_val : Kind
  replace_attrs : Kind
  rename : Kind

unfoldable pub code : Kind → ℕ
code set_all = 0
code replace_val = 1
code replace_skey = 2
code del_key = 3
code ow_val = 4
code replace_attrs = 5
code rename = 6

-- `none` is a type outside of `SCOM_TYPE_MIN` and `SCOM_TYPE_MAX`.
unfoldable pub kind_of : ℕ → Option Kind
kind_of n =
    if n == 0
    then some set_all
    else if n == 1
    then some replace_val
    else if n == 2
    then some replace_skey
    else if n == 3
    then some del_key
    else if n == 4
    then some ow_val
    else if n == 5
    then some replace_attrs
    else if n == 6
    then some rename
    else none

-- `szCommand`: `SCOM_COMSTR_PREFIX` and the name, filled up with zeros to 16 bytes.
unfoldable pub command_string : Kind → Bytes
command_string set_all =
    10 ∷ 75 ∷ 50 ∷ 72 ∷ 95 ∷ 83 ∷ 69 ∷ 84 ∷ 95 ∷ 65 ∷ 76 ∷ 76 ∷ 0 ∷ 0 ∷ 0 ∷ 0 ∷ []
command_string replace_val =
    10 ∷ 75 ∷ 50 ∷ 72 ∷ 95 ∷ 82 ∷ 69 ∷ 80 ∷ 95 ∷ 86 ∷ 65 ∷ 76 ∷ 0 ∷ 0 ∷ 0 ∷ 0 ∷ []
command_string replace_skey =
    10 ∷ 75 ∷ 50 ∷ 72 ∷ 95 ∷ 82 ∷ 69 ∷ 80 ∷ 95 ∷ 83 ∷ 75 ∷ 69 ∷ 89 ∷ 0 ∷ 0 ∷ 0 ∷ []
command_string del_key =
    10 ∷ 75 ∷ 50 ∷ 72 ∷ 95 ∷ 68 ∷ 69 ∷ 76 ∷ 95 ∷ 75 ∷ 69 ∷ 89 ∷ 0 ∷ 0 ∷ 0 ∷ 0 ∷ []
command_string ow_val =
    10 ∷ 75 ∷ 50 ∷ 72 ∷ 95 ∷ 79 ∷ 87 ∷ 95 ∷ 86 ∷ 65 ∷ 76 ∷ 0 ∷ 0 ∷ 0 ∷ 0 ∷ 0 ∷ []
command_string replace_attrs =
    10 ∷ 75 ∷ 50 ∷ 72 ∷ 95 ∷ 82 ∷ 69 ∷ 80 ∷ 95 ∷ 65 ∷ 84 ∷ 84 ∷ 82 ∷ 83 ∷ 0 ∷ 0 ∷ []
command_string rename =
    10 ∷ 75 ∷ 50 ∷ 72 ∷ 95 ∷ 82 ∷ 69 ∷ 78 ∷ 95 ∷ 75 ∷ 69 ∷ 89 ∷ 0 ∷ 0 ∷ 0 ∷ 0 ∷ []

-- The data of a command.
pub record Command : Type 0 where
  pub kind : Kind
  pub key : Bytes
  pub val : Bytes
  pub skey : Bytes
  pub attrs : Bytes
  pub exdata : Bytes

-- The lengths and the positions of `SCOM`.
pub record Place : Type 0 where
  pub len : ℕ
  pub pos : ℕ

pub record Places : Type 0 where
  pub key : Place
  pub val : Place
  pub skey : Place
  pub attrs : Place
  pub exdata : Place

abbrev pub at : ℕ → Bytes → Place
at pos b = record { len = length b; pos = pos }

-- What `scom_init` leaves.
abbrev pub nowhere : Place
nowhere = record { len = 0; pos = scom_size }

-- The places that `Put` writes, for each type.
unfoldable pub places : Command → Places
places c =
    let key = at scom_size c.key in
    let first = scom_size + length c.key in
    elim c.kind [
      | set_all ↦ record {
        key = key;
        val = at first c.val;
        skey = at (first + length c.val) c.skey;
        attrs = at (first + length c.val + length c.skey) c.attrs;
        exdata = nowhere;
      }
      | replace_val ↦ record {
        key = key;
        val = at first c.val;
        skey = nowhere;
        attrs = nowhere;
        exdata = nowhere;
      }
      | replace_skey ↦ record {
        key = key;
        val = nowhere;
        skey = at first c.skey;
        attrs = nowhere;
        exdata = nowhere;
      }
      | del_key ↦ record {
        key = key;
        val = nowhere;
        skey = nowhere;
        attrs = nowhere;
        exdata = nowhere;
      }
      | ow_val ↦ record {
        key = key;
        val = at first c.val;
        skey = nowhere;
        attrs = nowhere;
        exdata = at (first + length c.val) c.exdata;
      }
      | replace_attrs ↦ record {
        key = key;
        val = nowhere;
        skey = nowhere;
        attrs = at first c.attrs;
        exdata = nowhere;
      }
      | rename ↦ record {
        key = key;
        val = nowhere;
        skey = nowhere;
        attrs = at first c.attrs;
        exdata = at (first + length c.attrs) c.exdata;
      }
    ]

-- The bytes behind the header.
unfoldable pub payload : Command → Bytes
payload c = c.key ++ elim c.kind [
  | set_all ↦ c.val ++ (c.skey ++ c.attrs)
  | replace_val ↦ c.val
  | replace_skey ↦ c.skey
  | del_key ↦ []
  | ow_val ↦ c.val ++ c.exdata
  | replace_attrs ↦ c.attrs
  | rename ↦ c.attrs ++ c.exdata
]

unfoldable pub put_sizes : List ℕ → Bytes
put_sizes [] = []
put_sizes (n ∷ ns) = put_size n ++ put_sizes ns

abbrev pub fields : ℕ → Places → List ℕ
fields type p =
    type ∷ p.key.len ∷ p.val.len ∷ p.skey.len ∷ p.attrs.len ∷ p.exdata.len ∷ p.key.pos ∷ p.val.pos
    ∷ p.skey.pos ∷ p.attrs.pos ∷ p.exdata.pos ∷ []

-- The memory that `Put` makes of a command, with a key.
unfoldable pub block : Command → Bytes
block c = command_string c.kind ++ (put_sizes (fields (code c.kind) (places c)) ++ payload c)

-- `K2HCommandArchive::Put`; `none` is the return value false.
unfoldable pub put : ℕ → (key val skey attrs exdata : Bytes) → Option Bytes
put type [] val skey attrs exdata = none
put type (b ∷ bs) val skey attrs exdata = elim (kind_of type) [
  | none ↦ none
  | some kind ↦ some (
      block (record {
        kind = kind;
        key = b ∷ bs;
        val = val;
        skey = skey;
        attrs = attrs;
        exdata = exdata;
      }))
]

-- `scom_total_length`
unfoldable pub scom_total_length : Places → ℕ
scom_total_length p =
    (scom_size + p.key.len + p.val.len + p.skey.len + p.attrs.len + p.exdata.len) % 2 ^ 64
