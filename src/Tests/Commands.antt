-- ===== src/Tests/Commands.antt =====
-- The commands of an archive at concrete values.
use k2hash.Base.{◌≡◌, true, false, some, List, [], ◌∷◌, arith}
use k2hash.Bytes.{Bytes, encode}
use k2hash.Command.{
  Command, set_all, del_key, block, command_string, put_sizes, code, places, payload,
}
use k2hash.Command.Replay.{Target, load}
use k2hash.Command.Trip.{archive, perform_all, load-archive}

-- A target that logs the keys, and fails to remove keys.
abbrev log : Target (List Bytes)
log = record {
  replace_all = λ key val skey attrs s. (true, key ∷ s);
  replace_value = λ key val s. (true, key ∷ s);
  replace_subkeys = λ key skey s. (true, key ∷ s);
  replace_attributes = λ key attrs s. (true, key ∷ s);
  remove_key = λ key s. (false, key ∷ s);
  over_write_value = λ key val exdata s. (true, key ∷ s);
  rename_key = λ key exdata attrs s. (true, key ∷ s);
}

abbrev set_one : Command
set_one = record { kind = set_all; key = 1 ∷ []; val = 11 ∷ []; skey = []; attrs = []; exdata = [] }

abbrev delete_two : Command
delete_two = record { kind = del_key; key = 2 ∷ []; val = []; skey = []; attrs = []; exdata = [] }

abbrev both : List Command
both = set_one ∷ delete_two ∷ []

load-archive_example : load log 3 false (archive both) [] ≡ some (perform_all log false both [])
unfolding archive block command_string put_sizes code places payload encode
load-archive_example = load-archive log false 3 both [] (omega arith) (omega arith)
