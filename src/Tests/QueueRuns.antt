-- ===== src/Tests/QueueRuns.antt =====
-- The theorems on the store and its queues at concrete stores.
use k2hash.Base.{ℕ, ◌≡◌, ◌≢◌, ◌⊎◌, refl, true, false, none, some, List, [], ◌∷◌, arith}
use k2hash.Bytes.{Bytes, compare_bytes}
use k2hash.Util.{is_same, bincmp}
use k2hash.Util.Names.{Apart}
use k2hash.Attrs.{Attrs}
use k2hash.Marker.{K2hMarker}
use k2hash.Shm.{Item, Db, get, get_item, remove}
use k2hash.Shm.Removal.{Under, remove-Under}
use k2hash.Queue.{Others, alone, one_subkey, is_empty_queue, get_count_queue, read_queue}
use k2hash.Queue.Add.{finished, add_fifo_queue, add_lifo_queue, lifo_round, lifo_locked}
use k2hash.Queue.Take.{popped, candidate, pop_round, pop_queue_ex, pop_queue}
use k2hash.Queue.Strip.{Verdict, Stripping, remove_queue}
use k2hash.Queue.Object.{Timespec, get_uniq_timespec, get_uniq_key_name}
use k2hash.Queue.Chain.{Holds}
use k2hash.Queue.Frame.{Holds-frame}
use k2hash.Queue.Fifo.{add_fifo_queue-Holds}
use k2hash.Queue.Lifo.{add_lifo_queue-Holds, lifo_round-Holds}
use k2hash.Queue.Front.{pop_queue_ex-Holds, pop_round-loses}
use k2hash.Queue.Live.{returned, first_live, shown, left, pop_queue-Holds}
use k2hash.Queue.Count.{key_at, observers-Holds}
use k2hash.Queue.Stripped.{plain_call, remove_queue-Holds, remove_queue-kept}
use k2hash.Queue.Race.{lifo_round-removes}
use k2hash.Queue.Names.{after, get_uniq_key_name-after}
use k2hash.Tests.Stores.{
  host, host_room, host_works, mark, three, IsName-one, one_apart, one_key, two_keys, empty_Holds,
  one_key_Holds, two_keys_Holds, three_fresh, plain_item,
}

abbrev first_key : Bytes
first_key = 1 ∷ []

abbrev second_key : Bytes
second_key = 2 ∷ []

abbrev third_item : List Bytes → Item
third_item subkeys = plain_item (33 ∷ []) subkeys

add_fifo_queue-Holds_example :
    (db' : Db) × (add_fifo_queue host mark three (alone ∷ []) two_keys ≡ some (true, db'))
    × Holds db' mark (first_key ∷ second_key ∷ three.key ∷ [])
    × (get_item db' three.key ≡ some (third_item []))
add_fifo_queue-Holds_example =
    add_fifo_queue-Holds host host_works mark three [] [] (33 ∷ []) (first_key ∷ second_key ∷ [])
      two_keys (IsName-one 3) (one_apart 9 3 (λ f. omega arith)) three_fresh refl two_keys_Holds

add_lifo_queue-Holds_example :
    (db' : Db) × (add_lifo_queue host mark three (alone ∷ []) two_keys ≡ some (true, db'))
    × Holds db' mark (three.key ∷ first_key ∷ second_key ∷ [])
    × (get_item db' three.key ≡ some (third_item (one_subkey first_key)))
add_lifo_queue-Holds_example =
    add_lifo_queue-Holds host host_works mark three [] [] (33 ∷ []) (first_key ∷ second_key ∷ [])
      two_keys (IsName-one 3) (one_apart 9 3 (λ f. omega arith)) three_fresh refl two_keys_Holds

pop_queue_ex-Holds_example :
    (db' : Db) × (pop_queue_ex host mark none (alone ∷ []) two_keys
      ≡ some (popped (candidate host mark none two_keys first_key) db'))
    × Holds db' mark (second_key ∷ [])
    × (get_item db' first_key ≡ none)
    × ((x : Bytes) → mark ≢ x → first_key ≢ x → get_item db' x ≡ get_item two_keys x)
pop_queue_ex-Holds_example =
    pop_queue_ex-Holds host host_works mark none [] first_key (second_key ∷ []) two_keys
      two_keys_Holds

-- The key 2 is pushed before the pop locks the marker.
abbrev pushing : Others
pushing = record { before_set = λ d. one_key; before_lock = λ d. two_keys; before_read = λ d. d }

pop_round-loses_example :
    (db' : Db) × (pop_round host mark none pushing one_key
      ≡ popped (candidate host mark none one_key first_key) db')
    × Holds db' mark []
    × ((x : Bytes) → Apart x (mark ∷ first_key ∷ []) → get_item db' x ≡ get_item two_keys x)
pop_round-loses_example =
    pop_round-loses host host_works mark none pushing first_key (second_key ∷ []) one_key
      (λ d. refl) one_key_Holds two_keys_Holds

pop_queue-Holds_example :
    (db' : Db) × (pop_queue host mark none 3 (alone ∷ []) two_keys
      ≡ some (
          returned
            (first_live (shown host host_works mark none two_keys (first_key ∷ second_key ∷ [])))
            db'))
    × Holds db' mark
        (left (first_live (shown host host_works mark none two_keys (first_key ∷ second_key ∷ []))))
pop_queue-Holds_example =
    pop_queue-Holds host host_works mark none 3 [] (first_key ∷ second_key ∷ []) two_keys
      (omega arith) two_keys_Holds

observers-Holds_example :
    (is_empty_queue host mark two_keys ≡ false)
    × (get_count_queue host mark 3 two_keys ≡ some 2)
    × ((n : ℕ) → read_queue host mark (some n) two_keys ≡ key_at n (first_key ∷ second_key ∷ []))
    × (read_queue host mark none two_keys ≡ second_key)
observers-Holds_example =
    observers-Holds host mark (first_key ∷ second_key ∷ []) two_keys 3 (omega arith) two_keys_Holds

remove_queue-Holds_example :
    (db' : Db) × (remove_queue host mark
        (plain_call host host_works mark none)
        (λ n. alone)
        1
        two_keys
      ≡ some (1, db'))
    × Holds db' mark (second_key ∷ [])
remove_queue-Holds_example =
    remove_queue-Holds host host_works mark none 1 (first_key ∷ second_key ∷ []) two_keys
      two_keys_Holds

-- The callback keeps values of 11 and removes all others.
abbrev keep_eleven : Bytes → Attrs → Verdict
keep_eleven value attrs = elim (is_same value (11 ∷ [])) [
  | true ↦ Verdict.res_con_notrm
  | false ↦ Verdict.res_con_rm
]

abbrev keeping : Stripping
keeping = record { rmkeyval = true; callback = some keep_eleven; encpass = none }

remove_queue-kept_example :
    remove_queue host mark keeping (λ n. alone) 2 two_keys ≡ some (0, two_keys)
unfolding get get_item is_same bincmp compare_bytes
remove_queue-kept_example =
    remove_queue-kept host mark keeping 2 first_key (second_key ∷ []) two_keys refl two_keys_Holds

lifo_round-Holds_example :
    (db' : Db) × (lifo_round host mark three alone none [] ≡ finished true db')
    × Holds db' mark (three.key ∷ [])
    × (get_item db' three.key ≡ some (third_item (one_subkey [])))
unfolding get_item
lifo_round-Holds_example =
    lifo_round-Holds host host_works mark three alone none [] (33 ∷ []) [] [] (IsName-one 3)
      (one_apart 9 3 (λ f. omega arith)) tt refl refl
      (λ d s. (
        Holds-frame [] d mark three.key [] s.there (λ f. one_apart 3 9 (λ g. omega arith) f) tt
            empty_Holds,
        s.here,
      ))
      refl

-- The first try put the key 3 in front of the key 1; now the queue starts with the key 2.
abbrev tried : Db
tried = (three.key, third_item (first_key ∷ [])) ∷ two_keys

tried_three : get_item tried three.key ≡ some (third_item (first_key ∷ []))
unfolding get_item is_same bincmp compare_bytes
tried_three = refl

abbrev at_second : K2hMarker
at_second = record { startlen = 1; startoff = 32; endlen = 1; endoff = 33; body = 2 ∷ 2 ∷ [] }

lifo_round-removes_example :
    (d : Db) × (lifo_round host mark three alone (some at_second) tried
      ≡ lifo_locked host mark three alone (some at_second) d)
    × (get_item d first_key ≡ none)
lifo_round-removes_example =
    lifo_round-removes host mark three alone (some at_second) first_key 2 []
      (third_item (first_key ∷ [])) [] (33 ∷ []) tried host_room (λ f. ground arith) tried_three
      refl refl (one_apart 1 2 (λ f. omega arith)) refl

remove-Under_example :
    (db' : Db) × (remove first_key true two_keys ≡ (true, db'))
    × ((x : Bytes) → Under two_keys first_key x → get_item db' x ≡ none)
    × ((x : Bytes)
        → (get_item db' x ≡ get_item two_keys x)
          ⊎ ((get_item db' x ≡ none) × Under two_keys first_key x))
remove-Under_example = remove-Under 1 [] two_keys

abbrev noon : Timespec
noon = record { tv_sec = 43200; tv_nsec = 999999998 }

get_uniq_key_name-after_example :
    get_uniq_key_name (80 ∷ []) 7 (after 1 noon) ≢ get_uniq_key_name (80 ∷ []) 7 (after 3 noon)
unfolding get_uniq_timespec
get_uniq_key_name-after_example =
    get_uniq_key_name-after 80 [] 7 1 3 noon (omega arith) (omega arith) (omega arith)
      (λ f. omega arith)
