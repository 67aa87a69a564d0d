-- ===== src/Tests/Queues.antt =====
-- History keys and queue markers at concrete values.
use k2hash.Base.{◌≡◌, true, some, [], ◌∷◌, arith}
use k2hash.Bytes.{Bytes}
use k2hash.History.{make_history_key, parse_history_key}
use k2hash.History.Trip.{text_nil, text_cons, parse_history_key-make_history_key}

-- The key has a NUL of its own.
parse_history_key-make_history_key_example :
    (key : Bytes) × (make_history_key true (107 ∷ 0 ∷ []) (49 ∷ 50 ∷ []) ≡ some key)
    × (parse_history_key true key ≡ some (107 ∷ 0 ∷ [], 49 ∷ 50 ∷ []))
parse_history_key-make_history_key_example =
    parse_history_key-make_history_key 107 (0 ∷ []) 49 (50 ∷ [])
      (text_cons (λ f. omega arith) (text_cons (λ f. omega arith) text_nil))
