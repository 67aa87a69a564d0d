-- ===== src/Queue/Live.antt =====
-- `PopQueue` returns the first key of the queue that is not expired.
use k2hash.Base.{
  ℕ, zero, suc, ◌<◌, ◌≡◌, ◌≢◌, refl, ap, subst, sym, ◌∙◌, true, false, Bool-cases, Option, none,
  some, inl, inr, List, [], ◌∷◌, map, length, arith,
}
use k2hash.Bytes.{Bytes}
use k2hash.Util.Names.{Apart}
use k2hash.Shm.{Db, Host, get_item}
use k2hash.Queue.{Others, alone}
use k2hash.Queue.Chain.{Chained-mark, Holds}
use k2hash.Queue.Written.{Works}
use k2hash.Queue.Take.{Popped, Pop, nothing, popped, candidate, pop_queue_ex, pop_queue}
use k2hash.Queue.Front.{pop_queue_ex-Holds, pop_queue_ex-nothing}

-- The first entry that is not expired, with the entries behind it.
unfoldable pub first_live : List Popped → Option (Popped × List Popped)
first_live [] = none
first_live (c ∷ cs) = elim c.is_expired [ true ↦ first_live cs | false ↦ some (c, cs) ]

-- The keys behind it, or none.
abbrev pub left : Option (Popped × List Popped) → List Bytes
left none = []
left (some t) = map (λ c. c.key) t.1

-- What is returned for it.
abbrev pub returned : Option (Popped × List Popped) → Db → Pop
returned none db = nothing db
returned (some t) db = popped t.0 db

first_live_dead :
    (c : Popped) (cs : List Popped) → c.is_expired ≡ true → first_live (c ∷ cs) ≡ first_live cs
unfolding first_live
first_live_dead c cs e = rw (first_live, e) refl

first_live_here :
    (c : Popped) (cs : List Popped) → c.is_expired ≡ false → first_live (c ∷ cs) ≡ some (c, cs)
unfolding first_live
first_live_here c cs e = simp (first_live, e)

first_live_nil : first_live [] ≡ none
unfolding first_live
first_live_nil = refl

module _ (h : Host) (works : Works h) (mark : Bytes) (encpass : Option Bytes) where
  -- The keys of a queue as a pop reads them.
  abbrev pub shown : Db → List Bytes → List Popped
  shown db [] = []
  shown db (k ∷ ks) = candidate h mark encpass db k ∷ shown db ks

  keys-shown : (db : Db) (ks : List Bytes) → map (λ (c : Popped). c.key) (shown db ks) ≡ ks
  keys-shown db [] = refl
  keys-shown db (k ∷ ks) = ap (◌∷◌ k) (keys-shown db ks)

  shown-same :
      (db db' : Db) (k : Bytes) (ks : List Bytes)
      → ((x : Bytes) → mark ≢ x → k ≢ x → get_item db' x ≡ get_item db x)
      → Apart mark ks
      → Apart k ks
      → shown db' ks ≡ shown db ks
  shown-same db db' k [] same m a = refl
  shown-same db db' k (x ∷ ks) same m a =
      rw (same x m.0 a.0, shown-same db db' k ks same m.1 a.1) refl

  pop_skip :
      (n : ℕ) (os : List Others) (db db' : Db) (c : Popped)
      → pop_queue_ex h mark encpass os db ≡ some (popped c db')
      → c.is_expired ≡ true
      → pop_queue h mark encpass (suc n) os db ≡ pop_queue h mark encpass n os db'
  unfolding pop_queue
  pop_skip n os db db' c e f = rw (pop_queue, e, f) refl

  pop_stop :
      (n : ℕ) (os : List Others) (db db' : Db) (c : Popped)
      → pop_queue_ex h mark encpass os db ≡ some (popped c db')
      → c.is_expired ≡ false
      → pop_queue h mark encpass (suc n) os db ≡ some (popped c db')
  unfolding pop_queue
  pop_stop n os db db' c e f = simp (pop_queue, e, f)

  pop_nothing :
      (n : ℕ) (os : List Others) (db : Db)
      → pop_queue_ex h mark encpass os db ≡ some (nothing db)
      → pop_queue h mark encpass (suc n) os db ≡ some (nothing db)
  unfolding pop_queue
  pop_nothing n os db e = rw (pop_queue, e) refl

  -- A pop that returns what `live` is, and leaves the keys behind it.
  abbrev Takes : ℕ → List Others → Db → Option (Popped × List Popped) → Type 0
  Takes n os db live =
      (db' : Db) × (pop_queue h mark encpass n (alone ∷ os) db ≡ some (returned live db'))
      × Holds db' mark (left live)

  -- On a host that has room and leaves the value of a marker, without other processes, `PopQueue`
  -- of a queue that holds `ks`, on more fuel than these are, ends. It returns the first key that is
  -- not expired, or nothing if there is none, and the queue then holds the keys behind that one.
  pub pop_queue-Holds :
      (n : ℕ) (os : List Others) (ks : List Bytes) (db : Db)
      → length ks < n
      → Holds db mark ks
      → (db' : Db) × (pop_queue h mark encpass n (alone ∷ os) db
          ≡ some (returned (first_live (shown db ks)) db'))
        × Holds db' mark (left (first_live (shown db ks)))
  pop_queue-Holds zero os ks db few q = absurd (omega arith)
  pop_queue-Holds (suc n) os [] db few q =
      subst (Takes (suc n) os db) (sym first_live_nil)
        (db, pop_nothing n (alone ∷ os) db (pop_queue_ex-nothing h works mark encpass os db q), q)
  pop_queue-Holds (suc n) os (k ∷ ks) db few q =
      let c = candidate h mark encpass db k in
      let (db1, run, q1, gone, same) = pop_queue_ex-Holds h works mark encpass os k ks db q in
      let shown1 : shown db1 ks ≡ shown db ks =
        shown-same db db1 k ks same (Chained-mark db mark ks q.chained.1) q.chained.0.apart in
      elim (Bool-cases c.is_expired) [
        | inl e ↦
            let (db', rest, q') = pop_queue-Holds n os ks db1 (omega arith) q1 in
            subst (Takes (suc n) os db)
              (ap first_live shown1 ∙ sym (first_live_dead c (shown db ks) e))
              (db', pop_skip n (alone ∷ os) db db1 c run e ∙ rest, q')
        | inr e ↦ subst (Takes (suc n) os db) (sym (first_live_here c (shown db ks) e)) (
          db1,
          pop_stop n (alone ∷ os) db db1 c run e,
          subst (Holds db1 mark) (sym (keys-shown db ks)) q1,
        )
      ]
