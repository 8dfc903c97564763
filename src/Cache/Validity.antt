-- ===== src/Cache/Validity.antt =====
-- A cache of bounded_cache.py never holds two entries for a key nor more than its size allows.
use costpilot.Prelude.{
  ℕ, zero, suc, ◌+◌, ◌-◌, ◌≤◌, ◌≡◌, refl, Bool, false, not, Option, some, List, [], ◌∷◌, String,
  arith, length, length-append, length-select-le, select, Option-cases, inl, inr, text_of_python,
}
use costpilot.Dict
use costpilot.Dict.{IsDict}
use costpilot.Dict.Laws.{
  append-IsDict, delete-IsDict, contains-delete_self, move_to_end-delete, length-delete,
  contains-get,
}
use costpilot.Cache.{Cache, Entries, get, set, delete, clear, cleanup, ttl_or, is_expired}
use costpilot.Cache.Recency.{touch, drop, set-recency, cleanup-select}

-- A method call of the cache's clients.
pub data Op {ℓ} (V : Type ℓ) : Type ℓ where
  get_op : String → ℕ → Op V
  set_op : String → V → Option ℕ → ℕ → Op V
  delete_op : String → Op V
  clear_op : Op V
  cleanup_op : ℕ → Op V

pub record IsValid {ℓ} {V : Type ℓ} (c : Cache V) : Type ℓ where
  pub unique : IsDict c.entries
  pub bounded : length c.entries ≤ c.max_size

module _ {ℓ} {V : Type ℓ} where
  unfoldable pub step : Cache V → Op V → Cache V
  step c (get_op key now) = (get c key now).0
  step c (set_op key value ttl now) = set c key value ttl now
  step c (delete_op key) = (delete c key).0
  step c clear_op = (clear c).0
  step c (cleanup_op now) = (cleanup c now).0

  unfoldable pub run : Cache V → List (Op V) → Cache V
  unfolding step
  run c [] = c
  run c (o ∷ os) = run (step c o) os

  touch-IsDict : (k : String) (e : V × ℕ) (d : Entries V) → IsDict d → IsDict (touch k e d)
  unfolding touch
  touch-IsDict k e d h =
      append-IsDict k e (Dict.delete k d) (delete-IsDict k d h) (contains-delete_self k d h)

  drop-IsDict : (n : ℕ) (d : Entries V) → IsDict d → IsDict (drop n d)
  drop-IsDict zero d h = h
  drop-IsDict (suc n) [] h = h
  drop-IsDict (suc n) (e ∷ d) h = drop-IsDict n d h.1

  length-drop : (n : ℕ) (d : Entries V) → length (drop n d) ≡ length d - n
  length-drop zero d = omega arith
  length-drop (suc n) [] = omega arith
  length-drop (suc n) (e ∷ d) = omega (arith, length-drop n d)

  contains-select :
      (k : String) (p : String × (V × ℕ) → Bool) (d : Entries V)
      → Dict.contains k d ≡ false
      → Dict.contains k (select p d) ≡ false
  unfolding Dict.contains
  contains-select k p [] h = refl
  contains-select k p ((j, e) ∷ d) h = ground (arith, contains-select k p d)

  select-IsDict : (p : String × (V × ℕ) → Bool) (d : Entries V) → IsDict d → IsDict (select p d)
  select-IsDict p [] h = h
  select-IsDict p ((j, e) ∷ d) h = ground (arith, contains-select j p d, select-IsDict p d h.1)

  moved-IsDict :
      (k : String) (e : V × ℕ) (d : Entries V)
      → Dict.get k d ≡ some e
      → IsDict d
      → IsDict (Dict.move_to_end k d)
  unfolding touch
  moved-IsDict k e d hit h = rw (move_to_end-delete k e d hit) (touch-IsDict k e d h)

  length-moved :
      (k : String) (e : V × ℕ) (d : Entries V)
      → Dict.get k d ≡ some e
      → length (Dict.move_to_end k d) ≡ length d
  length-moved k e d hit = rw (move_to_end-delete k e d hit) (
      ground
        (arith, length-append (Dict.delete k d) ((k, e) ∷ []), length-delete k d, contains-get k d))

  get-IsValid : (c : Cache V) (key : String) (now : ℕ) → IsValid c → IsValid (get c key now).0
  unfolding get
  get-IsValid c key now h = elim (Option-cases (Dict.get key c.entries)) [
    | inl miss ↦ rw (miss, get) (record { unique = h.unique; bounded = h.bounded })
    | inr ((v, exp), hit) ↦
        rw (hit, get)
          (ground (
            arith,
            delete-IsDict key c.entries,
            length-delete key c.entries,
            moved-IsDict key (v, exp) c.entries hit h.unique,
            length-moved key (v, exp) c.entries hit,
          ))
  ]

  set-IsValid :
      (c : Cache V) (key : String) (value : V) (ttl : Option ℕ) (now : ℕ)
      → IsValid c
      → IsValid (set c key value ttl now)
  set-IsValid c key value ttl now h =
      let d = touch key (value, now + ttl_or c ttl) c.entries in
      let n = length d - c.max_size in
      rw (set-recency c key value ttl now h.unique) (record {
        unique = drop-IsDict n d (touch-IsDict key (value, now + ttl_or c ttl) c.entries h.unique);
        bounded = omega (arith, length-drop n d);
      })

  delete-IsValid : (c : Cache V) (key : String) → IsValid c → IsValid (delete c key).0
  unfolding delete
  delete-IsValid c key h = ground (arith, delete-IsDict key c.entries, length-delete key c.entries)

  cleanup-IsValid : (c : Cache V) (now : ℕ) → IsValid c → IsValid (cleanup c now).0
  cleanup-IsValid c now h =
      let fresh = λ (e : String × (V × ℕ)). not (is_expired now e) in
      rw ((cleanup-select c now h.unique).0) (record {
        unique = select-IsDict fresh c.entries h.unique;
        bounded = omega (arith, length-select-le fresh c.entries);
      })

  step-IsValid : (c : Cache V) (o : Op V) → IsValid c → IsValid (step c o)
  unfolding step
  step-IsValid c (get_op key now) h = get-IsValid c key now h
  step-IsValid c (set_op key value ttl now) h = set-IsValid c key value ttl now h
  step-IsValid c (delete_op key) h = delete-IsValid c key h
  step-IsValid c clear_op h = unfold clear in (record { unique = tt; bounded = omega arith })
  step-IsValid c (cleanup_op now) h = cleanup-IsValid c now h

  -- After every sequence of calls, whatever their keys and times, a valid cache holds at most
  -- `max_size` entries and no two for one key.
  pub run-IsValid : (c : Cache V) (os : List (Op V)) → IsValid c → IsValid (run c os)
  unfolding run
  run-IsValid c [] h = h
  run-IsValid c (o ∷ os) h = run-IsValid (step c o) os (step-IsValid c o h)
