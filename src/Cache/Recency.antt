-- ===== src/Cache/Recency.antt =====
-- `get`, `set` and `cleanup` of bounded_cache.py against a list of entries in the order of use.
use native.Mathlib.Nat.{zero-sub}
use costpilot.Prelude.{
  ℕ, zero, suc, ◌+◌, ◌-◌, ◌≤◌, ◌<◌, ◌≡◌, ◌≢◌, refl, ap, ◌∙◌, Bool, true, false, not, Option, none,
  some, List, [], ◌∷◌, ◌++◌, String, ltb, if◌then◌else◌, arith, length, length-append, length-map,
  map, select, Bool-cases, Option-cases, inl, inr, ◌==◌, eq_iff, any, text_of_python,
}
use costpilot.Dict
use costpilot.Dict.{IsDict}
use costpilot.Dict.Laws
use costpilot.Dict.Laws.{
  contains-get, delete_absent, move_to_end-delete, set_last, set_absent, contains-delete_self,
  length-delete,
}
use costpilot.Cache.{Cache, Entries, get, set, evict, ttl_or, cleanup, delete_all, is_expired}

abbrev pub drop {ℓ} : {A : Type ℓ} → ℕ → List A → List A
drop zero xs = xs
drop (suc n) [] = []
drop (suc n) (x ∷ xs) = drop n xs

module _ {ℓ} {V : Type ℓ} where
  -- The key becomes the most recent one.
  unfoldable pub touch : String → V × ℕ → Entries V → Entries V
  touch key e d = Dict.delete key d ++ (key, e) ∷ []

  pub evict-drop : (n : ℕ) (d : Entries V) → evict n d ≡ drop (length d - n) d
  unfolding evict
  evict-drop n [] = rw zero-sub refl
  evict-drop n (e ∷ d) = elim (Bool-cases (ltb n (length (e ∷ d)))) [
    | inl more ↦
        let k : suc (length d) - n ≡ suc (length d - n) = ground arith in
        rw (more, k) (evict-drop n d)
    | inr fits ↦ let k : suc (length d) - n ≡ zero = ground arith in rw (fits, k)
  ]

  set_moved :
      (key : String) (e : V × ℕ) (d : Entries V)
      → IsDict d
      → Dict.set key e (if Dict.contains key d then Dict.move_to_end key d else d) ≡ touch key e d
  unfolding touch
  set_moved key e d h = elim (Option-cases (Dict.get key d)) [
    | inl miss ↦
        let absent : Dict.contains key d ≡ false = ground (arith, contains-get key d) in
        rw (absent, delete_absent key d absent) (set_absent key e d absent)
    | inr (v, hit) ↦
        let here : Dict.contains key d ≡ true = ground (arith, contains-get key d) in
        rw (here, move_to_end-delete key v d hit)
          (set_last key e v (Dict.delete key d) (contains-delete_self key d h))
  ]

  -- `set` makes the key the most recent one, with its new value and expiry time, and then keeps
  -- the most recent `max_size` entries, in their order; nothing else of the cache changes.
  pub set-recency :
      (c : Cache V) (key : String) (value : V) (ttl : Option ℕ) (now : ℕ)
      → IsDict c.entries
      → set c key value ttl now ≡ record c {
        entries =
            (let d = touch key (value, now + ttl_or c ttl) c.entries in
              drop (length d - c.max_size) d);
      }
  unfolding set
  set-recency c key value ttl now h =
      rw (set_moved key (value, now + ttl_or c ttl) c.entries h)
        (rw (evict-drop c.max_size (touch key (value, now + ttl_or c ttl) c.entries)))

  get_found :
      (k : String) (e : V × ℕ) (n : ℕ) (d : Entries V)
      → Dict.contains k d ≡ false
      → n ≤ length d
      → Dict.get k (drop n (d ++ (k, e) ∷ [])) ≡ some e
  unfolding Dict.contains Dict.get
  get_found k e zero d h l = Laws.get-append_last k k e d h ∙ ground (arith, eq_iff k k)
  get_found k e (suc n) [] h l = absurd (omega arith)
  get_found k e (suc n) (x ∷ d) h l = get_found k e n d (ground arith) (omega arith)

  -- In a cache with room for one entry, what `set` has stored is what `get` returns until the
  -- entry's expiry time has passed, and from then on `get` finds nothing.
  pub get-set :
      (c : Cache V) (key : String) (value : V) (ttl : Option ℕ) (now later : ℕ)
      → IsDict c.entries
      → 0 < c.max_size
      → (get (set c key value ttl now) key later).1
        ≡ (if ltb (now + ttl_or c ttl) later then none else some value)
  unfolding get touch
  get-set c key value ttl now later h room =
      let e : V × ℕ = (value, now + ttl_or c ttl) in
      let d = Dict.delete key c.entries in
      let n = length (touch key e c.entries) - c.max_size in
      rw
        (
          set-recency c key value ttl now h,
          get_found key e n d (contains-delete_self key c.entries h)
              (omega (arith, length-append {ℓ} d ((key, e) ∷ []))),
        )
        (ground arith)

  get_moved :
      (k j : String) (e : V × ℕ) (d : Entries V)
      → IsDict d
      → k ≢ j
      → Dict.get j (touch k e d) ≡ Dict.get j d
  unfolding touch
  get_moved k j e d h n =
      Laws.get-append_last k j e (Dict.delete k d) (contains-delete_self k d h)
      ∙ ground (arith, eq_iff k j, Laws.get-delete k j d h)

  -- Where the key is there already or the cache is not full, `set` loses no other key's entry.
  pub set-room :
      (c : Cache V) (key j : String) (value : V) (ttl : Option ℕ) (now : ℕ)
      → IsDict c.entries
      → key ≢ j
      → length c.entries + (if Dict.contains key c.entries then 0 else 1) ≤ c.max_size
      → Dict.get j (set c key value ttl now).entries ≡ Dict.get j c.entries
  unfolding touch
  set-room c key j value ttl now h n room =
      let e : V × ℕ = (value, now + ttl_or c ttl) in
      let d = Dict.delete key c.entries in
      let k : length (touch key e c.entries) - c.max_size ≡ zero =
        ground (arith, length-append d ((key, e) ∷ []), length-delete key c.entries) in
      rw (set-recency c key value ttl now h, k) (get_moved key j e c.entries h n)

-- `k in ks`
elem : String → List String → Bool
elem k = any (λ j. j == k)

module _ {ℓ} {V : Type ℓ} where
  delete_all-cons :
      (ks : List String) (k : String) (e : V × ℕ) (d : Entries V)
      → elem k ks ≡ false
      → delete_all ks ((k, e) ∷ d) ≡ (k, e) ∷ delete_all ks d
  unfolding delete_all elem Dict.delete
  delete_all-cons [] k e d h = refl
  delete_all-cons (j ∷ ks) k e d h =
      let other : (k == j) ≡ false = ground (arith, eq_iff k j, eq_iff j k) in
      rw other (delete_all-cons ks k e (Dict.delete j d) (ground arith))

  delete_head : (k : String) (e : V × ℕ) (d : Entries V) → Dict.delete k ((k, e) ∷ d) ≡ d
  unfolding Dict.delete
  delete_head k e d = ground (arith, eq_iff k k)

  expired_absent :
      (now : ℕ) (k : String) (d : Entries V)
      → Dict.contains k d ≡ false
      → elem k (map (λ e. e.0) (select (is_expired now) d)) ≡ false
  unfolding elem Dict.contains
  expired_absent now k [] h = refl
  expired_absent now k ((j, (v, exp)) ∷ d) h = ground (arith, expired_absent now k d)

  delete_expired :
      (now : ℕ) (d : Entries V)
      → IsDict d
      → delete_all (map (λ e. e.0) (select (is_expired now) d)) d
        ≡ select (λ e. not (is_expired now e)) d
  unfolding delete_all Dict.delete
  delete_expired now [] h = refl
  delete_expired now ((k, (v, exp)) ∷ d) h = elim (Bool-cases (ltb exp now)) [
    | inl gone ↦
        let rest = map (λ (e : String × (V × ℕ)). e.0) (select (is_expired now) d) in
        rw gone (ap (delete_all rest) (delete_head k (v, exp) d) ∙ delete_expired now d h.1)
    | inr kept ↦ rw kept (
        delete_all-cons _ k (v, exp) d (expired_absent now k d h.0)
        ∙ ap (◌∷◌ (k, (v, exp))) (delete_expired now d h.1))
  ]

  length-select-not :
      (p : String × (V × ℕ) → Bool) (d : Entries V)
      → length (select p d) + length (select (λ e. not (p e)) d) ≡ length d
  length-select-not p [] = omega arith
  length-select-not p (e ∷ d) = ground (arith, length-select-not p d)

  -- `cleanup` removes exactly the expired entries, keeps the order of the others and changes
  -- nothing else of the cache; it returns how many entries it has removed.
  pub cleanup-select :
      (c : Cache V) (now : ℕ)
      → IsDict c.entries
      → ((cleanup c now).0 ≡ record c { entries = select (λ e. not (is_expired now e)) c.entries })
        × ((cleanup c now).1 + length (cleanup c now).0.entries ≡ length c.entries)
  unfolding cleanup
  cleanup-select c now h = (
    rw (delete_expired now c.entries h),
    rw (delete_expired now c.entries h) (
        omega (
          arith,
          length-map (λ (e : String × (V × ℕ)). e.0) (select (is_expired now) c.entries),
          length-select-not (is_expired now) c.entries,
        )),
  )
