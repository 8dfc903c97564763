-- ===== src/Cache.antt =====
-- `BoundedCache` of backend/app/shared/bounded_cache.py: an LRU cache with expiry times. Its
-- OrderedDict is a dict whose order is the order of use; `time.time()` is an argument. Each method
-- runs under the cache's lock, so it is one step.
pub mod Validity
pub mod Recency
mod Tests
use costpilot.Prelude.{
  ℕ, ◌+◌, ◌-◌, ◌*◌, ◌/◌, Bool, true, false, Option, none, some, List, [], ◌∷◌, String, ltb,
  if◌then◌else◌, length, map, select, text_of_python,
}
use costpilot.Dict

abbrev pub Entries {ℓ} : Type ℓ → Type ℓ
Entries V = List (String × (V × ℕ))

pub record Cache {ℓ} (V : Type ℓ) : Type ℓ where
  pub max_size : ℕ
  pub ttl_seconds : ℕ
  pub name : String
  pub entries : Entries V
  pub hits : ℕ
  pub misses : ℕ

pub record Stats : Type 0 where
  pub name : String
  pub size : ℕ
  pub max_size : ℕ
  pub ttl_seconds : ℕ
  pub hits : ℕ
  pub misses : ℕ

module _ {ℓ} {V : Type ℓ} where
  unfoldable pub init : ℕ → ℕ → String → Cache V
  init max_size ttl_seconds name = record {
    max_size = max_size;
    ttl_seconds = ttl_seconds;
    name = name;
    entries = [];
    hits = 0;
    misses = 0;
  }

  -- the rest of `get`, by what the dict holds for the key
  get_found : Cache V → String → Option (V × ℕ) → ℕ → Cache V × Option V
  get_found c key none now = (record c { misses = c.misses + 1 }, none)
  get_found c key (some (value, expires_at)) now =
      if ltb expires_at now
      then (record c { entries = Dict.delete key c.entries; misses = c.misses + 1 }, none)
      else (record c { entries = Dict.move_to_end key c.entries; hits = c.hits + 1 }, some value)

  unfoldable pub get : Cache V → String → ℕ → Cache V × Option V
  unfolding get_found
  get c key now = get_found c key (Dict.get key c.entries) now

  -- `while len(self._cache) > self.max_size`: the oldest entry is the first
  unfoldable pub evict : ℕ → Entries V → Entries V
  evict max_size [] = []
  evict max_size (e ∷ d) =
      let rest = evict max_size d in if ltb max_size (length (e ∷ d)) then rest else e ∷ d

  -- `ttl_seconds if ttl_seconds is not None else self.ttl_seconds`
  abbrev pub ttl_or : Cache V → Option ℕ → ℕ
  ttl_or c none = c.ttl_seconds
  ttl_or c (some ttl) = ttl

  unfoldable pub set : Cache V → String → V → Option ℕ → ℕ → Cache V
  unfolding evict
  set c key value ttl now =
      let expires_at = now + ttl_or c ttl in
      let moved =
        if Dict.contains key c.entries then Dict.move_to_end key c.entries else c.entries in
      record c { entries = evict c.max_size (Dict.set key (value, expires_at) moved) }

  unfoldable pub delete : Cache V → String → Cache V × Bool
  delete c key =
      if Dict.contains key c.entries
      then (record c { entries = Dict.delete key c.entries }, true)
      else (c, false)

  unfoldable pub clear : Cache V → Cache V × ℕ
  clear c = (record c { entries = [] }, length c.entries)

  abbrev pub is_expired : ℕ → String × (V × ℕ) → Bool
  is_expired now (_, (_, exp)) = ltb exp now

  -- `for key in expired_keys: del self._cache[key]`
  unfoldable pub delete_all : List String → Entries V → Entries V
  delete_all [] d = d
  delete_all (k ∷ ks) d = delete_all ks (Dict.delete k d)

  unfoldable pub cleanup : Cache V → ℕ → Cache V × ℕ
  unfolding delete_all
  cleanup c now =
      let expired_keys = map (λ e. e.0) (select (is_expired now) c.entries) in
      (record c { entries = delete_all expired_keys c.entries }, length expired_keys)

  -- without the two rounded percentages
  unfoldable pub stats : Cache V → Stats
  stats c = record {
    name = c.name;
    size = length c.entries;
    max_size = c.max_size;
    ttl_seconds = c.ttl_seconds;
    hits = c.hits;
    misses = c.misses;
  }
