-- ===== src/Dict.antt =====
-- A Python dict as the list of its entries in insertion order, at most one for each key. The
-- modules that keep a dict (the bounded cache, the rate limiter, the degradation manager) share it.
pub mod Laws
use costpilot.Prelude.{
  Bool, true, false, Option, none, some, List, [], ◌∷◌, ◌++◌, Eq, ◌==◌, if◌then◌else◌, map, ◌≡◌,
}

abbrev pub keys {ℓ κ} : {K : Type ℓ} {V : Type κ} → List (K × V) → List K
keys = map (λ e. e.0)

module _ {ℓ κ} {K : Type ℓ} {V : Type κ} ⦃eq : Eq K⦄ where
  -- `d.get(k)`
  unfoldable pub get : K → List (K × V) → Option V
  get k [] = none
  get k ((j, v) ∷ d) = if j == k then some v else get k d

  -- `k in d`
  unfoldable pub contains : K → List (K × V) → Bool
  contains k [] = false
  contains k ((j, v) ∷ d) = if j == k then true else contains k d

  -- `d[k] = v`: in place for a key that is there, else at the end
  unfoldable pub set : K → V → List (K × V) → List (K × V)
  set k v [] = (k, v) ∷ []
  set k v ((j, w) ∷ d) = if j == k then (j, v) ∷ d else (j, w) ∷ set k v d

  -- `del d[k]`
  unfoldable pub delete : K → List (K × V) → List (K × V)
  delete k [] = []
  delete k ((j, w) ∷ d) = if j == k then d else (j, w) ∷ delete k d

  -- `d.move_to_end(k)` of an OrderedDict
  unfoldable pub move_to_end : K → List (K × V) → List (K × V)
  unfolding delete
  move_to_end k [] = []
  move_to_end k ((j, w) ∷ d) = if j == k then d ++ (j, w) ∷ [] else (j, w) ∷ move_to_end k d

  -- No key has two entries.
  abbrev pub IsDict : List (K × V) → Type 0
  IsDict [] = Unit
  IsDict ((j, v) ∷ d) = (contains j d ≡ false) × IsDict d
