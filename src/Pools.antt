-- ===== src/Pools.antt =====
-- Budget pools: backend/app/pools/service.py over the rows of backend/app/pools/models.py. The table
-- is a list with the newest row first; names, purposes and owners take no part and are left out. An
-- exception is rolled back by `get_db`, so that it comes without a table.
use costpilot.Prelude.{
  ℕ, zero, suc, Bool, ◌&&◌, Option, none, some, List, [], ◌∷◌, ◌++◌, select, map, length, is_none,
  ◌==◌, not, if◌then◌else◌, bad_request, integrity_error, not_found, Result, ok, raise, raise_if,
  or_raise, scalar_one_or_none, ◌>>=◌, ◌>>◌,
}
use costpilot.Prelude
use costpilot.Text.{Text}
use costpilot.Text.Laws.{text_instance}
mod Ancestry
mod Removal
mod Steps
mod Shown
mod Tests

pub record Pool : Type 0 where
  pub id : Text
  pub limit : ℕ
  pub organization_id : Text
  pub parent_id : Option Text
  pub deleted_at : Option ℕ

-- a column that may be null, compared with a value
abbrev pub is_parent : Option Text → Text → Bool
is_parent none id = Bool.false
is_parent (some p) id = p == id

-- `Pool.id == pool_id, Pool.deleted_at.is_(None)`
abbrev pub is_pool : Text → Pool → Bool
is_pool pool_id p = p.id == pool_id && is_none p.deleted_at

unfoldable pub get_pool : Text → List Pool → Result Pool
get_pool pool_id table = do
  pool ← scalar_one_or_none (select (is_pool pool_id) table)
  or_raise pool (not_found (Prelude.text "Pool not found"))

-- `if data.parent_id:` does not look up an empty identifier, which then breaks the foreign key
unfoldable pub check_parent : Text → Option Text → List Pool → Result (Unit {0})
unfolding get_pool
check_parent org_id none table = ok tt
check_parent org_id (some []) table = raise integrity_error
check_parent org_id (some (c ∷ id)) table = do
  parent ← get_pool (c ∷ id) table
  raise_if (not (parent.organization_id == org_id))
      (bad_request (Prelude.text "Parent pool belongs to a different organization"))

abbrev pub new_pool : Text → Text → Option Text → ℕ → Pool
new_pool fresh_id org_id parent_id limit = record {
  id = fresh_id;
  limit = limit;
  organization_id = org_id;
  parent_id = parent_id;
  deleted_at = none;
}

unfoldable pub create_pool : Text → Text → Option Text → ℕ → List Pool → Result (List Pool × Pool)
unfolding check_parent
create_pool fresh_id org_id parent_id limit table = do
  check_parent org_id parent_id table
  ok (new_pool fresh_id org_id parent_id limit ∷ table, new_pool fresh_id org_id parent_id limit)

abbrev pub with_limit : Option ℕ → Pool → Pool
with_limit none p = p
with_limit (some n) p = record p { limit = n }

unfoldable pub update_pool : Text → Option ℕ → List Pool → Result (List Pool × Pool)
unfolding get_pool
update_pool pool_id limit table = do
  pool ← get_pool pool_id table
  ok (map (λ p. if is_pool pool_id p then with_limit limit p else p) table, with_limit limit pool)

-- One row under `delete_pool`: the pool itself is marked, and a child of it gets its parent.
unfoldable pub delete_row : ℕ → Text → Option Text → Pool → Pool
delete_row now pool_id parent_id p =
    let moved : Pool =
      if is_parent p.parent_id pool_id && is_none p.deleted_at
      then record p { parent_id = parent_id }
      else p in
    if is_pool pool_id p then record moved { deleted_at = some now } else moved

unfoldable pub delete_pool : ℕ → Text → List Pool → Result (List Pool × Unit {0})
unfolding get_pool delete_row
delete_pool now pool_id table = do
  pool ← get_pool pool_id table
  ok (map (delete_row now pool_id pool.parent_id) table, tt)

-- A pool with the pools below it.
mutual
  pub data PoolTree : Type 0 where
    node : Pool → Forest → PoolTree

  pub data Forest : Type 0 where
    leaf : Forest
    plant : PoolTree → Forest → Forest

-- the relationship `children`: every row with this parent
unfoldable pub children : List Pool → Text → List Pool
children table id = select (λ p. is_parent p.parent_id id) table

abbrev pub plant_all : List PoolTree → Forest
plant_all [] = leaf
plant_all (t ∷ ts) = plant t (plant_all ts)

-- `selectinload(Pool.children, recursion_depth=-1)`, on fuel
unfoldable pub load : ℕ → List Pool → Pool → PoolTree
load zero table p = node p leaf
load (suc n) table p = node p (plant_all (map (load n table) (children table p.id)))

abbrev pub is_root : Text → Pool → Bool
is_root org_id p = (p.organization_id == org_id && is_none p.parent_id) && is_none p.deleted_at

-- no path down is longer than the table
unfoldable pub get_pool_tree : Text → List Pool → Forest
get_pool_tree org_id table =
    plant_all (map (load (length table) table) (select (is_root org_id) table))
