-- ===== src/Pools/Tests.antt =====
-- A root pool with a pool below it, which is deleted.
use costpilot.Prelude.{◌≡◌, refl, true, none, some, List, [], ◌∷◌}
use costpilot.Text.{codes, text_eq}
use costpilot.Pools.{Pool, delete_pool, get_pool, delete_row, get_pool_tree, load, children}
use costpilot.Pools.Ancestry.{is_forest}
use costpilot.Pools.Steps.{Operation, run, run-is_forest}
use costpilot.Pools.Shown.{shows, shows_any, delete_pool-shows_any}

abbrev team : Pool
team = record {
  id = codes "p2";
  limit = 50;
  organization_id = codes "o1";
  parent_id = some (codes "p1");
  deleted_at = none;
}

abbrev department : Pool
department = record {
  id = codes "p1";
  limit = 200;
  organization_id = codes "o1";
  parent_id = none;
  deleted_at = none;
}

abbrev pools : List Pool
pools = team ∷ department ∷ []

pools_forest : is_forest pools ≡ true
unfolding is_forest text_eq
pools_forest = refl

abbrev operations : List Operation
operations =
    Operation.create (codes "p3") (codes "o1") (some (codes "p2")) 10
    ∷ Operation.create (codes "p4") (codes "o1") (some (codes "p9")) 10
    ∷ Operation.delete 70 (codes "p2")
    ∷ []

run-is_forest_example : is_forest (run operations pools) ≡ true
run-is_forest_example = run-is_forest operations pools pools_forest

delete_pool-shows_any_example :
    shows_any
      (codes "p2")
      (get_pool_tree (codes "o1") (record team { deleted_at = some 70 } ∷ department ∷ []))
    ≡ true
unfolding delete_pool get_pool delete_row get_pool_tree load children shows text_eq
delete_pool-shows_any_example =
    delete_pool-shows_any 70 (codes "p2") (codes "o1") pools refl refl refl
