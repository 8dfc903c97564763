-- ===== src/Pools/Steps.antt =====
-- Operations on the pools, one after the other, as requests make them through `get_db`.
use costpilot.Prelude.{ℕ, ◌≡◌, refl, ◌∙◌, true, Option, List, [], ◌∷◌, Result, ok, raise}
use costpilot.Text.{Text}
use costpilot.Pools.{Pool, create_pool, update_pool, delete_pool}
use costpilot.Pools.Ancestry.{is_forest, create_pool-is_forest, update_pool-is_forest}
use costpilot.Pools.Removal.{delete_pool-is_forest}

pub data Operation : Type 0 where
  create : Text → Text → Option Text → ℕ → Operation
  update : Text → Option ℕ → Operation
  delete : ℕ → Text → Operation

-- an exception rolls back
abbrev kept {ℓ} : {A : Type ℓ} → List Pool → Result (List Pool × A) → List Pool
kept table (ok (after, _)) = after
kept table (raise e) = table

unfoldable pub step : Operation → List Pool → List Pool
step (create fresh_id org_id parent_id limit) table =
    kept table (create_pool fresh_id org_id parent_id limit table)
step (update pool_id limit) table = kept table (update_pool pool_id limit table)
step (delete now pool_id) table = kept table (delete_pool now pool_id table)

unfoldable pub run : List Operation → List Pool → List Pool
unfolding step
run [] table = table
run (o ∷ os) table = run os (step o table)

-- a table that is kept has what each result has
kept-is_forest {ℓ} :
    {A : Type ℓ} (table : List Pool) (r : Result (List Pool × A))
    → is_forest table ≡ true
    → ((after : List Pool × A) → r ≡ ok after → is_forest after.0 ≡ true)
    → is_forest (kept table r) ≡ true
kept-is_forest table (ok after) f h = h after refl
kept-is_forest table (raise e) f h = f

step-is_forest :
    (o : Operation) (table : List Pool) → is_forest table ≡ true → is_forest (step o table) ≡ true
unfolding step
step-is_forest (create fresh_id org_id parent_id limit) table f =
    kept-is_forest table (create_pool fresh_id org_id parent_id limit table) f
      (λ after h. create_pool-is_forest fresh_id org_id parent_id limit table h f)
step-is_forest (update pool_id limit) table f =
    kept-is_forest table (update_pool pool_id limit table) f
      (λ after h. update_pool-is_forest pool_id limit table h ∙ f)
step-is_forest (delete now pool_id) table f =
    kept-is_forest table (delete_pool now pool_id table) f
      (λ after h. delete_pool-is_forest now pool_id table h f)

-- Whatever pools are created, updated and deleted, also by operations that raise: if the parent of
-- every live pool was a live, older pool of its organization, then it is so afterwards.
pub run-is_forest :
    (os : List Operation) (table : List Pool)
    → is_forest table ≡ true
    → is_forest (run os table) ≡ true
unfolding run
run-is_forest [] table f = f
run-is_forest (o ∷ os) table f = run-is_forest os (step o table) (step-is_forest o table f)
