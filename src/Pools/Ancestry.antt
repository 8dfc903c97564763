-- ===== src/Pools/Ancestry.antt =====
-- The pools of an organization stay a forest: the parent of a live pool is a live, older pool.
use costpilot.Prelude.{
  ℕ, ◌≡◌, refl, sym, inl, inr, Bool, true, not, ◌&&◌, ◌||◌, Option, none, some, List, [], ◌∷◌,
  select, map, any, is_none, ◌==◌, arith, Bool-cases, ok, bind-ok, or_raise-ok, raise_if-done,
  scalar_one_or_none, scalar_one_or_none-some, ok-injective, if◌then◌else◌,
}
use costpilot.Text.{Text}
use costpilot.Text.Laws.{text_instance}
use costpilot.Pools.{Pool, is_pool, get_pool, check_parent, create_pool, with_limit, update_pool}

-- a live row with the identifier, of the organization
abbrev pub is_home : Text → Text → Pool → Bool
is_home id org_id q = is_pool id q && q.organization_id == org_id

abbrev pub has_parent : List Pool → Option Text → Text → Bool
has_parent older none org_id = true
has_parent older (some id) org_id = any (is_home id org_id) older

-- the parent of every live row is a live row further down, of the same organization
unfoldable pub is_forest : List Pool → Bool
is_forest [] = true
is_forest (p ∷ older) =
    let rest = is_forest older in
    (not (is_none p.deleted_at) || has_parent older p.parent_id p.organization_id) && rest

pub get_pool-select :
    (id : Text) (table : List Pool) {pool : Pool}
    → get_pool id table ≡ ok pool
    → select (is_pool id) table ≡ pool ∷ []
unfolding get_pool
get_pool-select id table h =
    let (found, e, h') = bind-ok _ (scalar_one_or_none (select (is_pool id) table)) h in
    scalar_one_or_none-some (select (is_pool id) table) (rw (or_raise-ok found _ h') at e)

-- the one row that is found is there for `any`
any-home :
    (id org_id : Text) (table : List Pool) {pool : Pool} {rest : List Pool}
    → select (is_pool id) table ≡ pool ∷ rest
    → (pool.organization_id == org_id) ≡ true
    → any (is_home id org_id) table ≡ true
any-home id org_id [] h o = cc
any-home id org_id (p ∷ table) {pool = pool} {rest = rest} h o =
    ground (arith, any-home id org_id table {pool = pool} {rest = rest}, h, o)

check_parent-has_parent :
    (org_id : Text) (parent_id : Option Text) (table : List Pool)
    → check_parent org_id parent_id table ≡ ok tt
    → has_parent table parent_id org_id ≡ true
unfolding check_parent
check_parent-has_parent org_id none table h = refl
check_parent-has_parent org_id (some []) table h = cc
check_parent-has_parent org_id (some (c ∷ id)) table h =
    let (parent, found, h1) = bind-ok _ (get_pool (c ∷ id) table) h in
    let o = raise_if-done (not (parent.organization_id == org_id)) _ h1 in
    any-home (c ∷ id) org_id table (get_pool-select (c ∷ id) table found) (ground (arith, o))

pub create_pool-is_forest :
    (fresh_id org_id : Text) (parent_id : Option Text) (limit : ℕ) (table : List Pool)
    {after : List Pool × Pool}
    → create_pool fresh_id org_id parent_id limit table ≡ ok after
    → is_forest table ≡ true
    → is_forest after.0 ≡ true
unfolding create_pool is_forest
create_pool-is_forest fresh_id org_id parent_id limit table h f =
    let (_, e, h1) = bind-ok _ (check_parent org_id parent_id table) h in
    let p = check_parent-has_parent org_id parent_id table e in
    rw (sym (ok-injective h1)) (ground (arith, p, f))

-- An update changes only the limit.
abbrev set_limit : Text → Option ℕ → Pool → Pool
set_limit id limit p = if is_pool id p then with_limit limit p else p

set_limit-eq :
    (id : Text) (limit : Option ℕ) (p : Pool)
    → set_limit id limit p ≡ record p { limit = (set_limit id limit p).limit }
set_limit-eq id none p = elim (Bool-cases (is_pool id p)) [ inl e ↦ rw e refl | inr e ↦ rw e refl ]
set_limit-eq id (some n) p = elim (Bool-cases (is_pool id p)) [
  | inl e ↦ rw e refl
  | inr e ↦ rw e refl
]

module _ (id : Text) (limit : Option ℕ) where
  any-set_limit :
      (i org_id : Text) (table : List Pool)
      → any (is_home i org_id) (map (set_limit id limit) table) ≡ any (is_home i org_id) table
  any-set_limit i org_id [] = refl
  any-set_limit i org_id (p ∷ table) =
      rw (set_limit-eq id limit p, any-set_limit i org_id table) refl

  has_parent-set_limit :
      (table : List Pool) (parent_id : Option Text) (org_id : Text)
      → has_parent (map (set_limit id limit) table) parent_id org_id
        ≡ has_parent table parent_id org_id
  has_parent-set_limit table none org_id = refl
  has_parent-set_limit table (some i) org_id = any-set_limit i org_id table

  is_forest-set_limit :
      (table : List Pool) → is_forest (map (set_limit id limit) table) ≡ is_forest table
  unfolding is_forest
  is_forest-set_limit [] = refl
  is_forest-set_limit (p ∷ table) =
      rw
        (
          set_limit-eq id limit p,
          has_parent-set_limit table p.parent_id p.organization_id,
          is_forest-set_limit table,
        )
        refl

  pub update_pool-is_forest :
      (table : List Pool) {after : List Pool × Pool}
      → update_pool id limit table ≡ ok after
      → is_forest after.0 ≡ is_forest table
  unfolding update_pool
  update_pool-is_forest table h =
      let (pool, _, h1) = bind-ok _ (get_pool id table) h in
      rw (sym (ok-injective h1)) (is_forest-set_limit table)
