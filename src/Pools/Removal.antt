-- ===== src/Pools/Removal.antt =====
-- `delete_pool` and the forest: the children of the deleted pool move to its parent.
use costpilot.Prelude.{
  ℕ, ◌≡◌, refl, sym, subst, inl, inr, true, false, not, ◌&&◌, ◌||◌, Option, none, some, List, [],
  ◌∷◌, select, map, any, is_none, ◌==◌, arith, Bool-cases, ok, bind-ok, ok-injective,
}
use costpilot.Text.{Text}
use costpilot.Text.Laws.{text_instance}
use costpilot.Pools.{Pool, is_parent, is_pool, get_pool, delete_row, delete_pool}
use costpilot.Pools.Ancestry.{is_home, has_parent, is_forest, get_pool-select}

any-home-nil :
    (id org_id : Text) (table : List Pool)
    → select (is_pool id) table ≡ []
    → any (is_home id org_id) table ≡ false
any-home-nil id org_id [] h = refl
any-home-nil id org_id (p ∷ table) h = ground (arith, any-home-nil id org_id table)

-- the one live row with the identifier has the organization of each row with it
home-organization :
    (id org_id : Text) (table : List Pool) (pool : Pool)
    → select (is_pool id) table ≡ pool ∷ []
    → any (is_home id org_id) table ≡ true
    → pool.organization_id ≡ org_id
home-organization id org_id [] pool h a = cc
home-organization id org_id (p ∷ table) pool h a = ground (
  arith,
  any-home-nil id org_id table,
  home-organization id org_id table pool,
  text_instance.same_iff p.organization_id org_id,
)

-- no row has the parent that is not there
is_parent-select_nil :
    (id : Text) (parent : Option Text) (org_id : Text) (table : List Pool)
    → select (is_pool id) table ≡ []
    → has_parent table parent org_id ≡ true
    → is_parent parent id ≡ false
is_parent-select_nil id none org_id table h a = refl
is_parent-select_nil id (some i) org_id table h a = elim (Bool-cases (i == id)) [
  | inl e ↦
      let none' : any (is_home i org_id) table ≡ false =
        subst (λ x. any (is_home x org_id) table ≡ false) (sym ((text_instance.same_iff i id).0 e))
          (any-home-nil id org_id table h) in
      cc
  | inr e ↦ e
]

is_parent-home :
    (id : Text) (parent : Option Text) (org_id : Text) (table : List Pool)
    → is_parent parent id ≡ true
    → has_parent table parent org_id ≡ true
    → any (is_home id org_id) table ≡ true
is_parent-home id none org_id table p a = cc
is_parent-home id (some i) org_id table p a =
    subst (λ x. any (is_home x org_id) table ≡ true) ((text_instance.same_iff i id).0 p) a

has_parent-cons :
    (p : Pool) (table : List Pool) (parent : Option Text) (org_id : Text)
    → has_parent table parent org_id ≡ true
    → has_parent (p ∷ table) parent org_id ≡ true
has_parent-cons p table none org_id a = refl
has_parent-cons p table (some i) org_id a = ground (arith, a)

module _ (now : ℕ) (id : Text) (parent_id : Option Text) where
  -- a row that is neither the pool nor a live child of it
  pub delete_row-same :
      (p : Pool)
      → is_pool id p ≡ false
      → (is_parent p.parent_id id && is_none p.deleted_at) ≡ false
      → delete_row now id parent_id p ≡ p
  unfolding delete_row
  delete_row-same p h c = rw (c, h) refl

  -- below the deleted pool no row changes
  delete_row-select_nil :
      (table : List Pool)
      → select (is_pool id) table ≡ []
      → is_forest table ≡ true
      → map (delete_row now id parent_id) table ≡ table
  unfolding is_forest
  delete_row-select_nil [] h f = refl
  delete_row-select_nil (p ∷ table) h f =
      let (head, tail) : (is_pool id p ≡ false) × (select (is_pool id) table ≡ []) = ground arith in
      let no_child : (is_parent p.parent_id id && is_none p.deleted_at) ≡ false =
        ground (arith, is_parent-select_nil id p.parent_id p.organization_id table tail) in
      rw (delete_row-same p head no_child, delete_row-select_nil table tail (ground arith)) refl

  -- the other rows are still found
  any-delete_row :
      (i org_id : Text) (table : List Pool)
      → (i == id) ≡ false
      → any (is_home i org_id) (map (delete_row now id parent_id) table)
        ≡ any (is_home i org_id) table
  unfolding delete_row
  any-delete_row i org_id [] other = refl
  any-delete_row i org_id (p ∷ table) other = ground (
    arith,
    any-delete_row i org_id table other,
    text_instance.same_iff p.id id,
    text_instance.same_iff p.id i,
    text_instance.same_iff i id,
  )

  deleted_row :
      (p : Pool) → is_pool id p ≡ true → (delete_row now id parent_id p).deleted_at ≡ some now
  unfolding delete_row
  deleted_row p target = rw target refl

  child_row :
      (p : Pool)
      → is_pool id p ≡ false
      → (is_parent p.parent_id id && is_none p.deleted_at) ≡ true
      → delete_row now id parent_id p ≡ record p { parent_id = parent_id }
  unfolding delete_row
  child_row p other child = rw (child, other) refl

  has_parent-delete_row :
      (table : List Pool) (parent : Option Text) (org_id : Text)
      → is_parent parent id ≡ false
      → has_parent (map (delete_row now id parent_id) table) parent org_id
        ≡ has_parent table parent org_id
  has_parent-delete_row table none org_id other = refl
  has_parent-delete_row table (some i) org_id other = any-delete_row i org_id table other

  -- a row above the pool has a parent afterwards, if it is live
  parent_after :
      (table : List Pool) (pool p : Pool)
      → select (is_pool id) table ≡ pool ∷ []
      → is_pool id p ≡ false
      → (not (is_none p.deleted_at) || has_parent table p.parent_id p.organization_id) ≡ true
      → has_parent (map (delete_row now id parent_id) table) parent_id pool.organization_id ≡ true
      → (not (is_none (delete_row now id parent_id p).deleted_at)
          || has_parent
              (map (delete_row now id parent_id) table)
              (delete_row now id parent_id p).parent_id
              (delete_row now id parent_id p).organization_id)
        ≡ true
  parent_after table pool p h other before after =
      elim (Bool-cases (is_parent p.parent_id id && is_none p.deleted_at)) [
        | inl child ↦
            let o = home-organization id p.organization_id table pool h (
              is_parent-home id p.parent_id p.organization_id table (ground arith)
                (ground arith)) in
            rw (child_row p other child) (
              ground (
                arith,
                subst (λ x. has_parent (map (delete_row now id parent_id) table) parent_id x ≡ true)
                    o after,
              ))
        | inr none' ↦ rw (delete_row-same p other none') (
            ground
              (arith, before, none', has_parent-delete_row table p.parent_id p.organization_id))
      ]

  -- What holds of the rows from the pool upwards, once they are changed: they are a forest, and the
  -- parent of the pool is among them.
  delete_row-is_forest :
      (table : List Pool) (pool : Pool)
      → parent_id ≡ pool.parent_id
      → select (is_pool id) table ≡ pool ∷ []
      → is_forest table ≡ true
      → (is_forest (map (delete_row now id parent_id) table) ≡ true)
        × (has_parent (map (delete_row now id parent_id) table) parent_id pool.organization_id
            ≡ true)
  unfolding is_forest
  delete_row-is_forest [] pool e h f = cc
  delete_row-is_forest (p ∷ table) pool e h f = elim (Bool-cases (is_pool id p)) [
    | inl target ↦
        let (same, below) : (p ≡ pool) × (select (is_pool id) table ≡ []) = ground arith in
        let unchanged = delete_row-select_nil table below (ground arith) in
        let parent : has_parent table parent_id pool.organization_id ≡ true =
          rw (e, sym same) (ground arith) in
        (
          rw (deleted_row p target, unchanged) (ground arith),
          rw unchanged (
              has_parent-cons (delete_row now id parent_id p) table parent_id pool.organization_id
                parent),
        )
    | inr other ↦
        let above : select (is_pool id) table ≡ pool ∷ [] = ground arith in
        let (forest, parent) = delete_row-is_forest table pool e above (ground arith) in
        let own = parent_after table pool p above other (ground arith) parent in
        (
          ground (arith, own, forest),
          has_parent-cons (delete_row now id parent_id p) (map (delete_row now id parent_id) table)
              parent_id pool.organization_id parent,
        )
  ]

pub delete_pool-is_forest :
    (now : ℕ) (id : Text) (table : List Pool) {after : List Pool × Unit {0}}
    → delete_pool now id table ≡ ok after
    → is_forest table ≡ true
    → is_forest after.0 ≡ true
unfolding delete_pool
delete_pool-is_forest now id table h f =
    let (pool, found, h1) = bind-ok _ (get_pool id table) h in
    rw (sym (ok-injective h1))
      (delete_row-is_forest now id pool.parent_id table pool refl (get_pool-select id table found)
        f).0
