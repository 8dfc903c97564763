-- ===== src/Pools/Shown.antt =====
-- What the tree of pools shows after a pool was deleted.
use costpilot.Prelude.{
  ℕ, zero, suc, ◌≡◌, refl, sym, ◌∙◌, inl, inr, Bool, true, false, not, ◌&&◌, ◌||◌, Option, none,
  some, List, [], ◌∷◌, select, map, any, length, length-map, is_none, ◌==◌, arith, Bool-cases, ok,
  bind-ok, ok-injective,
}
use costpilot.Text.{Text}
use costpilot.Text.Laws.{text_instance}
use costpilot.Pools.Removal.{delete_row-same}
use costpilot.Pools.{
  Pool, PoolTree, Forest, node, leaf, plant, plant_all, is_parent, is_pool, is_root, children, load,
  get_pool_tree, get_pool, delete_row, delete_pool,
}

-- a pool with the identifier stands in the tree
unfoldable mutual
  pub shows : Text → PoolTree → Bool
  shows id (node p below) = p.id == id || shows_any id below

  pub shows_any : Text → Forest → Bool
  shows_any id leaf = false
  shows_any id (plant t ts) = shows id t || shows_any id ts

shows_any-plant_all :
    (id : Text) (f : Pool → PoolTree) (ps : List Pool)
    → shows_any id (plant_all (map f ps)) ≡ any (λ p. shows id (f p)) ps
unfolding shows
shows_any-plant_all id f [] = refl
shows_any-plant_all id f (p ∷ ps) = rw (shows_any-plant_all id f ps) refl

-- a query of changed rows, where a row that it found before stays found
any-select-map :
    (p : Pool → Bool) (f : Pool → Pool) (q r : Pool → Bool)
    → ((x : Pool) → p x ≡ true → q x ≡ true → (p (f x) ≡ true) × (r (f x) ≡ true))
    → (rows : List Pool) → any q (select p rows) ≡ true
    → any r (select p (map f rows)) ≡ true
any-select-map p f q r h [] a = cc
any-select-map p f q r h (x ∷ rows) a = elim (Bool-cases (p x && q x)) [
  | inl both ↦ let (p', r') = h x (ground arith) (ground arith) in ground (arith, p', r')
  | inr neither ↦ ground (arith, any-select-map p f q r h rows)
]

any-not :
    (p q : Pool → Bool) (rows : List Pool)
    → any p rows ≡ true
    → any q rows ≡ false
    → any (λ x. p x && not (q x)) rows ≡ true
any-not p q [] h k = cc
any-not p q (x ∷ rows) h k = ground (arith, any-not p q rows)

is_parent_unique :
    (q : Option Text) (i j : Text) → is_parent q i ≡ true → is_parent q j ≡ true → (i == j) ≡ true
is_parent_unique none i j h k = cc
is_parent_unique (some p) i j h k = ground (
  arith,
  h,
  k,
  text_instance.same_iff p i,
  text_instance.same_iff p j,
  text_instance.same_iff i j,
)

is_parent-none : (q : Option Text) (i : Text) → is_none q ≡ true → is_parent q i ≡ false
is_parent-none none i h = refl
is_parent-none (some p) i h = cc

module _ (now : ℕ) (id : Text) (parent_id : Option Text) (table : List Pool) where
  abbrev after : List Pool
  after = map (delete_row now id parent_id) table

  delete_row-id : (p : Pool) → (delete_row now id parent_id p).id ≡ p.id
  unfolding delete_row
  delete_row-id p = ground arith

  -- a row whose parent is another pool keeps it
  delete_row-parent :
      (p : Pool) (i : Text)
      → (i == id) ≡ false
      → is_parent p.parent_id i ≡ true
      → is_parent (delete_row now id parent_id p).parent_id i ≡ true
  unfolding delete_row
  delete_row-parent p i other h =
      elim (Bool-cases (is_parent p.parent_id id && is_none p.deleted_at)) [
        | inl child ↦ let same = is_parent_unique p.parent_id i id h (ground (arith, child)) in cc
        | inr none' ↦ elim (Bool-cases (is_pool id p)) [
          | inl target ↦ rw (none', target) h
          | inr _ ↦ ground (arith, none', h)
        ]
      ]

  -- What is shown below a row is shown below the changed row.
  shows-load :
      (n : ℕ) (p : Pool)
      → shows id (load n table p) ≡ true
      → shows id (load n after (delete_row now id parent_id p)) ≡ true
  unfolding shows load children
  shows-load zero p h = rw (delete_row-id p) h
  shows-load (suc n) p h = elim (Bool-cases (p.id == id)) [
    | inl target ↦ rw (delete_row-id p, target) refl
    | inr other ↦
        let shown : shows_any id (plant_all (map (load n table) (children table p.id))) ≡ true =
          ground (arith, h, other) in
        rw
          (
            shows_any-plant_all id (load n after)
                (children after (delete_row now id parent_id p).id),
            delete_row-id p,
            other,
          )
          (any-select-map (λ c. is_parent c.parent_id p.id) (delete_row now id parent_id)
            (λ c. shows id (load n table c)) (λ c. shows id (load n after c))
            (λ c child s. (delete_row-parent c p.id other child, shows-load n c s)) table
            (sym (shows_any-plant_all id (load n table) (children table p.id)) ∙ shown))
  ]

  delete_row-is_root :
      (org_id : Text) (p : Pool)
      → (p.id == id) ≡ false
      → is_root org_id p ≡ true
      → is_root org_id (delete_row now id parent_id p) ≡ true
  unfolding delete_row
  delete_row-is_root org_id p other h =
      rw
        (delete_row-same now id parent_id p (ground (arith, other))
          (ground (arith, is_parent-none p.parent_id id)))
        h

  tree_after :
      (org_id : Text)
      → any (λ p. p.id == id) (select (is_root org_id) table) ≡ false
      → shows_any id (get_pool_tree org_id table) ≡ true
      → shows_any id (get_pool_tree org_id after) ≡ true
  unfolding get_pool_tree
  tree_after org_id below shown =
      let n = length table in
      rw
        (
          length-map (delete_row now id parent_id) table,
          shows_any-plant_all id (load n after) (select (is_root org_id) after),
        )
        (any-select-map (is_root org_id) (delete_row now id parent_id)
          (λ p. shows id (load n table p) && not (p.id == id)) (λ p. shows id (load n after p))
          (λ p root s. (
            delete_row-is_root org_id p (ground (arith, s)) root,
            shows-load n p (ground (arith, s)),
          ))
          table
          (any-not (λ p. shows id (load n table p)) (λ p. p.id == id)
            (select (is_root org_id) table)
            (sym (shows_any-plant_all id (load n table) (select (is_root org_id) table)) ∙ shown)
            below))

-- Let a pool that is not a root be shown in the tree of an organization, and let `delete_pool` of it
-- return. Then the tree still shows it.
pub delete_pool-shows_any :
    (now : ℕ) (id org_id : Text) (table : List Pool) {result : List Pool × Unit {0}}
    → delete_pool now id table ≡ ok result
    → any (λ p. p.id == id) (select (is_root org_id) table) ≡ false
    → shows_any id (get_pool_tree org_id table) ≡ true
    → shows_any id (get_pool_tree org_id result.0) ≡ true
unfolding delete_pool
delete_pool-shows_any now id org_id table h below shown =
    let (pool, found, h1) = bind-ok _ (get_pool id table) h in
    rw (sym (ok-injective h1)) (tree_after now id pool.parent_id table org_id below shown)
