-- ===== src/PathSearch/Links.antt =====
-- That each node of the search leads back to the first one by steps that can be walked.
use otchronos.Prelude.{
  ℕ, ◌+◌, ◌-◌, ◌^◌, ◌≤◌, ◌<◌, ◌≡◌, refl, subst, none, some, Bool, true, ◌==◌, ◌&&◌, ltb, leb, arith,
  Bool-cases, Option-cases, if-both, inl, inr,
}
use otchronos.Map.{is_some, get_tile}
use otchronos.PathSearch.{
  AStarNodes, created, create_open_node, close_node, open_node, relink, put, node_key,
}
use otchronos.PathSearch.Search.{Env, can_walk_to, revisit}

-- No coordinate differs by more than 1.
abbrev pub touches : ℕ → ℕ → ℕ → ℕ → Bool
touches x y u v = (leb x (u + 1) && leb u (x + 1)) && (leb y (v + 1) && leb v (y + 1))

-- A node is the first one, or has a parent that costs less, from which it can be walked to.
unfoldable pub is_linked : Env → AStarNodes → ℕ → Bool
is_linked env a i =
    let node = a.nodes i in
    elim node.parent [
      | none ↦ (node.x == env.start_x && node.y == env.start_y) && node.f == 0
      | some p ↦
          (ltb p a.cur_node && ltb (a.nodes p).f node.f)
          && (touches (a.nodes p).x (a.nodes p).y node.x node.y
              && is_some (can_walk_to env node.x node.y))
    ]

pub record IsLinked (env : Env) (a : AStarNodes) : Type 0 where
  pub linked : (i : ℕ) → i < a.cur_node → is_linked env a i ≡ true
  pub tabled :
      (k i : ℕ)
      → a.node_table k ≡ some i
      → (i < a.cur_node) × (node_key (a.nodes i).x (a.nodes i).y ≡ k)

-- Where one can walk is inside the map.
pub walk_bounds :
    (env : Env) (x y : ℕ)
    → is_some (can_walk_to env x y) ≡ true
    → (x < 2 ^ 16 - 1) × (y < 2 ^ 16 - 1)
unfolding can_walk_to get_tile
walk_bounds env x y h = ground (arith, h)

module _ (env : Env) (sx : env.start_x < 2 ^ 16 - 1) (sy : env.start_y < 2 ^ 16 - 1) where
  pub node_bounds :
      (a : AStarNodes) (i : ℕ)
      → is_linked env a i ≡ true
      → ((a.nodes i).x < 2 ^ 16 - 1) × ((a.nodes i).y < 2 ^ 16 - 1)
  unfolding is_linked
  node_bounds a i h = elim (Option-cases (a.nodes i).parent) [
    | inl e ↦ ground (arith, e, h, sx, sy)
    | inr (p, e) ↦ ground (arith, e, h, walk_bounds env (a.nodes i).x (a.nodes i).y)
  ]

-- A node stays linked where no parent costs more or goes away, and nothing else of it changes.
linked_still :
    (env : Env) (a a' : AStarNodes) (i : ℕ)
    → is_linked env a i ≡ true
    → a'.nodes i ≡ a.nodes i
    → ((p : ℕ)
        → p < a.cur_node
        → (p < a'.cur_node)
          × ((a'.nodes p).f ≤ (a.nodes p).f)
          × ((a'.nodes p).x ≡ (a.nodes p).x)
          × ((a'.nodes p).y ≡ (a.nodes p).y))
    → is_linked env a' i ≡ true
unfolding is_linked
linked_still env a a' i h e less = elim (Option-cases (a.nodes i).parent) [
  | inl q ↦ ground (arith, h, q, e)
  | inr (p, q) ↦ ground (arith, h, q, e, less p)
]

created-IsLinked :
    (env : Env) (n x y f : ℕ) (a : AStarNodes)
    → IsLinked env a
    → n < a.cur_node
    → touches (a.nodes n).x (a.nodes n).y x y ≡ true
    → is_some (can_walk_to env x y) ≡ true
    → (a.nodes n).f < f
    → IsLinked env (created n x y f a)
unfolding created
created-IsLinked env n x y f a l h t w c = record {
  linked = λ i b. elim (Bool-cases (i == a.cur_node)) [
    | inl e ↦ new_linked i e
    | inr o ↦
        linked_still env a (created n x y f a) i (l.linked i (ground (arith, b, o))) (rw o refl)
          (λ p d. ground (arith, d))
  ];
  tabled = λ k i q. elim (Bool-cases (k == node_key x y)) [
    | inl e ↦ ground (arith, e, q)
    | inr o ↦ ground (arith, o, q, l.tabled k i)
  ];
}
  where
    new_linked : (i : ℕ) → (i == a.cur_node) ≡ true → is_linked env (created n x y f a) i ≡ true
    new_linked i e = unfold is_linked in ground (arith, e, h, t, w, c)

pub create_open_node-IsLinked :
    (env : Env) (n x y f : ℕ) (a a' : AStarNodes)
    → IsLinked env a
    → n < a.cur_node
    → touches (a.nodes n).x (a.nodes n).y x y ≡ true
    → is_some (can_walk_to env x y) ≡ true
    → (a.nodes n).f < f
    → create_open_node n x y f a ≡ some a'
    → IsLinked env a'
unfolding create_open_node
create_open_node-IsLinked env n x y f a a' l h t w c e =
    let same : created n x y f a ≡ a' = ground (arith, e) in
    subst (IsLinked env) same (created-IsLinked env n x y f a l h t w c)

-- A node that costs more than another one by which it can be walked to gets a new parent.
relink-IsLinked :
    (env : Env) (n k f : ℕ) (a : AStarNodes)
    → IsLinked env a
    → n < a.cur_node
    → k < a.cur_node
    → touches (a.nodes n).x (a.nodes n).y (a.nodes k).x (a.nodes k).y ≡ true
    → (a.nodes n).f < f
    → f < (a.nodes k).f
    → IsLinked env (relink k n f a)
unfolding relink
relink-IsLinked env n k f a l h b t c d = record {
  linked = λ i q. elim (Bool-cases (i == k)) [
    | inl e ↦ new_parent i e (l.linked k b)
    | inr o ↦
        linked_still env a (relink k n f a) i (l.linked i q) (rw o refl)
          (λ p r. ground (arith, r, d))
  ];
  tabled = λ j i q. ground (arith, q, l.tabled j i);
}
  where
    new_parent :
        (i : ℕ)
        → (i == k) ≡ true
        → is_linked env a k ≡ true
        → is_linked env (relink k n f a) i ≡ true
    new_parent i e old = elim (Option-cases (a.nodes k).parent) [
      | inl q ↦ unfold is_linked in ground (arith, e, h, t, c, d, q, old)
      | inr (p, q) ↦ unfold is_linked in ground (arith, e, h, t, c, d, q, old)
    ]

open_node-IsLinked :
    (env : Env) (k : ℕ) (a : AStarNodes) → IsLinked env a → IsLinked env (open_node k a)
unfolding open_node
open_node-IsLinked env k a l =
    if-both (IsLinked env) (a.open_nodes k) l
      record { linked = λ i h. linked_open i (l.linked i h); tabled = l.tabled }
  where
    linked_open :
        (i : ℕ)
        → is_linked env a i ≡ true
        → is_linked env
            record a { open_nodes = put k true a.open_nodes; closed_nodes = a.closed_nodes - 1 }
            i
          ≡ true
    linked_open i h = unfold is_linked in h

pub revisit-IsLinked :
    (env : Env) (n k f : ℕ) (a : AStarNodes)
    → IsLinked env a
    → n < a.cur_node
    → k < a.cur_node
    → touches (a.nodes n).x (a.nodes n).y (a.nodes k).x (a.nodes k).y ≡ true
    → (a.nodes n).f < f
    → IsLinked env (revisit n k f a)
unfolding revisit
revisit-IsLinked env n k f a l h b t c = elim (Bool-cases (leb (a.nodes k).f f)) [
  | inl e ↦ rw e l
  | inr e ↦ rw e (
      open_node-IsLinked env k (relink k n f a)
        (relink-IsLinked env n k f a l h b t c (ground (arith, e))))
]

pub close_node-IsLinked :
    (env : Env) (n : ℕ) (a : AStarNodes) → IsLinked env a → IsLinked env (close_node n a)
unfolding close_node is_linked
close_node-IsLinked env n a l = record { linked = l.linked; tabled = l.tabled }
