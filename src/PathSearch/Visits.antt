-- ===== src/PathSearch/Visits.antt =====
-- What the loop over the neighbors of a node does: the nodes stay linked, and there are more of them, or
-- they cost less altogether, or nothing has changed.
use otchronos.Prelude.{
  ℕ, zero, suc, ◌+◌, ◌-◌, ◌^◌, ◌%◌, ◌≤◌, ◌<◌, ◌≡◌, refl, ◌∙◌, sym, subst, some, Bool, true, ◌==◌,
  ◌&&◌, ◌||◌, leb, [], ◌∷◌, arith, Bool-cases, Option-cases, if-both, inl, inr,
}
use otchronos.Map.{is_some, get_tile}
use otchronos.PathSearch.{
  AStarNode, AStarNodes, created, create_open_node, open_node, relink, put, node_key, max_nodes,
  get_node_by_position, get_map_walk_cost,
}
use otchronos.PathSearch.Search.{
  Env, Offsets, can_walk_to, revisit, visit_at, visit_neighbor, visits, is_left_out, neighbors,
  neighbors_from, minus,
}
use otchronos.PathSearch.Links.{
  IsLinked, walk_bounds, node_bounds, create_open_node-IsLinked, revisit-IsLinked,
}

-- What the first nodes cost altogether.
pub sum_f : ℕ → (ℕ → AStarNode) → ℕ
sum_f zero g = 0
sum_f (suc n) g = sum_f n g + (g n).f

sum_f-put-ge :
    (n k : ℕ) (v : AStarNode) (g : ℕ → AStarNode) → n ≤ k → sum_f n (put k v g) ≡ sum_f n g
unfolding sum_f
sum_f-put-ge zero k v g h = refl
sum_f-put-ge (suc n) k v g h = ground (arith, h, sum_f-put-ge n k v g)

sum_f-put :
    (n k : ℕ) (v : AStarNode) (g : ℕ → AStarNode)
    → k < n
    → v.f < (g k).f
    → sum_f n (put k v g) < sum_f n g
unfolding sum_f
sum_f-put zero k v g h d = absurd (omega arith)
sum_f-put (suc n) k v g h d = elim (Bool-cases (n == k)) [
  | inl e ↦ ground (arith, e, d, sum_f-put-ge n k v g)
  | inr o ↦ ground (arith, o, h, sum_f-put n k v g)
]

unfoldable pub cost : AStarNodes → ℕ
cost a = sum_f a.cur_node a.nodes

-- More nodes, or the same at a lower cost.
pub data Advance (a a' : AStarNodes) : Type 0 where
  same : a' ≡ a → Advance a a'
  more : a.cur_node < a'.cur_node → a'.cur_node ≤ max_nodes → Advance a a'
  cheaper : a'.cur_node ≡ a.cur_node → cost a' < cost a → Advance a a'

Advance-trans : (a b c : AStarNodes) → Advance a b → Advance b c → Advance a c
Advance-trans a b c (same e) q = subst (λ d. Advance d c) e q
Advance-trans a b c p (same e) = subst (λ d. Advance a d) (sym e) p
Advance-trans a b c (more h k) (more i j) = more (omega (arith, h, i)) j
Advance-trans a b c (more h k) (cheaper e d) = more (omega (arith, h, e)) (omega (arith, k, e))
Advance-trans a b c (cheaper e d) (more h k) = more (omega (arith, h, e)) k
Advance-trans a b c (cheaper e d) (cheaper e' d') =
    cheaper (omega (arith, e, e')) (omega (arith, d, d'))

pub cur_node-Advance : (a b : AStarNodes) (n : ℕ) → Advance a b → n < a.cur_node → n < b.cur_node
cur_node-Advance a b n (same e) h = ground (arith, e, h)
cur_node-Advance a b n (more i j) h = omega (arith, i, h)
cur_node-Advance a b n (cheaper e d) h = omega (arith, e, h)

create-Advance :
    (n x y f : ℕ) (a a' : AStarNodes) → create_open_node n x y f a ≡ some a' → Advance a a'
unfolding create_open_node created
create-Advance n x y f a a' e = more (ground (arith, e)) (ground (arith, e))

revisit-Advance : (n k f : ℕ) (a : AStarNodes) → k < a.cur_node → Advance a (revisit n k f a)
unfolding revisit open_node relink cost
revisit-Advance n k f a h = elim (Bool-cases (leb (a.nodes k).f f)) [
  | inl e ↦ rw e (same refl)
  | inr e ↦
      let v : AStarNode = record { parent = some n; f = f; x = (a.nodes k).x; y = (a.nodes k).y } in
      let less = sum_f-put a.cur_node k v a.nodes h (ground (arith, e)) in
      rw e (if-both (Advance a) (a.open_nodes k) (cheaper refl less) (cheaper refl less))
]

-- No node moves.
abbrev pub Stays : AStarNodes → AStarNodes → ℕ → Type 0
Stays a b i = ((b.nodes i).x ≡ (a.nodes i).x) × ((b.nodes i).y ≡ (a.nodes i).y)

still_trans : (a b c : AStarNodes) (i : ℕ) → Stays a b i → Stays b c i → Stays a c i
still_trans a b c i p q = (q.0 ∙ p.0, q.1 ∙ p.1)

still-revisit : (n k f : ℕ) (a : AStarNodes) (i : ℕ) → Stays a (revisit n k f a) i
unfolding revisit open_node relink
still-revisit n k f a i = ground arith

still-create :
    (n x y f : ℕ) (a a' : AStarNodes) (i : ℕ)
    → i < a.cur_node
    → create_open_node n x y f a ≡ some a'
    → Stays a a' i
unfolding create_open_node created
still-create n x y f a a' i d q = ground (arith, d, q)

-- The steps to a neighbor.
abbrev pub is_unit : ℕ → Bool
is_unit d = d == 0 || (d == 1 || d == minus)

unfoldable pub all_unit : Offsets → Bool
all_unit [] = true
all_unit ((dx, dy) ∷ ds) = (is_unit dx && is_unit dy) && all_unit ds

pub all_unit-neighbors :
    (diagonal : Bool) (a : AStarNodes) (n : ℕ) → all_unit (neighbors diagonal a n) ≡ true
unfolding all_unit neighbors neighbors_from
all_unit-neighbors diagonal a n = ground arith

unit_step :
    (x d u : ℕ)
    → is_unit d ≡ true
    → x < 2 ^ 16 - 1
    → u < 2 ^ 16 - 1
    → u ≡ (x + d) % 2 ^ 16
    → (leb x (u + 1) && leb u (x + 1)) ≡ true
unit_step x d u h b c e = ground (arith, h, b, c, e)

key_eq : (x y u v : ℕ) → y < 2 ^ 16 → v < 2 ^ 16 → node_key x y ≡ node_key u v → (x ≡ u) × (y ≡ v)
key_eq x y u v b c e = (omega (arith, b, c, e), omega (arith, b, c, e))

cost_pos : (x y u v : ℕ) → 0 < get_map_walk_cost x y u v
cost_pos x y u v = ground arith

-- One round of the loop.
pub record IsKept (env : Env) (a a' : AStarNodes) : Type 0 where
  pub linked : IsLinked env a'
  pub progress : Advance a a'
  pub still : (i : ℕ) → i < a.cur_node → Stays a a' i

module _ (env : Env) (sx : env.start_x < 2 ^ 16 - 1) (sy : env.start_y < 2 ^ 16 - 1) (n : ℕ) where
  -- A neighbor that has a node.
  old_neighbor :
      (dx dy k e : ℕ) (a : AStarNodes)
      → IsLinked env a
      → n < a.cur_node
      → is_unit dx ≡ true
      → is_unit dy ≡ true
      → get_node_by_position (((a.nodes n).x + dx) % 2 ^ 16) (((a.nodes n).y + dy) % 2 ^ 16) a
        ≡ some k
      → (a.nodes n).f < e
      → IsKept env a (revisit n k e a)
  old_neighbor dx dy k e a l h ux uy q c =
      let (b, same_key) =
        l.tabled (node_key (((a.nodes n).x + dx) % 2 ^ 16) (((a.nodes n).y + dy) % 2 ^ 16)) k q in
      let (nx, ny) = node_bounds env sx sy a n (l.linked n h) in
      let (kx, ky) = node_bounds env sx sy a k (l.linked k b) in
      let (ex, ey) =
        key_eq (a.nodes k).x (a.nodes k).y (((a.nodes n).x + dx) % 2 ^ 16)
          (((a.nodes n).y + dy) % 2 ^ 16) (omega (arith, ky)) (omega arith) same_key in
      let tx = unit_step (a.nodes n).x dx (a.nodes k).x ux nx kx ex in
      let ty = unit_step (a.nodes n).y dy (a.nodes k).y uy ny ky ey in
      record {
        linked = revisit-IsLinked env n k e a l h b (ground (arith, tx, ty)) c;
        progress = revisit-Advance n k e a b;
        still = λ i d. still-revisit n k e a i;
      }

  -- A neighbor that can be walked to and has no node.
  new_neighbor :
      (dx dy e : ℕ) (a a' : AStarNodes)
      → IsLinked env a
      → n < a.cur_node
      → is_unit dx ≡ true
      → is_unit dy ≡ true
      → is_some (can_walk_to env (((a.nodes n).x + dx) % 2 ^ 16) (((a.nodes n).y + dy) % 2 ^ 16))
        ≡ true
      → (a.nodes n).f < e
      → create_open_node n (((a.nodes n).x + dx) % 2 ^ 16) (((a.nodes n).y + dy) % 2 ^ 16) e a
        ≡ some a'
      → IsKept env a a'
  new_neighbor dx dy e a a' l h ux uy w c q =
      let u = ((a.nodes n).x + dx) % 2 ^ 16 in
      let v = ((a.nodes n).y + dy) % 2 ^ 16 in
      let (nx, ny) = node_bounds env sx sy a n (l.linked n h) in
      let (kx, ky) = walk_bounds env u v w in
      let tx = unit_step (a.nodes n).x dx u ux nx kx refl in
      let ty = unit_step (a.nodes n).y dy v uy ny ky refl in
      record {
        linked = create_open_node-IsLinked env n u v e a a' l h (ground (arith, tx, ty)) w c q;
        progress = create-Advance n u v e a a' q;
        still = λ i d. still-create n u v e a a' i d q;
      }

  visit_neighbor-IsKept :
      (dx dy : ℕ) (a a' : AStarNodes)
      → IsLinked env a
      → n < a.cur_node
      → is_unit dx ≡ true
      → is_unit dy ≡ true
      → visit_neighbor env n (dx, dy) a ≡ some a'
      → IsKept env a a'
  unfolding visit_neighbor visit_at
  visit_neighbor-IsKept dx dy a a' l h ux uy r =
      let u = ((a.nodes n).x + dx) % 2 ^ 16 in
      let v = ((a.nodes n).y + dy) % 2 ^ 16 in
      let step = get_map_walk_cost (a.nodes n).x (a.nodes n).y u v in
      let pos = cost_pos (a.nodes n).x (a.nodes n).y u v in
      let stay : IsKept env a a = record {
        linked = l;
        progress = same refl;
        still = λ i b. (refl, refl);
      } in
      elim (Bool-cases (is_left_out env u v)) [
        | inl o ↦ subst (IsKept env a) (ground (arith, o, r)) stay
        | inr o ↦ elim (Option-cases (get_node_by_position u v a)) [
          | inr (k, q) ↦
              let e = (a.nodes n).f + step + env.tile_walk_cost (get_tile u v env.z env.map) in
              let kept = old_neighbor dx dy k e a l h ux uy q (omega (arith, pos)) in
              subst (IsKept env a) (ground (arith, o, q, r)) kept
          | inl q ↦ elim (Option-cases (can_walk_to env u v)) [
            | inl w ↦ subst (IsKept env a) (ground (arith, o, q, w, r)) stay
            | inr (t, w) ↦
                let e = (a.nodes n).f + step + env.tile_walk_cost (some t) in
                new_neighbor dx dy e a a' l h ux uy (rw w refl) (omega (arith, pos))
                  (ground (arith, o, q, w, r))
          ]
        ]
      ]

  pub visits-IsKept :
      (found : Bool) (ds : Offsets) (a a' : AStarNodes)
      → IsLinked env a
      → n < a.cur_node
      → all_unit ds ≡ true
      → visits env n found ds a ≡ some a'
      → IsKept env a a'
  unfolding visits all_unit
  visits-IsKept found [] a a' l h u r =
      let e : a ≡ a' = ground (arith, r) in
      subst (IsKept env a) e
        record { linked = l; progress = same refl; still = λ i b. (refl, refl) }
  visits-IsKept found ((dx, dy) ∷ ds) a a' l h u r =
      elim (Option-cases (visit_neighbor env n (dx, dy) a)) [
        | inl q ↦
            let e : a ≡ a' = ground (arith, r, q) in
            subst (IsKept env a) e
              record { linked = l; progress = same refl; still = λ i b. (refl, refl) }
        | inr (b, q) ↦
            let first =
              visit_neighbor-IsKept dx dy a b l h (ground (arith, u)) (ground (arith, u)) q in
            let rest =
              visits-IsKept found ds b a' first.linked (cur_node-Advance a b n first.progress h)
                (ground (arith, u)) (ground (arith, q, r)) in
            record {
              linked = rest.linked;
              progress = Advance-trans a b a' first.progress rest.progress;
              still = λ i d.
                  still_trans a b a' i (first.still i d)
                    (rest.still i (cur_node-Advance a b i first.progress d));
            }
      ]
