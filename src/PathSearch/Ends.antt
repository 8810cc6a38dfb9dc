-- ===== src/PathSearch/Ends.antt =====
-- That the search ends, and what it finds.
use otchronos.Prelude.{
  ℕ, zero, suc, ◌+◌, ◌-◌, ◌^◌, ◌≤◌, ◌<◌, ◌≡◌, refl, sym, subst, Option, none, some, Bool, true,
  false, ◌==◌, ◌&&◌, if◌then◌else◌, leb, List, arith, Bool-cases, Option-cases, inl, inr,
}
use otchronos.PathSearch.{AStarNodes, new_nodes, get_best_node, close_node, put, max_nodes}
use otchronos.PathSearch.Search.{
  Env, State, Round, going, broken, failed, look, looked, expand, round_at, round, search_nodes,
  Direction, get_path, get_path_matching,
}
use otchronos.PathSearch.Links.{IsLinked}
use otchronos.PathSearch.Visits.{Advance, same, more, cheaper, cost}
use otchronos.PathSearch.Walks.{
  Walks, is_end, IsSearch, get_best_node-lt, expand-IsKept, round-IsSearch, search_nodes-IsSearch,
  get_path_lem, new_nodes-IsSearch,
}

-- How many of the first nodes are open.
count_open : ℕ → (ℕ → Bool) → ℕ
count_open zero g = 0
count_open (suc n) g = (if g n then 1 else 0) + count_open n g

count_open-put-ge : (n k : ℕ) (g : ℕ → Bool) → n ≤ k → count_open n (put k false g) ≡ count_open n g
unfolding count_open
count_open-put-ge zero k g h = refl
count_open-put-ge (suc n) k g h = ground (arith, h, count_open-put-ge n k g)

count_open-put :
    (n k : ℕ) (g : ℕ → Bool) → k < n → g k ≡ true → count_open n (put k false g) < count_open n g
unfolding count_open
count_open-put zero k g h o = absurd (omega arith)
count_open-put (suc n) k g h o = elim (Bool-cases (n == k)) [
  | inl e ↦ ground (arith, e, o, count_open-put-ge n k g)
  | inr d ↦ ground (arith, d, h, count_open-put n k g)
]

-- A round that goes on makes nodes, makes them cheaper, or closes one.
data Falls (a b : AStarNodes) : Type 0 where
  made : a.cur_node < b.cur_node → b.cur_node ≤ max_nodes → Falls a b
  cheapened : b.cur_node ≡ a.cur_node → cost b < cost a → Falls a b
  closed :
      b.cur_node ≡ a.cur_node
      → cost b ≡ cost a
      → count_open b.cur_node b.open_nodes < count_open a.cur_node a.open_nodes
      → Falls a b

close-Falls :
    (n : ℕ) (a b : AStarNodes)
    → n < a.cur_node
    → a.open_nodes n ≡ true
    → Advance a b
    → Falls a (close_node n b)
unfolding close_node cost
close-Falls n a b h o (same e) =
    subst (λ c. Falls a (close_node n c)) (sym e)
      (closed refl refl (count_open-put a.cur_node n a.open_nodes h o))
close-Falls n a b h o (more i j) = made i j
close-Falls n a b h o (cheaper e d) = cheapened e d

module _ (env : Env) (sx : env.start_x < 2 ^ 16 - 1) (sy : env.start_y < 2 ^ 16 - 1) where
  expand-Falls :
      (n : ℕ) (s s' : State)
      → IsLinked env s.nodes
      → n < s.nodes.cur_node
      → s.nodes.open_nodes n ≡ true
      → expand env n s ≡ going s'
      → Falls s.nodes s'.nodes
  expand-Falls n s s' l h o e =
      let (a, kept, q) = expand-IsKept env sx sy n s s' l h e in
      subst (λ t. Falls s.nodes t.nodes) (sym q) (close-Falls n s.nodes a h o kept.progress)

  round_at-Falls :
      (n : ℕ) (s s' : State)
      → IsLinked env s.nodes
      → n < s.nodes.cur_node
      → s.nodes.open_nodes n ≡ true
      → round_at env n s ≡ going s'
      → Falls s.nodes s'.nodes
  unfolding round_at looked
  round_at-Falls n s s' l h o e = elim (Bool-cases ((look env n s).0 && (look env n s).1 == 0)) [
    | inl q ↦ absurd (ground (arith, q, e))
    | inr q ↦ expand-Falls n (looked env n s) s' l h o (ground (arith, q, e))
  ]

  round-Falls :
      (s s' : State) → IsLinked env s.nodes → round env s ≡ going s' → Falls s.nodes s'.nodes
  unfolding round
  round-Falls s s' l e = elim (Option-cases (get_best_node s.nodes)) [
    | inl q ↦ absurd (ground (arith, q, e))
    | inr (n, q) ↦
        let (h, o) = get_best_node-lt s.nodes n q in
        round_at-Falls n s s' l h o (ground (arith, q, e))
  ]

  abbrev Terminates : State → Type 0
  Terminates s = (fuel : ℕ) × (r : Option State) × (search_nodes env fuel s ≡ some r)

  -- The search ends if it does after a round that goes on.
  ends_after :
      (s : State)
      → IsSearch env s
      → ((t : State) → Falls s.nodes t.nodes → IsSearch env t → Terminates t)
      → Terminates s
  unfolding search_nodes
  ends_after s h after =
      elim (Bool-cases (env.fpp.max_search_dist == 0 && leb 100 s.nodes.closed_nodes)) [
        | inl d ↦ (1, some s, ground (arith, d))
        | inr d ↦ by_round d (round env s) refl
      ]
    where
      by_round :
          (env.fpp.max_search_dist == 0 && leb 100 s.nodes.closed_nodes) ≡ false
          → (r : Round) → round env s ≡ r
          → Terminates s
      by_round d (going t) q =
          let (fuel, r, e) =
            after t (round-Falls s t h.linked q) (round-IsSearch env sx sy s t h (inl q)) in
          (suc fuel, r, ground (arith, d, q, e))
      by_round d (broken t) q = (1, some t, ground (arith, d, q))
      by_round d failed q = (1, none, ground (arith, d, q))

  -- By the room for nodes, then their cost, then the open ones.
  ends_below :
      (m c o : ℕ) (s t : State)
      → max_nodes - s.nodes.cur_node ≤ m
      → cost s.nodes ≤ c
      → count_open s.nodes.cur_node s.nodes.open_nodes ≤ o
      → Falls s.nodes t.nodes
      → IsSearch env t
      → Terminates t
  ends_below zero c o s t hm hc ho (made i j) k = absurd (omega (arith, hm, i, j))
  ends_below (suc m) c o s t hm hc ho (made i j) k =
      let n = count_open t.nodes.cur_node t.nodes.open_nodes in
      ends_after t k (λ u f l.
        ends_below m (cost t.nodes) n t u (omega (arith, hm, i, j)) (omega arith) (omega arith) f l)
  ends_below m zero o s t hm hc ho (cheapened e d) k = absurd (omega (arith, hc, d))
  ends_below m (suc c) o s t hm hc ho (cheapened e d) k =
      let n = count_open t.nodes.cur_node t.nodes.open_nodes in
      ends_after t k (λ u f l.
        ends_below m c n t u (omega (arith, hm, e)) (omega (arith, hc, d)) (omega arith) f l)
  ends_below m c zero s t hm hc ho (closed e q d) k = absurd (omega (arith, ho, d))
  ends_below m c (suc o) s t hm hc ho (closed e q d) k = ends_after t k (λ u f l.
      ends_below m c o t u (omega (arith, hm, e)) (omega (arith, hc, q)) (omega (arith, ho, d)) f l)

  search_ends : (s : State) → IsSearch env s → Terminates s
  search_ends s h =
      let n = count_open s.nodes.cur_node s.nodes.open_nodes in
      ends_after s h (λ t f k.
        ends_below (max_nodes - s.nodes.cur_node) (cost s.nodes) n s t (omega arith) (omega arith)
          (omega arith) f k)

-- What a result of the search says: no path, or the directions of one that leads from the start, by
-- places where the creature can walk, to one where the path may end.
abbrev pub IsPath : Env → Option (List Direction) → Type 0
IsPath env none = Unit {0}
IsPath env (some ds) =
    (x : ℕ) × (y : ℕ) × Walks env env.start_x env.start_y ds x y × (is_end env x y ≡ true)

abbrev initial : Env → State
initial env = record { nodes = new_nodes env.start_x env.start_y; found = none; best_match = 0 }

get_path-none : (s : State) → s.found ≡ none → get_path s ≡ some none
unfolding get_path
get_path-none s q = ground (arith, q)

-- The path of a search that has ended.
get_path-IsPath :
    (env : Env)
    → env.start_x < 2 ^ 16 - 1
    → env.start_y < 2 ^ 16 - 1
    → (s : State) → IsSearch env s
    → (r : Option (List Direction)) × (get_path s ≡ some r) × IsPath env r
get_path-IsPath env sx sy s h = elim (Option-cases s.found) [
  | inl q ↦ (none, get_path-none s q, tt)
  | inr (i, q) ↦
      let (ds, p, w) = get_path_lem env sx sy s i h q in
      let node = s.nodes.nodes i in (some ds, p, (node.x, node.y, w, (h.ended i q).1))
]

-- `getPathMatching`, for a creature on the map: the search ends, whatever the map and the target are, and the
-- way back from the place that it has found ends too. The number of rounds is bounded by the room for
-- nodes, by what they cost and by how many of them are open.
pub get_path_matching_ends :
    (env : Env)
    → env.start_x < 2 ^ 16 - 1
    → env.start_y < 2 ^ 16 - 1
    → (fuel : ℕ) × (r : Option (List Direction)) × (get_path_matching fuel env ≡ some r)
unfolding get_path_matching
get_path_matching_ends env sx sy =
    let begun = new_nodes-IsSearch env sx sy in
    let (fuel, r, e) = search_ends env sx sy (initial env) begun in
    let (path, q) = by_result r fuel e in (fuel, path, q)
  where
    by_result :
        (r : Option State) (fuel : ℕ)
        → search_nodes env fuel (initial env) ≡ some r
        → (path : Option (List Direction)) × (get_path_matching fuel env ≡ some path)
    by_result none fuel e = (none, ground (arith, e))
    by_result (some s) fuel e =
        let h =
          search_nodes-IsSearch env sx sy fuel (initial env) s (new_nodes-IsSearch env sx sy) e in
        let (path, q, p) = get_path-IsPath env sx sy s h in (path, ground (arith, e, q))

-- `getPathMatching`, for a creature on the map: where it finds a path, the directions lead from the
-- creature's position, each step to a place where `canWalkTo` lets the creature walk, to a place that is
-- in range of the target, in sight of it if that is asked for, and within the least and the greatest
-- distance.
pub get_path_matching-IsPath :
    (fuel : ℕ) (env : Env) (r : Option (List Direction))
    → env.start_x < 2 ^ 16 - 1
    → env.start_y < 2 ^ 16 - 1
    → get_path_matching fuel env ≡ some r
    → IsPath env r
unfolding get_path_matching
get_path_matching-IsPath fuel env r sx sy e = by_result (search_nodes env fuel (initial env)) refl
  where
    by_result : (o : Option (Option State)) → search_nodes env fuel (initial env) ≡ o → IsPath env r
    by_result none q = absurd (ground (arith, q, e))
    by_result (some none) q =
        let same_result : none ≡ r = ground (arith, q, e) in subst (IsPath env) same_result tt
    by_result (some (some s)) q =
        let h =
          search_nodes-IsSearch env sx sy fuel (initial env) s (new_nodes-IsSearch env sx sy) q in
        let (path, p, good) = get_path-IsPath env sx sy s h in
        let same_result : path ≡ r = ground (arith, q, e, p) in subst (IsPath env) same_result good
