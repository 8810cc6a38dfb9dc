-- ===== src/PathSearch/Walks.antt =====
-- That the directions of a path that has been found lead to a place where the path may end, by places where
-- the creature can walk.
use otchronos.Prelude.{
  ℕ, zero, suc, ◌-◌, ◌^◌, ◌<◌, ◌≡◌, ◌⊎◌, ◌≢◌, refl, sym, subst, none, some, Bool, true, false, not,
  ◌==◌, ◌&&◌, ◌||◌, if◌then◌else◌, ltb, leb, List, [], ◌∷◌, arith, Bool-cases, Option-cases, inl,
  inr,
}
use otchronos.Map.{is_some}
use otchronos.PathSearch.{AStarNodes, new_nodes, best_of, get_best_node, close_node}
use otchronos.PathSearch.Target.{is_in_range, target_distance, path_condition}
use otchronos.PathSearch.Search.{
  Env, State, Round, going, broken, failed, can_walk_to, visits, neighbors, look, looked, expand,
  round_at, round, search_nodes, Direction, get_next_position, direction_to, push_front, trace,
  get_path,
}
use otchronos.PathSearch.Links.{touches, is_linked, IsLinked, node_bounds, close_node-IsLinked}
use otchronos.PathSearch.Visits.{IsKept, visits-IsKept, all_unit-neighbors, cur_node-Advance}

-- From a place, the directions lead to another one, and the creature can walk to each place on the way.
unfoldable pub Walks : Env → ℕ → ℕ → List Direction → ℕ → ℕ → Type 0
Walks env x y [] u v = (x ≡ u) × (y ≡ v)
Walks env x y (d ∷ ds) u v =
    (is_some (can_walk_to env (get_next_position d x y).0 (get_next_position d x y).1) ≡ true)
    × Walks env (get_next_position d x y).0 (get_next_position d x y).1 ds u v

-- Where a path may end: in range of the target, in sight of it if asked, and neither too near nor too far.
unfoldable pub is_end : Env → ℕ → ℕ → Bool
is_end env x y =
    let c = env.condition in
    let far = target_distance c x y in
    (is_in_range c env.start_x env.start_y x y env.fpp && (not env.fpp.clear_sight || c.sight x y))
    && (leb env.fpp.min_target_dist far && leb far env.fpp.max_target_dist)

path_condition-is_end :
    (env : Env) (x y best : ℕ)
    → (path_condition env.condition env.start_x env.start_y x y env.fpp best).0 ≡ true
    → is_end env x y ≡ true
unfolding path_condition is_end
path_condition-is_end env x y best h = ground (arith, h)

direction_none :
    (x y u v : ℕ) → touches x y u v ≡ true → direction_to x y u v ≡ none → (x ≡ u) × (y ≡ v)
unfolding direction_to
direction_none x y u v t e = (ground (arith, t, e), ground (arith, t, e))

direction_some :
    (x y u v : ℕ) (d : Direction)
    → x < 2 ^ 16 - 1
    → y < 2 ^ 16 - 1
    → touches x y u v ≡ true
    → direction_to x y u v ≡ some d
    → ((get_next_position d x y).0 ≡ u) × ((get_next_position d x y).1 ≡ v)
unfolding direction_to get_next_position
direction_some x y u v d bx b t e = (ground (arith, bx, b, t, e), ground (arith, bx, b, t, e))

-- One step of the way back.
Walks-step :
    (env : Env) (x y u v : ℕ) (ds : List Direction) (a b : ℕ)
    → x < 2 ^ 16 - 1
    → y < 2 ^ 16 - 1
    → touches x y u v ≡ true
    → is_some (can_walk_to env u v) ≡ true
    → Walks env u v ds a b
    → Walks env x y (push_front (direction_to x y u v) ds) a b
Walks-step env x y u v ds a b bx by_ t c w = elim (Option-cases (direction_to x y u v)) [
  | inl e ↦ let (ex, ey) = direction_none x y u v t e in rw (e, ex, ey) w
  | inr (d, e) ↦ rw e (with_step d (direction_some x y u v d bx by_ t e))
]
  where
    with_step :
        (d : Direction)
        → ((get_next_position d x y).0 ≡ u) × ((get_next_position d x y).1 ≡ v)
        → Walks env x y (d ∷ ds) a b
    with_step d (ex, ey) = unfold Walks in rw (ex, ey) (c, w)

best_of-lt :
    (m : ℕ) (a : AStarNodes) (n : ℕ) → (best_of m a).0 ≡ some n → (n < m) × (a.open_nodes n ≡ true)
unfolding best_of
best_of-lt zero a n e = absurd (cc e)
best_of-lt (suc i) a n e = elim (Bool-cases (a.open_nodes i && ltb (a.nodes i).f (best_of i a).1)) [
  | inl h ↦ (ground (arith, h, e), ground (arith, h, e))
  | inr h ↦ let rest = best_of-lt i a n (ground (arith, h, e)) in (omega (arith, rest), rest.1)
]

pub get_best_node-lt :
    (a : AStarNodes) (n : ℕ) → get_best_node a ≡ some n → (n < a.cur_node) × (a.open_nodes n ≡ true)
unfolding get_best_node
get_best_node-lt a n e = best_of-lt a.cur_node a n e

-- The nodes are linked, and the one that has been found is one where the path may end.
pub record IsSearch (env : Env) (s : State) : Type 0 where
  pub linked : IsLinked env s.nodes
  pub ended :
      (i : ℕ)
      → s.found ≡ some i
      → (i < s.nodes.cur_node) × (is_end env (s.nodes.nodes i).x (s.nodes.nodes i).y ≡ true)

module _ (env : Env) (sx : env.start_x < 2 ^ 16 - 1) (sy : env.start_y < 2 ^ 16 - 1) where
  pub expand-IsKept :
      (n : ℕ) (s s' : State)
      → IsLinked env s.nodes
      → n < s.nodes.cur_node
      → expand env n s ≡ going s'
      → (a : AStarNodes) × IsKept env s.nodes a × (s' ≡ record s { nodes = close_node n a })
  unfolding expand
  expand-IsKept n s s' l h e =
      let ds = neighbors env.fpp.allow_diagonal s.nodes n in
      elim (Option-cases (visits env n (is_some s.found) ds s.nodes)) [
        | inl q ↦ absurd (ground (arith, q, e))
        | inr (a, q) ↦ (
          a,
          visits-IsKept env sx sy n (is_some s.found) ds s.nodes a l h
              (all_unit-neighbors env.fpp.allow_diagonal s.nodes n) q,
          ground (arith, q, e),
        )
      ]

  expand-IsSearch :
      (n : ℕ) (s s' : State)
      → IsSearch env s
      → n < s.nodes.cur_node
      → expand env n s ≡ going s'
      → IsSearch env s'
  unfolding close_node
  expand-IsSearch n s s' h b e =
      let (a, kept, q) = expand-IsKept n s s' h.linked b e in
      let after : IsSearch env record s { nodes = close_node n a } = record {
        linked = close_node-IsLinked env n a kept.linked;
        ended = λ i f. ended_still a kept i f (h.ended i f);
      } in
      subst (IsSearch env) (sym q) after
    where
      ended_still :
          (a : AStarNodes)
          → IsKept env s.nodes a
          → (i : ℕ) → s.found ≡ some i
          → (i < s.nodes.cur_node) × (is_end env (s.nodes.nodes i).x (s.nodes.nodes i).y ≡ true)
          → (i < a.cur_node) × (is_end env (a.nodes i).x (a.nodes i).y ≡ true)
      ended_still a kept i f (d, z) =
          let (ex, ey) = kept.still i d in
          (cur_node-Advance s.nodes a i kept.progress d, rw (ex, ey) z)

  -- The state once the node of a round has been looked at.
  looked-IsSearch :
      (n : ℕ) (s : State) → IsSearch env s → n < s.nodes.cur_node → IsSearch env (looked env n s)
  unfolding looked
  looked-IsSearch n s h b = record { linked = h.linked; ended = by_end (look env n s).0 refl }
    where
      by_end :
          (ends : Bool)
          → (look env n s).0 ≡ ends
          → (i : ℕ) → (if ends then some n else s.found) ≡ some i
          → (i < s.nodes.cur_node) × (is_end env (s.nodes.nodes i).x (s.nodes.nodes i).y ≡ true)
      by_end true e i f =
          let same_node : n ≡ i = ground (arith, f) in
          rw (← same_node)
            (b, path_condition-is_end env (s.nodes.nodes n).x (s.nodes.nodes n).y s.best_match e)
      by_end false e i f = h.ended i f

  expand-ne-broken : (n : ℕ) (s s' : State) → expand env n s ≢ broken s'
  unfolding expand
  expand-ne-broken n s s' e = ground (arith, e)

  round_at-IsSearch :
      (n : ℕ) (s s' : State)
      → IsSearch env s
      → n < s.nodes.cur_node
      → (round_at env n s ≡ going s') ⊎ (round_at env n s ≡ broken s')
      → IsSearch env s'
  unfolding round_at
  round_at-IsSearch n s s' h b r =
      let ready = looked-IsSearch n s h b in
      elim (Bool-cases ((look env n s).0 && (look env n s).1 == 0)) [
        | inl e ↦ subst (IsSearch env) (ground (arith, e, r)) ready
        | inr e ↦ elim r [
          | inl q ↦ expand-IsSearch n (looked env n s) s' ready b' (ground (arith, e, q))
          | inr q ↦ absurd (expand-ne-broken n (looked env n s) s' (ground (arith, e, q)))
        ]
      ]
    where
      b' : n < (looked env n s).nodes.cur_node
      b' = unfold looked in b

  pub round-IsSearch :
      (s s' : State)
      → IsSearch env s
      → (round env s ≡ going s') ⊎ (round env s ≡ broken s')
      → IsSearch env s'
  unfolding round
  round-IsSearch s s' h r = elim (Option-cases (get_best_node s.nodes)) [
    | inl q ↦ subst (IsSearch env) (ground (arith, q, r)) h
    | inr (n, q) ↦
        round_at-IsSearch n s s' h (get_best_node-lt s.nodes n q).0
          (elim r [ inl e ↦ inl (ground (arith, q, e)) | inr e ↦ inr (ground (arith, q, e)) ])
  ]

  pub search_nodes-IsSearch :
      (fuel : ℕ) (s s' : State)
      → IsSearch env s
      → search_nodes env fuel s ≡ some (some s')
      → IsSearch env s'
  unfolding search_nodes
  search_nodes-IsSearch zero s s' h e = absurd (ground (arith, e))
  search_nodes-IsSearch (suc fuel) s s' h e =
      elim (Bool-cases (env.fpp.max_search_dist == 0 && leb 100 s.nodes.closed_nodes)) [
        | inl o ↦ subst (IsSearch env) (ground (arith, o, e)) h
        | inr o ↦ by_round (λ t k q. search_nodes-IsSearch fuel t s' k q) o (round env s) refl
      ]
    where
      by_round :
          ((t : State)
            → IsSearch env t
            → search_nodes env fuel t ≡ some (some s')
            → IsSearch env s')
          → (env.fpp.max_search_dist == 0 && leb 100 s.nodes.closed_nodes) ≡ false
          → (r : Round) → round env s ≡ r
          → IsSearch env s'
      by_round again o (going t) q =
          again t (round-IsSearch s t h (inl q)) (ground (arith, o, q, e))
      by_round again o (broken t) q =
          subst (IsSearch env) (ground (arith, o, q, e)) (round-IsSearch s t h (inr q))
      by_round again o failed q = absurd (ground (arith, o, q, e))

  -- The way back from a node ends, and its directions lead to the node.
  trace_lem :
      (fuel i : ℕ) (a : AStarNodes) (ds : List Direction) (u v : ℕ)
      → IsLinked env a
      → i < a.cur_node
      → (a.nodes i).f < fuel
      → Walks env (a.nodes i).x (a.nodes i).y ds u v
      → (r : List Direction) × (trace fuel a i ds ≡ some r)
        × Walks env env.start_x env.start_y r u v
  unfolding trace is_linked
  trace_lem zero i a ds u v l b h w = absurd (omega arith)
  trace_lem (suc fuel) i a ds u v l b h w = elim (Option-cases (a.nodes i).parent) [
    | inl q ↦
        let here = l.linked i b in
        let ex : (a.nodes i).x ≡ env.start_x = ground (arith, q, here) in
        let ey : (a.nodes i).y ≡ env.start_y = ground (arith, q, here) in
        (
          ds,
          ground (arith, q),
          subst (λ x. Walks env x env.start_y ds u v) ex
              (subst (λ y. Walks env (a.nodes i).x y ds u v) ey w),
        )
    | inr (p, q) ↦
        let here = l.linked i b in
        let pb : p < a.cur_node = ground (arith, q, here) in
        let (px, py) = node_bounds env sx sy a p (l.linked p pb) in
        let d = direction_to (a.nodes p).x (a.nodes p).y (a.nodes i).x (a.nodes i).y in
        let step =
          Walks-step env (a.nodes p).x (a.nodes p).y (a.nodes i).x (a.nodes i).y ds u v px py
            (ground (arith, q, here)) (ground (arith, q, here)) w in
        let (r, e, all) =
          trace_lem fuel p a (push_front d ds) u v l pb (ground (arith, q, here, h)) step in
        (r, ground (arith, q, e), all)
  ]

  pub new_nodes-IsSearch :
      IsSearch env
        record { nodes = new_nodes env.start_x env.start_y; found = none; best_match = 0 }
  unfolding new_nodes is_linked
  new_nodes-IsSearch = record {
    linked = record { linked = λ i b. ground arith; tabled = λ k i q. ground (arith, q) };
    ended = λ i f. absurd (ground (arith, f));
  }

  pub get_path_lem :
      (s : State) (i : ℕ)
      → IsSearch env s
      → s.found ≡ some i
      → (r : List Direction) × (get_path s ≡ some (some r))
        × Walks env env.start_x env.start_y r (s.nodes.nodes i).x (s.nodes.nodes i).y
  unfolding get_path Walks
  get_path_lem s i h e =
      let (b, z) = h.ended i e in
      let (r, q, w) =
        trace_lem (suc (s.nodes.nodes i).f) i s.nodes [] (s.nodes.nodes i).x (s.nodes.nodes i).y
          h.linked b (omega arith) (refl, refl) in
      (r, ground (arith, e, q), w)
