-- ===== src/PathSearch/Tests.antt =====
-- A row of tiles, and a tile that only a diagonal step reaches.
use otchronos.Prelude.{ℕ, ◌≡◌, refl, Option, some, Bool, true, false, List, [], ◌∷◌, arith}
use otchronos.Map.{QTree, new_node, set_tile, get_tile}
use otchronos.PathSearch.{get_best_node}
use otchronos.PathSearch.Target.{FindPathParams, is_in_range, target_distance, path_condition}
use otchronos.PathSearch.Search.{Env, Direction, east, southeast, get_path_matching}
use otchronos.PathSearch.Ends.{IsPath, get_path_matching_ends, get_path_matching-IsPath}

abbrev row : QTree
row = set_tile 102 100 7 3 (set_tile 101 100 7 2 (set_tile 100 100 7 1 new_node))

abbrev corner : QTree
corner = set_tile 101 101 7 2 (set_tile 100 100 7 1 new_node)

abbrev plain_params : Bool → ℕ → FindPathParams
plain_params diagonal most = record {
  full_path_search = true;
  clear_sight = false;
  allow_diagonal = diagonal;
  keep_distance = false;
  max_search_dist = 0;
  min_target_dist = 0;
  max_target_dist = most;
}

abbrev walker : QTree → ℕ → ℕ → FindPathParams → Env
walker map u v params = record {
  map = map;
  z = 7;
  walk_cache = λ x y. 2;
  creature_tile = some 1;
  query_add = λ t. true;
  tile_walk_cost = λ t. 0;
  condition = record { target_x = u; target_y = v; sight = λ x y. true };
  fpp = params;
  start_x = 100;
  start_y = 100;
}

get_path_matching_ends_example :
    (fuel : ℕ) × (r : Option (List Direction)) × (get_path_matching fuel
        (walker row 103 100 (plain_params true 1))
      ≡ some r)
get_path_matching_ends_example =
    get_path_matching_ends (walker row 103 100 (plain_params true 1)) (omega arith) (omega arith)

two_steps :
    get_path_matching 5 (walker row 103 100 (plain_params true 1)) ≡ some (some (east ∷ east ∷ []))
unfolding get_path_matching path_condition is_in_range set_tile get_tile get_best_node
    target_distance
two_steps = refl

get_path_matching-IsPath_example :
    IsPath (walker row 103 100 (plain_params true 1)) (some (east ∷ east ∷ []))
get_path_matching-IsPath_example =
    get_path_matching-IsPath 5 (walker row 103 100 (plain_params true 1)) (some (east ∷ east ∷ []))
      (omega arith) (omega arith) two_steps

-- Diagonal steps are not allowed, and the first one is diagonal.
diagonal_at_first :
    get_path_matching 5 (walker corner 101 101 (plain_params false 0))
    ≡ some (some (southeast ∷ []))
unfolding get_path_matching path_condition is_in_range set_tile get_tile get_best_node
    target_distance
diagonal_at_first = refl
