-- ===== src/PathSearch/Target.antt =====
-- Where a path may end: `FrozenPathingConditionCall` of creature.cpp, with the parameters of the search,
-- `FindPathParams` of creature.h, whose numbers are not negative wherever they are set, or -1, as 0 is,
-- for the least distance.
use otchronos.Prelude.{
  ℕ, ◌+◌, Bool, true, false, not, ◌==◌, ◌&&◌, ◌||◌, if◌then◌else◌, ltb, leb, max,
}
use otchronos.PathSearch.{get_distance}

-- `FindPathParams`.
pub record FindPathParams : Type 0 where
  pub full_path_search : Bool
  pub clear_sight : Bool
  pub allow_diagonal : Bool
  pub keep_distance : Bool
  pub max_search_dist : ℕ
  pub min_target_dist : ℕ
  pub max_target_dist : ℕ

-- The position of the target, and `Map::isSightClear` between a position and the target.
pub record PathingCondition : Type 0 where
  pub target_x : ℕ
  pub target_y : ℕ
  pub sight : ℕ → ℕ → Bool

-- One coordinate of `FrozenPathingConditionCall::isInRange`.
abbrev pub in_range_along : ℕ → ℕ → ℕ → FindPathParams → Bool
in_range_along start test target fpp =
    if fpp.full_path_search
    then not (ltb (target + fpp.max_target_dist) test)
      && not (ltb (test + fpp.max_target_dist) target)
    else (let most = if leb target start then fpp.max_target_dist else 0 in
        let least = if leb start target then fpp.max_target_dist else 0 in
        not (ltb (target + most) test) && not (ltb (test + least) target))

-- `FrozenPathingConditionCall::isInRange`.
unfoldable pub is_in_range : PathingCondition → ℕ → ℕ → ℕ → ℕ → FindPathParams → Bool
is_in_range c start_x start_y x y fpp =
    in_range_along start_x x c.target_x fpp && in_range_along start_y y c.target_y fpp

-- `testDist`.
unfoldable pub target_distance : PathingCondition → ℕ → ℕ → ℕ
target_distance c x y = max (get_distance c.target_x x) (get_distance c.target_y y)

-- `FrozenPathingConditionCall::operator()`, with the new `bestMatchDist`.
unfoldable pub path_condition : PathingCondition → ℕ → ℕ → ℕ → ℕ → FindPathParams → ℕ → Bool × ℕ
path_condition c start_x start_y x y fpp best =
    let test = target_distance c x y in
    if not (is_in_range c start_x start_y x y fpp)
    then (false, best)
    else if fpp.clear_sight && not (c.sight x y)
    then (false, best)
    else if fpp.max_target_dist == 1
    then if ltb test fpp.min_target_dist || ltb fpp.max_target_dist test
      then (false, best)
      else (true, best)
    else if leb test fpp.max_target_dist
    then if ltb test fpp.min_target_dist
      then (false, best)
      else if test == fpp.max_target_dist
      then (true, 0)
      else if ltb best test
      then (true, test)
      else (false, best)
    else (false, best)
