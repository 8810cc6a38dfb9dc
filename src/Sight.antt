-- ===== src/Sight.antt =====
-- Lines of sight, map.cpp: `Map::checkSightLine` follows the line between two places from tile to tile, and then goes
-- down the floors. What stands on a tile is the parameter `Env`. An int is told by two numbers whose
-- difference it is, and does not overflow.
mod Ties
mod Rounds
mod Offset
mod Best
mod Near
mod Ends
mod Clear
mod Tests
use otchronos.Prelude.{
  ℕ, zero, suc, ◌+◌, ◌-◌, ◌*◌, Option, none, some, Bool, true, false, not, ◌==◌, ◌&&◌, ◌||◌,
  if◌then◌else◌, ltb,
}

-- A difference of two numbers.
pub record Diff : Type 0 where
  pub plus : ℕ
  pub minus : ℕ

abbrev pub int : ℕ → Diff
int n = record { plus = n; minus = 0 }

abbrev pub add_int : Diff → Diff → Diff
add_int a b = record { plus = a.plus + b.plus; minus = a.minus + b.minus }

abbrev pub neg_int : Diff → Diff
neg_int a = record { plus = a.minus; minus = a.plus }

abbrev pub mul_int : Diff → Diff → Diff
mul_int a b = record {
  plus = a.plus * b.plus + a.minus * b.minus;
  minus = a.plus * b.minus + a.minus * b.plus;
}

-- `std::abs`.
abbrev pub abs_int : Diff → ℕ
abs_int a = (a.plus - a.minus) + (a.minus - a.plus)

-- `mx` and `my`: 1, 0 or -1.
pub data Way : Type 0 where
  ahead : Way
  still : Way
  back : Way

abbrev pub way : ℕ → ℕ → Way
way a b = if ltb a b then ahead else if a == b then still else back

abbrev pub way_int : Way → Diff
way_int ahead = record { plus = 1; minus = 0 }
way_int still = record { plus = 0; minus = 0 }
way_int back = record { plus = 0; minus = 1 }

-- `start.x += mx`, which stays between the start and the destination.
abbrev pub go : Way → ℕ → ℕ
go ahead x = x + 1
go still x = x
go back x = x - 1

-- A line, with its start and its destination.
pub record SightLine : Type 0 where
  pub from_x : ℕ
  pub from_y : ℕ
  pub to_x : ℕ
  pub to_y : ℕ

abbrev pub line_mx : SightLine → Way
line_mx l = way l.from_x l.to_x

abbrev pub line_my : SightLine → Way
line_my l = way l.from_y l.to_y

abbrev pub line_a : SightLine → Diff
line_a l = add_int (int l.to_y) (neg_int (int l.from_y))

abbrev pub line_b : SightLine → Diff
line_b l = add_int (int l.from_x) (neg_int (int l.to_x))

abbrev pub line_c : SightLine → Diff
line_c l = neg_int (add_int (mul_int (line_a l) (int l.to_x)) (mul_int (line_b l) (int l.to_y)))

-- `A * x + B * y + C`.
unfoldable pub line_at : SightLine → Diff → Diff → ℕ
line_at l x y = abs_int (add_int (add_int (mul_int (line_a l) x) (mul_int (line_b l) y)) (line_c l))

unfoldable pub move_hor : SightLine → ℕ → ℕ → ℕ
unfolding line_at
move_hor l x y = line_at l (add_int (int x) (way_int (line_mx l))) (int y)

unfoldable pub move_ver : SightLine → ℕ → ℕ → ℕ
unfolding line_at
move_ver l x y = line_at l (int x) (add_int (int y) (way_int (line_my l)))

unfoldable pub move_cross : SightLine → ℕ → ℕ → ℕ
unfolding line_at
move_cross l x y =
    line_at l (add_int (int x) (way_int (line_mx l))) (add_int (int y) (way_int (line_my l)))

-- A round of the loop: whether y changes, and then whether x does, for which y is the new one.
unfoldable pub moves_y : SightLine → ℕ → ℕ → Bool
unfolding move_hor move_ver move_cross
moves_y l x y =
    not (y == l.to_y)
    && (x == l.to_x
        || ltb (move_ver l x y) (move_hor l x y)
        || ltb (move_cross l x y) (move_hor l x y))

unfoldable pub next_y : SightLine → ℕ → ℕ → ℕ
unfolding moves_y
next_y l x y = if moves_y l x y then go (line_my l) y else y

unfoldable pub moves_x : SightLine → ℕ → ℕ → Bool
unfolding next_y move_hor move_ver move_cross
moves_x l x y =
    not (x == l.to_x)
    && (next_y l x y == l.to_y
        || ltb (move_hor l x y) (move_ver l x y)
        || ltb (move_cross l x y) (move_ver l x y))

unfoldable pub next_x : SightLine → ℕ → ℕ → ℕ
unfolding moves_x
next_x l x y = if moves_x l x y then go (line_mx l) x else x

pub record Env : Type 0 where
  pub blocks_projectile : ℕ → ℕ → ℕ → Bool
  pub has_things : ℕ → ℕ → ℕ → Bool

-- The loop along the line, on fuel; `none` is no fuel left.
unfoldable pub follow : Env → SightLine → ℕ → ℕ → ℕ → ℕ → Option Bool
unfolding next_x next_y
follow env l z zero x y = if x == l.to_x && y == l.to_y then some true else none
follow env l z (suc n) x y =
    let rest = follow env l z n (next_x l x y) (next_y l x y) in
    if x == l.to_x && y == l.to_y
    then some true
    else if env.blocks_projectile (next_x l x y) (next_y l x y) z
    then some false
    else rest

-- The loop down the floors, as many of them as are given.
unfoldable pub descend : Env → ℕ → ℕ → ℕ → ℕ → Bool
descend env zero x y z = true
descend env (suc k) x y z = if env.has_things x y z then false else descend env k x y (suc z)

-- `Position`.
pub record SightPlace : Type 0 where
  pub x : ℕ
  pub y : ℕ
  pub z : ℕ

-- After the loop along the line, the one down to the floor of the destination.
unfoldable pub go_down : Env → SightPlace → SightPlace → Option Bool → Option Bool
go_down env start destination none = none
go_down env start destination (some false) = some false
go_down env start destination (some true) =
    some (descend env (destination.z - start.z) destination.x destination.y start.z)

-- The line from a place to another.
abbrev pub line_of : SightPlace → SightPlace → SightLine
line_of a b = record { from_x = a.x; from_y = a.y; to_x = b.x; to_y = b.y }

-- Both loops, to a destination which is not above the start. There is fuel for each tile of the line.
unfoldable pub check_down : Env → SightPlace → SightPlace → Option Bool
check_down env start destination =
    let l = line_of start destination in
    let steps = abs_int (line_b l) + abs_int (line_a l) in
    go_down env start destination (follow env l start.z steps start.x start.y)

-- `Map::checkSightLine`.
unfoldable pub check_sight_line : Env → SightPlace → SightPlace → Option Bool
check_sight_line env a b =
    if a.x == b.x && a.y == b.y && a.z == b.z
    then some true
    else if ltb b.z a.z
    then check_down env b a
    else check_down env a b

-- `||`, where there may be no fuel left.
abbrev pub either : Option Bool → Option Bool → Option Bool
either none other = none
either (some true) other = some true
either (some false) other = other

-- `Map::isSightClear`.
unfoldable pub is_sight_clear : Env → SightPlace → SightPlace → Bool → Option Bool
is_sight_clear env a b floor_check =
    if floor_check && not (a.z == b.z)
    then some false
    else either (check_sight_line env a b) (check_sight_line env b a)
