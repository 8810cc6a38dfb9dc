-- ===== src/Sight/Tests.antt =====
-- A hall with a pillar at (2, 1), and two places in it.
use otchronos.Prelude.{Bool, ◌≡◌, refl, some, true, false, ◌==◌, ◌&&◌, arith}
use otchronos.Sight.{
  Env, SightPlace, check_sight_line, is_sight_clear, follow, check_down, next_x, go_down, descend,
}
use otchronos.Sight.Clear.{Verdict, check_sight_line_lem, is_sight_clear_ends}

abbrev hall : Env
hall = record { blocks_projectile = λ x y z. x == 2 && y == 1; has_things = λ x y z. false }

abbrev door : SightPlace
door = record { x = 0; y = 0; z = 7 }

abbrev window : SightPlace
window = record { x = 4; y = 1; z = 7 }

abbrev throne : SightPlace
throne = record { x = 4; y = 2; z = 7 }

check_sight_line_lem_example : Verdict hall door throne (check_sight_line hall door throne)
check_sight_line_lem_example = check_sight_line_lem hall door throne (omega arith) refl

is_sight_clear_ends_example :
    (c : Bool) × (is_sight_clear hall door throne true ≡ some c)
    × (is_sight_clear hall throne door true ≡ some c)
is_sight_clear_ends_example = is_sight_clear_ends hall door throne true

behind_the_pillar : is_sight_clear hall door throne true ≡ some false
unfolding is_sight_clear check_sight_line check_down follow next_x go_down descend
behind_the_pillar = refl

at_the_window : is_sight_clear hall door window true ≡ some true
unfolding is_sight_clear check_sight_line check_down follow next_x go_down descend
at_the_window = refl
