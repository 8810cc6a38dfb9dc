-- ===== src/Map/Tests.antt =====
-- A map with no tiles, and one tile set in it.
use otchronos.Prelude.{ℕ, ◌≡◌, refl, ◌&&◌, ◌==◌, if◌then◌else◌, some}
use otchronos.Map.{new_node, set_tile, get_tile}
use otchronos.Map.Leaves.{is_deep, is_present}
use otchronos.Map.Tiles.{IsMap, get_tile-set_tile}

new_node-IsMap : IsMap new_node
unfolding is_deep is_present
new_node-IsMap = record { deep = refl; present = refl }

get_tile-set_tile_example :
    IsMap (set_tile 100 200 7 5 new_node)
    × ((u v w : ℕ)
        → get_tile u v w (set_tile 100 200 7 5 new_node)
          ≡ (if (u == 100 && v == 200) && w == 7 then some 5 else get_tile u v w new_node))
get_tile-set_tile_example = get_tile-set_tile 100 200 7 5 new_node new_node-IsMap refl

set_one : get_tile 100 200 7 (set_tile 100 200 7 5 new_node) ≡ some 5
unfolding get_tile set_tile
set_one = refl
