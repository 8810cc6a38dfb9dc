-- ===== src/Tile/Tests.antt =====
-- A tile with a carpet on top, two things that lie down, and a creature.
use otchronos.Prelude.{ℕ, ◌≡◌, refl, some, true, false, [], ◌∷◌, arith}
use otchronos.Tile.{TileItem, item, Tile, add_item, add_down}
use otchronos.Tile.Stack.{get_index_of_thing, get_thing, replace_thing}
use otchronos.Tile.Layers.{is_layered}
use otchronos.Tile.Adding.{IsTile, adding, change, change-IsTile}
use otchronos.Tile.Index.{is_thing, get_thing-get_index_of_thing}
use otchronos.Tile.Replace.{get_thing-replace_thing}

abbrev plain_item : ℕ → TileItem
plain_item r = record {
  ref = r;
  is_ground_tile = false;
  is_always_on_top = false;
  always_on_top_order = 0;
  is_splash = false;
  is_magic_field = false;
  is_replaceable = false;
  is_stackable = false;
  item_count = 1;
}

abbrev top_item : ℕ → ℕ → TileItem
top_item r order = record (plain_item r) { is_always_on_top = true; always_on_top_order = order }

abbrev floor_item : TileItem
floor_item = record (plain_item 1) { is_ground_tile = true }

abbrev room : Tile
room = record {
  ground = some floor_item;
  items = plain_item 2 ∷ plain_item 3 ∷ top_item 4 2 ∷ [];
  down_item_count = 2;
  creatures = 9 ∷ [];
}

room-IsTile : IsTile room
unfolding is_layered
room-IsTile = record { grounded = refl; layered = refl }

change-IsTile_example : IsTile (change (adding (item (top_item 5 1))) room)
change-IsTile_example = change-IsTile (adding (item (top_item 5 1))) room room-IsTile (omega arith)

below_the_carpet :
    (change (adding (item (top_item 5 1))) room).items
    ≡ plain_item 2 ∷ plain_item 3 ∷ top_item 5 1 ∷ top_item 4 2 ∷ []
unfolding change add_item
below_the_carpet = refl

get_thing-get_index_of_thing_example : is_thing (item (plain_item 3)) (get_thing 4 room) ≡ true
unfolding get_index_of_thing
get_thing-get_index_of_thing_example =
    get_thing-get_index_of_thing (item (plain_item 3)) room 4 (omega arith) refl

get_thing-replace_thing_example :
    get_thing 4 (replace_thing 4 (plain_item 7) room) ≡ some (item (plain_item 7))
unfolding get_thing
get_thing-replace_thing_example = get_thing-replace_thing 4 4 (plain_item 7) room (omega arith)

-- With 65535 items that lie down, one more is put down, and the count of them is 0.
full_down :
    (x : TileItem) (t : Tile) → t.down_item_count ≡ 0xffff → (add_down x t).down_item_count ≡ 0
unfolding add_down
full_down x t e = rw e refl
