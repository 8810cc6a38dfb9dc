-- ===== src/Tile.antt =====
-- The things on a tile, tile.h and tile.cpp: the ground, the items, of which those that lie down come first
-- in the list and those that are always on top last, and the creatures. A thing is told by its number,
-- `ref`, as by its pointer in the source. A list that has not been made is an empty one. The flags of the
-- tile and what others are told of a change are left out.
mod Stack
mod Layers
mod Adding
mod Index
mod Replace
mod Tests
use otchronos.Prelude.{
  ℕ, zero, suc, ◌+◌, ◌-◌, ◌^◌, ◌%◌, Option, none, some, Bool, true, false, not, ◌==◌, ◌&&◌, ◌||◌,
  if◌then◌else◌, ltb, leb, List, [], ◌∷◌, length,
}

-- An item, with what its ItemType says of it.
pub record TileItem : Type 0 where
  pub ref : ℕ
  pub is_ground_tile : Bool
  pub is_always_on_top : Bool
  pub always_on_top_order : ℕ
  pub is_splash : Bool
  pub is_magic_field : Bool
  pub is_replaceable : Bool
  pub is_stackable : Bool
  pub item_count : ℕ

pub data TileThing : Type 0 where
  creature : ℕ → TileThing
  item : TileItem → TileThing

-- `Tile` with its TileItemVector, whose count is of 16 bits.
pub record Tile : Type 0 where
  pub ground : Option TileItem
  pub items : List TileItem
  pub down_item_count : ℕ
  pub creatures : List ℕ

-- `std::find` for an item, from an index on.
unfoldable pub has_item : ℕ → List TileItem → Bool
has_item r [] = false
has_item r (x ∷ xs) = x.ref == r || has_item r xs

-- The items from an index on, and those before it: the items on top, and those that lie down.
unfoldable pub from_index : ℕ → List TileItem → List TileItem
from_index zero xs = xs
from_index (suc n) [] = []
from_index (suc n) (x ∷ xs) = from_index n xs

unfoldable pub up_to : ℕ → List TileItem → List TileItem
up_to zero xs = []
up_to (suc n) [] = []
up_to (suc n) (x ∷ xs) = x ∷ up_to n xs

-- The erasure of an item behind an index.
unfoldable pub erase_from : ℕ → ℕ → List TileItem → List TileItem
erase_from n r [] = []
erase_from zero r (x ∷ xs) = if x.ref == r then xs else x ∷ erase_from zero r xs
erase_from (suc n) r (x ∷ xs) = x ∷ erase_from n r xs

-- The erasure of an item before an index.
unfoldable pub erase_before : ℕ → ℕ → List TileItem → List TileItem
erase_before zero r xs = xs
erase_before (suc n) r [] = []
erase_before (suc n) r (x ∷ xs) = if x.ref == r then xs else x ∷ erase_before n r xs

-- `setItemCount`.
unfoldable pub put_count : ℕ → ℕ → List TileItem → List TileItem
put_count r n [] = []
put_count r n (x ∷ xs) =
    if x.ref == r then record x { item_count = n } ∷ xs else x ∷ put_count r n xs

abbrev pub erase_creature : ℕ → List ℕ → List ℕ
erase_creature r [] = []
erase_creature r (c ∷ cs) = if c == r then cs else c ∷ erase_creature r cs

abbrev pub is_item : ℕ → Option TileItem → Bool
is_item r none = false
is_item r (some x) = x.ref == r

-- `Tile::__removeThing` for an item.
unfoldable pub remove_item : TileItem → ℕ → Tile → Tile
unfolding has_item from_index up_to erase_from erase_before put_count
remove_item x count t =
    if is_item x.ref t.ground
    then record t { ground = none }
    else if x.is_always_on_top
    then if has_item x.ref (from_index t.down_item_count t.items)
      then record t { items = erase_from t.down_item_count x.ref t.items }
      else t
    else if has_item x.ref (up_to t.down_item_count t.items)
    then if x.is_stackable && not (count == x.item_count)
      then record t { items = put_count x.ref ((x.item_count - count) % 2 ^ 8) t.items }
      else record t {
        items = erase_before t.down_item_count x.ref t.items;
        down_item_count = t.down_item_count - 1;
      }
    else t

unfoldable pub tile_remove_thing : TileThing → ℕ → Tile → Tile
unfolding remove_item
tile_remove_thing (creature r) count t = record t { creatures = erase_creature r t.creatures }
tile_remove_thing (item x) count t = remove_item x count t

-- The first splash among items, and the first magic field.
unfoldable pub find_splash : List TileItem → Option TileItem
find_splash [] = none
find_splash (x ∷ xs) = if x.is_splash then some x else find_splash xs

unfoldable pub find_field : List TileItem → Option TileItem
find_field [] = none
find_field (x ∷ xs) = if x.is_magic_field then some x else find_field xs

-- The loop that puts an item on top before the first one whose order is not less, behind an index.
unfoldable pub insert_top : ℕ → TileItem → List TileItem → List TileItem
insert_top n new [] = new ∷ []
insert_top zero new (x ∷ xs) =
    if leb new.always_on_top_order x.always_on_top_order
    then new ∷ x ∷ xs
    else x ∷ insert_top zero new xs
insert_top (suc n) new (x ∷ xs) = x ∷ insert_top n new xs

-- An old splash makes room for a new one.
unfoldable pub clear_splash : TileItem → Tile → Tile
unfolding find_splash remove_item from_index
clear_splash new t =
    if new.is_splash
    then elim (find_splash (from_index t.down_item_count t.items)) [
      | none ↦ t
      | some old ↦ remove_item old 1 t
    ]
    else t

unfoldable pub add_top : TileItem → Tile → Tile
unfolding insert_top
add_top new t = record t { items = insert_top t.down_item_count new t.items }

unfoldable pub add_down : TileItem → Tile → Tile
add_down new t = record t {
  items = new ∷ t.items;
  down_item_count = (t.down_item_count + 1) % 2 ^ 16;
}

-- A magic field is put down where an old one can be replaced, or there is none.
unfoldable pub add_field : TileItem → Tile → Tile
unfolding find_field up_to remove_item add_down
add_field new t = elim (find_field (up_to t.down_item_count t.items)) [
  | none ↦ add_down new t
  | some old ↦ if old.is_replaceable then add_down new (remove_item old 1 t) else t
]

-- `Tile::__addThing` for an item.
unfoldable pub add_item : TileItem → Tile → Tile
unfolding clear_splash add_top add_field add_down
add_item x t =
    if ltb 0xffff (length t.items)
    then t
    else if x.is_ground_tile
    then record t { ground = some x }
    else if x.is_always_on_top
    then add_top x (clear_splash x t)
    else if x.is_magic_field
    then add_field x t
    else add_down x t

unfoldable pub tile_add_thing : TileThing → Tile → Tile
unfolding add_item
tile_add_thing (creature r) t = record t { creatures = r ∷ t.creatures }
tile_add_thing (item x) t = add_item x t
