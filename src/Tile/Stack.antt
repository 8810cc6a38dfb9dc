-- ===== src/Tile/Stack.antt =====
-- The index of a thing on a tile, `Tile::__getIndexOfThing`, `Tile::__getThing` and `Tile::__replaceThing`.
use otchronos.Prelude.{
  ℕ, zero, suc, ◌+◌, ◌-◌, Option, none, some, ◌==◌, if◌then◌else◌, ltb, List, [], ◌∷◌, length,
}
use otchronos.Tile.{TileItem, TileThing, creature, item, Tile, from_index, up_to, is_item}

-- The index of an item in a list, and of a creature.
unfoldable pub find_item : ℕ → List TileItem → Option ℕ
find_item r [] = none
find_item r (x ∷ xs) =
    let later = find_item r xs in
    if x.ref == r then some 0 else elim later [ none ↦ none | some k ↦ some (suc k) ]

unfoldable pub find_creature : ℕ → List ℕ → Option ℕ
find_creature r [] = none
find_creature r (c ∷ cs) =
    let later = find_creature r cs in
    if c == r then some 0 else elim later [ none ↦ none | some k ↦ some (suc k) ]

unfoldable pub item_at : ℕ → List TileItem → Option TileItem
item_at n [] = none
item_at zero (x ∷ xs) = some x
item_at (suc n) (x ∷ xs) = item_at n xs

unfoldable pub creature_at : ℕ → List ℕ → Option ℕ
creature_at n [] = none
creature_at zero (c ∷ cs) = some c
creature_at (suc n) (c ∷ cs) = creature_at n cs

abbrev pub count_ground : Option TileItem → ℕ
count_ground none = 0
count_ground (some x) = 1

-- `getTopItemCount`.
abbrev pub top_item_count : Tile → ℕ
top_item_count t = length t.items - t.down_item_count

abbrev pub shift : ℕ → Option ℕ → Option ℕ
shift n none = none
shift n (some k) = some (n + k)

-- `Tile::__getIndexOfThing`, where none is -1.
unfoldable pub get_index_of_thing : TileThing → Tile → Option ℕ
unfolding find_item find_creature from_index up_to
get_index_of_thing (creature r) t =
    shift (count_ground t.ground + top_item_count t) (find_creature r t.creatures)
get_index_of_thing (item x) t =
    if is_item x.ref t.ground
    then some 0
    else if x.is_always_on_top
    then shift (count_ground t.ground) (find_item x.ref (from_index t.down_item_count t.items))
    else shift (count_ground t.ground + top_item_count t + length t.creatures)
        (find_item x.ref (up_to t.down_item_count t.items))

abbrev pub as_item : Option TileItem → Option TileThing
as_item none = none
as_item (some x) = some (item x)

abbrev pub as_creature : Option ℕ → Option TileThing
as_creature none = none
as_creature (some r) = some (creature r)

-- `Tile::__getThing`, for an index behind the ground.
unfoldable pub get_thing_above : ℕ → Tile → Option TileThing
unfolding item_at creature_at
get_thing_above i t =
    let top = top_item_count t in
    let things = length t.creatures in
    if ltb i top
    then as_item (item_at (t.down_item_count + i) t.items)
    else if ltb (i - top) things
    then as_creature (creature_at (i - top) t.creatures)
    else if ltb (i - top - things) t.down_item_count
    then as_item (item_at (i - top - things) t.items)
    else none

-- `Tile::__getThing`.
unfoldable pub get_thing : ℕ → Tile → Option TileThing
unfolding get_thing_above
get_thing i t = elim t.ground [
  | none ↦ get_thing_above i t
  | some g ↦ if i == 0 then some (item g) else get_thing_above (i - 1) t
]

-- A write to a list.
unfoldable pub put_item : ℕ → TileItem → List TileItem → List TileItem
put_item n new [] = []
put_item zero new (x ∷ xs) = new ∷ xs
put_item (suc n) new (x ∷ xs) = x ∷ put_item n new xs

unfoldable pub replace_above : ℕ → TileItem → Tile → Tile
unfolding put_item
replace_above pos new t =
    let top = top_item_count t in
    let things = length t.creatures in
    if ltb pos top
    then record t { items = put_item (t.down_item_count + pos) new t.items }
    else if ltb (pos - top) things
    then t
    else if ltb (pos - top - things) t.down_item_count
    then record t { items = put_item (pos - top - things) new t.items }
    else t

-- `Tile::__replaceThing`, for an item.
unfoldable pub replace_thing : ℕ → TileItem → Tile → Tile
unfolding replace_above
replace_thing index new t = elim t.ground [
  | none ↦ replace_above index new t
  | some g ↦ if index == 0 then record t { ground = some new } else replace_above (index - 1) new t
]
