-- ===== src/Tile/Adding.antt =====
-- That adding and removing things keeps the order of the items on a tile.
use otchronos.Prelude.{
  ℕ, zero, suc, ◌+◌, ◌-◌, ◌^◌, ◌%◌, ◌≤◌, ◌<◌, ◌≡◌, refl, Option, none, some, Bool, true, false,
  List, [], ◌∷◌, length, arith, Option-cases, inl, inr,
}
use otchronos.Tile.{
  TileItem, TileThing, creature, item, Tile, from_index, up_to, erase_from, erase_before, put_count,
  find_splash, find_field, remove_item, tile_remove_thing, clear_splash, add_top, add_down,
  add_field, add_item, tile_add_thing,
}
use otchronos.Tile.Layers.{
  is_layered, is_layered-length, is_layered-insert_top, is_layered-erase_from,
  is_layered-erase_before, is_layered-put_count,
}

abbrev is_ground : Option TileItem → Bool
is_ground none = true
is_ground (some x) = x.is_ground_tile

-- The ground is a ground tile, the items that lie down come first, and those that are always on top follow by
-- their order.
pub record IsTile (t : Tile) : Type 0 where
  pub grounded : is_ground t.ground ≡ true
  pub layered : is_layered t.down_item_count t.items ≡ true

remove_item-IsTile :
    (x : TileItem) (count : ℕ) (t : Tile) → IsTile t → IsTile (remove_item x count t)
unfolding remove_item
remove_item-IsTile x count t v = ground (
  arith,
  is_layered-erase_from t.down_item_count x.ref t.items,
  is_layered-erase_before t.down_item_count x.ref t.items,
  is_layered-put_count t.down_item_count x.ref ((x.item_count - count) % 2 ^ 8) t.items,
)

length-erase_from : (n r : ℕ) (xs : List TileItem) → length (erase_from n r xs) ≤ length xs
unfolding erase_from
length-erase_from n r [] = omega arith
length-erase_from zero r (x ∷ xs) = ground (arith, length-erase_from zero r xs)
length-erase_from (suc n) r (x ∷ xs) = omega (arith, length-erase_from n r xs)

length-erase_before : (n r : ℕ) (xs : List TileItem) → length (erase_before n r xs) ≤ length xs
unfolding erase_before
length-erase_before zero r xs = omega arith
length-erase_before (suc n) r [] = omega arith
length-erase_before (suc n) r (x ∷ xs) = ground (arith, length-erase_before n r xs)

length-put_count : (r c : ℕ) (xs : List TileItem) → length (put_count r c xs) ≡ length xs
unfolding put_count
length-put_count r c [] = refl
length-put_count r c (x ∷ xs) = ground (arith, length-put_count r c xs)

length-remove_item :
    (x : TileItem) (count : ℕ) (t : Tile) → length (remove_item x count t).items ≤ length t.items
unfolding remove_item
length-remove_item x count t = ground (
  arith,
  length-erase_from t.down_item_count x.ref t.items,
  length-erase_before t.down_item_count x.ref t.items,
  length-put_count x.ref ((x.item_count - count) % 2 ^ 8) t.items,
)

add_top-IsTile :
    (x : TileItem) (t : Tile)
    → IsTile t
    → x.is_always_on_top ≡ true
    → x.is_ground_tile ≡ false
    → IsTile (add_top x t)
unfolding add_top
add_top-IsTile x t v h k = record {
  grounded = v.grounded;
  layered = is_layered-insert_top t.down_item_count x t.items v.layered h k;
}

clear_splash-IsTile : (x : TileItem) (t : Tile) → IsTile t → IsTile (clear_splash x t)
unfolding clear_splash
clear_splash-IsTile x t v =
    elim (Option-cases (find_splash (from_index t.down_item_count t.items))) [
      | inl e ↦ ground (arith, e, v)
      | inr (old, e) ↦ ground (arith, e, v, remove_item-IsTile old 1 t v)
    ]

add_down-IsTile :
    (x : TileItem) (t : Tile)
    → IsTile t
    → length t.items < 0xffff
    → x.is_always_on_top ≡ false
    → x.is_ground_tile ≡ false
    → IsTile (add_down x t)
unfolding add_down is_layered
add_down-IsTile x t v h k g =
    let few = is_layered-length t.down_item_count t.items v.layered in
    let next : (t.down_item_count + 1) % 2 ^ 16 ≡ suc t.down_item_count = omega (arith, few, h) in
    record { grounded = v.grounded; layered = rw next (ground (arith, v.layered, k, g)) }

add_field-IsTile :
    (x : TileItem) (t : Tile)
    → IsTile t
    → length t.items < 0xffff
    → x.is_always_on_top ≡ false
    → x.is_ground_tile ≡ false
    → IsTile (add_field x t)
unfolding add_field
add_field-IsTile x t v h k g = elim (Option-cases (find_field (up_to t.down_item_count t.items))) [
  | inl e ↦ ground (arith, e, add_down-IsTile x t v h k g)
  | inr (old, e) ↦
      let less = length-remove_item old 1 t in
      let after = remove_item-IsTile old 1 t v in
      ground
        (arith, e, v, add_down-IsTile x (remove_item old 1 t) after (omega (arith, less, h)) k g)
]

add_item-IsTile :
    (x : TileItem) (t : Tile) → IsTile t → length t.items < 0xffff → IsTile (add_item x t)
unfolding add_item
add_item-IsTile x t v h = ground (
  arith,
  v,
  h,
  add_top-IsTile x (clear_splash x t) (clear_splash-IsTile x t v),
  add_field-IsTile x t v h,
  add_down-IsTile x t v h,
)

-- What happens to a tile.
pub data Change : Type 0 where
  adding : TileThing → Change
  removing : TileThing → ℕ → Change

unfoldable pub change : Change → Tile → Tile
unfolding tile_add_thing tile_remove_thing
change (adding thing) t = tile_add_thing thing t
change (removing thing count) t = tile_remove_thing thing count t

-- `Tile::__addThing` and `__removeThing`, on a tile with fewer than 65535 items: the ground stays a ground tile,
-- and the items stay in their order, those that lie down before those that are always on top, and
-- these by their order.
pub change-IsTile :
    (e : Change) (t : Tile) → IsTile t → length t.items < 0xffff → IsTile (change e t)
unfolding change tile_add_thing tile_remove_thing
change-IsTile (adding (creature r)) t v h = record { grounded = v.grounded; layered = v.layered }
change-IsTile (adding (item x)) t v h = add_item-IsTile x t v h
change-IsTile (removing (creature r) count) t v h = record {
  grounded = v.grounded;
  layered = v.layered;
}
change-IsTile (removing (item x) count) t v h = remove_item-IsTile x count t v
