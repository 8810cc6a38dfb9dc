-- ===== src/Map.antt =====
-- The tiles of the map, map.h and map.cpp: a tree over the bits of the coordinates whose leaves have
-- a floor of 8 by 8 tiles for each of the 16 layers. A tile is a number; a pointer to a leaf is the
-- pair of the coordinates that all its tiles share. Coordinates have no sign: the source's tests
-- for less than 0 are left out, and where it subtracts from a coordinate as an unsigned
-- number of 32 bits, only its lowest 16 bits are ever read. The creatures of a leaf, the pointer of
-- a tile back to its leaf and the deletion of the tile that is replaced are left out.
mod Path
mod Leaves
mod Links
mod Tiles
mod Tests
use otchronos.Prelude.{
  ℕ, zero, suc, ◌+◌, ◌-◌, ◌*◌, ◌/◌, ◌%◌, ◌^◌, Option, none, some, Bool, true, false, ◌==◌, ◌||◌,
  ◌&&◌, not, if◌then◌else◌, leb,
}

-- `Floor`: a tile, or none, by the offsets.
abbrev pub Floor : Type 0
Floor = ℕ → ℕ → Option ℕ

abbrev pub empty_floor : Floor
empty_floor x y = none

-- `QTreeLeafNode`: its floors by their layer, and the leaves south and east of it.
pub record Leaf : Type 0 where
  pub floors : ℕ → Option Floor
  pub south : Option (ℕ × ℕ)
  pub east : Option (ℕ × ℕ)

abbrev pub new_leaf : Leaf
new_leaf = record { floors = λ z. none; south = none; east = none }

-- `QTreeNode`, where `absent` is a null pointer. The children stand in the order of their index.
pub data QTree : Type 0 where
  absent : QTree
  inner : QTree → QTree → QTree → QTree → QTree
  leaf : Leaf → QTree

abbrev pub new_node : QTree
new_node = inner absent absent absent absent

-- `x & 0x8000`.
abbrev pub bit : ℕ → Bool
bit x = (x / 2 ^ 15) % 2 == 1

-- `QTreeNode::getLeaf` and `getLeafStatic`.
unfoldable pub get_leaf : QTree → ℕ → ℕ → Option Leaf
get_leaf absent x y = none
get_leaf (leaf l) x y = some l
get_leaf (inner a b c d) x y =
    let at_a = get_leaf a (x * 2) (y * 2) in
    let at_b = get_leaf b (x * 2) (y * 2) in
    let at_c = get_leaf c (x * 2) (y * 2) in
    let at_d = get_leaf d (x * 2) (y * 2) in
    if bit y then if bit x then at_d else at_c else if bit x then at_b else at_a

-- A change of the child in which a coordinate lies.
unfoldable pub in_child : ℕ → ℕ → (QTree → QTree) → QTree → QTree
in_child x y f absent = absent
in_child x y f (leaf l) = leaf l
in_child x y f (inner a b c d) =
    if bit y
    then if bit x then inner a b c (f d) else inner a b (f c) d
    else if bit x
    then inner a (f b) c d
    else inner (f a) b c d

-- `if (!m_child[index])`: a leaf is made at the last level, a node above it.
unfoldable pub sprout : ℕ → QTree → QTree
sprout level absent = if level == 1 then leaf new_leaf else new_node
sprout level t = t

-- `QTreeNode::createLeaf`, where `level` is 2 less than in the source: 13 at the root, and FLOOR_BITS
-- is 1.
unfoldable pub create_leaf : ℕ → ℕ → ℕ → QTree → QTree
unfolding in_child sprout
create_leaf zero x y t = t
create_leaf (suc level) x y t =
    in_child x y (λ u. create_leaf level (x * 2) (y * 2) (sprout (suc level) u)) t

-- A change of the leaf in which a coordinate lies, if it is there.
unfoldable pub change_leaf : (Leaf → Leaf) → ℕ → ℕ → ℕ → QTree → QTree
unfolding in_child
change_leaf f zero x y absent = absent
change_leaf f zero x y (leaf l) = leaf (f l)
change_leaf f zero x y (inner a b c d) = inner a b c d
change_leaf f (suc level) x y t = in_child x y (change_leaf f level (x * 2) (y * 2)) t

-- The pointer to the leaf of a coordinate.
abbrev pub key : ℕ → ℕ → ℕ × ℕ
key x y = ((x / 8) % 2 ^ 13, (y / 8) % 2 ^ 13)

abbrev pub put_south : ℕ × ℕ → Leaf → Leaf
put_south k l = record { floors = l.floors; south = some k; east = l.east }

abbrev pub put_east : ℕ × ℕ → Leaf → Leaf
put_east k l = record { floors = l.floors; south = l.south; east = some k }

abbrev pub is_some {ℓ} : {A : Type ℓ} → Option A → Bool
is_some none = false
is_some (some a) = true

-- The links of `setTile` between a new leaf and those around it.
unfoldable pub link : ℕ → ℕ → QTree → QTree
unfolding change_leaf get_leaf
link x y t =
    let north = change_leaf (put_south (key x y)) 13 x (y + 2 ^ 32 - 8) t in
    let west = change_leaf (put_east (key x y)) 13 (x + 2 ^ 32 - 8) y north in
    let s =
      if is_some (get_leaf west x (y + 8))
      then change_leaf (put_south (key x (y + 8))) 13 x y west
      else west in
    if is_some (get_leaf s (x + 8) y) then change_leaf (put_east (key (x + 8) y)) 13 x y s else s

-- `createFloor(z)`, and `tile = newTile` in it.
unfoldable pub put_tile : ℕ → ℕ → ℕ → ℕ → Leaf → Leaf
put_tile i j z tile l =
    let floor : Floor = elim (l.floors z) [ none ↦ empty_floor | some f ↦ f ] in
    let floor' : Floor = λ a b. if a == i && b == j then some tile else floor a b in
    record {
      floors = λ k. if k == z then some floor' else l.floors k;
      south = l.south;
      east = l.east;
    }

-- Coordinates outside the map.
abbrev pub is_outside : ℕ → ℕ → ℕ → Bool
is_outside x y z = leb 0xffff x || leb 0xffff y || leb 16 z

-- `Map::setTile`, on the root of the map.
unfoldable pub set_tile : ℕ → ℕ → ℕ → ℕ → QTree → QTree
unfolding create_leaf link change_leaf put_tile get_leaf
set_tile x y z tile t =
    if is_outside x y z
    then t
    else (let made = create_leaf 13 x y t in
        let linked = if is_some (get_leaf t x y) then made else link x y made in
        change_leaf (put_tile (x % 8) (y % 8) z tile) 13 x y linked)

-- `Map::getTile`.
unfoldable pub get_tile : ℕ → ℕ → ℕ → QTree → Option ℕ
unfolding get_leaf
get_tile x y z t = if is_outside x y z then none else elim (get_leaf t x y) [
  | none ↦ none
  | some l ↦ elim (l.floors z) [ none ↦ none | some f ↦ f (x % 8) (y % 8) ]
]
