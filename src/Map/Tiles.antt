-- ===== src/Map/Tiles.antt =====
-- The tree stands for a function from positions to tiles.
use otchronos.Prelude.{
  ℕ, ◌%◌, ◌^◌, ◌<◌, ◌≡◌, refl, subst, ◌∙◌, Option, none, some, Bool, true, false, ◌==◌, ◌&&◌,
  if◌then◌else◌, arith, Bool-cases, if-both, inl, inr,
}
use otchronos.Map.{
  Leaf, QTree, get_leaf, create_leaf, change_leaf, is_some, link, put_tile, is_outside, set_tile,
  get_tile,
}
use otchronos.Map.Path.{same_leaf-eq}
use otchronos.Map.Leaves.{
  is_deep, same_leaf, same_leaf_parts, same_leaf_self, get_leaf-change_leaf, is_deep-change_leaf,
  is_present, made, get_leaf-create_leaf, is_deep-create_leaf,
}
use otchronos.Map.Links.{
  tile_in, tile_in-put_tile, is_present-change_leaf, is_present-create_leaf, link-IsLike,
}

places_agree :
    (x y u v : ℕ)
    → (x % 8 ≡ u % 8 → x ≡ u)
    → (y % 8 ≡ v % 8 → y ≡ v)
    → (u % 8 == x % 8 && v % 8 == y % 8) ≡ (u == x && v == y)
places_agree x y u v ex ey = elim (Bool-cases (u % 8 == x % 8 && v % 8 == y % 8)) [
  | inl e ↦
      let a : x ≡ u = ex (ground (arith, e)) in
      let b : y ≡ v = ey (ground (arith, e)) in ground (arith, e, a, b)
  | inr n ↦ ground (arith, n)
]

same_place :
    (x y u v : ℕ)
    → x < 2 ^ 16
    → y < 2 ^ 16
    → u < 2 ^ 16
    → v < 2 ^ 16
    → same_leaf 13 x y u v ≡ true
    → (u % 8 == x % 8 && v % 8 == y % 8) ≡ (u == x && v == y)
same_place x y u v a b c d h =
    let (hx, hy) = same_leaf_parts 13 x y u v h in
    let ex = λ (e : x % 8 ≡ u % 8). same_leaf-eq x u a c hx e in
    let ey = λ (e : y % 8 ≡ v % 8). same_leaf-eq y v b d hy e in places_agree x y u v ex ey

other_place : (x y u v : ℕ) → same_leaf 13 x y u v ≡ false → (u == x && v == y) ≡ false
other_place x y u v h = elim (Bool-cases (u == x && v == y)) [
  | inr n ↦ n
  | inl e ↦
      let eu : x ≡ u = ground (arith, e) in
      let ev : y ≡ v = ground (arith, e) in
      let self : same_leaf 13 x y u v ≡ true =
        subst (λ a. same_leaf 13 x y a v ≡ true) eu
          (subst (λ b. same_leaf 13 x y x b ≡ true) ev (same_leaf_self 13 x y)) in
      absurd (cc (h, self))
]

swap_tests :
    (p q : Bool) (o o' : Option ℕ) → (if p && q then o else o') ≡ (if q && p then o else o')
swap_tests true true o o' = refl
swap_tests true false o o' = refl
swap_tests false true o o' = refl
swap_tests false false o o' = refl

-- What is read where a tile has been set, within the map.
read_tile :
    (x y z tile u v w : ℕ) (t linked : QTree)
    → x < 2 ^ 16
    → y < 2 ^ 16
    → u < 2 ^ 16
    → v < 2 ^ 16
    → is_deep 13 linked ≡ true
    → (same_leaf 13 x y u v ≡ true → is_some (get_leaf linked u v) ≡ true)
    → tile_in
        (get_leaf (change_leaf (put_tile (x % 8) (y % 8) z tile) 13 x y linked) u v)
        (u % 8)
        (v % 8)
        w
      ≡ (if (u == x && v == y) && w == z
          then some tile
          else tile_in (get_leaf linked u v) (u % 8) (v % 8) w)
read_tile x y z tile u v w t linked a b c d deep there =
    rw (get_leaf-change_leaf (put_tile (x % 8) (y % 8) z tile) 13 x y u v linked deep)
      (elim (Bool-cases (same_leaf 13 x y u v)) [
        | inl s ↦
            let read =
              tile_in-put_tile (x % 8) (y % 8) z tile (get_leaf linked u v) (u % 8) (v % 8) w
                (there s) in
            rw (s, read, same_place x y u v a b c d s)
              (swap_tests (w == z) (u == x && v == y) (some tile)
                (tile_in (get_leaf linked u v) (u % 8) (v % 8) w))
        | inr s ↦ rw (s, other_place x y u v s) refl
      ])

-- The tree of a map, as deep everywhere.
pub record IsMap (t : QTree) : Type 0 where
  pub deep : is_deep 13 t ≡ true
  pub present : is_present t ≡ true

tile_in-made : (b : Bool) (o : Option Leaf) (i j z : ℕ) → tile_in (made b o) i j z ≡ tile_in o i j z
unfolding tile_in
tile_in-made true none i j z = refl
tile_in-made true (some l) i j z = refl
tile_in-made false o i j z = refl

is_some-made : (b : Bool) (o : Option Leaf) → b ≡ true → is_some (made b o) ≡ true
is_some-made true o h = refl
is_some-made false o h = absurd (cc h)

-- The tree once the leaf of a position is there, its links included.
linked : ℕ → ℕ → QTree → QTree
unfolding link create_leaf
linked x y t =
    let made = create_leaf 13 x y t in if is_some (get_leaf t x y) then made else link x y made

-- It is a map with the leaf of the position, and with the tiles of before.
record HasLeaf (x y : ℕ) (t t' : QTree) : Type 0 where
  deep : is_deep 13 t' ≡ true
  present : is_present t' ≡ true
  there : (u v : ℕ) → same_leaf 13 x y u v ≡ true → is_some (get_leaf t' u v) ≡ true
  tiles : (u v i j z : ℕ) → tile_in (get_leaf t' u v) i j z ≡ tile_in (get_leaf t u v) i j z

create_leaf-HasLeaf : (x y : ℕ) (t : QTree) → IsMap t → HasLeaf x y t (create_leaf 13 x y t)
create_leaf-HasLeaf x y t m = record {
  deep = is_deep-create_leaf 13 x y t m.deep;
  present = is_present-create_leaf 13 x y t ∙ m.present;
  there = λ u v s.
      rw (get_leaf-create_leaf 13 x y u v t m.deep m.present)
        (is_some-made (same_leaf 13 x y u v) (get_leaf t u v) s);
  tiles = λ u v i j z.
      rw (get_leaf-create_leaf 13 x y u v t m.deep m.present)
        (tile_in-made (same_leaf 13 x y u v) (get_leaf t u v) i j z);
}

link-HasLeaf : (x y : ℕ) (t t' : QTree) → HasLeaf x y t t' → HasLeaf x y t (link x y t')
link-HasLeaf x y t t' h =
    let l = link-IsLike x y t' h.deep in
    record {
      deep = l.deep;
      present = l.present ∙ h.present;
      there = λ u v s. l.leaves u v ∙ h.there u v s;
      tiles = λ u v i j z. l.tiles u v i j z ∙ h.tiles u v i j z;
    }

linked-HasLeaf : (x y : ℕ) (t : QTree) → IsMap t → HasLeaf x y t (linked x y t)
unfolding linked
linked-HasLeaf x y t m =
    let h = create_leaf-HasLeaf x y t m in
    if-both (HasLeaf x y t) (is_some (get_leaf t x y)) h
      (link-HasLeaf x y t (create_leaf 13 x y t) h)

get_tile-inside :
    (u v w : ℕ) (t : QTree)
    → is_outside u v w ≡ false
    → get_tile u v w t ≡ tile_in (get_leaf t u v) (u % 8) (v % 8) w
unfolding get_tile tile_in
get_tile-inside u v w t o = rw o (by_leaf (get_leaf t u v))
  where
    by_leaf :
        (l : Option Leaf)
        → (elim l [
          | none ↦ none
          | some l ↦ elim (l.floors w) [ none ↦ none | some f ↦ f (u % 8) (v % 8) ]
        ])
          ≡ tile_in l (u % 8) (v % 8) w
    by_leaf none = refl
    by_leaf (some l) = refl

get_tile-outside : (u v w : ℕ) (t : QTree) → is_outside u v w ≡ true → get_tile u v w t ≡ none
unfolding get_tile
get_tile-outside u v w t o = rw o refl

set_tile-inside :
    (x y z tile : ℕ) (t : QTree)
    → is_outside x y z ≡ false
    → set_tile x y z tile t ≡ change_leaf (put_tile (x % 8) (y % 8) z tile) 13 x y (linked x y t)
unfolding set_tile linked
set_tile-inside x y z tile t o = rw o refl

-- A position that is outside is not one that is inside.
outside_differs :
    (x y z u v w : ℕ)
    → is_outside x y z ≡ false
    → is_outside u v w ≡ true
    → ((u == x && v == y) && w == z) ≡ false
outside_differs x y z u v w i o = ground (arith, i, o)

small : (x y z : ℕ) → is_outside x y z ≡ false → (x < 2 ^ 16) × (y < 2 ^ 16)
small x y z o = (ground (arith, o), ground (arith, o))

read_set :
    (x y z tile : ℕ) (t : QTree)
    → IsMap t
    → is_outside x y z ≡ false
    → (u v w : ℕ)
    → get_tile u v w (change_leaf (put_tile (x % 8) (y % 8) z tile) 13 x y (linked x y t))
      ≡ (if (u == x && v == y) && w == z then some tile else get_tile u v w t)
read_set x y z tile t m o u v w =
    let after = change_leaf (put_tile (x % 8) (y % 8) z tile) 13 x y (linked x y t) in
    elim (Bool-cases (is_outside u v w)) [
      | inl e ↦
          rw
            (
              get_tile-outside u v w after e,
              get_tile-outside u v w t e,
              outside_differs x y z u v w o e,
            )
            refl
      | inr i ↦
          let h = linked-HasLeaf x y t m in
          let (a, b) = small x y z o in
          let (c, d) = small u v w i in
          rw
            (
              get_tile-inside u v w after i,
              get_tile-inside u v w t i,
              read_tile x y z tile u v w t (linked x y t) a b c d h.deep (h.there u v),
              h.tiles u v (u % 8) (v % 8) w,
            )
            refl
    ]

-- `setTile` and `getTile`, on the tree of a map and a position inside the map: at that position
-- the new tile is read, and at every other what was read before; and the tree is that of a map again.
pub get_tile-set_tile :
    (x y z tile : ℕ) (t : QTree)
    → IsMap t
    → is_outside x y z ≡ false
    → IsMap (set_tile x y z tile t)
      × ((u v w : ℕ)
          → get_tile u v w (set_tile x y z tile t)
            ≡ (if (u == x && v == y) && w == z then some tile else get_tile u v w t))
get_tile-set_tile x y z tile t m o =
    let h = linked-HasLeaf x y t m in
    let f = put_tile (x % 8) (y % 8) z tile in
    rw (set_tile-inside x y z tile t o) (
      record {
        deep = is_deep-change_leaf f 13 x y (linked x y t) h.deep;
        present = is_present-change_leaf f 13 x y (linked x y t) ∙ h.present;
      },
      read_set x y z tile t m o,
    )
