-- ===== src/Map/Links.antt =====
-- What a change of a leaf does to the leaves and the tiles that are read: the links between leaves
-- leave them all.
use otchronos.Prelude.{
  ℕ, ◌+◌, ◌-◌, ◌^◌, ◌≡◌, refl, ◌∙◌, Option, none, some, true, ◌==◌, ◌&&◌, if◌then◌else◌, arith,
  Bool-cases, if-both, zero, suc, inl, inr,
}
use otchronos.Map.{
  Leaf, QTree, absent, inner, leaf, get_leaf, create_leaf, change_leaf, key, put_south, put_east,
  is_some, link, put_tile, in_child,
}
use otchronos.Map.Leaves.{
  is_deep, same_leaf, map_leaf, get_leaf-change_leaf, is_deep-change_leaf, is_present,
}

-- The tile of a leaf, if there is a leaf.
unfoldable pub tile_in : Option Leaf → ℕ → ℕ → ℕ → Option ℕ
tile_in none i j z = none
tile_in (some l) i j z = elim (l.floors z) [ none ↦ none | some f ↦ f i j ]

-- A change of links leaves all tiles.
tile_in-map_leaf :
    (f : Leaf → Leaf) (o : Option Leaf) (i j z : ℕ)
    → ((l : Leaf) → (f l).floors ≡ l.floors)
    → tile_in (map_leaf f o) i j z ≡ tile_in o i j z
unfolding tile_in
tile_in-map_leaf f none i j z h = refl
tile_in-map_leaf f (some l) i j z h = ground (arith, h l)

tile_in-change_leaf :
    (f : Leaf → Leaf) (x y u v i j z : ℕ) (t : QTree)
    → is_deep 13 t ≡ true
    → ((l : Leaf) → (f l).floors ≡ l.floors)
    → tile_in (get_leaf (change_leaf f 13 x y t) u v) i j z ≡ tile_in (get_leaf t u v) i j z
tile_in-change_leaf f x y u v i j z t d h =
    rw (get_leaf-change_leaf f 13 x y u v t d) (elim (Bool-cases (same_leaf 13 x y u v)) [
      | inl s ↦ rw s (tile_in-map_leaf f (get_leaf t u v) i j z h)
      | inr s ↦ rw s refl
    ])

pub tile_in-put_tile :
    (a b c tile : ℕ) (o : Option Leaf) (i j z : ℕ)
    → is_some o ≡ true
    → tile_in (map_leaf (put_tile a b c tile) o) i j z
      ≡ (if z == c && (i == a && j == b) then some tile else tile_in o i j z)
unfolding tile_in put_tile
tile_in-put_tile a b c tile none i j z h = absurd (cc h)
tile_in-put_tile a b c tile (some l) i j z h = ground arith

is_some-map_leaf : (f : Leaf → Leaf) (o : Option Leaf) → is_some (map_leaf f o) ≡ is_some o
is_some-map_leaf f none = refl
is_some-map_leaf f (some l) = refl

is_some-change_leaf :
    (f : Leaf → Leaf) (x y u v : ℕ) (t : QTree)
    → is_deep 13 t ≡ true
    → is_some (get_leaf (change_leaf f 13 x y t) u v) ≡ is_some (get_leaf t u v)
is_some-change_leaf f x y u v t d =
    rw (get_leaf-change_leaf f 13 x y u v t d) (elim (Bool-cases (same_leaf 13 x y u v)) [
      | inl s ↦ rw s (is_some-map_leaf f (get_leaf t u v))
      | inr s ↦ rw s refl
    ])

pub is_present-change_leaf :
    (f : Leaf → Leaf) (n x y : ℕ) (t : QTree) → is_present (change_leaf f n x y t) ≡ is_present t
unfolding is_present change_leaf in_child
is_present-change_leaf f zero x y absent = refl
is_present-change_leaf f zero x y (leaf l) = refl
is_present-change_leaf f zero x y (inner a b c d) = refl
is_present-change_leaf f (suc n) x y absent = refl
is_present-change_leaf f (suc n) x y (leaf l) = refl
is_present-change_leaf f (suc n) x y (inner a b c d) = ground arith

pub is_present-create_leaf :
    (n x y : ℕ) (t : QTree) → is_present (create_leaf n x y t) ≡ is_present t
unfolding is_present create_leaf in_child
is_present-create_leaf zero x y t = refl
is_present-create_leaf (suc n) x y absent = refl
is_present-create_leaf (suc n) x y (leaf l) = refl
is_present-create_leaf (suc n) x y (inner a b c d) = ground arith

-- The same leaves with the same tiles.
pub record IsLike (t t' : QTree) : Type 0 where
  pub deep : is_deep 13 t' ≡ true
  pub present : is_present t' ≡ is_present t
  pub leaves : (u v : ℕ) → is_some (get_leaf t' u v) ≡ is_some (get_leaf t u v)
  pub tiles : (u v i j z : ℕ) → tile_in (get_leaf t' u v) i j z ≡ tile_in (get_leaf t u v) i j z

change_leaf-IsLike :
    (f : Leaf → Leaf) (x y : ℕ) (t t' : QTree)
    → ((l : Leaf) → (f l).floors ≡ l.floors)
    → IsLike t t'
    → IsLike t (change_leaf f 13 x y t')
change_leaf-IsLike f x y t t' h k = record {
  deep = is_deep-change_leaf f 13 x y t' k.deep;
  present = is_present-change_leaf f 13 x y t' ∙ k.present;
  leaves = λ u v. is_some-change_leaf f x y u v t' k.deep ∙ k.leaves u v;
  tiles = λ u v i j z. tile_in-change_leaf f x y u v i j z t' k.deep h ∙ k.tiles u v i j z;
}

pub link-IsLike : (x y : ℕ) (t : QTree) → is_deep 13 t ≡ true → IsLike t (link x y t)
unfolding link
link-IsLike x y t d =
    let start : IsLike t t = record {
      deep = d;
      present = refl;
      leaves = λ u v. refl;
      tiles = λ u v i j z. refl;
    } in
    let north = change_leaf (put_south (key x y)) 13 x (y + 2 ^ 32 - 8) t in
    let n = change_leaf-IsLike (put_south (key x y)) x (y + 2 ^ 32 - 8) t t (λ l. refl) start in
    let west = change_leaf (put_east (key x y)) 13 (x + 2 ^ 32 - 8) y north in
    let w = change_leaf-IsLike (put_east (key x y)) (x + 2 ^ 32 - 8) y t north (λ l. refl) n in
    let south = change_leaf (put_south (key x (y + 8))) 13 x y west in
    let s =
      if-both (IsLike t) (is_some (get_leaf west x (y + 8)))
        (change_leaf-IsLike (put_south (key x (y + 8))) x y t west (λ l. refl) w) w in
    let u = if is_some (get_leaf west x (y + 8)) then south else west in
    if-both (IsLike t) (is_some (get_leaf u (x + 8) y))
      (change_leaf-IsLike (put_east (key (x + 8) y)) x y t u (λ l. refl) s) s
