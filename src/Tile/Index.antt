-- ===== src/Tile/Index.antt =====
-- That an index leads to the thing it was asked for, and what a replacement changes.
use otchronos.Prelude.{
  ℕ, zero, suc, ◌+◌, ◌-◌, ◌≤◌, ◌<◌, ◌≡◌, refl, Option, none, some, Bool, true, false, ◌==◌, ltb,
  List, [], ◌∷◌, length, arith, Bool-cases, Option-cases, inl, inr, ==-refl,
}
use otchronos.Tile.{TileItem, TileThing, creature, item, Tile, from_index, up_to, is_item}
use otchronos.Tile.Stack.{
  find_item, find_creature, item_at, creature_at, count_ground, top_item_count, get_index_of_thing,
  get_thing_above, get_thing,
}

-- It is the thing.
abbrev pub is_thing : TileThing → Option TileThing → Bool
is_thing x none = false
is_thing (creature r) (some (creature s)) = r == s
is_thing (creature r) (some (item y)) = false
is_thing (item x) (some (creature s)) = false
is_thing (item x) (some (item y)) = y.ref == x.ref

find_item-item_at :
    (r : ℕ) (xs : List TileItem) (k : ℕ)
    → find_item r xs ≡ some k
    → (k < length xs) × (is_item r (item_at k xs) ≡ true)
unfolding find_item item_at
find_item-item_at r [] k e = absurd (ground (arith, e))
find_item-item_at r (x ∷ xs) zero e = elim (Option-cases (find_item r xs)) [
  | inl q ↦ (omega arith, ground (arith, e, q))
  | inr (j, q) ↦ (omega arith, ground (arith, e, q))
]
find_item-item_at r (x ∷ xs) (suc k) e = elim (Option-cases (find_item r xs)) [
  | inl q ↦ absurd (ground (arith, e, q))
  | inr (j, q) ↦
      let same : find_item r xs ≡ some k = ground (arith, e, q) in
      let (b, h) = find_item-item_at r xs k same in (omega (arith, b), h)
]

find_creature-creature_at :
    (r : ℕ) (cs : List ℕ) (k : ℕ)
    → find_creature r cs ≡ some k
    → (k < length cs) × (creature_at k cs ≡ some r)
unfolding find_creature creature_at
find_creature-creature_at r [] k e = absurd (ground (arith, e))
find_creature-creature_at r (c ∷ cs) zero e = elim (Option-cases (find_creature r cs)) [
  | inl q ↦ (omega arith, ground (arith, e, q))
  | inr (j, q) ↦ (omega arith, ground (arith, e, q))
]
find_creature-creature_at r (c ∷ cs) (suc k) e = elim (Option-cases (find_creature r cs)) [
  | inl q ↦ absurd (ground (arith, e, q))
  | inr (j, q) ↦
      let same : find_creature r cs ≡ some k = ground (arith, e, q) in
      let (b, h) = find_creature-creature_at r cs k same in (omega (arith, b), h)
]

item_at-from_index :
    (n k : ℕ) (xs : List TileItem) → item_at (n + k) xs ≡ item_at k (from_index n xs)
unfolding item_at from_index
item_at-from_index zero k xs = let e : 0 + k ≡ k = omega arith in rw e refl
item_at-from_index (suc n) k [] = refl
item_at-from_index (suc n) k (x ∷ xs) = ground (arith, item_at-from_index n k xs)

length-from_index : (n : ℕ) (xs : List TileItem) → length (from_index n xs) ≡ length xs - n
unfolding from_index
length-from_index zero xs = omega arith
length-from_index (suc n) [] = omega arith
length-from_index (suc n) (x ∷ xs) = omega (arith, length-from_index n xs)

length-up_to : (n : ℕ) (xs : List TileItem) → length (up_to n xs) ≤ n
unfolding up_to
length-up_to zero xs = omega arith
length-up_to (suc n) [] = omega arith
length-up_to (suc n) (x ∷ xs) = omega (arith, length-up_to n xs)

item_at-up_to :
    (n k : ℕ) (xs : List TileItem) → k < length (up_to n xs) → item_at k (up_to n xs) ≡ item_at k xs
unfolding item_at up_to
item_at-up_to zero k xs h = absurd (omega (arith, h))
item_at-up_to (suc n) k [] h = absurd (omega (arith, h))
item_at-up_to (suc n) zero (x ∷ xs) h = refl
item_at-up_to (suc n) (suc k) (x ∷ xs) h = item_at-up_to n k xs (omega (arith, h))

-- Behind the ground.
get_thing-above : (k : ℕ) (t : Tile) → get_thing (count_ground t.ground + k) t ≡ get_thing_above k t
unfolding get_thing
get_thing-above k t = elim (Option-cases t.ground) [
  | inl e ↦ ground (arith, e)
  | inr (g, e) ↦ ground (arith, e)
]

at_ground :
    (x : TileItem) (t : Tile)
    → is_item x.ref t.ground ≡ true
    → is_thing (item x) (get_thing 0 t) ≡ true
unfolding get_thing
at_ground x t g = elim (Option-cases t.ground) [
  | inl e ↦ absurd (ground (arith, e, g))
  | inr (y, e) ↦ ground (arith, e, g)
]

above_top :
    (k : ℕ) (x : TileItem) (t : Tile)
    → t.down_item_count ≤ length t.items
    → find_item x.ref (from_index t.down_item_count t.items) ≡ some k
    → is_thing (item x) (get_thing_above k t) ≡ true
unfolding get_thing_above
above_top k x t h e =
    let (b, found) = find_item-item_at x.ref (from_index t.down_item_count t.items) k e in
    let long = length-from_index t.down_item_count t.items in
    let at = item_at-from_index t.down_item_count k t.items in
    let top : ltb k (top_item_count t) ≡ true = ground (arith, b, long) in
    ground (arith, top, found, at)

above_creatures :
    (k r : ℕ) (t : Tile)
    → find_creature r t.creatures ≡ some k
    → is_thing (creature r) (get_thing_above (top_item_count t + k) t) ≡ true
unfolding get_thing_above
above_creatures k r t e =
    let (b, found) = find_creature-creature_at r t.creatures k e in
    let top : ltb (top_item_count t + k) (top_item_count t) ≡ false = ground arith in
    let back : top_item_count t + k - top_item_count t ≡ k = omega arith in
    let here : ltb k (length t.creatures) ≡ true = ground (arith, b) in
    rw (top, back, here, found) (==-refl r)

above_down :
    (k : ℕ) (x : TileItem) (t : Tile)
    → find_item x.ref (up_to t.down_item_count t.items) ≡ some k
    → is_thing (item x) (get_thing_above (top_item_count t + length t.creatures + k) t) ≡ true
unfolding get_thing_above
above_down k x t e =
    let (b, found) = find_item-item_at x.ref (up_to t.down_item_count t.items) k e in
    let few = length-up_to t.down_item_count t.items in
    let at = item_at-up_to t.down_item_count k t.items b in
    let top : ltb (top_item_count t + length t.creatures + k) (top_item_count t) ≡ false =
      ground arith in
    let past : top_item_count t + length t.creatures + k - top_item_count t
        ≡ length t.creatures + k =
      omega arith in
    let things : ltb (length t.creatures + k) (length t.creatures) ≡ false = ground arith in
    let back : length t.creatures + k - length t.creatures ≡ k = omega arith in
    let here : ltb k t.down_item_count ≡ true = ground (arith, b, few) in
    rw (top, past, things, back, here) (ground (arith, found, at))

-- The index that `__getIndexOfThing` gives for a thing leads `__getThing` to the thing, on a tile whose
-- count of the items that lie down is not more than the items.
pub get_thing-get_index_of_thing :
    (thing : TileThing) (t : Tile) (n : ℕ)
    → t.down_item_count ≤ length t.items
    → get_index_of_thing thing t ≡ some n
    → is_thing thing (get_thing n t) ≡ true
unfolding get_index_of_thing
get_thing-get_index_of_thing (creature r) t n h e =
    elim (Option-cases (find_creature r t.creatures)) [
      | inl q ↦ absurd (ground (arith, q, e))
      | inr (k, q) ↦
          let at : count_ground t.ground + (top_item_count t + k) ≡ n = ground (arith, q, e) in
          rw (← at, get_thing-above (top_item_count t + k) t) (above_creatures k r t q)
    ]
get_thing-get_index_of_thing (item x) t n h e = elim (Bool-cases (is_item x.ref t.ground)) [
  | inl g ↦ let at : 0 ≡ n = ground (arith, g, e) in rw (← at) (at_ground x t g)
  | inr g ↦ elim (Bool-cases x.is_always_on_top) [
    | inl o ↦ elim (Option-cases (find_item x.ref (from_index t.down_item_count t.items))) [
      | inl q ↦ absurd (ground (arith, g, o, q, e))
      | inr (k, q) ↦
          let at : count_ground t.ground + k ≡ n = ground (arith, g, o, q, e) in
          rw (← at, get_thing-above k t) (above_top k x t h q)
    ]
    | inr o ↦ elim (Option-cases (find_item x.ref (up_to t.down_item_count t.items))) [
      | inl q ↦ absurd (ground (arith, g, o, q, e))
      | inr (k, q) ↦
          let m = top_item_count t + length t.creatures + k in
          let at : count_ground t.ground + m ≡ n = ground (arith, g, o, q, e) in
          rw (← at, get_thing-above m t) (above_down k x t q)
    ]
  ]
]
