-- ===== src/Tile/Replace.antt =====
-- What a replacement on a tile changes.
use otchronos.Prelude.{
  ℕ, zero, suc, ◌+◌, ◌-◌, ◌≤◌, ◌≡◌, refl, Option, none, some, Bool, true, false, ◌==◌, ◌&&◌,
  if◌then◌else◌, ltb, List, [], ◌∷◌, length, arith, Option-cases, Bool-cases, inl, inr,
}
use otchronos.Tile.{TileItem, TileThing, creature, item, Tile}
use otchronos.Tile.Stack.{
  item_at, creature_at, top_item_count, as_item, as_creature, get_thing_above, get_thing, put_item,
  replace_above, replace_thing,
}

abbrev pub holds_item : Option TileThing → Bool
holds_item none = false
holds_item (some (creature r)) = false
holds_item (some (item x)) = true

length-put_item :
    (n : ℕ) (new : TileItem) (xs : List TileItem) → length (put_item n new xs) ≡ length xs
unfolding put_item
length-put_item n new [] = refl
length-put_item zero new (x ∷ xs) = refl
length-put_item (suc n) new (x ∷ xs) = omega (arith, length-put_item n new xs)

item_at-put_item :
    (i j : ℕ) (new : TileItem) (xs : List TileItem)
    → item_at i (put_item j new xs)
      ≡ (if i == j && ltb j (length xs) then some new else item_at i xs)
unfolding item_at put_item
item_at-put_item i j new [] = ground arith
item_at-put_item zero zero new (x ∷ xs) = ground arith
item_at-put_item zero (suc j) new (x ∷ xs) = ground arith
item_at-put_item (suc i) zero new (x ∷ xs) = ground arith
item_at-put_item (suc i) (suc j) new (x ∷ xs) = ground (arith, item_at-put_item i j new xs)

item_at_bounds :
    (i : ℕ) (xs : List TileItem) → holds_item (as_item (item_at i xs)) ≡ ltb i (length xs)
unfolding item_at
item_at_bounds i [] = ground arith
item_at_bounds zero (x ∷ xs) = ground arith
item_at_bounds (suc i) (x ∷ xs) = ground (arith, item_at_bounds i xs)

no_change : (b : Bool) (x y : Option TileThing) → x ≡ (if b && false then y else x)
no_change true x y = refl
no_change false x y = refl

no_creature : (o : Option ℕ) → holds_item (as_creature o) ≡ false
no_creature none = refl
no_creature (some r) = refl

ground_above : (j : ℕ) (new : TileItem) (t : Tile) → (replace_above j new t).ground ≡ t.ground
unfolding replace_above
ground_above j new t = ground arith

replaced_top :
    (i j : ℕ) (new : TileItem) (t : Tile)
    → t.down_item_count ≤ length t.items
    → ltb j (top_item_count t) ≡ true
    → get_thing_above i (replace_above j new t) ≡ (
        if i == j && holds_item (get_thing_above j t) then some (item new) else get_thing_above i t)
unfolding get_thing_above replace_above
replaced_top i j new t h a =
    let d = t.down_item_count in
    let i' = i - top_item_count t - length t.creatures in
    let long = length-put_item (d + j) new t.items in
    let here : ltb (d + j) (length t.items) ≡ true = ground (arith, h, a) in
    let held = item_at_bounds (d + j) t.items in
    rw (a, long, held, here)
      (elim (Bool-cases (ltb i (top_item_count t))) [
        | inl b ↦
            let read = item_at-put_item (d + i) (d + j) new t.items in
            rw (b, read, here)
              (elim (Bool-cases (i == j)) [
                | inl e ↦
                    let same : (d + i == d + j) ≡ true = ground (arith, e) in rw (e, same) refl
                | inr e ↦
                    let other : (d + i == d + j) ≡ false = ground (arith, e) in rw (e, other) refl
              ])
        | inr b ↦
            let apart : (i == j) ≡ false = ground (arith, a, b) in
            rw (b, apart)
              (elim (Bool-cases (ltb (i - top_item_count t) (length t.creatures))) [
                | inl c ↦ rw c refl
                | inr c ↦ elim (Bool-cases (ltb i' d)) [
                  | inr e ↦ rw (c, e) refl
                  | inl e ↦
                      let other : (i' == d + j) ≡ false = ground (arith, e) in
                      rw (c, e, item_at-put_item i' (d + j) new t.items, other) refl
                ]
              ])
      ])

replaced_down :
    (i j : ℕ) (new : TileItem) (t : Tile)
    → t.down_item_count ≤ length t.items
    → ltb j (top_item_count t) ≡ false
    → ltb (j - top_item_count t) (length t.creatures) ≡ false
    → get_thing_above i (replace_above j new t) ≡ (
        if i == j && holds_item (get_thing_above j t) then some (item new) else get_thing_above i t)
unfolding get_thing_above replace_above
replaced_down i j new t h a b =
    let d = t.down_item_count in
    let i' = i - top_item_count t - length t.creatures in
    let j' = j - top_item_count t - length t.creatures in
    let long = length-put_item j' new t.items in
    let held = item_at_bounds j' t.items in
    elim (Bool-cases (ltb j' d)) [
      | inr g ↦ rw (a, b, g) (no_change (i == j) (get_thing_above i t) (some (item new)))
      | inl g ↦
          let here : ltb j' (length t.items) ≡ true = ground (arith, h, g) in
          rw (a, b, g, long, held, here)
            (elim (Bool-cases (ltb i (top_item_count t))) [
              | inl c ↦
                  let apart : (i == j) ≡ false = ground (arith, a, c) in
                  let other : (d + i == j') ≡ false = ground (arith, g) in
                  rw (c, apart, item_at-put_item (d + i) j' new t.items, other) refl
              | inr c ↦ elim (Bool-cases (ltb (i - top_item_count t) (length t.creatures))) [
                | inl e ↦
                    let apart : (i == j) ≡ false = ground (arith, a, b, c, e) in
                    rw (c, e, apart) refl
                | inr e ↦
                    rw (c, e)
                      (elim (Bool-cases (i == j)) [
                        | inl q ↦
                            let same : (i' == j') ≡ true = ground (arith, q) in
                            let low : ltb i' d ≡ true = ground (arith, q, g) in
                            rw (q, low, item_at-put_item i' j' new t.items, same, here) refl
                        | inr q ↦
                            let other : (i' == j') ≡ false = ground (arith, q, a, b, c, e) in
                            rw (q, item_at-put_item i' j' new t.items, other) refl
                      ])
              ]
            ])
    ]

-- Behind the ground.
replaced_above :
    (i j : ℕ) (new : TileItem) (t : Tile)
    → t.down_item_count ≤ length t.items
    → get_thing_above i (replace_above j new t) ≡ (
        if i == j && holds_item (get_thing_above j t) then some (item new) else get_thing_above i t)
unfolding get_thing_above replace_above
replaced_above i j new t h =
    let top = top_item_count t in
    let things = length t.creatures in
    elim (Bool-cases (ltb j top)) [
      | inl a ↦ replaced_top i j new t h a
      | inr a ↦ elim (Bool-cases (ltb (j - top) things)) [
        | inl b ↦ ground (arith, a, b, no_creature (creature_at (j - top) t.creatures))
        | inr b ↦ replaced_down i j new t h a b
      ]
    ]

-- `__replaceThing`, on a tile whose count of the items that lie down is not more than the items: where an
-- item has the index, the new item takes its place, and the things of all other indices stay; where no
-- item has it, nothing changes.
pub get_thing-replace_thing :
    (i j : ℕ) (new : TileItem) (t : Tile)
    → t.down_item_count ≤ length t.items
    → get_thing i (replace_thing j new t)
      ≡ (if i == j && holds_item (get_thing j t) then some (item new) else get_thing i t)
unfolding get_thing replace_thing
get_thing-replace_thing i j new t h = elim (Option-cases t.ground) [
  | inl e ↦ let same = ground_above j new t in ground (arith, e, same, replaced_above i j new t h)
  | inr (g, e) ↦
      let same = ground_above (j - 1) new t in
      ground (arith, e, same, replaced_above (i - 1) (j - 1) new t h)
]
