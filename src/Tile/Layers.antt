-- ===== src/Tile/Layers.antt =====
-- The order of the items on a tile: those that lie down, then those that are always on top, by their order.
use otchronos.Prelude.{
  ℕ, zero, suc, ◌-◌, ◌≤◌, ◌≡◌, refl, Bool, true, false, not, ◌&&◌, leb, List, [], ◌∷◌, length,
  arith,
}
use otchronos.Tile.{TileItem, has_item, up_to, erase_from, erase_before, put_count, insert_top}

-- The first item, if there is one, is not of a lower order.
abbrev pub starts_at : ℕ → List TileItem → Bool
starts_at o [] = true
starts_at o (x ∷ xs) = leb o x.always_on_top_order

unfoldable pub is_layered : ℕ → List TileItem → Bool
is_layered zero [] = true
is_layered zero (x ∷ xs) =
    ((x.is_always_on_top && not x.is_ground_tile) && starts_at x.always_on_top_order xs)
    && is_layered zero xs
is_layered (suc n) [] = false
is_layered (suc n) (x ∷ xs) = (not x.is_always_on_top && not x.is_ground_tile) && is_layered n xs

pub is_layered-length : (n : ℕ) (xs : List TileItem) → is_layered n xs ≡ true → n ≤ length xs
unfolding is_layered
is_layered-length zero xs h = omega arith
is_layered-length (suc n) [] h = absurd (cc h)
is_layered-length (suc n) (x ∷ xs) h =
    let rest = is_layered-length n xs (ground (arith, h)) in omega (arith, rest)

starts_at-insert_top :
    (o : ℕ) (new : TileItem) (xs : List TileItem)
    → starts_at o xs ≡ true
    → o ≤ new.always_on_top_order
    → starts_at o (insert_top 0 new xs) ≡ true
unfolding insert_top
starts_at-insert_top o new [] h k = ground (arith, k)
starts_at-insert_top o new (x ∷ xs) h k = ground (arith, h, k)

pub is_layered-insert_top :
    (n : ℕ) (new : TileItem) (xs : List TileItem)
    → is_layered n xs ≡ true
    → new.is_always_on_top ≡ true
    → new.is_ground_tile ≡ false
    → is_layered n (insert_top n new xs) ≡ true
unfolding is_layered insert_top
is_layered-insert_top zero new [] h k g = ground (arith, k, g)
is_layered-insert_top zero new (x ∷ xs) h k g = ground (
  arith,
  h,
  k,
  g,
  is_layered-insert_top zero new xs (ground (arith, h)) k g,
  starts_at-insert_top x.always_on_top_order new xs,
)
is_layered-insert_top (suc n) new [] h k g = absurd (cc h)
is_layered-insert_top (suc n) new (x ∷ xs) h k g =
    ground (arith, h, k, g, is_layered-insert_top n new xs (ground (arith, h)) k g)

starts_at-erase_from :
    (o r : ℕ) (xs : List TileItem)
    → starts_at o xs ≡ true
    → is_layered 0 xs ≡ true
    → starts_at o (erase_from 0 r xs) ≡ true
unfolding erase_from is_layered
starts_at-erase_from o r [] h k = refl
starts_at-erase_from o r (x ∷ []) h k = ground (arith, h, k)
starts_at-erase_from o r (x ∷ y ∷ xs) h k = ground (arith, h, k)

pub is_layered-erase_from :
    (n r : ℕ) (xs : List TileItem)
    → is_layered n xs ≡ true
    → is_layered n (erase_from n r xs) ≡ true
unfolding is_layered erase_from
is_layered-erase_from zero r [] h = refl
is_layered-erase_from zero r (x ∷ xs) h = ground (
  arith,
  h,
  is_layered-erase_from zero r xs (ground (arith, h)),
  starts_at-erase_from x.always_on_top_order r xs,
)
is_layered-erase_from (suc n) r [] h = h
is_layered-erase_from (suc n) r (x ∷ xs) h =
    ground (arith, h, is_layered-erase_from n r xs (ground (arith, h)))

pub is_layered-erase_before :
    (n r : ℕ) (xs : List TileItem)
    → is_layered n xs ≡ true
    → has_item r (up_to n xs) ≡ true
    → is_layered (n - 1) (erase_before n r xs) ≡ true
unfolding is_layered erase_before has_item up_to
is_layered-erase_before zero r xs h k = absurd (cc k)
is_layered-erase_before (suc n) r [] h k = absurd (cc h)
is_layered-erase_before (suc zero) r (x ∷ xs) h k = ground (arith, h, k)
is_layered-erase_before (suc (suc n)) r (x ∷ xs) h k =
    ground (arith, h, k, is_layered-erase_before (suc n) r xs (ground (arith, h)))

starts_at-put_count :
    (o r c : ℕ) (xs : List TileItem) → starts_at o (put_count r c xs) ≡ starts_at o xs
unfolding put_count
starts_at-put_count o r c [] = refl
starts_at-put_count o r c (x ∷ xs) = ground arith

pub is_layered-put_count :
    (n r c : ℕ) (xs : List TileItem) → is_layered n (put_count r c xs) ≡ is_layered n xs
unfolding is_layered put_count
is_layered-put_count zero r c [] = refl
is_layered-put_count zero r c (x ∷ xs) =
    ground
      (arith, is_layered-put_count zero r c xs, starts_at-put_count x.always_on_top_order r c xs)
is_layered-put_count (suc n) r c [] = refl
is_layered-put_count (suc n) r c (x ∷ xs) = ground (arith, is_layered-put_count n r c xs)
