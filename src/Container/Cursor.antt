-- ===== src/Container/Cursor.antt =====
-- `ContainerIterator`, which visits what a container holds and what is in the containers inside
-- it, level by level.
use otchronos.Prelude.{
  ℕ, zero, suc, Option, none, some, Bool, false, ◌==◌, ◌||◌, List, [], ◌∷◌, ◌++◌,
}
use otchronos.Container.Items.{Item, Thing, ItemList, item, container, nil, cons, self}

-- `over`, the queue of the containers, by their items, and `cur`, from the current item of the
-- first of them on.
pub record Cursor : Type 0 where
  pub over : List ItemList
  pub cur : ItemList

-- `Container::begin`.
unfoldable pub begin : ItemList → Cursor
begin nil = record { over = []; cur = nil }
begin (cons t l) = record { over = cons t l ∷ []; cur = cons t l }

-- The containers that are pushed for an item.
unfoldable pub pushed : Thing → List ItemList
pushed (item i) = []
pushed (container i m w u nil) = []
pushed (container i m w u (cons t l)) = cons t l ∷ []

-- `cur` has come to the end of the first container, or not.
unfoldable pub go_on : List ItemList → ItemList → Cursor
go_on over (cons t l) = record { over = over; cur = cons t l }
go_on [] nil = record { over = []; cur = nil }
go_on (first ∷ []) nil = record { over = []; cur = nil }
go_on (first ∷ l ∷ over) nil = record { over = l ∷ over; cur = l }

-- `ContainerIterator::operator++`, from the item `t` with `l` behind it.
unfoldable pub next : List ItemList → Thing → ItemList → Cursor
unfolding pushed go_on
next over t l = go_on (over ++ pushed t) l

-- The items from `begin` to `end`; `none` means out of fuel, and the case of a queue without a
-- current item does not arise.
unfoldable pub visit_from : ℕ → List ItemList → ItemList → Option (List Item)
unfolding next
visit_from fuel [] cur = some []
visit_from fuel (o ∷ over) nil = none
visit_from zero (o ∷ over) (cons t l) = none
visit_from (suc fuel) (o ∷ over) (cons t l) =
    let c = next (o ∷ over) t l in
    elim (visit_from fuel c.over c.cur) [ none ↦ none | some is ↦ some (self t ∷ is) ]

unfoldable pub visit : ℕ → ItemList → Option (List Item)
unfolding visit_from begin
visit fuel l = visit_from fuel (begin l).over (begin l).cur

-- `Container::getItemHoldingCount`, of the items visited.
unfoldable pub get_item_holding_count : List Item → ℕ
get_item_holding_count [] = 0
get_item_holding_count (i ∷ is) = suc (get_item_holding_count is)

-- `Container::isHoldingItem`, of the items visited.
unfoldable pub is_holding_item : ℕ → List Item → Bool
is_holding_item ref [] = false
is_holding_item ref (i ∷ is) = i.ref == ref || is_holding_item ref is
