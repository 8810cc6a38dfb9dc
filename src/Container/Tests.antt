-- ===== src/Container/Tests.antt =====
-- A backpack in a chest.
use otchronos.Prelude.{
  ℕ, ◌≤◌, ◌≡◌, refl, none, some, true, false, ◌==◌, List, [], ◌∷◌, if◌then◌else◌, arith,
}
use otchronos.Container.Items.{
  Item, Thing, ItemList, item, container, nil, cons, ItemType, stack, plain_count, get_item_weight,
  get_weight, size,
}
use otchronos.Container.Place.{Place, add_thing}
use otchronos.Container.Query.{Flags, query_add}
use otchronos.Container.Cursor.{visit}
use otchronos.Container.Sums.{sum_weights, Weighed}
use otchronos.Container.Weight.{FramesWeighed, IsWeighed, add, call, Arrives, call-IsWeighed}
use otchronos.Container.Room.{query_add-add_thing}
use otchronos.Container.Visit.{total, one, sum_of, visit_lem}

-- Type 2 is that of coins, which stack; the others are single things.
abbrev kind_of : ℕ → ItemType
kind_of id = record {
  weight = 10;
  sub_type = if id == 2 then stack else plain_count;
  is_pickupable = true;
  is_moveable = true;
}

abbrev coins : Thing
coins = item (record { ref = 5; id = 2; count = 30; fluid_type = 0; charges = 0 })

abbrev sword : Thing
sword = item (record { ref = 6; id = 3; count = 1; fluid_type = 0; charges = 0 })

abbrev backpack : Item
backpack = record { ref = 7; id = 4; count = 1; fluid_type = 0; charges = 0 }

abbrev chest : Item
chest = record { ref = 8; id = 1; count = 1; fluid_type = 0; charges = 0 }

-- The backpack with the coins, in the chest with the sword.
abbrev packed : Place
packed = record {
  own = backpack;
  max_size = 20;
  total_weight = 300;
  unlocked = true;
  item_list = cons coins nil;
  parents =
      record {
        own = chest;
        max_size = 10;
        total_weight = 320;
        is_inbox = false;
        before = cons sword nil;
        after = nil;
      }
      ∷ [];
}

packed-IsWeighed : IsWeighed kind_of packed
unfolding sum_weights get_weight get_item_weight Weighed FramesWeighed
packed-IsWeighed = record { total = refl; inside = (tt, tt); around = (refl, (tt, tt), tt, tt) }

call-IsWeighed_example : IsWeighed kind_of (call kind_of (add 0 sword) packed)
unfolding Arrives Weighed
call-IsWeighed_example = call-IsWeighed kind_of (add 0 sword) packed tt packed-IsWeighed

abbrev open_flags : Flags
open_flags = record {
  no_limit = false;
  child_is_owner = false;
  ignore_not_moveable = false;
  ignore_auto_stack = false;
}

query_add-add_thing_example : size (add_thing kind_of 0 sword packed).item_list ≤ 20
unfolding query_add
query_add-add_thing_example =
    (query_add-add_thing kind_of none sword 1 0 open_flags packed refl refl refl (omega arith)).4

-- The backpack as it stands in the chest.
abbrev chest_list : ItemList
chest_list = cons sword (cons (container backpack 20 300 true (cons coins nil)) nil)

visit_test :
    visit 3 chest_list
    ≡ some (
        record { ref = 6; id = 3; count = 1; fluid_type = 0; charges = 0 }
        ∷ backpack
        ∷ record { ref = 5; id = 2; count = 30; fluid_type = 0; charges = 0 }
        ∷ [])
unfolding visit
visit_test = refl

visit_lem_example :
    (is : List Item) × (visit (total one chest_list) chest_list ≡ some is)
    × ((f : Item → ℕ) → sum_of f is ≡ total f chest_list)
visit_lem_example = visit_lem chest_list
