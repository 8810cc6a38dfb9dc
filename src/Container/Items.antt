-- ===== src/Container/Items.antt =====
-- Items and item types, item.h and item.cpp: `getWeight`, `getSubType`, `setSubType`,
-- `setItemCount`, `countByType`, and the lists of items in a container.
use otchronos.Prelude.{
  ℕ, zero, suc, ◌+◌, ◌*◌, ◌%◌, max, Option, none, some, Bool, true, false, ◌==◌, if◌then◌else◌,
}

-- How an item of a type keeps its subtype, in the order in which `getSubType` asks.
pub data SubType : Type 0 where
  fluid stack charge plain_count : SubType

-- What the item table says of a type.
pub record ItemType : Type 0 where
  pub weight : ℕ
  pub sub_type : SubType
  pub is_pickupable : Bool
  pub is_moveable : Bool

abbrev pub is_stack : SubType → Bool
is_stack stack = true
is_stack _ = false

-- The fields of `Item`.
pub record Item : Type 0 where
  pub ref : ℕ
  pub id : ℕ
  pub count : ℕ
  pub fluid_type : ℕ
  pub charges : ℕ

-- An item that is no container, or a container: its `maxSize`, `totalWeight`, `unlocked` and
-- `itemlist`.
mutual
  pub data Thing : Type 0 where
    item : Item → Thing
    container : Item → ℕ → ℕ → Bool → ItemList → Thing

  pub data ItemList : Type 0 where
    nil : ItemList
    cons : Thing → ItemList → ItemList

abbrev pub self : Thing → Item
self (item i) = i
self (container i m w u l) = i

abbrev pub put_self : Item → Thing → Thing
put_self j (item i) = item j
put_self j (container i m w u l) = container j m w u l

abbrev pub is_container : Thing → Bool
is_container (item i) = false
is_container (container i m w u l) = true

-- The item table, `Item::items`.
abbrev pub Items : Type 0
Items = ℕ → ItemType

module _ (items : Items) where
  abbrev pub is_stackable : Item → Bool
  is_stackable i = is_stack (items i.id).sub_type

  -- `Item::getWeight`.
  unfoldable pub get_item_weight : Item → ℕ
  get_item_weight i =
      if is_stackable i then (items i.id).weight * max 1 i.count else (items i.id).weight

  -- `getWeight`, of which `Container` has its own.
  unfoldable pub get_weight : Thing → ℕ
  unfolding get_item_weight
  get_weight (item i) = get_item_weight i
  get_weight (container i m w u l) = get_item_weight i + w

  sub_type_of : SubType → Item → ℕ
  sub_type_of fluid i = i.fluid_type
  sub_type_of stack i = i.count
  sub_type_of charge i = i.charges
  sub_type_of plain_count i = i.count

  -- `Item::getSubType`.
  unfoldable pub get_sub_type : Item → ℕ
  unfolding sub_type_of
  get_sub_type i = sub_type_of (items i.id).sub_type i

  -- `Item::countByType`, where `none` is the subtype -1.
  unfoldable pub count_by_type : Item → Option ℕ → ℕ
  unfolding get_sub_type
  count_by_type i none = i.count
  count_by_type i (some t) = if t == get_sub_type i then i.count else 0

  put_sub_type : SubType → ℕ → Item → Item
  put_sub_type fluid n i = record i { fluid_type = n }
  put_sub_type stack n i = record i { count = n % 256 }
  put_sub_type charge n i = record i { charges = n }
  put_sub_type plain_count n i = record i { count = n % 256 }

  -- `setID` and `setSubType`; the timers of decaying items are left out.
  unfoldable pub set_id_and_sub_type : ℕ → ℕ → Item → Item
  unfolding put_sub_type
  set_id_and_sub_type id n i = put_sub_type (items id).sub_type n (record i { id = id })

-- `itemlist.size()`.
unfoldable pub size : ItemList → ℕ
size nil = 0
size (cons t l) = suc (size l)

-- `itemlist[index]`, where there is one.
unfoldable pub get_elem? : ItemList → ℕ → Option Thing
get_elem? nil k = none
get_elem? (cons t l) zero = some t
get_elem? (cons t l) (suc k) = get_elem? l k

-- `itemlist[index] = …`, and `itemlist.erase(itemlist.begin() + index)`.
unfoldable pub set : ItemList → ℕ → Thing → ItemList
set nil k u = nil
set (cons t l) zero u = cons u l
set (cons t l) (suc k) u = cons t (set l k u)

unfoldable pub erase_at : ℕ → ItemList → ItemList
erase_at k nil = nil
erase_at zero (cons t l) = l
erase_at (suc k) (cons t l) = cons t (erase_at k l)

-- `itemlist.push_back`.
unfoldable pub push_back : Thing → ItemList → ItemList
push_back u nil = cons u nil
push_back u (cons t l) = cons t (push_back u l)

-- `Container::__getIndexOfThing`, where `none` is -1.
unfoldable pub get_index_of_thing : ℕ → ItemList → Option ℕ
get_index_of_thing ref nil = none
get_index_of_thing ref (cons t l) =
    if (self t).ref == ref
    then some 0
    else elim (get_index_of_thing ref l) [ none ↦ none | some k ↦ some (suc k) ]
