-- ===== src/Container/Place.antt =====
-- The operations of `Container` that change what it holds. Messages to clients, and the scripts
-- that they start, are left out.
use otchronos.Prelude.{
  ℕ, ◌+◌, ◌-◌, ◌%◌, Option, none, some, Bool, ◌==◌, ◌&&◌, not, if◌then◌else◌, leb, List, [], ◌∷◌,
}
use otchronos.Container.Items.{
  Item, Thing, ItemList, nil, cons, self, put_self, Items, is_stackable, get_weight, count_by_type,
  set_id_and_sub_type, get_elem?, set, erase_at, push_back, get_index_of_thing,
}

-- A container around another one, with the items before and behind that one in its list.
pub record Frame : Type 0 where
  pub own : Item
  pub max_size : ℕ
  pub total_weight : ℕ
  pub is_inbox : Bool
  pub before : ItemList
  pub after : ItemList

-- A container, and those around it, the innermost first; what is around the last of them (a tile,
-- a player, nothing) is no container.
pub record Place : Type 0 where
  pub own : Item
  pub max_size : ℕ
  pub total_weight : ℕ
  pub unlocked : Bool
  pub item_list : ItemList
  pub parents : List Frame

-- `updateItemWeight(diff)` from a parent on upwards, where `diff` is `new - old`.
unfoldable pub update_item_weight : ℕ → ℕ → List Frame → List Frame
update_item_weight new old [] = []
update_item_weight new old (f ∷ fs) =
    record f { total_weight = f.total_weight + new - old } ∷ update_item_weight new old fs

-- `totalWeight += new - old`, here and in the parents, with a new list of items.
unfoldable pub put_items : ItemList → ℕ → ℕ → Place → Place
unfolding update_item_weight
put_items l new old p = record {
  own = p.own;
  max_size = p.max_size;
  total_weight = p.total_weight + new - old;
  unlocked = p.unlocked;
  item_list = l;
  parents = update_item_weight new old p.parents;
}

-- `(uint8_t)std::max<int32_t>(0, item->getItemCount() - count)`, and the item with that count.
unfoldable pub take_count : ℕ → Item → Item
take_count count i = record i { count = (i.count - count) % 256 }

module _ (items : Items) where
  -- `Container::__addThing` of an item, at an index that is not negative.
  unfoldable pub add_thing : ℕ → Thing → Place → Place
  unfolding put_items get_weight
  add_thing index t p =
      if leb p.max_size index then p else put_items (cons t p.item_list) (get_weight items t) 0 p

  -- `Container::__addThingBack`.
  unfoldable pub add_thing_back : Thing → Place → Place
  unfolding put_items get_weight push_back
  add_thing_back t p = put_items (push_back t p.item_list) (get_weight items t) 0 p

  -- `Container::__internalAddThing`.
  unfoldable pub internal_add_thing : Thing → Place → Place
  unfolding put_items get_weight
  internal_add_thing t p = put_items (cons t p.item_list) (get_weight items t) 0 p

  -- One item of the list becomes another.
  unfoldable pub change_thing : ℕ → Thing → Thing → Place → Place
  unfolding put_items get_weight set
  change_thing index old new p =
      put_items (set p.item_list index new) (get_weight items new) (get_weight items old) p

  -- `Container::__updateThing` of the item `ref`.
  unfoldable pub update_thing : ℕ → ℕ → ℕ → Place → Place
  unfolding change_thing get_index_of_thing get_elem? set_id_and_sub_type
  update_thing ref id count p = elim (get_index_of_thing ref p.item_list) [
    | none ↦ p
    | some k ↦ elim (get_elem? p.item_list k) [
      | none ↦ p
      | some t ↦ change_thing k t (put_self (set_id_and_sub_type items id count (self t)) t) p
    ]
  ]

  -- `Container::__replaceThing`.
  unfoldable pub replace_thing : ℕ → Thing → Place → Place
  unfolding change_thing get_elem?
  replace_thing index t p = elim (get_elem? p.item_list index) [
    | none ↦ p
    | some old ↦ change_thing index old t p
  ]

  -- `Container::__removeThing` of `count` of the item `ref`.
  unfoldable pub remove_thing : ℕ → ℕ → Place → Place
  unfolding change_thing put_items get_index_of_thing get_elem? take_count erase_at
  remove_thing ref count p = elim (get_index_of_thing ref p.item_list) [
    | none ↦ p
    | some k ↦ elim (get_elem? p.item_list k) [
      | none ↦ p
      | some t ↦
          if is_stackable items (self t) && not (count == (self t).count)
          then change_thing k t (put_self (take_count count (self t)) t) p
          else put_items (erase_at k p.item_list) 0 (get_weight items t) p
    ]
  ]

  -- `Container::__getItemTypeCount`.
  unfoldable pub get_item_type_count : ℕ → Option ℕ → ItemList → ℕ
  unfolding count_by_type
  get_item_type_count id sub_type nil = 0
  get_item_type_count id sub_type (cons t l) =
      (if (self t).id == id then count_by_type items (self t) sub_type else 0)
      + get_item_type_count id sub_type l

-- `Container::__getAllItemTypeCount`, which adds to the counts that it is given.
unfoldable pub get_all_item_type_count : ItemList → (ℕ → ℕ) → ℕ → ℕ
get_all_item_type_count nil counts = counts
get_all_item_type_count (cons t l) counts =
    get_all_item_type_count l
      (λ id. if (self t).id == id then counts id + (self t).count else counts id)
