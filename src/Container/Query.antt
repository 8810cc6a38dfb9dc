-- ===== src/Container/Query.antt =====
-- What `Container` answers when it is asked whether a thing can come in or go out. An index is
-- `none` where the source has INDEX_WHEREEVER.
use otchronos.Prelude.{
  ℕ, suc, ◌+◌, ◌-◌, ◌*◌, ◌%◌, ◌^◌, max, Option, none, some, Bool, true, false, ◌==◌, ◌||◌, ◌&&◌,
  not, if◌then◌else◌, leb, ltb, List, [], ◌∷◌,
}
use otchronos.Container.Items.{
  Item, Thing, ItemList, nil, cons, self, is_container, Items, is_stackable, size, get_elem?,
  get_index_of_thing,
}
use otchronos.Container.Place.{Frame, Place}

-- The results that a container gives; `other_return` is any other of the enumeration.
pub data ReturnValue : Type 0 where
  noerror not_possible cannot_pickup this_is_impossible : ReturnValue
  container_not_enough_room not_moveable : ReturnValue
  other_return : ℕ → ReturnValue

abbrev pub is_noerror : ReturnValue → Bool
is_noerror noerror = true
is_noerror _ = false

-- The bits of `flags` that a container reads.
pub record Flags : Type 0 where
  pub no_limit : Bool
  pub child_is_owner : Bool
  pub ignore_not_moveable : Bool
  pub ignore_auto_stack : Bool

-- The loops over `getParent()`: what is found first, the thing itself or, with limits, an inbox.
unfoldable pub parents_forbid : Bool → ℕ → List Frame → Option ReturnValue
parents_forbid no_limit ref [] = none
parents_forbid no_limit ref (f ∷ fs) =
    if f.own.ref == ref
    then some this_is_impossible
    else if not no_limit && f.is_inbox
    then some container_not_enough_room
    else parents_forbid no_limit ref fs

abbrev pub wherever : Option ℕ → Bool
wherever none = true
wherever (some k) = false

abbrev pub is_index : ℕ → Option ℕ → Bool
is_index n none = false
is_index n (some k) = k == n

-- `index >= capacity()`, for an index.
abbrev pub too_far : ℕ → Option ℕ → Bool
too_far capacity none = false
too_far capacity (some k) = leb capacity k

module _ (items : Items) (top_query : Option (ℕ → ReturnValue)) where
  -- `Container::__queryAdd` of an item; `top_query` is what the top parent answers for a count,
  -- where it is not this container.
  unfoldable pub query_add : Option ℕ → Thing → ℕ → Flags → Place → ReturnValue
  unfolding parents_forbid size
  query_add index t count flags p =
      if flags.child_is_owner
      then noerror
      else if not p.unlocked
      then not_possible
      else if not (items (self t).id).is_pickupable
      then cannot_pickup
      else if (self t).ref == p.own.ref
      then this_is_impossible
      else elim (parents_forbid flags.no_limit (self t).ref p.parents) [
        | some r ↦ r
        | none ↦
            if not flags.no_limit && (wherever index && leb p.max_size (size p.item_list))
            then container_not_enough_room
            else elim top_query [ none ↦ noerror | some f ↦ f count ]
      ]

  -- A stack that takes more of the item.
  unfoldable pub takes_more : Item → Item → Bool
  takes_more i j = not (j.ref == i.ref) && (j.id == i.id && ltb j.count 100)

  -- The loop of `__queryMaxCount` over the stacks.
  unfoldable pub stack_room : Flags → Thing → Place → ℕ → ItemList → ℕ
  unfolding query_add takes_more
  stack_room flags t p slot nil = 0
  stack_room flags t p slot (cons u l) =
      let more = takes_more (self t) (self u) in
      let left = 100 - (self u).count in
      let rest = stack_room flags t p (if more then suc slot else slot) l in
      if more && is_noerror (query_add (some slot) t left flags p) then left + rest else rest

  -- The stack at an index.
  unfoldable pub stack_room_at : Flags → Thing → Place → ℕ → ℕ
  unfolding query_add
  stack_room_at flags t p index = elim (get_elem? p.item_list index) [
    | none ↦ 0
    | some u ↦
        if ((self u).id == (self t).id && ltb (self u).count 100)
          && is_noerror (query_add (some index) t (100 - (self u).count) flags p)
        then 100 - (self u).count
        else 0
  ]

  -- `Container::__queryMaxCount` of an item, with `maxQueryCount`.
  unfoldable pub query_max_count : Option ℕ → Thing → ℕ → Flags → Place → ReturnValue × ℕ
  unfolding stack_room stack_room_at size
  query_max_count index t count flags p =
      let free = p.max_size - size p.item_list in
      if flags.no_limit
      then (noerror, max 1 count)
      else if is_stackable items (self t)
      then (let room : ℕ = elim index [
        | none ↦ stack_room flags t p 0 p.item_list
        | some k ↦ stack_room_at flags t p k
      ] in
          let most = (free * 100 + room) % 2 ^ 32 in
          if ltb most count then (container_not_enough_room, most) else (noerror, most))
      else if free == 0
      then (container_not_enough_room, 0)
      else (noerror, free)

-- `Container::__queryRemove` of `count` of the thing `t`.
unfoldable pub query_remove : Items → Thing → ℕ → Flags → Place → ReturnValue
query_remove items t count flags p = elim (get_index_of_thing (self t).ref p.item_list) [
  | none ↦ not_possible
  | some k ↦
      if count == 0 || is_stackable items (self t) && ltb (self t).count count
      then not_possible
      else if not (items (self t).id).is_moveable && not flags.ignore_not_moveable
      then not_moveable
      else noerror
]

-- The cylinder that `__queryDestination` names.
pub data Destination : Type 0 where
  here above : Destination
  inside : Thing → Destination

-- What `__queryDestination` gives: the cylinder, the index and `destItem`.
pub record Target : Type 0 where
  pub cylinder : Destination
  pub index : Option ℕ
  pub dest_item : Option Thing

-- The loop that looks for a stack, from an index on.
unfoldable pub find_stack : Item → ℕ → ItemList → Option (ℕ × Thing)
find_stack i n nil = none
find_stack i n (cons u l) =
    if not ((self u).ref == i.ref) && ((self u).id == i.id && ltb (self u).count 100)
    then some (n, u)
    else find_stack i (n + 1) l

-- The item at an index, which may be a container that takes the thing itself.
unfoldable pub at_index : Option ℕ → Option Thing → Place → Target
at_index none dest p = record { cylinder = here; index = none; dest_item = dest }
at_index (some k) dest p =
    let found : Option Thing = elim (get_elem? p.item_list k) [ none ↦ dest | some u ↦ some u ] in
    elim found [
      | none ↦ record { cylinder = here; index = some k; dest_item = none }
      | some u ↦
          if is_container u
          then record { cylinder = inside u; index = none; dest_item = none }
          else record { cylinder = here; index = some k; dest_item = some u }
    ]

-- `Container::__queryDestination` of an item that stands in this container or not (`within`); 254
-- is "move up", 255 is "wherever", and `dest` is what `destItem` was.
unfoldable pub query_destination :
    Items → Option ℕ → Thing → Bool → Option Thing → Flags → Place → Target
unfolding at_index find_stack
query_destination items index t within dest flags p =
    if not p.unlocked
    then record { cylinder = here; index = index; dest_item = none }
    else if is_index 254 index
    then record {
      cylinder = elim p.parents [ [] ↦ here | f ∷ fs ↦ above ];
      index = none;
      dest_item = none;
    }
    else (let beyond = is_index 255 index || too_far p.max_size index in
        let k = if beyond then none else index in
        let d = if beyond then none else dest in
        elim (if not flags.ignore_auto_stack && (is_stackable items (self t) && not within)
          then find_stack (self t) 0 p.item_list
          else none) [
            | some (n, u) ↦ record { cylinder = here; index = some n; dest_item = some u }
            | none ↦ at_index k d p
          ])
