-- ===== src/Container/Weight.antt =====
-- That the total weight of a container, and of all containers around it, is kept up to date.
use otchronos.Prelude.{
  ℕ, ◌+◌, ◌-◌, ◌≤◌, ◌≡◌, some, ◌==◌, ◌&&◌, not, leb, List, [], ◌∷◌, arith, Option-cases, if-both,
  inl, inr,
}
use otchronos.Container.Items.{
  Item, Thing, ItemList, item, container, cons, self, put_self, Items, is_stackable,
  get_item_weight, get_weight, set_id_and_sub_type, get_elem?, set, erase_at, push_back,
  get_index_of_thing,
}
use otchronos.Container.Place.{
  Frame, Place, update_item_weight, put_items, add_thing, add_thing_back, internal_add_thing,
  change_thing, update_thing, replace_thing, take_count, remove_thing,
}
use otchronos.Container.Sums.{
  sum_weights, Weighed, AllWeighed, sum_weights-push_back, sum_weights-set, sum_weights-erase_at,
  push_back-AllWeighed, set-AllWeighed, erase_at-AllWeighed, get_elem?-Weighed,
}

-- The containers around one that weighs `w` weigh what they hold.
unfoldable pub FramesWeighed : Items → ℕ → List Frame → Type 0
FramesWeighed items w [] = Unit {0}
FramesWeighed items w (f ∷ fs) =
    (f.total_weight ≡ sum_weights items f.before + (w + sum_weights items f.after))
    × AllWeighed items f.before
    × AllWeighed items f.after
    × FramesWeighed items (get_item_weight items f.own + f.total_weight) fs

-- The container, what it holds and what is around it have the total weights of their items.
pub record IsWeighed (items : Items) (p : Place) : Type 0 where
  pub total : p.total_weight ≡ sum_weights items p.item_list
  pub inside : AllWeighed items p.item_list
  pub around : FramesWeighed items (get_item_weight items p.own + p.total_weight) p.parents

module _ (items : Items) where
  update_item_weight-FramesWeighed :
      (w new old : ℕ) (fs : List Frame)
      → old ≤ w
      → FramesWeighed items w fs
      → FramesWeighed items (w + new - old) (update_item_weight new old fs)
  unfolding FramesWeighed update_item_weight
  update_item_weight-FramesWeighed w new old [] h v = tt
  update_item_weight-FramesWeighed w new old (f ∷ fs) h (e, b, a, r) =
      let own = get_item_weight items f.own in
      let up =
        update_item_weight-FramesWeighed (own + f.total_weight) new old fs (omega (arith, h, e))
          r in
      let same : own + f.total_weight + new - old ≡ own + (f.total_weight + new - old) =
        omega (arith, h, e) in
      (omega (arith, h, e), b, a, rw same at up)

  put_items-IsWeighed :
      (l : ItemList) (new old : ℕ) (p : Place)
      → sum_weights items l + old ≡ sum_weights items p.item_list + new
      → old ≤ sum_weights items p.item_list
      → AllWeighed items l
      → IsWeighed items p
      → IsWeighed items (put_items l new old p)
  unfolding put_items
  put_items-IsWeighed l new old p e h a v =
      let own = get_item_weight items p.own in
      let same : own + p.total_weight + new - old ≡ own + (p.total_weight + new - old) =
        omega (arith, h, v.total) in
      let up =
        update_item_weight-FramesWeighed (own + p.total_weight) new old p.parents
          (omega (arith, h, v.total)) v.around in
      record { total = omega (arith, e, h, v.total); inside = a; around = rw same at up }

  change_thing-IsWeighed :
      (k : ℕ) (old new : Thing) (p : Place)
      → get_elem? p.item_list k ≡ some old
      → Weighed items new
      → IsWeighed items p
      → IsWeighed items (change_thing items k old new p)
  unfolding change_thing
  change_thing-IsWeighed k old new p h w v =
      let e = sum_weights-set items p.item_list k old new h in
      let f = sum_weights-erase_at items p.item_list k old h in
      put_items-IsWeighed (set p.item_list k new) (get_weight items new) (get_weight items old) p e
        (omega (arith, f)) (set-AllWeighed items p.item_list k new w v.inside) v

  put_self-Weighed : (i : Item) (t : Thing) → Weighed items t → Weighed items (put_self i t)
  unfolding Weighed
  put_self-Weighed i (item j) w = w
  put_self-Weighed i (container j m tw u l) w = w

  update_thing-IsWeighed :
      (ref id count : ℕ) (p : Place)
      → IsWeighed items p
      → IsWeighed items (update_thing items ref id count p)
  unfolding update_thing
  update_thing-IsWeighed ref id count p v =
      elim (Option-cases (get_index_of_thing ref p.item_list)) [
        | inl e ↦ rw (update_thing, e) v
        | inr (k, e) ↦ elim (Option-cases (get_elem? p.item_list k)) [
          | inl h ↦ rw (update_thing, e, h) v
          | inr (t, h) ↦
              rw (update_thing, e, h)
                (change_thing-IsWeighed k t
                  (put_self (set_id_and_sub_type items id count (self t)) t) p h
                  (put_self-Weighed (set_id_and_sub_type items id count (self t)) t
                    (get_elem?-Weighed items p.item_list k t v.inside h))
                  v)
        ]
      ]

  replace_thing-IsWeighed :
      (index : ℕ) (t : Thing) (p : Place)
      → Weighed items t
      → IsWeighed items p
      → IsWeighed items (replace_thing items index t p)
  unfolding replace_thing
  replace_thing-IsWeighed index t p w v = elim (Option-cases (get_elem? p.item_list index)) [
    | inl h ↦ rw (replace_thing, h) v
    | inr (old, h) ↦ rw (replace_thing, h) (change_thing-IsWeighed index old t p h w v)
  ]

  remove_thing-IsWeighed :
      (ref count : ℕ) (p : Place)
      → IsWeighed items p
      → IsWeighed items (remove_thing items ref count p)
  unfolding remove_thing
  remove_thing-IsWeighed ref count p v = elim (Option-cases (get_index_of_thing ref p.item_list)) [
    | inl e ↦ rw (remove_thing, e) v
    | inr (k, e) ↦ elim (Option-cases (get_elem? p.item_list k)) [
      | inl h ↦ rw (remove_thing, e, h) v
      | inr (t, h) ↦
          rw (remove_thing, e, h)
            (if-both (IsWeighed items)
              (is_stackable items (self t) && not (count == (self t).count))
              (change_thing-IsWeighed k t (put_self (take_count count (self t)) t) p h
                (put_self-Weighed (take_count count (self t)) t
                  (get_elem?-Weighed items p.item_list k t v.inside h))
                v)
              (put_items-IsWeighed (erase_at k p.item_list) 0 (get_weight items t) p
                (let f = sum_weights-erase_at items p.item_list k t h in omega (arith, f))
                (let f = sum_weights-erase_at items p.item_list k t h in omega (arith, f))
                (erase_at-AllWeighed items k p.item_list v.inside) v))
    ]
  ]

  add_front-IsWeighed :
      (t : Thing) (p : Place)
      → Weighed items t
      → IsWeighed items p
      → IsWeighed items (put_items (cons t p.item_list) (get_weight items t) 0 p)
  unfolding sum_weights Weighed
  add_front-IsWeighed t p w v =
      put_items-IsWeighed (cons t p.item_list) (get_weight items t) 0 p (omega arith) (omega arith)
        (w, v.inside) v

-- What is done to a container.
pub data Call : Type 0 where
  add : ℕ → Thing → Call
  add_back : Thing → Call
  internal_add : Thing → Call
  update : ℕ → ℕ → ℕ → Call
  replace : ℕ → Thing → Call
  take : ℕ → ℕ → Call

unfoldable pub call : Items → Call → Place → Place
call items (add index t) = add_thing items index t
call items (add_back t) = add_thing_back items t
call items (internal_add t) = internal_add_thing items t
call items (update ref id count) = update_thing items ref id count
call items (replace index t) = replace_thing items index t
call items (take ref count) = remove_thing items ref count

-- The things that come in weigh what they hold.
unfoldable pub Arrives : Items → Call → Type 0
Arrives items (add index t) = Weighed items t
Arrives items (add_back t) = Weighed items t
Arrives items (internal_add t) = Weighed items t
Arrives items (update ref id count) = Unit {0}
Arrives items (replace index t) = Weighed items t
Arrives items (take ref count) = Unit {0}

-- Every operation on a container, with things that weigh what they hold, keeps the total weight of
-- the container and of each container around it the sum of the weights of its items.
pub call-IsWeighed :
    (items : Items) (c : Call) (p : Place)
    → Arrives items c
    → IsWeighed items p
    → IsWeighed items (call items c p)
unfolding call Arrives add_thing add_thing_back internal_add_thing
call-IsWeighed items (add index t) p w v =
    if-both (IsWeighed items) (leb p.max_size index) v (add_front-IsWeighed items t p w v)
call-IsWeighed items (add_back t) p w v =
    let e = sum_weights-push_back items t p.item_list in
    put_items-IsWeighed items (push_back t p.item_list) (get_weight items t) 0 p (omega (arith, e))
      (omega arith) (push_back-AllWeighed items t p.item_list w v.inside) v
call-IsWeighed items (internal_add t) p w v = add_front-IsWeighed items t p w v
call-IsWeighed items (update ref id count) p w v = update_thing-IsWeighed items ref id count p v
call-IsWeighed items (replace index t) p w v = replace_thing-IsWeighed items index t p w v
call-IsWeighed items (take ref count) p w v = remove_thing-IsWeighed items ref count p v
