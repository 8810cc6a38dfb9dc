-- ===== src/Container/Room.antt =====
-- What the answers of a container promise of the operations that follow.
use otchronos.Prelude.{
  ℕ, zero, suc, ◌+◌, ◌-◌, ◌%◌, ◌≤◌, ◌<◌, ◌≡◌, ◌≢◌, refl, Option, none, some, Bool, true, false,
  ◌==◌, ◌&&◌, not, if◌then◌else◌, List, [], ◌∷◌, arith, Bool-cases, Option-cases, inl, inr,
}
use otchronos.Container.Items.{
  Thing, ItemList, item, container, nil, cons, self, put_self, Items, is_stackable, count_by_type,
  size, get_elem?, set, erase_at, get_index_of_thing,
}
use otchronos.Container.Place.{
  Frame, Place, put_items, add_thing, change_thing, take_count, remove_thing, get_item_type_count,
  get_all_item_type_count,
}
use otchronos.Container.Query.{
  ReturnValue, noerror, Flags, is_noerror, parents_forbid, query_add, query_remove,
}

-- No container around has the pointer.
unfoldable pub Apart : ℕ → List Frame → Type 0
Apart ref [] = Unit {0}
Apart ref (f ∷ fs) = (f.own.ref ≢ ref) × Apart ref fs

unforbidden-Apart :
    (b : Bool) (ref : ℕ) (fs : List Frame) → parents_forbid b ref fs ≡ none → Apart ref fs
unfolding parents_forbid Apart
unforbidden-Apart b ref [] h = tt
unforbidden-Apart b ref (f ∷ fs) h =
    (ground (arith, h), unforbidden-Apart b ref fs (ground (arith, h)))

is_noerror-parents_forbid :
    (b : Bool) (ref : ℕ) (r : ReturnValue) (fs : List Frame)
    → parents_forbid b ref fs ≡ some r
    → is_noerror r ≡ false
unfolding parents_forbid
is_noerror-parents_forbid b ref r [] h = absurd (cc h)
is_noerror-parents_forbid b ref r (f ∷ fs) h =
    ground (arith, h, is_noerror-parents_forbid b ref r fs)

-- Where `__queryAdd` answers that a thing can come in anywhere, with the limits in force and not as
-- a child's query: the thing is not the container nor one around it, the container is open, and
-- `__addThing` at an index inside leaves it within its capacity, with the thing in front.
pub query_add-add_thing :
    (items : Items) (top_query : Option (ℕ → ReturnValue)) (t : Thing) (count index : ℕ)
    (flags : Flags) (p : Place)
    → query_add items top_query none t count flags p ≡ noerror
    → flags.no_limit ≡ false
    → flags.child_is_owner ≡ false
    → index < p.max_size
    → ((self t).ref ≢ p.own.ref)
      × Apart (self t).ref p.parents
      × (p.unlocked ≡ true)
      × ((add_thing items index t p).item_list ≡ cons t p.item_list)
      × (size (add_thing items index t p).item_list ≤ p.max_size)
unfolding query_add add_thing put_items size
query_add-add_thing items top_query t count index flags p h nl co i =
    elim (Option-cases (parents_forbid flags.no_limit (self t).ref p.parents)) [
      | inr (r, e) ↦ absurd (
          ground
            (arith, h, co, e, is_noerror-parents_forbid flags.no_limit (self t).ref r p.parents e))
      | inl e ↦ (
        ground (arith, h, co),
        unforbidden-Apart flags.no_limit (self t).ref p.parents e,
        ground (arith, h, co),
        ground (arith, i),
        ground (arith, h, nl, co, e, i),
      )
    ]

-- Counting by type, where one item of a list is taken out or becomes another.
counted : Items → ℕ → Thing → ℕ
unfolding count_by_type
counted items id t = if (self t).id == id then count_by_type items (self t) none else 0

module _ (items : Items) (id : ℕ) where
  get_item_type_count-set :
      (l : ItemList) (k : ℕ) (old new : Thing)
      → get_elem? l k ≡ some old
      → get_item_type_count items id none (set l k new) + counted items id old
        ≡ get_item_type_count items id none l + counted items id new
  unfolding get_item_type_count set get_elem? counted
  get_item_type_count-set nil k old new h = absurd (cc h)
  get_item_type_count-set (cons t l) zero old new h =
      let same : t ≡ old = cc h in rw same (omega arith)
  get_item_type_count-set (cons t l) (suc k) old new h =
      omega (arith, get_item_type_count-set l k old new h)

  get_item_type_count-erase_at :
      (l : ItemList) (k : ℕ) (old : Thing)
      → get_elem? l k ≡ some old
      → get_item_type_count items id none (erase_at k l) + counted items id old
        ≡ get_item_type_count items id none l
  unfolding get_item_type_count erase_at get_elem? counted
  get_item_type_count-erase_at nil k old h = absurd (cc h)
  get_item_type_count-erase_at (cons t l) zero old h =
      let same : t ≡ old = cc h in rw same (omega arith)
  get_item_type_count-erase_at (cons t l) (suc k) old h =
      omega (arith, get_item_type_count-erase_at l k old h)

counted_lem :
    (items : Items) (id : ℕ) (t : Thing)
    → counted items id t ≡ (if (self t).id == id then (self t).count else 0)
unfolding counted count_by_type
counted_lem items id t = refl

counted-take_count :
    (items : Items) (id count : ℕ) (t : Thing)
    → counted items id (put_self (take_count count (self t)) t)
      ≡ (if (self t).id == id then ((self t).count - count) % 256 else 0)
unfolding counted take_count count_by_type
counted-take_count items id count (item i) = refl
counted-take_count items id count (container i m w u l) = refl

-- What of an item goes when `count` of it is removed: that many of a stack, or all.
unfoldable pub gone : Items → ℕ → Thing → ℕ
gone items count t = if is_stackable items (self t) then count else (self t).count

-- Where `__queryRemove` lets `count` of a thing of the container go, whose count fits in a byte,
-- `__removeThing` takes that many of a stack, or the thing: the container has as many fewer
-- of its type, and as many as before of every other type.
pub query_remove-remove_thing :
    (items : Items) (t : Thing) (count k id : ℕ) (flags : Flags) (p : Place)
    → get_index_of_thing (self t).ref p.item_list ≡ some k
    → get_elem? p.item_list k ≡ some t
    → (self t).count < 256
    → query_remove items t count flags p ≡ noerror
    → get_item_type_count items id none (remove_thing items (self t).ref count p).item_list
        + (if (self t).id == id then gone items count t else 0)
      ≡ get_item_type_count items id none p.item_list
unfolding query_remove remove_thing change_thing put_items gone
query_remove-remove_thing items t count k id flags p e g b h =
    let kept = put_self (take_count count (self t)) t in
    let s = get_item_type_count-set items id p.item_list k t kept g in
    let r = get_item_type_count-erase_at items id p.item_list k t g in
    let c = counted-take_count items id count t in
    let o = counted_lem items id t in
    elim (Bool-cases (is_stackable items (self t) && not (count == (self t).count))) [
      | inl y ↦ rw (remove_thing, e, g, y) (ground (arith, y, s, c, o, b, h, e))
      | inr n ↦ rw (remove_thing, e, g, n) (ground (arith, n, r, o, h, e))
    ]

get_all-get_item_type_count :
    (items : Items) (id : ℕ) (l : ItemList) (counts : ℕ → ℕ)
    → get_all_item_type_count l counts id ≡ counts id + get_item_type_count items id none l
unfolding get_all_item_type_count get_item_type_count count_by_type
get_all-get_item_type_count items id nil counts = omega arith
get_all-get_item_type_count items id (cons t l) counts =
    let more = λ (a : ℕ). if (self t).id == a then counts a + (self t).count else counts a in
    ground (arith, get_all-get_item_type_count items id l more)
