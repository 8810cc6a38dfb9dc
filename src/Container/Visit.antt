-- ===== src/Container/Visit.antt =====
-- That the iterator ends, and visits each item as often as it stands in the container.
use otchronos.Prelude.{
  ℕ, zero, suc, ◌+◌, ◌≤◌, ◌≡◌, refl, ap, ◌∙◌, some, Bool, true, false, ◌==◌, ◌&&◌, from_bool, ltb,
  List, [], ◌∷◌, ◌++◌, arith,
}
use otchronos.Container.Items.{Item, Thing, ItemList, item, container, nil, cons, self}
use otchronos.Container.Cursor.{
  begin, pushed, go_on, next, visit_from, visit, get_item_holding_count, is_holding_item,
}

-- A number for each item, summed over a container and the containers inside it.
unfoldable mutual
  pub thing_total : (Item → ℕ) → Thing → ℕ
  thing_total f (item i) = f i
  thing_total f (container i m w u l) = f i + total f l

  pub total : (Item → ℕ) → ItemList → ℕ
  total f nil = 0
  total f (cons t l) = thing_total f t + total f l

-- The same over the items visited, and over the containers in the queue.
unfoldable pub sum_of : (Item → ℕ) → List Item → ℕ
sum_of f [] = 0
sum_of f (i ∷ is) = f i + sum_of f is

lists_total : (Item → ℕ) → List ItemList → ℕ
lists_total f [] = 0
lists_total f (l ∷ over) = total f l + lists_total f over

-- What is still to be visited.
pending : (Item → ℕ) → List ItemList → ItemList → ℕ
unfolding lists_total
pending f [] cur = 0
pending f (o ∷ over) cur = total f cur + lists_total f over

-- There is a current item as long as there is a container, and none of those that wait is empty.
is_cons : ItemList → Bool
is_cons nil = false
is_cons (cons t l) = true

all_cons : List ItemList → Bool
unfolding is_cons
all_cons [] = true
all_cons (l ∷ over) = is_cons l && all_cons over

ready : List ItemList → ItemList → Bool
unfolding all_cons
ready [] cur = true
ready (o ∷ over) cur = is_cons cur && all_cons over

lists_total-append :
    (f : Item → ℕ) (xs ys : List ItemList)
    → lists_total f (xs ++ ys) ≡ lists_total f xs + lists_total f ys
unfolding lists_total
lists_total-append f [] ys = omega arith
lists_total-append f (x ∷ xs) ys = omega (arith, lists_total-append f xs ys)

all_cons-append : (xs ys : List ItemList) → all_cons (xs ++ ys) ≡ (all_cons xs && all_cons ys)
unfolding all_cons
all_cons-append [] ys = refl
all_cons-append (x ∷ xs) ys = ground (arith, all_cons-append xs ys)

lists_total-pushed :
    (f : Item → ℕ) (t : Thing) → f (self t) + lists_total f (pushed t) ≡ thing_total f t
unfolding lists_total pushed total
lists_total-pushed f (item i) = omega arith
lists_total-pushed f (container i m w u nil) = omega arith
lists_total-pushed f (container i m w u (cons t l)) = omega arith

all_cons-pushed : (t : Thing) → all_cons (pushed t) ≡ true
unfolding all_cons pushed
all_cons-pushed (item i) = refl
all_cons-pushed (container i m w u nil) = refl
all_cons-pushed (container i m w u (cons t l)) = refl

pending-go_on :
    (f : Item → ℕ) (o : ItemList) (over : List ItemList) (l : ItemList)
    → pending f (go_on (o ∷ over) l).over (go_on (o ∷ over) l).cur ≡ total f l + lists_total f over
unfolding pending go_on total
pending-go_on f o over (cons t l) = refl
pending-go_on f o [] nil = refl
pending-go_on f o (l ∷ over) nil = omega arith

go_on-ready :
    (o : ItemList) (over : List ItemList) (l : ItemList)
    → all_cons over ≡ true
    → ready (go_on (o ∷ over) l).over (go_on (o ∷ over) l).cur ≡ true
unfolding ready go_on
go_on-ready o over (cons t l) h = ground (arith, h)
go_on-ready o [] nil h = refl
go_on-ready o (l ∷ over) nil h = h

pending-next :
    (f : Item → ℕ) (o : ItemList) (over : List ItemList) (t : Thing) (l : ItemList)
    → f (self t) + pending f (next (o ∷ over) t l).over (next (o ∷ over) t l).cur
      ≡ pending f (o ∷ over) (cons t l)
unfolding next pending total
pending-next f o over t l = omega (
  arith,
  pending-go_on f o (over ++ pushed t) l,
  lists_total-append f over (pushed t),
  lists_total-pushed f t,
)

next-ready :
    (o : ItemList) (over : List ItemList) (t : Thing) (l : ItemList)
    → ready (o ∷ over) (cons t l) ≡ true
    → ready (next (o ∷ over) t l).over (next (o ∷ over) t l).cur ≡ true
unfolding next ready
next-ready o over t l h =
    go_on-ready o (over ++ pushed t) l
      (ground (arith, h, all_cons-append over (pushed t), all_cons-pushed t))

-- Each item counts once.
abbrev pub one : Item → ℕ
one i = 1

visit_from_lem :
    (fuel : ℕ) (over : List ItemList) (cur : ItemList)
    → ready over cur ≡ true
    → pending one over cur ≤ fuel
    → (is : List Item) × (visit_from fuel over cur ≡ some is)
      × ((f : Item → ℕ) → sum_of f is ≡ pending f over cur)
unfolding visit_from sum_of pending ready
visit_from_lem fuel [] cur r h = ([], refl, λ f. refl)
visit_from_lem fuel (o ∷ over) nil r h = cc r
visit_from_lem zero (o ∷ over) (cons t l) r h = absurd (omega (arith, pending-next one o over t l))
visit_from_lem (suc fuel) (o ∷ over) (cons t l) r h =
    let c = next (o ∷ over) t l in
    let (is, e, s) =
      visit_from_lem fuel c.over c.cur (next-ready o over t l r)
        (omega (arith, pending-next one o over t l)) in
    (self t ∷ is, rw (visit_from, e) refl, λ f. omega (arith, s f, pending-next f o over t l))

begin-ready : (l : ItemList) → ready (begin l).over (begin l).cur ≡ true
unfolding ready begin
begin-ready nil = refl
begin-ready (cons t l) = refl

begin-pending : (f : Item → ℕ) (l : ItemList) → pending f (begin l).over (begin l).cur ≡ total f l
unfolding pending begin total
begin-pending f nil = refl
begin-pending f (cons t l) = omega arith

-- `begin` to `end`, with as much fuel as there are items: the iterator ends, and whatever number
-- each item has, the sum over the items visited is the sum over all items in the container and
-- in those inside it. So each is visited as often as it is there.
pub visit_lem :
    (l : ItemList)
    → (is : List Item) × (visit (total one l) l ≡ some is)
      × ((f : Item → ℕ) → sum_of f is ≡ total f l)
unfolding visit
visit_lem l =
    let (is, e, s) =
      visit_from_lem (total one l) (begin l).over (begin l).cur (begin-ready l)
        (omega (arith, begin-pending one l)) in
    (is, e, λ f. s f ∙ begin-pending f l)

get_item_holding_count-sum_of : (is : List Item) → get_item_holding_count is ≡ sum_of one is
unfolding get_item_holding_count sum_of
get_item_holding_count-sum_of [] = refl
get_item_holding_count-sum_of (i ∷ is) = omega (arith, get_item_holding_count-sum_of is)

-- The items of one pointer.
unfoldable pub at_ref : ℕ → Item → ℕ
at_ref ref i = from_bool (i.ref == ref)

is_holding_item-sum_of :
    (ref : ℕ) (is : List Item) → is_holding_item ref is ≡ ltb 0 (sum_of (at_ref ref) is)
unfolding is_holding_item sum_of at_ref
is_holding_item-sum_of ref [] = refl
is_holding_item-sum_of ref (i ∷ is) = ground (arith, is_holding_item-sum_of ref is)

-- `getItemHoldingCount` and `isHoldingItem`, by the items that the iterator visits: the number of
-- all items in the container and in those inside it, and whether the item is one of them.
pub holding_lem :
    (ref : ℕ) (l : ItemList)
    → (is : List Item) × (visit (total one l) l ≡ some is)
      × (get_item_holding_count is ≡ total one l)
      × (is_holding_item ref is ≡ ltb 0 (total (at_ref ref) l))
holding_lem ref l =
    let (is, e, s) = visit_lem l in
    (
      is,
      e,
      get_item_holding_count-sum_of is ∙ s one,
      is_holding_item-sum_of ref is ∙ ap (λ (n : ℕ). ltb 0 n) (s (at_ref ref)),
    )
