-- ===== src/Container/Sums.antt =====
-- What the items of a list weigh together, and the operations on lists.
use otchronos.Prelude.{ℕ, zero, suc, ◌+◌, ◌≡◌, subst, some, arith}
use otchronos.Container.Items.{
  Thing, ItemList, item, container, nil, cons, Items, get_weight, get_elem?, set, erase_at,
  push_back,
}

-- The weights together.
unfoldable pub sum_weights : Items → ItemList → ℕ
sum_weights items nil = 0
sum_weights items (cons t l) = get_weight items t + sum_weights items l

-- Below every container the total weight is that of its items.
unfoldable mutual
  pub Weighed : Items → Thing → Type 0
  Weighed items (item i) = Unit {0}
  Weighed items (container i m w u l) = (w ≡ sum_weights items l) × AllWeighed items l

  pub AllWeighed : Items → ItemList → Type 0
  AllWeighed items nil = Unit {0}
  AllWeighed items (cons t l) = Weighed items t × AllWeighed items l

module _ (items : Items) where
  pub sum_weights-push_back :
      (t : Thing) (l : ItemList)
      → sum_weights items (push_back t l) ≡ sum_weights items l + get_weight items t
  unfolding sum_weights push_back
  sum_weights-push_back t nil = omega arith
  sum_weights-push_back t (cons u l) = omega (arith, sum_weights-push_back t l)

  pub sum_weights-set :
      (l : ItemList) (k : ℕ) (old new : Thing)
      → get_elem? l k ≡ some old
      → sum_weights items (set l k new) + get_weight items old
        ≡ sum_weights items l + get_weight items new
  unfolding sum_weights set get_elem?
  sum_weights-set nil k old new h = absurd (cc h)
  sum_weights-set (cons t l) zero old new h = ground (arith, h)
  sum_weights-set (cons t l) (suc k) old new h = omega (arith, sum_weights-set l k old new h)

  pub sum_weights-erase_at :
      (l : ItemList) (k : ℕ) (old : Thing)
      → get_elem? l k ≡ some old
      → sum_weights items (erase_at k l) + get_weight items old ≡ sum_weights items l
  unfolding sum_weights erase_at get_elem?
  sum_weights-erase_at nil k old h = absurd (cc h)
  sum_weights-erase_at (cons t l) zero old h = ground (arith, h)
  sum_weights-erase_at (cons t l) (suc k) old h = omega (arith, sum_weights-erase_at l k old h)

  pub push_back-AllWeighed :
      (t : Thing) (l : ItemList)
      → Weighed items t
      → AllWeighed items l
      → AllWeighed items (push_back t l)
  unfolding Weighed push_back
  push_back-AllWeighed t nil v w = (v, w)
  push_back-AllWeighed t (cons u l) v w = (w.0, push_back-AllWeighed t l v w.1)

  pub set-AllWeighed :
      (l : ItemList) (k : ℕ) (t : Thing)
      → Weighed items t
      → AllWeighed items l
      → AllWeighed items (set l k t)
  unfolding Weighed set
  set-AllWeighed nil k t v w = w
  set-AllWeighed (cons u l) zero t v w = (v, w.1)
  set-AllWeighed (cons u l) (suc k) t v w = (w.0, set-AllWeighed l k t v w.1)

  pub erase_at-AllWeighed :
      (k : ℕ) (l : ItemList) → AllWeighed items l → AllWeighed items (erase_at k l)
  unfolding Weighed erase_at
  erase_at-AllWeighed k nil w = w
  erase_at-AllWeighed zero (cons u l) w = w.1
  erase_at-AllWeighed (suc k) (cons u l) w = (w.0, erase_at-AllWeighed k l w.1)

  pub get_elem?-Weighed :
      (l : ItemList) (k : ℕ) (t : Thing)
      → AllWeighed items l
      → get_elem? l k ≡ some t
      → Weighed items t
  unfolding Weighed get_elem?
  get_elem?-Weighed nil k t w h = absurd (cc h)
  get_elem?-Weighed (cons u l) zero t w h =
      let same : u ≡ t = cc h in subst (λ x. Weighed items x) same (w.0)
  get_elem?-Weighed (cons u l) (suc k) t w h = get_elem?-Weighed l k t w.1 h
