-- ===== src/Map/Leaves.antt =====
-- Reading the leaf of a coordinate after a change of one.
use otchronos.Prelude.{
  ℕ, zero, suc, ◌*◌, ◌≡◌, refl, ◌∙◌, Option, none, some, Bool, true, false, ◌&&◌, if◌then◌else◌,
  arith,
}
use otchronos.Map.{
  Leaf, new_leaf, QTree, absent, inner, leaf, get_leaf, in_child, sprout, create_leaf, change_leaf,
}
use otchronos.Map.Path.{same_bits, same_bool, same_bits_refl}

-- The tree is as deep everywhere: leaves stand at the last level.
unfoldable pub is_deep : ℕ → QTree → Bool
is_deep level absent = true
is_deep zero (leaf l) = true
is_deep zero (inner a b c d) = false
is_deep (suc n) (leaf l) = false
is_deep (suc n) (inner a b c d) = (is_deep n a && is_deep n b) && (is_deep n c && is_deep n d)

-- Both coordinates of two places lie in one leaf, so far down.
unfoldable pub same_leaf : ℕ → ℕ → ℕ → ℕ → ℕ → Bool
unfolding same_bits
same_leaf n x y u v = same_bits n x u && same_bits n y v

pub same_leaf_parts :
    (n x y u v : ℕ)
    → same_leaf n x y u v ≡ true
    → (same_bits n x u ≡ true) × (same_bits n y v ≡ true)
unfolding same_leaf
same_leaf_parts n x y u v h = (ground (arith, h), ground (arith, h))

pub same_leaf_self : (n x y : ℕ) → same_leaf n x y x y ≡ true
unfolding same_leaf
same_leaf_self n x y = ground (arith, same_bits_refl n x, same_bits_refl n y)

abbrev pub map_leaf : (Leaf → Leaf) → Option Leaf → Option Leaf
map_leaf f none = none
map_leaf f (some l) = some (f l)

pub get_leaf-change_leaf :
    (f : Leaf → Leaf) (n x y u v : ℕ) (t : QTree)
    → is_deep n t ≡ true
    → get_leaf (change_leaf f n x y t) u v
      ≡ (if same_leaf n x y u v then map_leaf f (get_leaf t u v) else get_leaf t u v)
unfolding get_leaf change_leaf is_deep same_leaf in_child same_bool
get_leaf-change_leaf f zero x y u v absent h = refl
get_leaf-change_leaf f zero x y u v (leaf l) h = refl
get_leaf-change_leaf f zero x y u v (inner a b c d) h = absurd (cc h)
get_leaf-change_leaf f (suc n) x y u v absent h = ground arith
get_leaf-change_leaf f (suc n) x y u v (leaf l) h = absurd (cc h)
get_leaf-change_leaf f (suc n) x y u v (inner a b c d) h = ground (
  arith,
  h,
  get_leaf-change_leaf f n (x * 2) (y * 2) (u * 2) (v * 2) a,
  get_leaf-change_leaf f n (x * 2) (y * 2) (u * 2) (v * 2) b,
  get_leaf-change_leaf f n (x * 2) (y * 2) (u * 2) (v * 2) c,
  get_leaf-change_leaf f n (x * 2) (y * 2) (u * 2) (v * 2) d,
)

pub is_deep-change_leaf :
    (f : Leaf → Leaf) (n x y : ℕ) (t : QTree)
    → is_deep n t ≡ true
    → is_deep n (change_leaf f n x y t) ≡ true
unfolding change_leaf is_deep in_child
is_deep-change_leaf f zero x y absent h = refl
is_deep-change_leaf f zero x y (leaf l) h = refl
is_deep-change_leaf f zero x y (inner a b c d) h = h
is_deep-change_leaf f (suc n) x y absent h = refl
is_deep-change_leaf f (suc n) x y (leaf l) h = h
is_deep-change_leaf f (suc n) x y (inner a b c d) h = ground (
  arith,
  h,
  is_deep-change_leaf f n (x * 2) (y * 2) a,
  is_deep-change_leaf f n (x * 2) (y * 2) b,
  is_deep-change_leaf f n (x * 2) (y * 2) c,
  is_deep-change_leaf f n (x * 2) (y * 2) d,
)

unfoldable pub is_present : QTree → Bool
is_present absent = false
is_present (inner a b c d) = true
is_present (leaf l) = true

-- The leaf that is there, or a new one.
abbrev pub or_new : Option Leaf → Leaf
or_new none = new_leaf
or_new (some l) = l

sprout-is_deep :
    (n : ℕ) (t : QTree)
    → is_deep n t ≡ true
    → (is_deep n (sprout (suc n) t) ≡ true) × (is_present (sprout (suc n) t) ≡ true)
unfolding sprout is_deep is_present
sprout-is_deep zero absent h = (refl, refl)
sprout-is_deep (suc n) absent h = (ground arith, ground arith)
sprout-is_deep n (leaf l) h = (h, refl)
sprout-is_deep n (inner a b c d) h = (h, refl)

-- What is read where a leaf of a coordinate is made.
abbrev pub made : Bool → Option Leaf → Option Leaf
made true o = some (or_new o)
made false o = o

made-sprout :
    (n x y u v : ℕ) (t : QTree)
    → made (same_leaf n x y u v) (get_leaf (sprout (suc n) t) u v)
      ≡ made (same_leaf n x y u v) (get_leaf t u v)
unfolding sprout get_leaf same_leaf
made-sprout zero x y u v absent = refl
made-sprout (suc n) x y u v absent = ground arith
made-sprout n x y u v (leaf l) = refl
made-sprout n x y u v (inner a b c d) = refl

pub get_leaf-create_leaf :
    (n x y u v : ℕ) (t : QTree)
    → is_deep n t ≡ true
    → is_present t ≡ true
    → get_leaf (create_leaf n x y t) u v ≡ made (same_leaf n x y u v) (get_leaf t u v)
unfolding get_leaf create_leaf is_deep is_present same_leaf in_child same_bool
get_leaf-create_leaf zero x y u v absent h k = absurd (cc k)
get_leaf-create_leaf zero x y u v (leaf l) h k = refl
get_leaf-create_leaf zero x y u v (inner a b c d) h k = absurd (cc h)
get_leaf-create_leaf (suc n) x y u v absent h k = absurd (cc k)
get_leaf-create_leaf (suc n) x y u v (leaf l) h k = absurd (cc h)
get_leaf-create_leaf (suc n) x y u v (inner a b c d) h k =
    let below = λ (e : QTree) (w : is_deep n e ≡ true).
      let (deep, here) = sprout-is_deep n e w in
      get_leaf-create_leaf n (x * 2) (y * 2) (u * 2) (v * 2) (sprout (suc n) e) deep here
      ∙ made-sprout n (x * 2) (y * 2) (u * 2) (v * 2) e in
    ground (
      arith,
      h,
      below a (ground (arith, h)),
      below b (ground (arith, h)),
      below c (ground (arith, h)),
      below d (ground (arith, h)),
    )

pub is_deep-create_leaf :
    (n x y : ℕ) (t : QTree) → is_deep n t ≡ true → is_deep n (create_leaf n x y t) ≡ true
unfolding create_leaf is_deep in_child
is_deep-create_leaf zero x y t h = h
is_deep-create_leaf (suc n) x y absent h = refl
is_deep-create_leaf (suc n) x y (leaf l) h = h
is_deep-create_leaf (suc n) x y (inner a b c d) h =
    let below = λ (e : QTree) (w : is_deep n e ≡ true).
      is_deep-create_leaf n (x * 2) (y * 2) (sprout (suc n) e) ((sprout-is_deep n e w).0) in
    ground (
      arith,
      h,
      below a (ground (arith, h)),
      below b (ground (arith, h)),
      below c (ground (arith, h)),
      below d (ground (arith, h)),
    )
