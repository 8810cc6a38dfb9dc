-- ===== src/NameTree/Shape.antt =====
-- The names of a tree, and what keeps a tree in shape.
use otchronos.Prelude.{
  ℕ, ◌≡◌, refl, none, some, Bool, true, false, ◌==◌, ◌||◌, ◌&&◌, not, if◌then◌else◌, List, [], ◌∷◌,
  arith, Bool-cases, inl, inr,
}
use otchronos.NameTree.{
  Node, Children, node, nil, cons, breakpoint, children, get_child, mark, add_child, is_needed,
  put_child,
}

-- The set of names that a tree stands for.
unfoldable pub member : List ℕ → Node → Bool
member [] t = breakpoint t
member (c ∷ s) t = elim (get_child c (children t)) [ none ↦ false | some n ↦ member s n ]

-- Equality of names.
unfoldable pub same_name : List ℕ → List ℕ → Bool
same_name [] [] = true
same_name [] (d ∷ t) = false
same_name (c ∷ s) [] = false
same_name (c ∷ s) (d ∷ t) = c == d && same_name s t

pub same_name_refl : (s : List ℕ) → same_name s s ≡ true
unfolding same_name
same_name_refl [] = refl
same_name_refl (c ∷ s) = ground (arith, same_name_refl s)

unfoldable pub has_key : ℕ → Children → Bool
has_key ch nil = false
has_key ch (cons c n cs) = c == ch || has_key ch cs

-- Below the root every node is needed, and no two children have one character.
unfoldable mutual
  pub in_shape : Node → Bool
  in_shape (node b cs) = children_in_shape cs

  pub children_in_shape : Children → Bool
  children_in_shape nil = true
  children_in_shape (cons c n cs) =
      not (has_key c cs) && (is_needed n && (in_shape n && children_in_shape cs))

pub get_child-has_key : (a : ℕ) (cs : Children) → has_key a cs ≡ false → get_child a cs ≡ none
unfolding get_child has_key
get_child-has_key a nil h = refl
get_child-has_key a (cons c n cs) h = ground (arith, h, get_child-has_key a cs)

pub has_key-get_child :
    (a : ℕ) (n : Node) (cs : Children) → get_child a cs ≡ some n → has_key a cs ≡ true
unfolding get_child has_key
has_key-get_child a n nil h = ground (arith, h)
has_key-get_child a n (cons c m cs) h = ground (arith, h, has_key-get_child a n cs)

-- A child of a tree in shape is needed and in shape.
pub get_child-in_shape :
    (a : ℕ) (n : Node) (cs : Children)
    → children_in_shape cs ≡ true
    → get_child a cs ≡ some n
    → (is_needed n ≡ true) × (in_shape n ≡ true)
unfolding get_child in_shape
get_child-in_shape a n nil h k = ground (arith, k)
get_child-in_shape a n (cons c m cs) h k = elim (Bool-cases (c == a)) [
  | inl y ↦ (ground (arith, h, k, y), ground (arith, h, k, y))
  | inr other ↦ get_child-in_shape a n cs (ground (arith, h)) (ground (arith, k, other))
]

pub get_child-add_child :
    (a ch : ℕ) (flag : Bool) (f : Node → Node) (cs : Children)
    → get_child a (add_child ch flag f cs) ≡ (
        if a == ch
        then some (f (elim (get_child ch cs) [ none ↦ node flag nil | some n ↦ mark flag n ]))
        else get_child a cs)
unfolding get_child add_child
get_child-add_child a ch flag f nil = ground arith
get_child-add_child a ch flag f (cons c n cs) = ground (arith, get_child-add_child a ch flag f cs)

-- Erasing or replacing a child leaves the other ones.
pub get_child-put_child :
    (a ch : ℕ) (m : Node) (cs : Children)
    → children_in_shape cs ≡ true
    → has_key ch cs ≡ true
    → get_child a (put_child ch m cs)
      ≡ (if a == ch then (if is_needed m then some m else none) else get_child a cs)
unfolding get_child put_child has_key in_shape
get_child-put_child a ch m nil h k = ground (arith, k)
get_child-put_child a ch m (cons c n cs) h k =
    ground (arith, h, k, get_child-put_child a ch m cs, get_child-has_key a cs)
