-- ===== src/NameTree.antt =====
-- The tree of the names of the players online, wildcardtree.cpp and wildcardtree.h. A name is the
-- list of its characters. The order in which the children of a node stand is never used: only an
-- only child is reached without its character.
mod Shape
mod Members
mod Find
mod Tests
use otchronos.Prelude.{
  ℕ, Option, none, some, Bool, true, false, ◌==◌, ◌||◌, ◌&&◌, not, if◌then◌else◌, List, [], ◌∷◌,
  ◌++◌,
}

-- `WildcardTreeNode`: its `breakpoint`, where a name ends, and its map of `children`.
mutual
  pub data Node : Type 0 where
    node : Bool → Children → Node

  pub data Children : Type 0 where
    nil : Children
    cons : ℕ → Node → Children → Children

-- A node without children, as its constructor makes it; the root of the game's tree has no breakpoint.
abbrev pub empty_tree : Bool → Node
empty_tree b = node b nil

abbrev pub breakpoint : Node → Bool
breakpoint (node b cs) = b

abbrev pub children : Node → Children
children (node b cs) = cs

-- `children.empty()`.
abbrev pub is_childless : Children → Bool
is_childless nil = true
is_childless (cons c n cs) = false

-- `WildcardTreeNode::getChild`, in the map of children.
unfoldable pub get_child : ℕ → Children → Option Node
get_child ch nil = none
get_child ch (cons c n cs) = if c == ch then some n else get_child ch cs

-- `child->breakpoint = true` where the flag says so.
unfoldable pub mark : Bool → Node → Node
mark flag (node b cs) = node (b || flag) cs

-- `WildcardTreeNode::addChild`, and what the caller then does with the child, `f`.
unfoldable pub add_child : ℕ → Bool → (Node → Node) → Children → Children
unfolding mark
add_child ch flag f nil = cons ch (f (node flag nil)) nil
add_child ch flag f (cons c n cs) =
    if c == ch then cons c (f (mark flag n)) cs else cons c n (add_child ch flag f cs)

-- `WildcardTreeNode::insert`. The empty name, for which the source runs past the end of the text,
-- is not inserted.
unfoldable pub insert : List ℕ → Node → Node
unfolding add_child
insert [] t = t
insert (c ∷ []) t = node (breakpoint t) (add_child c true (λ n. n) (children t))
insert (c ∷ d ∷ s) t = node (breakpoint t) (add_child c false (insert (d ∷ s)) (children t))

-- Whether `remove` leaves the node in place: it has children, or a name ends there.
unfoldable pub is_needed : Node → Bool
is_needed (node b cs) = not (is_childless cs) || b

-- The map of children once its child `ch` has become `n`: the child is erased unless needed.
unfoldable pub put_child : ℕ → Node → Children → Children
unfolding is_needed
put_child ch n nil = nil
put_child ch n (cons c m cs) =
    if c == ch then if is_needed n then cons c n cs else cs else cons c m (put_child ch n cs)

-- `WildcardTreeNode::remove`: down the path, and back up it from the stack. `none` is the use of
-- the null pointer that `getChild` gives where the name is not in the tree.
unfoldable pub remove : List ℕ → Node → Option Node
unfolding get_child put_child
remove [] t = some (node false (children t))
remove (c ∷ s) t = elim (get_child c (children t)) [
  | none ↦ none
  | some n ↦ elim (remove s n) [
    | none ↦ none
    | some n' ↦ some (node (breakpoint t) (put_child c n' (children t)))
  ]
]

-- The results of `findOne`.
pub data ReturnValue : Type 0 where
  noerror name_is_too_ambigious player_with_this_name_is_not_online : ReturnValue

-- The second loop of `findOne`, with the text found so far.
unfoldable pub complete : List ℕ → Node → ReturnValue × List ℕ
complete result (node b nil) = (noerror, result)
complete result (node b (cons c n nil)) =
    let rest = complete (result ++ c ∷ []) n in if b then (name_is_too_ambigious, result) else rest
complete result (node b (cons c n (cons d m cs))) = (name_is_too_ambigious, result)

-- The first loop of `findOne`.
unfoldable pub walk : List ℕ → Node → Option Node
unfolding get_child
walk [] t = some t
walk (c ∷ s) t = elim (get_child c (children t)) [ none ↦ none | some n ↦ walk s n ]

-- `WildcardTreeNode::findOne`. The caller's text stays empty where the first loop fails.
unfoldable pub find_one : List ℕ → Node → ReturnValue × List ℕ
unfolding walk complete
find_one query t = elim (walk query t) [
  | none ↦ (player_with_this_name_is_not_online, [])
  | some n ↦ complete query n
]
