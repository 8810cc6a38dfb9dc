-- ===== src/NameTree/Members.antt =====
-- What `insert` and `remove` do to the set of names, and that both keep the tree in shape.
use otchronos.Prelude.{
  ℕ, ◌≡◌, refl, ap, ◌∙◌, fun_ext, Option, none, some, Bool, true, false, ◌==◌, ◌||◌, ◌&&◌, not,
  List, [], ◌∷◌, arith, Option-cases, inl, inr,
}
use otchronos.NameTree.{
  Node, Children, node, nil, cons, get_child, mark, add_child, insert, is_needed, put_child, remove,
}
use otchronos.NameTree.Shape.{
  member, same_name, has_key, in_shape, children_in_shape, get_child-add_child, get_child-put_child,
  get_child-in_shape, has_key-get_child,
}

member-mark :
    (q : List ℕ) (flag : Bool) (n : Node)
    → member q (mark flag n) ≡ (same_name q [] && flag || member q n)
unfolding member mark same_name
member-mark [] flag (node b cs) = ground arith
member-mark (c ∷ q) flag (node b cs) = refl

member-fresh : (q : List ℕ) (flag : Bool) → member q (node flag nil) ≡ (same_name q [] && flag)
unfolding member same_name get_child
member-fresh [] flag = ground arith
member-fresh (c ∷ q) flag = refl

-- The child through which `insert` goes on.
abbrev below : ℕ → Bool → Children → Node
below ch flag cs = elim (get_child ch cs) [ none ↦ node flag nil | some n ↦ mark flag n ]

member-below :
    (q : List ℕ) (ch : ℕ) (flag : Bool) (cs : Children)
    → member q (below ch flag cs)
      ≡ (same_name q [] && flag || (elim (get_child ch cs) [ none ↦ false | some n ↦ member q n ]))
member-below q ch flag cs = elim (Option-cases (get_child ch cs)) [
  | inl e ↦ rw e (ground (arith, member-fresh q flag))
  | inr (n, e) ↦ rw e (ground (arith, member-mark q flag n))
]

-- `insert` adds the one name.
pub member-insert :
    (q s : List ℕ) (t : Node)
    → same_name s [] ≡ false
    → member q (insert s t) ≡ (same_name q s || member q t)
unfolding member insert same_name
member-insert q [] t h = ground (arith, h)
member-insert [] (c ∷ []) (node b cs) h = refl
member-insert [] (c ∷ d ∷ s) (node b cs) h = refl
member-insert (a ∷ q) (c ∷ []) (node b cs) h =
    ground (arith, get_child-add_child a c true (λ (n : Node). n) cs, member-below q c true cs)
member-insert (a ∷ q) (c ∷ d ∷ s) (node b cs) h = ground (
  arith,
  get_child-add_child a c false (insert (d ∷ s)) cs,
  member-insert q (d ∷ s) (below c false cs) refl,
  member-below q c false cs,
)

-- The shape is kept below a child that is added.
has_key-add_child :
    (a ch : ℕ) (flag : Bool) (f : Node → Node) (cs : Children)
    → has_key a (add_child ch flag f cs) ≡ (a == ch || has_key a cs)
unfolding has_key add_child
has_key-add_child a ch flag f nil = ground arith
has_key-add_child a ch flag f (cons c n cs) = ground (arith, has_key-add_child a ch flag f cs)

add_child-in_shape :
    (ch : ℕ) (flag : Bool) (f : Node → Node) (cs : Children)
    → children_in_shape cs ≡ true
    → is_needed (f (below ch flag cs)) ≡ true
    → in_shape (f (below ch flag cs)) ≡ true
    → children_in_shape (add_child ch flag f cs) ≡ true
unfolding in_shape add_child has_key get_child
add_child-in_shape ch flag f nil h k l = ground (arith, h, k, l)
add_child-in_shape ch flag f (cons c n cs) h k l =
    ground (arith, h, k, l, add_child-in_shape ch flag f cs, has_key-add_child c ch flag f cs)

below-in_shape :
    (ch : ℕ) (flag : Bool) (cs : Children)
    → children_in_shape cs ≡ true
    → in_shape (below ch flag cs) ≡ true
unfolding in_shape mark get_child
below-in_shape ch flag nil h = refl
below-in_shape ch flag (cons c (node b ds) cs) h = ground (arith, h, below-in_shape ch flag cs)

below-is_needed : (ch : ℕ) (cs : Children) → is_needed (below ch true cs) ≡ true
unfolding is_needed mark get_child
below-is_needed ch nil = refl
below-is_needed ch (cons c (node b ds) cs) = ground (arith, below-is_needed ch cs)

insert-is_needed : (c : ℕ) (s : List ℕ) (t : Node) → is_needed (insert (c ∷ s) t) ≡ true
unfolding is_needed insert
insert-is_needed c [] (node b nil) = refl
insert-is_needed c [] (node b (cons d n cs)) = ground arith
insert-is_needed c (d ∷ s) (node b nil) = refl
insert-is_needed c (d ∷ s) (node b (cons e n cs)) = ground arith

pub insert-in_shape : (s : List ℕ) (t : Node) → in_shape t ≡ true → in_shape (insert s t) ≡ true
unfolding insert in_shape
insert-in_shape [] t h = h
insert-in_shape (c ∷ []) (node b cs) h =
    add_child-in_shape c true (λ n. n) cs h (below-is_needed c cs) (below-in_shape c true cs h)
insert-in_shape (c ∷ d ∷ s) (node b cs) h =
    add_child-in_shape c false (insert (d ∷ s)) cs h (insert-is_needed d s (below c false cs))
      (insert-in_shape (d ∷ s) (below c false cs) (below-in_shape c false cs h))

has_key-put_child :
    (a ch : ℕ) (m : Node) (cs : Children)
    → has_key a cs ≡ false
    → has_key a (put_child ch m cs) ≡ false
unfolding has_key put_child
has_key-put_child a ch m nil h = refl
has_key-put_child a ch m (cons c n cs) h = ground (arith, h, has_key-put_child a ch m cs)

put_child-in_shape :
    (ch : ℕ) (m : Node) (cs : Children)
    → children_in_shape cs ≡ true
    → in_shape m ≡ true
    → children_in_shape (put_child ch m cs) ≡ true
unfolding in_shape put_child
put_child-in_shape ch m nil h k = refl
put_child-in_shape ch m (cons c n cs) h k =
    ground (arith, h, k, put_child-in_shape ch m cs, has_key-put_child c ch m cs)

member_unneeded : (q : List ℕ) (n : Node) → is_needed n ≡ false → member q n ≡ false
unfolding is_needed member get_child
member_unneeded [] (node b nil) h = ground (arith, h)
member_unneeded [] (node b (cons c n cs)) h = ground (arith, h)
member_unneeded (a ∷ q) (node b nil) h = refl
member_unneeded (a ∷ q) (node b (cons c n cs)) h = ground (arith, h)

-- What `remove` leaves of a tree.
pub record Removed (s : List ℕ) (t t' : Node) : Type 0 where
  pub shape : in_shape t' ≡ true
  pub names : (q : List ℕ) → member q t' ≡ (member q t && not (same_name q s))

member_unmarked :
    (q : List ℕ) (b : Bool) (cs : Children)
    → member q (node false cs) ≡ (member q (node b cs) && not (same_name q []))
unfolding member same_name
member_unmarked [] b cs = ground arith
member_unmarked (c ∷ q) b cs = ground arith

member-put_child :
    (q s : List ℕ) (c : ℕ) (b : Bool) (n n' : Node) (cs : Children)
    → children_in_shape cs ≡ true
    → get_child c cs ≡ some n
    → Removed s n n'
    → member q (node b (put_child c n' cs)) ≡ (member q (node b cs) && not (same_name q (c ∷ s)))
unfolding member same_name
member-put_child [] s c b n n' cs h e r = ground arith
member-put_child (a ∷ q) s c b n n' cs h e r = ground (
  arith,
  e,
  get_child-put_child a c n' cs h (has_key-get_child c n cs e),
  member_unneeded q n',
  r.names q,
)

-- `remove` of a name that is in a tree in shape.
pub remove-Removed :
    (s : List ℕ) (t : Node)
    → in_shape t ≡ true
    → member s t ≡ true
    → (t' : Node) × (remove s t ≡ some t') × Removed s t t'
unfolding remove member in_shape
remove-Removed [] (node b cs) h k =
    (node false cs, refl, record { shape = h; names = λ q. member_unmarked q b cs })
remove-Removed (c ∷ s) (node b cs) h k = elim (Option-cases (get_child c cs)) [
  | inl e ↦ absurd (ground (arith, e, k))
  | inr (n, e) ↦
      let (t', e', r) =
        remove-Removed s n (get_child-in_shape c n cs h e).1 (ground (arith, k, e)) in
      (
        node b (put_child c t' cs),
        ground (arith, e, e'),
        record {
          shape = put_child-in_shape c t' cs h r.shape;
          names = λ q. member-put_child q s c b n t' cs h e r;
        },
      )
]

-- What a server does with the tree: a player comes online, or leaves.
pub data Call : Type 0 where
  online : List ℕ → Call
  offline : List ℕ → Call

unfoldable pub play : List Call → Node → Option Node
play [] t = some t
play (online s ∷ cs) t = play cs (insert s t)
play (offline s ∷ cs) t = elim (remove s t) [ none ↦ none | some t' ↦ play cs t' ]

-- The same on sets of names.
unfoldable pub names : List Call → (List ℕ → Bool) → List ℕ → Bool
names [] m = m
names (online s ∷ cs) m = names cs (λ q. same_name q s || m q)
names (offline s ∷ cs) m = names cs (λ q. m q && not (same_name q s))

-- Names come online that are not empty, and leave that are online.
unfoldable pub legal : List Call → (List ℕ → Bool) → Bool
legal [] m = true
legal (online s ∷ cs) m = not (same_name s []) && legal cs (λ q. same_name q s || m q)
legal (offline s ∷ cs) m = m s && legal cs (λ q. m q && not (same_name q s))

abbrev member' : Node → List ℕ → Bool
member' t q = member q t

play-names_of :
    (cs : List Call) (t : Node) (m : List ℕ → Bool)
    → in_shape t ≡ true
    → member' t ≡ m
    → legal cs m ≡ true
    → (t' : Node) × (play cs t ≡ some t') × (in_shape t' ≡ true) × (member' t' ≡ names cs m)
unfolding play names legal
play-names_of [] t m h e l = (t, refl, h, e)
play-names_of (online s ∷ cs) t m h e l =
    let step = fun_ext (λ q.
      member-insert q s t (ground (arith, l))
      ∙ ap (λ (b : Bool). same_name q s || b) (ap (λ (f : List ℕ → Bool). f q) e)) in
    play-names_of cs (insert s t) (λ q. same_name q s || m q) (insert-in_shape s t h) step
      (ground (arith, l))
play-names_of (offline s ∷ cs) t m h e l =
    let here : member s t ≡ true = ap (λ (f : List ℕ → Bool). f s) e ∙ ground (arith, l) in
    let (t', e', r) = remove-Removed s t h here in
    let step = fun_ext (λ q.
      r.names q
      ∙ ap (λ (b : Bool). b && not (same_name q s)) (ap (λ (f : List ℕ → Bool). f q) e)) in
    let (u, p, h', n) =
      play-names_of cs t' (λ q. m q && not (same_name q s)) r.shape step (ground (arith, l)) in
    (u, rw (play, e') p, h', n)

-- A tree in shape stands for the set of its names: after any calls that are legal for the set, in
-- which no empty name comes online and only names leave that are online, it is in shape again, and
-- stands for the set after the calls; the null pointer of `remove` is never used.
pub play-names :
    (cs : List Call) (t : Node)
    → in_shape t ≡ true
    → legal cs (λ q. member q t) ≡ true
    → (t' : Node) × (play cs t ≡ some t')
      × (in_shape t' ≡ true)
      × ((q : List ℕ) → member q t' ≡ names cs (λ s. member s t) q)
play-names cs t h l =
    let (t', e, h', n) = play-names_of cs t (λ q. member q t) h refl l in
    (t', e, h', λ q. ap (λ (f : List ℕ → Bool). f q) n)
