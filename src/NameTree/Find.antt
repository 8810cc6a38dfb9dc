-- ===== src/NameTree/Find.antt =====
-- What `findOne` answers, by the set of names.
use otchronos.Prelude.{
  ℕ, ◌≡◌, ◌⊎◌, refl, sym, ap, ◌∙◌, none, some, Bool, true, false, ◌==◌, if◌then◌else◌, List, [],
  ◌∷◌, ◌++◌, arith, Option-cases, inl, inr,
}
use mathlib.Core.List.{append_assoc, append-nil}
use otchronos.NameTree.{
  Node, Children, node, nil, cons, children, get_child, is_needed, noerror, name_is_too_ambigious,
  player_with_this_name_is_not_online, ReturnValue, complete, walk, find_one,
}
use otchronos.NameTree.Shape.{
  member, same_name, same_name_refl, has_key, in_shape, get_child-in_shape,
}

-- A name of a needed node: straight down until a name ends.
some_name : Node → List ℕ
some_name (node b nil) = []
some_name (node b (cons c n cs)) = let rest = some_name n in if b then [] else c ∷ rest

member-some_name :
    (n : Node) → is_needed n ≡ true → in_shape n ≡ true → member (some_name n) n ≡ true
unfolding member some_name is_needed in_shape get_child
member-some_name (node b nil) h k = ground (arith, h)
member-some_name (node b (cons c n cs)) h k = ground (arith, h, k, member-some_name n)

-- The answer below the node that the query leads to, with what it adds to the query: the only
-- name, or a text and two names.
abbrev pub TheOnly : Node → List ℕ → ReturnValue × List ℕ → Type 0
TheOnly n query a =
    (r : List ℕ) × (a ≡ (noerror, query ++ r)) × ((s : List ℕ) → member s n ≡ same_name s r)

abbrev pub OneOfTwo : Node → List ℕ → ReturnValue × List ℕ → Type 0
OneOfTwo n query a =
    (r : List ℕ) × (s : List ℕ) × (s' : List ℕ) × (a ≡ (name_is_too_ambigious, query ++ r))
    × (member s n ≡ true)
    × (member s' n ≡ true)
    × (same_name s s' ≡ false)

only_end : (s : List ℕ) → member s (node true nil) ≡ same_name s []
unfolding member same_name get_child
only_end [] = refl
only_end (a ∷ s) = refl

only_below :
    (c : ℕ) (r : List ℕ) (n : Node)
    → ((s : List ℕ) → member s n ≡ same_name s r)
    → (s : List ℕ) → member s (node false (cons c n nil)) ≡ same_name s (c ∷ r)
unfolding member same_name get_child
only_below c r n h [] = refl
only_below c r n h (a ∷ s) = ground (arith, h s)

member_child :
    (c : ℕ) (s : List ℕ) (b : Bool) (n : Node) (cs : Children)
    → member (c ∷ s) (node b (cons c n cs)) ≡ member s n
unfolding member get_child
member_child c s b n cs = ground arith

member_second :
    (c d : ℕ) (s : List ℕ) (b : Bool) (n m : Node) (cs : Children)
    → (d == c) ≡ false
    → member (d ∷ s) (node b (cons c n (cons d m cs))) ≡ member s m
unfolding member get_child
member_second c d s b n m cs h = ground (arith, h)

complete_lem :
    (n : Node) (query : List ℕ)
    → is_needed n ≡ true
    → in_shape n ≡ true
    → TheOnly n query (complete query n) ⊎ OneOfTwo n query (complete query n)
unfolding complete is_needed in_shape has_key member same_name
complete_lem (node true nil) query h k =
    inl ([], ap (λ l. (noerror, l)) (sym (append-nil query)), only_end)
complete_lem (node false nil) query h k = absurd (cc h)
complete_lem (node true (cons c n nil)) query h k =
    let name = some_name n in
    inr (
      [],
      [],
      c ∷ name,
      ap (λ l. (name_is_too_ambigious, l)) (sym (append-nil query)),
      refl,
      member_child c name true n nil ∙ member-some_name n (ground (arith, k)) (ground (arith, k)),
      refl,
    )
complete_lem (node false (cons c n nil)) query h k =
    elim (complete_lem n (query ++ c ∷ []) (ground (arith, k)) (ground (arith, k))) [
      | inl (r, e, u) ↦
          inl
            (c ∷ r, e ∙ ap (λ l. (noerror, l)) (append_assoc query (c ∷ []) r), only_below c r n u)
      | inr (r, s, s', e, u, v, w) ↦ inr (
        c ∷ r,
        c ∷ s,
        c ∷ s',
        e ∙ ap (λ l. (name_is_too_ambigious, l)) (append_assoc query (c ∷ []) r),
        member_child c s false n nil ∙ u,
        member_child c s' false n nil ∙ v,
        ground (arith, w),
      )
    ]
complete_lem (node b (cons c n (cons d m cs))) query h k =
    let name = some_name n in
    let other = some_name m in
    let differ : (d == c) ≡ false = ground (arith, k) in
    inr (
      [],
      c ∷ name,
      d ∷ other,
      ap (λ l. (name_is_too_ambigious, l)) (sym (append-nil query)),
      member_child c name b n (cons d m cs)
          ∙ member-some_name n (ground (arith, k)) (ground (arith, k)),
      member_second c d other b n m cs differ
          ∙ member-some_name m (ground (arith, k)) (ground (arith, k)),
      ground (arith, differ),
    )

-- Below the node that `walk` finds stand the names that begin with the query.
walked :
    (query : List ℕ) (t n : Node) (s : List ℕ)
    → walk query t ≡ some n
    → member (query ++ s) t ≡ member s n
unfolding walk member
walked [] t n s e = ground (arith, e)
walked (c ∷ query) t n s e = elim (Option-cases (get_child c (children t))) [
  | inl z ↦ absurd (ground (arith, e, z))
  | inr (m, z) ↦ ground (arith, z, e, walked query m n s (ground (arith, e, z)))
]

lost :
    (query : List ℕ) (t : Node) (s : List ℕ) → walk query t ≡ none → member (query ++ s) t ≡ false
unfolding walk member
lost [] t s e = absurd (cc e)
lost (c ∷ query) t s e = elim (Option-cases (get_child c (children t))) [
  | inl z ↦ ground (arith, z)
  | inr (m, z) ↦ ground (arith, z, lost query m s (ground (arith, e, z)))
]

in_shape-child :
    (c : ℕ) (m : Node) (b : Bool) (cs : Children)
    → in_shape (node b cs) ≡ true
    → get_child c cs ≡ some m
    → (is_needed m ≡ true) × (in_shape m ≡ true)
unfolding in_shape
in_shape-child c m b cs h e = get_child-in_shape c m cs h e

walked-is_needed :
    (query : List ℕ) (t n : Node)
    → is_needed t ≡ true
    → in_shape t ≡ true
    → walk query t ≡ some n
    → (is_needed n ≡ true) × (in_shape n ≡ true)
unfolding walk
walked-is_needed [] t n h k e = ground (arith, h, k, e)
walked-is_needed (c ∷ query) (node b cs) n h k e = elim (Option-cases (get_child c cs)) [
  | inl z ↦ absurd (ground (arith, e, z))
  | inr (m, z) ↦
      let (h', k') = in_shape-child c m b cs k z in
      walked-is_needed query m n h' k' (ground (arith, e, z))
]

walked_below :
    (c : ℕ) (query : List ℕ) (b : Bool) (cs : Children) (n : Node)
    → in_shape (node b cs) ≡ true
    → walk (c ∷ query) (node b cs) ≡ some n
    → (is_needed n ≡ true) × (in_shape n ≡ true)
unfolding walk
walked_below c query b cs n k e = elim (Option-cases (get_child c cs)) [
  | inl z ↦ absurd (ground (arith, e, z))
  | inr (m, z) ↦
      let (h', k') = in_shape-child c m b cs k z in
      walked-is_needed query m n h' k' (ground (arith, e, z))
]

-- `findOne`, with a query that is not empty, in a tree in shape. Either no name begins with the
-- query, and the answer is that no such player is online; or exactly one does, and it is the
-- result; or two different names do, and the answer is that the query is ambiguous.
pub find_one_lem :
    (query : List ℕ) (t : Node)
    → same_name query [] ≡ false
    → in_shape t ≡ true
    → ((find_one query t ≡ (player_with_this_name_is_not_online, []))
        × ((s : List ℕ) → member (query ++ s) t ≡ false))
      ⊎ ((r : List ℕ) × (find_one query t ≡ (noerror, query ++ r))
          × ((s : List ℕ) → member (query ++ s) t ≡ same_name s r))
      ⊎ ((r : List ℕ) × (s : List ℕ) × (s' : List ℕ) × (find_one query t
            ≡ (name_is_too_ambigious, query ++ r))
          × (member (query ++ s) t ≡ true)
          × (member (query ++ s') t ≡ true)
          × (same_name s s' ≡ false))
unfolding find_one
find_one_lem [] t q h = absurd (ground (arith, q, same_name_refl []))
find_one_lem (c ∷ query) (node b cs) q h = elim (Option-cases (walk (c ∷ query) (node b cs))) [
  | inl z ↦ inl (rw (find_one, z) refl, λ s. lost (c ∷ query) (node b cs) s z)
  | inr (n, z) ↦
      let (h', k') = walked_below c query b cs n h z in
      let at = λ (s : List ℕ). walked (c ∷ query) (node b cs) n s z in
      elim (complete_lem n (c ∷ query) h' k') [
        | inl (r, e, u) ↦ inr (inl (r, rw (find_one, z) e, λ s. at s ∙ u s))
        | inr (r, s, s', e, u, v, w) ↦
            inr (inr (r, s, s', rw (find_one, z) e, at s ∙ u, at s' ∙ v, w))
      ]
]
