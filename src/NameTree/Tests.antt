-- ===== src/NameTree/Tests.antt =====
-- Small trees of names.
use otchronos.Prelude.{ℕ, ◌≡◌, ◌⊎◌, refl, some, true, false, List, [], ◌∷◌, ◌++◌}
use otchronos.NameTree.{
  Node, empty_tree, insert, find_one, noerror, name_is_too_ambigious,
  player_with_this_name_is_not_online, is_needed,
}
use otchronos.NameTree.Shape.{member, same_name, in_shape, has_key}
use otchronos.NameTree.Members.{Call, online, offline, play, names, legal, play-names}
use otchronos.NameTree.Find.{find_one_lem}

abbrev ann : List ℕ
ann = 97 ∷ 110 ∷ 110 ∷ []

abbrev anna : List ℕ
anna = 97 ∷ 110 ∷ 110 ∷ 97 ∷ []

abbrev bob : List ℕ
bob = 98 ∷ 111 ∷ 98 ∷ []

abbrev calls : List Call
calls = online ann ∷ online bob ∷ online anna ∷ offline ann ∷ []

play-names_example :
    (t' : Node) × (play calls (empty_tree false) ≡ some t')
    × (in_shape t' ≡ true)
    × ((q : List ℕ) → member q t' ≡ names calls (λ s. member s (empty_tree false)) q)
unfolding in_shape legal same_name member
play-names_example = play-names calls (empty_tree false) refl refl

abbrev both : Node
both = insert anna (insert bob (empty_tree false))

find_one_test : find_one (97 ∷ []) both ≡ (noerror, anna)
unfolding find_one insert
find_one_test = refl

-- Both names are known, and `ann` begins the other.
find_ann_test : find_one ann (insert ann both) ≡ (name_is_too_ambigious, ann)
unfolding find_one insert
find_ann_test = refl

find_one_lem_example :
    ((find_one ann both ≡ (player_with_this_name_is_not_online, []))
      × ((s : List ℕ) → member (ann ++ s) both ≡ false))
    ⊎ ((r : List ℕ) × (find_one ann both ≡ (noerror, ann ++ r))
        × ((s : List ℕ) → member (ann ++ s) both ≡ same_name s r))
    ⊎ ((r : List ℕ) × (s : List ℕ) × (s' : List ℕ) × (find_one ann both
          ≡ (name_is_too_ambigious, ann ++ r))
        × (member (ann ++ s) both ≡ true)
        × (member (ann ++ s') both ≡ true)
        × (same_name s s' ≡ false))
unfolding same_name in_shape insert has_key is_needed
find_one_lem_example = find_one_lem ann both refl refl
