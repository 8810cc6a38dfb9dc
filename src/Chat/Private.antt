-- ===== src/Chat/Private.antt =====
-- That only the owner and invited players are among the users of a private channel.
use otchronos.Prelude.{
  ℕ, zero, suc, ◌+◌, ◌≡◌, refl, sym, subst, none, some, Bool, true, false, ◌==◌, ◌||◌, ◌&&◌, not,
  if◌then◌else◌, List, [], ◌∷◌, ◌++◌, elem, remove, arith, Bool-cases, Option-cases, inl, inr,
}
use otchronos.Chat.{
  PrivateChannel, Chat, private, find_private, change_private, erase_private, has_id, is_invited,
  add_invited, exclude_player, set_users,
}
use otchronos.Chat.Calls.{free_id, leave_private, meets_own}

pub elem-remove :
    (a b : ℕ) (xs : List ℕ) → elem a (remove b xs) ≡ (if b == a then false else elem a xs)
unfolding elem remove
elem-remove a b [] = ground arith
elem-remove a b (x ∷ xs) = ground (arith, elem-remove a b xs)

-- A user who is neither the owner nor invited.
unfoldable pub intruder : ℕ → PrivateChannel → Bool
unfolding is_invited
intruder u c = elem u c.users && not (is_invited u c)

unfoldable pub intrudes : ℕ → List PrivateChannel → Bool
unfolding intruder
intrudes u [] = false
intrudes u (c ∷ cs) = intruder u c || intrudes u cs

-- No private channel has an intruder.
abbrev pub IsPrivate : Chat → Type 0
IsPrivate c = (u : ℕ) → intrudes u c.private_channels ≡ false

pub intrudes-change_private :
    (u : ℕ) (f : PrivateChannel → Bool) (g : PrivateChannel → PrivateChannel)
    (cs : List PrivateChannel)
    → ((c : PrivateChannel) → intruder u c ≡ false → intruder u (g c) ≡ false)
    → intrudes u cs ≡ false
    → intrudes u (change_private f g cs) ≡ false
unfolding intrudes change_private
intrudes-change_private u f g [] k h = refl
intrudes-change_private u f g (c ∷ cs) k h =
    ground (arith, h, k c, intrudes-change_private u f g cs k)

-- A change of the channel that is found first.
intrudes-change_found :
    (u : ℕ) (f : PrivateChannel → Bool) (g : PrivateChannel → PrivateChannel)
    (cs : List PrivateChannel) (p : PrivateChannel)
    → find_private f cs ≡ some p
    → (intruder u p ≡ false → intruder u (g p) ≡ false)
    → intrudes u cs ≡ false
    → intrudes u (change_private f g cs) ≡ false
unfolding intrudes change_private find_private
intrudes-change_found u f g [] p e k h = refl
intrudes-change_found u f g (c ∷ cs) p e k h = elim (Bool-cases (f c)) [
  | inl y ↦
      let same : c ≡ p = ground (arith, e, y) in
      let kept : intruder u c ≡ false → intruder u (g c) ≡ false =
        subst (λ x. intruder u x ≡ false → intruder u (g x) ≡ false) (sym same) k in
      ground (arith, h, y, kept)
  | inr n ↦ ground (arith, h, n, intrudes-change_found u f g cs p (ground (arith, e, n)) k)
]

pub intrudes-erase_private :
    (u id : ℕ) (cs : List PrivateChannel)
    → intrudes u cs ≡ false
    → intrudes u (erase_private id cs) ≡ false
unfolding intrudes erase_private
intrudes-erase_private u id [] h = refl
intrudes-erase_private u id (c ∷ cs) h = ground (arith, h, intrudes-erase_private u id cs)

pub intrudes-leave_private :
    (u player : ℕ) (cs : List PrivateChannel)
    → meets_own player cs ≡ false
    → intrudes u cs ≡ false
    → intrudes u (leave_private player cs) ≡ false
unfolding intrudes leave_private intruder is_invited meets_own
intrudes-leave_private u player [] n h = refl
intrudes-leave_private u player (c ∷ cs) n h = ground (
  arith,
  n,
  h,
  intrudes-leave_private u player cs,
  elem-remove u player c.users,
  elem-remove u player c.invites,
)

pub intrudes-append :
    (u : ℕ) (cs : List PrivateChannel) (p : PrivateChannel)
    → intrudes u (cs ++ p ∷ []) ≡ (intrudes u cs || intruder u p)
unfolding intrudes
intrudes-append u [] p = ground arith
intrudes-append u (c ∷ cs) p = ground (arith, intrudes-append u cs p)

pub find_private-append :
    (f : PrivateChannel → Bool) (cs : List PrivateChannel) (p : PrivateChannel)
    → find_private f cs ≡ none
    → f p ≡ true
    → find_private f (cs ++ p ∷ []) ≡ some p
unfolding find_private
find_private-append f [] p h k = ground (arith, k)
find_private-append f (c ∷ cs) p h k = ground (arith, h, k, find_private-append f cs p)

pub free_id-find_private :
    (left i j : ℕ) (cs : List PrivateChannel)
    → free_id left i cs ≡ some j
    → find_private (has_id j) cs ≡ none
unfolding free_id
free_id-find_private zero i j cs h = absurd (cc h)
free_id-find_private (suc left) i j cs h = elim (Option-cases (find_private (has_id i) cs)) [
  | inl e ↦
      let same : i ≡ j = ground (arith, h, e) in
      subst (λ x. find_private (has_id x) cs ≡ none) same e
  | inr (p, e) ↦ free_id-find_private left (i + 1) j cs (ground (arith, h, e))
]

-- The private channels after a change of the users of one that is found.
pub intrudes-set_users :
    (u id : ℕ) (us : List ℕ) (c : Chat) (p : PrivateChannel)
    → find_private (has_id id) c.private_channels ≡ some p
    → (intruder u p ≡ false → intruder u (record p { users = us }) ≡ false)
    → intrudes u c.private_channels ≡ false
    → intrudes u (set_users (private id) us c).private_channels ≡ false
unfolding set_users
intrudes-set_users u id us c p e k h =
    intrudes-change_found u (has_id id) (λ q. record q { users = us }) c.private_channels p e k h

pub intruder-remove :
    (u player : ℕ) (p : PrivateChannel)
    → intruder u p ≡ false
    → intruder u (record p { users = remove player p.users }) ≡ false
unfolding intruder is_invited
intruder-remove u player p k = ground (arith, k, elem-remove u player p.users)

pub intruder-add :
    (u player : ℕ) (p : PrivateChannel)
    → is_invited player p ≡ true
    → intruder u p ≡ false
    → intruder u (record p { users = player ∷ p.users }) ≡ false
unfolding intruder is_invited elem
intruder-add u player p j k = ground (arith, j, k)

pub intruder-add_invited :
    (u other : ℕ) (p : PrivateChannel)
    → intruder u p ≡ false
    → intruder u (add_invited other p) ≡ false
unfolding intruder is_invited add_invited elem
intruder-add_invited u other p k = ground (arith, k)

pub intruder-exclude_player :
    (u other : ℕ) (p : PrivateChannel)
    → intruder u p ≡ false
    → intruder u (exclude_player other p) ≡ false
unfolding intruder is_invited exclude_player
intruder-exclude_player u other p k =
    ground (arith, k, elem-remove u other p.users, elem-remove u other p.invites)
