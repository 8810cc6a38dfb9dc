-- ===== src/Party/Loops.antt =====
-- The loops of `Party::disband`: what they do to each player, and that they touch no party.
use otchronos.Prelude.{
  ℕ, ◌≡◌, refl, List, [], ◌∷◌, none, ◌==◌, if◌then◌else◌, arith, count, count-cons, count-nil,
  count-remove,
}
use otchronos.Party.State.{World, set_party}
use otchronos.Party.{remove_party_invitation, each_invitee, each_member}

pub each_member-players :
    (ps : List ℕ) (w : World) (q : ℕ)
    → (each_member ps w).players q
      ≡ (if count q ps == 0 then w.players q else record (w.players q) { party = none })
unfolding each_member set_party count
each_member-players [] w q = refl
each_member-players (p ∷ ps) w q = ground (arith, each_member-players ps (set_party p none w) q)

pub each_member-parties :
    (ps : List ℕ) (w : World) (i : ℕ) → (each_member ps w).parties i ≡ w.parties i
unfolding each_member set_party
each_member-parties [] w i = refl
each_member-parties (p ∷ ps) w i = each_member-parties ps (set_party p none w) i

pub each_member-next : (ps : List ℕ) (w : World) → (each_member ps w).next_party ≡ w.next_party
unfolding each_member set_party
each_member-next [] w = refl
each_member-next (p ∷ ps) w = each_member-next ps (set_party p none w)

pub each_invitee-party :
    (i : ℕ) (ps : List ℕ) (w : World) (q : ℕ)
    → ((each_invitee i ps w).players q).party ≡ (w.players q).party
unfolding each_invitee remove_party_invitation
each_invitee-party i [] w q = refl
each_invitee-party i (p ∷ ps) w q =
    ground (arith, each_invitee-party i ps (remove_party_invitation p i w) q)

pub each_invitee-list :
    (i j : ℕ) (ps : List ℕ) (w : World) (q : ℕ)
    → count j ((each_invitee i ps w).players q).invite_party_list ≡ (
        if count q ps == 0
        then count j (w.players q).invite_party_list
        else if i == j
        then 0
        else count j (w.players q).invite_party_list)
unfolding each_invitee remove_party_invitation
each_invitee-list i j [] w q = rw count-nil refl
each_invitee-list i j (p ∷ ps) w q = ground (
  arith,
  each_invitee-list i j ps (remove_party_invitation p i w) q,
  count-cons q p ps,
  count-remove j i (w.players p).invite_party_list,
)

pub each_invitee-parties :
    (i : ℕ) (ps : List ℕ) (w : World) (j : ℕ) → (each_invitee i ps w).parties j ≡ w.parties j
unfolding each_invitee remove_party_invitation
each_invitee-parties i [] w j = refl
each_invitee-parties i (p ∷ ps) w j = each_invitee-parties i ps (remove_party_invitation p i w) j

pub each_invitee-next :
    (i : ℕ) (ps : List ℕ) (w : World) → (each_invitee i ps w).next_party ≡ w.next_party
unfolding each_invitee remove_party_invitation
each_invitee-next i [] w = refl
each_invitee-next i (p ∷ ps) w = each_invitee-next i ps (remove_party_invitation p i w)
