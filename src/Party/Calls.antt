-- ===== src/Party/Calls.antt =====
-- The party handlers of game.cpp (`Game::playerInviteToParty` and those after it), the tests of
-- player.cpp that they make, and the party part of a logout; `step` is one of these events.
pub mod History
use otchronos.Prelude.{
  ℕ, List, [], ◌∷◌, none, some, Bool, false, ◌&&◌, ◌||◌, not, ◌==◌, if◌then◌else◌, elem,
}
use otchronos.Party.State.{World, Env, in_party}
use otchronos.Party.{
  set_shared_experience, add_player_healed_member, add_player_damage_monster, pass_party_leadership,
  leave_party, join_party, revoke_invitation, invite_player, new_party, clear_party_invitations,
}

-- `party->getLeader() == player`, for a party that is there.
unfoldable pub leads : ℕ → ℕ → World → Bool
leads i p w = elim (w.parties i) [ none ↦ false | some c ↦ c.leader == p ]

-- `Party::isPlayerInvited`.
unfoldable pub is_player_invited : ℕ → ℕ → World → Bool
unfolding elem
is_player_invited i q w = elim (w.parties i) [ none ↦ false | some c ↦ elem q c.invite_list ]

-- `Player::isInviting`.
unfoldable pub is_inviting : ℕ → ℕ → World → Bool
unfolding leads is_player_invited
is_inviting p q w = elim (w.players p).party [
  | none ↦ false
  | some i ↦ leads i p w && is_player_invited i q w
]

-- `Player::isPartner`.
unfoldable pub is_partner : ℕ → ℕ → World → Bool
is_partner p q w = elim (w.players p).party [ none ↦ false | some i ↦ in_party i (w.players q) ]

pub player_invite_to_party : ℕ → ℕ → World → World
unfolding is_inviting leads invite_player new_party
player_invite_to_party p q w =
    if not (w.online p) || not (w.online q) || is_inviting q p w
    then w
    else elim (w.players q).party [
      | some _ ↦ w
      | none ↦ elim (w.players p).party [
        | none ↦ (invite_player w.next_party q (new_party p w)).0
        | some i ↦ if not (leads i p w) then w else (invite_player i q w).0
      ]
    ]

pub player_join_party : Env → ℕ → ℕ → World → World
unfolding is_inviting leads join_party
player_join_party env p l w =
    if not (w.online p) || not (w.online l) || not (is_inviting l p w)
    then w
    else elim (w.players l).party [
      | none ↦ w
      | some i ↦
          if not (leads i l w)
          then w
          else elim (w.players p).party [ some _ ↦ w | none ↦ (join_party env i p w).0 ]
    ]

pub player_revoke_party_invitation : Env → ℕ → ℕ → World → World
unfolding is_inviting leads revoke_invitation
player_revoke_party_invitation env p q w = elim (w.players p).party [
  | none ↦ w
  | some i ↦
      if not (w.online p) || not (leads i p w) || not (w.online q) || not (is_inviting p q w)
      then w
      else revoke_invitation env i q w
]

pub player_pass_party_leadership : Env → ℕ → ℕ → World → World
unfolding leads is_partner pass_party_leadership
player_pass_party_leadership env p q w = elim (w.players p).party [
  | none ↦ w
  | some i ↦
      if not (w.online p) || not (leads i p w) || not (w.online q) || not (is_partner p q w)
      then w
      else (pass_party_leadership env i q w).0
]

pub player_leave_party : Env → ℕ → World → World
unfolding leave_party
player_leave_party env p w = elim (w.players p).party [
  | none ↦ w
  | some i ↦ if not (w.online p) || (w.players p).in_fight then w else (leave_party env i p w).0
]

pub player_enable_shared_party_experience : Env → ℕ → Bool → World → World
unfolding set_shared_experience
player_enable_shared_party_experience env p active w = elim (w.players p).party [
  | none ↦ w
  | some i ↦
      if not (w.online p) || (w.players p).in_fight
      then w
      else (set_shared_experience env i p active w).0
]

-- `if (party) party->leaveParty(this);`
pub leave_own_party : Env → ℕ → World → World
unfolding leave_party
leave_own_party env p w = elim (w.players p).party [ none ↦ w | some i ↦ (leave_party env i p w).0 ]

-- The two steps of `Player::onCreatureDisappear` that touch parties.
pub log_out : Env → ℕ → World → World
unfolding clear_party_invitations leave_own_party
log_out env p w = leave_own_party env p (clear_party_invitations env p w)

-- What can happen to the parties. Healing and damage come with the party that they are told to.
pub data Event : Type 0 where
  invites joins revokes passes : ℕ → ℕ → Event
  leaves logs_out : ℕ → Event
  enables : ℕ → Bool → Event
  heals damages : ℕ → ℕ → ℕ → Event

unfoldable pub step : Env → World → Event → World
unfolding player_invite_to_party player_join_party player_revoke_party_invitation
    player_pass_party_leadership player_leave_party player_enable_shared_party_experience log_out
    add_player_healed_member add_player_damage_monster
step env w (invites p q) = player_invite_to_party p q w
step env w (joins p l) = player_join_party env p l w
step env w (revokes p q) = player_revoke_party_invitation env p q w
step env w (passes p q) = player_pass_party_leadership env p q w
step env w (leaves p) = player_leave_party env p w
step env w (logs_out p) = log_out env p w
step env w (enables p active) = player_enable_shared_party_experience env p active w
step env w (heals i p points) = add_player_healed_member env i p points w
step env w (damages i p points) = add_player_damage_monster env i p points w

unfoldable pub run : Env → World → List Event → World
unfolding step
run env w [] = w
run env w (e ∷ es) = run env (step env w e) es
