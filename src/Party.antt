-- ===== src/Party.antt =====
-- party.cpp: `class Party`, and the party methods of player.cpp. A method takes the number of the
-- party for `this`; it returns the new world, beside its result where it has one. What is only sent
-- to clients (texts, shields, skulls, icons) is left out.
pub mod State
pub mod Calls
pub mod Inv
pub mod Loops
pub mod Disband
pub mod Same
pub mod Keep
pub mod Leave
pub mod Invite
pub mod Logout
pub mod Shared
pub mod Effects
mod Tests
use State.{
  Position, are_in_range, Player, CountBlock, Party, World, Env, is_deserted, in_party, put_party,
  put_player, set_party,
}
use otchronos.Prelude.{
  ℕ, ◌+◌, ◌-◌, ◌*◌, ◌/◌, ◌^◌, ◌%◌, List, [], ◌∷◌, ◌++◌, Option, none, some, Bool, true, false, ◌&&◌,
  ◌||◌, not, ◌==◌, if◌then◌else◌, ltb, is_empty, length, elem, erase, remove,
}

-- `Player::addPartyInvitation`; `Party::invitePlayer` ignores the result.
pub add_party_invitation : ℕ → ℕ → World → World
unfolding put_player elem
add_party_invitation p i w =
    let pl = w.players p in
    if elem i pl.invite_party_list
    then w
    else put_player p (record pl { invite_party_list = i ∷ pl.invite_party_list }) w

-- `Player::removePartyInvitation`.
pub remove_party_invitation : ℕ → ℕ → World → World
unfolding put_player remove
remove_party_invitation p i w =
    put_player p
      (record (w.players p) { invite_party_list = remove i (w.players p).invite_party_list }) w

-- `pointMap.find`.
pub find_points : ℕ → List (ℕ × CountBlock) → Option CountBlock
find_points k [] = none
find_points k ((j, b) ∷ m) = if j == k then some b else find_points k m

-- `pointMap[k] = b`.
pub insert_points : ℕ → CountBlock → List (ℕ × CountBlock) → List (ℕ × CountBlock)
insert_points k b [] = (k, b) ∷ []
insert_points k b ((j, a) ∷ m) = if j == k then (k, b) ∷ m else (j, a) ∷ insert_points k b m

-- `pointMap.erase(it)`.
pub erase_points : ℕ → List (ℕ × CountBlock) → List (ℕ × CountBlock)
erase_points k [] = []
erase_points k ((j, a) ∷ m) = if j == k then m else (j, a) ∷ erase_points k m

-- The loop of `canUseSharedExperience` that finds the highest level.
pub highest_level : World → ℕ → List ℕ → ℕ
highest_level w h [] = h
highest_level w h (m ∷ ms) =
    let l = (w.players m).level in highest_level w (if ltb h l then l else h) ms

-- `std::ceil(((float)h * 2) / 3)`: exact below 2^22, as a float holds such a quotient to less than
-- a third.
pub min_level : ℕ → ℕ
min_level h = (h * 2 + 2) / 3

-- The last test: the player has healed or attacked lately.
pub was_active : Env → World → Party → ℕ → Bool
unfolding find_points
was_active env w c p = elim (find_points p c.point_map) [
  | none ↦ false
  | some b ↦ not (ltb env.pz_locked ((w.now + 2 ^ 64 - b.ticks) % 2 ^ 64))
]

pub can_use_shared_experience : Env → World → Party → ℕ → Bool
unfolding highest_level min_level are_in_range was_active
can_use_shared_experience env w c p =
    let pl = w.players p in
    let ld = w.players c.leader in
    if is_empty c.member_list
    then false
    else if ltb pl.level (min_level (highest_level w ld.level c.member_list))
    then false
    else if not (are_in_range 30 30 1 ld.position pl.position)
    then false
    else if not pl.not_gain_in_fight
    then was_active env w c p
    else true

pub all_can_use : Env → World → Party → List ℕ → Bool
unfolding can_use_shared_experience
all_can_use env w c [] = true
all_can_use env w c (m ∷ ms) =
    if not (can_use_shared_experience env w c m) then false else all_can_use env w c ms

pub can_enable_shared_experience : Env → World → Party → Bool
unfolding can_use_shared_experience all_can_use
can_enable_shared_experience env w c =
    if not (can_use_shared_experience env w c c.leader)
    then false
    else all_can_use env w c c.member_list

-- `shared_exp_enabled` is written only where it changes.
pub refresh : Env → World → Party → Party
unfolding can_enable_shared_experience
refresh env w c =
    if c.shared_exp_active
    then record c { shared_exp_enabled = can_enable_shared_experience env w c }
    else c

pub update_shared_experience : Env → ℕ → World → World
unfolding refresh put_party
update_shared_experience env i w = elim (w.parties i) [
  | none ↦ w
  | some c ↦ put_party i (some (refresh env w c)) w
]

-- The party once `sharedExpActive` has been switched.
pub switch_shared : Env → World → Bool → Party → Party
unfolding can_enable_shared_experience
switch_shared env w active c =
    let c' : Party = record c { shared_exp_active = active } in
    if active then record c' { shared_exp_enabled = can_enable_shared_experience env w c' } else c'

-- `a == b` on two truth values.
abbrev same_bool : Bool → Bool → Bool
same_bool a b = if a then b else not b

pub set_shared_experience : Env → ℕ → ℕ → Bool → World → World × Bool
unfolding switch_shared put_party
set_shared_experience env i p active w = elim (w.parties i) [
  | none ↦ (w, false)
  | some c ↦
      if not (c.leader == p)
      then (w, false)
      else if same_bool c.shared_exp_active active
      then (w, true)
      else (put_party i (some (switch_shared env w active c)) w, true)
]

-- The points of `addPlayerHealedMember` and `addPlayerDamageMonster`, for a first and for a later
-- contribution.
pub add_heal : ℕ → ℕ → Option CountBlock → CountBlock
add_heal now points none = record { total_heal = points; total_damage = 0; ticks = now }
add_heal now points (some b) = record b {
  total_heal = (b.total_heal + points) % 2 ^ 32;
  ticks = now;
}

pub add_damage : ℕ → ℕ → Option CountBlock → CountBlock
add_damage now points none = record { total_heal = 0; total_damage = points; ticks = now }
add_damage now points (some b) = record b {
  total_damage = (b.total_damage + points) % 2 ^ 32;
  ticks = now;
}

pub record_points : (ℕ → ℕ → Option CountBlock → CountBlock) → Env → ℕ → ℕ → ℕ → World → World
unfolding find_points insert_points update_shared_experience put_party
record_points add env i p points w =
    if (w.players p).not_gain_in_fight || points == 0 then w else elim (w.parties i) [
      | none ↦ w
      | some c ↦
          let b = add w.now points (find_points p c.point_map) in
          update_shared_experience env i
            (put_party i (some (record c { point_map = insert_points p b c.point_map })) w)
    ]

pub add_player_healed_member : Env → ℕ → ℕ → ℕ → World → World
unfolding record_points add_heal
add_player_healed_member env i p points w = record_points add_heal env i p points w

pub add_player_damage_monster : Env → ℕ → ℕ → ℕ → World → World
unfolding record_points add_damage
add_player_damage_monster env i p points w = record_points add_damage env i p points w

pub clear_player_points : Env → ℕ → ℕ → World → World
unfolding find_points erase_points update_shared_experience put_party
clear_player_points env i p w = elim (w.parties i) [
  | none ↦ w
  | some c ↦ elim (find_points p c.point_map) [
    | none ↦ w
    | some _ ↦
        update_shared_experience env i
          (put_party i (some (record c { point_map = erase_points p c.point_map })) w)
  ]
]

pub each_invitee : ℕ → List ℕ → World → World
unfolding remove_party_invitation
each_invitee i [] w = w
each_invitee i (p ∷ ps) w = each_invitee i ps (remove_party_invitation p i w)

pub each_member : List ℕ → World → World
unfolding set_party
each_member [] w = w
each_member (p ∷ ps) w = each_member ps (set_party p none w)

pub disband : Env → ℕ → World → World
unfolding put_party set_party each_invitee each_member
disband env i w = elim (w.parties i) [
  | none ↦ w
  | some c ↦
      if not (env.on_disband w i)
      then w
      else put_party i none
          (each_member c.member_list (each_invitee i c.invite_list (set_party c.leader none w)))
]

pub pass_party_leadership : Env → ℕ → ℕ → World → World × Bool
unfolding put_party update_shared_experience erase
pass_party_leadership env i p w = elim (w.parties i) [
  | none ↦ (w, false)
  | some c ↦
      if c.leader == p || not (in_party i (w.players p))
      then (w, false)
      else let c' : Party = record c {
        leader = p;
        member_list = c.leader ∷ erase p c.member_list;
      } in
        (update_shared_experience env i (put_party i (some c') w), true)
]

-- `memberList.front()`, where the list is not empty.
pub pass_to_front : Env → ℕ → List ℕ → World → World
unfolding pass_party_leadership
pass_to_front env i [] w = w
pass_to_front env i (m ∷ ms) w = (pass_party_leadership env i m w).0

pub erase_member : ℕ → ℕ → World → World
unfolding put_party erase
erase_member i p w = elim (w.parties i) [
  | none ↦ w
  | some c ↦ put_party i (some (record c { member_list = erase p c.member_list })) w
]

-- `if (missingLeader || empty()) disband();`
pub finish_leave : Env → ℕ → Bool → World → World
unfolding disband
finish_leave env i missing_leader w = elim (w.parties i) [
  | none ↦ w
  | some c ↦ if missing_leader || is_deserted c then disband env i w else w
]

-- A leader who leaves as the last but for one member, with nobody invited, ends the party.
pub missing_leader : ℕ → Party → Bool
missing_leader p c =
    c.leader == p
    && (is_empty c.member_list || (length c.member_list == 1 && is_empty c.invite_list))

-- What `leaveParty` does once the leadership has passed, or cannot pass.
pub drop_out : Env → ℕ → ℕ → Bool → World → World
unfolding erase_member set_party update_shared_experience clear_player_points finish_leave
drop_out env i p missing w = finish_leave env i missing (
    clear_player_points env i p
      (update_shared_experience env i (set_party p none (erase_member i p w))))

pub leave_party : Env → ℕ → ℕ → World → World × Bool
unfolding drop_out pass_to_front missing_leader
leave_party env i p w = elim (w.parties i) [
  | none ↦ (w, false)
  | some c ↦
      if not (in_party i (w.players p)) && not (c.leader == p)
      then (w, false)
      else if not (env.on_leave w i p)
      then (w, false)
      else let missing = missing_leader p c in
        let w₁ = if c.leader == p && not missing then pass_to_front env i c.member_list w else w in
        (drop_out env i p missing w₁, true)
]

pub join_party : Env → ℕ → ℕ → World → World × Bool
unfolding elem erase put_party set_party remove_party_invitation update_shared_experience
join_party env i p w = if not (env.on_join w i p) then (w, false) else elim (w.parties i) [
  | none ↦ (w, false)
  | some c ↦
      if not (elem p c.invite_list)
      then (w, false)
      else let c' : Party = record c {
        invite_list = erase p c.invite_list;
        member_list = c.member_list ++ p ∷ [];
      } in
        let w₁ = put_party i (some c') (set_party p (some i) w) in
        (update_shared_experience env i (remove_party_invitation p i w₁), true)
]

pub remove_invite : Env → ℕ → ℕ → Bool → World → World × Bool
unfolding elem erase put_party remove_party_invitation finish_leave
remove_invite env i p remove_from_player w = elim (w.parties i) [
  | none ↦ (w, false)
  | some c ↦
      if not (elem p c.invite_list)
      then (w, false)
      else let w₁ = put_party i (some (record c { invite_list = erase p c.invite_list })) w in
        let w₂ = if remove_from_player then remove_party_invitation p i w₁ else w₁ in
        (finish_leave env i false w₂, true)
]

pub revoke_invitation : Env → ℕ → ℕ → World → World
unfolding remove_invite
revoke_invitation env i p w = (remove_invite env i p true w).0

pub invite_player : ℕ → ℕ → World → World × Bool
unfolding elem put_party add_party_invitation
invite_player i p w = elim (w.parties i) [
  | none ↦ (w, false)
  | some c ↦ if elem p c.invite_list then (w, false) else (
    add_party_invitation p i
        (put_party i (some (record c { invite_list = c.invite_list ++ p ∷ [] })) w),
    true,
  )
]

-- `new Party(leader)`.
pub new_party : ℕ → World → World
unfolding put_party set_party
new_party p w =
    let i = w.next_party in
    let c : Party = record {
      point_map = [];
      member_list = [];
      invite_list = [];
      leader = p;
      shared_exp_active = false;
      shared_exp_enabled = false;
    } in
    let w₁ : World = record w { next_party = i + 1 } in
    set_party p (some i) (put_party i (some c) w₁)

-- `Player::clearPartyInvitations`, which a logout calls.
pub each_inviting : Env → ℕ → List ℕ → World → World
unfolding remove_invite
each_inviting env p [] w = w
each_inviting env p (i ∷ is) w = each_inviting env p is (remove_invite env i p false w).0

pub clear_party_invitations : Env → ℕ → World → World
unfolding each_inviting put_player
clear_party_invitations env p w =
    let w₁ = each_inviting env p (w.players p).invite_party_list w in
    put_player p (record (w₁.players p) { invite_party_list = [] }) w₁

-- `Party::canOpenCorpse`.
pub can_open_corpse : ℕ → ℕ → World → Bool
can_open_corpse i owner w = elim (w.parties i) [
  | none ↦ false
  | some c ↦ w.online owner && (c.leader == owner || in_party i (w.players owner))
]
