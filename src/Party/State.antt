-- ===== src/Party/State.antt =====
-- party.h, and the fields of player.h that party.cpp reads and writes. A player and a party are
-- known by a number each, in place of the pointers; `World` is the heap that they stand in.
use otchronos.Prelude.{
  ℕ, ◌+◌, ◌-◌, List, Option, none, some, Bool, false, ◌&&◌, ◌==◌, if◌then◌else◌, leb, is_empty,
}

pub record Position : Type 0 where
  pub x : ℕ
  pub y : ℕ
  pub z : ℕ

-- `std::abs(p1 - p2)` on coordinates.
abbrev pub distance : ℕ → ℕ → ℕ
distance a b = (a - b) + (b - a)

-- `Position::areInRange<deltax, deltay, deltaz>`.
unfoldable pub are_in_range : ℕ → ℕ → ℕ → Position → Position → Bool
are_in_range dx dy dz p q =
    leb (distance p.x q.x) dx && leb (distance p.y q.y) dy && leb (distance p.z q.z) dz

pub record Player : Type 0 where
  pub party : Option ℕ
  pub invite_party_list : List ℕ
  pub level : ℕ
  pub position : Position
  pub not_gain_in_fight : Bool
  pub in_fight : Bool

-- `CountBlock_t`; the two totals are the bit patterns of an `int32_t`.
pub record CountBlock : Type 0 where
  pub total_heal : ℕ
  pub total_damage : ℕ
  pub ticks : ℕ

pub record Party : Type 0 where
  pub point_map : List (ℕ × CountBlock)
  pub member_list : List ℕ
  pub invite_list : List ℕ
  pub leader : ℕ
  pub shared_exp_active : Bool
  pub shared_exp_enabled : Bool

-- `parties i` is `none` before `new Party` and after `delete this`; `now` is OTSYS_TIME().
pub record World : Type 0 where
  pub players : ℕ → Player
  pub parties : ℕ → Option Party
  pub next_party : ℕ
  pub online : ℕ → Bool
  pub now : ℕ

-- What the party asks of the rest of the server: the answers of the event scripts, which may stop a
-- join, a leave or a disband, and the configured PZ_LOCKED.
pub record Env : Type 0 where
  pub on_join : World → ℕ → ℕ → Bool
  pub on_leave : World → ℕ → ℕ → Bool
  pub on_disband : World → ℕ → Bool
  pub pz_locked : ℕ

-- `Party::empty`.
abbrev pub is_deserted : Party → Bool
is_deserted c = is_empty c.member_list && is_empty c.invite_list

-- `player->getParty() == party`.
abbrev pub in_party : ℕ → Player → Bool
in_party i pl = elim pl.party [ none ↦ false | some j ↦ j == i ]

unfoldable pub put_party : ℕ → Option Party → World → World
put_party i c w = record w { parties = λ j. if i == j then c else w.parties j }

unfoldable pub put_player : ℕ → Player → World → World
put_player p pl w = record w { players = λ q. if p == q then pl else w.players q }

-- `Player::setParty`.
unfoldable pub set_party : ℕ → Option ℕ → World → World
unfolding put_player
set_party p o w = put_player p (record (w.players p) { party = o }) w
