-- ===== src/Player/Vitals.antt =====
-- The small states of a player: stamina, soul points, the skull of a murderer, the message buffer
-- against spam, and the VIP list (player.cpp). The clock and the configuration are arguments; a
-- result's messages to the client are left out.
use otchronos.Prelude.{
  ℕ, ◌+◌, ◌-◌, ◌*◌, ◌/◌, ◌%◌, ◌^◌, min, max, Option, none, some, Bool, true, false, ◌==◌, ◌||◌,
  ◌&&◌, not, if◌then◌else◌, ltb, leb, List, ◌∷◌, length, elem, erase,
}

-- A number that C++ narrows to `int16_t` and keeps in a `uint16_t` is less than `2 ^ 15` where it
-- is positive. This is `std::min<int16_t>`, with a positive first number.
unfoldable pub min16 : ℕ → ℕ → ℕ
min16 a b = if ltb (b % 2 ^ 16) (2 ^ 15) then min a (b % 2 ^ 16) else b % 2 ^ 16

-- `Player::regenerateStamina`, for the seconds that a player was away.
unfoldable pub regenerate_stamina : Bool → ℕ → ℕ → ℕ
regenerate_stamina stamina_system offline_time stamina =
    let time = offline_time - 600 in
    let regain = (time / 180) % 2 ^ 16 in
    let normal = 2400 - min16 2400 stamina in
    if not stamina_system || ltb time 180
    then stamina
    else if ltb regain (2 ^ 15) && ltb normal regain
    then min16 2520 (max 2400 stamina + (time - normal * 180) / 600 % 2 ^ 16)
    else (stamina + regain) % 2 ^ 16

pub record Stamina : Type 0 where
  pub minutes : ℕ
  pub next_use : ℕ

-- `Player::useStamina` at the time `now`, in seconds.
unfoldable pub use_stamina : Bool → ℕ → Stamina → Stamina
use_stamina stamina_system now s =
    if not stamina_system || s.minutes == 0
    then s
    else if ltb s.next_use now
    then if ltb 60 (now - s.next_use)
      then record { minutes = if ltb 2 s.minutes then s.minutes - 2 else 0; next_use = now + 120 }
      else record { minutes = s.minutes - 1; next_use = now + 60 }
    else s

-- The argument of `Player::changeSoul`, an `int32_t`.
pub data SoulChange : Type 0 where
  gain : ℕ → SoulChange
  loss : ℕ → SoulChange

-- `Player::changeSoul`. Soul points are unsigned, and the two bounds are taken on signed numbers.
unfoldable pub change_soul : ℕ → SoulChange → ℕ → ℕ
change_soul soul_max (gain n) soul =
    let room = (soul_max + 2 ^ 32 - soul) % 2 ^ 32 in
    (soul + (if ltb room (2 ^ 31) then min n room else room)) % 2 ^ 32
change_soul soul_max (loss n) soul =
    let left = (soul + 2 ^ 32 - n) % 2 ^ 32 in if ltb left (2 ^ 31) then left else 0

-- `Skulls_t`.
pub data Skull : Type 0 where
  skull_none skull_yellow skull_green skull_white skull_red skull_black skull_orange : Skull

abbrev pub is_red : Skull → Bool
is_red skull_red = true
is_red _ = false

abbrev pub is_black : Skull → Bool
is_black skull_black = true
is_black _ = false

pub record Frags : Type 0 where
  pub skull : Skull
  pub skull_ticks : ℕ

-- FRAG_TIME, KILLS_TO_RED and KILLS_TO_BLACK.
pub record FragConfig : Type 0 where
  pub frag_time : ℕ
  pub kills_to_red : ℕ
  pub kills_to_black : ℕ

-- `KILLS != 0 && skullTicks > (KILLS - 1) * FRAG_TIME`.
unfoldable pub too_many : ℕ → ℕ → ℕ → Bool
too_many kills frag_time ticks = not (kills == 0) && ltb ((kills - 1) * frag_time) ticks

-- `Player::addUnjustifiedDead`, for a victim other than the player, a player who may gain in a
-- fight, and a world that does not enforce fights.
unfoldable pub add_unjustified_dead : FragConfig → Frags → Frags
add_unjustified_dead c f =
    let ticks = f.skull_ticks + c.frag_time in
    record {
      skull =
          if is_black f.skull
          then f.skull
          else if too_many c.kills_to_black c.frag_time ticks
          then skull_black
          else if not (is_red f.skull) && too_many c.kills_to_red c.frag_time ticks
          then skull_red
          else f.skull;
      skull_ticks = ticks;
    }

-- `Player::checkSkullTicks`.
unfoldable pub check_skull_ticks : Bool → ℕ → Frags → Frags
check_skull_ticks in_fight ticks f =
    let left = f.skull_ticks - ticks in
    record {
      skull =
          if (is_red f.skull || is_black f.skull) && (ltb left 1000 && not in_fight)
          then skull_none
          else f.skull;
      skull_ticks = left;
    }

-- `MessageBufferCount`, and the player's entry of `muteCountMap`.
pub record Talk : Type 0 where
  pub message_buffer_count : ℕ
  pub mute_count : Option ℕ

-- `Player::addMessageBuffer`; the bound is MAX_MESSAGEBUFFER and the flag
-- PlayerFlag_CannotBeMuted.
unfoldable pub add_message_buffer : ℕ → Bool → Talk → Talk
add_message_buffer max_buffer unmutable t =
    if ltb 0 t.message_buffer_count && not (max_buffer == 0) && not unmutable
    then record { message_buffer_count = t.message_buffer_count - 1; mute_count = t.mute_count }
    else t

-- `Player::removeMessageBuffer`, with the seconds for which the player is now muted.
unfoldable pub remove_message_buffer : ℕ → Bool → Talk → Talk × Option ℕ
remove_message_buffer max_buffer unmutable t =
    let count = t.message_buffer_count + 1 in
    let mutes : ℕ = elim t.mute_count [ none ↦ 1 | some n ↦ n ] in
    if unmutable || (max_buffer == 0 || not (leb t.message_buffer_count (max_buffer + 1)))
    then (t, none)
    else if ltb max_buffer count
    then (
      record { message_buffer_count = count; mute_count = some ((mutes + 1) % 2 ^ 32) },
      some ((5 * mutes * mutes) % 2 ^ 32),
    )
    else (record { message_buffer_count = count; mute_count = t.mute_count }, none)

-- `VIPList`, a set, as a list, with the player's own number and `maxVipEntries`.
pub record Vip : Type 0 where
  pub guid : ℕ
  pub max_vip_entries : ℕ
  pub vip_list : List ℕ

-- `Player::addVIP`, and `Player::addVIPInternal`, which makes the same tests in silence.
unfoldable pub add_vip : ℕ → Vip → Vip × Bool
add_vip other v =
    if v.guid == other
    then (v, false)
    else if leb v.max_vip_entries (length v.vip_list) || (length v.vip_list == 200)
    then (v, false)
    else if elem other v.vip_list
    then (v, false)
    else (
      record { guid = v.guid; max_vip_entries = v.max_vip_entries; vip_list = other ∷ v.vip_list },
      true,
    )

-- `Player::removeVIP`.
unfoldable pub remove_vip : ℕ → Vip → Vip × Bool
remove_vip other v =
    if elem other v.vip_list
    then (
      record {
        guid = v.guid;
        max_vip_entries = v.max_vip_entries;
        vip_list = erase other v.vip_list;
      },
      true,
    )
    else (v, false)

-- What `Player::editVIP` answers; what it writes goes to the database.
unfoldable pub edit_vip : ℕ → Vip → Bool
edit_vip other v = elem other v.vip_list
