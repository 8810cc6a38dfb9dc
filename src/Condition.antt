-- ===== src/Condition.antt =====
-- Conditions, condition.h and condition.cpp, as far as they are stored with a player: the fields that are
-- written, one class after another. A signed number, and a float, is its pattern of bits. The other
-- fields are set by the constructors or anew when a condition starts.
mod Stream
mod Fields
mod Store
mod Reading
mod Restored
mod Restore
mod Tests
use otchronos.Prelude.{
  ℕ, ◌+◌, ◌-◌, ◌^◌, Option, none, some, Bool, true, false, not, ◌==◌, ◌||◌, ◌&&◌, if◌then◌else◌,
  List, [], ◌∷◌, ◌++◌,
}

-- `Condition`.
pub record Base : Type 0 where
  pub condition_type : ℕ
  pub id : ℕ
  pub ticks : ℕ
  pub is_buff : Bool
  pub sub_id : ℕ

-- `IntervalInfo`.
pub record IntervalInfo : Type 0 where
  pub time_left : ℕ
  pub value : ℕ
  pub interval : ℕ

-- `skills` of ConditionAttributes.
pub record Skills : Type 0 where
  pub fist : ℕ
  pub club : ℕ
  pub sword : ℕ
  pub axe : ℕ
  pub missile : ℕ
  pub shield : ℕ
  pub fishing : ℕ

-- `stats` of ConditionAttributes.
pub record Stats : Type 0 where
  pub max_hit_points : ℕ
  pub max_mana_points : ℕ
  pub soul_points : ℕ
  pub magic_points : ℕ

-- The classes that have fields of their own to store. An outfit is its image in memory, of 12 bytes.
pub data Extra : Type 0 where
  generic : Extra
  attributes : Skills → Stats → ℕ → ℕ → Extra
  regeneration : ℕ → ℕ → ℕ → ℕ → Extra
  soul : ℕ → ℕ → Extra
  damage : Bool → ℕ → List IntervalInfo → Extra
  speed : ℕ → ℕ → ℕ → ℕ → ℕ → Extra
  outfit : List ℕ → Extra
  light : ℕ → ℕ → ℕ → ℕ → Extra

pub record Condition : Type 0 where
  pub base : Base
  pub extra : Extra

-- `ConditionAttr_t`.
abbrev pub attr_type : ℕ
attr_type = 1

abbrev pub attr_id : ℕ
attr_id = 2

abbrev pub attr_ticks : ℕ
attr_ticks = 3

abbrev pub attr_health_ticks : ℕ
attr_health_ticks = 4

abbrev pub attr_health_gain : ℕ
attr_health_gain = 5

abbrev pub attr_mana_ticks : ℕ
attr_mana_ticks = 6

abbrev pub attr_mana_gain : ℕ
attr_mana_gain = 7

abbrev pub attr_delayed : ℕ
attr_delayed = 8

abbrev pub attr_owner : ℕ
attr_owner = 9

abbrev pub attr_interval_data : ℕ
attr_interval_data = 10

abbrev pub attr_speed_delta : ℕ
attr_speed_delta = 11

abbrev pub attr_formula_mina : ℕ
attr_formula_mina = 12

abbrev pub attr_formula_minb : ℕ
attr_formula_minb = 13

abbrev pub attr_formula_maxa : ℕ
attr_formula_maxa = 14

abbrev pub attr_formula_maxb : ℕ
attr_formula_maxb = 15

abbrev pub attr_light_color : ℕ
attr_light_color = 16

abbrev pub attr_light_level : ℕ
attr_light_level = 17

abbrev pub attr_light_ticks : ℕ
attr_light_ticks = 18

abbrev pub attr_light_interval : ℕ
attr_light_interval = 19

abbrev pub attr_soul_ticks : ℕ
attr_soul_ticks = 20

abbrev pub attr_soul_gain : ℕ
attr_soul_gain = 21

abbrev pub attr_skills : ℕ
attr_skills = 22

abbrev pub attr_stats : ℕ
attr_stats = 23

abbrev pub attr_outfit : ℕ
attr_outfit = 24

abbrev pub attr_period_damage : ℕ
attr_period_damage = 25

abbrev pub attr_is_buff : ℕ
attr_is_buff = 26

abbrev pub attr_sub_id : ℕ
attr_sub_id = 27

abbrev pub attr_end : ℕ
attr_end = 254

-- -1 as an `int32_t`.
abbrev pub minus_one : ℕ
minus_one = 2 ^ 32 - 1

abbrev pub no_skills : Skills
no_skills = record { fist = 0; club = 0; sword = 0; axe = 0; missile = 0; shield = 0; fishing = 0 }

abbrev pub no_stats : Stats
no_stats = record { max_hit_points = 0; max_mana_points = 0; soul_points = 0; magic_points = 0 }

-- The switch of `Condition::createCondition` and the constructors: what a new condition of a type has of
-- its own. There are no conditions of other types.
unfoldable pub fresh : ℕ → Option Extra
fresh t =
    if ((t == 1 || t == 2) || (t == 4 || t == 8))
      || ((t == 2 ^ 15 || t == 2 ^ 20) || (t == 2 ^ 21 || t == 2 ^ 22))
    then some (damage false 0 [])
    else if t == 16 || t == 32
    then some (speed 0 0 0 0 0)
    else if t == 64
    then some (outfit [])
    else if t == 256
    then some (light 0 0 0 0)
    else if t == 2 ^ 13
    then some (regeneration 1000 0 1000 0)
    else if t == 2 ^ 14
    then some (soul 0 0)
    else if t == 2 ^ 19
    then some (attributes no_skills no_stats 0 0)
    else if ((t == 128 || t == 512) || (t == 2 ^ 10 || t == 2 ^ 11))
        || (((t == 2 ^ 12 || t == 2 ^ 16) || (t == 2 ^ 17 || t == 2 ^ 18))
            || ((t == 2 ^ 23 || t == 2 ^ 24) || (t == 2 ^ 25 || (t == 2 ^ 26 || t == 2 ^ 27))))
    then some generic
    else none

abbrev pub is_damage : Extra → Bool
is_damage (damage d p l) = true
is_damage _ = false

-- `Condition::createCondition` of a type; a new ConditionDamage lasts 0 ticks.
unfoldable pub new_condition : Base → Option Condition
new_condition b = elim (fresh b.condition_type) [
  | none ↦ none
  | some e ↦ some record { base = if is_damage e then record b { ticks = 0 } else b; extra = e }
]
