-- ===== src/Condition/Fields.antt =====
-- The fields of conditions that are stored, class by class: their `serialize` and `unserializeProp` of condition.cpp.
use otchronos.Prelude.{
  ℕ, ◌+◌, ◌*◌, ◌^◌, ◌%◌, ◌/◌, Option, none, some, Bool, true, false, not, ◌==◌, ◌||◌, if◌then◌else◌,
  List, [], ◌∷◌, ◌++◌,
}
use otchronos.Condition.{
  Base, IntervalInfo, Skills, Stats, Extra, generic, attributes, regeneration, soul, damage, speed,
  outfit, light, Condition, attr_type, attr_id, attr_ticks, attr_health_ticks, attr_health_gain,
  attr_mana_ticks, attr_mana_gain, attr_delayed, attr_owner, attr_interval_data, attr_speed_delta,
  attr_formula_mina, attr_formula_minb, attr_formula_maxa, attr_formula_maxb, attr_light_color,
  attr_light_level, attr_light_ticks, attr_light_interval, attr_soul_ticks, attr_soul_gain,
  attr_skills, attr_stats, attr_outfit, attr_period_damage, attr_is_buff, attr_sub_id, minus_one,
}
use otchronos.Condition.Stream.{add_value}

-- `ADD_UCHAR` of an attribute and `ADD_VALUE` of its value, of so many bytes.
pub record Attr : Type 0 where
  pub tag : ℕ
  pub width : ℕ
  pub content : ℕ

abbrev pub attr : ℕ → ℕ → ℕ → Attr
attr t w v = record { tag = t; width = w; content = v }

unfoldable pub write_attrs : List Attr → List ℕ → List ℕ
write_attrs [] rest = rest
write_attrs (a ∷ as_) rest = a.tag ∷ add_value a.width a.content (write_attrs as_ rest)

abbrev pub byte : Bool → ℕ
byte true = 1
byte false = 0

-- `Condition::serialize`.
abbrev pub base_attrs : Base → List Attr
base_attrs b =
    attr attr_type 4 b.condition_type
    ∷ attr attr_id 4 b.id
    ∷ attr attr_ticks 4 b.ticks
    ∷ attr attr_is_buff 1 (byte b.is_buff)
    ∷ attr attr_sub_id 4 b.sub_id
    ∷ []

-- An IntervalInfo in memory.
abbrev pub pack : IntervalInfo → ℕ
pack i = i.time_left + 2 ^ 32 * (i.value + 2 ^ 32 * i.interval)

abbrev pub unpack : ℕ → IntervalInfo
unpack v = record {
  time_left = v % 2 ^ 32;
  value = (v / 2 ^ 32) % 2 ^ 32;
  interval = v / 2 ^ 32 / 2 ^ 32;
}

unfoldable pub interval_attrs : List IntervalInfo → List Attr
interval_attrs [] = []
interval_attrs (i ∷ is) = attr attr_interval_data 12 (pack i) ∷ interval_attrs is

unfoldable pub outfit_attrs : List ℕ → List Attr
outfit_attrs [] = []
outfit_attrs (o ∷ os) = attr attr_outfit 12 o ∷ outfit_attrs os

-- `ConditionAttributes::serialize`.
unfoldable pub attributes_attrs : Skills → Stats → List Attr
attributes_attrs sk st =
    attr attr_skills 4 sk.fist
    ∷ attr attr_skills 4 sk.club
    ∷ attr attr_skills 4 sk.sword
    ∷ attr attr_skills 4 sk.axe
    ∷ attr attr_skills 4 sk.missile
    ∷ attr attr_skills 4 sk.shield
    ∷ attr attr_skills 4 sk.fishing
    ∷ attr attr_stats 4 st.max_hit_points
    ∷ attr attr_stats 4 st.max_mana_points
    ∷ attr attr_stats 4 st.soul_points
    ∷ attr attr_stats 4 st.magic_points
    ∷ []

-- `ConditionRegeneration::serialize`.
unfoldable pub regeneration_attrs : ℕ → ℕ → ℕ → ℕ → List Attr
regeneration_attrs ht hg mt mg =
    attr attr_health_ticks 4 ht
    ∷ attr attr_health_gain 4 hg
    ∷ attr attr_mana_ticks 4 mt
    ∷ attr attr_mana_gain 4 mg
    ∷ []

-- `ConditionSoul::serialize`.
unfoldable pub soul_attrs : ℕ → ℕ → List Attr
soul_attrs gain ticks = attr attr_soul_gain 4 gain ∷ attr attr_soul_ticks 4 ticks ∷ []

-- `ConditionDamage::serialize`.
unfoldable pub damage_attrs : Bool → ℕ → List IntervalInfo → List Attr
unfolding interval_attrs
damage_attrs delayed period is =
    attr attr_delayed 1 (byte delayed) ∷ attr attr_period_damage 4 period ∷ interval_attrs is

-- `ConditionSpeed::serialize`.
unfoldable pub speed_attrs : ℕ → ℕ → ℕ → ℕ → ℕ → List Attr
speed_attrs delta mina minb maxa maxb =
    attr attr_speed_delta 4 delta
    ∷ attr attr_formula_mina 4 mina
    ∷ attr attr_formula_minb 4 minb
    ∷ attr attr_formula_maxa 4 maxa
    ∷ attr attr_formula_maxb 4 maxb
    ∷ []

-- `ConditionLight::serialize`.
unfoldable pub light_attrs : ℕ → ℕ → ℕ → ℕ → List Attr
light_attrs color level ticks change =
    attr attr_light_color 4 color
    ∷ attr attr_light_level 4 level
    ∷ attr attr_light_ticks 4 ticks
    ∷ attr attr_light_interval 4 change
    ∷ []

-- What the classes write after the fields of `Condition`: their `serialize`.
unfoldable pub own_attrs : Extra → List Attr
unfolding attributes_attrs regeneration_attrs soul_attrs damage_attrs speed_attrs light_attrs
    outfit_attrs
own_attrs generic = []
own_attrs (attributes sk st n m) = attributes_attrs sk st
own_attrs (regeneration ht hg mt mg) = regeneration_attrs ht hg mt mg
own_attrs (soul gain ticks) = soul_attrs gain ticks
own_attrs (damage delayed period is) = damage_attrs delayed period is
own_attrs (speed delta mina minb maxa maxb) = speed_attrs delta mina minb maxa maxb
own_attrs (outfit os) = outfit_attrs os
own_attrs (light color level ticks change) = light_attrs color level ticks change

-- The attributes that a class reads itself in `unserializeProp`, and in how many bytes.
unfoldable pub own_width : Extra → ℕ → Option ℕ
own_width generic t = none
own_width (attributes sk st n m) t = if t == attr_skills || t == attr_stats then some 4 else none
own_width (regeneration ht hg mt mg) t =
    if (t == attr_health_ticks || t == attr_health_gain)
      || (t == attr_mana_ticks || t == attr_mana_gain)
    then some 4
    else none
own_width (soul gain ticks) t = if t == attr_soul_gain || t == attr_soul_ticks then some 4 else none
own_width (damage delayed period is) t =
    if t == attr_delayed
    then some 1
    else if t == attr_period_damage || t == attr_owner
    then some 4
    else if t == attr_interval_data
    then some 12
    else none
own_width (speed delta mina minb maxa maxb) t =
    if (t == attr_speed_delta || t == attr_formula_mina)
      || (t == attr_formula_minb || (t == attr_formula_maxa || t == attr_formula_maxb))
    then some 4
    else none
own_width (outfit os) t = if t == attr_outfit then some 12 else none
own_width (light color level ticks change) t =
    if (t == attr_light_color || t == attr_light_level)
      || (t == attr_light_ticks || t == attr_light_interval)
    then some 4
    else none

-- `skills[currentSkill] = value`; a write behind the last skill is left out.
abbrev pub put_skill : ℕ → ℕ → Skills → Skills
put_skill i v s = record {
  fist = if i == 0 then v else s.fist;
  club = if i == 1 then v else s.club;
  sword = if i == 2 then v else s.sword;
  axe = if i == 3 then v else s.axe;
  missile = if i == 4 then v else s.missile;
  shield = if i == 5 then v else s.shield;
  fishing = if i == 6 then v else s.fishing;
}

abbrev pub put_stat : ℕ → ℕ → Stats → Stats
put_stat i v s = record {
  max_hit_points = if i == 0 then v else s.max_hit_points;
  max_mana_points = if i == 1 then v else s.max_mana_points;
  soul_points = if i == 2 then v else s.soul_points;
  magic_points = if i == 3 then v else s.magic_points;
}

-- `ConditionAttributes::unserializeProp`.
unfoldable pub set_attributes : ℕ → ℕ → Base → Skills → Stats → ℕ → ℕ → Condition
set_attributes t v b sk st n m = record {
  base = b;
  extra =
      if t == attr_skills
      then attributes (put_skill n v sk) st (n + 1) m
      else attributes sk (put_stat m v st) n (m + 1);
}

-- `ConditionRegeneration::unserializeProp`.
unfoldable pub set_regeneration : ℕ → ℕ → Base → ℕ → ℕ → ℕ → ℕ → Condition
set_regeneration t v b ht hg mt mg = record {
  base = b;
  extra =
      if t == attr_health_ticks
      then regeneration v hg mt mg
      else if t == attr_health_gain
      then regeneration ht v mt mg
      else if t == attr_mana_ticks
      then regeneration ht hg v mg
      else regeneration ht hg mt v;
}

-- `ConditionSoul::unserializeProp`.
unfoldable pub set_soul : ℕ → ℕ → Base → ℕ → ℕ → Condition
set_soul t v b gain ticks = record {
  base = b;
  extra = if t == attr_soul_gain then soul v ticks else soul gain v;
}

-- `ConditionDamage::unserializeProp`.
unfoldable pub set_damage : ℕ → ℕ → Base → Bool → ℕ → List IntervalInfo → Condition
set_damage t v b delayed period is =
    if t == attr_delayed
    then record { base = b; extra = damage (not (v == 0)) period is }
    else if t == attr_period_damage
    then record { base = b; extra = damage delayed v is }
    else if t == attr_owner
    then record { base = b; extra = damage delayed period is }
    else record {
      base =
          if b.ticks == minus_one
          then b
          else record b { ticks = (b.ticks + (unpack v).interval) % 2 ^ 32 };
      extra = damage delayed period (is ++ unpack v ∷ []);
    }

-- `ConditionSpeed::unserializeProp`.
unfoldable pub set_speed : ℕ → ℕ → Base → ℕ → ℕ → ℕ → ℕ → ℕ → Condition
set_speed t v b delta mina minb maxa maxb = record {
  base = b;
  extra =
      if t == attr_speed_delta
      then speed v mina minb maxa maxb
      else if t == attr_formula_mina
      then speed delta v minb maxa maxb
      else if t == attr_formula_minb
      then speed delta mina v maxa maxb
      else if t == attr_formula_maxa
      then speed delta mina minb v maxb
      else speed delta mina minb maxa v;
}

-- `ConditionLight::unserializeProp`.
unfoldable pub set_light : ℕ → ℕ → Base → ℕ → ℕ → ℕ → ℕ → Condition
set_light t v b color level ticks change = record {
  base = b;
  extra =
      if t == attr_light_color
      then light v level ticks change
      else if t == attr_light_level
      then light color v ticks change
      else if t == attr_light_ticks
      then light color level v change
      else light color level ticks v;
}

-- `ConditionOutfit::unserializeProp`.
unfoldable pub set_outfit : ℕ → ℕ → Base → List ℕ → Condition
set_outfit t v b os = record { base = b; extra = outfit (os ++ v ∷ []) }

-- What a class does with a value that it has read.
unfoldable pub set_own : ℕ → ℕ → Base → Extra → Condition
unfolding set_attributes set_regeneration set_soul set_damage set_speed set_light set_outfit
set_own t v b generic = record { base = b; extra = generic }
set_own t v b (attributes sk st n m) = set_attributes t v b sk st n m
set_own t v b (regeneration ht hg mt mg) = set_regeneration t v b ht hg mt mg
set_own t v b (soul gain ticks) = set_soul t v b gain ticks
set_own t v b (damage delayed period is) = set_damage t v b delayed period is
set_own t v b (speed delta mina minb maxa maxb) = set_speed t v b delta mina minb maxa maxb
set_own t v b (outfit os) = set_outfit t v b os
set_own t v b (light color level ticks change) = set_light t v b color level ticks change
