-- ===== src/Player/Level.antt =====
-- Experience and the level: `Player::getExpForLevel` (player.h), `Player::addExperience`,
-- `Player::removeExperience` and `Player::gainExperience` (player.cpp). What a script answers is an
-- argument, and so is the factor of the server's experience stages. Hit points and mana are
-- `int32_t`, which do not overflow here, and the capacity is a `double` that holds whole numbers.
use otchronos.Prelude.{
  ℕ, zero, suc, ◌+◌, ◌-◌, ◌*◌, ◌/◌, ◌%◌, ◌^◌, Option, none, some, Bool, true, false, ◌==◌, ◌||◌,
  ◌&&◌, if◌then◌else◌, ltb, leb,
}
use otchronos.Player.Training.{get_percent_level}

-- `Player::getExpForLevel`, on unsigned numbers of 64 bits, for a level from 1 on.
unfoldable pub get_exp_for_level : ℕ → ℕ
get_exp_for_level level =
    let lv = level - 1 in
    ((50 * lv * lv * lv) % 2 ^ 64 + 2 ^ 64 - (150 * lv * lv) % 2 ^ 64 + 400 * lv) % 2 ^ 64 / 3

-- The fields of `Player` that a level changes.
pub record Body : Type 0 where
  pub level : ℕ
  pub experience : ℕ
  pub level_percent : ℕ
  pub health : ℕ
  pub health_max : ℕ
  pub mana : ℕ
  pub mana_max : ℕ
  pub capacity : ℕ

-- What a level of the vocation gives: `getHPGain`, `getManaGain` and `getCapGain`.
pub record Gains : Type 0 where
  pub hp : ℕ
  pub mana : ℕ
  pub cap : ℕ

-- What `addExperience` asks about the player and the server, and the answers of the scripts:
-- `none` where a script declines.
pub record Terms : Type 0 where
  pub stage : ℕ → ℕ → ℕ
  pub stamina_system : Bool
  pub stamina_minutes : ℕ
  pub is_premium : Bool
  pub not_gain_experience : Bool
  pub on_gain : ℕ → ℕ → Option ℕ
  pub on_lose : ℕ → Option ℕ

-- The body of the loop in `addExperience`.
unfoldable pub grow : Gains → Body → Body
grow g p = record {
  level = p.level + 1;
  experience = p.experience;
  level_percent = p.level_percent;
  health = p.health + g.hp;
  health_max = p.health_max + g.hp;
  mana = p.mana + g.mana;
  mana_max = p.mana_max + g.mana;
  capacity = p.capacity + g.cap;
}

-- The body of the loop in `removeExperience`, where `max` keeps what is left from falling below 0.
unfoldable pub shrink : Gains → Body → Body
shrink g p = record {
  level = p.level - 1;
  experience = p.experience;
  level_percent = p.level_percent;
  health = p.health;
  health_max = p.health_max - g.hp;
  mana = p.mana;
  mana_max = p.mana_max - g.mana;
  capacity = p.capacity - g.cap;
}

module _ (need : ℕ → ℕ) (g : Gains) where
  -- `while (experience >= nextLevelExp)`: `currLevelExp` and `nextLevelExp` are what the level and
  -- the one above it need. `none` means out of fuel.
  unfoldable pub level_up : ℕ → Body → Option Body
  level_up zero p = none
  level_up (suc fuel) p =
      let q = grow g p in
      let rest = level_up fuel q in
      if leb (need (p.level + 1)) p.experience
      then if leb (need (q.level + 1)) (need q.level) then some q else rest
      else some p

  -- `while (level > 1 && experience < currLevelExp)`.
  unfoldable pub level_down : ℕ → Body → Option Body
  level_down zero p = none
  level_down (suc fuel) p =
      let rest = level_down fuel (shrink g p) in
      if ltb 1 p.level && ltb p.experience (need p.level) then rest else some p

-- `health = healthMax`, `mana = manaMax` where the level is no longer `old`.
unfoldable pub refill : ℕ → Body → Body
refill old p = if old == p.level then p else record {
  level = p.level;
  experience = p.experience;
  level_percent = p.level_percent;
  health = p.health_max;
  health_max = p.health_max;
  mana = p.mana_max;
  mana_max = p.mana_max;
  capacity = p.capacity;
}

unfoldable pub put_experience : ℕ → Body → Body
put_experience e p = record {
  level = p.level;
  experience = e;
  level_percent = p.level_percent;
  health = p.health;
  health_max = p.health_max;
  mana = p.mana;
  mana_max = p.mana_max;
  capacity = p.capacity;
}

-- The percentage towards the next level.
unfoldable pub put_percent : (ℕ → ℕ) → Body → Body
put_percent need p =
    let curr = need p.level in
    let next = need (p.level + 1) in
    record {
      level = p.level;
      experience = p.experience;
      level_percent =
          if ltb curr next then get_percent_level (p.experience - curr) (next - curr) else 0;
      health = p.health;
      health_max = p.health_max;
      mana = p.mana;
      mana_max = p.mana_max;
      capacity = p.capacity;
    }

-- The experience behind the server's factor and the stamina: half as much again, or half.
unfoldable pub rated : Terms → Bool → Bool → ℕ → ℕ → ℕ
rated t stamina multiplier level exp =
    let e = if multiplier then t.stage level exp else exp in
    if stamina && t.stamina_system
    then if ltb 2400 t.stamina_minutes
      then if t.is_premium then e * 3 / 2 else e
      else if leb t.stamina_minutes 840
      then e / 2
      else e
    else e

module _ (need : ℕ → ℕ) (g : Gains) (t : Terms) where
  -- `experience += exp` and all that follows.
  unfoldable pub take_experience : ℕ → Body → Body
  take_experience exp p =
      let e = (p.experience + exp) % 2 ^ 64 in
      elim (level_up need g (suc e) (put_experience e p)) [
        | none ↦ p
        | some q ↦ put_percent need (refill p.level q)
      ]

  unfoldable pub add_experience : Bool → Bool → ℕ → Body → Body
  add_experience stamina multiplier exp p =
      if leb (need (p.level + 1)) (need p.level)
      then record {
        level = p.level;
        experience = p.experience;
        level_percent = 0;
        health = p.health;
        health_max = p.health_max;
        mana = p.mana;
        mana_max = p.mana_max;
        capacity = p.capacity;
      }
      else elim (t.on_gain (rated t stamina multiplier p.level exp) exp) [
        | none ↦ p
        | some e ↦ take_experience e p
      ]

  -- `std::max<int64_t>(0, experience - exp)`, an unsigned difference read as a signed one.
  unfoldable pub less_experience : ℕ → ℕ → ℕ
  less_experience experience exp =
      let d = (experience + 2 ^ 64 - exp) % 2 ^ 64 in if ltb d (2 ^ 63) then d else 0

  unfoldable pub drop_experience : ℕ → Body → Body
  drop_experience exp p =
      elim (level_down need g (suc p.level) (put_experience (less_experience p.experience exp) p)) [
        | none ↦ p
        | some q ↦ put_percent need (refill p.level q)
      ]

  unfoldable pub remove_experience : ℕ → Body → Body
  remove_experience exp p =
      if p.experience == 0 || exp == 0
      then p
      else elim (t.on_lose exp) [ none ↦ p | some e ↦ drop_experience e p ]

  -- The result's second part says whether the player now regains soul points.
  unfoldable pub gain_experience : ℕ → Body → Body × Bool
  gain_experience exp p =
      if t.not_gain_experience || exp == 0
      then (p, false)
      else if t.stamina_minutes == 0
      then (p, false)
      else (let q = add_experience true true exp p in
          (q, leb q.level (q.experience - p.experience)))
