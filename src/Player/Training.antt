-- ===== src/Player/Training.antt =====
-- Skills and magic level: `Player::addSkillAdvance`, `Player::addManaSpent`,
-- `Player::addOfflineTrainingTries`, `Player::getPercentLevel` and `Vocation::getReqMana`. What a
-- level costs is the argument `req`: the source takes it from a power of floating-point numbers.
use otchronos.Prelude.{
  ℕ, suc, ◌+◌, ◌-◌, ◌*◌, ◌/◌, ◌%◌, ◌^◌, none, some, Bool, true, false, ◌==◌, ◌||◌, if◌then◌else◌,
  ltb, leb,
}
use otchronos.Player.Climb.{Climb, climb}

-- A skill, or the magic level: the level, what is spent towards the next, and the percentage shown.
pub record Progress : Type 0 where
  pub level : ℕ
  pub spent : ℕ
  pub percent : ℕ

-- `Player::getPercentLevel`.
unfoldable pub get_percent_level : ℕ → ℕ → ℕ
get_percent_level n next =
    if next == 0
    then 0
    else (let r = (n * 100) % 2 ^ 64 / next % 2 ^ 32 in if ltb 100 r then 0 else r)

-- `if (nextReqTries > currReqTries) … else newPercent = 0`.
unfoldable pub percent_of : ℕ → Climb → ℕ
unfolding get_percent_level
percent_of spent c = if ltb c.curr c.next then get_percent_level spent c.next else 0

module _ (req : ℕ → ℕ) where
  unfoldable pub start : ℕ → Progress → Climb
  start amount p = record {
    level = p.level;
    spent = p.spent;
    amount = amount;
    curr = req p.level;
    next = req (p.level + 1);
    capped = false;
  }

  -- What `addSkillAdvance` and `addOfflineTrainingTries` do behind the loop.
  unfoldable pub settle : ℕ → Climb → Progress
  unfolding percent_of
  settle size c =
      let spent = (c.spent + c.amount) % size in
      record { level = c.level; spent = spent; percent = percent_of spent c }

  -- `addManaSpent` returns from the loop at the top, with the percentage as it was.
  unfoldable pub settle_mana : ℕ → Progress → Climb → Progress
  unfolding settle
  settle_mana size p c =
      if c.capped
      then record { level = c.level; spent = c.spent; percent = p.percent }
      else settle size c

  -- The loop is given as much fuel as it can use.
  unfoldable pub add_skill_advance : ℕ → Progress → Progress
  unfolding start settle climb
  add_skill_advance amount p =
      if amount == 0
      then p
      else if leb (req (p.level + 1)) (req p.level)
      then p
      else elim (climb req (2 ^ 32) (suc amount) (start amount p)) [
        | none ↦ p
        | some c ↦ settle (2 ^ 32) c
      ]

  -- The flag is PlayerFlag_NotGainMana.
  unfoldable pub add_mana_spent : Bool → ℕ → Progress → Progress
  unfolding start settle_mana climb
  add_mana_spent no_mana amount p =
      if amount == 0 || no_mana
      then p
      else if leb (req (p.level + 1)) (req p.level)
      then p
      else elim (climb req (2 ^ 64) (suc amount) (start amount p)) [
        | none ↦ p
        | some c ↦ settle_mana (2 ^ 64) p c
      ]

  -- `addOfflineTrainingTries`, whose sums have 64 bits for the magic level and 32 for a skill.
  -- `by_rate` is what `tries *= rate` makes of an `int32_t`: the product by RATE_MAGIC or RATE_SKILL,
  -- a double, converted back, where it is not negative. The result says whether there is news to send.
  unfoldable pub add_offline_training_tries : ℕ → (ℕ → ℕ) → ℕ → Progress → Progress × Bool
  unfolding start settle climb
  add_offline_training_tries size by_rate tries p =
      if tries == 0
      then (p, false)
      else if leb (req (p.level + 1)) (req p.level)
      then (p, false)
      else elim (climb req size (suc (by_rate tries)) (start (by_rate tries) p)) [
        | none ↦ (p, false)
        | some c ↦ let q = settle size c in (q, ltb p.level q.level || not_same q.percent p.percent)
      ]
    where
      not_same : ℕ → ℕ → Bool
      not_same a b = if a == b then false else true

-- `Vocation::getReqMana` behind the power, in 64 bits: down to a multiple of 20.
unfoldable pub round_mana : ℕ → ℕ
round_mana raw =
    let r = raw % 20 in if ltb r 10 then raw - r else (raw + 2 ^ 64 - (r + 20)) % 2 ^ 64
