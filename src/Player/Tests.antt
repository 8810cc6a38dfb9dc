-- ===== src/Player/Tests.antt =====
-- Players to whom the theorems on gains and losses are applied.
use otchronos.Prelude.{
  ℕ, ◌+◌, ◌*◌, ◌/◌, ◌≡◌, refl, min, some, true, false, [], ◌∷◌, count, arith, inl, ◌^◌,
}
use otchronos.Player.Training.{
  Progress, get_percent_level, add_skill_advance, add_mana_spent, add_offline_training_tries,
  round_mana,
}
use otchronos.Player.TrainingLaws.{
  IsTraining, Earned, add_skill_advance_lem, add_mana_spent_lem, add_offline_training_tries_lem,
}
use otchronos.Player.Level.{
  Body, Gains, Terms, get_exp_for_level, add_experience, remove_experience, rated, take_experience,
  level_up, put_experience, grow, put_percent, refill,
}
use otchronos.Player.LevelLaws.{IsLevelled, Advanced, add_experience_lem, remove_experience_lem}
use otchronos.Player.LevelCost.{get_exp_for_level_lem}
use otchronos.Player.Vitals.{FragConfig, skull_black, Vip, add_vip}
use otchronos.Player.VitalsLaws.{kills, expected_skull, kills_lem, IsVipList, vip-IsVipList}

-- Level 5 is the top.
abbrev tries_for : ℕ → ℕ
tries_for l = min (10 * l) 50

abbrev novice : Progress
novice = record { level = 1; spent = 3; percent = 15 }

novice-IsTraining : IsTraining tries_for novice
novice-IsTraining = record { short = omega arith; rising = omega arith }

-- A level for 20, and 23 towards the next.
add_skill_advance_test :
    add_skill_advance tries_for 40 novice ≡ record { level = 2; spent = 23; percent = 76 }
unfolding add_skill_advance
add_skill_advance_test = refl

-- The mana is lost at the top, and the percentage stays.
add_mana_spent_test :
    add_mana_spent tries_for false 500 novice ≡ record { level = 5; spent = 0; percent = 15 }
unfolding add_mana_spent
add_mana_spent_test = refl

add_skill_advance_lem_example : Earned tries_for 40 novice (add_skill_advance tries_for 40 novice)
add_skill_advance_lem_example =
    add_skill_advance_lem tries_for 40 novice novice-IsTraining (λ l. omega arith) (omega arith)

add_mana_spent_lem_example : Earned tries_for 500 novice (add_mana_spent tries_for false 500 novice)
add_mana_spent_lem_example =
    add_mana_spent_lem tries_for 500 novice novice-IsTraining (λ l. omega arith) (omega arith)

-- A rate of 1.5.
abbrev one_and_a_half : ℕ → ℕ
one_and_a_half tries = tries * 3 / 2

add_offline_training_tries_lem_example :
    Earned tries_for 45 novice
      (add_offline_training_tries tries_for (2 ^ 32) one_and_a_half 30 novice).0
add_offline_training_tries_lem_example =
    add_offline_training_tries_lem tries_for (2 ^ 32) one_and_a_half 30 novice (omega arith)
      (omega arith) (inl refl) novice-IsTraining (λ l. omega arith) (omega arith)

-- 1055 is 15 above a multiple of 20, and goes down by 35.
round_mana_test : round_mana 1055 ≡ 1020
unfolding round_mana
round_mana_test = refl

abbrev knight : Body
knight = record {
  level = 2;
  experience = 150;
  level_percent = 50;
  health = 40;
  health_max = 155;
  mana = 10;
  mana_max = 60;
  capacity = 410;
}

abbrev knight_gains : Gains
knight_gains = record { hp = 15; mana = 5; cap = 25 }

abbrev plain_terms : Terms
plain_terms = record {
  stage = λ l e. e;
  stamina_system = true;
  stamina_minutes = 2520;
  is_premium = true;
  not_gain_experience = false;
  on_gain = λ e raw. some e;
  on_lose = λ e. some e;
}

knight-IsLevelled : IsLevelled get_exp_for_level knight
unfolding get_exp_for_level
knight-IsLevelled = record { reached = omega arith; below = omega arith }

-- 300 points are 450 with the stamina's bonus: from 150 to 600, which is level 4.
add_experience_test :
    add_experience get_exp_for_level knight_gains plain_terms true true 300 knight ≡ record {
      level = 4;
      experience = 600;
      level_percent = 50;
      health = 185;
      health_max = 185;
      mana = 70;
      mana_max = 70;
      capacity = 460;
    }
unfolding get_exp_for_level add_experience take_experience level_up put_experience rated grow
    put_percent refill get_percent_level
add_experience_test = refl

add_experience_lem_example :
    Advanced get_exp_for_level knight_gains 450 knight
      (add_experience get_exp_for_level knight_gains plain_terms true true 300 knight)
unfolding rated
add_experience_lem_example =
    add_experience_lem get_exp_for_level knight_gains plain_terms true true 300 450 knight
      knight-IsLevelled refl (omega arith)

remove_experience_lem_example :
    (remove_experience get_exp_for_level knight_gains plain_terms 100 knight).experience ≡ 50
unfolding get_exp_for_level
remove_experience_lem_example =
    (remove_experience_lem get_exp_for_level knight_gains plain_terms 100 100 knight
      knight-IsLevelled refl (omega arith) (omega arith) refl (omega arith) (omega arith)).1

get_exp_for_level_lem_example : get_exp_for_level 100 ≡ get_exp_for_level 99 + 50 * (98 * 97) + 100
get_exp_for_level_lem_example = (get_exp_for_level_lem 98 (omega arith)).1

abbrev day_frags : FragConfig
day_frags = record { frag_time = 86400; kills_to_red = 3; kills_to_black = 6 }

kills_lem_example : (kills day_frags 7).skull ≡ skull_black
unfolding expected_skull
kills_lem_example = (kills_lem day_frags 7 (omega arith)).0

abbrev friendly : Vip
friendly = record { guid = 1; max_vip_entries = 20; vip_list = 5 ∷ 8 ∷ [] }

friendly-IsVipList : IsVipList friendly
unfolding count
friendly-IsVipList = record { once = λ a. ground arith; others = refl; bounded = omega arith }

vip-IsVipList_example : IsVipList (add_vip 9 friendly).0
vip-IsVipList_example = (vip-IsVipList 9 friendly friendly-IsVipList).0
